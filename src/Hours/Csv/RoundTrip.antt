-- ===== src/Hours/Csv/RoundTrip.antt =====
-- What `toCSV` of app/hours/hours-core.js writes, `parseCSV` of the same file reads back.
use mathlib.Core.Path.{subst}
use sonsteng_magnum_opus.Prelude.{
  ℕ, Bool, true, false, ◌≡◌, refl, sym, ap, ◌∙◌, List, [], ◌∷◌, ◌++◌, map, select, length, ◌≤◌,
  le→leb, nat_beq_iff, leb, nat_beq, All, arith, inl, inr, Bool-cases,
}
use mathlib.Core.List.{append-nil, append_assoc}
use sonsteng_magnum_opus.Hours.{Units, Tenths, HoursEntry, Contribution, HoursLog}
use sonsteng_magnum_opus.Hours.Csv.{
  headers, join, safe_cell, doubled, quote, entry_row, contribution_row, body_rows, to_csv, chomp,
  parse_rows, assigned, objects, parse_csv,
}

-- In quotes, a character that is no quote is added to the cell.
parse_rows_plain :
    (cell : Units) (row : List Units) (c : ℕ) (s : Units)
    → nat_beq c 34 ≡ false
    → parse_rows true cell row (c ∷ s) ≡ parse_rows true (cell ++ (c ∷ [])) row s
unfolding parse_rows
parse_rows_plain cell row c [] h = refl
parse_rows_plain cell row c (d ∷ s) h = rw (parse_rows, h) refl

-- The end of the quotes.
parse_rows_close :
    (cell : Units) (row : List Units) (d : ℕ) (s : Units)
    → nat_beq d 34 ≡ false
    → parse_rows true cell row (34 ∷ d ∷ s) ≡ parse_rows false cell row (d ∷ s)
unfolding parse_rows
parse_rows_close cell row d s h =
    subst
      (λ (b : Bool).
        elim b as (λ x. List (List Units)) [
          | false ↦ parse_rows false cell row (d ∷ s)
          | true ↦ parse_rows true (cell ++ (34 ∷ [])) row s
        ]
        ≡ parse_rows false cell row (d ∷ s))
      (sym h) refl

-- The quoted form of a text is read as the text, where the next character is no quote.
parse_rows-doubled :
    (t cell : Units) (row : List Units) (d : ℕ) (s : Units)
    → nat_beq d 34 ≡ false
    → parse_rows true cell row (doubled t ++ (34 ∷ d ∷ s))
      ≡ parse_rows false (cell ++ t) row (d ∷ s)
unfolding parse_rows
parse_rows-doubled [] cell row d s h =
    parse_rows_close cell row d s h
    ∙ ap (λ (l : Units). parse_rows false l row (d ∷ s)) (sym (append-nil cell))
parse_rows-doubled (c ∷ t) cell row d s h =
    let last : parse_rows true (cell ++ (c ∷ [])) row (doubled t ++ (34 ∷ d ∷ s))
        ≡ parse_rows false (cell ++ (c ∷ t)) row (d ∷ s) =
      parse_rows-doubled t (cell ++ (c ∷ [])) row d s h
      ∙ ap (λ (l : Units). parse_rows false l row (d ∷ s)) (append_assoc cell (c ∷ []) t) in
    elim (Bool-cases (nat_beq c 34)) [
      | inr other ↦ rw other (parse_rows_plain cell row c (doubled t ++ (34 ∷ d ∷ s)) other ∙ last)
      | inl q ↦ rw q (
          ap (λ (e : ℕ). parse_rows true (cell ++ (e ∷ [])) row (doubled t ++ (34 ∷ d ∷ s)))
            (sym ((nat_beq_iff c 34).0 q))
          ∙ last)
    ]

-- A cell and the comma after it.
parse_rows_cell :
    (c : Units) (row : List Units) (s : Units)
    → parse_rows false [] row (quote c ++ (44 ∷ s))
      ≡ parse_rows false [] (row ++ (safe_cell c ∷ [])) s
unfolding parse_rows quote
parse_rows_cell c row s =
    ap (λ (l : Units). parse_rows true [] row l)
      (append_assoc (doubled (safe_cell c)) (34 ∷ []) (44 ∷ s))
    ∙ parse_rows-doubled (safe_cell c) [] row 44 s refl

chomp_end : (s : Units) → chomp (s ++ (13 ∷ [])) ≡ s
chomp_end [] = refl
chomp_end (c ∷ []) = refl
chomp_end (c ∷ d ∷ s) = ap (λ (l : Units). c ∷ l) (chomp_end (d ∷ s))

-- The last cell of a row and the line break after it.
parse_rows_end :
    (c : Units) (row : List Units) (s : Units)
    → parse_rows false [] row (quote c ++ (13 ∷ 10 ∷ s))
      ≡ (row ++ (safe_cell c ∷ [])) ∷ parse_rows false [] [] s
unfolding parse_rows quote
parse_rows_end c row s =
    ap (λ (l : Units). parse_rows true [] row l)
      (append_assoc (doubled (safe_cell c)) (34 ∷ []) (13 ∷ 10 ∷ s))
    ∙ parse_rows-doubled (safe_cell c) [] row 13 (10 ∷ s) refl
    ∙ ap (λ (l : Units). (row ++ (l ∷ [])) ∷ parse_rows false [] [] s) (chomp_end (safe_cell c))

abbrev line : List Units → Units
line r = join (44 ∷ []) (map quote r)

parse_rows-line :
    (r row : List Units) (s : Units)
    → 1 ≤ length r
    → parse_rows false [] row (line r ++ (13 ∷ 10 ∷ s))
      ≡ (row ++ map safe_cell r) ∷ parse_rows false [] [] s
parse_rows-line [] row s h = absurd (omega (arith, h))
parse_rows-line (c ∷ []) row s h = parse_rows_end c row s
parse_rows-line (c ∷ d ∷ r) row s h =
    ap (λ (l : Units). parse_rows false [] row l)
      (append_assoc (quote c) (44 ∷ line (d ∷ r)) (13 ∷ 10 ∷ s))
    ∙ parse_rows_cell c row (line (d ∷ r) ++ (13 ∷ 10 ∷ s))
    ∙ parse_rows-line (d ∷ r) (row ++ (safe_cell c ∷ [])) s (omega arith)
    ∙ ap (λ (l : List Units). l ∷ parse_rows false [] [] s)
        (append_assoc row (safe_cell c ∷ []) (map safe_cell (d ∷ r)))

abbrev HasCells : List Units → Type 0
HasCells r = 2 ≤ length r

abbrev crlf : Units
crlf = 13 ∷ 10 ∷ []

parse_rows-lines :
    (r : List Units) (rs : List (List Units))
    → All HasCells (r ∷ rs)
    → parse_rows false [] [] (join crlf (map line (r ∷ rs)) ++ crlf) ≡ map (map safe_cell) (r ∷ rs)
unfolding parse_rows
parse_rows-lines r [] a = parse_rows-line r [] [] (omega (arith, a.0))
parse_rows-lines r (q ∷ rs) a =
    ap (λ (l : Units). parse_rows false [] [] l)
      (append_assoc (line r) (13 ∷ 10 ∷ join crlf (map line (q ∷ rs))) crlf)
    ∙ parse_rows-line r [] (join crlf (map line (q ∷ rs)) ++ crlf) (omega (arith, a.0))
    ∙ ap (λ (l : List (List Units)). map safe_cell r ∷ l) (parse_rows-lines q rs a.1)

length-map : (f : Units → Units) (r : List Units) → length (map f r) ≡ length r
length-map f [] = refl
length-map f (x ∷ r) = omega (arith, length-map f r)

select_whole :
    (rs : List (List Units))
    → All HasCells rs
    → select (λ (r : List Units). leb 2 (length r)) (map (map safe_cell) rs)
      ≡ map (map safe_cell) rs
select_whole [] a = refl
select_whole (r ∷ rs) a =
    rw (le→leb 2 (length (map safe_cell r)) (omega (arith, a.0, length-map safe_cell r)))
      (ap (λ (l : List (List Units)). map safe_cell r ∷ l) (select_whole rs a.1))

map-map :
    (rs : List (List Units))
    → map (assigned headers) (map (map safe_cell) rs)
      ≡ map (λ (r : List Units). assigned headers (map safe_cell r)) rs
map-map [] = refl
map-map (r ∷ rs) =
    ap (λ (l : List (List (Units × Units))). assigned headers (map safe_cell r) ∷ l) (map-map rs)

module _ (hours_text : Tenths → Units) where
  entries_wide :
      (es : List HoursEntry) (cs : List Contribution)
      → All HasCells (map (entry_row hours_text) es ++ map (contribution_row hours_text) cs)
  unfolding entry_row contribution_row
  entries_wide [] [] = tt
  entries_wide [] (c ∷ cs) = (omega arith, entries_wide [] cs)
  entries_wide (e ∷ es) cs = (omega arith, entries_wide es cs)

  -- An exported log is read back whole and in order: one object per entry and per contribution, with
  -- every cell under its header, whatever commas, quotes and line breaks the cells hold; a cell that starts
  -- like a formula comes back behind the apostrophe that the export puts there.
  pub parse-to_csv :
      (doc : HoursLog)
      → parse_csv (to_csv hours_text doc)
        ≡ map (λ (r : List Units). assigned headers (map safe_cell r)) (body_rows hours_text doc)
  unfolding parse_csv to_csv body_rows safe_cell
  parse-to_csv doc =
      let rows = body_rows hours_text doc in
      let wide = entries_wide doc.entries doc.contribution_log in
      ap objects (parse_rows-lines headers rows (omega arith, wide))
      ∙ ap (map (assigned headers)) (select_whole rows wide)
      ∙ map-map rows
