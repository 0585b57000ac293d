-- ===== src/Editor/Batches/Members.antt =====
-- The rows of a table and the sets of ids that `claimBatch` of
-- app/worker/src/editor-store-core.js builds from them.
use sonsteng_magnum_opus.Prelude.{
  String, string_eq, ◌≡◌, refl, sym, ap, ◌∙◌, Bool, true, false, ◌||◌, List, [], ◌∷◌, ◌++◌, ◌==◌,
  ==_self, if◌then◌else◌, arith, inl, inr, ◌⊎◌, Bool-cases,
}
use sonsteng_magnum_opus.Editor.Rows.{Suggestion, Rows, rows_where}
use sonsteng_magnum_opus.Editor.Batches.{
  is_in, rows_in, is_accepted, candidates, add, add_all, ids_of, all_accepted,
}

-- A row of the list.
pub data IsRow (id : String) (r : Suggestion) : Rows → Type 0 where
  first : {t : Rows} → IsRow id r ((id, r) ∷ t)
  later : {m : String × Suggestion} {t : Rows} → IsRow id r t → IsRow id r (m ∷ t)

pub is_in-append :
    (xs ys : List String) (id : String) → is_in (xs ++ ys) id ≡ (is_in xs id || is_in ys id)
is_in-append [] ys id = refl
is_in-append (x ∷ xs) ys id = ground (arith, is_in-append xs ys id)

pub is_in-add :
    (j : String) (ids : List String) (id : String)
    → is_in (add j ids) id ≡ (is_in ids id || j == id)
is_in-add j ids id = ground (arith, is_in-append ids (j ∷ []) id, string_eq.beq_iff j id)

pub is_in-add_all :
    (js ids : List String) (id : String) → is_in (add_all js ids) id ≡ (is_in ids id || is_in js id)
is_in-add_all [] ids id = ground arith
is_in-add_all (j ∷ js) ids id = ground (arith, is_in-add_all js (add j ids) id, is_in-add j ids id)

pub kept-IsRow :
    (b : Bool) (id : String) (r : Suggestion) (m : String × Suggestion) (rest t : Rows)
    → IsRow id r (if b then m ∷ rest else rest)
    → ((b ≡ true) × (m.1 ≡ r) × IsRow id r (m ∷ t)) ⊎ IsRow id r rest
kept-IsRow true id r m rest t first = inl (refl, refl, first)
kept-IsRow true id r m rest t (later k) = inr k
kept-IsRow false id r m rest t k = inr k

pub where-IsRow :
    (p : Suggestion → Bool) (id : String) (r : Suggestion) (t : Rows)
    → IsRow id r (rows_where p t)
    → IsRow id r t × (p r ≡ true)
unfolding rows_where
where-IsRow p id r [] m = elim m [ ]
where-IsRow p id r ((j, w) ∷ t) m = elim (kept-IsRow (p w) id r (j, w) (rows_where p t) t m) [
  | inl (e, is, k) ↦ (k, sym (ap p is) ∙ e)
  | inr k ↦ let (n, h) = where-IsRow p id r t k in (later n, h)
]

pub in_rows :
    (id : String) (t : Rows) → is_in (ids_of t) id ≡ true → (r : Suggestion) × IsRow id r t
in_rows id [] h = absurd (ground (arith, h))
in_rows id ((j, w) ∷ t) h = elim (Bool-cases (j == id)) [
  | inl same ↦ (w, rw ((string_eq.beq_iff j id).0 same) first)
  | inr other ↦ let (r, m) = in_rows id t (ground (arith, h, other)) in (r, later m)
]

pub row_in : (id : String) (r : Suggestion) (t : Rows) → IsRow id r t → is_in (ids_of t) id ≡ true
row_in id r [] m = elim m [ ]
row_in id r ((j, w) ∷ t) first = ground (arith, ==_self id)
row_in id r ((j, w) ∷ t) (later m) = ground (arith, row_in id r t m)

pub row_accepted :
    (id : String) (r : Suggestion) (t : Rows)
    → all_accepted t ≡ true
    → IsRow id r t
    → is_accepted r ≡ true
row_accepted id r [] h m = elim m [ ]
row_accepted id r ((j, w) ∷ t) h first = ground (arith, h)
row_accepted id r ((j, w) ∷ t) h (later m) = row_accepted id r t (ground (arith, h)) m

pub rows_in-IsRow :
    (ids : List String) (id : String) (r : Suggestion) (t : Rows)
    → IsRow id r (rows_in ids t)
    → IsRow id r t
unfolding rows_in
rows_in-IsRow ids id r [] m = elim m [ ]
rows_in-IsRow ids id r ((j, w) ∷ t) m =
    elim (kept-IsRow (is_in ids j) id r (j, w) (rows_in ids t) t m) [
      | inl (_, _, k) ↦ k
      | inr k ↦ later (rows_in-IsRow ids id r t k)
    ]

pub candidate-IsRow :
    (ids : List String) (id : String) (r : Suggestion) (t : Rows)
    → IsRow id r (candidates ids t)
    → IsRow id r t
unfolding candidates
candidate-IsRow [] id r t m = (where-IsRow is_accepted id r t m).0
candidate-IsRow (j ∷ ids) id r t m = rows_in-IsRow (j ∷ ids) id r t m
