-- ===== src/Hours/Csv.antt =====
-- `toCSV` and `parseCSV` of app/hours/hours-core.js. JavaScript's `String` of a number of tenths is an
-- argument.
pub mod RoundTrip
use sonsteng_magnum_opus.Prelude.{
  ℕ, Bool, true, false, ◌||◌, String, List, [], ◌∷◌, ◌++◌, map, select, length, leb, nat_beq,
  if◌then◌else◌,
}
use sonsteng_magnum_opus.Prelude.Text.{codes}
use sonsteng_magnum_opus.Hours.{Units, Tenths, plus, difference, HoursEntry, Contribution, HoursLog}

abbrev pub header_names : List String
header_names =
    "record_type" ∷ "entry_id" ∷ "date" ∷ "project" ∷ "matter" ∷ "activity" ∷ "worked_hours"
    ∷ "billable_hours" ∷ "gap_hours" ∷ "class_time" ∷ "narrative" ∷ "contribution_id"
    ∷ "deliverable_id" ∷ "deliverable_title" ∷ "contribution_date" ∷ "contribution_type"
    ∷ "description" ∷ "related_entry_ids" ∷ []

abbrev pub headers : List Units
headers = map codes header_names

-- `xs.join(sep)`
abbrev pub join : Units → List Units → Units
join sep [] = []
join sep (x ∷ []) = x
join sep (x ∷ y ∷ ys) = x ++ (sep ++ join sep (y ∷ ys))

-- A cell that a spreadsheet would read as a formula.
abbrev pub is_formula : Units → Bool
is_formula [] = false
is_formula (c ∷ s) = nat_beq c 61 || nat_beq c 43 || nat_beq c 45 || nat_beq c 64

unfoldable pub safe_cell : Units → Units
safe_cell s = if is_formula s then 39 ∷ s else s

-- `s.replace(/"/g, '""')`
abbrev pub doubled : Units → Units
doubled [] = []
doubled (c ∷ s) = let rest = doubled s in if nat_beq c 34 then 34 ∷ 34 ∷ rest else c ∷ rest

unfoldable pub quote : Units → Units
unfolding safe_cell
quote s = 34 ∷ (doubled (safe_cell s) ++ (34 ∷ []))

abbrev pub bool_text : Bool → Units
bool_text true = codes "true"
bool_text false = codes "false"

abbrev pub blank : Units
blank = []

module _ (hours_text : Tenths → Units) where
  unfoldable pub entry_row : HoursEntry → List Units
  entry_row e =
      codes "entry"
      ∷ e.id
      ∷ e.date
      ∷ e.project
      ∷ e.matter
      ∷ e.activity
      ∷ hours_text (plus e.worked_hours)
      ∷ hours_text (plus e.billable_hours)
      ∷ hours_text (difference e.worked_hours e.billable_hours)
      ∷ bool_text e.class_time
      ∷ e.narrative
      ∷ blank
      ∷ blank
      ∷ blank
      ∷ blank
      ∷ blank
      ∷ blank
      ∷ blank
      ∷ []

  unfoldable pub contribution_row : Contribution → List Units
  contribution_row c =
      codes "contribution"
      ∷ blank
      ∷ blank
      ∷ blank
      ∷ blank
      ∷ blank
      ∷ blank
      ∷ blank
      ∷ blank
      ∷ blank
      ∷ blank
      ∷ c.id
      ∷ c.deliverable_id
      ∷ c.deliverable_title
      ∷ c.contribution_date
      ∷ c.contribution_type
      ∷ c.description
      ∷ join (124 ∷ []) c.related_entry_ids
      ∷ []

  -- The rows after the headers.
  unfoldable pub body_rows : HoursLog → List (List Units)
  unfolding entry_row contribution_row
  body_rows doc = map entry_row doc.entries ++ map contribution_row doc.contribution_log

  unfoldable pub to_csv : HoursLog → Units
  unfolding body_rows quote
  to_csv doc =
      join (13 ∷ 10 ∷ [])
        (map (λ (r : List Units). join (44 ∷ []) (map quote r)) (headers ∷ body_rows doc))
      ++ (13 ∷ 10 ∷ [])

-- `cell.replace(/\r$/, '')`
abbrev pub chomp : Units → Units
chomp [] = []
chomp (c ∷ []) = if nat_beq c 13 then [] else c ∷ []
chomp (c ∷ d ∷ s) = c ∷ chomp (d ∷ s)

-- The rows that are complete, from a position where `quoted`, `cell` and `row` have these values. A last
-- row without a line feed is dropped.
unfoldable pub parse_rows : Bool → Units → List Units → Units → List (List Units)
parse_rows quoted cell row [] = []
parse_rows true cell row (c ∷ []) = []
parse_rows true cell row (c ∷ d ∷ s) = elim (nat_beq c 34) [
  | false ↦ parse_rows true (cell ++ (c ∷ [])) row (d ∷ s)
  | true ↦ elim (nat_beq d 34) [
    | true ↦ parse_rows true (cell ++ (34 ∷ [])) row s
    | false ↦ parse_rows false cell row (d ∷ s)
  ]
]
parse_rows false cell row (c ∷ s) = elim (nat_beq c 34) [
  | true ↦ parse_rows true cell row s
  | false ↦ elim (nat_beq c 44) [
    | true ↦ parse_rows false [] (row ++ (cell ∷ [])) s
    | false ↦ elim (nat_beq c 10) [
      | true ↦ (row ++ (chomp cell ∷ [])) ∷ parse_rows false [] [] s
      | false ↦ parse_rows false (cell ++ (c ∷ [])) row s
    ]
  ]
]

-- `headers.forEach(function (h, j) { o[h] = r[j] || ''; })` as the sequence of its assignments.
abbrev pub assigned : List Units → List Units → List (Units × Units)
assigned [] r = []
assigned (h ∷ hs) [] = (h, []) ∷ assigned hs []
assigned (h ∷ hs) (x ∷ r) = (h, x) ∷ assigned hs r

abbrev pub objects : List (List Units) → List (List (Units × Units))
objects [] = []
objects (hs ∷ rows) = map (assigned hs) (select (λ (r : List Units). leb 2 (length r)) rows)

unfoldable pub parse_csv : Units → List (List (Units × Units))
unfolding parse_rows
parse_csv s = objects (parse_rows false [] [] s)
