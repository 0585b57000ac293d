-- ===== src/Hours/Examples.antt =====
-- Runs of the hours log: an entry whose cells hold a quote, a comma and a formula, and a merge with one
-- new entry and one conflict.
use sonsteng_magnum_opus.Prelude.{
  ℕ, ◌≡◌, refl, Bool, true, List, [], ◌∷◌, map, any, nat_beq, leb, ◌==◌, nat_eq, list_eq,
  if◌then◌else◌,
}
use sonsteng_magnum_opus.Prelude.Text.{codes}
use sonsteng_magnum_opus.Hours.{Units, Tenths, plus, minus, HoursEntry, Contribution, HoursLog}
use sonsteng_magnum_opus.Hours.Csv.{
  headers, safe_cell, assigned, body_rows, to_csv, parse_csv, quote,
}
use sonsteng_magnum_opus.Hours.Csv.RoundTrip.{parse-to_csv}
use sonsteng_magnum_opus.Hours.Merge.{Conflict, row_of, merge, merge_rows, merge_row, without}
use sonsteng_magnum_opus.Hours.Merge.Pointwise.{merged, differ, merge_pointwise}

-- Whole hours below ten.
abbrev hours_text : Tenths → Units
hours_text (plus n) = if leb 50 n then codes "6" else codes "2"
hours_text (minus n) = codes "-1"

abbrev entry : Units → ℕ → HoursEntry
entry id worked = record {
  id = id;
  date = codes "2026-11-02";
  project = codes "a, \"b\"";
  matter = [];
  activity = codes "=1+1";
  worked_hours = worked;
  billable_hours = 20;
  class_time = true;
  narrative = codes "";
}

abbrev note : Contribution
note = record {
  id = codes "c1";
  deliverable_id = codes "d";
  deliverable_title = codes "brief";
  contribution_date = codes "2026-11-03";
  contribution_type = codes "draft";
  description = codes "x";
  related_entry_ids = codes "e1" ∷ codes "e2" ∷ [];
}

abbrev doc : HoursLog
doc = record {
  learner_id = codes "l";
  offering_id = codes "o";
  week_start = codes "2026-11-02";
  week_end = codes "2026-11-08";
  entries = entry (codes "e1") 60 ∷ [];
  contribution_log = note ∷ [];
}

parse-to_csv_example :
    parse_csv (to_csv hours_text doc)
    ≡ map (λ (r : List Units). assigned headers (map safe_cell r)) (body_rows hours_text doc)
parse-to_csv_example = parse-to_csv hours_text doc

quote_test : quote (codes "=\"") ≡ 34 ∷ 39 ∷ 61 ∷ 34 ∷ 34 ∷ 34 ∷ []
unfolding quote safe_cell
quote_test = refl

-- The entries here differ in their hours only.
abbrev same : HoursEntry → HoursEntry → Bool
same a b = nat_beq a.worked_hours b.worked_hours

abbrev id_of : HoursEntry → Units
id_of e = e.id

abbrev ours : List HoursEntry
ours = entry (codes "e1") 60 ∷ entry (codes "e2") 30 ∷ []

abbrev theirs : List HoursEntry
theirs = entry (codes "e2") 40 ∷ entry (codes "e3") 50 ∷ []

merge_pointwise_example :
    (row_of id_of same (codes "e2") (merge id_of same ours theirs).0
      ≡ merged id_of same
          (row_of id_of same (codes "e2") ours)
          (row_of id_of same (codes "e2") theirs))
    × (any (λ (c : Conflict id_of same). c.id == codes "e2") (merge id_of same ours theirs).1
        ≡ differ id_of same
            (row_of id_of same (codes "e2") ours)
            (row_of id_of same (codes "e2") theirs))
unfolding row_of
merge_pointwise_example = merge_pointwise id_of same ours theirs (codes "e2") (refl, (refl, tt))

merge_test : (merge id_of same ours theirs).0 ≡ entry (codes "e1") 60 ∷ entry (codes "e3") 50 ∷ []
unfolding merge merge_rows merge_row without row_of
merge_test = refl
