-- ===== src/Panel/Examples.antt =====
-- Runs of the memo panel: two graders, one heading that they agree on and one that is contested.
use mathlib.Core.Path.{refl}
use sonsteng_magnum_opus.Prelude.{
  ℕ, ◌*◌, ◌≤◌, ◌<◌, ◌≡◌, String, string_eq, none, some, List, [], ◌∷◌, All, count, leb, arith,
}
use sonsteng_magnum_opus.Prelude.Value.{Value, nat}
use sonsteng_magnum_opus.Prelude.Table.{Table, find}
use sonsteng_magnum_opus.Panel.Median.{
  discrete_median, insert, ordered, score_at, discrete_median_halves,
}
use sonsteng_magnum_opus.Panel.Aggregate.{
  Heading, Entry, Result, aggregate_memo_panel, heading_of, observation_of, result_of, results_of,
  observations_from,
}
use sonsteng_magnum_opus.Panel.Aggregate.Laws.{IsFair, ids_of, aggregate_memo_panel-IsFair}

discrete_median_test : discrete_median (6 ∷ 2 ∷ 5 ∷ 3 ∷ []) ≡ 3
unfolding discrete_median insert ordered score_at
discrete_median_test = refl

discrete_median_halves_example :
    (4 ≤ 2 * count (λ (y : ℕ). leb y (discrete_median (6 ∷ 2 ∷ 5 ∷ 3 ∷ []))) (6 ∷ 2 ∷ 5 ∷ 3 ∷ []))
    × (4 < 2 * count (λ (y : ℕ). leb (discrete_median (6 ∷ 2 ∷ 5 ∷ 3 ∷ [])) y) (6 ∷ 2 ∷ 5 ∷ 3 ∷ []))
discrete_median_halves_example = discrete_median_halves (6 ∷ 2 ∷ 5 ∷ 3 ∷ []) (omega arith)

abbrev graded : String → ℕ → Heading
graded id n = record { heading_id = id; score = n; evidence_spans = []; rationale = "" }

abbrev by_model : String → List Heading → Entry
by_model name hs = record {
  grader = record { provider = "p"; model = name; mode = "byok" };
  headings = hs;
}

abbrev first_card : Entry
first_card = by_model "a" (graded "facts" 4 ∷ graded "law" 2 ∷ [])

abbrev other_card : Entry
other_card = by_model "b" (graded "law" 6 ∷ graded "facts" 5 ∷ [])

abbrev proposals : Table String Value
proposals = ("law", nat 9) ∷ []

abbrev results : List Result
results =
    result_of none "facts" (
      observation_of 1 first_card (graded "facts" 4)
      ∷ observation_of 2 other_card (graded "facts" 5)
      ∷ [])
    ∷ result_of (some (nat 9)) "law" (
        observation_of 1 first_card (graded "law" 2)
        ∷ observation_of 2 other_card (graded "law" 6)
        ∷ [])
    ∷ []

aggregate_memo_panel-IsFair_example :
    All (IsFair (first_card ∷ other_card ∷ [])) results × (ids_of results ≡ "facts" ∷ "law" ∷ [])
unfolding aggregate_memo_panel results_of observations_from heading_of find result_of
aggregate_memo_panel-IsFair_example =
    aggregate_memo_panel-IsFair first_card (other_card ∷ []) proposals results refl
