-- ===== src/Panel/Aggregate.antt =====
-- `aggregateMemoPanel` of app/worker/src/panel.js on scorecards that were validated before.
pub mod Scores
pub mod Laws
use sonsteng_magnum_opus.Prelude.{
  ℕ, zero, suc, ◌+◌, ◌-◌, String, Bool, true, false, Option, none, some, List, [], ◌∷◌, length, map,
  ◌==◌, string_eq, leb, ◌>>=◌, if◌then◌else◌,
}
use sonsteng_magnum_opus.Prelude.Value.{Value, nat, negative}
use sonsteng_magnum_opus.Prelude.Table.{Table, find}
use sonsteng_magnum_opus.Panel.Median.{discrete_median}

pub record Provenance : Type 0 where
  pub provider : String
  pub model : String
  pub mode : String

pub record Heading : Type 0 where
  pub heading_id : String
  pub score : ℕ
  pub evidence_spans : List String
  pub rationale : String

-- A grader's scorecard, with `safeProvenance(entry.grader)`.
pub record Entry : Type 0 where
  pub grader : Provenance
  pub headings : List Heading

-- The grader's number, from 1, stands for `grader-${index + 1}`.
pub record Observation : Type 0 where
  pub grader_id : ℕ
  pub grader : Provenance
  pub score : ℕ
  pub evidence_spans : List String
  pub rationale : String

pub data Adjudication : Type 0 where
  not_triggered triggered : Adjudication
  adjudicated : Value → ℕ → Adjudication

pub record Result : Type 0 where
  pub heading_id : String
  pub score : ℕ
  pub median_score : ℕ
  pub observed_min : ℕ
  pub observed_max : ℕ
  pub spread : ℕ
  pub adjudication : Adjudication
  pub observations : List Observation

-- `headingMap(scorecard).get(id)`: of headings with one id the map keeps the last.
unfoldable pub heading_of : String → List Heading → Option Heading
heading_of id [] = none
heading_of id (h ∷ hs) = elim (heading_of id hs) [
  | none ↦ if h.heading_id == id then some h else none
  | some later ↦ some later
]

abbrev pub observation_of : ℕ → Entry → Heading → Observation
observation_of n e h = record {
  grader_id = n;
  grader = e.grader;
  score = h.score;
  evidence_spans = h.evidence_spans;
  rationale = h.rationale;
}

-- The observations of a heading, the entries being numbered from `n`; `none` is the `TypeError` of a
-- scorecard without the heading.
unfoldable pub observations_from : ℕ → String → List Entry → Option (List Observation)
observations_from n id [] = some []
observations_from n id (e ∷ es) = do
  h ← heading_of id e.headings
  rest ← observations_from (n + 1) id es
  some (observation_of n e h ∷ rest)

abbrev pub scores_of : List Observation → List ℕ
scores_of [] = []
scores_of (o ∷ os) = o.score ∷ scores_of os

-- `Math.min(...scores)` and `Math.max(...scores)`: of no score they are infinite, which does not
-- arise with an entry.
unfoldable pub min_of : List ℕ → ℕ
min_of [] = 0
min_of (x ∷ []) = x
min_of (x ∷ y ∷ ys) = let m = min_of (y ∷ ys) in if leb x m then x else m

unfoldable pub max_of : List ℕ → ℕ
max_of [] = 0
max_of (x ∷ xs) = let m = max_of xs in if leb m x then x else m

abbrev pub minimum : ℕ → ℕ → ℕ
minimum a b = if leb a b then a else b

abbrev pub maximum : ℕ → ℕ → ℕ
maximum a b = if leb b a then a else b

-- `Math.min(observedMax, Math.max(observedMin, proposed))` of an integer; `none` of anything else.
abbrev pub constrain : ℕ → ℕ → Option Value → Option (Value × ℕ)
constrain low high (some (nat n)) = some (nat n, minimum high (maximum low n))
constrain low high (some (negative n)) = some (negative n, minimum high low)
constrain low high _ = none

abbrev pub judged : ℕ → Option (Value × ℕ) → ℕ × Adjudication
judged median none = (median, triggered)
judged median (some (proposed, score)) = (score, adjudicated proposed score)

-- The score of a heading and its `adjudication`.
abbrev pub judge : Option Value → ℕ → ℕ → ℕ → ℕ × Adjudication
judge proposed low high median =
    if leb 2 (high - low)
    then judged median (constrain low high proposed)
    else (median, not_triggered)

unfoldable pub result_of : Option Value → String → List Observation → Result
unfolding min_of max_of
result_of proposed id observations =
    let scores = scores_of observations in
    let low = min_of scores in
    let high = max_of scores in
    let median = discrete_median scores in
    let (score, adjudication) = judge proposed low high median in
    record {
      heading_id = id;
      score = score;
      median_score = median;
      observed_min = low;
      observed_max = high;
      spread = high - low;
      adjudication = adjudication;
      observations = observations;
    }

unfoldable pub results_of : Table String Value → List Entry → List Heading → Option (List Result)
unfolding result_of observations_from
results_of adjudicated_scores entries [] = some []
results_of adjudicated_scores entries (h ∷ hs) = do
  observations ← observations_from 1 h.heading_id entries
  rest ← results_of adjudicated_scores entries hs
  some (result_of (find h.heading_id adjudicated_scores) h.heading_id observations ∷ rest)

-- `none` is a `TypeError`.
unfoldable pub aggregate_memo_panel : List Entry → Table String Value → Option (List Result)
unfolding results_of
aggregate_memo_panel [] adjudicated_scores = none
aggregate_memo_panel (e ∷ es) adjudicated_scores = results_of adjudicated_scores (e ∷ es) e.headings
