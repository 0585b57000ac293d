-- ===== src/Panel/Aggregate/Laws.antt =====
-- What `aggregateMemoPanel` of app/worker/src/panel.js promises of every heading.
use mathlib.Core.Path.{subst}
use sonsteng_magnum_opus.Prelude.{
  bind_some, some_inj, ℕ, ◌+◌, ◌-◌, ◌*◌, true, ◌≤◌, ◌<◌, ◌≡◌, refl, ap, String, string_eq, Option,
  some, List, [], ◌∷◌, length, count, All, leb, arith,
}
use sonsteng_magnum_opus.Prelude.Value.{Value}
use sonsteng_magnum_opus.Prelude.Table.{Table, find}
use sonsteng_magnum_opus.Panel.Median.{discrete_median, discrete_median_halves}
use sonsteng_magnum_opus.Panel.Aggregate.Scores.{
  is_among, median_within, judge_within, min_of-AtLeast, max_of-AtMost, min_of_among, max_of_among,
  both,
}
use sonsteng_magnum_opus.Panel.Aggregate.{
  Heading, Entry, Observation, Result, heading_of, observation_of, observations_from, scores_of,
  min_of, max_of, result_of, results_of, aggregate_memo_panel,
}

-- The observation that stands for a grader's heading.
pub record IsObserved (n : ℕ) (id : String) (e : Entry) (o : Observation) : Type 0 where
  pub heading : Heading
  pub graded : heading_of id e.headings ≡ some heading
  pub number : o.grader_id ≡ n
  pub grader : o.grader ≡ e.grader
  pub score : o.score ≡ heading.score
  pub evidence : o.evidence_spans ≡ heading.evidence_spans
  pub rationale : o.rationale ≡ heading.rationale

-- One observation per grader, in their order, the graders being numbered from `n`.
abbrev pub Observes : ℕ → String → List Entry → List Observation → Type 0
Observes n id [] [] = Unit
Observes n id [] (o ∷ os) = ⊥
Observes n id (e ∷ es) [] = ⊥
Observes n id (e ∷ es) (o ∷ os) = IsObserved n id e o × Observes (n + 1) id es os

-- A fair result of some graders for a heading.
pub record IsFair (es : List Entry) (r : Result) : Type 0 where
  pub graders : Observes 1 r.heading_id es r.observations
  pub least : is_among r.observed_min (scores_of r.observations) ≡ true
  pub greatest : is_among r.observed_max (scores_of r.observations) ≡ true
  pub observed :
      All (λ (s : ℕ). (r.observed_min ≤ s) × (s ≤ r.observed_max)) (scores_of r.observations)
  pub lower_half :
      length r.observations ≤ 2 * count (λ (s : ℕ). leb s r.median_score) (scores_of r.observations)
  pub upper_half :
      length r.observations < 2 * count (λ (s : ℕ). leb r.median_score s) (scores_of r.observations)
  pub low : r.observed_min ≤ r.score
  pub high : r.score ≤ r.observed_max
  pub spread : r.spread ≡ r.observed_max - r.observed_min
  pub uncontested : r.spread < 2 → r.score ≡ r.median_score

length-scores_of : (os : List Observation) → length (scores_of os) ≡ length os
length-scores_of [] = refl
length-scores_of (o ∷ os) = omega (arith, length-scores_of os)

observations_from-Observes :
    (n : ℕ) (id : String) (es : List Entry) (os : List Observation)
    → observations_from n id es ≡ some os
    → Observes n id es os
unfolding observations_from
observations_from-Observes n id [] os h =
    subst (λ (l : List Observation). Observes n id [] l) (some_inj h) tt
observations_from-Observes n id (e ∷ es) os h =
    let (g, graded, h') = bind_some (heading_of id e.headings) _ os h in
    let (rest, there, end) = bind_some (observations_from (n + 1) id es) _ os h' in
    subst (λ (l : List Observation). Observes n id (e ∷ es) l) (some_inj end)
      (
        record {
          heading = g;
          graded = graded;
          number = refl;
          grader = refl;
          score = refl;
          evidence = refl;
          rationale = refl;
        },
        observations_from-Observes (n + 1) id es rest there,
      )

Observes-length :
    (n : ℕ) (id : String) (es : List Entry) (os : List Observation)
    → Observes n id es os
    → length os ≡ length es
Observes-length n id [] [] a = refl
Observes-length n id [] (o ∷ os) a = absurd a
Observes-length n id (e ∷ es) [] a = absurd a
Observes-length n id (e ∷ es) (o ∷ os) a = omega (arith, Observes-length (n + 1) id es os a.1)

result_of-IsFair :
    (proposed : Option Value) (id : String) (es : List Entry) (os : List Observation)
    → 0 < length os
    → Observes 1 id es os
    → IsFair es (result_of proposed id os)
unfolding result_of
result_of-IsFair proposed id es os h graders =
    let xs = scores_of os in
    let n = length-scores_of os in
    let some_scores : 0 < length xs = omega (arith, n) in
    let (a, b) = median_within xs some_scores in
    let (lower, upper) = discrete_median_halves xs some_scores in
    let (c, d, e) = judge_within proposed (min_of xs) (max_of xs) (discrete_median xs) a b in
    record {
      graders = graders;
      least = min_of_among xs some_scores;
      greatest = max_of_among xs some_scores;
      observed = both (min_of xs) (max_of xs) xs (min_of-AtLeast xs) (max_of-AtMost xs);
      lower_half = omega (arith, n, lower);
      upper_half = omega (arith, n, upper);
      low = c;
      high = d;
      spread = refl;
      uncontested = e;
    }

abbrev pub ids_of : List Result → List String
ids_of [] = []
ids_of (r ∷ rs) = r.heading_id ∷ ids_of rs

abbrev pub heading_ids : List Heading → List String
heading_ids [] = []
heading_ids (h ∷ hs) = h.heading_id ∷ heading_ids hs

results_of-IsFair :
    (adjudicated_scores : Table String Value) (es : List Entry) (hs : List Heading)
    (rs : List Result)
    → 0 < length es
    → results_of adjudicated_scores es hs ≡ some rs
    → All (IsFair es) rs × (ids_of rs ≡ heading_ids hs)
unfolding results_of
results_of-IsFair adjudicated_scores es [] rs some_es h =
    subst (λ (l : List Result). All (IsFair es) l × (ids_of l ≡ [])) (some_inj h) (tt, refl)
results_of-IsFair adjudicated_scores es (g ∷ hs) rs some_es h =
    let (os, graders, h') = bind_some (observations_from 1 g.heading_id es) _ rs h in
    let (rest, there, end) = bind_some (results_of adjudicated_scores es hs) _ rs h' in
    let seen = observations_from-Observes 1 g.heading_id es os graders in
    let n = Observes-length 1 g.heading_id es os seen in
    let r = result_of (find g.heading_id adjudicated_scores) g.heading_id os in
    let (fair, ids) = results_of-IsFair adjudicated_scores es hs rest some_es there in
    let first : IsFair es r =
      result_of-IsFair (find g.heading_id adjudicated_scores) g.heading_id es os (omega (arith, n))
        seen in
    let all : All (IsFair es) (r ∷ rest) = (first, fair) in
    subst (λ (l : List Result). All (IsFair es) l × (ids_of l ≡ heading_ids (g ∷ hs)))
      (some_inj end) (all, ap (λ (l : List String). g.heading_id ∷ l) ids)

-- An aggregate has a result for every heading of the first scorecard, in its order. Each is fair: one
-- observation per grader, in their order, with the score, the quotations and the rationale of the grader's
-- heading; the least and the greatest of these scores, and their lower median; a score between the least
-- and the greatest, whatever the adjudicator proposed; and the median itself where these two are less than
-- two apart.
pub aggregate_memo_panel-IsFair :
    (first : Entry) (es : List Entry) (adjudicated_scores : Table String Value) (rs : List Result)
    → aggregate_memo_panel (first ∷ es) adjudicated_scores ≡ some rs
    → All (IsFair (first ∷ es)) rs × (ids_of rs ≡ heading_ids first.headings)
unfolding aggregate_memo_panel
aggregate_memo_panel-IsFair first es adjudicated_scores rs h =
    results_of-IsFair adjudicated_scores (first ∷ es) first.headings rs (omega arith) h

abbrev pub Grades : String → Entry → Type 0
Grades id e = (h : Heading) × (heading_of id e.headings ≡ some h)

observations_found :
    (n : ℕ) (id : String) (es : List Entry)
    → All (Grades id) es
    → (os : List Observation) × (observations_from n id es ≡ some os)
unfolding observations_from
observations_found n id [] a = ([], refl)
observations_found n id (e ∷ es) a =
    let (h, there) = a.0 in
    let (os, rest) = observations_found (n + 1) id es a.1 in
    (observation_of n e h ∷ os, rw (there, rest) refl)

results_found :
    (adjudicated_scores : Table String Value) (es : List Entry) (hs : List Heading)
    → All (λ (g : Heading). All (Grades g.heading_id) es) hs
    → (rs : List Result) × (results_of adjudicated_scores es hs ≡ some rs)
unfolding results_of
results_found adjudicated_scores es [] a = ([], refl)
results_found adjudicated_scores es (g ∷ hs) a =
    let (os, there) = observations_found 1 g.heading_id es a.0 in
    let (rs, rest) = results_found adjudicated_scores es hs a.1 in
    (result_of (find g.heading_id adjudicated_scores) g.heading_id os ∷ rs, rw (there, rest) refl)

-- Where every scorecard grades every heading of the first one, the aggregate has a result.
pub aggregate_memo_panel_total :
    (first : Entry) (es : List Entry) (adjudicated_scores : Table String Value)
    → All (λ (g : Heading). All (Grades g.heading_id) (first ∷ es)) first.headings
    → (rs : List Result) × (aggregate_memo_panel (first ∷ es) adjudicated_scores ≡ some rs)
unfolding aggregate_memo_panel
aggregate_memo_panel_total first es adjudicated_scores a =
    results_found adjudicated_scores (first ∷ es) first.headings a
