-- ===== src/Editor/Batches/Moves.antt =====
-- `claimBatch` and `reconcile` of app/worker/src/editor-store-core.js stay in the machine.
use sonsteng_magnum_opus.Prelude.{
  ℕ, ◌+◌, String, string_eq, refl, Option, List, [], ◌∷◌, inl, inr, Bool-cases, Option-cases, ◌&&◌,
}
use sonsteng_magnum_opus.Prelude.Table.{Table, find}
use sonsteng_magnum_opus.Editor.Status.{accepted, in_flight, applied}
use sonsteng_magnum_opus.Editor.Rows.{Suggestion, Batch, Store, ids_where, transition}
use sonsteng_magnum_opus.Editor.Rows.Evolution.{
  Evolves, Evolves-refl, Evolves-trans, transition-Evolves, transition_all-Evolves, Keeps,
}
use sonsteng_magnum_opus.Editor.Batches.{
  claim_ids, lease_extra, open_batch, claim_batch, pre_merged, is_in, is_open, lease_over, of_batch,
  is_in_flight, release_extra, done_extra, Swept, sweep_batch, sweep_batches, is_orphan,
  row_has_open_batch, sweep_orphans, reconcile,
}

Keeps-lease_extra : (batch : String) (lease : ℕ) → Keeps (lease_extra batch lease)
Keeps-lease_extra batch lease r = record {
  editor = refl;
  source_ref = refl;
  kind = refl;
  origin = refl;
  group_id = refl;
}

Keeps-release_extra : Keeps release_extra
Keeps-release_extra r = record {
  editor = refl;
  source_ref = refl;
  kind = refl;
  origin = refl;
  group_id = refl;
}

pub Keeps-done_extra : Keeps done_extra
Keeps-done_extra r = record {
  editor = refl;
  source_ref = refl;
  kind = refl;
  origin = refl;
  group_id = refl;
}

open_batch-Evolves :
    (now : ℕ) (batch : String) (base_sha : Option String) (lease : ℕ) (ids : List String)
    (s : Store)
    → Evolves s.suggestions (open_batch now batch base_sha lease ids s).1.suggestions
unfolding open_batch
open_batch-Evolves now batch base_sha lease [] s = Evolves-refl s.suggestions
open_batch-Evolves now batch base_sha lease (id ∷ ids) s =
    transition_all-Evolves now (id ∷ ids) in_flight (lease_extra batch lease) s.suggestions
      (Keeps-lease_extra batch lease)

pub claim_batch-Evolves :
    (now : ℕ) (batch : String) (base_sha : Option String) (ids : List String) (lease_ms : ℕ)
    (s : Store)
    → Evolves s.suggestions (claim_batch now batch base_sha ids lease_ms s).1.suggestions
unfolding claim_batch
claim_batch-Evolves now batch base_sha ids lease_ms s =
    elim (Option-cases (find batch s.apply_batches)) [
      | inl fresh ↦
          rw (claim_batch, fresh)
            (open_batch-Evolves now batch base_sha (now + lease_ms) (claim_ids ids s.suggestions) s)
      | inr (b, there) ↦ rw (claim_batch, there) (Evolves-refl s.suggestions)
    ]

sweep_batch-Evolves :
    (now : ℕ) (id : String) (b : Batch) (s : Store) (swept : Swept)
    → Evolves s.suggestions (sweep_batch now id b (s, swept)).0.suggestions
unfolding sweep_batch
sweep_batch-Evolves now id b s swept =
    let items = ids_where (λ (r : Suggestion). of_batch id r && is_in_flight r) s.suggestions in
    elim (Bool-cases (is_open b && lease_over now b.lease_expires_at)) [
      | inr live ↦ rw live (Evolves-refl s.suggestions)
      | inl over ↦ elim (Bool-cases (is_in pre_merged b.phase)) [
        | inl early ↦
            rw (over, early)
              (transition_all-Evolves now items accepted release_extra s.suggestions
                Keeps-release_extra)
        | inr late ↦
            rw (over, late)
              (transition_all-Evolves now items applied done_extra s.suggestions Keeps-done_extra)
      ]
    ]

sweep_batches-Evolves :
    (now : ℕ) (batches : Table String Batch) (s : Store) (swept : Swept)
    → Evolves s.suggestions (sweep_batches now batches (s, swept)).0.suggestions
unfolding sweep_batches
sweep_batches-Evolves now [] s swept = Evolves-refl s.suggestions
sweep_batches-Evolves now ((id, b) ∷ batches) s swept =
    let (s', swept') = sweep_batch now id b (s, swept) in
    Evolves-trans s.suggestions s'.suggestions _ (sweep_batch-Evolves now id b s swept)
      (sweep_batches-Evolves now batches s' swept')

sweep_orphans-Evolves :
    (now : ℕ) (ids : List String) (s : Store) (swept : Swept)
    → Evolves s.suggestions (sweep_orphans now ids (s, swept)).0.suggestions
unfolding sweep_orphans
sweep_orphans-Evolves now [] s swept = Evolves-refl s.suggestions
sweep_orphans-Evolves now (id ∷ ids) s swept =
    elim (Bool-cases (row_has_open_batch s.apply_batches (find id s.suggestions))) [
      | inl held ↦ rw (sweep_orphans, held) (sweep_orphans-Evolves now ids s swept)
      | inr free ↦
          rw (sweep_orphans, free)
            (Evolves-trans s.suggestions (transition now id accepted release_extra s.suggestions).1
              _ (transition-Evolves now id accepted release_extra s.suggestions Keeps-release_extra)
              (sweep_orphans-Evolves now ids _ _))
    ]

pub reconcile-Evolves :
    (now : ℕ) (s : Store) → Evolves s.suggestions (reconcile now s).1.suggestions
unfolding reconcile
reconcile-Evolves now s =
    let start : Swept = record { rolled_back = []; completed = []; batches = 0 } in
    let (s', swept) = sweep_batches now s.apply_batches (s, start) in
    Evolves-trans s.suggestions s'.suggestions _ (sweep_batches-Evolves now s.apply_batches s start)
      (sweep_orphans-Evolves now (ids_where (is_orphan now) s'.suggestions) s' swept)
