-- ===== src/Editor/Batches.antt =====
-- `claimBatch` and `reconcile` of app/worker/src/editor-store-core.js. The production frontier that
-- `claimBatch` also returns is read from the releases and left out here.
pub mod Moves
pub mod Members
pub mod Whole
pub mod Finalize
use sonsteng_magnum_opus.Prelude.{
  ℕ, suc, ◌+◌, String, Bool, true, false, not, ◌&&◌, ◌||◌, Option, none, some, List, [], ◌∷◌, ◌++◌,
  all, any, map, ◌==◌, string_eq, leb, if◌then◌else◌,
}
use sonsteng_magnum_opus.Prelude.Table.{Table, find, put, modify}
use sonsteng_magnum_opus.Editor.Status.{Status, accepted, in_flight, applied, status_beq}
use sonsteng_magnum_opus.Editor.Rows.{
  Suggestion, Batch, Rows, Store, ids_where, rows_where, no_extra, transition, transition_all,
}
use sonsteng_magnum_opus.Editor.Suggest.{or_null}
use sonsteng_magnum_opus.Editor.Decide.{in_group}

pub data Claimed : Type 0 where
  batch_exists : String → Claimed
  nothing_to_claim : Claimed
  claimed : List String → ℕ → Claimed

-- `WHERE id IN (…)`
abbrev pub is_in : List String → String → Bool
is_in ids id = any (λ (j : String). j == id) ids

unfoldable pub rows_in : List String → Rows → Rows
rows_in ids [] = []
rows_in ids ((id, r) ∷ t) =
    let rest = rows_in ids t in if is_in ids id then (id, r) ∷ rest else rest

abbrev pub is_accepted : Suggestion → Bool
is_accepted r = status_beq r.status accepted

-- The candidates: the given ids, or every accepted row when none are given.
unfoldable pub candidates : List String → Rows → Rows
candidates [] t = rows_where is_accepted t
candidates (id ∷ ids) t = rows_in (id ∷ ids) t

-- A JavaScript `Set` of texts, in insertion order.
abbrev pub add : String → List String → List String
add id ids = if is_in ids id then ids else ids ++ id ∷ []

abbrev pub add_all : List String → List String → List String
add_all [] ids = ids
add_all (j ∷ js) ids = add_all js (add j ids)

-- A turn of the first loop of `claimBatch`: the lone rows to claim, and the groups to look at.
unfoldable pub sort_row :
    String → Suggestion → List String × List String → List String × List String
sort_row id r acc =
    if is_accepted r
    then (elim (or_null r.group_id) [
      | none ↦ (add id acc.0, acc.1)
      | some g ↦ (acc.0, add g acc.1)
    ])
    else acc

unfoldable pub sort_out : Rows → List String × List String → List String × List String
unfolding sort_row
sort_out [] acc = acc
sort_out ((id, r) ∷ t) acc = sort_out t (sort_row id r acc)

abbrev pub ids_of : Rows → List String
ids_of [] = []
ids_of ((id, r) ∷ t) = id ∷ ids_of t

abbrev pub all_accepted : Rows → Bool
all_accepted [] = true
all_accepted ((id, r) ∷ t) = is_accepted r && all_accepted t

-- The second loop: a group is added whole when every member is accepted, and else skipped.
unfoldable pub add_groups : List String → Rows → List String → List String
add_groups [] t ids = ids
add_groups (g ∷ gs) t ids =
    let members = rows_where (in_group g) t in
    add_groups gs t (if all_accepted members then add_all (ids_of members) ids else ids)

unfoldable pub claim_ids : List String → Rows → List String
unfolding candidates sort_out add_groups
claim_ids ids t =
    let (lone, groups) = sort_out (candidates ids t) ([], []) in add_groups groups t lone

abbrev pub lease_extra : String → ℕ → Suggestion → Suggestion
lease_extra batch lease r = record r { apply_batch_id = some batch; lease_expires_at = some lease }

-- The journal row and the moves of a claim that is not empty.
unfoldable pub open_batch : ℕ → String → Option String → ℕ → List String → Store → Claimed × Store
open_batch now batch base_sha lease [] s = (nothing_to_claim, s)
open_batch now batch base_sha lease (id ∷ ids) s = (
  claimed (id ∷ ids) lease,
  record s {
    suggestions = transition_all now (id ∷ ids) in_flight (lease_extra batch lease) s.suggestions;
    apply_batches =
        put batch
          (record {
            base_sha = or_null base_sha;
            commit_sha = none;
            generator_id = none;
            phase = "claimed";
            lease_expires_at = some lease;
            created_at = now;
            updated_at = now;
          })
          s.apply_batches;
  },
)

unfoldable pub claim_batch : ℕ → String → Option String → List String → ℕ → Store → Claimed × Store
unfolding claim_ids open_batch
claim_batch now batch base_sha ids lease_ms s = elim (find batch s.apply_batches) [
  | some b ↦ (batch_exists b.phase, s)
  | none ↦ open_batch now batch base_sha (now + lease_ms) (claim_ids ids s.suggestions) s
]

-- `preMerged` of `reconcile`
abbrev pub pre_merged : List String
pre_merged = "claimed" ∷ "patched" ∷ "validated" ∷ "built" ∷ "parity_ok" ∷ "deployed" ∷ []

abbrev pub is_open : Batch → Bool
is_open b = not (b.phase == "done" || b.phase == "rolled_back")

-- `(lease_expires_at || 0) <= now`
abbrev pub lease_over : ℕ → Option ℕ → Bool
lease_over now none = true
lease_over now (some n) = leb n now

abbrev pub of_batch : String → Suggestion → Bool
of_batch batch r = elim r.apply_batch_id [ none ↦ false | some b ↦ b == batch ]

abbrev pub is_in_flight : Suggestion → Bool
is_in_flight r = status_beq r.status in_flight

abbrev pub release_extra : Suggestion → Suggestion
release_extra r = record r { apply_batch_id = none; lease_expires_at = none }

abbrev pub done_extra : Suggestion → Suggestion
done_extra r = record r { lease_expires_at = none }

-- `evidence?.commit_sha && evidence?.generator_id ? "done" : "evidence_missing"`
abbrev pub terminal_phase : Batch → String
terminal_phase b = elim (or_null b.commit_sha) [
  | none ↦ "evidence_missing"
  | some c ↦ elim (or_null b.generator_id) [ none ↦ "evidence_missing" | some g ↦ "done" ]
]

pub record Swept : Type 0 where
  pub rolled_back : List String
  pub completed : List String
  pub batches : ℕ

-- One batch of the sweep. Its items are those of the rows as they stand.
unfoldable pub sweep_batch : ℕ → String → Batch → Store × Swept → Store × Swept
sweep_batch now id b (s, swept) =
    let items = ids_where (λ (r : Suggestion). of_batch id r && is_in_flight r) s.suggestions in
    if not (is_open b && lease_over now b.lease_expires_at)
    then (s, swept)
    else if is_in pre_merged b.phase
    then (
      record s {
        suggestions = transition_all now items accepted release_extra s.suggestions;
        apply_batches =
            modify id (λ (c : Batch). record c { phase = "rolled_back"; updated_at = now })
              s.apply_batches;
      },
      record swept { rolled_back = swept.rolled_back ++ items; batches = swept.batches + 1 },
    )
    else (
      record s {
        suggestions = transition_all now items applied done_extra s.suggestions;
        apply_batches =
            modify id (λ (c : Batch). record c { phase = terminal_phase c; updated_at = now })
              s.apply_batches;
      },
      record swept { completed = swept.completed ++ items; batches = swept.batches + 1 },
    )

unfoldable pub sweep_batches : ℕ → Table String Batch → Store × Swept → Store × Swept
unfolding sweep_batch
sweep_batches now [] acc = acc
sweep_batches now ((id, b) ∷ batches) acc = sweep_batches now batches (sweep_batch now id b acc)

-- A row in flight whose lease is over.
abbrev pub is_orphan : ℕ → Suggestion → Bool
is_orphan now r = is_in_flight r && lease_over now r.lease_expires_at

-- Whether the row's batch is still open in the journal.
abbrev pub has_open_batch : Table String Batch → Suggestion → Bool
has_open_batch batches r = elim r.apply_batch_id [
  | none ↦ false
  | some id ↦ elim (find id batches) [ none ↦ false | some b ↦ is_open b ]
]

abbrev pub row_has_open_batch : Table String Batch → Option Suggestion → Bool
row_has_open_batch batches none = false
row_has_open_batch batches (some r) = has_open_batch batches r

unfoldable pub sweep_orphans : ℕ → List String → Store × Swept → Store × Swept
sweep_orphans now [] acc = acc
sweep_orphans now (id ∷ ids) (s, swept) = sweep_orphans now ids (
    if row_has_open_batch s.apply_batches (find id s.suggestions) then (s, swept) else (
      record s { suggestions = (transition now id accepted release_extra s.suggestions).1 },
      record swept { rolled_back = swept.rolled_back ++ id ∷ [] },
    ))

unfoldable pub reconcile : ℕ → Store → Swept × Store
unfolding sweep_batches sweep_orphans
reconcile now s =
    let (s', swept) =
      sweep_batches now s.apply_batches
        (s, record { rolled_back = []; completed = []; batches = 0 }) in
    let (s'', swept') = sweep_orphans now (ids_where (is_orphan now) s'.suggestions) (s', swept) in
    (swept', s'')
