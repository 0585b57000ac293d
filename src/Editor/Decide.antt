-- ===== src/Editor/Decide.antt =====
-- `decide`, `markDrift`, `reanchor` and `purge` of app/worker/src/editor-store-core.js.
pub mod Groups
pub mod Moves
pub mod Purge
use sonsteng_magnum_opus.Prelude.{
  ℕ, suc, ◌+◌, ◌-◌, ◌*◌, String, Bool, true, false, not, ◌&&◌, ◌||◌, Option, none, some, List, [],
  ◌∷◌, all, length, ◌==◌, string_eq, ltb, if◌then◌else◌,
}
use sonsteng_magnum_opus.Prelude.Table.{Table, find, keep}
use sonsteng_magnum_opus.Editor.Status.{
  Status, pending, accepted, declined, drift, status_beq, is_terminal, can_transition,
}
use sonsteng_magnum_opus.Editor.Rows.{
  Suggestion, Rows, Store, ids_where, count_where, rows_where, no_extra, transition,
}
use sonsteng_magnum_opus.Editor.Suggest.{or_null}

pub data Decision : Type 0 where
  accept decline : Decision

-- A request: any other decision than the two is `none`.
pub record DecideInput : Type 0 where
  pub id : Option String
  pub group_id : Option String
  pub decision : Option Decision
  pub note : Option String

pub data Decided : Type 0 where
  validation_error not_found illegal_group_state group_accept_required illegal_transition : Decided
  changed : List String → Decided
  decided : Status → Decided

abbrev pub target : Decision → Status
target accept = accepted
target decline = declined

-- `decision === "decline" && note ? { decision_note: note } : {}`
abbrev pub note_extra : Decision → Option String → Suggestion → Suggestion
note_extra accept remark r = r
note_extra decline remark r = elim (or_null remark) [
  | none ↦ r
  | some n ↦ record r { decision_note = some n }
]

abbrev pub in_group : String → Suggestion → Bool
in_group g r = elim r.group_id [ none ↦ false | some h ↦ h == g ]

-- The first loop of a group decision: every member is at the target or may move there.
unfoldable pub may_decide : Status → Rows → Bool
may_decide to [] = true
may_decide to ((id, r) ∷ members) =
    (status_beq r.status to || can_transition r.status to) && may_decide to members

-- One turn of the second loop.
unfoldable pub move_member :
    ℕ → Status → (Suggestion → Suggestion) → String → Suggestion → Rows → Bool × Rows
move_member now to extra id r t =
    if status_beq r.status to then (false, t) else transition now id to extra t

-- The second loop: the members that are not at the target move, and their ids are returned.
unfoldable pub move_members :
    ℕ → Status → (Suggestion → Suggestion) → Rows → Rows → List String × Rows
unfolding move_member
move_members now to extra [] t = ([], t)
move_members now to extra ((id, r) ∷ members) t =
    let (ok, t') = move_member now to extra id r t in
    let (ids, t'') = move_members now to extra members t' in (if ok then id ∷ ids else ids, t'')

unfoldable pub decide_group : ℕ → Decision → Option String → Rows → Rows → Decided × Rows
unfolding may_decide move_members
decide_group now d remark [] t = (not_found, t)
decide_group now d remark (m ∷ members) t =
    if may_decide (target d) (m ∷ members)
    then (let (ids, t') = move_members now (target d) (note_extra d remark) (m ∷ members) t in
        (changed ids, t'))
    else (illegal_group_state, t)

-- A lone accept of a member of a group with other members.
unfoldable pub needs_group : Decision → Suggestion → Rows → Bool
needs_group decline r t = false
needs_group accept r t = elim (or_null r.group_id) [
  | none ↦ false
  | some g ↦ ltb 1 (count_where (in_group g) t)
]

unfoldable pub decide_one :
    ℕ → String → Decision → Option String → Option Suggestion → Rows → Decided × Rows
unfolding needs_group
decide_one now id d remark none t = (not_found, t)
decide_one now id d remark (some r) t =
    if needs_group d r t
    then (group_accept_required, t)
    else (let (ok, t') = transition now id (target d) (note_extra d remark) t in
        if ok then (decided (target d), t') else (illegal_transition, t'))

unfoldable pub decide_rows :
    ℕ → Option String → Option String → Decision → Option String → Rows → Decided × Rows
unfolding decide_group decide_one
decide_rows now id (some g) d remark t = decide_group now d remark (rows_where (in_group g) t) t
decide_rows now none none d remark t = (validation_error, t)
decide_rows now (some id) none d remark t = decide_one now id d remark (find id t) t

unfoldable pub decide : ℕ → DecideInput → Rows → Decided × Rows
unfolding decide_rows
decide now i t = elim i.decision [
  | none ↦ (validation_error, t)
  | some d ↦ decide_rows now (or_null i.id) (or_null i.group_id) d i.note t
]

-- The Boolean is `ok`; a refusal is `illegal_transition`.
unfoldable pub mark_drift : ℕ → String → Rows → Bool × Rows
mark_drift now id t = transition now id drift no_extra t

abbrev pub overwrite {ℓ} : {A : Type ℓ} → Option A → Option A → Option A
overwrite none old = old
overwrite (some a) old = some a

abbrev pub anchor_extra : Option String → Option String → Option String → Suggestion → Suggestion
anchor_extra original_text original_hash map_version r = record r {
  original_text = overwrite original_text r.original_text;
  original_hash = overwrite original_hash r.original_hash;
  map_version = overwrite map_version r.map_version;
}

unfoldable pub reanchor :
    ℕ → String → Option String → Option String → Option String → Rows → Bool × Rows
reanchor now id original_text original_hash map_version t =
    transition now id pending (anchor_extra original_text original_hash map_version) t

-- `purge`: the cutoff `now - days * 86400 * 1000` is compared as `updated_at + … < now`.
unfoldable pub expired_terminal : ℕ → ℕ → Suggestion → Bool
expired_terminal now days r = is_terminal r.status && ltb (r.updated_at + days * 86400000) now

-- The number of purged rows is returned.
unfoldable pub purge : ℕ → ℕ → Rows → ℕ × Rows
unfolding expired_terminal
purge now days t =
    let t' = keep (λ (r : Suggestion). not (expired_terminal now days r)) t in
    (length t - length t', t')
