-- ===== src/Editor/Rows.antt =====
-- The tables `suggestions`, `suggest_counts` and `apply_batches` of
-- app/worker/src/editor-store-core.js, and the status writer that every method goes through.
-- A row stands under its primary key `id`. Times are milliseconds of the server's clock.
pub mod Evolution
use sonsteng_magnum_opus.Prelude.{
  ℕ, String, Bool, true, false, Option, none, some, List, [], ◌∷◌, string_eq, if◌then◌else◌,
}
use sonsteng_magnum_opus.Prelude.Table.{Table, find, modify}
use sonsteng_magnum_opus.Editor.Status.{Status, can_transition}

pub record Suggestion : Type 0 where
  pub editor : String
  pub scope : String
  pub origin : String
  pub kind : String
  pub page : Option String
  pub block_anchor : Option String
  pub source_ref : String
  pub json_path : Option String
  pub original_text : Option String
  pub original_hash : Option String
  pub new_text : Option String
  pub comment : Option String
  pub context : Option String
  pub map_version : Option String
  pub group_id : Option String
  pub supersedes : Option String
  pub op_arg : Option String
  pub status : Status
  pub decision_note : Option String
  pub apply_batch_id : Option String
  pub lease_expires_at : Option ℕ
  pub client_fp : Option String
  pub created_at : ℕ
  pub updated_at : ℕ

pub record Batch : Type 0 where
  pub base_sha : Option String
  pub commit_sha : Option String
  pub generator_id : Option String
  pub phase : String
  pub lease_expires_at : Option ℕ
  pub created_at : ℕ
  pub updated_at : ℕ

abbrev pub Rows : Type 0
Rows = Table String Suggestion

pub record Store : Type 0 where
  pub suggestions : Rows
  -- by editor and UTC day
  pub suggest_counts : Table (String × ℕ) ℕ
  pub apply_batches : Table String Batch

-- The ids of the rows that satisfy a `WHERE` clause, in the table's order.
unfoldable pub ids_where : (Suggestion → Bool) → Rows → List String
ids_where p [] = []
ids_where p ((id, r) ∷ t) = let rest = ids_where p t in if p r then id ∷ rest else rest

-- The rows themselves.
unfoldable pub rows_where : (Suggestion → Bool) → Rows → Rows
rows_where p [] = []
rows_where p ((id, r) ∷ t) = let rest = rows_where p t in if p r then (id, r) ∷ rest else rest

-- `SELECT COUNT(*) … WHERE p`
unfoldable pub count_where : (Suggestion → Bool) → Rows → ℕ
count_where p [] = 0
count_where p ((id, r) ∷ t) = let rest = count_where p t in if p r then ℕ.suc rest else rest

-- `_transition`: the update of the columns `extra`, of `status` and of `updated_at`.
abbrev pub moved : ℕ → Status → (Suggestion → Suggestion) → Suggestion → Suggestion
moved now to extra r = record (extra r) { status = to; updated_at = now }

-- `_transition` on the row that the id has.
unfoldable pub transition_row :
    ℕ → String → Status → (Suggestion → Suggestion) → Option Suggestion → Rows → Bool × Rows
transition_row now id to extra none t = (false, t)
transition_row now id to extra (some r) t =
    if can_transition r.status to then (true, modify id (moved now to extra) t) else (false, t)

unfoldable pub transition : ℕ → String → Status → (Suggestion → Suggestion) → Rows → Bool × Rows
unfolding transition_row
transition now id to extra t = transition_row now id to extra (find id t) t

abbrev pub no_extra : Suggestion → Suggestion
no_extra r = r

-- `for (const id of ids) this._transition(id, to, extra)`
unfoldable pub transition_all : ℕ → List String → Status → (Suggestion → Suggestion) → Rows → Rows
transition_all now [] to extra t = t
transition_all now (id ∷ ids) to extra t =
    transition_all now ids to extra (transition now id to extra t).1
