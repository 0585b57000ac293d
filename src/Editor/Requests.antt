-- ===== src/Editor/Requests.antt =====
-- The revert requests and the scoped-change requests of app/worker/src/editor-store-core.js. A
-- request's texts are checked where it is filed; a status that is none of the known ones is `none`.
pub mod Lifecycle
pub mod Scopes
mod Examples
use sonsteng_magnum_opus.Prelude.{
  ℕ, String, Bool, true, false, not, ◌&&◌, ◌||◌, Option, none, some, List, [], ◌∷◌, ◌==◌, string_eq,
  nat_beq, leb, if◌then◌else◌,
}
use sonsteng_magnum_opus.Prelude.Value.{Value, fraction, nat, negative, nonempty_text}
use sonsteng_magnum_opus.Prelude.Text.{is_blank}
use sonsteng_magnum_opus.Prelude.Table.{Table, find, put}
use sonsteng_magnum_opus.Editor.Suggest.{or_null}
use sonsteng_magnum_opus.Editor.Decide.{overwrite}

-- `REVERT_STATUS` and `REVERT_TERMINAL`
pub data RevertStatus : Type 0 where
  requested approved done failed : RevertStatus

unfoldable pub revert_terminal : RevertStatus → Bool
revert_terminal done = true
revert_terminal failed = true
revert_terminal _ = false

pub record Revert : Type 0 where
  pub editor : String
  pub doc : String
  pub run_first : String
  pub run_last : String
  pub status : RevertStatus
  pub note : Option String
  pub created_at : ℕ
  pub updated_at : ℕ

pub record RevertInput : Type 0 where
  pub id : Value
  pub editor : Value
  pub doc : Value
  pub run_first : Value
  pub run_last : Value
  pub approved : Bool
  pub note : Option String

pub data Filed (R : Type 0) : Type 0 where
  validation_error : Filed R
  replay filed : R → Filed R

pub data Resolved (S : Type 0) : Type 0 where
  validation_error not_found already_terminal illegal_transition : Resolved S
  resolved : S → Resolved S

-- The row of the id, or a new one.
unfoldable pub file_row {ℓ} : {R : Type ℓ} → String → R → Option R → Table String R → Table String R
file_row id new none t = put id new t
file_row id new (some old) t = t

abbrev pub file_answer : {R : Type 0} → R → Option R → Filed R
file_answer new none = filed new
file_answer new (some old) = replay old

unfoldable pub file_revert_checked :
    ℕ
    → Option String
    → Option String
    → Option String
    → Option String
    → Option String
    → Bool
    → Option String
    → Table String Revert
    → Filed Revert × Table String Revert
unfolding file_row
file_revert_checked now (some id) (some editor) (some doc) (some run_first) (some run_last) ok
      remark t =
    let new : Revert = record {
      editor = editor;
      doc = doc;
      run_first = run_first;
      run_last = run_last;
      status = if ok then approved else requested;
      note = or_null remark;
      created_at = now;
      updated_at = now;
    } in
    (file_answer new (find id t), file_row id new (find id t) t)
file_revert_checked now _ _ _ _ _ ok remark t = (validation_error, t)

unfoldable pub file_revert_request :
    ℕ → RevertInput → Table String Revert → Filed Revert × Table String Revert
unfolding file_revert_checked
file_revert_request now i t =
    file_revert_checked now (nonempty_text i.id) (nonempty_text i.editor) (nonempty_text i.doc)
      (nonempty_text i.run_first) (nonempty_text i.run_last) i.approved i.note t

unfoldable pub resolve_revert_row :
    ℕ
    → String
    → RevertStatus
    → Option String
    → Option Revert
    → Table String Revert
    → Resolved RevertStatus × Table String Revert
unfolding revert_terminal
resolve_revert_row now id status remark none t = (not_found, t)
resolve_revert_row now id status remark (some r) t =
    if revert_terminal r.status then (already_terminal, t) else (
      resolved status,
      put id (record r { status = status; note = overwrite remark r.note; updated_at = now }) t,
    )

unfoldable pub resolve_revert_request :
    ℕ
    → String
    → Option RevertStatus
    → Option String
    → Table String Revert
    → Resolved RevertStatus × Table String Revert
unfolding resolve_revert_row
resolve_revert_request now id none remark t = (validation_error, t)
resolve_revert_request now id (some status) remark t =
    resolve_revert_row now id status remark (find id t) t

-- Scoped-change requests.
pub data ScopedStatus : Type 0 where
  requested drafting drafted done failed declined : ScopedStatus

-- `ALLOWED`, and `claimScopedRequest` from `requested`.
unfoldable pub scoped_allowed : ScopedStatus → ScopedStatus → Bool
scoped_allowed drafting drafted = true
scoped_allowed drafting failed = true
scoped_allowed drafted drafting = true
scoped_allowed drafted done = true
scoped_allowed drafted failed = true
scoped_allowed drafted declined = true
scoped_allowed _ _ = false

pub record Scoped : Type 0 where
  pub editor : String
  pub level : String
  pub matter : Option String
  pub part : Option String
  pub module_name : Option String
  pub instruction : String
  pub radius_blocks : Value
  pub radius_files : Option ℕ
  pub radius_matters : Option ℕ
  pub confirmed : Bool
  pub status : ScopedStatus
  pub phase : String
  pub group_id : Option String
  pub canary_matter : Option String
  pub note : Option String
  pub created_at : ℕ
  pub updated_at : ℕ

-- `radius_blocks` is finite where it is `some`.
pub record ScopedInput : Type 0 where
  pub id : Value
  pub editor : Value
  pub level : Value
  pub instruction : Value
  pub matter : Option String
  pub part : Option String
  pub module_name : Option String
  pub radius_blocks : Option Value
  pub radius_files : Option ℕ
  pub radius_matters : Option ℕ
  pub confirmed : Bool

abbrev pub instruction_of : Option String → Option String
instruction_of none = none
instruction_of (some t) = if is_blank t then none else some t

abbrev pub phase_of : String → String
phase_of level = if level == "module" || level == "course" then "canary" else "all"

unfoldable pub file_scoped_checked :
    ℕ
    → Option String
    → Option String
    → Option String
    → Option String
    → Option Value
    → ScopedInput
    → Table String Scoped
    → Filed Scoped × Table String Scoped
unfolding file_row
file_scoped_checked now (some id) (some editor) (some level) (some instruction) (some radius) i t =
    let new : Scoped = record {
      editor = editor;
      level = level;
      matter = or_null i.matter;
      part = or_null i.part;
      module_name = or_null i.module_name;
      instruction = instruction;
      radius_blocks = radius;
      radius_files = i.radius_files;
      radius_matters = i.radius_matters;
      confirmed = i.confirmed;
      status = requested;
      phase = phase_of level;
      group_id = none;
      canary_matter = none;
      note = none;
      created_at = now;
      updated_at = now;
    } in
    (file_answer new (find id t), file_row id new (find id t) t)
file_scoped_checked now _ _ _ _ _ i t = (validation_error, t)

unfoldable pub file_scoped_request :
    ℕ → ScopedInput → Table String Scoped → Filed Scoped × Table String Scoped
unfolding file_scoped_checked
file_scoped_request now i t =
    file_scoped_checked now (nonempty_text i.id) (nonempty_text i.editor) (nonempty_text i.level)
      (instruction_of (nonempty_text i.instruction)) i.radius_blocks i t

abbrev pub is_requested : ScopedStatus → Bool
is_requested requested = true
is_requested _ = false

-- The Boolean is `ok`; a refusal is `not_claimable`.
unfoldable pub claim_scoped_row :
    ℕ → String → Option Scoped → Table String Scoped → Bool × Table String Scoped
claim_scoped_row now id none t = (false, t)
claim_scoped_row now id (some r) t =
    if is_requested r.status
    then (true, put id (record r { status = drafting; updated_at = now }) t)
    else (false, t)

unfoldable pub claim_scoped_request : ℕ → String → Table String Scoped → Bool × Table String Scoped
unfolding claim_scoped_row
claim_scoped_request now id t = claim_scoped_row now id (find id t) t

pub record ScopedChange : Type 0 where
  pub status : Option ScopedStatus
  pub group_id : Option String
  pub phase : Option String
  pub canary_matter : Option String
  pub note : Option String

abbrev pub changed_scoped : ℕ → ScopedStatus → ScopedChange → Scoped → Scoped
changed_scoped now status c r = record r {
  status = status;
  updated_at = now;
  group_id = overwrite c.group_id r.group_id;
  phase = (elim c.phase [ none ↦ r.phase | some p ↦ p ]);
  canary_matter = overwrite c.canary_matter r.canary_matter;
  note = overwrite c.note r.note;
}

unfoldable pub resolve_scoped_row :
    ℕ
    → String
    → Option ScopedStatus
    → ScopedChange
    → Option Scoped
    → Table String Scoped
    → Resolved ScopedStatus × Table String Scoped
unfolding scoped_allowed
resolve_scoped_row now id status c none t = (not_found, t)
resolve_scoped_row now id none c (some r) t = (illegal_transition, t)
resolve_scoped_row now id (some status) c (some r) t =
    if scoped_allowed r.status status
    then (resolved status, put id (changed_scoped now status c r) t)
    else (illegal_transition, t)

unfoldable pub resolve_scoped_request :
    ℕ → String → ScopedChange → Table String Scoped → Resolved ScopedStatus × Table String Scoped
unfolding resolve_scoped_row
resolve_scoped_request now id c t = resolve_scoped_row now id c.status c (find id t) t
