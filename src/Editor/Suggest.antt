-- ===== src/Editor/Suggest.antt =====
-- `suggest` of app/worker/src/editor-store-core.js. The payload fingerprint (integrity-digest.js)
-- and SQLite's choice among rows of equal `updated_at` are arguments.
pub mod Laws
pub mod Effects
use Prim.Native.String.{len}
use Prim.Native.String.{◌++◌ as append}
use sonsteng_magnum_opus.Prelude.{
  ℕ, ◌+◌, ◌*◌, ◌/◌, String, Bool, true, false, not, ◌&&◌, ◌||◌, Option, none, some, List, [], ◌∷◌,
  any, ◌==◌, string_eq, nat_eq, pair_eq, ltb, leb, if◌then◌else◌,
}
use sonsteng_magnum_opus.Prelude.Value.{Value, nonempty_text}
use sonsteng_magnum_opus.Prelude.Table.{Table, find, put}
use sonsteng_magnum_opus.Editor.Status.{Status, pending, superseded, accepted, status_beq}
use sonsteng_magnum_opus.Editor.Rows.{
  Suggestion, Rows, Store, rows_where, ids_where, count_where, no_extra, transition, transition_all,
}

-- `STRUCTURAL_KINDS` and `AUTO_APPLY_KINDS`
abbrev pub structural_kinds : List String
structural_kinds = "insert_after" ∷ "delete" ∷ "split" ∷ "merge" ∷ "move" ∷ []

abbrev pub auto_apply_kinds : List String
auto_apply_kinds = "prose" ∷ "json_scalar" ∷ "page_override" ∷ "page_override_revert" ∷ []

unfoldable pub is_structural : String → Bool
is_structural kind = any (λ (k : String). k == kind) structural_kinds

unfoldable pub is_auto_apply : String → Bool
is_auto_apply kind = any (λ (k : String). k == kind) auto_apply_kinds

pub record Ceilings : Type 0 where
  pub per_editor_pending : ℕ
  pub daily_per_editor : ℕ
  pub global_pending : ℕ
  pub max_bytes : ℕ
  pub lease_ms : ℕ
  pub production_lease_ms : ℕ

-- `CEILINGS`
abbrev pub ceilings : Ceilings
ceilings = record {
  per_editor_pending = 200;
  daily_per_editor = 500;
  global_pending = 5000;
  max_bytes = 16 * 1024;
  lease_ms = 5 * 60 * 1000;
  production_lease_ms = 15 * 60 * 1000;
}

pub record Input : Type 0 where
  pub id : Value
  pub editor : Value
  pub source_ref : Value
  pub scope : Option String
  pub origin : Option String
  pub kind : Option String
  pub page : Option String
  pub block_anchor : Option String
  pub json_path : Option String
  pub original_text : Option String
  pub original_hash : Option String
  pub new_text : Option String
  pub comment : Option String
  pub context : Option String
  pub map_version : Option String
  pub group_id : Option String
  pub op_arg : Option String

-- The three checked texts of an input.
pub record Checked : Type 0 where
  pub id : String
  pub editor : String
  pub source_ref : String

pub data Outcome : Type 0 where
  validation_error too_large pending_ceiling global_ceiling daily_cap : Outcome
  id_conflict : Suggestion → Outcome
  replay : Suggestion → Outcome
  stored : Option Suggestion → Outcome

-- `v || d`
abbrev pub or_text : Option String → String → String
or_text none d = d
or_text (some String.[]) d = d
or_text (some (String.◌∷◌ c t)) d = String.◌∷◌ c t

abbrev pub or_null : Option String → Option String
or_null none = none
or_null (some String.[]) = none
or_null (some (String.◌∷◌ c t)) = some (String.◌∷◌ c t)

abbrev pub kind_of : Input → String
kind_of i = or_text i.kind "prose"

abbrev pub origin_of : Input → String
origin_of i = or_text i.origin "human"

-- SQL's `page=?`, which holds of no row when a side is NULL.
abbrev pub same_page : Option String → Option String → Bool
same_page (some a) (some b) = a == b
same_page _ _ = false

-- `targetClause`
unfoldable pub targets : Input → Suggestion → Bool
targets i r =
    if kind_of i == "page_override"
    then r.kind == "page_override" && same_page r.page i.page
    else not (r.kind == "page_override")

-- The rows of the same editor and source in a state.
unfoldable pub is_prior : Checked → Input → Status → Suggestion → Bool
unfolding targets is_structural
is_prior c i status r =
    r.editor == c.editor
    && r.source_ref == c.source_ref
    && status_beq r.status status
    && r.origin == "human"
    && not (is_structural r.kind)
    && targets i r

unfoldable pub is_superseded : Checked → Input → Suggestion → Bool
unfolding targets
is_superseded c i r =
    r.editor == c.editor
    && r.source_ref == c.source_ref
    && status_beq r.status superseded
    && targets i r

-- `_day(ms)`: the number of the UTC day.
abbrev pub day_of : ℕ → ℕ
day_of ms = ms / 86400000

abbrev pub may_supersede : Input → Bool
may_supersede i = origin_of i == "human" && not (is_structural (kind_of i))

-- The writes that retire the editor's earlier edits of the source.
unfoldable pub supersede_priors : ℕ → Checked → Input → Bool → Rows → Rows
unfolding is_prior is_structural
supersede_priors now c i direct rows =
    if may_supersede i
    then (let rows' =
          transition_all now (ids_where (is_prior c i pending) rows) superseded no_extra rows in
        if direct
        then transition_all now (ids_where (is_prior c i accepted) rows') superseded no_extra rows'
        else rows')
    else rows

abbrev pub is_pending_of : String → Suggestion → Bool
is_pending_of editor r = r.editor == editor && status_beq r.status pending

abbrev pub is_pending : Suggestion → Bool
is_pending r = status_beq r.status pending

abbrev pub daily_count : Option ℕ → ℕ
daily_count none = 0
daily_count (some n) = n

abbrev pub next_count : Option ℕ → ℕ
next_count none = 1
next_count (some n) = n + 1

-- `new TextEncoder().encode((new_text || "") + (comment || "")).length`
abbrev pub payload_bytes : Input → ℕ
payload_bytes i = len (append (or_text i.new_text "") (or_text i.comment ""))

abbrev pub or_empty : Option String → String
or_empty none = ""
or_empty (some t) = t

-- `Fingerprint` is `_fingerprint`; `Latest` picks the row of greatest `updated_at` from a table.
abbrev pub Fingerprint : Type 0
Fingerprint = String → String → String → String

abbrev pub Latest : Type 0
Latest = Rows → Option String

abbrev pub fingerprint_of : Fingerprint → Checked → Input → String
fingerprint_of fingerprint c i = fingerprint c.source_ref (or_empty i.new_text) (or_empty i.comment)

-- The inserted row.
unfoldable pub new_row : Fingerprint → Latest → ℕ → Checked → Input → Rows → Suggestion
unfolding is_superseded is_structural
new_row fingerprint latest now c i rows = record {
  editor = c.editor;
  scope = or_text i.scope "edit";
  origin = origin_of i;
  kind = kind_of i;
  page = or_null i.page;
  block_anchor = or_null i.block_anchor;
  source_ref = c.source_ref;
  json_path = or_null i.json_path;
  original_text = i.original_text;
  original_hash = or_null i.original_hash;
  new_text = i.new_text;
  comment = i.comment;
  context = or_null i.context;
  map_version = or_null i.map_version;
  group_id = or_null i.group_id;
  supersedes = if may_supersede i then latest (rows_where (is_superseded c i) rows) else none;
  op_arg = or_null i.op_arg;
  status = pending;
  decision_note = none;
  apply_batch_id = none;
  lease_expires_at = none;
  client_fp = some (fingerprint_of fingerprint c i);
  created_at = now;
  updated_at = now;
}

abbrev pub accepts_now : Input → Bool → Bool
accepts_now i direct = direct && origin_of i == "human" && is_auto_apply (kind_of i)

-- The auto-accept of DIRECT_APPLY.
unfoldable pub auto_accept : ℕ → String → Input → Bool → Rows → Rows
unfolding is_auto_apply
auto_accept now id i direct rows =
    if accepts_now i direct then (transition now id accepted no_extra rows).1 else rows

-- The rows after the writes of an input that passed every gate.
unfoldable pub stored_rows : Fingerprint → Latest → ℕ → Checked → Input → Bool → Rows → Rows
unfolding supersede_priors new_row auto_accept
stored_rows fingerprint latest now c i direct rows =
    let rows' = supersede_priors now c i direct rows in
    auto_accept now c.id i direct (put c.id (new_row fingerprint latest now c i rows') rows')

unfoldable pub count_suggest : ℕ → String → Table (String × ℕ) ℕ → Table (String × ℕ) ℕ
count_suggest now editor counts =
    put (editor, day_of now) (next_count (find (editor, day_of now) counts)) counts

unfoldable pub store_new :
    Fingerprint → Latest → ℕ → Checked → Input → Bool → Store → Outcome × Store
unfolding stored_rows count_suggest
store_new fingerprint latest now c i direct s =
    let rows = stored_rows fingerprint latest now c i direct s.suggestions in
    (
      stored (find c.id rows),
      record s { suggestions = rows; suggest_counts = count_suggest now c.editor s.suggest_counts },
    )

-- The ceilings, in the source's order.
unfoldable pub suggest_new :
    Fingerprint → Latest → ℕ → Checked → Input → Ceilings → Bool → Store → Outcome × Store
unfolding store_new
suggest_new fingerprint latest now c i ceil direct s =
    if ltb ceil.max_bytes (payload_bytes i)
    then (too_large, s)
    else if leb ceil.per_editor_pending (count_where (is_pending_of c.editor) s.suggestions)
    then (pending_ceiling, s)
    else if leb ceil.global_pending (count_where is_pending s.suggestions)
    then (global_ceiling, s)
    else if leb ceil.daily_per_editor (daily_count (find (c.editor, day_of now) s.suggest_counts))
    then (daily_cap, s)
    else store_new fingerprint latest now c i direct s

-- The answer for an id that is taken: a replay, unless the stored fingerprint differs.
unfoldable pub taken : String → Suggestion → Outcome
taken fp r = elim r.client_fp [
  | none ↦ replay r
  | some prior ↦ if prior == fp then replay r else id_conflict r
]

unfoldable pub suggest_row :
    Fingerprint
    → Latest
    → ℕ
    → Checked
    → Input
    → Ceilings
    → Bool
    → Option Suggestion
    → Store
    → Outcome × Store
unfolding taken suggest_new
suggest_row fingerprint latest now c i ceil direct (some r) s =
    (taken (fingerprint_of fingerprint c i) r, s)
suggest_row fingerprint latest now c i ceil direct none s =
    suggest_new fingerprint latest now c i ceil direct s

unfoldable pub suggest_checked :
    Fingerprint
    → Latest
    → ℕ
    → Option String
    → Option String
    → Option String
    → Input
    → Ceilings
    → Bool
    → Store
    → Outcome × Store
unfolding suggest_row
suggest_checked fingerprint latest now (some id) (some editor) (some source_ref) i ceil direct s =
    suggest_row fingerprint latest now
      (record { id = id; editor = editor; source_ref = source_ref }) i ceil direct
      (find id s.suggestions) s
suggest_checked fingerprint latest now _ _ _ i ceil direct s = (validation_error, s)

unfoldable pub suggest :
    Fingerprint → Latest → ℕ → Input → Ceilings → Bool → Store → Outcome × Store
unfolding suggest_checked
suggest fingerprint latest now i ceil direct s =
    suggest_checked fingerprint latest now (nonempty_text i.id) (nonempty_text i.editor)
      (nonempty_text i.source_ref) i ceil direct s
