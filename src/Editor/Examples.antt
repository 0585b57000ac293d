-- ===== src/Editor/Examples.antt =====
-- Runs of the editor store: an edit that is applied directly, one that is not, and a group of two.
use mathlib.Core.Path.{refl}
use Prim.Native.String.{◌++◌ as append}
use sonsteng_magnum_opus.Prelude.{
  ℕ, ◌+◌, ◌*◌, ◌≤◌, String, string_eq, nat_eq, pair_eq, ◌≡◌, ◌≢◌, true, false, none, some, List, [],
  ◌∷◌, length, ◌⊎◌, arith,
}
use sonsteng_magnum_opus.Prelude.Value.{text, undefined}
use sonsteng_magnum_opus.Prelude.Table.{find, put, modify}
use sonsteng_magnum_opus.Editor.Status.{
  pending, accepted, declined, is_terminal, can_transition, status_beq,
}
use sonsteng_magnum_opus.Editor.Rows.{
  Suggestion, Rows, Store, rows_where, count_where, ids_where, transition, transition_all,
}
use sonsteng_magnum_opus.Editor.Rows.Evolution.{Evolved}
use sonsteng_magnum_opus.Editor.Suggest.{
  Input, Checked, ceilings, replay, id_conflict, Fingerprint, Latest, suggest, daily_count, day_of,
}
use sonsteng_magnum_opus.Editor.Suggest.Laws.{WithinCeilings}
use sonsteng_magnum_opus.Editor.Suggest.Effects.{
  IsChecked, suggest_refused, suggest_stored, suggest_taken, suggest_twice,
}
use sonsteng_magnum_opus.Editor.Decide.{DecideInput, decide, accept, changed, in_group, purge}
use sonsteng_magnum_opus.Editor.Decide.Groups.{decide_group_whole}
use sonsteng_magnum_opus.Editor.Decide.Purge.{purge_exact}
use sonsteng_magnum_opus.Editor.Trace.{
  Call, decide_call, claim_call, finalize_call, reconcile_call, purge_call, Fate, run-Evolved,
  run-terminal,
}
use sonsteng_magnum_opus.Editor.Batches.{
  is_accepted, is_in, claim_batch, claim_ids, candidates, rows_in, sort_out, sort_row, add_groups,
  open_batch,
}
use sonsteng_magnum_opus.Editor.Batches.Finalize.{FinalizeInput}
use sonsteng_magnum_opus.Editor.Batches.Members.{first, later}
use sonsteng_magnum_opus.Editor.Batches.Whole.{IsKeyed, claim_batch_whole}

abbrev joined : Fingerprint
joined a b c = append a (append "|" (append b (append "|" c)))

abbrev no_row : Latest
no_row rows = none

abbrev edit : Input
edit = record {
  id = text "a";
  editor = text "ed";
  source_ref = text "intro.md#2";
  scope = none;
  origin = none;
  kind = none;
  page = none;
  block_anchor = none;
  json_path = none;
  original_text = some "old";
  original_hash = none;
  new_text = some "new";
  comment = none;
  context = none;
  map_version = none;
  group_id = none;
  op_arg = none;
}

abbrev unnamed : Input
unnamed = record edit { id = undefined }

abbrev none_yet : Store
none_yet = record { suggestions = []; suggest_counts = []; apply_batches = [] }

abbrev edit_texts : Checked
edit_texts = record { id = "a"; editor = "ed"; source_ref = "intro.md#2" }

abbrev row : Suggestion
row = record {
  editor = "ed";
  scope = "edit";
  origin = "human";
  kind = "prose";
  page = none;
  block_anchor = none;
  source_ref = "intro.md#2";
  json_path = none;
  original_text = some "old";
  original_hash = none;
  new_text = some "new";
  comment = none;
  context = none;
  map_version = none;
  group_id = none;
  supersedes = none;
  op_arg = none;
  status = pending;
  decision_note = none;
  apply_batch_id = none;
  lease_expires_at = none;
  client_fp = some "intro.md#2|new|";
  created_at = 1000;
  updated_at = 1000;
}

abbrev one_edit : Store
one_edit = record none_yet { suggestions = ("a", row) ∷ [] }

abbrev group_rows : Rows
group_rows =
    ("a", record row { group_id = some "g" })
    ∷ ("b", record row { group_id = some "g"; status = accepted })
    ∷ ("c", row)
    ∷ []

abbrev accept_group : DecideInput
accept_group = record { id = none; group_id = some "g"; decision = some accept; note = none }

suggest_refused_example : (suggest joined no_row 1000 unnamed ceilings true none_yet).1 ≡ none_yet
unfolding suggest
suggest_refused_example =
    suggest_refused joined no_row 1000 unnamed ceilings true none_yet (λ r. ground arith)

suggest_stored_example :
    let s' = (suggest joined no_row 1000 edit ceilings true none_yet).1 in
    (c : Checked) × IsChecked edit c
    × (find c.id none_yet.suggestions ≡ none)
    × WithinCeilings 1000 c.editor edit ceilings none_yet
    × (find (c.editor, day_of 1000) s'.suggest_counts
        ≡ some (daily_count (find (c.editor, day_of 1000) none_yet.suggest_counts) + 1))
    × ((r : Suggestion) × (find c.id s'.suggestions ≡ some r)
        × (some (record row { status = accepted }) ≡ some r)
        × (r.editor ≡ c.editor)
        × (r.new_text ≡ some "new")
        × (r.status ≡ accepted))
unfolding suggest find count_where transition put transition_all ids_where can_transition modify
suggest_stored_example =
    suggest_stored joined no_row 1000 edit ceilings true none_yet
      (some (record row { status = accepted })) refl

suggest_twice_example :
    let s' = (suggest joined no_row 1000 edit ceilings false none_yet).1 in
    suggest joined no_row 2000 edit ceilings true s' ≡ (replay row, s')
unfolding suggest find count_where put transition_all ids_where
suggest_twice_example =
    suggest_twice joined no_row 1000 2000 edit ceilings ceilings false true none_yet row refl

suggest_taken_example :
    let (answer, s') = suggest joined no_row 2000 edit ceilings true one_edit in
    (s' ≡ one_edit)
    × ((row.client_fp ≡ none) ⊎ (row.client_fp ≡ some "intro.md#2|new|") → answer ≡ replay row)
    × ((other : String)
        → row.client_fp ≡ some other
        → other ≢ "intro.md#2|new|"
        → answer ≡ id_conflict row)
unfolding find
suggest_taken_example =
    suggest_taken joined no_row 2000 edit ceilings true one_edit edit_texts row
      (record { id = refl; editor = refl; source_ref = refl }) refl

decide_group_whole_example :
    let (answer, t') = decide 2000 accept_group group_rows in
    ((ids : List String) (id : String) (r : Suggestion)
      → answer ≡ changed ids
      → find id group_rows ≡ some r
      → in_group "g" r ≡ true
      → (r' : Suggestion) × (find id t' ≡ some r') × (r'.status ≡ accepted))
    × (((ids : List String) → answer ≢ changed ids) → t' ≡ group_rows)
decide_group_whole_example = decide_group_whole 2000 accept_group "g" accept group_rows refl refl

purge_exact_example :
    let (n, t') = purge 5000000000 30 group_rows in
    (n + length t' ≡ 3)
    × (find "c" group_rows ≡ some row
        → (is_terminal pending ≡ false) ⊎ (5000000000 ≤ 1000 + 30 * 86400000)
        → find "c" t' ≡ some row)
    × (find "c" t' ≡ some row → (is_terminal pending ≡ false) ⊎ (5000000000 ≤ 1000 + 30 * 86400000))
purge_exact_example = purge_exact 5000000000 30 group_rows "c" row

abbrev accept_edit : DecideInput
accept_edit = record { id = some "a"; group_id = none; decision = some accept; note = none }

abbrev merge_report : FinalizeInput
merge_report = record {
  phase = some "merged";
  applied = "a" ∷ [];
  accepted_blocked = [];
  needs_human = [];
  drift = [];
  base_sha = none;
  commit_sha = some "c1";
  generator_id = some "g1";
}

abbrev calls : List (ℕ × Call)
calls =
    (2000, decide_call accept_edit)
    ∷ (3000, claim_call "batch" none [] 300000)
    ∷ (4000, finalize_call false "batch" merge_report)
    ∷ (400000, reconcile_call)
    ∷ (5000000000, purge_call 30)
    ∷ []

run-Evolved_example : Fate joined no_row one_edit "a" (Evolved row) calls
unfolding find
run-Evolved_example = run-Evolved joined no_row calls one_edit "a" row refl

abbrev retired : Suggestion
retired = record row { status = declined }

abbrev retired_store : Store
retired_store = record one_edit { suggestions = ("a", retired) ∷ [] }

run-terminal_example :
    Fate joined no_row retired_store "a" (λ (q : Suggestion). q.status ≡ declined) calls
unfolding is_terminal find
run-terminal_example = run-terminal joined no_row calls retired_store "a" retired refl refl

-- Two accepted rows of one group.
abbrev pair_row : Suggestion
pair_row = record row { group_id = some "g"; status = accepted }

abbrev pair_rows : Rows
pair_rows = ("a", pair_row) ∷ ("b", pair_row) ∷ []

pair_rows-IsKeyed : IsKeyed pair_rows
unfolding find
pair_rows-IsKeyed id r first = refl
pair_rows-IsKeyed id r (later first) = refl
pair_rows-IsKeyed id r (later (later m)) = elim m [ ]

abbrev pair_store : Store
pair_store = record none_yet { suggestions = pair_rows }

claim_batch_whole_example : (is_accepted pair_row ≡ true) × (is_in ("a" ∷ "b" ∷ []) "b" ≡ true)
unfolding claim_batch claim_ids candidates rows_in sort_out sort_row add_groups rows_where find
    open_batch transition_all status_beq
claim_batch_whole_example =
    claim_batch_whole 5 "batch" none ("a" ∷ []) ("a" ∷ "b" ∷ []) 1000 1005 pair_store "a" pair_row
      "g" "b" pair_row pair_rows-IsKeyed refl refl refl refl refl refl
