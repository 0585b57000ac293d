-- ===== src/Editor/Requests/Examples.antt =====
-- Runs of the revert and scoped requests and of the heartbeat.
use mathlib.Core.Path.{refl}
use sonsteng_magnum_opus.Prelude.{
  ◌+◌, ◌-◌, ◌*◌, ◌≤◌, ◌<◌, arith, ℕ, String, string_eq, ◌≡◌, true, false, none, some, List, [], ◌∷◌,
}
use sonsteng_magnum_opus.Prelude.Value.{nat}
use sonsteng_magnum_opus.Prelude.Table.{Table, find}
use sonsteng_magnum_opus.Editor.Requests.{
  Revert, RevertStatus, revert_terminal, Scoped, ScopedStatus, claim_scoped_row,
  claim_scoped_request,
}
use sonsteng_magnum_opus.Editor.Heartbeat.{record_heartbeat, heartbeat_age_s, heartbeat_age-record}
use sonsteng_magnum_opus.Editor.Requests.Lifecycle
use sonsteng_magnum_opus.Editor.Requests.Scopes

abbrev filed_revert : Revert
filed_revert = record {
  editor = "ed";
  doc = "intro.md";
  run_first = "c1";
  run_last = "c2";
  status = RevertStatus.failed;
  note = none;
  created_at = 1;
  updated_at = 2;
}

abbrev revert_calls : List (ℕ × Lifecycle.RevertCall)
revert_calls = (5, Lifecycle.resolve_call "r" (some RevertStatus.done) none) ∷ []

run_reverts-keeps_example :
    find "r" (Lifecycle.run_reverts revert_calls (("r", filed_revert) ∷ [])) ≡ some filed_revert
unfolding find revert_terminal
run_reverts-keeps_example =
    Lifecycle.run_reverts-keeps revert_calls (("r", filed_revert) ∷ []) "r" filed_revert refl refl

abbrev scoped_row : Scoped
scoped_row = record {
  editor = "ed";
  level = "module";
  matter = none;
  part = none;
  module_name = some "m";
  instruction = "Shorten it.";
  radius_blocks = nat 3;
  radius_files = none;
  radius_matters = none;
  confirmed = true;
  status = ScopedStatus.requested;
  phase = "canary";
  group_id = none;
  canary_matter = none;
  note = none;
  created_at = 1;
  updated_at = 1;
}

abbrev scoped_rows : Table String Scoped
scoped_rows = ("q", scoped_row) ∷ []

run_scopes-Lives_example :
    (r' : Scoped) × (find "q" (Scopes.run_scopes ((5, Scopes.claim_call "q") ∷ []) scoped_rows)
      ≡ some r')
    × Scopes.Lives scoped_row r'
unfolding find
run_scopes-Lives_example =
    Scopes.run_scopes-Lives ((5, Scopes.claim_call "q") ∷ []) scoped_rows "q" scoped_row refl

claim_scoped_twice_example :
    let t' = (claim_scoped_request 5 "q" scoped_rows).1 in
    claim_scoped_request 6 "q" t' ≡ (false, t')
unfolding claim_scoped_request claim_scoped_row find
claim_scoped_twice_example = Scopes.claim_scoped_twice 5 6 "q" scoped_rows refl

heartbeat_age-record_example :
    (a : ℕ) × (heartbeat_age_s 63600 (record_heartbeat 1000 true none none none) ≡ some a)
    × (1000 * a ≤ (63600 - 1000) + 500)
    × ((63600 - 1000) + 500 < 1000 * a + 1000)
heartbeat_age-record_example = heartbeat_age-record 1000 63600 true none none none (omega arith)
