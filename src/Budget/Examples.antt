-- ===== src/Budget/Examples.antt =====
-- Runs of the counters, and the theorems about them at inputs that meet their hypotheses.
use mathlib.Core.Path.{refl}
use sonsteng_magnum_opus.Prelude.{
  ℕ, ◌+◌, ◌-◌, ◌*◌, ◌≤◌, ◌<◌, ◌≡◌, ◌⊎◌, String, true, false, none, some, List, [], ◌∷◌, arith,
  string_eq,
}
use sonsteng_magnum_opus.Prelude.Value.{nat, undefined, text}
use sonsteng_magnum_opus.Prelude.Table.{find, put}
use sonsteng_magnum_opus.Budget.Cost.{
  Usage, normalize_token_count, micro_for_usage, cents_for_usage, worst_case_reserve_cents,
}
use sonsteng_magnum_opus.Budget.Cost.Rounding.{
  cents_for_usage_bounds, cents-le-reserve, reserve-lt-cache_writes,
}
use sonsteng_magnum_opus.Budget.Store.{
  public, demo, Session, Store, empty, rollover, recharge, spent,
}
use sonsteng_magnum_opus.Budget.Turns.{
  TurnOptions, duplicate, replayed, preflight, settle, fail, turns_on, holds_turn, cost, Admission,
  committed_turns_for_persona, effective_reserve,
}
use sonsteng_magnum_opus.Budget.Turns.Gates.{preflight_admits, preflight-refused}
use sonsteng_magnum_opus.Budget.Turns.Replay.{preflight_twice, settle-preflight}
use sonsteng_magnum_opus.Budget.Turns.Failure.{fail-preflight, fail_once, settle_other_turn}
use sonsteng_magnum_opus.Budget.OneShot.{ReserveOptions, reserve_one_shot}
use sonsteng_magnum_opus.Budget.OneShot.Laws.{reserve-le-cap}
use sonsteng_magnum_opus.Budget.Mints.{
  MintOptions, mint, claimed, claim_assessment_request, requests_on,
}
use sonsteng_magnum_opus.Budget.Mints.Limits.{
  minted, minted_by, mint-le-ceilings, mint_counts, claim_counts,
}
use sonsteng_magnum_opus.Budget.Cover.{held}
use sonsteng_magnum_opus.Budget.Trace.{
  Call, preflight_call, reserve_call, after, run, run-IsCovered,
}

-- 2,000,000 plain input tokens, 100,000 output tokens: 2.50 dollars.
abbrev usage : Usage
usage = record {
  input_tokens = nat 2000000;
  output_tokens = nat 100000;
  thought_tokens = undefined;
  cache_creation_input_tokens = undefined;
  cache_read_input_tokens = nat 5;
}

abbrev cache_writing : Usage
cache_writing = record usage { cache_creation_input_tokens = nat 50000; input_tokens = undefined }

usage_cents : cents_for_usage usage ≡ 251
unfolding cents_for_usage normalize_token_count
usage_cents = refl

cents_for_usage_bounds_example :
    (micro_for_usage usage ≤ cents_for_usage usage * 1000000)
    × (cents_for_usage usage * 1000000 < micro_for_usage usage + 1000000)
cents_for_usage_bounds_example = cents_for_usage_bounds usage

cents-le-reserve_example : cents_for_usage usage ≤ worst_case_reserve_cents 2000005 100000
unfolding normalize_token_count
cents-le-reserve_example = cents-le-reserve usage 2000005 100000 refl (omega arith) (omega arith)

reserve-lt-cache_writes_example :
    worst_case_reserve_cents (normalize_token_count (nat 50000)) 100000
    < cents_for_usage cache_writing
unfolding normalize_token_count
reserve-lt-cache_writes_example = reserve-lt-cache_writes cache_writing 100000 (omega arith) refl

abbrev options : TurnOptions
options = record {
  persona_id = "client";
  pool = demo;
  cap_public_cents = 500;
  cap_demo_cents = 300;
  max_turns = 2;
  reserve_cents = 40;
  turn_id = some "t1";
  skip_budget = false;
}

abbrev next_options : TurnOptions
next_options = record options { turn_id = some "t2" }

abbrev opened_once : Store
opened_once = (preflight 9 "s" options empty).1

abbrev opened_twice : Store
opened_twice = (preflight 9 "s" next_options opened_once).1

third_turn :
    (preflight 9 "s" (record options { turn_id = some "t3" }) opened_twice).0
    ≡ Admission.turn_limit 2
unfolding preflight find put recharge
third_turn = refl

preflight_admits_example :
    let after = (preflight 9 "s" options empty).1 in
    (1 + 1 ≡ options.max_turns)
    × (turns_on 9 (find "s" (rollover 9 empty).sessions) + 1 ≡ 1)
    × (turns_on 9 (find "s" after.sessions) ≡ 1)
    × (spent demo after ≡ spent demo (rollover 9 empty) + effective_reserve options)
    × ((options.skip_budget ≡ true) ⊎ (spent demo (rollover 9 empty) < 300))
unfolding preflight find
preflight_admits_example = preflight_admits 9 "s" options empty {n = 1} {left = 1} refl

-- The demo pool is full: nothing is admitted and nothing is written.
preflight-refused_example :
    (preflight 9 "s" (record options { cap_demo_cents = 0 }) empty).1 ≡ rollover 9 empty
unfolding preflight find
preflight-refused_example =
    preflight-refused 9 "s" (record options { cap_demo_cents = 0 }) empty (λ n left e. cc e)

preflight_twice_example : preflight 9 "s" options opened_once ≡ (duplicate, opened_once)
unfolding preflight find
preflight_twice_example =
    preflight_twice 9 "s" options options empty {n = 1} {left = 1} refl refl refl

settle-preflight_example :
    let s' = (settle 9 "s" (some usage) (some "t1") "{}" opened_once).1 in
    (spent demo s' ≡ spent demo (rollover 9 empty) + cost (some usage))
    × (preflight 9 "s" options s' ≡ (replayed "{}", s'))
unfolding preflight find
settle-preflight_example =
    settle-preflight 9 "s" options options (some usage) "{}" empty {n = 1} {left = 1} refl refl refl
      refl

fail-preflight_example :
    let s' = (fail 9 "s" none (some "t1") (some "client") opened_once).1 in
    (spent demo s' ≡ spent demo (rollover 9 empty) + cost none)
    × (turns_on 9 (find "s" s'.sessions) ≡ turns_on 9 (find "s" (rollover 9 empty).sessions))
    × (committed_turns_for_persona 9 "s" "client" s'
        ≡ committed_turns_for_persona 9 "s" "client" (rollover 9 empty))
    × (holds_turn 9 (some "t1") (find "s" s'.sessions) ≡ false)
unfolding preflight find
fail-preflight_example = fail-preflight 9 "s" options none empty {n = 1} {left = 1} refl refl refl

abbrev first_row : Session
first_row = record {
  day = 9;
  turns = 2;
  last_turn_id = some "t2";
  last_reserve = 40;
  last_pool = some demo;
  last_result = none;
}

-- Turn t1 is settled or has failed once; a failure of it for another persona comes later.
fail_once_example :
    let opened_store = opened_once in
    let settled_store = (settle 9 "s" (some usage) (some "t1") "{}" opened_store).1 in
    let failed_store = (fail 9 "s" (some usage) (some "t1") (some "client") opened_store).1 in
    (fail 9 "s" none (some "t1") (some "judge") settled_store ≡ (none, settled_store))
    × (fail 9 "s" none (some "t1") (some "judge") failed_store ≡ (none, failed_store))
unfolding preflight find
fail_once_example =
    fail_once 9 "s" options (some usage) none (some "judge") "{}" empty {n = 1} {left = 1} refl refl

-- A late settlement of t1 while t2 is open.
settle_other_turn_example :
    let s' = (settle 9 "s" none (some "t1") "old" opened_twice).1 in
    (find "s" s'.sessions ≡ some (record first_row { last_reserve = 0; last_result = some "old" }))
    × (spent demo s' ≡ spent demo (rollover 9 opened_twice) + cost none)
unfolding preflight find put recharge rollover holds_turn
settle_other_turn_example =
    settle_other_turn 9 "s" none (some "t1") "old" opened_twice first_row refl refl

abbrev reservation : ReserveOptions
reservation = record {
  pool = public;
  cap_public_cents = 500;
  cap_demo_cents = 300;
  reserve_cents = nat 60;
}

reserve-le-cap_example :
    let s' = (reserve_one_shot 9 (text "r1") reservation empty).1 in
    (spent public s' ≡ spent public (rollover 9 empty) + 60) × (spent public s' ≤ 500)
unfolding reserve_one_shot find
reserve-le-cap_example = reserve-le-cap 9 (text "r1") "r1" reservation 60 empty refl refl refl

abbrev mint_options : MintOptions
mint_options = record { max_sessions_per_day = 2; per_ip_ceiling = 1; bypass = false }

mint-le-ceilings_example :
    let s' = (mint 9 "ip" mint_options empty).1 in
    ((day : ℕ) → minted day s' ≤ 2) × ((a : String) (day : ℕ) → minted_by a day s' ≤ 1)
unfolding find
mint-le-ceilings_example =
    mint-le-ceilings 9 "ip" mint_options empty refl (λ day. omega arith) (λ a day. omega arith)

mint_counts_example :
    let (ok, s') = mint 9 "ip" mint_options empty in
    (ok ≡ true → minted 9 s' ≡ minted 9 empty + 1)
    × (ok ≡ true → minted_by "ip" 9 s' ≡ minted_by "ip" 9 empty + 1)
    × (ok ≡ false → s' ≡ empty)
mint_counts_example = mint_counts 9 "ip" mint_options empty

claim_counts_example :
    let (answer, s') = claim_assessment_request 9 (text "s") (nat 2) empty in
    let before = requests_on 9 (find "s" empty.assessment_requests) in
    ((n left : ℕ)
      → answer ≡ claimed n left
      → (n ≡ before + 1) × (n + left ≡ 2) × (requests_on 9 (find "s" s'.assessment_requests) ≡ n))
    × (2 ≤ before → s' ≡ empty)
    × (before < 2 → answer ≡ claimed (before + 1) (2 - (before + 1)))
claim_counts_example = claim_counts 9 (text "s") (nat 2) "s" 2 empty refl refl

-- A turn and a one-shot call of day 9 are open; then the day changes and a turn opens.
abbrev calls : List (ℕ × Call)
calls =
    (9, preflight_call "s" options)
    ∷ (9, reserve_call (text "r1") reservation)
    ∷ (10, preflight_call "s" next_options)
    ∷ []

run-IsCovered_example :
    (held public 10 (run calls empty) ≤ 0) × (held demo 10 (run calls empty) ≤ 40)
unfolding run after preflight reserve_one_shot find put recharge
run-IsCovered_example =
    run-IsCovered calls (record { day = 10; public_cents = 0; demo_cents = 40 }) (omega arith) refl
