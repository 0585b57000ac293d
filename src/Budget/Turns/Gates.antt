-- ===== src/Budget/Turns/Gates.antt =====
-- What `preflight` admits, and that a refusal writes nothing.
use sonsteng_magnum_opus.Prelude.{
  is_some, ℕ, ◌+◌, ◌-◌, ◌<◌, String, ◌≡◌, ◌≢◌, ◌⊎◌, sym, ◌∙◌, true, false, ◌&&◌, string_eq, nat_eq,
  arith,
}
use sonsteng_magnum_opus.Prelude.Table.{find, find-put_self}
use sonsteng_magnum_opus.Budget.Store.{Store, rollover, recharge, spent, pool_cap}
use sonsteng_magnum_opus.Budget.Store.Day.{DayOf, rollover-DayOf, spent-recharge_self}
use sonsteng_magnum_opus.Budget.Turns.{
  TurnOptions, admitted, effective_reserve, opened, open_turn, turn_rows, turns_on, repeated,
  preflight_on, preflight, or_null, holds_turn,
}

pub open_turn-DayOf :
    (today : ℕ) (sid : String) (o : TurnOptions) (s : Store)
    → DayOf today s.budget
    → DayOf today (open_turn today sid o s).budget
unfolding open_turn recharge
open_turn-DayOf today sid o s d = ground arith

pub sessions-open_turn :
    (today : ℕ) (sid : String) (o : TurnOptions) (s : Store)
    → (open_turn today sid o s).sessions ≡ (turn_rows today sid o s).sessions
unfolding open_turn recharge
sessions-open_turn today sid o s = ground arith

pub persona_turns-open_turn :
    (today : ℕ) (sid : String) (o : TurnOptions) (s : Store)
    → (open_turn today sid o s).persona_turns ≡ (turn_rows today sid o s).persona_turns
unfolding open_turn recharge
persona_turns-open_turn today sid o s = ground arith

pub spent-open_turn :
    (today : ℕ) (sid : String) (o : TurnOptions) (s : Store)
    → DayOf today s.budget
    → spent o.pool (open_turn today sid o s) ≡ spent o.pool s + effective_reserve o
unfolding open_turn
spent-open_turn today sid o s d =
    ground
      (arith, spent-recharge_self today o.pool 0 (effective_reserve o) (turn_rows today sid o s) d)

-- Which gate answers, as an equation for the two parts of the result.
pub admitted_on :
    (today : ℕ) (sid : String) (o : TurnOptions) (s : Store) {n left : ℕ}
    → (preflight_on today sid o s).0 ≡ admitted n left
    → ((preflight_on today sid o s).1 ≡ open_turn today sid o s)
      × (n ≡ turns_on today (find sid s.sessions) + 1)
      × (n + left ≡ o.max_turns)
      × ((is_some (or_null o.turn_id) && holds_turn today o.turn_id (find sid s.sessions)) ≡ false)
      × ((o.skip_budget ≡ true)
          ⊎ (spent o.pool s < pool_cap o.pool o.cap_public_cents o.cap_demo_cents))
unfolding preflight_on repeated
admitted_on today sid o s h = ground arith

pub refused_on :
    (today : ℕ) (sid : String) (o : TurnOptions) (s : Store)
    → ((n left : ℕ) → (preflight_on today sid o s).0 ≢ admitted n left)
    → (preflight_on today sid o s).1 ≡ s
unfolding preflight_on repeated
refused_on today sid o s h = ground (
  arith,
  h (turns_on today (find sid s.sessions) + 1)
      (o.max_turns - (turns_on today (find sid s.sessions) + 1)),
)

turns-open_turn :
    (today : ℕ) (sid : String) (o : TurnOptions) (s : Store)
    → turns_on today (find sid (open_turn today sid o s).sessions)
      ≡ turns_on today (find sid s.sessions) + 1
unfolding turns_on opened
turns-open_turn today sid o s =
    rw (sessions-open_turn today sid o s)
      (rw (find-put_self sid (opened today o (find sid s.sessions)) s.sessions) (ground arith))

-- A turn that `preflight` admits is within the day's turn limit and is the session's new count; on a
-- hosted pool the spend was below the cap, and the pool's spend grows by exactly the turn's reserve
-- (nothing on the path that skips the budget).
pub preflight_admits :
    (today : ℕ) (sid : String) (o : TurnOptions) (s : Store) {n left : ℕ}
    → (preflight today sid o s).0 ≡ admitted n left
    → let before = rollover today s in
      let after = (preflight today sid o s).1 in
      (n + left ≡ o.max_turns)
      × (turns_on today (find sid before.sessions) + 1 ≡ n)
      × (turns_on today (find sid after.sessions) ≡ n)
      × (spent o.pool after ≡ spent o.pool before + effective_reserve o)
      × ((o.skip_budget ≡ true)
          ⊎ (spent o.pool before < pool_cap o.pool o.cap_public_cents o.cap_demo_cents))
unfolding preflight
preflight_admits today sid o s h =
    let before = rollover today s in
    let (same, turn, limit, _, room) = admitted_on today sid o before h in
    (
      limit,
      sym turn,
      rw same (turns-open_turn today sid o before ∙ sym turn),
      rw same (spent-open_turn today sid o before (rollover-DayOf today s)),
      room,
    )

-- A call of `preflight` that does not admit a turn writes nothing behind the daily rollover.
pub preflight-refused :
    (today : ℕ) (sid : String) (o : TurnOptions) (s : Store)
    → ((n left : ℕ) → (preflight today sid o s).0 ≢ admitted n left)
    → (preflight today sid o s).1 ≡ rollover today s
unfolding preflight
preflight-refused today sid o s h = refused_on today sid o (rollover today s) h
