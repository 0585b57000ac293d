-- ===== src/Budget/Turns/Failure.antt =====
-- A turn that fails is returned, once, and never after it was settled.
use sonsteng_magnum_opus.Prelude.{
  is_some, ℕ, ◌+◌, ◌-◌, String, ◌≡◌, ◌⊎◌, inl, inr, refl, ap, ◌∙◌, true, false, Option, none, some,
  ==_self, string_eq, nat_eq, pair_eq, arith,
}
use sonsteng_magnum_opus.Prelude.Table.{find, find-put_self, find-modify, map_row}
use sonsteng_magnum_opus.Budget.Cost.{Usage}
use sonsteng_magnum_opus.Budget.Store.{Pool, Session, Store, rollover, recharge, spent}
use sonsteng_magnum_opus.Budget.Store.Day.{DayOf, rollover-DayOf, rollover_again}
use sonsteng_magnum_opus.Budget.Turns.{
  TurnOptions, admitted, effective_reserve, opened, counted, open_turn, turns_on, preflight,
  or_null, holds_turn, settle, settle_on, reconcile, session_pool, cost, matching_reserve, reopened,
  uncounted, uncount_persona, return_turn, fail_row, fail, committed_turns_for_persona,
}
use sonsteng_magnum_opus.Budget.Turns.Gates.{
  open_turn-DayOf, persona_turns-open_turn, spent-open_turn,
}
use sonsteng_magnum_opus.Budget.Turns.Replay.{
  opened_holds, find-open_turn, reconcile-DayOf, sessions-reconcile, spent-reconcile, settle_row,
  settle_lem, after-preflight,
}

fail_lem :
    (today : ℕ) (sid : String) (usage : Option Usage) (turn persona : Option String) (s : Store)
    → DayOf today s.budget
    → fail today sid usage turn persona s
      ≡ fail_row today sid usage turn persona (find sid s.sessions) s
unfolding fail
fail_lem today sid usage turn persona s d =
    ap (λ (t : Store). fail_row today sid usage turn persona (find sid t.sessions) t)
      (rollover_again today s d)

-- A row that holds the turn and has no result is returned; any other is left.
fail_row_open :
    (today : ℕ) (sid : String) (usage : Option Usage) (turn persona : Option String) (r : Session)
    (s : Store)
    → holds_turn today turn (some r) ≡ true
    → r.last_result ≡ none
    → fail_row today sid usage turn persona (some r) s
      ≡ (some (cost usage), return_turn today sid (cost usage) persona r s)
unfolding fail_row
fail_row_open today sid usage turn persona r s holds e = rw (holds, e)

fail_row_other :
    (today : ℕ) (sid : String) (usage : Option Usage) (turn persona : Option String) (r : Session)
    (s : Store)
    → (holds_turn today turn (some r) ≡ false) ⊎ (is_some r.last_result ≡ true)
    → fail_row today sid usage turn persona (some r) s ≡ (none, s)
unfolding fail_row
fail_row_other today sid usage turn persona r s h = ground arith

persona_turns-reconcile :
    (p : Pool) (reserve actual : ℕ) (s : Store)
    → (reconcile p reserve actual s).persona_turns ≡ s.persona_turns
unfolding reconcile recharge
persona_turns-reconcile p reserve actual s = ground arith

sessions-uncount_persona :
    (today : ℕ) (sid : String) (persona : Option String) (s : Store)
    → (uncount_persona today sid persona s).sessions ≡ s.sessions
unfolding uncount_persona
sessions-uncount_persona today sid none s = refl
sessions-uncount_persona today sid (some p) s = refl

budget-uncount_persona :
    (today : ℕ) (sid : String) (persona : Option String) (s : Store)
    → (uncount_persona today sid persona s).budget ≡ s.budget
unfolding uncount_persona
budget-uncount_persona today sid none s = refl
budget-uncount_persona today sid (some p) s = refl

find-uncount_persona :
    (today : ℕ) (sid p : String) (s : Store)
    → find (sid, p) (uncount_persona today sid (some p) s).persona_turns
      ≡ map_row (uncounted today) (find (sid, p) s.persona_turns)
unfolding uncount_persona
find-uncount_persona today sid p s = rw find-modify (ground (arith, ==_self sid, ==_self p))

spent-uncount_persona :
    (today : ℕ) (sid : String) (persona : Option String) (s : Store) (p : Pool)
    → spent p (uncount_persona today sid persona s) ≡ spent p s
unfolding uncount_persona
spent-uncount_persona today sid none s p = refl
spent-uncount_persona today sid (some q) s p = refl

module _ (today : ℕ) (sid : String) (actual : ℕ) (persona : Option String) (r : Session)
    (s : Store) where
  find-return_turn :
      find sid s.sessions ≡ some r
      → find sid (return_turn today sid actual persona r s).sessions ≡ some (reopened r)
  unfolding return_turn
  find-return_turn there = rw (
    sessions-uncount_persona,
    sessions-reconcile (session_pool (some r)) r.last_reserve actual s,
    find-modify,
    ==_self sid,
    there,
  )

  return_turn-DayOf :
      DayOf today s.budget → DayOf today (return_turn today sid actual persona r s).budget
  unfolding return_turn
  return_turn-DayOf d =
      rw budget-uncount_persona
        (reconcile-DayOf today (session_pool (some r)) r.last_reserve actual s d)

  spent-return_turn :
      DayOf today s.budget
      → spent (session_pool (some r)) (return_turn today sid actual persona r s)
        ≡ (spent (session_pool (some r)) s + actual) - r.last_reserve
  unfolding return_turn
  spent-return_turn d =
      rw spent-uncount_persona
        (spent-reconcile today (session_pool (some r)) r.last_reserve actual s d)

  persona-return_turn :
      (p : String)
      → or_null persona ≡ some p
      → find (sid, p) (return_turn today sid actual persona r s).persona_turns
        ≡ map_row (uncounted today) (find (sid, p) s.persona_turns)
  unfolding return_turn
  persona-return_turn p e = rw (
    e,
    find-uncount_persona,
    persona_turns-reconcile (session_pool (some r)) r.last_reserve actual s,
  )

opened_result :
    (today : ℕ) (o : TurnOptions) (old : Option Session) → (opened today o old).last_result ≡ none
unfolding opened
opened_result today o old = refl

spent-returned :
    (today : ℕ) (sid : String) (actual : ℕ) (persona : Option String) (o : TurnOptions)
    (old : Option Session) (s : Store)
    → DayOf today s.budget
    → spent o.pool (return_turn today sid actual persona (opened today o old) s)
      ≡ (spent o.pool s + actual) - effective_reserve o
unfolding opened
spent-returned today sid actual persona o old s d =
    spent-return_turn today sid actual persona (opened today o old) s d

persona-open_turn :
    (today : ℕ) (sid : String) (o : TurnOptions) (s : Store)
    → find (sid, o.persona_id) (open_turn today sid o s).persona_turns
      ≡ some (counted today (find (sid, o.persona_id) s.persona_turns))
persona-open_turn today sid o s = rw (persona_turns-open_turn today sid o s) (
    find-put_self (sid, o.persona_id) (counted today (find (sid, o.persona_id) s.persona_turns))
      s.persona_turns)

committed-uncounted :
    (today : ℕ) (sid p : String) (s s' : Store)
    → find (sid, p) s'.persona_turns
      ≡ some (uncounted today (counted today (find (sid, p) s.persona_turns)))
    → committed_turns_for_persona today sid p s' ≡ committed_turns_for_persona today sid p s
unfolding committed_turns_for_persona counted
committed-uncounted today sid p s s' e = ground arith

turns-reopened :
    (today : ℕ) (o : TurnOptions) (old : Option Session)
    → turns_on today (some (reopened (opened today o old))) ≡ turns_on today old
unfolding turns_on opened
turns-reopened today o old = ground arith

reopened_free :
    (today : ℕ) (o : TurnOptions) (r : Session)
    → is_some (or_null o.turn_id) ≡ true
    → holds_turn today o.turn_id (some (reopened r)) ≡ false
unfolding holds_turn
reopened_free today o r given = ground arith

-- A turn that was admitted and then fails is taken back: the pool has spent what it had before the
-- turn and the cost that is known (nothing on a rollback), the session and the persona have the turns
-- that they had, and the turn id is free again.
pub fail-preflight :
    (today : ℕ) (sid : String) (o : TurnOptions) (usage : Option Usage) (s : Store) {n left : ℕ}
    → is_some (or_null o.turn_id) ≡ true
    → or_null (some o.persona_id) ≡ some o.persona_id
    → (preflight today sid o s).0 ≡ admitted n left
    → let before = rollover today s in
      let s' = (fail today sid usage o.turn_id (some o.persona_id) (preflight today sid o s).1).1 in
      (spent o.pool s' ≡ spent o.pool before + cost usage)
      × (turns_on today (find sid s'.sessions) ≡ turns_on today (find sid before.sessions))
      × (committed_turns_for_persona today sid o.persona_id s'
          ≡ committed_turns_for_persona today sid o.persona_id before)
      × (holds_turn today o.turn_id (find sid s'.sessions) ≡ false)
fail-preflight today sid o usage s given persona h =
    let before = rollover today s in
    let after = open_turn today sid o before in
    let old = find sid before.sessions in
    let row = opened today o old in
    let on_day = open_turn-DayOf today sid o before (rollover-DayOf today s) in
    let there = find-open_turn today sid o before in
    let holds = opened_holds today o old given in
    let p = some o.persona_id in
    let money = spent-returned today sid (cost usage) p o old after on_day in
    rw
      (
        after-preflight today sid o s h,
        fail_lem today sid usage o.turn_id p after on_day,
        there,
        fail_row_open today sid usage o.turn_id p row after holds (opened_result today o old),
      )
      (
        omega (arith, money, spent-open_turn today sid o before (rollover-DayOf today s)),
        rw (find-return_turn today sid (cost usage) p row after there) (turns-reopened today o old),
        committed-uncounted today sid o.persona_id before
            (return_turn today sid (cost usage) p row after)
            (persona-return_turn today sid (cost usage) p row after o.persona_id persona
              ∙ ap (map_row (uncounted today)) (persona-open_turn today sid o before)),
        rw (find-return_turn today sid (cost usage) p row after there)
            (reopened_free today o row given),
      )

-- A failure of a turn that the session's row holds no longer, or that has a result, is ignored.
fail_ignored :
    (today : ℕ) (sid : String) (usage : Option Usage) (turn persona : Option String) (s : Store)
    (r : Session)
    → DayOf today s.budget
    → find sid s.sessions ≡ some r
    → (holds_turn today turn (some r) ≡ false) ⊎ (is_some r.last_result ≡ true)
    → fail today sid usage turn persona s ≡ (none, s)
fail_ignored today sid usage turn persona s r d there h =
    fail_lem today sid usage turn persona s d
    ∙ rw there (fail_row_other today sid usage turn persona r s h)

-- When a turn with an id is admitted and the next call on the same day settles it, a failure of the turn
-- that follows on that day bills nothing and changes nothing; and when the next call reports its failure,
-- a second failure that follows on that day bills nothing and changes nothing. This holds whatever usage
-- and persona the later failure names.
pub fail_once :
    (today : ℕ) (sid : String) (o : TurnOptions) (usage usage' : Option Usage)
    (persona : Option String) (result : String) (s : Store) {n left : ℕ}
    → is_some (or_null o.turn_id) ≡ true
    → (preflight today sid o s).0 ≡ admitted n left
    → let opened_store = (preflight today sid o s).1 in
      let settled_store = (settle today sid usage o.turn_id result opened_store).1 in
      let failed_store = (fail today sid usage o.turn_id (some o.persona_id) opened_store).1 in
      (fail today sid usage' o.turn_id persona settled_store ≡ (none, settled_store))
      × (fail today sid usage' o.turn_id persona failed_store ≡ (none, failed_store))
fail_once today sid o usage usage' persona result s given h =
    let before = rollover today s in
    let after = open_turn today sid o before in
    let row = opened today o (find sid before.sessions) in
    let on_day = open_turn-DayOf today sid o before (rollover-DayOf today s) in
    let there = find-open_turn today sid o before in
    let holds = opened_holds today o (find sid before.sessions) given in
    let p = some o.persona_id in
    let (kept, day, _) = settle_row today sid usage o.turn_id result after row on_day there in
    rw
      (
        after-preflight today sid o s h,
        settle_lem today sid usage o.turn_id result after on_day,
        fail_lem today sid usage o.turn_id p after on_day,
        there,
        fail_row_open today sid usage o.turn_id p row after holds
            (opened_result today o (find sid before.sessions)),
      )
      (
        fail_ignored today sid usage' o.turn_id persona _ _ day kept (inr refl),
        fail_ignored today sid usage' o.turn_id persona _ (reopened row)
            (return_turn-DayOf today sid (cost usage) p row after on_day)
            (find-return_turn today sid (cost usage) p row after there)
            (inl (reopened_free today o row given)),
      )

settle_behind :
    (today : ℕ) (sid : String) (usage : Option Usage) (turn : Option String) (result : String)
    (s : Store)
    → settle today sid usage turn result s
      ≡ settle_on today sid usage turn result (rollover today s)
unfolding settle
settle_behind today sid usage turn result s = refl

matching_other :
    (today : ℕ) (turn : Option String) (r : Session)
    → holds_turn today turn (some r) ≡ false
    → matching_reserve today turn (some r) ≡ 0
unfolding matching_reserve
matching_other today turn r other = rw other

-- `settle` of a turn that the session no longer holds, because another turn was opened meanwhile,
-- refunds nothing, yet clears the open turn's reserve from its row and stores the old turn's result
-- under the open turn's id.
pub settle_other_turn :
    (today : ℕ) (sid : String) (usage : Option Usage) (turn : Option String) (result : String)
    (s : Store) (r : Session)
    → find sid (rollover today s).sessions ≡ some r
    → holds_turn today turn (some r) ≡ false
    → let s' = (settle today sid usage turn result s).1 in
      (find sid s'.sessions ≡ some (record r { last_reserve = 0; last_result = some result }))
      × (spent (session_pool (some r)) s'
          ≡ spent (session_pool (some r)) (rollover today s) + cost usage)
settle_other_turn today sid usage turn result s r there other =
    let before = rollover today s in
    let (row, _, money) =
      settle_row today sid usage turn result before r (rollover-DayOf today s) there in
    rw (settle_behind today sid usage turn result s)
      (row, omega (arith, money, matching_other today turn r other))
