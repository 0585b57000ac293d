-- ===== src/Budget/Turns/Replay.antt =====
-- The turn id protects a turn: a second call is answered from what the first one left.
use sonsteng_magnum_opus.Prelude.{
  is_some, ℕ, ◌+◌, ◌-◌, String, ◌≡◌, refl, ap, ◌∙◌, true, Option, none, some, ==_self, string_eq,
  nat_eq, arith,
}
use sonsteng_magnum_opus.Prelude.Table.{find, find-put_self, find-modify}
use sonsteng_magnum_opus.Budget.Cost.{Usage}
use sonsteng_magnum_opus.Budget.Store.{Pool, Session, Store, rollover, recharge, spent}
use sonsteng_magnum_opus.Budget.Store.Day.{
  DayOf, rollover-DayOf, rollover_again, recharge-DayOf, spent-recharge_self,
}
use sonsteng_magnum_opus.Budget.Turns.{
  TurnOptions, Admission, admitted, duplicate, replayed, effective_reserve, opened, open_turn,
  repeated, preflight_on, preflight, or_null, holds_turn, same_id, settle, settle_on, reconcile,
  matching_reserve, session_pool, settled, cost,
}
use sonsteng_magnum_opus.Budget.Turns.Gates.{
  open_turn-DayOf, sessions-open_turn, admitted_on, spent-open_turn,
}

same_id-or_null : (t : Option String) → is_some (or_null t) ≡ true → same_id (or_null t) t ≡ true
same_id-or_null none h = cc
same_id-or_null (some String.[]) h = cc
same_id-or_null (some (String.◌∷◌ c t)) h = ==_self (String.◌∷◌ c t)

-- The session holds the turn that was opened last.
pub opened_holds :
    (today : ℕ) (o : TurnOptions) (old : Option Session)
    → is_some (or_null o.turn_id) ≡ true
    → holds_turn today o.turn_id (some (opened today o old)) ≡ true
unfolding holds_turn opened
opened_holds today o old given = ground (arith, same_id-or_null o.turn_id given)

pub find-open_turn :
    (today : ℕ) (sid : String) (o : TurnOptions) (s : Store)
    → find sid (open_turn today sid o s).sessions ≡ some (opened today o (find sid s.sessions))
find-open_turn today sid o s =
    rw (sessions-open_turn today sid o s)
      (find-put_self sid (opened today o (find sid s.sessions)) s.sessions)

-- The answer to a turn id that the session holds.
pub repeat_on :
    (today : ℕ) (sid : String) (o : TurnOptions) (s : Store) (r : Session)
    → is_some (or_null o.turn_id) ≡ true
    → find sid s.sessions ≡ some r
    → holds_turn today o.turn_id (some r) ≡ true
    → preflight_on today sid o s ≡ (repeated (some r), s)
unfolding preflight_on
repeat_on today sid o s r given there holds = ground arith

-- When a turn with an id is admitted and the next call comes on the same day for the same session with
-- the same turn id, that call is refused as a duplicate whatever the other options are, and nothing is
-- written. Nothing is said of calls after the session has opened another turn.
pub preflight_twice :
    (today : ℕ) (sid : String) (o o' : TurnOptions) (s : Store) {n left : ℕ}
    → is_some (or_null o.turn_id) ≡ true
    → o'.turn_id ≡ o.turn_id
    → (preflight today sid o s).0 ≡ admitted n left
    → preflight today sid o' (preflight today sid o s).1 ≡ (duplicate, (preflight today sid o s).1)
unfolding preflight
preflight_twice today sid o o' s given same h =
    let before = rollover today s in
    let after = open_turn today sid o before in
    let again =
      rollover_again today after (open_turn-DayOf today sid o before (rollover-DayOf today s)) in
    rw ((admitted_on today sid o before h).0, again)
      (repeat_on today sid o' after (opened today o (find sid before.sessions)) (rw same given)
        (find-open_turn today sid o before)
        (rw same (opened_holds today o (find sid before.sessions) given)))

pub reconcile-DayOf :
    (today : ℕ) (p : Pool) (reserve actual : ℕ) (s : Store)
    → DayOf today s.budget
    → DayOf today (reconcile p reserve actual s).budget
unfolding reconcile
reconcile-DayOf today p reserve actual s d =
    ground (arith, recharge-DayOf today p reserve actual s d)

pub sessions-reconcile :
    (p : Pool) (reserve actual : ℕ) (s : Store)
    → (reconcile p reserve actual s).sessions ≡ s.sessions
unfolding reconcile recharge
sessions-reconcile p reserve actual s = ground arith

pub spent-reconcile :
    (today : ℕ) (p : Pool) (reserve actual : ℕ) (s : Store)
    → DayOf today s.budget
    → spent p (reconcile p reserve actual s) ≡ (spent p s + actual) - reserve
unfolding reconcile
spent-reconcile today p reserve actual s d =
    ground (arith, spent-recharge_self today p reserve actual s d)

-- `settle` on a session row: the charge, and the stored result.
pub settle_row :
    (today : ℕ) (sid : String) (usage : Option Usage) (turn : Option String) (result : String)
    (s : Store) (r : Session)
    → DayOf today s.budget
    → find sid s.sessions ≡ some r
    → let s' = (settle_on today sid usage turn result s).1 in
      (find sid s'.sessions ≡ some (settled result r))
      × DayOf today s'.budget
      × (spent (session_pool (some r)) s'
          ≡ (spent (session_pool (some r)) s + cost usage) - matching_reserve today turn (some r))
unfolding settle_on
settle_row today sid usage turn result s r d there =
    let p = session_pool (some r) in
    let reserve = matching_reserve today turn (some r) in
    rw there (
      rw (sessions-reconcile p reserve (cost usage) s, find-modify, ==_self sid, there),
      reconcile-DayOf today p reserve (cost usage) s d,
      spent-reconcile today p reserve (cost usage) s d,
    )

matching-opened :
    (today : ℕ) (o : TurnOptions) (old : Option Session)
    → is_some (or_null o.turn_id) ≡ true
    → matching_reserve today o.turn_id (some (opened today o old)) ≡ effective_reserve o
unfolding matching_reserve opened
matching-opened today o old given = rw (opened_holds today o old given)

pub settle_lem :
    (today : ℕ) (sid : String) (usage : Option Usage) (turn : Option String) (result : String)
    (s : Store)
    → DayOf today s.budget
    → settle today sid usage turn result s ≡ settle_on today sid usage turn result s
unfolding settle
settle_lem today sid usage turn result s d =
    ap (settle_on today sid usage turn result) (rollover_again today s d)

pub preflight_lem :
    (today : ℕ) (sid : String) (o : TurnOptions) (s : Store)
    → DayOf today s.budget
    → preflight today sid o s ≡ preflight_on today sid o s
unfolding preflight
preflight_lem today sid o s d = ap (preflight_on today sid o) (rollover_again today s d)

pub after-preflight :
    (today : ℕ) (sid : String) (o : TurnOptions) (s : Store) {n left : ℕ}
    → (preflight today sid o s).0 ≡ admitted n left
    → (preflight today sid o s).1 ≡ open_turn today sid o (rollover today s)
unfolding preflight
after-preflight today sid o s h = (admitted_on today sid o (rollover today s) h).0

pub repeated-settled :
    (result : String) (r : Session)
    → or_null (some result) ≡ some result
    → repeated (some (settled result r)) ≡ replayed result
unfolding repeated
repeated-settled result r text = rw text

pub session_pool-opened :
    (today : ℕ) (o : TurnOptions) (old : Option Session)
    → session_pool (some (opened today o old)) ≡ o.pool
unfolding opened
session_pool-opened today o old = refl

pub holds-settled :
    (today : ℕ) (turn : Option String) (result : String) (r : Session)
    → holds_turn today turn (some (settled result r)) ≡ holds_turn today turn (some r)
unfolding holds_turn
holds-settled today turn result r = refl

-- When a turn with an id is admitted and the next call settles it on the same day with a result that is not
-- the empty text, the reserve is replaced by the cost: the pool has spent what it had before the turn and the cost. If the
-- call after that is a preflight of the same session and turn id on the same day, it is answered with
-- the stored result, whatever the other options are, and nothing is written.
pub settle-preflight :
    (today : ℕ) (sid : String) (o o' : TurnOptions) (usage : Option Usage) (result : String)
    (s : Store) {n left : ℕ}
    → is_some (or_null o.turn_id) ≡ true
    → or_null (some result) ≡ some result
    → o'.turn_id ≡ o.turn_id
    → (preflight today sid o s).0 ≡ admitted n left
    → let s' = (settle today sid usage o.turn_id result (preflight today sid o s).1).1 in
      (spent o.pool s' ≡ spent o.pool (rollover today s) + cost usage)
      × (preflight today sid o' s' ≡ (replayed result, s'))
settle-preflight today sid o o' usage result s given text same h =
    let before = rollover today s in
    let after = open_turn today sid o before in
    let old = find sid before.sessions in
    let row = opened today o old in
    let on_day = open_turn-DayOf today sid o before (rollover-DayOf today s) in
    let (there, day, money) =
      settle_row today sid usage o.turn_id result after row on_day
        (find-open_turn today sid o before) in
    let s' = (settle_on today sid usage o.turn_id result after).1 in
    let holds : holds_turn today o'.turn_id (some (settled result row)) ≡ true =
      rw (same, holds-settled) (opened_holds today o old given) in
    rw (after-preflight today sid o s h, settle_lem today sid usage o.turn_id result after on_day)
      (
        omega (
          arith,
          rw (session_pool-opened, matching-opened today o old given) at money,
          spent-open_turn today sid o before (rollover-DayOf today s),
        ),
        preflight_lem today sid o' s' day
            ∙ repeat_on today sid o' s' (settled result row) (rw same given) there holds
            ∙ ap (λ (a : Admission). (a, s')) (repeated-settled result row text),
      )
