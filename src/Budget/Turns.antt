-- ===== src/Budget/Turns.antt =====
-- The chat turns of app/worker/src/budget-core.js: `preflight`, `settle`, `fail`, `rollback`,
-- `committedTurnsForPersona`. A result is kept as its JSON text.
pub mod Gates
pub mod Failure
pub mod Replay
use sonsteng_magnum_opus.Prelude.{
  is_some, ℕ, ◌+◌, ◌-◌, String, Bool, true, false, not, ◌&&◌, ◌||◌, Option, none, some, ◌==◌,
  string_eq, nat_eq, pair_eq, ltb, leb, if◌then◌else◌,
}
use sonsteng_magnum_opus.Prelude.Table.{find, put, modify}
use sonsteng_magnum_opus.Budget.Cost.{Usage, cents_for_usage}
use sonsteng_magnum_opus.Budget.Store.{
  Pool, public, Session, PersonaTurns, Store, rollover, spent, recharge, pool_cap,
}

pub record TurnOptions : Type 0 where
  pub persona_id : String
  pub pool : Pool
  pub cap_public_cents : ℕ
  pub cap_demo_cents : ℕ
  pub max_turns : ℕ
  pub reserve_cents : ℕ
  pub turn_id : Option String
  pub skip_budget : Bool

pub data Admission : Type 0 where
  replayed : String → Admission
  duplicate cap_exceeded : Admission
  turn_limit : ℕ → Admission
  admitted : ℕ → ℕ → Admission

-- `v || null` for a text that may be missing
abbrev pub or_null : Option String → Option String
or_null none = none
or_null (some String.[]) = none
or_null (some (String.◌∷◌ c t)) = some (String.◌∷◌ c t)

-- `sess.last_turn_id === turnId`: a turn id that is missing is `undefined`, and a column that is missing
-- is null, which are not the same.
abbrev pub same_id : Option String → Option String → Bool
same_id (some a) (some b) = a == b
same_id _ _ = false

-- `sess && sess.day === today && sess.last_turn_id === turnId`
unfoldable pub holds_turn : ℕ → Option String → Option Session → Bool
holds_turn today turn none = false
holds_turn today turn (some r) = r.day == today && same_id r.last_turn_id turn

-- The answer to a turn id that the session already holds.
unfoldable pub repeated : Option Session → Admission
repeated none = duplicate
repeated (some r) = elim (or_null r.last_result) [ none ↦ duplicate | some t ↦ replayed t ]

unfoldable pub turns_on : ℕ → Option Session → ℕ
turns_on today none = 0
turns_on today (some r) = if r.day == today then r.turns else 0

abbrev pub effective_reserve : TurnOptions → ℕ
effective_reserve o = if o.skip_budget then 0 else o.reserve_cents

-- The `sessions` upsert: `turns` is counted from the stored row on a conflict.
unfoldable pub opened : ℕ → TurnOptions → Option Session → Session
opened today o old = record {
  day = today;
  turns = elim old [ none ↦ 1 | some r ↦ if r.day == today then r.turns + 1 else 1 ];
  last_turn_id = or_null o.turn_id;
  last_reserve = effective_reserve o;
  last_pool = some o.pool;
  last_result = none;
}

-- The `persona_turns` upsert.
unfoldable pub counted : ℕ → Option PersonaTurns → PersonaTurns
counted today none = record { day = today; turns = 1 }
counted today (some r) = record { day = today; turns = if r.day == today then r.turns + 1 else 1 }

-- The two upserts of an admitted turn.
abbrev pub turn_rows : ℕ → String → TurnOptions → Store → Store
turn_rows today sid o s = record s {
  sessions = put sid (opened today o (find sid s.sessions)) s.sessions;
  persona_turns =
      put (sid, o.persona_id) (counted today (find (sid, o.persona_id) s.persona_turns))
        s.persona_turns;
}

-- The writes of an admitted turn: the upserts, and the reserve when there is one.
unfoldable pub open_turn : ℕ → String → TurnOptions → Store → Store
unfolding opened counted
open_turn today sid o s =
    let s' = turn_rows today sid o s in
    if ltb 0 (effective_reserve o) then recharge o.pool 0 (effective_reserve o) s' else s'

-- `preflight` behind its rollover.
unfoldable pub preflight_on : ℕ → String → TurnOptions → Store → Admission × Store
unfolding open_turn repeated turns_on holds_turn
preflight_on today sid o s =
    let sess = find sid s.sessions in
    if is_some (or_null o.turn_id) && holds_turn today o.turn_id sess
    then (repeated sess, s)
    else if not o.skip_budget
        && leb (pool_cap o.pool o.cap_public_cents o.cap_demo_cents) (spent o.pool s)
    then (cap_exceeded, s)
    else let turns = turns_on today sess in
      if leb o.max_turns turns
      then (turn_limit turns, s)
      else (admitted (turns + 1) (o.max_turns - (turns + 1)), open_turn today sid o s)

unfoldable pub preflight : ℕ → String → TurnOptions → Store → Admission × Store
unfolding preflight_on rollover
preflight today sid o s = preflight_on today sid o (rollover today s)

abbrev pub cost : Option Usage → ℕ
cost none = 0
cost (some u) = cents_for_usage u

-- `(sess && sess.last_pool) || "public"`
abbrev pub session_pool : Option Session → Pool
session_pool none = public
session_pool (some r) = elim r.last_pool [ none ↦ public | some p ↦ p ]

unfoldable pub matching_reserve : ℕ → Option String → Option Session → ℕ
unfolding holds_turn
matching_reserve today turn none = 0
matching_reserve today turn (some r) = if holds_turn today turn (some r) then r.last_reserve else 0

-- The charge of `settle` and `fail`: no write when both amounts are 0.
unfoldable pub reconcile : Pool → ℕ → ℕ → Store → Store
reconcile p reserve actual s =
    if reserve == 0 && actual == 0 then s else recharge p reserve actual s

abbrev pub settled : String → Session → Session
settled result r = record r { last_reserve = 0; last_result = some result }

unfoldable pub settle_on : ℕ → String → Option Usage → Option String → String → Store → ℕ × Store
unfolding matching_reserve reconcile
settle_on today sid usage turn result s =
    let sess = find sid s.sessions in
    let s' = reconcile (session_pool sess) (matching_reserve today turn sess) (cost usage) s in
    (cost usage, record s' { sessions = modify sid (settled result) s'.sessions })

unfoldable pub settle : ℕ → String → Option Usage → Option String → String → Store → ℕ × Store
unfolding settle_on rollover
settle today sid usage turn result s = settle_on today sid usage turn result (rollover today s)

abbrev pub reopened : Session → Session
reopened r = record r {
  turns = r.turns - 1;
  last_reserve = 0;
  last_turn_id = none;
  last_pool = none;
  last_result = none;
}

abbrev pub uncounted : ℕ → PersonaTurns → PersonaTurns
uncounted today r = if r.day == today then record r { turns = r.turns - 1 } else r

-- The `persona_turns` update of a returned turn; a persona id that is falsy skips it.
unfoldable pub uncount_persona : ℕ → String → Option String → Store → Store
uncount_persona today sid none s = s
uncount_persona today sid (some p) s = record s {
  persona_turns = modify (sid, p) (uncounted today) s.persona_turns;
}

-- The writes of a turn that failed and is returned.
unfoldable pub return_turn : ℕ → String → ℕ → Option String → Session → Store → Store
unfolding reconcile uncount_persona
return_turn today sid actual persona_id r s =
    let s' = reconcile (session_pool (some r)) r.last_reserve actual s in
    uncount_persona today sid (or_null persona_id)
      (record s' { sessions = modify sid reopened s'.sessions })

-- `none` is the early `{ ok: true }`, with no `actualCents`.
unfoldable pub fail_row :
    ℕ
    → String
    → Option Usage
    → Option String
    → Option String
    → Option Session
    → Store
    → Option ℕ × Store
unfolding return_turn holds_turn
fail_row today sid usage turn persona_id none s = (none, s)
fail_row today sid usage turn persona_id (some r) s =
    if not (holds_turn today turn (some r)) || is_some r.last_result
    then (none, s)
    else (some (cost usage), return_turn today sid (cost usage) persona_id r s)

unfoldable pub fail :
    ℕ → String → Option Usage → Option String → Option String → Store → Option ℕ × Store
unfolding fail_row rollover
fail today sid usage turn persona_id s =
    let s' = rollover today s in fail_row today sid usage turn persona_id (find sid s'.sessions) s'

unfoldable pub rollback : ℕ → String → Option String → Option String → Store → Option ℕ × Store
unfolding fail
rollback today sid turn persona_id s = fail today sid none turn persona_id s

unfoldable pub committed_turns_for_persona : ℕ → String → String → Store → ℕ
committed_turns_for_persona today sid persona_id s = elim (find (sid, persona_id) s.persona_turns) [
  | none ↦ 0
  | some r ↦ if r.day == today then r.turns else 0
]
