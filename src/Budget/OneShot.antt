-- ===== src/Budget/OneShot.antt =====
-- The one-shot calls of app/worker/src/budget-core.js: `charge`, `checkPool`, `reserveOneShot` and
-- `settleOneShot`, with the triggers of its schema that move the budget when a row is inserted.
pub mod Laws
use sonsteng_magnum_opus.Prelude.{
  ℕ, ◌+◌, String, Bool, true, ◌&&◌, Option, none, some, ◌==◌, string_eq, nat_eq, ltb, leb,
  if◌then◌else◌,
}
use sonsteng_magnum_opus.Prelude.Value.{Value, nonempty_text, positive, natural}
use sonsteng_magnum_opus.Prelude.Table.{find, put, erase}
use sonsteng_magnum_opus.Budget.Cost.{Usage, cents_for_usage}
use sonsteng_magnum_opus.Budget.Store.{
  Pool, pool_beq, Reservation, Settlement, Store, rollover, spent, recharge, pool_cap,
}
use sonsteng_magnum_opus.Budget.Turns.{cost}

unfoldable pub charge : ℕ → Pool → Usage → Store → ℕ × Store
unfolding rollover recharge
charge today pool usage s =
    (cents_for_usage usage, recharge pool 0 (cents_for_usage usage) (rollover today s))

unfoldable pub check_pool : ℕ → Pool → ℕ → ℕ → Store → Bool × Store
unfolding rollover
check_pool today pool cap_public_cents cap_demo_cents s =
    let s' = rollover today s in
    (ltb (spent pool s') (pool_cap pool cap_public_cents cap_demo_cents), s')

pub data Reserved : Type 0 where
  reserved replay replay_settled : Reserved
  validation_error duplicate cap_exceeded : Reserved

pub record ReserveOptions : Type 0 where
  pub pool : Pool
  pub cap_public_cents : ℕ
  pub cap_demo_cents : ℕ
  pub reserve_cents : Value

-- The trigger `one_shot_reserve_budget` after the insert.
unfoldable pub insert_reservation : String → Reservation → Store → Store
unfolding recharge
insert_reservation id r s =
    let s' = recharge r.pool 0 r.reserve_cents s in
    record s' { one_shot_reservations = put id r s'.one_shot_reservations }

-- The gates of `reserveOneShot` after its argument check, on the rows that the id has.
unfoldable pub reserve_rows :
    ℕ
    → String
    → ReserveOptions
    → ℕ
    → Option Reservation
    → Option Settlement
    → Store
    → Reserved × Store
unfolding insert_reservation
reserve_rows today id o cents (some r) _ s =
    if r.day == today && pool_beq r.pool o.pool && r.reserve_cents == cents
    then (replay, s)
    else (duplicate, s)
reserve_rows today id o cents none (some r) s =
    if r.day == today && pool_beq r.pool o.pool && r.reserve_cents == cents
    then (replay_settled, s)
    else (duplicate, s)
reserve_rows today id o cents none none s =
    if ltb (pool_cap o.pool o.cap_public_cents o.cap_demo_cents) (spent o.pool s + cents)
    then (cap_exceeded, s)
    else (
      reserved,
      insert_reservation id (record { day = today; pool = o.pool; reserve_cents = cents }) s,
    )

unfoldable pub reserve_checked :
    ℕ → Option String → ReserveOptions → Option ℕ → Store → Reserved × Store
unfolding reserve_rows
reserve_checked today (some id) o (some cents) s =
    reserve_rows today id o cents (find id s.one_shot_reservations) (find id s.one_shot_settlements)
      s
reserve_checked today _ o _ s = (validation_error, s)

unfoldable pub reserve_one_shot : ℕ → Value → ReserveOptions → Store → Reserved × Store
unfolding reserve_checked rollover
reserve_one_shot today id o s =
    reserve_checked today (nonempty_text id) o (positive o.reserve_cents) (rollover today s)

pub data Settled : Type 0 where
  validation_error replay_unknown : Settled
  replay settled : ℕ → Settled

-- The trigger `one_shot_settle_budget` after the insert. It moves a column by the signed difference
-- `actual - reserve` and stops at 0.
unfoldable pub insert_settlement : String → Settlement → Store → Store
unfolding recharge
insert_settlement id r s =
    let s' = recharge r.pool r.reserve_cents r.actual_cents s in
    record s' {
      one_shot_settlements = put id r s'.one_shot_settlements;
      one_shot_reservations = erase id s'.one_shot_reservations;
    }

-- `settleOneShot` after its rollover, on the checked `retainedCents` and the rows that the id has.
unfoldable pub settle_rows :
    String
    → Option Usage
    → Option ℕ
    → Option Settlement
    → Option Reservation
    → Store
    → Settled × Store
unfolding insert_settlement
settle_rows id usage none _ _ s = (validation_error, s)
settle_rows id usage (some retained) (some r) _ s = (replay r.actual_cents, s)
settle_rows id usage (some retained) none none s = (replay_unknown, s)
settle_rows id usage (some retained) none (some r) s = (
  settled (cost usage + retained),
  insert_settlement id
      (record {
        day = r.day;
        pool = r.pool;
        reserve_cents = r.reserve_cents;
        actual_cents = cost usage + retained;
      })
      s,
)

unfoldable pub settle_one_shot : ℕ → String → Option Usage → Value → Store → Settled × Store
unfolding settle_rows rollover
settle_one_shot today id usage retained_cents s =
    let s' = rollover today s in
    settle_rows id usage (natural retained_cents) (find id s'.one_shot_settlements)
      (find id s'.one_shot_reservations) s'
