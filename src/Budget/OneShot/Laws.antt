-- ===== src/Budget/OneShot/Laws.antt =====
-- A one-shot reservation stays within the cap, and its settlement replaces it by the cost, once.
use sonsteng_magnum_opus.Prelude.{
  ℕ, ◌+◌, ◌≤◌, String, ◌≡◌, Option, none, some, string_eq, nat_eq, arith,
}
use sonsteng_magnum_opus.Prelude.Value.{Value, nonempty_text, positive}
use sonsteng_magnum_opus.Prelude.Table.{find}
use sonsteng_magnum_opus.Budget.Store.{Reservation, Settlement, Store, rollover, spent, pool_cap}
use sonsteng_magnum_opus.Budget.Store.Day.{DayOf, rollover-DayOf, spent-recharge_self}
use sonsteng_magnum_opus.Budget.OneShot.{
  reserved, ReserveOptions, insert_reservation, reserve_rows, reserve_checked, reserve_one_shot,
}

abbrev row_of : ℕ → ReserveOptions → ℕ → Reservation
row_of today o cents = record { day = today; pool = o.pool; reserve_cents = cents }

-- What the answer `reserved` says of the rows and the spend.
reserved_rows :
    (today : ℕ) (id : String) (o : ReserveOptions) (cents : ℕ) (s : Store) (r : Option Reservation)
    (old : Option Settlement)
    → (reserve_rows today id o cents r old s).0 ≡ reserved
    → ((reserve_rows today id o cents r old s).1 ≡ insert_reservation id (row_of today o cents) s)
      × (spent o.pool s + cents ≤ pool_cap o.pool o.cap_public_cents o.cap_demo_cents)
      × (r ≡ none)
      × (old ≡ none)
unfolding reserve_rows
reserved_rows today id o cents s (some r) old h = ground arith
reserved_rows today id o cents s none (some r) h = ground arith
reserved_rows today id o cents s none none h = ground arith

spent-insert_reservation :
    (today : ℕ) (id : String) (r : Reservation) (s : Store)
    → DayOf today s.budget
    → spent r.pool (insert_reservation id r s) ≡ spent r.pool s + r.reserve_cents
unfolding insert_reservation
spent-insert_reservation today id r s d =
    ground (arith, spent-recharge_self today r.pool 0 r.reserve_cents s d)

checked_lem :
    (today : ℕ) (i : Option String) (c : Option ℕ) (id : String) (o : ReserveOptions) (cents : ℕ)
    (s : Store)
    → i ≡ some id
    → c ≡ some cents
    → reserve_checked today i o c s
      ≡ reserve_rows today id o cents
          (find id s.one_shot_reservations)
          (find id s.one_shot_settlements)
          s
unfolding reserve_checked
checked_lem today i c id o cents s ei ec = rw (ei, ec)

reserve_lem :
    (today : ℕ) (idv : Value) (id : String) (o : ReserveOptions) (cents : ℕ) (s : Store)
    → nonempty_text idv ≡ some id
    → positive o.reserve_cents ≡ some cents
    → reserve_one_shot today idv o s
      ≡ reserve_rows today id o cents
          (find id (rollover today s).one_shot_reservations)
          (find id (rollover today s).one_shot_settlements)
          (rollover today s)
unfolding reserve_one_shot
reserve_lem today idv id o cents s ei ec =
    checked_lem today (nonempty_text idv) (positive o.reserve_cents) id o cents (rollover today s)
      ei ec

-- A reservation is granted only where it fits: afterwards the pool's spend has grown by exactly the
-- reserved cents and is at most the pool's cap.
pub reserve-le-cap :
    (today : ℕ) (idv : Value) (id : String) (o : ReserveOptions) (cents : ℕ) (s : Store)
    → nonempty_text idv ≡ some id
    → positive o.reserve_cents ≡ some cents
    → (reserve_one_shot today idv o s).0 ≡ reserved
    → let s' = (reserve_one_shot today idv o s).1 in
      (spent o.pool s' ≡ spent o.pool (rollover today s) + cents)
      × (spent o.pool s' ≤ pool_cap o.pool o.cap_public_cents o.cap_demo_cents)
reserve-le-cap today idv id o cents s ei ec h =
    let before = rollover today s in
    let e = reserve_lem today idv id o cents s ei ec in
    let (after, fits, _, _) =
      reserved_rows today id o cents before (find id before.one_shot_reservations)
        (find id before.one_shot_settlements) (rw e at h) in
    let grown =
      spent-insert_reservation today id (row_of today o cents) before (rollover-DayOf today s) in
    rw (e, after) (grown, omega (arith, grown, fits))
