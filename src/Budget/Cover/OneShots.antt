-- ===== src/Budget/Cover/OneShots.antt =====
-- The one-shot calls keep the money invariant on their day.
use sonsteng_magnum_opus.Prelude.{
  ℕ, ◌+◌, String, ◌≡◌, refl, ◌&&◌, Option, none, some, ◌==◌, nat_eq, string_eq, ltb, arith, inl,
  inr, Bool-cases,
}
use sonsteng_magnum_opus.Prelude.Table.{find, put, erase, total-put, total-erase, total-erase-le}
use sonsteng_magnum_opus.Budget.Cost.{Usage}
use sonsteng_magnum_opus.Budget.Store.{
  Pool, public, demo, pool_beq, Budget, Reservation, Settlement, Store, recharge, spent, pool_cap,
}
use sonsteng_magnum_opus.Budget.OneShot.{
  ReserveOptions, insert_reservation, reserve_rows, reserve_checked, insert_settlement, settle_rows,
}
use sonsteng_magnum_opus.Budget.Cover.{
  reservation_hold, stray, IsCoveredOn, OnDay, charged, recharge_lem, charge_cover,
}

module _ (today : ℕ) (s : Store) (b : Budget) (c : IsCoveredOn today b s) where
  pub recharge-OnDay : (p : Pool) (actual : ℕ) → OnDay today (recharge p 0 actual s)
  recharge-OnDay p actual = rw (recharge_lem p 0 actual s b c.row) (
      charge_cover today s (record s { budget = some (charged p 0 actual b) }) b p 0 actual c refl
        (ground arith) (ground arith) c.none_late c.none_stray)

  insert_reservation-OnDay :
      (id : String) (r : Reservation) → r.day ≡ today → OnDay today (insert_reservation id r s)
  unfolding insert_reservation
  insert_reservation-OnDay id r on_day =
      let t = put id r s.one_shot_reservations in
      rw (recharge_lem r.pool 0 r.reserve_cents s b c.row) (
        charge_cover today s
          (record s {
            budget = some (charged r.pool 0 r.reserve_cents b);
            one_shot_reservations = t;
          })
          b r.pool 0 r.reserve_cents c refl
          (ground (arith, total-put (reservation_hold public) id r s.one_shot_reservations))
          (ground (arith, total-put (reservation_hold demo) id r s.one_shot_reservations))
          c.none_late
          (ground (arith, c.none_stray, total-put (stray today) id r s.one_shot_reservations)))

  reserve_rows-OnDay :
      (id : String) (o : ReserveOptions) (cents : ℕ) (r : Option Reservation)
      (old : Option Settlement)
      → OnDay today (reserve_rows today id o cents r old s).1
  unfolding reserve_rows
  reserve_rows-OnDay id o cents (some r) old =
      elim (Bool-cases (r.day == today && pool_beq r.pool o.pool && r.reserve_cents == cents)) [
        | inl same ↦ rw same (b, c)
        | inr other ↦ rw other (b, c)
      ]
  reserve_rows-OnDay id o cents none (some r) =
      elim (Bool-cases (r.day == today && pool_beq r.pool o.pool && r.reserve_cents == cents)) [
        | inl same ↦ rw same (b, c)
        | inr other ↦ rw other (b, c)
      ]
  reserve_rows-OnDay id o cents none none =
      elim (Bool-cases
        (ltb (pool_cap o.pool o.cap_public_cents o.cap_demo_cents) (spent o.pool s + cents))) [
          | inl full ↦ rw full (b, c)
          | inr room ↦ rw room (
              insert_reservation-OnDay id
                (record { day = today; pool = o.pool; reserve_cents = cents }) refl)
        ]

  pub reserve_checked-OnDay :
      (id : Option String) (o : ReserveOptions) (cents : Option ℕ)
      → OnDay today (reserve_checked today id o cents s).1
  unfolding reserve_checked
  reserve_checked-OnDay (some id) o (some cents) =
      reserve_rows-OnDay id o cents (find id s.one_shot_reservations)
        (find id s.one_shot_settlements)
  reserve_checked-OnDay _ o _ = (b, c)

  insert_settlement-OnDay :
      (id : String) (r : Settlement) (old : Reservation)
      → find id s.one_shot_reservations ≡ some old
      → r.pool ≡ old.pool
      → r.reserve_cents ≡ old.reserve_cents
      → OnDay today (insert_settlement id r s)
  unfolding insert_settlement
  insert_settlement-OnDay id r old there same_pool same_cents =
      let t = s.one_shot_reservations in
      rw (recharge_lem r.pool r.reserve_cents r.actual_cents s b c.row) (
        charge_cover today s
          (record s {
            budget = some (charged r.pool r.reserve_cents r.actual_cents b);
            one_shot_settlements = put id r s.one_shot_settlements;
            one_shot_reservations = erase id t;
          })
          b r.pool r.reserve_cents r.actual_cents c refl
          (ground (arith, there, total-erase (reservation_hold public) id t))
          (ground (arith, there, total-erase (reservation_hold demo) id t)) c.none_late
          (omega (arith, c.none_stray, total-erase-le (stray today) id t)))

  pub settle_rows-OnDay :
      (id : String) (usage : Option Usage) (retained : Option ℕ) (old : Option Settlement)
      (r : Option Reservation)
      → find id s.one_shot_reservations ≡ r
      → OnDay today (settle_rows id usage retained old r s).1
  unfolding settle_rows
  settle_rows-OnDay id usage none old r e = (b, c)
  settle_rows-OnDay id usage (some retained) (some old) r e = (b, c)
  settle_rows-OnDay id usage (some retained) none none e = (b, c)
  settle_rows-OnDay id usage (some retained) none (some r) e =
      insert_settlement-OnDay id _ r e refl refl
