-- ===== src/Budget/Cover.antt =====
-- The money invariant of the counters: on the day of the budget row each pool's column is at least
-- the reserves that are still outstanding in it, those of chat turns and of one-shot calls.
pub mod Steps
pub mod OneShots
use sonsteng_magnum_opus.Prelude.{
  ℕ, ◌+◌, ◌-◌, ◌≤◌, ◌<◌, String, ◌≡◌, refl, sym, Bool, true, false, ◌&&◌, Option, none, some, ◌==◌,
  nat_eq, string_eq, pair_eq, ltb, if◌then◌else◌, arith, inl, inr, Bool-cases, Option-cases,
}
use mathlib.Core.Path.{subst}
use sonsteng_magnum_opus.Prelude.Table.{
  find, put, modify, keep, total, weight, total-put, total-modify, total_zero, total-keep_zero,
}
use sonsteng_magnum_opus.Budget.Cost.{Usage}
use sonsteng_magnum_opus.Budget.Store.{
  Pool, public, demo, pool_beq, Budget, Session, Reservation, Settlement, Store, rollover, recharge,
  column, set_column,
}
use sonsteng_magnum_opus.Budget.Turns.{
  TurnOptions, effective_reserve, session_pool, opened, open_turn, cost, settled, matching_reserve,
  reconcile, settle_on, reopened, holds_turn, return_turn, fail_row, preflight_on,
}

abbrev pub session_hold : Pool → ℕ → Session → ℕ
session_hold p day r =
    if r.day == day && pool_beq (session_pool (some r)) p then r.last_reserve else 0

abbrev pub reservation_hold : Pool → Reservation → ℕ
reservation_hold p r = if pool_beq r.pool p then r.reserve_cents else 0

-- 1 for a session of a later day, and for a reservation of another day.
abbrev pub late : ℕ → Session → ℕ
late day r = if ltb day r.day then 1 else 0

abbrev pub stray : ℕ → Reservation → ℕ
stray day r = if r.day == day then 0 else 1

abbrev pub held : Pool → ℕ → Store → ℕ
held p day s =
    total (session_hold p day) s.sessions + total (reservation_hold p) s.one_shot_reservations

-- The store on a day that has begun: the budget row is of that day.
pub record IsCoveredOn (day : ℕ) (b : Budget) (s : Store) : Type 0 where
  pub row : s.budget ≡ some b
  pub today : b.day ≡ day
  pub public_held : held public day s ≤ b.public_cents
  pub demo_held : held demo day s ≤ b.demo_cents
  pub none_late : total (late day) s.sessions ≡ 0
  pub none_stray : total (stray day) s.one_shot_reservations ≡ 0

abbrev pub Covers : Option Budget → Store → Type 0
Covers none s = (total (λ _. 1) s.sessions ≡ 0) × (total (λ _. 1) s.one_shot_reservations ≡ 0)
Covers (some b) s = IsCoveredOn b.day b s

abbrev pub IsCovered : Store → Type 0
IsCovered s = Covers s.budget s

-- The clock has not gone back behind the budget row.
abbrev pub Follows : ℕ → Option Budget → Type 0
Follows today none = Unit
Follows today (some b) = b.day ≤ today

abbrev pub OnDay : ℕ → Store → Type 0
OnDay day s = (b : Budget) × IsCoveredOn day b s

-- Where no row is late for `d`, none is of a later day, and none is late for a later day.
session_hold_zero :
    (p : Pool) (d today : ℕ) (s : Store)
    → d < today
    → total (late d) s.sessions ≡ 0
    → total (session_hold p today) s.sessions ≡ 0
session_hold_zero p d today s lt =
    total_zero (session_hold p today) (late d) (λ r z. ground arith) s.sessions

late_zero :
    (d today : ℕ) (s : Store)
    → d < today
    → total (late d) s.sessions ≡ 0
    → total (late today) s.sessions ≡ 0
late_zero d today s lt = total_zero (late today) (late d) (λ r z. ground arith) s.sessions

reservations_zero :
    (f : Reservation → ℕ) (d today : ℕ) (s : Store)
    → d < today
    → total (stray d) s.one_shot_reservations ≡ 0
    → total f (keep (λ (r : Reservation). r.day == today) s.one_shot_reservations) ≡ 0
reservations_zero f d today s lt =
    total-keep_zero f (stray d) (λ (r : Reservation). r.day == today) (λ r z. ground arith)
      s.one_shot_reservations

rollover_first :
    (today : ℕ) (s : Store) → s.budget ≡ none → Covers none s → OnDay today (rollover today s)
unfolding rollover
rollover_first today s e c = rw e (
  record { day = today; public_cents = 0; demo_cents = 0 },
  ground (
    arith,
    total_zero (session_hold public today) (λ _. 1) (λ r z. ground arith) s.sessions c.0,
    total_zero (session_hold demo today) (λ _. 1) (λ r z. ground arith) s.sessions c.0,
    total_zero (late today) (λ _. 1) (λ r z. ground arith) s.sessions c.0,
    total_zero (reservation_hold public) (λ _. 1) (λ r z. ground arith) s.one_shot_reservations c.1,
    total_zero (reservation_hold demo) (λ _. 1) (λ r z. ground arith) s.one_shot_reservations c.1,
    total_zero (stray today) (λ _. 1) (λ r z. ground arith) s.one_shot_reservations c.1,
  ),
)

rollover_eq :
    (today : ℕ) (s : Store) (b : Budget)
    → s.budget ≡ some b
    → (b.day == today) ≡ true
    → rollover today s ≡ s
unfolding rollover
rollover_eq today s b e same = ground arith

rollover_same :
    (today : ℕ) (s : Store) (b : Budget)
    → s.budget ≡ some b
    → (b.day == today) ≡ true
    → Covers (some b) s
    → OnDay today (rollover today s)
rollover_same today s b e same c =
    let on_day : b.day ≡ today = ground arith in
    subst (OnDay today) (sym (rollover_eq today s b e same))
      (b, subst (λ d. IsCoveredOn d b s) on_day c)

rollover_next :
    (today : ℕ) (s : Store) (b : Budget)
    → s.budget ≡ some b
    → (b.day == today) ≡ false
    → b.day < today
    → Covers (some b) s
    → OnDay today (rollover today s)
unfolding rollover
rollover_next today s b e other lt c =
    rw (e, other)
      (
        record { day = today; public_cents = 0; demo_cents = 0 },
        ground (
          arith,
          session_hold_zero public b.day today s lt c.none_late,
          session_hold_zero demo b.day today s lt c.none_late,
          late_zero b.day today s lt c.none_late,
          reservations_zero (reservation_hold public) b.day today s lt c.none_stray,
          reservations_zero (reservation_hold demo) b.day today s lt c.none_stray,
          reservations_zero (stray today) b.day today s lt c.none_stray,
        ),
      )

-- The rollover keeps the invariant and begins the day.
pub rollover-OnDay :
    (today : ℕ) (s : Store) → IsCovered s → Follows today s.budget → OnDay today (rollover today s)
rollover-OnDay today s c f = elim (Option-cases s.budget) [
  | inl e ↦ rollover_first today s e (rw e at c)
  | inr (b, e) ↦
      let c' : Covers (some b) s = subst (λ o. Covers o s) e c in
      let f' : b.day ≤ today = subst (Follows today) e f in
      elim (Bool-cases (b.day == today)) [
        | inl same ↦ rollover_same today s b e same c'
        | inr other ↦ rollover_next today s b e other (ground arith) c'
      ]
]

abbrev pub charged : Pool → ℕ → ℕ → Budget → Budget
charged p reserve actual b = set_column p ((column p b + actual) - reserve) b

abbrev pub part : Pool → Pool → ℕ → ℕ
part p q n = if pool_beq p q then n else 0

pub recharge_lem :
    (p : Pool) (reserve actual : ℕ) (s : Store) (b : Budget)
    → s.budget ≡ some b
    → recharge p reserve actual s ≡ record s { budget = some (charged p reserve actual b) }
unfolding recharge
recharge_lem public reserve actual s b e = rw e
recharge_lem demo reserve actual s b e = rw e

-- An amount of 0 writes the row that is there.
pub reconcile_lem :
    (p : Pool) (reserve actual : ℕ) (s : Store) (b : Budget)
    → s.budget ≡ some b
    → reconcile p reserve actual s ≡ record s { budget = some (charged p reserve actual b) }
unfolding reconcile recharge
reconcile_lem public reserve actual s b e = ground arith
reconcile_lem demo reserve actual s b e = ground arith

-- A charge keeps the invariant where the reserve that it returns is released from what is held, and
-- what is newly held is charged.
charge_cover :
    (today : ℕ) (s s' : Store) (b : Budget) (p : Pool) (reserve actual : ℕ)
    → IsCoveredOn today b s
    → s'.budget ≡ some (charged p reserve actual b)
    → held public today s' + part p public reserve ≤ held public today s + part p public actual
    → held demo today s' + part p demo reserve ≤ held demo today s + part p demo actual
    → total (late today) s'.sessions ≡ 0
    → total (stray today) s'.one_shot_reservations ≡ 0
    → OnDay today s'
charge_cover today s s' b public reserve actual c e hp hd l st =
    (charged public reserve actual b, ground arith)
charge_cover today s s' b demo reserve actual c e hp hd l st =
    (charged demo reserve actual b, ground arith)
