-- ===== src/Budget/Store/Day.antt =====
-- The rollover happens once a day, and charges keep the day of the budget row.
use sonsteng_magnum_opus.Prelude.{ℕ, ◌+◌, ◌-◌, ◌≡◌, refl, Option, none, some, nat_eq, arith}
use sonsteng_magnum_opus.Budget.Store.{Pool, public, demo, Budget, Store, rollover, recharge, spent}

-- The budget row is there and is of the day.
abbrev pub DayOf : ℕ → Option Budget → Type 0
DayOf today none = ⊥
DayOf today (some b) = b.day ≡ today

pub rollover-DayOf : (today : ℕ) (s : Store) → DayOf today (rollover today s).budget
unfolding rollover
rollover-DayOf today s = ground arith

pub rollover_again : (today : ℕ) (s : Store) → DayOf today s.budget → rollover today s ≡ s
unfolding rollover
rollover_again today s d = ground arith

pub recharge-DayOf :
    (today : ℕ) (p : Pool) (reserve actual : ℕ) (s : Store)
    → DayOf today s.budget
    → DayOf today (recharge p reserve actual s).budget
unfolding recharge
recharge-DayOf today public reserve actual s d = ground arith
recharge-DayOf today demo reserve actual s d = ground arith

pub spent-recharge_self :
    (today : ℕ) (p : Pool) (reserve actual : ℕ) (s : Store)
    → DayOf today s.budget
    → spent p (recharge p reserve actual s) ≡ (spent p s + actual) - reserve
unfolding recharge
spent-recharge_self today public reserve actual s d = ground arith
spent-recharge_self today demo reserve actual s d = ground arith

-- A charge to one pool leaves the other alone.
pub spent-recharge_ne :
    (p q : Pool) (reserve actual : ℕ) (s : Store)
    → ¬ (p ≡ q)
    → spent q (recharge p reserve actual s) ≡ spent q s
unfolding recharge
spent-recharge_ne public public reserve actual s ne = absurd (ne refl)
spent-recharge_ne public demo reserve actual s ne = ground arith
spent-recharge_ne demo public reserve actual s ne = ground arith
spent-recharge_ne demo demo reserve actual s ne = absurd (ne refl)
