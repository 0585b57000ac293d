-- ===== src/Budget/Store.antt =====
-- The tables of app/worker/src/budget-core.js and the helpers that every method uses: the daily
-- rollover and the columns of the two spend pools.
-- A UTC day is its number: `_today` names days one to one, and the code only compares them.
-- Cents and counts are natural numbers; `MAX(0, a - b + c)` is `(a + c) - b`, which stops at 0.
pub mod Day
use sonsteng_magnum_opus.Prelude.{
  ℕ, ◌+◌, ◌-◌, String, Bool, Option, none, some, [], ◌==◌, nat_eq, if◌then◌else◌,
}
use sonsteng_magnum_opus.Prelude.Table.{Table, keep}

pub data Pool : Type 0 where
  public demo : Pool

abbrev pub pool_beq : Pool → Pool → Bool
pool_beq public public = Bool.true
pool_beq demo demo = Bool.true
pool_beq _ _ = Bool.false

pub record Budget : Type 0 where
  pub day : ℕ
  pub public_cents : ℕ
  pub demo_cents : ℕ

pub record Session : Type 0 where
  pub day : ℕ
  pub turns : ℕ
  pub last_turn_id : Option String
  pub last_reserve : ℕ
  pub last_pool : Option Pool
  pub last_result : Option String

pub record PersonaTurns : Type 0 where
  pub day : ℕ
  pub turns : ℕ

pub record Reservation : Type 0 where
  pub day : ℕ
  pub pool : Pool
  pub reserve_cents : ℕ

pub record Settlement : Type 0 where
  pub day : ℕ
  pub pool : Pool
  pub reserve_cents : ℕ
  pub actual_cents : ℕ

pub record Requests : Type 0 where
  pub day : ℕ
  pub requests : ℕ

pub record Store : Type 0 where
  pub budget : Option Budget
  pub sessions : Table String Session
  pub persona_turns : Table (String × String) PersonaTurns
  pub mints : Table ℕ ℕ
  pub ip_mints : Table (String × ℕ) ℕ
  pub one_shot_reservations : Table String Reservation
  pub one_shot_settlements : Table String Settlement
  pub assessment_requests : Table String Requests

abbrev pub empty : Store
empty = record {
  budget = none;
  sessions = [];
  persona_turns = [];
  mints = [];
  ip_mints = [];
  one_shot_reservations = [];
  one_shot_settlements = [];
  assessment_requests = [];
}

-- The row that `budget` holds after `_rollover`.
unfoldable pub budget_on : ℕ → Option Budget → Budget
budget_on today none = record { day = today; public_cents = 0; demo_cents = 0 }
budget_on today (some b) =
    if b.day == today then b else record { day = today; public_cents = 0; demo_cents = 0 }

-- `_rollover`: only an existing row of another day deletes reservations and settlements.
unfoldable pub rollover : ℕ → Store → Store
unfolding budget_on
rollover today s = elim s.budget [
  | none ↦ record s { budget = some (budget_on today none) }
  | some b ↦ if b.day == today then s else record s {
    budget = some (budget_on today (some b));
    one_shot_reservations = keep (λ (r : Reservation). r.day == today) s.one_shot_reservations;
    one_shot_settlements = keep (λ (r : Settlement). r.day == today) s.one_shot_settlements;
  }
]

-- The column that `_poolCol` names.
abbrev pub column : Pool → Budget → ℕ
column public b = b.public_cents
column demo b = b.demo_cents

abbrev pub set_column : Pool → ℕ → Budget → Budget
set_column public n b = record b { public_cents = n }
set_column demo n b = record b { demo_cents = n }

abbrev pub spent : Pool → Store → ℕ
spent p s = elim s.budget [ none ↦ 0 | some b ↦ column p b ]

-- `UPDATE budget SET col = MAX(0, col - reserve + actual) WHERE id=1`
unfoldable pub recharge : Pool → ℕ → ℕ → Store → Store
recharge p reserve actual s = elim s.budget [
  | none ↦ s
  | some b ↦ record s { budget = some (set_column p ((column p b + actual) - reserve) b) }
]

abbrev pub pool_cap : Pool → ℕ → ℕ → ℕ
pool_cap public cap_public_cents cap_demo_cents = cap_public_cents
pool_cap demo cap_public_cents cap_demo_cents = cap_demo_cents
