-- ===== src/Budget/Trace.antt =====
-- Any sequence of calls of the budget-core.js methods, each on its day, from the empty tables.
use mathlib.Core.Path.{subst, refl}
use sonsteng_magnum_opus.Prelude.{
  ℕ, ◌≤◌, ◌≡◌, sym, ◌∙◌, String, Option, none, some, List, [], ◌∷◌, arith, string_eq,
}
use sonsteng_magnum_opus.Prelude.Value.{Value, nonempty_text, positive, natural}
use sonsteng_magnum_opus.Prelude.Table.{find, total}
use sonsteng_magnum_opus.Budget.Cost.{Usage, cents_for_usage}
use sonsteng_magnum_opus.Budget.Store.{Pool, public, demo, Budget, Store, empty, rollover}
use sonsteng_magnum_opus.Budget.Turns.{TurnOptions, preflight, settle, fail}
use sonsteng_magnum_opus.Budget.OneShot.{
  ReserveOptions, charge, check_pool, reserve_one_shot, settle_one_shot,
}
use sonsteng_magnum_opus.Budget.Mints.{MintOptions, mint, claim_checked, claim_assessment_request}
use sonsteng_magnum_opus.Budget.Cover.{
  IsCoveredOn, Covers, IsCovered, Follows, OnDay, held, rollover-OnDay,
}
use sonsteng_magnum_opus.Budget.Cover.Steps.{preflight_on-OnDay, settle-OnDay, fail_row-OnDay}
use sonsteng_magnum_opus.Budget.Cover.OneShots.{
  recharge-OnDay, reserve_checked-OnDay, settle_rows-OnDay,
}

pub data Call : Type 0 where
  mint_call : String → MintOptions → Call
  preflight_call : String → TurnOptions → Call
  settle_call : String → Option Usage → Option String → String → Call
  fail_call : String → Option Usage → Option String → Option String → Call
  charge_call : Pool → Usage → Call
  check_call : Pool → ℕ → ℕ → Call
  claim_call : Value → Value → Call
  reserve_call : Value → ReserveOptions → Call
  settle_one_call : String → Option Usage → Value → Call

-- The store after a call.
unfoldable pub after : ℕ → Call → Store → Store
after today (mint_call ip o) s = (mint today ip o s).1
after today (preflight_call sid o) s = (preflight today sid o s).1
after today (settle_call sid usage turn result) s = (settle today sid usage turn result s).1
after today (fail_call sid usage turn persona) s = (fail today sid usage turn persona s).1
after today (charge_call pool usage) s = (charge today pool usage s).1
after today (check_call pool a b) s = (check_pool today pool a b s).1
after today (claim_call sid n) s = (claim_assessment_request today sid n s).1
after today (reserve_call id o) s = (reserve_one_shot today id o s).1
after today (settle_one_call id usage n) s = (settle_one_shot today id usage n s).1

unfoldable pub run : List (ℕ × Call) → Store → Store
run [] s = s
run ((today, call) ∷ calls) s = run calls (after today call s)

-- The days of a trace do not decrease, from the day `d` on.
abbrev pub InOrder : ℕ → List (ℕ × Call) → Type 0
InOrder d [] = Unit
InOrder d ((today, call) ∷ calls) = (d ≤ today) × InOrder today calls

abbrev Kept : ℕ → Store → Type 0
Kept day s = IsCovered s × Follows day s.budget

OnDay→Kept : (day : ℕ) (s : Store) → OnDay day s → Kept day s
OnDay→Kept day s (b, c) = (
  subst (λ o. Covers o s) (sym c.row) (subst (λ d. IsCoveredOn d b s) (sym c.today) c),
  subst (Follows day) (sym c.row) (omega (arith, c.today)),
)

-- A method that leaves the budget, the sessions and the reservations alone keeps the invariant.
record SameMoney (s s' : Store) : Type 0 where
  budget : s'.budget ≡ s.budget
  sessions : s'.sessions ≡ s.sessions
  reservations : s'.one_shot_reservations ≡ s.one_shot_reservations

Covers-same :
    (o : Option Budget) (s s' : Store) → s.budget ≡ o → SameMoney s s' → Covers o s → Covers o s'
Covers-same none s s' e m c = rw (m.sessions, m.reservations) c
Covers-same (some b) s s' e m c = record {
  row = m.budget ∙ e;
  today = c.today;
  public_held = rw (m.sessions, m.reservations) c.public_held;
  demo_held = rw (m.sessions, m.reservations) c.demo_held;
  none_late = rw m.sessions c.none_late;
  none_stray = rw m.reservations c.none_stray;
}

Kept-same : (day : ℕ) (s s' : Store) → SameMoney s s' → Kept day s → Kept day s'
Kept-same day s s' m k = (
  subst (λ o. Covers o s') (sym m.budget) (Covers-same s.budget s s' refl m k.0),
  subst (Follows day) (sym m.budget) k.1,
)

mint-SameMoney :
    (today : ℕ) (ip : String) (o : MintOptions) (s : Store) → SameMoney s (mint today ip o s).1
unfolding mint
mint-SameMoney today ip o s = ground arith

claim-SameMoney :
    (today : ℕ) (sid : Option String) (n : Option ℕ) (s : Store)
    → SameMoney s (claim_checked today sid n s).1
unfolding claim_checked
claim-SameMoney today sid n s = ground arith

later : (d today : ℕ) (o : Option Budget) → d ≤ today → Follows d o → Follows today o
later d today none h f = tt
later d today (some b) h f = omega arith

after-Kept : (today : ℕ) (call : Call) (s : Store) → Kept today s → Kept today (after today call s)
unfolding after preflight settle fail charge check_pool reserve_one_shot settle_one_shot
    claim_assessment_request
after-Kept today (mint_call ip o) s k = Kept-same today s _ (mint-SameMoney today ip o s) k
after-Kept today (claim_call sid n) s k =
    Kept-same today s _ (claim-SameMoney today (nonempty_text sid) (positive n) s) k
after-Kept today (preflight_call sid o) s k =
    let (b, c) = rollover-OnDay today s k.0 k.1 in
    OnDay→Kept today _ (preflight_on-OnDay today sid (rollover today s) b c o)
after-Kept today (settle_call sid usage turn result) s k =
    let (b, c) = rollover-OnDay today s k.0 k.1 in
    OnDay→Kept today _ (settle-OnDay today sid (rollover today s) b c usage turn result)
after-Kept today (fail_call sid usage turn persona) s k =
    let (b, c) = rollover-OnDay today s k.0 k.1 in
    OnDay→Kept today _ (fail_row-OnDay today sid (rollover today s) b c usage turn persona)
after-Kept today (charge_call pool usage) s k =
    let (b, c) = rollover-OnDay today s k.0 k.1 in
    OnDay→Kept today _ (recharge-OnDay today (rollover today s) b c pool (cents_for_usage usage))
after-Kept today (check_call pool x y) s k = OnDay→Kept today _ (rollover-OnDay today s k.0 k.1)
after-Kept today (reserve_call id o) s k =
    let (b, c) = rollover-OnDay today s k.0 k.1 in
    OnDay→Kept today _ (
      reserve_checked-OnDay today (rollover today s) b c (nonempty_text id) o
        (positive o.reserve_cents))
after-Kept today (settle_one_call id usage n) s k =
    let s' = rollover today s in
    let (b, c) = rollover-OnDay today s k.0 k.1 in
    OnDay→Kept today _ (
      settle_rows-OnDay today s' b c id usage (natural n) (find id s'.one_shot_settlements)
        (find id s'.one_shot_reservations) refl)

run-Kept :
    (d : ℕ) (calls : List (ℕ × Call)) (s : Store)
    → InOrder d calls
    → Kept d s
    → IsCovered (run calls s)
unfolding run
run-Kept d [] s order k = k.0
run-Kept d ((today, call) ∷ calls) s order k =
    run-Kept today calls (after today call s) order.1
      (after-Kept today call s (k.0, later d today s.budget order.0 k.1))

IsCovered-empty : IsCovered empty
unfolding total
IsCovered-empty = (refl, refl)

-- After any calls on days that do not decrease, starting from empty tables, each pool's spent cents
-- on the budget row's day are at least the reserves still outstanding in that pool: those of chat
-- turns opened on that day and those of one-shot calls.
pub run-IsCovered :
    (calls : List (ℕ × Call)) (b : Budget)
    → InOrder 0 calls
    → (run calls empty).budget ≡ some b
    → (held public b.day (run calls empty) ≤ b.public_cents)
      × (held demo b.day (run calls empty) ≤ b.demo_cents)
run-IsCovered calls b order e =
    let c : IsCoveredOn b.day b (run calls empty) =
      subst (λ o. Covers o (run calls empty)) e
        (run-Kept 0 calls empty order (IsCovered-empty, tt)) in
    (c.public_held, c.demo_held)
