-- ===== src/Budget/Cover/Steps.antt =====
-- Every method of the counters keeps the money invariant on its day.
use sonsteng_magnum_opus.Prelude.{
  is_some, ℕ, ◌+◌, ◌≤◌, String, ◌≡◌, refl, true, not, ◌&&◌, ◌||◌, Option, none, some, nat_eq,
  string_eq, pair_eq, ltb, leb, if◌then◌else◌, arith, inl, inr, Bool-cases, Option-cases,
}
use sonsteng_magnum_opus.Prelude.Table.{Table, find, put, modify, total, total-put, total-modify}
use sonsteng_magnum_opus.Budget.Cost.{Usage}
use sonsteng_magnum_opus.Budget.Store.{
  Pool, public, demo, pool_beq, Budget, Session, PersonaTurns, Store, recharge, spent, pool_cap,
}
use sonsteng_magnum_opus.Budget.Turns.{
  TurnOptions, effective_reserve, session_pool, opened, turn_rows, open_turn, cost, settled,
  matching_reserve, reconcile, settle_on, reopened, holds_turn, uncount_persona, return_turn,
  fail_row, preflight_on, or_null, turns_on,
}
use sonsteng_magnum_opus.Budget.Cover.{
  session_hold, late, IsCoveredOn, OnDay, charged, reconcile_lem, charge_cover, part,
}

-- A reserve of 0 writes the row that is there.
reserve_lem :
    (p : Pool) (reserve : ℕ) (s : Store) (b : Budget)
    → s.budget ≡ some b
    → (if ltb 0 reserve then recharge p 0 reserve s else s)
      ≡ record s { budget = some (charged p 0 reserve b) }
unfolding recharge
reserve_lem public reserve s b e = ground arith
reserve_lem demo reserve s b e = ground arith

-- The invariant does not read the turns that are counted for a persona.
on_day_again :
    {today : ℕ} {s : Store} {b : Budget} {t : Table (String × String) PersonaTurns}
    → IsCoveredOn today b s
    → IsCoveredOn today b (record s { persona_turns = t })
on_day_again c = record {
  row = c.row;
  today = c.today;
  public_held = c.public_held;
  demo_held = c.demo_held;
  none_late = c.none_late;
  none_stray = c.none_stray;
}

uncount_persona-OnDay :
    (today : ℕ) (sid : String) (persona_id : Option String) (s : Store)
    → OnDay today s
    → OnDay today (uncount_persona today sid persona_id s)
unfolding uncount_persona
uncount_persona-OnDay today sid none s d = d
uncount_persona-OnDay today sid (some p) s (b, c) = (b, on_day_again c)

module _ (today : ℕ) (sid : String) (s : Store) (b : Budget) (c : IsCoveredOn today b s) where
  -- A new session row holds its reserve, in its pool, on its day.
  opened_sessions :
      (p : Pool) (o : TurnOptions)
      → let t = put sid (opened today o (find sid s.sessions)) s.sessions in
        (total (session_hold p today) t
          ≤ total (session_hold p today) s.sessions
            + (if pool_beq o.pool p then effective_reserve o else 0))
        × (total (late today) t ≡ 0)
  unfolding opened
  opened_sessions p o =
      let row = opened today o (find sid s.sessions) in
      ground (
        arith,
        c.none_late,
        total-put (session_hold p today) sid row s.sessions,
        total-put (late today) sid row s.sessions,
      )

  open_turn-OnDay : (o : TurnOptions) → OnDay today (open_turn today sid o s)
  unfolding open_turn
  open_turn-OnDay o =
      rw (reserve_lem o.pool (effective_reserve o) (turn_rows today sid o s) b c.row) (
        charge_cover today s
          (record (turn_rows today sid o s) {
            budget = some (charged o.pool 0 (effective_reserve o) b);
          })
          b o.pool 0 (effective_reserve o) c refl (ground (arith, (opened_sessions public o).0))
          (ground (arith, (opened_sessions demo o).0)) (opened_sessions public o).1 c.none_stray)

  -- A row that is settled or returned releases the reserve that its turn held.
  released :
      (p : Pool) (turn : Option String) (f : Session → Session)
      → ((r : Session) → (f r).last_reserve ≡ 0)
      → ((r : Session) → (f r).day ≡ r.day)
      → let t = modify sid f s.sessions in
        let old = find sid s.sessions in
        (total (session_hold p today) t
            + (if pool_beq (session_pool old) p then matching_reserve today turn old else 0)
          ≤ total (session_hold p today) s.sessions)
        × (total (late today) t ≡ 0)
  unfolding matching_reserve
  released p turn f no_reserve same_day = elim (Option-cases (find sid s.sessions)) [
    | inl missing ↦ ground (
      arith,
      c.none_late,
      total-modify (session_hold p today) f sid s.sessions,
      total-modify (late today) f sid s.sessions,
    )
    | inr (r, there) ↦ ground (
      arith,
      c.none_late,
      no_reserve r,
      same_day r,
      total-modify (session_hold p today) f sid s.sessions,
      total-modify (late today) f sid s.sessions,
    )
  ]

  pub settle-OnDay :
      (usage : Option Usage) (turn : Option String) (result : String)
      → OnDay today (settle_on today sid usage turn result s).1
  unfolding settle_on
  settle-OnDay usage turn result =
      let old = find sid s.sessions in
      let reserve = matching_reserve today turn old in
      let f = settled result in
      rw (reconcile_lem (session_pool old) reserve (cost usage) s b c.row) (
        charge_cover today s
          (record s {
            budget = some (charged (session_pool old) reserve (cost usage) b);
            sessions = modify sid f s.sessions;
          })
          b (session_pool old) reserve (cost usage) c refl
          (ground (arith, (released public turn f (λ r. refl) (λ r. refl)).0))
          (ground (arith, (released demo turn f (λ r. refl) (λ r. refl)).0))
          (released public turn f (λ r. refl) (λ r. refl)).1 c.none_stray)

  returned_hold :
      (q : Pool) (turn : Option String) (r : Session)
      → find sid s.sessions ≡ some r
      → holds_turn today turn (some r) ≡ true
      → total (session_hold q today) (modify sid reopened s.sessions)
          + part (session_pool (some r)) q r.last_reserve
        ≤ total (session_hold q today) s.sessions
  unfolding holds_turn
  returned_hold q turn r there holds =
      ground (arith, there, total-modify (session_hold q today) reopened sid s.sessions)

  -- The rows after a returned turn, before the persona's count.
  returned :
      (actual : ℕ) (turn : Option String) (r : Session)
      → find sid s.sessions ≡ some r
      → holds_turn today turn (some r) ≡ true
      → let s' = reconcile (session_pool (some r)) r.last_reserve actual s in
        OnDay today (record s' { sessions = modify sid reopened s'.sessions })
  returned actual turn r there holds =
      let p = session_pool (some r) in
      rw (reconcile_lem p r.last_reserve actual s b c.row) (
        charge_cover today s
          (record s {
            budget = some (charged p r.last_reserve actual b);
            sessions = modify sid reopened s.sessions;
          })
          b p r.last_reserve actual c refl (omega (arith, returned_hold public turn r there holds))
          (omega (arith, returned_hold demo turn r there holds))
          (released public turn reopened (λ r. refl) (λ r. refl)).1 c.none_stray)

  return_turn-OnDay :
      (actual : ℕ) (turn persona_id : Option String) (r : Session)
      → find sid s.sessions ≡ some r
      → holds_turn today turn (some r) ≡ true
      → OnDay today (return_turn today sid actual persona_id r s)
  unfolding return_turn
  return_turn-OnDay actual turn persona_id r there holds =
      uncount_persona-OnDay today sid (or_null persona_id) _ (returned actual turn r there holds)

  pub fail_row-OnDay :
      (usage : Option Usage) (turn persona_id : Option String)
      → OnDay today (fail_row today sid usage turn persona_id (find sid s.sessions) s).1
  unfolding fail_row
  fail_row-OnDay usage turn persona_id = elim (Option-cases (find sid s.sessions)) [
    | inl missing ↦ rw missing (b, c)
    | inr (r, there) ↦
        rw there
          (elim (Bool-cases (not (holds_turn today turn (some r)) || is_some r.last_result)) [
            | inl refused ↦ rw refused (b, c)
            | inr passed ↦
                rw passed (return_turn-OnDay (cost usage) turn persona_id r there (ground arith))
          ])
  ]

  pub preflight_on-OnDay : (o : TurnOptions) → OnDay today (preflight_on today sid o s).1
  unfolding preflight_on
  preflight_on-OnDay o =
      elim (Bool-cases
        (is_some (or_null o.turn_id) && holds_turn today o.turn_id (find sid s.sessions))) [
          | inl again ↦ rw again (b, c)
          | inr new ↦
              rw new
                (elim (Bool-cases (
                  not o.skip_budget
                  && leb (pool_cap o.pool o.cap_public_cents o.cap_demo_cents) (spent o.pool s))) [
                    | inl full ↦ rw full (b, c)
                    | inr room ↦
                        rw room
                          (elim (Bool-cases
                            (leb o.max_turns (turns_on today (find sid s.sessions)))) [
                              | inl limit ↦ rw limit (b, c)
                              | inr under ↦ rw under (open_turn-OnDay o)
                            ])
                  ])
        ]
