-- ===== src/Editor/Decide/Groups.antt =====
-- The group decision of app/worker/src/editor-store-core.js is all or nothing.
use mathlib.Core.Path.{subst}
use sonsteng_magnum_opus.Prelude.{
  ℕ, String, string_eq, ◌≡◌, ◌≢◌, refl, sym, ap, ◌∙◌, Bool, true, false, Option, some, List, [],
  ◌∷◌, ◌==◌, arith, inl, inr, ◌⊎◌, Bool-cases,
}
use sonsteng_magnum_opus.Prelude.Table.{find}
use sonsteng_magnum_opus.Editor.Status.{Status, status_beq, can_transition}
use sonsteng_magnum_opus.Editor.Status.Terminal.{status_beq_iff}
use sonsteng_magnum_opus.Editor.Rows.{Suggestion, Rows, moved, rows_where, transition}
use sonsteng_magnum_opus.Editor.Rows.Evolution.{transition_other, transition_self}
use sonsteng_magnum_opus.Editor.Suggest.{or_null}
use sonsteng_magnum_opus.Editor.Decide.{
  Decision, DecideInput, changed, target, note_extra, in_group, may_decide, move_member,
  move_members, decide_group, decide_rows, decide,
}

-- On the way to the target: there, or still the row it was and free to move.
data OnWay (to : Status) (r q : Suggestion) : Type 0 where
  there : q.status ≡ to → OnWay to r q
  waiting : q ≡ r → can_transition r.status to ≡ true → OnWay to r q

at_target :
    (to : Status) (r q : Suggestion) → status_beq r.status to ≡ true → OnWay to r q → q.status ≡ to
at_target to r q already (there same) = same
at_target to r q already (waiting is free) =
    ap (λ (x : Suggestion). x.status) is ∙ (status_beq_iff r.status to).0 already

no_loop : (a : Status) → can_transition a a ≡ false
unfolding can_transition
no_loop a = ground arith

-- The status writer takes the row that is on its way to the target.
arrive :
    (now : ℕ) (to : Status) (extra : Suggestion → Suggestion) (id : String) (r q : Suggestion)
    (t : Rows)
    → find id t ≡ some q
    → OnWay to r q
    → (q' : Suggestion) × (find id (transition now id to extra t).1 ≡ some q') × (q'.status ≡ to)
arrive now to extra id r q t e (there same) =
    (q, transition_self now id to extra t q e ∙ rw (same, no_loop to) refl, same)
arrive now to extra id r q t e (waiting is free) = (
  moved now to extra q,
  transition_self now id to extra t q e
      ∙ rw (ap (λ (x : Suggestion). can_transition x.status to) is ∙ free) refl,
  refl,
)

-- A turn of the loop leaves a row as it is, or takes it to the target.
move_member_step :
    (now : ℕ) (to : Status) (extra : Suggestion → Suggestion) (j id : String) (w q : Suggestion)
    (t : Rows)
    → find id t ≡ some q
    → (q' : Suggestion) × (find id (move_member now to extra j w t).1 ≡ some q')
      × ((q' ≡ q) ⊎ (q'.status ≡ to))
unfolding move_member
move_member_step now to extra j id w q t e = elim (Bool-cases (status_beq w.status to)) [
  | inl already ↦ (q, rw already e, inl refl)
  | inr moves ↦ elim (Bool-cases (j == id)) [
    | inr other ↦ (q, rw moves (transition_other now j id to extra t other ∙ e), inl refl)
    | inl same ↦
        let is = (string_eq.beq_iff j id).0 same in
        let step = transition_self now id to extra t q e in
        elim (Bool-cases (can_transition q.status to)) [
          | inl free ↦ (moved now to extra q, rw (moves, is) (step ∙ rw free refl), inr refl)
          | inr stuck ↦ (q, rw (moves, is) (step ∙ rw stuck refl), inl refl)
        ]
  ]
]

still_OnWay :
    (to : Status) (r q q' : Suggestion) → (q' ≡ q) ⊎ (q'.status ≡ to) → OnWay to r q → OnWay to r q'
still_OnWay to r q q' (inr at) way = there at
still_OnWay to r q q' (inl same) way = subst (OnWay to r) (sym same) way

still_at :
    (to : Status) (q q' : Suggestion) → (q' ≡ q) ⊎ (q'.status ≡ to) → q.status ≡ to → q'.status ≡ to
still_at to q q' (inr at) was = at
still_at to q q' (inl same) was = ap (λ (x : Suggestion). x.status) same ∙ was

-- The turn of the row itself ends its way.
move_member_self :
    (now : ℕ) (to : Status) (extra : Suggestion → Suggestion) (id : String) (r q : Suggestion)
    (t : Rows)
    → find id t ≡ some q
    → OnWay to r q
    → (q' : Suggestion) × (find id (move_member now to extra id r t).1 ≡ some q') × (q'.status ≡ to)
unfolding move_member
move_member_self now to extra id r q t e way = elim (Bool-cases (status_beq r.status to)) [
  | inr moves ↦ let (q', e', at) = arrive now to extra id r q t e way in (q', rw moves e', at)
  | inl already ↦ (q, rw already e, at_target to r q already way)
]

data IsRow (id : String) (r : Suggestion) : Rows → Type 0 where
  first : {t : Rows} → IsRow id r ((id, r) ∷ t)
  later : {m : String × Suggestion} {t : Rows} → IsRow id r t → IsRow id r (m ∷ t)

found-IsRow :
    (p : Suggestion → Bool) (id : String) (r : Suggestion) (t : Rows)
    → find id t ≡ some r
    → p r ≡ true
    → IsRow id r (rows_where p t)
unfolding find rows_where
found-IsRow p id r [] e h = absurd (ground (arith, e))
found-IsRow p id r ((j, w) ∷ t) e h = elim (Bool-cases (j == id)) [
  | inl same ↦
      let is = (string_eq.beq_iff j id).0 same in
      let row : some w ≡ some r = sym (rw same refl) ∙ e in
      let eq : w ≡ r = ground (arith, row) in rw (is, eq) (rw h first)
  | inr other ↦
      let rest = found-IsRow p id r t (sym (rw other refl) ∙ e) h in
      elim (Bool-cases (p w)) [ inl kept ↦ rw kept (later rest) | inr left ↦ rw left rest ]
]

-- The loop takes a row on its way that is among the members to the target.
move_members-target :
    (now : ℕ) (to : Status) (extra : Suggestion → Suggestion) (id : String) (r q : Suggestion)
    (members t : Rows)
    → find id t ≡ some q
    → OnWay to r q
    → (q.status ≡ to) ⊎ IsRow id r members
    → (q' : Suggestion) × (find id (move_members now to extra members t).1 ≡ some q')
      × (q'.status ≡ to)
unfolding move_members
move_members-target now to extra id r q [] t e way (inl at) = (q, e, at)
move_members-target now to extra id r q [] t e way (inr row) = elim row [ ]
move_members-target now to extra id r q ((j, w) ∷ members) t e way (inl at) =
    let (q', e', step) = move_member_step now to extra j id w q t e in
    let at' = still_at to q q' step at in
    move_members-target now to extra id r q' members (move_member now to extra j w t).1 e'
      (there at') (inl at')
move_members-target now to extra id r q ((j, w) ∷ members) t e way (inr first) =
    let (q', e', at') = move_member_self now to extra id r q t e way in
    move_members-target now to extra id r q' members (move_member now to extra id r t).1 e'
      (there at') (inl at')
move_members-target now to extra id r q ((j, w) ∷ members) t e way (inr (later m)) =
    let (q', e', step) = move_member_step now to extra j id w q t e in
    move_members-target now to extra id r q' members (move_member now to extra j w t).1 e'
      (still_OnWay to r q q' step way) (inr m)

member_free :
    (to : Status) (id : String) (r : Suggestion) (members : Rows)
    → may_decide to members ≡ true
    → IsRow id r members
    → OnWay to r r
unfolding may_decide
member_free to id r [] h row = elim row [ ]
member_free to id r ((j, w) ∷ members) h first = elim (Bool-cases (status_beq r.status to)) [
  | inl at ↦ there ((status_beq_iff r.status to).0 at)
  | inr before ↦ waiting refl (ground (arith, h, before))
]
member_free to id r ((j, w) ∷ members) h (later m) =
    member_free to id r members (ground (arith, h)) m

group_whole :
    (now : ℕ) (d : Decision) (remark : Option String) (members t : Rows) (ids : List String)
    (id : String) (r : Suggestion)
    → (decide_group now d remark members t).0 ≡ changed ids
    → find id t ≡ some r
    → IsRow id r members
    → (r' : Suggestion) × (find id (decide_group now d remark members t).1 ≡ some r')
      × (r'.status ≡ target d)
unfolding decide_group
group_whole now d remark [] t ids id r h e row = elim row [ ]
group_whole now d remark (m ∷ members) t ids id r h e row =
    elim (Bool-cases (may_decide (target d) (m ∷ members))) [
      | inl legal ↦ rw legal (
          move_members-target now (target d) (note_extra d remark) id r r (m ∷ members) t e
            (member_free (target d) id r (m ∷ members) legal row) (inr row))
      | inr illegal ↦ absurd (ground (arith, h, illegal))
    ]

group_refused :
    (now : ℕ) (d : Decision) (remark : Option String) (members t : Rows)
    → ((ids : List String) → (decide_group now d remark members t).0 ≢ changed ids)
    → (decide_group now d remark members t).1 ≡ t
unfolding decide_group
group_refused now d remark [] t h = refl
group_refused now d remark (m ∷ members) t h =
    elim (Bool-cases (may_decide (target d) (m ∷ members))) [
      | inl legal ↦
          absurd (
            h (move_members now (target d) (note_extra d remark) (m ∷ members) t).0 (rw legal refl))
      | inr illegal ↦ rw illegal refl
    ]

-- A decision on a group that answers with the changed members has taken every member of the group to
-- the decided status; any other answer has changed nothing.
pub decide_group_whole :
    (now : ℕ) (i : DecideInput) (g : String) (d : Decision) (t : Rows)
    → or_null i.group_id ≡ some g
    → i.decision ≡ some d
    → let (answer, t') = decide now i t in
      ((ids : List String) (id : String) (r : Suggestion)
        → answer ≡ changed ids
        → find id t ≡ some r
        → in_group g r ≡ true
        → (r' : Suggestion) × (find id t' ≡ some r') × (r'.status ≡ target d))
      × (((ids : List String) → answer ≢ changed ids) → t' ≡ t)
unfolding decide decide_rows
decide_group_whole now i g d t eg ed =
    rw (ed, eg)
      (
        λ ids id r h e member.
            group_whole now d i.note (rows_where (in_group g) t) t ids id r h e
              (found-IsRow (in_group g) id r t e member),
        λ h. group_refused now d i.note (rows_where (in_group g) t) t h,
      )
