-- ===== src/Editor/Decide/Moves.antt =====
-- The methods of app/worker/src/editor-store-core.js that move rows by hand stay in the machine.
use sonsteng_magnum_opus.Prelude.{
  ℕ, String, string_eq, refl, Option, none, some, [], ◌∷◌, inl, inr, Bool-cases, Option-cases,
}
use sonsteng_magnum_opus.Prelude.Table.{find}
use sonsteng_magnum_opus.Editor.Status.{Status, pending, drift, status_beq}
use sonsteng_magnum_opus.Editor.Rows.{Suggestion, Rows, no_extra, rows_where, transition}
use sonsteng_magnum_opus.Editor.Rows.Evolution.{
  Evolves, Evolves-refl, Evolves-trans, transition-Evolves, Keeps, Keeps-no_extra,
}
use sonsteng_magnum_opus.Editor.Suggest.{or_null}
use sonsteng_magnum_opus.Editor.Decide.{
  Decision, accept, decline, DecideInput, target, note_extra, in_group, may_decide, move_member,
  move_members, decide_group, needs_group, decide_one, decide_rows, decide, mark_drift,
  anchor_extra, reanchor,
}

pub Keeps-note_extra : (d : Decision) (remark : Option String) → Keeps (note_extra d remark)
Keeps-note_extra accept remark r = Keeps-no_extra r
Keeps-note_extra decline none r = Keeps-no_extra r
Keeps-note_extra decline (some String.[]) r = Keeps-no_extra r
Keeps-note_extra decline (some (String.◌∷◌ c t)) r = record {
  editor = refl;
  source_ref = refl;
  kind = refl;
  origin = refl;
  group_id = refl;
}

move_member-Evolves :
    (now : ℕ) (to : Status) (extra : Suggestion → Suggestion) (id : String) (r : Suggestion)
    (t : Rows)
    → Keeps extra
    → Evolves t (move_member now to extra id r t).1
unfolding move_member
move_member-Evolves now to extra id r t keep = elim (Bool-cases (status_beq r.status to)) [
  | inl already ↦ rw already (Evolves-refl t)
  | inr moves ↦ rw moves (transition-Evolves now id to extra t keep)
]

pub move_members-Evolves :
    (now : ℕ) (to : Status) (extra : Suggestion → Suggestion) (members t : Rows)
    → Keeps extra
    → Evolves t (move_members now to extra members t).1
unfolding move_members
move_members-Evolves now to extra [] t keep = Evolves-refl t
move_members-Evolves now to extra ((id, r) ∷ members) t keep =
    let t' = (move_member now to extra id r t).1 in
    Evolves-trans t t' _ (move_member-Evolves now to extra id r t keep)
      (move_members-Evolves now to extra members t' keep)

decide_group-Evolves :
    (now : ℕ) (d : Decision) (remark : Option String) (members t : Rows)
    → Evolves t (decide_group now d remark members t).1
unfolding decide_group
decide_group-Evolves now d remark [] t = Evolves-refl t
decide_group-Evolves now d remark (m ∷ members) t =
    elim (Bool-cases (may_decide (target d) (m ∷ members))) [
      | inl legal ↦ rw legal (
          move_members-Evolves now (target d) (note_extra d remark) (m ∷ members) t
            (Keeps-note_extra d remark))
      | inr illegal ↦ rw illegal (Evolves-refl t)
    ]

decide_one-Evolves :
    (now : ℕ) (id : String) (d : Decision) (remark : Option String) (o : Option Suggestion)
    (t : Rows)
    → Evolves t (decide_one now id d remark o t).1
unfolding decide_one
decide_one-Evolves now id d remark none t = Evolves-refl t
decide_one-Evolves now id d remark (some r) t = elim (Bool-cases (needs_group d r t)) [
  | inl group ↦ rw group (Evolves-refl t)
  | inr lone ↦
      let move =
        transition-Evolves now id (target d) (note_extra d remark) t (Keeps-note_extra d remark) in
      elim (Bool-cases (transition now id (target d) (note_extra d remark) t).0) [
        | inl moves ↦ rw (lone, moves) move
        | inr stays ↦ rw (lone, stays) move
      ]
]

decide_rows-Evolves :
    (now : ℕ) (id group : Option String) (d : Decision) (remark : Option String) (t : Rows)
    → Evolves t (decide_rows now id group d remark t).1
unfolding decide_rows
decide_rows-Evolves now id (some g) d remark t =
    decide_group-Evolves now d remark (rows_where (in_group g) t) t
decide_rows-Evolves now none none d remark t = Evolves-refl t
decide_rows-Evolves now (some id) none d remark t = decide_one-Evolves now id d remark (find id t) t

pub decide-Evolves : (now : ℕ) (i : DecideInput) (t : Rows) → Evolves t (decide now i t).1
unfolding decide
decide-Evolves now i t = elim (Option-cases i.decision) [
  | inl unknown ↦ rw unknown (Evolves-refl t)
  | inr (d, e) ↦ rw e (decide_rows-Evolves now (or_null i.id) (or_null i.group_id) d i.note t)
]

pub mark_drift-Evolves : (now : ℕ) (id : String) (t : Rows) → Evolves t (mark_drift now id t).1
unfolding mark_drift
mark_drift-Evolves now id t = transition-Evolves now id drift no_extra t Keeps-no_extra

Keeps-anchor_extra : (a b c : Option String) → Keeps (anchor_extra a b c)
Keeps-anchor_extra a b c r = record {
  editor = refl;
  source_ref = refl;
  kind = refl;
  origin = refl;
  group_id = refl;
}

pub reanchor-Evolves :
    (now : ℕ) (id : String) (a b c : Option String) (t : Rows)
    → Evolves t (reanchor now id a b c t).1
unfolding reanchor
reanchor-Evolves now id a b c t =
    transition-Evolves now id pending (anchor_extra a b c) t (Keeps-anchor_extra a b c)
