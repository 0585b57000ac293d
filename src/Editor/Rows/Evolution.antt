-- ===== src/Editor/Rows/Evolution.antt =====
-- How rows change: a row that is there stays there, its status moves along allowed transitions, and
-- its author, source, kind and group stay.
use mathlib.Core.Path.{subst}
use sonsteng_magnum_opus.Prelude.{
  ℕ, String, ◌≡◌, refl, sym, ◌∙◌, true, false, Option, none, some, List, [], ◌∷◌, ◌==◌, string_eq,
  ==_self, if◌then◌else◌, arith, inl, inr, Bool-cases, Option-cases,
}
use sonsteng_magnum_opus.Prelude.Table.{find, put, modify, find-put, find-modify}
use sonsteng_magnum_opus.Editor.Status.{Status, can_transition}
use sonsteng_magnum_opus.Editor.Status.Terminal.{Reach, here, next, Reach-trans}
use sonsteng_magnum_opus.Editor.Rows.{
  Suggestion, Rows, moved, no_extra, transition_row, transition, transition_all,
}

pub record Same (r r' : Suggestion) : Type 0 where
  pub editor : r'.editor ≡ r.editor
  pub source_ref : r'.source_ref ≡ r.source_ref
  pub kind : r'.kind ≡ r.kind
  pub origin : r'.origin ≡ r.origin
  pub group_id : r'.group_id ≡ r.group_id

pub record Evolved (r r' : Suggestion) : Type 0 where
  pub path : Reach r.status r'.status
  pub same : Same r r'

-- The columns that `extra` writes are none of those.
abbrev pub Keeps : (Suggestion → Suggestion) → Type 0
Keeps extra = (r : Suggestion) → Same r (extra r)

pub Evolves : Rows → Rows → Type 0
Evolves t t' =
    (id : String) (r : Suggestion)
    → find id t ≡ some r
    → (r' : Suggestion) × (find id t' ≡ some r') × Evolved r r'

Same-refl : (r : Suggestion) → Same r r
Same-refl r = record {
  editor = refl;
  source_ref = refl;
  kind = refl;
  origin = refl;
  group_id = refl;
}

Same-trans : {a b c : Suggestion} → Same a b → Same b c → Same a c
Same-trans p q = record {
  editor = q.editor ∙ p.editor;
  source_ref = q.source_ref ∙ p.source_ref;
  kind = q.kind ∙ p.kind;
  origin = q.origin ∙ p.origin;
  group_id = q.group_id ∙ p.group_id;
}

pub Keeps-no_extra : Keeps no_extra
Keeps-no_extra r = Same-refl r

pub Evolved-refl : (r : Suggestion) → Evolved r r
Evolved-refl r = record { path = here; same = Same-refl r }

pub Evolved-trans : {a b c : Suggestion} → Evolved a b → Evolved b c → Evolved a c
Evolved-trans p q = record { path = Reach-trans p.path q.path; same = Same-trans p.same q.same }

pub Evolves-refl : (t : Rows) → Evolves t t
unfolding Evolves
Evolves-refl t id r e = (r, e, Evolved-refl r)

pub Evolves-trans : (t u v : Rows) → Evolves t u → Evolves u v → Evolves t v
unfolding Evolves
Evolves-trans t u v p q id r e =
    let (r', e', m) = p id r e in let (r'', e'', n) = q id r' e' in (r'', e'', Evolved-trans m n)

-- A new row under a new id.
pub put-Evolves :
    (id : String) (row : Suggestion) (t : Rows) → find id t ≡ none → Evolves t (put id row t)
unfolding Evolves
put-Evolves id row t fresh j r e =
    (r, ground (arith, find-put id j row t, string_eq.beq_iff id j), Evolved-refl r)

moved-Evolved :
    (now : ℕ) (to : Status) (extra : Suggestion → Suggestion) (r : Suggestion)
    → Keeps extra
    → can_transition r.status to ≡ true
    → Evolved r (moved now to extra r)
moved-Evolved now to extra r keep step = record {
  path = next here step;
  same = record {
    editor = (keep r).editor;
    source_ref = (keep r).source_ref;
    kind = (keep r).kind;
    origin = (keep r).origin;
    group_id = (keep r).group_id;
  };
}

modify-Evolves :
    (id : String) (f : Suggestion → Suggestion) (t : Rows) (row : Suggestion)
    → find id t ≡ some row
    → Evolved row (f row)
    → Evolves t (modify id f t)
unfolding Evolves
modify-Evolves id f t row there m j r e = elim (Bool-cases (id == j)) [
  | inl same ↦
      let eq = (string_eq.beq_iff id j).0 same in
      let is : r ≡ row = cc (e, there, eq) in
      (
        f r,
        rw (find-modify f id j t) (rw (same, e)),
        subst (λ (x : Suggestion). Evolved x (f x)) (sym is) m,
      )
  | inr other ↦ (r, rw (find-modify f id j t) (rw other e), Evolved-refl r)
]

transition_row-Evolves :
    (now : ℕ) (id : String) (to : Status) (extra : Suggestion → Suggestion) (o : Option Suggestion)
    (t : Rows)
    → Keeps extra
    → find id t ≡ o
    → Evolves t (transition_row now id to extra o t).1
unfolding transition_row
transition_row-Evolves now id to extra none t keep there = Evolves-refl t
transition_row-Evolves now id to extra (some r) t keep there =
    elim (Bool-cases (can_transition r.status to)) [
      | inl step ↦ rw step (
          modify-Evolves id (moved now to extra) t r there (moved-Evolved now to extra r keep step))
      | inr refused ↦ rw refused (Evolves-refl t)
    ]

-- `_transition` never leaves the machine.
pub transition-Evolves :
    (now : ℕ) (id : String) (to : Status) (extra : Suggestion → Suggestion) (t : Rows)
    → Keeps extra
    → Evolves t (transition now id to extra t).1
unfolding transition
transition-Evolves now id to extra t keep =
    transition_row-Evolves now id to extra (find id t) t keep refl

pub transition_all-Evolves :
    (now : ℕ) (ids : List String) (to : Status) (extra : Suggestion → Suggestion) (t : Rows)
    → Keeps extra
    → Evolves t (transition_all now ids to extra t)
unfolding transition_all
transition_all-Evolves now [] to extra t keep = Evolves-refl t
transition_all-Evolves now (id ∷ ids) to extra t keep =
    let t' = (transition now id to extra t).1 in
    Evolves-trans t t' (transition_all now ids to extra t')
      (transition-Evolves now id to extra t keep) (transition_all-Evolves now ids to extra t' keep)

transition_row-missing :
    (now : ℕ) (id j : String) (to : Status) (extra : Suggestion → Suggestion)
    (o : Option Suggestion) (t : Rows)
    → find j t ≡ none
    → find j (transition_row now id to extra o t).1 ≡ none
unfolding transition_row
transition_row-missing now id j to extra none t gone = gone
transition_row-missing now id j to extra (some r) t gone =
    ground (arith, find-modify (moved now to extra) id j t)

transition-missing :
    (now : ℕ) (id j : String) (to : Status) (extra : Suggestion → Suggestion) (t : Rows)
    → find j t ≡ none
    → find j (transition now id to extra t).1 ≡ none
unfolding transition
transition-missing now id j to extra t gone =
    transition_row-missing now id j to extra (find id t) t gone

-- The status writer adds no row.
pub transition_all-missing :
    (now : ℕ) (ids : List String) (j : String) (to : Status) (extra : Suggestion → Suggestion)
    (t : Rows)
    → find j t ≡ none
    → find j (transition_all now ids to extra t) ≡ none
unfolding transition_all
transition_all-missing now [] j to extra t gone = gone
transition_all-missing now (id ∷ ids) j to extra t gone =
    transition_all-missing now ids j to extra (transition now id to extra t).1
      (transition-missing now id j to extra t gone)

-- The row of another id is left as it is.
pub transition_other :
    (now : ℕ) (id j : String) (to : Status) (extra : Suggestion → Suggestion) (t : Rows)
    → id == j ≡ false
    → find j (transition now id to extra t).1 ≡ find j t
unfolding transition transition_row
transition_other now id j to extra t other = elim (Option-cases (find id t)) [
  | inl gone ↦ rw gone refl
  | inr (r, there) ↦ rw there (ground (arith, find-modify (moved now to extra) id j t))
]

-- The row of the id moves where the machine allows it.
pub transition_self :
    (now : ℕ) (id : String) (to : Status) (extra : Suggestion → Suggestion) (t : Rows)
    (r : Suggestion)
    → find id t ≡ some r
    → find id (transition now id to extra t).1
      ≡ some (if can_transition r.status to then moved now to extra r else r)
unfolding transition transition_row
transition_self now id to extra t r there =
    rw there (ground (arith, there, ==_self id, find-modify (moved now to extra) id id t))

pub Evolves-found :
    (t t' : Rows)
    → Evolves t t'
    → (id : String) (r : Suggestion) → find id t ≡ some r
    → (r' : Suggestion) × (find id t' ≡ some r') × Evolved r r'
unfolding Evolves
Evolves-found t t' ev = ev
