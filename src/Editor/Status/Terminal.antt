-- ===== src/Editor/Status/Terminal.antt =====
-- Reachability in the machine of editor-status.js: what a suggestion can still become.
use sonsteng_magnum_opus.Prelude.{◌≡◌, refl, true, false, ◌↔◌, arith}
use sonsteng_magnum_opus.Editor.Status.{Status, status_beq, is_terminal, can_transition}

pub status_beq_iff : (a b : Status) → (status_beq a b ≡ true) ↔ (a ≡ b)
unfolding status_beq
status_beq_iff a b = ground arith

-- A chain of allowed transitions.
pub data Reach (a : Status) : Status → Type 0 where
  here : Reach a a
  next : {b c : Status} → Reach a b → can_transition b c ≡ true → Reach a c

pub Reach-trans : {a b c : Status} → Reach a b → Reach b c → Reach a c
Reach-trans p here = p
Reach-trans p (next q h) = next (Reach-trans p q) h

no_way_out : (a b : Status) → is_terminal a ≡ true → can_transition a b ≡ false
unfolding is_terminal can_transition
no_way_out a b h = ground arith

-- From a terminal state a suggestion goes nowhere.
pub Reach-terminal : {a b : Status} → Reach a b → is_terminal a ≡ true → b ≡ a
Reach-terminal here h = refl
Reach-terminal {a} {b} (next {b = x} r step) h =
    let same = Reach-terminal r h in absurd (ground (arith, step, same, no_way_out a b h))
