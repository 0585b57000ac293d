-- ===== src/Editor/Status.antt =====
-- app/worker/src/editor-status.js: the states of a suggestion and the allowed transitions.
pub mod Terminal
use sonsteng_magnum_opus.Prelude.{
  ℕ, Bool, true, false, ◌||◌, ◌&&◌, List, [], ◌∷◌, any, nat_beq, if◌then◌else◌,
}

pub data Status : Type 0 where
  pending superseded accepted accepted_blocked declined drift needs_human in_flight applied : Status

abbrev index : Status → ℕ
index pending = 0
index superseded = 1
index accepted = 2
index accepted_blocked = 3
index declined = 4
index drift = 5
index needs_human = 6
index in_flight = 7
index applied = 8

-- `a === b`
unfoldable pub status_beq : Status → Status → Bool
status_beq a b = nat_beq (index a) (index b)

-- `TERMINAL`
abbrev pub terminal : List Status
terminal = superseded ∷ declined ∷ applied ∷ []

unfoldable pub is_terminal : Status → Bool
unfolding status_beq
is_terminal s = any (status_beq s) terminal

-- `ALLOWED_TRANSITIONS`
unfoldable pub allowed_transitions : Status → List Status
allowed_transitions pending = superseded ∷ declined ∷ accepted ∷ drift ∷ []
allowed_transitions accepted = in_flight ∷ drift ∷ superseded ∷ []
allowed_transitions in_flight = applied ∷ accepted_blocked ∷ drift ∷ needs_human ∷ accepted ∷ []
allowed_transitions accepted_blocked = accepted ∷ declined ∷ []
allowed_transitions drift = pending ∷ declined ∷ []
allowed_transitions needs_human = applied ∷ accepted ∷ declined ∷ []
allowed_transitions superseded = []
allowed_transitions declined = []
allowed_transitions applied = []

unfoldable pub can_transition : Status → Status → Bool
unfolding status_beq allowed_transitions
can_transition from to =
    if status_beq from to then false else any (status_beq to) (allowed_transitions from)
