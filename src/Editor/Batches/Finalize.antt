-- ===== src/Editor/Batches/Finalize.antt =====
-- `finalize` of app/worker/src/editor-store-core.js, on the suggestions and the journal. Its writes to the
-- review ledger touch neither; whether the ledger refuses the evidence, in which case the whole call is
-- rolled back, is an argument.
use sonsteng_magnum_opus.Prelude.{
  is_some, ℕ, String, string_eq, Bool, false, ◌&&◌, ◌||◌, ◌==◌, Option, none, some, List,
  if◌then◌else◌, Bool-cases, Option-cases, inl, inr,
}
use sonsteng_magnum_opus.Prelude.Table.{find, modify}
use sonsteng_magnum_opus.Editor.Status.{applied, accepted_blocked, needs_human, drift}
use sonsteng_magnum_opus.Editor.Rows.{Batch, Rows, Store, transition_all}
use sonsteng_magnum_opus.Editor.Rows.Evolution.{
  Evolves, Evolves-refl, Evolves-trans, transition_all-Evolves,
}
use sonsteng_magnum_opus.Editor.Suggest.{or_null}
use sonsteng_magnum_opus.Editor.Batches.{done_extra}
use sonsteng_magnum_opus.Editor.Batches.Moves.{Keeps-done_extra}

-- A list that is not given is the empty one.
pub record FinalizeInput : Type 0 where
  pub phase : Option String
  pub applied : List String
  pub accepted_blocked : List String
  pub needs_human : List String
  pub drift : List String
  pub base_sha : Option String
  pub commit_sha : Option String
  pub generator_id : Option String

pub data Finalized : Type 0 where
  no_batch evidence_refused finalized : Finalized

-- The columns that a phase writes; a value that is not given leaves its column.
abbrev pub or_old : Option String → Option String → Option String
or_old none old = old
or_old (some new) old = some new

abbrev pub journal_row : ℕ → String → FinalizeInput → Batch → Batch
journal_row now phase i b = record b {
  phase = phase;
  updated_at = now;
  base_sha = or_old i.base_sha b.base_sha;
  commit_sha = or_old i.commit_sha b.commit_sha;
  generator_id = or_old i.generator_id b.generator_id;
}

-- The four calls of `move`.
unfoldable pub move_all : ℕ → FinalizeInput → Rows → Rows
move_all now i t = transition_all now i.drift drift done_extra (
    transition_all now i.needs_human needs_human done_extra (
      transition_all now i.accepted_blocked accepted_blocked done_extra
        (transition_all now i.applied applied done_extra t)))

abbrev pub finalized_store : ℕ → String → FinalizeInput → Store → Store
finalized_store now batch i s = record s {
  suggestions = move_all now i s.suggestions;
  apply_batches = elim (or_null i.phase) [
    | none ↦ s.apply_batches
    | some phase ↦ modify batch (journal_row now phase i) s.apply_batches
  ];
}

-- The ledger is asked about the commit when a phase and a commit are given, and about the evidence when the
-- phase is "done".
abbrev pub is_asked : FinalizeInput → Bool
is_asked i = elim (or_null i.phase) [
  | none ↦ false
  | some phase ↦ is_some i.commit_sha || phase == "done"
]

unfoldable pub finalize : ℕ → Bool → String → FinalizeInput → Store → Finalized × Store
unfolding move_all
finalize now ledger_refuses batch i s = elim (find batch s.apply_batches) [
  | none ↦ (no_batch, s)
  | some b ↦
      if ledger_refuses && is_asked i
      then (evidence_refused, s)
      else (finalized, finalized_store now batch i s)
]

move_all-Evolves : (now : ℕ) (i : FinalizeInput) (t : Rows) → Evolves t (move_all now i t)
unfolding move_all
move_all-Evolves now i t =
    let t1 = transition_all now i.applied applied done_extra t in
    let t2 = transition_all now i.accepted_blocked accepted_blocked done_extra t1 in
    let t3 = transition_all now i.needs_human needs_human done_extra t2 in
    Evolves-trans t t1 _
      (transition_all-Evolves now i.applied applied done_extra t Keeps-done_extra)
      (Evolves-trans t1 t2 _
        (transition_all-Evolves now i.accepted_blocked accepted_blocked done_extra t1
          Keeps-done_extra)
        (Evolves-trans t2 t3 _
          (transition_all-Evolves now i.needs_human needs_human done_extra t2 Keeps-done_extra)
          (transition_all-Evolves now i.drift drift done_extra t3 Keeps-done_extra)))

pub finalize-Evolves :
    (now : ℕ) (ledger_refuses : Bool) (batch : String) (i : FinalizeInput) (s : Store)
    → Evolves s.suggestions (finalize now ledger_refuses batch i s).1.suggestions
unfolding finalize
finalize-Evolves now ledger_refuses batch i s = elim (Option-cases (find batch s.apply_batches)) [
  | inl missing ↦ rw (finalize, missing) (Evolves-refl s.suggestions)
  | inr (b, there) ↦ elim (Bool-cases (ledger_refuses && is_asked i)) [
    | inl refused ↦ rw (finalize, there, refused) (Evolves-refl s.suggestions)
    | inr fine ↦ rw (finalize, there, fine) (move_all-Evolves now i s.suggestions)
  ]
]
