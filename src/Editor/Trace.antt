-- ===== src/Editor/Trace.antt =====
-- Any sequence of calls of the methods of app/worker/src/editor-store-core.js that write the suggestions'
-- columns of this model: suggest, decide, markDrift, reanchor, claimBatch, finalize, reconcile and purge.
use sonsteng_magnum_opus.Prelude.{
  ℕ, String, string_eq, ◌≡◌, refl, ap, Bool, true, not, Option, some, List, [], ◌∷◌, ◌++◌, inl, inr,
  Bool-cases,
}
use sonsteng_magnum_opus.Prelude.Table.{find}
use sonsteng_magnum_opus.Editor.Status.{is_terminal}
use sonsteng_magnum_opus.Editor.Status.Terminal.{Reach-terminal}
use sonsteng_magnum_opus.Editor.Rows.{Suggestion, Rows, Store}
use sonsteng_magnum_opus.Editor.Rows.Evolution.{
  Evolved, Evolved-refl, Evolved-trans, Evolves, Evolves-found,
}
use sonsteng_magnum_opus.Editor.Suggest.{Fingerprint, Latest, Input, Ceilings, suggest}
use sonsteng_magnum_opus.Editor.Suggest.Effects.{suggest-Evolves}
use sonsteng_magnum_opus.Editor.Decide.{
  DecideInput, decide, mark_drift, reanchor, expired_terminal, purge,
}
use sonsteng_magnum_opus.Editor.Decide.Moves.{decide-Evolves, mark_drift-Evolves, reanchor-Evolves}
use sonsteng_magnum_opus.Editor.Decide.Purge.{find-keep}
use sonsteng_magnum_opus.Editor.Batches.Finalize.{FinalizeInput, finalize, finalize-Evolves}
use sonsteng_magnum_opus.Editor.Batches.{claim_batch, reconcile}
use sonsteng_magnum_opus.Editor.Batches.Moves.{claim_batch-Evolves, reconcile-Evolves}

pub data Call : Type 0 where
  suggest_call : Input → Ceilings → Bool → Call
  decide_call : DecideInput → Call
  drift_call : String → Call
  reanchor_call : String → Option String → Option String → Option String → Call
  claim_call : String → Option String → List String → ℕ → Call
  finalize_call : Bool → String → FinalizeInput → Call
  reconcile_call : Call
  purge_call : ℕ → Call

abbrev pub on_rows : (Rows → Rows) → Store → Store
on_rows f s = record s { suggestions = f s.suggestions }

module _ (fingerprint : Fingerprint) (latest : Latest) where
  unfoldable pub after : ℕ → Call → Store → Store
  after now (suggest_call i ceil direct) s = (suggest fingerprint latest now i ceil direct s).1
  after now (decide_call i) s = on_rows (λ (t : Rows). (decide now i t).1) s
  after now (drift_call id) s = on_rows (λ (t : Rows). (mark_drift now id t).1) s
  after now (reanchor_call id a b c) s = on_rows (λ (t : Rows). (reanchor now id a b c t).1) s
  after now (claim_call batch base_sha ids lease_ms) s =
      (claim_batch now batch base_sha ids lease_ms s).1
  after now (finalize_call ledger_refuses batch i) s = (finalize now ledger_refuses batch i s).1
  after now reconcile_call s = (reconcile now s).1
  after now (purge_call days) s = on_rows (λ (t : Rows). (purge now days t).1) s

  unfoldable pub run : List (ℕ × Call) → Store → Store
  run [] s = s
  run ((now, call) ∷ calls) s = run calls (after now call s)

  -- A suggestion after some calls: it is in the table and as `P` says, or one of the calls was a purge
  -- that found it so, terminal and older than its days.
  pub data Fate (s : Store) (id : String) (P : Suggestion → Type 0) (calls : List (ℕ × Call))
      : Type 0 where
    kept : (r : Suggestion) → find id (run calls s).suggestions ≡ some r → P r → Fate s id P calls
    purged :
        (before later : List (ℕ × Call)) (now days : ℕ) (r : Suggestion)
        → calls ≡ before ++ ((now, purge_call days) ∷ later)
        → find id (run before s).suggestions ≡ some r
        → P r
        → expired_terminal now days r ≡ true
        → Fate s id P calls

  -- A suggestion after one call.
  data Step (now : ℕ) (call : Call) (s : Store) (id : String) (r : Suggestion) : Type 0 where
    stays :
        (r' : Suggestion)
        → find id (after now call s).suggestions ≡ some r'
        → Evolved r r'
        → Step now call s id r
    goes :
        (days : ℕ)
        → call ≡ purge_call days
        → expired_terminal now days r ≡ true
        → Step now call s id r

  stays-Evolves :
      (now : ℕ) (call : Call) (s : Store) (id : String) (r : Suggestion)
      → find id s.suggestions ≡ some r
      → Evolves s.suggestions (after now call s).suggestions
      → Step now call s id r
  stays-Evolves now call s id r there ev =
      let (r', there', m) = Evolves-found s.suggestions _ ev id r there in stays r' there' m

  step :
      (now : ℕ) (call : Call) (s : Store) (id : String) (r : Suggestion)
      → find id s.suggestions ≡ some r
      → Step now call s id r
  unfolding after purge
  step now (suggest_call i ceil direct) s id r e =
      stays-Evolves now (suggest_call i ceil direct) s id r e
        (suggest-Evolves fingerprint latest now i ceil direct s)
  step now (decide_call i) s id r e =
      stays-Evolves now (decide_call i) s id r e (decide-Evolves now i s.suggestions)
  step now (drift_call j) s id r e =
      stays-Evolves now (drift_call j) s id r e (mark_drift-Evolves now j s.suggestions)
  step now (reanchor_call j a b c) s id r e =
      stays-Evolves now (reanchor_call j a b c) s id r e
        (reanchor-Evolves now j a b c s.suggestions)
  step now (claim_call batch base_sha ids lease_ms) s id r e =
      stays-Evolves now (claim_call batch base_sha ids lease_ms) s id r e
        (claim_batch-Evolves now batch base_sha ids lease_ms s)
  step now (finalize_call ledger_refuses batch i) s id r e =
      stays-Evolves now (finalize_call ledger_refuses batch i) s id r e
        (finalize-Evolves now ledger_refuses batch i s)
  step now reconcile_call s id r e =
      stays-Evolves now reconcile_call s id r e (reconcile-Evolves now s)
  step now (purge_call days) s id r e = elim (Bool-cases (expired_terminal now days r)) [
    | inl over ↦ goes days refl over
    | inr young ↦
        stays r
          (find-keep (λ (q : Suggestion). not (expired_terminal now days q)) id r s.suggestions e
            (rw young refl))
          (Evolved-refl r)
  ]

  -- A fate after the first call.
  preceded :
      (now : ℕ) (call : Call) (calls : List (ℕ × Call)) (s : Store) (id : String)
      (r r' : Suggestion)
      → Evolved r r'
      → Fate (after now call s) id (Evolved r') calls
      → Fate s id (Evolved r) ((now, call) ∷ calls)
  unfolding run
  preceded now call calls s id r r' m (kept q there n) = kept q there (Evolved-trans m n)
  preceded now call calls s id r r' m (purged before later t days q split there n over) =
      purged ((now, call) ∷ before) later t days q
        (ap (λ (l : List (ℕ × Call)). (now, call) ∷ l) split) there (Evolved-trans m n) over

  -- Through any calls of suggest, decide, markDrift, reanchor, claimBatch, finalize, reconcile and purge, at
  -- any times: a suggestion that is in the table stays there under its id until a purge that finds it
  -- terminal and older than the purge's days. As long as it is there, its status has moved along allowed
  -- transitions only; and its editor, source, kind, origin and group are as before.
  pub run-Evolved :
      (calls : List (ℕ × Call)) (s : Store) (id : String) (r : Suggestion)
      → find id s.suggestions ≡ some r
      → Fate s id (Evolved r) calls
  unfolding run
  run-Evolved [] s id r e = kept r e (Evolved-refl r)
  run-Evolved ((now, call) ∷ calls) s id r e = elim (step now call s id r e) [
    | stays r' there m ↦
        preceded now call calls s id r r' m (run-Evolved calls (after now call s) id r' there)
    | goes days is over ↦
        purged [] calls now days r (ap (λ (c : Call). (now, c) ∷ calls) is) e (Evolved-refl r) over
  ]

  ended :
      (calls : List (ℕ × Call)) (s : Store) (id : String) (r : Suggestion)
      → is_terminal r.status ≡ true
      → Fate s id (Evolved r) calls
      → Fate s id (λ (q : Suggestion). q.status ≡ r.status) calls
  ended calls s id r end (kept q there m) = kept q there (Reach-terminal m.path end)
  ended calls s id r end (purged before later now days q split there m over) =
      purged before later now days q split there (Reach-terminal m.path end) over

  -- Through any calls of suggest, decide, markDrift, reanchor, claimBatch, finalize, reconcile and purge, at
  -- any times: a superseded, declined or applied suggestion stays in the table with that status, until a
  -- purge that finds it with that status and older than the purge's days.
  pub run-terminal :
      (calls : List (ℕ × Call)) (s : Store) (id : String) (r : Suggestion)
      → find id s.suggestions ≡ some r
      → is_terminal r.status ≡ true
      → Fate s id (λ (q : Suggestion). q.status ≡ r.status) calls
  run-terminal calls s id r e end = ended calls s id r end (run-Evolved calls s id r e)
