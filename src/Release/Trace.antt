-- ===== src/Release/Trace.antt =====
-- Any sequence of calls of the methods of app/worker/src/editor-store-core.js that authorize, claim, restore,
-- renew and move a release. The arguments of the methods are shared by all calls.
use sonsteng_magnum_opus.Prelude.{
  ℕ, String, ◌≡◌, refl, ◌∙◌, Bool, not, ◌||◌, Option, none, some, List, [], ◌∷◌, ◌==◌, string_eq,
}
use sonsteng_magnum_opus.Prelude.Text.{is_empty}
use sonsteng_magnum_opus.Prelude.Json.{Json}
use sonsteng_magnum_opus.Prelude.Table.{Table, find}
use sonsteng_magnum_opus.Release.{
  Release, Store, Answer, refused, validation_error, human_access_required, service_bearer_required,
}
use sonsteng_magnum_opus.Release.Claim.{
  AuthorizeInput, ClaimInput, authorize_production_release, claim_named, claimed_id,
  claim_authorized_production_release,
}
use sonsteng_magnum_opus.Release.Lease.{
  RenewInput, claim_production_restore, renew_production_release_lease,
}
use sonsteng_magnum_opus.Release.Transition.{TransitionInput, transition_production_release}
use sonsteng_magnum_opus.Release.Sound.{IsSound}
use sonsteng_magnum_opus.Release.Sound.Steps.{
  Kept, Kept-refl, guard-Kept, authorize_row-Kept, claim_row-Kept, restore_row-Kept, renew_row-Kept,
}
use sonsteng_magnum_opus.Release.Sound.Reports.{transition_row-Kept}

pub data Call : Type 0 where
  authorize_call : AuthorizeInput → Call
  claim_call : ClaimInput → Call
  restore_call : ClaimInput → Call
  renew_call : RenewInput → Call
  transition_call : TransitionInput → Call

-- What the methods take from elsewhere.
pub record Runtime : Type 0 where
  pub stringify : Json → String
  pub is_stale : Store → String → Bool
  pub release_fence : String → String → ℕ → String → String
  pub restore_fence : String → String → ℕ → String → String
  pub earliest : Table String Release → Option String

module _ (env : Runtime) where
  unfoldable pub call : ℕ → Call → Store → Answer × Store
  call now (authorize_call i) s = authorize_production_release env.stringify env.is_stale now i s
  call now (claim_call i) s =
      claim_authorized_production_release env.stringify env.is_stale env.release_fence env.earliest
        now i s
  call now (restore_call i) s = claim_production_restore env.stringify env.restore_fence now i s
  call now (renew_call i) s = renew_production_release_lease now i s
  call now (transition_call i) s = transition_production_release env.stringify now i s

  unfoldable pub run : List (ℕ × Call) → Store → Store
  unfolding call
  run [] s = s
  run ((now, c) ∷ cs) s = run cs (call now c s).1

  claim_named-Kept :
      (now : ℕ) (i : ClaimInput) (s : Store) (o : Option String)
      → Kept s (claim_named env.stringify env.is_stale env.release_fence now i s o).1
  claim_named-Kept now i s none = Kept-refl s
  claim_named-Kept now i s (some id) =
      claim_row-Kept env.stringify env.is_stale env.release_fence now id i s (find id s.releases)
        refl

  call-Kept : (now : ℕ) (c : Call) (s : Store) → Kept s (call now c s).1
  unfolding call authorize_production_release claim_authorized_production_release
      claim_production_restore renew_production_release_lease transition_production_release
  call-Kept now (authorize_call i) s =
      guard-Kept
        (is_empty i.id
          || is_empty i.idempotency_key
          || is_empty i.request_digest
          || is_empty i.actor)
        (refused validation_error) s _
        (guard-Kept (not (i.credential_channel == "access")) (refused human_access_required) s _
          (authorize_row-Kept env.stringify env.is_stale now i s (find i.id s.releases)))
  call-Kept now (claim_call i) s =
      guard-Kept (is_empty i.actor || not (i.credential_channel == "bearer"))
        (refused service_bearer_required) s _
        (claim_named-Kept now i s
          (claimed_id env.stringify env.is_stale env.release_fence env.earliest now i s))
  call-Kept now (restore_call i) s =
      guard-Kept (is_empty i.id || is_empty i.actor || not (i.credential_channel == "bearer"))
        (refused service_bearer_required) s _
        (restore_row-Kept env.stringify env.is_stale env.restore_fence now i s
          (find i.id s.releases) refl)
  call-Kept now (renew_call i) s = renew_row-Kept now i s (find i.id s.releases) refl
  call-Kept now (transition_call i) s =
      transition_row-Kept env.stringify now i s (find i.id s.releases) refl

  run-Kept : (cs : List (ℕ × Call)) (s : Store) → Kept s (run cs s)
  unfolding run
  run-Kept [] s = Kept-refl s
  run-Kept ((now, c) ∷ cs) s =
      let a = call-Kept now c s in
      let b = run-Kept cs (call now c s).1 in
      record {
        sound = λ id h. b.sound id (a.sound id h);
        operations = b.operations ∙ a.operations;
        suggestions = b.suggestions ∙ a.suggestions;
      }

  -- From a store where a release has the events of its state behind it, or is not there, and through any
  -- calls of authorizeProductionRelease, claimAuthorizedProductionRelease, claimProductionRestore,
  -- renewProductionReleaseLease and transitionProductionRelease at any times: the members of all releases
  -- stay as they are, and that release has the events of its state behind it afterwards, or is not there.
  -- The events of a complete release are its authorization, its deployments to the pages and to the worker,
  -- its verification and its completion.
  pub run_releases-IsSound :
      (cs : List (ℕ × Call)) (s : Store) (id : String)
      → IsSound id s
      → ((run cs s).operation_members ≡ s.operation_members)
        × ((run cs s).members ≡ s.members)
        × IsSound id (run cs s)
  run_releases-IsSound cs s id sound =
      let k = run-Kept cs s in (k.operations, k.suggestions, k.sound id sound)
