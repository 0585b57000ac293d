-- ===== src/Release/Examples.antt =====
-- A release from its draft to its completion.
use sonsteng_magnum_opus.Prelude.{
  ℕ, String, ◌≡◌, refl, false, Option, none, some, List, [], ◌∷◌, string_eq, pair_eq,
}
use sonsteng_magnum_opus.Prelude.Json.{obj, end}
use sonsteng_magnum_opus.Prelude.Table.{Table, find, put}
use sonsteng_magnum_opus.Release.{
  ReleaseState, prepared, executing, pages_deployed, worker_deployed, verified, complete, Release,
  Store,
}
use sonsteng_magnum_opus.Release.Claim.{
  AuthorizeInput, ClaimInput, authorize_production_release, authorize_row, authorize_early,
  claim_authorized_production_release, claim_row, claim_early, candidates,
}
use sonsteng_magnum_opus.Release.Lease.{RenewInput}
use sonsteng_magnum_opus.Release.Transition.{
  TransitionInput, transition_production_release, transition_row, transition_early, is_unsafe,
  occurs, event_detail, move, publish, publish_members, publish_member, publish_sources,
  mark_suggestions,
}
use sonsteng_magnum_opus.Release.Sound.{IsSound, IsSound-found, Had, history}
use sonsteng_magnum_opus.Release.Trace.{
  Runtime, Call, authorize_call, claim_call, transition_call, call, run, run_releases-IsSound,
}

abbrev first_id : Table String Release → Option String
first_id [] = none
first_id ((id, r) ∷ t) = some id

abbrev env : Runtime
env = record {
  stringify = λ v. "{}";
  is_stale = λ s revision. false;
  release_fence = λ id hash now actor. actor;
  restore_fence = λ id token now actor. actor;
  earliest = first_id;
}

abbrev draft : Release
draft = record {
  state = prepared;
  actor = "a";
  credential_channel = "access";
  authorization_key = none;
  authorization_digest = none;
  fencing_token = none;
  lease_expires_at = none;
  provider_json = none;
  schema_version = 2;
  target_environment = "production";
  target_batch_id = "b";
  base_sha = "s0";
  candidate_sha = "s1";
  generator_id = "g";
  evidence_hash = "e";
  manifest_hash = "m";
  membership_hash = "h";
  review_receipt_hash = some "r";
  projection_identity = some "p";
  updated_at = 1;
}

abbrev store : Store
store = record {
  releases = ("r1", draft) ∷ [];
  events = [];
  operation_members =
      record {
        release_id = "r1";
        operation_id = "o";
        review_revision_id = "v";
        source_ref = "f";
        affected_source_refs = [];
      }
      ∷ [];
  members = [];
  revisions = ("v", "1") ∷ [];
  published = [];
  published_sources = [];
  lifecycles = ("o", "accepted") ∷ [];
  suggestions = [];
}

abbrev approval : AuthorizeInput
approval = record {
  id = "r1";
  idempotency_key = "k";
  request_digest = "d";
  actor = "admin";
  credential_channel = "access";
  expected = obj end;
}

abbrev by_worker : ClaimInput
by_worker = record { id = ""; actor = "w"; credential_channel = "bearer"; wanted_ms = 0 }

abbrev at_state : ReleaseState → TransitionInput
at_state st = record {
  id = "r1";
  actor = "w";
  credential_channel = "bearer";
  fencing_token = "w";
  state = some st;
  detail = obj end;
}

abbrev calls : List (ℕ × Call)
calls =
    (2, authorize_call approval)
    ∷ (3, claim_call by_worker)
    ∷ (4, transition_call (at_state pages_deployed))
    ∷ (5, transition_call (at_state worker_deployed))
    ∷ (6, transition_call (at_state verified))
    ∷ (7, transition_call (at_state complete))
    ∷ []

abbrev completed : Release
completed = record draft {
  state = complete;
  actor = "admin";
  authorization_key = some "k";
  authorization_digest = some "d";
  fencing_token = some "w";
  lease_expires_at = none;
  provider_json = some "{}";
  updated_at = 7;
}

run_completes : find "r1" (run env calls store).releases ≡ some completed
unfolding run call authorize_production_release authorize_row authorize_early
    claim_authorized_production_release claim_row claim_early candidates
    transition_production_release transition_row transition_early is_unsafe occurs event_detail move
    publish publish_members publish_member publish_sources mark_suggestions find put
run_completes = refl

run_releases-IsSound_example :
    ((run env calls store).operation_members ≡ store.operation_members)
    × ((run env calls store).members ≡ [])
    × IsSound "r1" (run env calls store)
unfolding find
run_releases-IsSound_example = run_releases-IsSound env calls store "r1" tt

-- The events of the release that the calls completed.
completed_history : Had (run env calls store).events "r1" (history complete)
unfolding find
completed_history =
    IsSound-found "r1" completed (run env calls store) run_completes
      (run_releases-IsSound env calls store "r1" tt).2

-- A worker whose lease has run out.
abbrev abandoned : Store
abandoned = record store {
  releases =
      (
        "r1",
        record draft { state = executing; fencing_token = some "old"; lease_expires_at = some 9 },
      )
      ∷ [];
}

abbrev late : TransitionInput
late = record (at_state pages_deployed) { fencing_token = "old" }

abbrev renewal : RenewInput
renewal = record {
  id = "r1";
  actor = "v";
  credential_channel = "bearer";
  fencing_token = "old";
  wanted_ms = 0;
}
