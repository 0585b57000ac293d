-- ===== src/Release/Claim.antt =====
-- Who may execute a production release: `authorizeProductionRelease` and `claimAuthorizedProductionRelease`
-- of app/worker/src/editor-store-core.js.
-- Arguments: `JSON.stringify`, the verdict of the review tables on a revision, the digests of the fencing
-- tokens, and the first of the rows that SQLite orders by time and id.
use sonsteng_magnum_opus.Prelude.{
  ℕ, String, Bool, true, false, not, ◌&&◌, ◌||◌, Option, none, some, List, [], ◌∷◌, any, all, leb,
  ◌==◌, string_eq, if◌then◌else◌,
}
use sonsteng_magnum_opus.Prelude.Text.{is_empty}
use sonsteng_magnum_opus.Prelude.Json.{Json, text, obj, get, same}
use sonsteng_magnum_opus.Prelude.Table.{Table, find}
use sonsteng_magnum_opus.Upstream.{is_nullish}
use sonsteng_magnum_opus.Release.{
  ReleaseState, entered, prepared, authorized, executing, state_beq, Release, Event, Store,
  lease_ms, lease_until, is_live, is_running, is_v2, or_null, release_evidence_binding, fields_of,
  write, revisions_of, validation_error, human_access_required, not_found, idempotency_conflict,
  stale_draft, stale_review, service_bearer_required, lease_active, not_authorized, Answer, refused,
  idle, done, replayed,
}

pub record AuthorizeInput : Type 0 where
  pub id : String
  pub idempotency_key : String
  pub request_digest : String
  pub actor : String
  pub credential_channel : String
  -- the columns that the caller expects
  pub expected : Json

pub record ClaimInput : Type 0 where
  pub id : String
  pub actor : String
  pub credential_channel : String
  pub wanted_ms : ℕ

abbrev pub is_set : Option String → Bool
is_set none = false
is_set (some s) = not (is_empty s)

-- `column === value`
abbrev pub is_text : String → Option String → Bool
is_text s none = false
is_text s (some t) = t == s

-- An early return, which leaves the store, or the answer with the store that is written.
abbrev pub answered : Option Answer → Answer → Store → Store → Answer × Store
answered none answer written s = (answer, written)
answered (some early) answer written s = (early, s)

-- The columns that a draft may not have changed.
abbrev pub frozen_columns : Release → List (String × Json)
frozen_columns r =
    ("target_batch_id", text r.target_batch_id)
    ∷ ("base_sha", text r.base_sha)
    ∷ ("candidate_sha", text r.candidate_sha)
    ∷ ("generator_id", text r.generator_id)
    ∷ ("evidence_hash", text r.evidence_hash)
    ∷ ("manifest_hash", text r.manifest_hash)
    ∷ ("membership_hash", text r.membership_hash)
    ∷ ("review_receipt_hash", or_null r.review_receipt_hash)
    ∷ ("projection_identity", or_null r.projection_identity)
    ∷ []

-- `lease_expires_at <= now` in SQL: a missing lease is not over.
abbrev pub lease_over : ℕ → Option ℕ → Bool
lease_over now none = false
lease_over now (some t) = leb t now

-- No value is given for a column but its own.
abbrev pub agrees : Json → List (String × Json) → Bool
agrees given columns =
    all (λ (c : String × Json). is_nullish (get c.0 given) || same (get c.0 given) c.1) columns

-- The state of a release that is claimed.
abbrev pub claimed_state : ReleaseState → ReleaseState
claimed_state st = if state_beq st authorized then executing else st

-- A release that waits for a worker.
abbrev pub is_candidate : ℕ → Release → Bool
is_candidate now r =
    state_beq r.state authorized || (is_running r.state && lease_over now r.lease_expires_at)

unfoldable pub candidates : ℕ → Table String Release → Table String Release
candidates now [] = []
candidates now ((id, r) ∷ t) =
    let rest = candidates now t in if is_candidate now r then (id, r) ∷ rest else rest

module _ (stringify : Json → String) (is_stale : Store → String → Bool) where
  abbrev pub has_stale_review : String → Release → Store → Bool
  has_stale_review id r s = is_v2 r && any (is_stale s) (revisions_of id s.operation_members)

  unfoldable pub authorize_early : AuthorizeInput → Store → Release → Option Answer
  authorize_early i s r =
      if is_set r.authorization_key
      then (if is_text i.idempotency_key r.authorization_key
            && is_text i.request_digest r.authorization_digest
          then some replayed
          else some (refused idempotency_conflict))
      else if not (state_beq r.state prepared)
      then some (refused stale_draft)
      else if has_stale_review i.id r s
      then some (refused stale_review)
      else if not (agrees i.expected (frozen_columns r))
      then some (refused stale_draft)
      else none

  abbrev pub authorized_row : ℕ → AuthorizeInput → Release → Release
  authorized_row now i r = record r {
    state = authorized;
    actor = i.actor;
    credential_channel = i.credential_channel;
    authorization_key = some i.idempotency_key;
    authorization_digest = some i.request_digest;
    updated_at = now;
  }

  abbrev pub authorized_event : ℕ → AuthorizeInput → Release → Event
  authorized_event now i r = record {
    release_id = i.id;
    kind = entered authorized;
    actor = i.actor;
    detail_json =
        stringify (obj (fields_of (release_evidence_binding true false (authorized_row now i r))));
    created_at = now;
  }

  unfoldable pub authorize_row : ℕ → AuthorizeInput → Store → Option Release → Answer × Store
  unfolding authorize_early
  authorize_row now i s none = (refused not_found, s)
  authorize_row now i s (some r) =
      answered (authorize_early i s r) done
        (write i.id (authorized_row now i r) (authorized_event now i r) s) s

  unfoldable pub authorize_production_release : ℕ → AuthorizeInput → Store → Answer × Store
  unfolding authorize_row
  authorize_production_release now i s =
      if is_empty i.id
        || is_empty i.idempotency_key
        || is_empty i.request_digest
        || is_empty i.actor
      then (refused validation_error, s)
      else if not (i.credential_channel == "access")
      then (refused human_access_required, s)
      else authorize_row now i s (find i.id s.releases)

  module _ (release_fence : String → String → ℕ → String → String) where
    abbrev pub claim_detail : String → Release → Json
    claim_detail token r =
        if is_v2 r
        then obj (
            fields_of
              (release_evidence_binding true true (record r { fencing_token = some token })))
        else obj (
            fields_of
              (("fencing_token", text token) ∷ ("manifest_hash", text r.manifest_hash) ∷ []))

    unfoldable pub claim_early : ℕ → String → Store → Release → Option Answer
    claim_early now id s r =
        if is_running r.state && is_live now r.lease_expires_at
        then some (refused lease_active)
        else if not (state_beq r.state authorized || is_running r.state)
        then some (refused not_authorized)
        else if state_beq r.state authorized && has_stale_review id r s
        then some (refused stale_review)
        else none

    abbrev pub claim_token : ℕ → String → ClaimInput → Release → String
    claim_token now id i r = release_fence id r.manifest_hash now i.actor

    abbrev pub claimed_row : ℕ → String → ClaimInput → Release → Release
    claimed_row now id i r = record r {
      state = claimed_state r.state;
      fencing_token = some (claim_token now id i r);
      lease_expires_at = some (lease_until now i.wanted_ms lease_ms);
      updated_at = now;
    }

    abbrev pub claimed_event : ℕ → String → ClaimInput → Release → Event
    claimed_event now id i r = record {
      release_id = id;
      kind = entered executing;
      actor = i.actor;
      detail_json = stringify (claim_detail (claim_token now id i r) r);
      created_at = now;
    }

    unfoldable pub claim_row : ℕ → String → ClaimInput → Store → Option Release → Answer × Store
    unfolding claim_early
    claim_row now id i s none = (idle, s)
    claim_row now id i s (some r) =
        answered (claim_early now id s r) done
          (write id (claimed_row now id i r) (claimed_event now id i r) s) s

    -- The claim of a release, if there is one.
    abbrev pub claim_named : ℕ → ClaimInput → Store → Option String → Answer × Store
    claim_named now i s none = (idle, s)
    claim_named now i s (some id) = claim_row now id i s (find id s.releases)

    -- The release that a claim is about: the one that is named, or the first candidate. `earliest` is
    -- the id of the first of some rows, if there are any.
    abbrev pub claimed_id :
        (Table String Release → Option String) → ℕ → ClaimInput → Store → Option String
    claimed_id earliest now i s =
        if is_empty i.id then earliest (candidates now s.releases) else some i.id

    unfoldable pub claim_authorized_production_release :
        (Table String Release → Option String) → ℕ → ClaimInput → Store → Answer × Store
    unfolding claim_row candidates
    claim_authorized_production_release earliest now i s =
        if is_empty i.actor || not (i.credential_channel == "bearer")
        then (refused service_bearer_required, s)
        else claim_named now i s (claimed_id earliest now i s)
