-- ===== src/Release.antt =====
-- The production releases of app/worker/src/editor-store-core.js: the tables that the release methods write
-- and their common parts. A missing text is the empty one, and a missing `lease_ms` is 0: the source
-- treats both alike.
pub mod Claim
pub mod Lease
pub mod Transition
pub mod Sound
pub mod Trace
pub mod Fence
mod Examples
use sonsteng_magnum_opus.Prelude.{
  ℕ, ◌+◌, String, Bool, true, false, not, ◌&&◌, ◌||◌, Option, none, some, List, [], ◌∷◌, ◌++◌, any,
  ltb, leb, nat_beq, ◌==◌, string_eq, if◌then◌else◌,
}
use sonsteng_magnum_opus.Prelude.Text.{is_empty}
use sonsteng_magnum_opus.Prelude.Json.{Json, null, text, Fields, obj}
use sonsteng_magnum_opus.Prelude.Table.{Table, find, put}
use sonsteng_magnum_opus.Editor.Status.{Status}

pub data ReleaseState : Type 0 where
  prepared authorized executing pages_deployed worker_deployed : ReleaseState
  verified complete failed_fenced restoring restored : ReleaseState

abbrev pub index : ReleaseState → ℕ
index prepared = 0
index authorized = 1
index executing = 2
index pages_deployed = 3
index worker_deployed = 4
index verified = 5
index complete = 6
index failed_fenced = 7
index restoring = 8
index restored = 9

-- What an event records: that a release entered a state, or the ledger backfill, which another method
-- writes.
pub data EventKind : Type 0 where
  entered : ReleaseState → EventKind
  ledger_backfilled : EventKind

abbrev pub state_beq : ReleaseState → ReleaseState → Bool
state_beq a b = nat_beq (index a) (index b)

pub record Release : Type 0 where
  pub state : ReleaseState
  pub actor : String
  pub credential_channel : String
  pub authorization_key : Option String
  pub authorization_digest : Option String
  pub fencing_token : Option String
  pub lease_expires_at : Option ℕ
  pub provider_json : Option String
  pub schema_version : ℕ
  pub target_environment : String
  pub target_batch_id : String
  pub base_sha : String
  pub candidate_sha : String
  pub generator_id : String
  pub evidence_hash : String
  pub manifest_hash : String
  pub membership_hash : String
  pub review_receipt_hash : Option String
  pub projection_identity : Option String
  pub updated_at : ℕ

pub record Event : Type 0 where
  pub release_id : String
  pub kind : EventKind
  pub actor : String
  pub detail_json : String
  pub created_at : ℕ

pub record Member : Type 0 where
  pub release_id : String
  pub operation_id : String
  pub review_revision_id : String
  pub source_ref : String
  pub affected_source_refs : List String

pub record Published : Type 0 where
  pub release_id : String
  pub review_revision_id : String
  pub source_ref : String
  pub source_revision : String
  pub candidate_sha : String
  pub published_at : ℕ

pub record PublishedSource : Type 0 where
  pub release_id : String
  pub candidate_sha : String
  pub published_at : ℕ

-- The columns of `suggestions` that a release reads and writes.
pub record Mark : Type 0 where
  pub status : Status
  pub production_release_id : Option String
  pub production_published_at : Option ℕ

pub record Store : Type 0 where
  pub releases : Table String Release
  -- in the order of their ids
  pub events : List Event
  pub operation_members : List Member
  -- release and suggestion
  pub members : List (String × String)
  -- the source revision of a review revision
  pub revisions : Table String String
  pub published : Table String Published
  -- by operation and source
  pub published_sources : Table (String × String) PublishedSource
  -- the lifecycle state of a reviewed operation
  pub lifecycles : Table String String
  pub suggestions : Table String Mark

-- `CEILINGS.leaseMs` and `CEILINGS.productionLeaseMs`
abbrev pub lease_ms : ℕ
lease_ms = 300000

abbrev pub production_lease_ms : ℕ
production_lease_ms = 900000

-- `now + Math.max(1000, Math.min(wanted || usual, CEILINGS.productionLeaseMs))`
abbrev pub bounded : ℕ → ℕ
bounded n =
    if leb production_lease_ms n then production_lease_ms else if leb n 1000 then 1000 else n

abbrev pub lease_until : ℕ → ℕ → ℕ → ℕ
lease_until now wanted usual = now + bounded (if nat_beq wanted 0 then usual else wanted)

-- `lease_expires_at > now`
abbrev pub is_live : ℕ → Option ℕ → Bool
is_live now none = false
is_live now (some t) = ltb now t

-- The states of an execution.
abbrev pub is_running : ReleaseState → Bool
is_running executing = true
is_running pages_deployed = true
is_running worker_deployed = true
is_running verified = true
is_running _ = false

abbrev pub is_fenced_state : ReleaseState → Bool
is_fenced_state s = is_running s || state_beq s restoring

abbrev pub is_v2 : Release → Bool
is_v2 r = leb 2 r.schema_version

abbrev pub or_null : Option String → Json
or_null none = null
or_null (some s) = text s

-- `_releaseEvidenceBinding`, with the authorization and the fencing token where these are asked for.
abbrev pub evidence_columns : Release → List (String × Json)
evidence_columns r =
    ("target_environment", text r.target_environment)
    ∷ ("base_sha", text r.base_sha)
    ∷ ("candidate_sha", text r.candidate_sha)
    ∷ ("generator_id", text r.generator_id)
    ∷ ("evidence_hash", text r.evidence_hash)
    ∷ ("manifest_hash", text r.manifest_hash)
    ∷ ("membership_hash", text r.membership_hash)
    ∷ ("review_receipt_hash", or_null r.review_receipt_hash)
    ∷ ("projection_identity", or_null r.projection_identity)
    ∷ []

abbrev pub release_evidence_binding : Bool → Bool → Release → List (String × Json)
release_evidence_binding authorization fencing r =
    evidence_columns r
    ++ ((if authorization
          then ("authorization_key", or_null r.authorization_key)
            ∷ ("authorization_digest", or_null r.authorization_digest)
            ∷ []
          else [])
        ++ (if fencing then ("fencing_token", or_null r.fencing_token) ∷ [] else []))

-- A fresh object with these properties.
abbrev pub fields_of : List (String × Json) → Fields
fields_of [] = Fields.end
fields_of ((k, v) ∷ rest) = Fields.field k v (fields_of rest)

-- The update of a release and the event that goes with it.
abbrev pub write : String → Release → Event → Store → Store
write id r e s = record s { releases = put id r s.releases; events = s.events ++ (e ∷ []) }

-- `type === "…"`, for the name of a state.
abbrev pub is_kind : ReleaseState → EventKind → Bool
is_kind k (entered st) = state_beq st k
is_kind k ledger_backfilled = false

abbrev pub has_event : String → ReleaseState → List Event → Bool
has_event id kind events = any (λ (e : Event). e.release_id == id && is_kind kind e.kind) events

-- The review revisions of a release's operations.
abbrev pub revisions_of : String → List Member → List String
revisions_of id [] = []
revisions_of id (m ∷ ms) =
    let rest = revisions_of id ms in
    if m.release_id == id then m.review_revision_id ∷ rest else rest

pub data Reason : Type 0 where
  validation_error human_access_required not_found idempotency_conflict stale_draft : Reason
  stale_review service_bearer_required lease_active not_authorized not_fenced : Reason
  stale_fence not_executing lease_expired unsafe_evidence evidence_mismatch : Reason
  targets_incomplete invalid_transition : Reason

pub data Answer : Type 0 where
  refused : Reason → Answer
  idle done replayed : Answer
  renewed : ℕ → Answer
