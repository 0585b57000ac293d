-- ===== src/Release/Transition.antt =====
-- `transitionProductionRelease` of app/worker/src/editor-store-core.js: the steps of an execution that a
-- worker reports, and what a completed release publishes.
use sonsteng_magnum_opus.Prelude.{
  ℕ, ◌+◌, String, Bool, true, false, not, ◌&&◌, ◌||◌, Option, none, some, List, [], ◌∷◌, any,
  nat_beq, ◌==◌, string_eq, pair_eq, if◌then◌else◌,
}
use sonsteng_magnum_opus.Prelude.Text.{codes, is_empty, is_upper}
use sonsteng_magnum_opus.Prelude.Json.{Json, nat, arr, obj, Items, nil, cons, Fields, end, field}
use sonsteng_magnum_opus.Prelude.Table.{Table, find, put}
use sonsteng_magnum_opus.Editor.Status.{Status, status_beq}
use sonsteng_magnum_opus.Release.{
  ReleaseState, entered, is_kind, executing, pages_deployed, worker_deployed, verified, complete,
  failed_fenced, restoring, restored, state_beq, Release, Event, Member, Mark, Store, lease_ms,
  is_live, is_running, is_fenced_state, is_v2, release_evidence_binding, write, has_event,
  not_found, service_bearer_required, stale_fence, lease_expired, unsafe_evidence,
  evidence_mismatch, idempotency_conflict, targets_incomplete, invalid_transition, Answer, refused,
  done, replayed,
}
use sonsteng_magnum_opus.Release.Claim.{agrees, answered}
use sonsteng_magnum_opus.Release.Lease.{lacks_fence}

-- A state that is no state of a release is `none`.
pub record TransitionInput : Type 0 where
  pub id : String
  pub actor : String
  pub credential_channel : String
  pub fencing_token : String
  pub state : Option ReleaseState
  pub detail : Json

-- The detail where it is an object or an array, and the empty object otherwise.
abbrev pub detail_of : Json → Json
detail_of (obj fs) = obj fs
detail_of (arr vs) = arr vs
detail_of _ = obj end

-- The words that no evidence may hold, in any case of letters.
abbrev pub lower : ℕ → ℕ
lower c = if is_upper c then c + 32 else c

abbrev pub begins : List ℕ → List ℕ → Bool
begins [] s = true
begins (c ∷ w) [] = false
begins (c ∷ w) (d ∷ s) = nat_beq c (lower d) && begins w s

unfoldable pub occurs : List ℕ → List ℕ → Bool
occurs w [] = begins w []
occurs w (d ∷ s) = begins w (d ∷ s) || occurs w s

abbrev pub forbidden_words : List String
forbidden_words = "new_text" ∷ "original_text" ∷ "authorization" ∷ "credential" ∷ "token" ∷ []

unfoldable pub is_unsafe : String → Bool
unfolding occurs
is_unsafe s = any (λ (w : String). occurs (codes w) (codes s)) forbidden_words

-- `{ ...detail, ...binding }`: a property that is there keeps its place.
abbrev pub set_field : String → Json → Fields → Fields
set_field k v end = field k v end
set_field k v (field j w fs) = if j == k then field j v fs else field j w (set_field k v fs)

abbrev pub with_fields : List (String × Json) → Fields → Fields
with_fields [] fs = fs
with_fields ((k, v) ∷ rest) fs = with_fields rest (set_field k v fs)

abbrev pub is_replayable : ReleaseState → Bool
is_replayable st = is_running st || state_beq st complete

-- `allowed`
abbrev pub allowed : ReleaseState → ReleaseState → Bool
allowed executing to =
    state_beq to pages_deployed || state_beq to worker_deployed || state_beq to failed_fenced
allowed pages_deployed to =
    state_beq to worker_deployed || state_beq to verified || state_beq to failed_fenced
allowed worker_deployed to =
    state_beq to pages_deployed || state_beq to verified || state_beq to failed_fenced
allowed verified to = state_beq to complete || state_beq to failed_fenced
allowed restoring to = state_beq to restored || state_beq to failed_fenced
allowed _ to = false

-- The `detail_json` of the first event of a kind.
unfoldable pub event_detail : String → ReleaseState → List Event → Option String
event_detail id kind [] = none
event_detail id kind (e ∷ es) =
    if e.release_id == id && is_kind kind e.kind
    then some e.detail_json
    else event_detail id kind es

-- `INSERT OR IGNORE`
abbrev pub insert_new {ℓ} : {V : Type ℓ} → String → V → Table String V → Table String V
insert_new k v t = elim (find k t) [ none ↦ put k v t | some old ↦ t ]

abbrev pub or_blank : Option String → String
or_blank none = ""
or_blank (some t) = t

abbrev pub publish_source : ℕ → String → Release → String → String → Store → Store
publish_source now id r operation source s = record s {
  published_sources = elim (find (operation, source) s.published_sources) [
    | none ↦
        put (operation, source)
          (record { release_id = id; candidate_sha = r.candidate_sha; published_at = now })
          s.published_sources
    | some old ↦ s.published_sources
  ];
}

unfoldable pub publish_sources : ℕ → String → Release → String → List String → Store → Store
publish_sources now id r operation [] s = s
publish_sources now id r operation (ref ∷ refs) s =
    publish_sources now id r operation refs (publish_source now id r operation ref s)

abbrev pub sources_of : Member → List String
sources_of m = elim m.affected_source_refs [ [] ↦ m.source_ref ∷ [] | x ∷ xs ↦ x ∷ xs ]

-- `UPDATE … WHERE operation_id=?` of a row that is there.
abbrev pub mark_lifecycle : String → Table String String → Table String String
mark_lifecycle operation t = elim (find operation t) [
  | none ↦ t
  | some old ↦ put operation "published" t
]

unfoldable pub publish_member : ℕ → String → Release → Member → Store → Store
unfolding publish_sources
publish_member now id r m s =
    let operation = m.operation_id in
    let s1 = record s {
      published =
          insert_new operation
            (record {
              release_id = id;
              review_revision_id = m.review_revision_id;
              source_ref = m.source_ref;
              source_revision = or_blank (find m.review_revision_id s.revisions);
              candidate_sha = r.candidate_sha;
              published_at = now;
            })
            s.published;
    } in
    let s2 = publish_sources now id r operation (sources_of m) s1 in
    record s2 { lifecycles = mark_lifecycle operation s2.lifecycles }

unfoldable pub publish_members : ℕ → String → Release → List Member → Store → Store
unfolding publish_member
publish_members now id r [] s = s
publish_members now id r (m ∷ ms) s =
    publish_members now id r ms (if m.release_id == id then publish_member now id r m s else s)

-- `production_release_id IS NULL OR production_release_id=?`
abbrev pub is_free : String → Option String → Bool
is_free id none = true
is_free id (some other) = other == id

abbrev pub marked : ℕ → String → Mark → Mark
marked now id m =
    if status_beq m.status Status.applied && is_free id m.production_release_id
    then record m { production_release_id = some id; production_published_at = some now }
    else m

abbrev pub mark_suggestion : ℕ → String → String → Table String Mark → Table String Mark
mark_suggestion now id suggestion t = elim (find suggestion t) [
  | none ↦ t
  | some m ↦ put suggestion (marked now id m) t
]

unfoldable pub mark_suggestions :
    ℕ → String → List (String × String) → Table String Mark → Table String Mark
mark_suggestions now id [] t = t
mark_suggestions now id ((release, suggestion) ∷ ms) t =
    mark_suggestions now id ms (if release == id then mark_suggestion now id suggestion t else t)

unfoldable pub publish : ℕ → String → Release → Store → Store
unfolding publish_members mark_suggestions
publish now id r s =
    if is_v2 r
    then publish_members now id r s.operation_members s
    else record s { suggestions = mark_suggestions now id s.members s.suggestions }

module _ (stringify : Json → String) where
  -- The properties that `{ ...detail }` copies: those of an array are its indices, written as
  -- `JSON.stringify` writes a number.
  abbrev pub indexed : ℕ → Items → Fields
  indexed n nil = end
  indexed n (cons v vs) = field (stringify (nat n)) v (indexed (n + 1) vs)

  abbrev pub spread : Json → Fields
  spread (obj fs) = fs
  spread (arr vs) = indexed 0 vs
  spread _ = end

  -- The detail of the event.
  abbrev pub event_json : Release → Json → String
  event_json r detail =
      if is_v2 r
      then stringify (obj (with_fields (release_evidence_binding true true r) (spread detail)))
      else stringify detail

  abbrev pub moved_row : ℕ → TransitionInput → Release → ReleaseState → Release
  moved_row now i r to = record r {
    state = to;
    provider_json = some (stringify (detail_of i.detail));
    lease_expires_at = if state_beq to complete then none else some (now + lease_ms);
    updated_at = now;
  }

  abbrev pub moved_event : ℕ → TransitionInput → Release → ReleaseState → Event
  moved_event now i r to = record {
    release_id = i.id;
    kind = entered to;
    actor = i.actor;
    detail_json = event_json r (detail_of i.detail);
    created_at = now;
  }

  unfoldable pub move : ℕ → TransitionInput → Release → ReleaseState → Store → Store
  unfolding publish
  move now i r to s =
      let moved = write i.id (moved_row now i r to) (moved_event now i r to) s in
      if state_beq to complete then publish now i.id r moved else moved

  -- The check of the targets and that of the table.
  abbrev pub advance_early : String → Release → Option ReleaseState → Store → Option Answer
  advance_early id r none s = some (refused invalid_transition)
  advance_early id r (some to) s =
      if state_beq to verified
        && not (has_event id pages_deployed s.events && has_event id worker_deployed s.events)
      then some (refused targets_incomplete)
      else if allowed r.state to
      then none
      else some (refused invalid_transition)

  abbrev pub prior_detail : TransitionInput → Option ReleaseState → Store → Option String
  prior_detail i none s = none
  prior_detail i (some to) s = if is_replayable to then event_detail i.id to s.events else none

  abbrev pub replay_early : TransitionInput → Release → Store → Option String → Option Answer
  replay_early i r s none = advance_early i.id r i.state s
  replay_early i r s (some detail) =
      if detail == event_json r (detail_of i.detail)
      then some replayed
      else some (refused idempotency_conflict)

  unfoldable pub transition_early : ℕ → TransitionInput → Store → Release → Option Answer
  unfolding is_unsafe event_detail
  transition_early now i s r =
      if not (i.credential_channel == "bearer") || is_empty i.actor
      then some (refused service_bearer_required)
      else if lacks_fence i.fencing_token r
      then some (refused stale_fence)
      else if is_fenced_state r.state && not (is_live now r.lease_expires_at)
      then some (refused lease_expired)
      else if is_unsafe (stringify (detail_of i.detail))
      then some (refused unsafe_evidence)
      else if is_v2 r && not (agrees (detail_of i.detail) (release_evidence_binding true true r))
      then some (refused evidence_mismatch)
      else replay_early i r s (prior_detail i i.state s)

  -- An input without a state of a release never gets to the writes.
  abbrev pub move_to : ℕ → TransitionInput → Release → Option ReleaseState → Store → Store
  move_to now i r none s = s
  move_to now i r (some to) s = move now i r to s

  unfoldable pub transition_row : ℕ → TransitionInput → Store → Option Release → Answer × Store
  unfolding transition_early move
  transition_row now i s none = (refused not_found, s)
  transition_row now i s (some r) =
      answered (transition_early now i s r) done (move_to now i r i.state s) s

  unfoldable pub transition_production_release : ℕ → TransitionInput → Store → Answer × Store
  unfolding transition_row
  transition_production_release now i s = transition_row now i s (find i.id s.releases)
