-- ===== src/Release/Sound/Reports.antt =====
-- `transitionProductionRelease` of app/worker/src/editor-store-core.js keeps the history of every release
-- and the members that are frozen in it.
use mathlib.Core.Path.{subst}
use sonsteng_magnum_opus.Prelude.{
  ℕ, String, ◌≡◌, refl, sym, ◌∙◌, Bool, true, false, not, ◌&&◌, ◌||◌, Option, none, some, List, [],
  ◌∷◌, ◌++◌, ◌==◌, string_eq, arith, Bool-cases, inl, inr, both_true, if_case, if◌then◌else◌,
}
use sonsteng_magnum_opus.Prelude.Text.{is_empty}
use sonsteng_magnum_opus.Prelude.Json.{Json}
use sonsteng_magnum_opus.Prelude.Table.{Table, find}
use sonsteng_magnum_opus.Release.{
  ReleaseState, entered, authorized, executing, pages_deployed, worker_deployed, verified, complete,
  failed_fenced, restoring, restored, state_beq, Release, Event, Member, Store, is_live, is_v2,
  write, has_event, Answer, done, replayed, refused, is_fenced_state, release_evidence_binding,
  evidence_mismatch, unsafe_evidence, lease_expired, stale_fence, service_bearer_required,
  idempotency_conflict,
}
use sonsteng_magnum_opus.Release.Claim.{agrees}
use sonsteng_magnum_opus.Release.Lease.{lacks_fence}
use sonsteng_magnum_opus.Release.Transition.{
  TransitionInput, is_unsafe, event_json, detail_of, allowed, publish_member, publish_sources,
  publish_members, sources_of, publish_source, publish, advance_early, prior_detail, replay_early,
  transition_early, move_to, moved_row, moved_event, move, transition_row,
}
use sonsteng_magnum_opus.Release.Sound.{
  history, Had, History, IsSound-found, Had-append, has_event_last,
}
use sonsteng_magnum_opus.Release.Sound.Steps.{Kept, Kept-refl, answered-Kept, write-Kept}

-- What the publication leaves alone.
record IsUntouched (s s' : Store) : Type 0 where
  releases : s'.releases ≡ s.releases
  events : s'.events ≡ s.events
  operations : s'.operation_members ≡ s.operation_members
  members : s'.members ≡ s.members

left_alone : (s : Store) → IsUntouched s s
left_alone s = record { releases = refl; events = refl; operations = refl; members = refl }

left_alone_twice : (s t u : Store) → IsUntouched s t → IsUntouched t u → IsUntouched s u
left_alone_twice s t u a b = record {
  releases = b.releases ∙ a.releases;
  events = b.events ∙ a.events;
  operations = b.operations ∙ a.operations;
  members = b.members ∙ a.members;
}

publish_sources_same :
    (now : ℕ) (id : String) (r : Release) (operation : String) (refs : List String) (s : Store)
    → IsUntouched s (publish_sources now id r operation refs s)
unfolding publish_sources
publish_sources_same now id r operation [] s = left_alone s
publish_sources_same now id r operation (ref ∷ refs) s =
    let t = publish_source now id r operation ref s in
    left_alone_twice s t _
      (record { releases = refl; events = refl; operations = refl; members = refl })
      (publish_sources_same now id r operation refs t)

publish_member_same :
    (now : ℕ) (id : String) (r : Release) (m : Member) (s : Store)
    → IsUntouched s (publish_member now id r m s)
unfolding publish_member
publish_member_same now id r m s =
    let same = publish_sources_same now id r m.operation_id (sources_of m) _ in
    record {
      releases = same.releases;
      events = same.events;
      operations = same.operations;
      members = same.members;
    }

publish_members_same :
    (now : ℕ) (id : String) (r : Release) (ms : List Member) (s : Store)
    → IsUntouched s (publish_members now id r ms s)
unfolding publish_members
publish_members_same now id r [] s = left_alone s
publish_members_same now id r (m ∷ ms) s =
    let t = if m.release_id == id then publish_member now id r m s else s in
    left_alone_twice s t _
      (if_case (IsUntouched s) (m.release_id == id) (publish_member now id r m s) s
        (λ _. publish_member_same now id r m s) (λ _. left_alone s))
      (publish_members_same now id r ms t)

publish_same :
    (now : ℕ) (id : String) (r : Release) (s : Store) → IsUntouched s (publish now id r s)
unfolding publish
publish_same now id r s =
    if_case (IsUntouched s) (is_v2 r) (publish_members now id r s.operation_members s) _
      (λ _. publish_members_same now id r s.operation_members s)
      (λ _. record { releases = refl; events = refl; operations = refl; members = refl })

IsUntouched-Kept : (s t u : Store) → Kept s t → IsUntouched t u → Kept s u
IsUntouched-Kept s t u k n = record {
  sound = λ id h.
      subst (λ (es : List Event). History es id (find id u.releases)) (sym n.events)
        (subst (λ (l : Table String Release). History t.events id (find id l)) (sym n.releases)
          (k.sound id h));
  operations = n.operations ∙ k.operations;
  suggestions = n.members ∙ k.suggestions;
}

negation_fails : (b : Bool) → not b ≡ false → b ≡ true
negation_fails true h = refl
negation_fails false h = absurd (ground (arith, h))

later_none :
    (b : Bool) (a : Answer) (o : Option Answer) → (if b then some a else o) ≡ none → o ≡ none
later_none true a o h = absurd (ground (arith, h))
later_none false a o h = h

verified_history :
    (es : List Event) (e : Event) (id : String)
    → e.release_id ≡ id
    → e.kind ≡ entered verified
    → has_event id authorized es ≡ true
    → Had es id (pages_deployed ∷ worker_deployed ∷ [])
    → Had (es ++ (e ∷ [])) id (history verified)
verified_history es e id i k a b =
    let all : Had es id (authorized ∷ pages_deployed ∷ worker_deployed ∷ []) = (a, b) in
    let still = Had-append es e id (authorized ∷ pages_deployed ∷ worker_deployed ∷ []) all in
    (still.0, (still.1.0, (still.1.1.0, (has_event_last id verified es e i k, tt))))

complete_history :
    (es : List Event) (e : Event) (id : String)
    → e.release_id ≡ id
    → e.kind ≡ entered complete
    → Had es id (history verified)
    → Had (es ++ (e ∷ [])) id (history complete)
complete_history es e id i k h =
    let still = Had-append es e id (history verified) h in
    (
      still.0,
      (still.1.0, (still.1.1.0, (still.1.1.1.0, (has_event_last id complete es e i k, tt)))),
    )

-- A step that the table allows, with the event that is written for it.
allowed_history :
    (from to : ReleaseState) (es : List Event) (e : Event) (id : String)
    → e.release_id ≡ id
    → e.kind ≡ entered to
    → allowed from to ≡ true
    → (to ≡ verified → Had es id (pages_deployed ∷ worker_deployed ∷ []))
    → Had es id (history from)
    → Had (es ++ (e ∷ [])) id (history to)
allowed_history executing pages_deployed es e id i k a f h = Had-append es e id (authorized ∷ []) h
allowed_history executing worker_deployed es e id i k a f h = Had-append es e id (authorized ∷ []) h
allowed_history executing failed_fenced es e id i k a f h = Had-append es e id (authorized ∷ []) h
allowed_history executing _ es e id i k a f h = absurd (ground (arith, a))
allowed_history pages_deployed worker_deployed es e id i k a f h =
    Had-append es e id (authorized ∷ []) h
allowed_history pages_deployed failed_fenced es e id i k a f h =
    Had-append es e id (authorized ∷ []) h
allowed_history pages_deployed verified es e id i k a f h =
    verified_history es e id i k h.0 (f refl)
allowed_history pages_deployed _ es e id i k a f h = absurd (ground (arith, a))
allowed_history worker_deployed pages_deployed es e id i k a f h =
    Had-append es e id (authorized ∷ []) h
allowed_history worker_deployed failed_fenced es e id i k a f h =
    Had-append es e id (authorized ∷ []) h
allowed_history worker_deployed verified es e id i k a f h =
    verified_history es e id i k h.0 (f refl)
allowed_history worker_deployed _ es e id i k a f h = absurd (ground (arith, a))
allowed_history verified complete es e id i k a f h = complete_history es e id i k h
allowed_history verified failed_fenced es e id i k a f h =
    Had-append es e id (authorized ∷ []) (h.0, tt)
allowed_history verified _ es e id i k a f h = absurd (ground (arith, a))
allowed_history restoring restored es e id i k a f h = Had-append es e id (authorized ∷ []) h
allowed_history restoring failed_fenced es e id i k a f h = Had-append es e id (authorized ∷ []) h
allowed_history restoring _ es e id i k a f h = absurd (ground (arith, a))
allowed_history _ to es e id i k a f h = absurd (ground (arith, a))

-- A report that is not answered early is of an allowed step, with both targets behind a verification.
record IsDue (id : String) (r : Release) (to : ReleaseState) (s : Store) : Type 0 where
  allowed : allowed r.state to ≡ true
  targets : to ≡ verified → Had s.events id (pages_deployed ∷ worker_deployed ∷ [])

module _ (stringify : Json → String) where
  advance_early_lem :
      (id : String) (r : Release) (to : ReleaseState) (s : Store)
      → advance_early stringify id r (some to) s ≡ none
      → IsDue id r to s
  advance_early_lem id r to s h =
      elim (Bool-cases (
        state_beq to verified
        && not (has_event id pages_deployed s.events && has_event id worker_deployed s.events))) [
          | inl missing ↦ absurd (ground (arith, rw missing at h))
          | inr there ↦ elim (Bool-cases (allowed r.state to)) [
            | inr other ↦ absurd (ground (arith, rw (there, other) at h))
            | inl fits ↦ record {
              allowed = fits;
              targets = λ is.
                  let (pages, worker) = both_true _ _ (
                    negation_fails _ (
                      subst
                        (λ (st : ReleaseState).
                          (state_beq st verified
                            && not (
                                has_event id pages_deployed s.events
                                && has_event id worker_deployed s.events))
                          ≡ false)
                        is there)) in
                  (pages, (worker, tt));
            }
          ]
        ]

  replay_early_lem :
      (i : TransitionInput) (r : Release) (s : Store) (o : Option String)
      → replay_early stringify i r s o ≡ none
      → advance_early stringify i.id r i.state s ≡ none
  replay_early_lem i r s none h = h
  replay_early_lem i r s (some detail) h = absurd (
      ground (
        arith,
        later_none (detail == event_json stringify r (detail_of i.detail)) replayed
            (some (refused idempotency_conflict)) h,
      ))

  transition_early_lem :
      (now : ℕ) (i : TransitionInput) (s : Store) (r : Release)
      → transition_early stringify now i s r ≡ none
      → advance_early stringify i.id r i.state s ≡ none
  unfolding transition_early
  transition_early_lem now i s r h = replay_early_lem i r s (prior_detail stringify i i.state s) (
      later_none
        (is_v2 r && not (agrees (detail_of i.detail) (release_evidence_binding true true r)))
        (refused evidence_mismatch) _
        (later_none (is_unsafe (stringify (detail_of i.detail))) (refused unsafe_evidence) _ (
          later_none (is_fenced_state r.state && not (is_live now r.lease_expires_at))
            (refused lease_expired) _
            (later_none (lacks_fence i.fencing_token r) (refused stale_fence) _ (
              later_none (not (i.credential_channel == "bearer") || is_empty i.actor)
                (refused service_bearer_required) _ h)))))

  move-Kept :
      (now : ℕ) (i : TransitionInput) (r : Release) (to : ReleaseState) (s : Store)
      → find i.id s.releases ≡ some r
      → IsDue i.id r to s
      → Kept s (move stringify now i r to s)
  unfolding move
  move-Kept now i r to s there due =
      let e = moved_event stringify now i r to in
      let w = write i.id (moved_row stringify now i r to) e s in
      let kept : Kept s w = write-Kept i.id (moved_row stringify now i r to) e s (λ h.
        allowed_history r.state to s.events e i.id refl refl due.allowed due.targets
          (IsSound-found i.id r s there h)) in
      if_case (Kept s) (state_beq to complete) (publish now i.id r w) w
        (λ _. IsUntouched-Kept s w (publish now i.id r w) kept (publish_same now i.id r w))
        (λ _. kept)

  move_to-Kept :
      (now : ℕ) (i : TransitionInput) (r : Release) (o : Option ReleaseState) (s : Store)
      → find i.id s.releases ≡ some r
      → advance_early stringify i.id r o s ≡ none
      → Kept s (move_to stringify now i r o s)
  move_to-Kept now i r none s there h = Kept-refl s
  move_to-Kept now i r (some to) s there h =
      move-Kept now i r to s there (advance_early_lem i.id r to s h)

  pub transition_row-Kept :
      (now : ℕ) (i : TransitionInput) (s : Store) (o : Option Release)
      → find i.id s.releases ≡ o
      → Kept s (transition_row stringify now i s o).1
  unfolding transition_row
  transition_row-Kept now i s none there = Kept-refl s
  transition_row-Kept now i s (some r) there =
      answered-Kept (transition_early stringify now i s r) done s
        (move_to stringify now i r i.state s)
        (λ h. move_to-Kept now i r i.state s there (transition_early_lem now i s r h))
