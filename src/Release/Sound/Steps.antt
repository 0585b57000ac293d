-- ===== src/Release/Sound/Steps.antt =====
-- Authorization, claims and renewals of app/worker/src/editor-store-core.js keep the history of every release
-- and the members that are frozen in it.
use mathlib.Core.Path.{subst}
use sonsteng_magnum_opus.Prelude.{
  ℕ, String, ◌≡◌, refl, sym, Bool, true, false, ◌&&◌, ◌||◌, Option, none, some, List, [], ◌∷◌, ◌++◌,
  string_eq, arith, Bool-cases, inl, inr, if◌then◌else◌,
}
use sonsteng_magnum_opus.Prelude.Json.{Json}
use sonsteng_magnum_opus.Prelude.Table.{find, put}
use sonsteng_magnum_opus.Release.{
  ReleaseState, prepared, authorized, executing, pages_deployed, worker_deployed, verified,
  complete, failed_fenced, restoring, restored, state_beq, Release, Event, Store, is_live,
  lease_until, production_lease_ms, write, Answer, done,
}
use sonsteng_magnum_opus.Release.Claim.{
  AuthorizeInput, ClaimInput, answered, authorize_early, authorized_row, authorized_event,
  claim_early, claimed_row, claimed_event, authorize_row, claim_row, claimed_state,
}
use sonsteng_magnum_opus.Release.Lease.{
  RenewInput, restore_early, restoring_row, restoring_event, renew_early, renewed_row, restore_row,
  renew_row,
}
use sonsteng_magnum_opus.Release.Sound.{
  history, Had, IsSound, Had-append, has_event_last, IsSound-found, write-IsSound, put-IsSound,
}

pub record Kept (s s' : Store) : Type 0 where
  pub sound : (id : String) → IsSound id s → IsSound id s'
  pub operations : s'.operation_members ≡ s.operation_members
  pub suggestions : s'.members ≡ s.members

pub Kept-refl : (s : Store) → Kept s s
Kept-refl s = record { sound = λ id h. h; operations = refl; suggestions = refl }

-- A step's answer with the store that it leaves.
abbrev Keeps : Store → Answer × Store → Type 0
Keeps s p = Kept s p.1

pub write-Kept :
    (id : String) (r : Release) (e : Event) (s : Store)
    → (IsSound id s → Had (s.events ++ (e ∷ [])) id (history r.state))
    → Kept s (write id r e s)
write-Kept id r e s f = record {
  sound = write-IsSound id r e s f;
  operations = refl;
  suggestions = refl;
}

-- A step that answers early, or writes.
pub answered-Kept :
    (o : Option Answer) (a : Answer) (s w : Store)
    → (o ≡ none → Kept s w)
    → Kept s (answered o a w s).1
answered-Kept none a s w f = f refl
answered-Kept (some early) a s w f = Kept-refl s

-- The guard of a method, whose refusals leave the store.
pub guard-Kept :
    (b : Bool) (a : Answer) (s : Store) (p : Answer × Store)
    → Kept s p.1
    → Kept s (if b then (a, s) else p).1
guard-Kept true a s p k = Kept-refl s
guard-Kept false a s p k = k

-- An update of a release that stays in its state.
put-Kept :
    (id : String) (r r' : Release) (s : Store)
    → find id s.releases ≡ some r
    → r'.state ≡ r.state
    → Kept s (record s { releases = put id r' s.releases })
put-Kept id r r' s there same_state = record {
  sound =
      put-IsSound id r' s.events s (λ j ks h. h)
        (λ h.
          subst (λ (st : ReleaseState). Had s.events id (history st)) (sym same_state)
            (IsSound-found id r s there h));
  operations = refl;
  suggestions = refl;
}

claimed_history :
    (st : ReleaseState) (es : List Event) (id : String)
    → Had es id (history st)
    → Had es id (history (claimed_state st))
claimed_history prepared es id h = h
claimed_history authorized es id h = h
claimed_history executing es id h = h
claimed_history pages_deployed es id h = h
claimed_history worker_deployed es id h = h
claimed_history verified es id h = h
claimed_history complete es id h = h
claimed_history failed_fenced es id h = h
claimed_history restoring es id h = h
claimed_history restored es id h = h

restoring_history :
    (st : ReleaseState) (es : List Event) (id : String)
    → (state_beq st failed_fenced || state_beq st restoring) ≡ true
    → Had es id (history st)
    → Had es id (authorized ∷ [])
restoring_history failed_fenced es id e h = h
restoring_history restoring es id e h = h
restoring_history _ es id e h = absurd (ground (arith, e))

module _ (stringify : Json → String) (is_stale : Store → String → Bool) where
  pub authorize_row-Kept :
      (now : ℕ) (i : AuthorizeInput) (s : Store) (o : Option Release)
      → Kept s (authorize_row stringify is_stale now i s o).1
  unfolding authorize_row
  authorize_row-Kept now i s none = Kept-refl s
  authorize_row-Kept now i s (some r) =
      let e = authorized_event stringify is_stale now i r in
      answered-Kept (authorize_early stringify is_stale i s r) done s _ (λ _.
        write-Kept i.id (authorized_row stringify is_stale now i r) e s
          (λ h. (has_event_last i.id authorized s.events e refl refl, tt)))

  module _ (release_fence : String → String → ℕ → String → String) where
    pub claim_row-Kept :
        (now : ℕ) (id : String) (i : ClaimInput) (s : Store) (o : Option Release)
        → find id s.releases ≡ o
        → Kept s (claim_row stringify is_stale release_fence now id i s o).1
    unfolding claim_row
    claim_row-Kept now id i s none there = Kept-refl s
    claim_row-Kept now id i s (some r) there =
        let e = claimed_event stringify is_stale release_fence now id i r in
        answered-Kept (claim_early stringify is_stale release_fence now id s r) done s _ (λ _.
          write-Kept id (claimed_row stringify is_stale release_fence now id i r) e s (λ h.
            claimed_history r.state (s.events ++ (e ∷ [])) id
              (Had-append s.events e id (history r.state) (IsSound-found id r s there h))))

  module _ (restore_fence : String → String → ℕ → String → String) where
    restore_early_lem :
        (now : ℕ) (r : Release)
        → restore_early stringify restore_fence now r ≡ none
        → (state_beq r.state failed_fenced || state_beq r.state restoring) ≡ true
    restore_early_lem now r h =
        elim (Bool-cases (state_beq r.state restoring && is_live now r.lease_expires_at)) [
          | inl live ↦ absurd (ground (arith, rw live at h))
          | inr over ↦
              elim (Bool-cases (state_beq r.state failed_fenced || state_beq r.state restoring)) [
                | inl fenced ↦ fenced
                | inr other ↦ absurd (ground (arith, rw (over, other) at h))
              ]
        ]

    pub restore_row-Kept :
        (now : ℕ) (i : ClaimInput) (s : Store) (o : Option Release)
        → find i.id s.releases ≡ o
        → Kept s (restore_row stringify restore_fence now i s o).1
    unfolding restore_row
    restore_row-Kept now i s none there = Kept-refl s
    restore_row-Kept now i s (some r) there =
        let e = restoring_event stringify restore_fence now i in
        answered-Kept (restore_early stringify restore_fence now r) done s _ (λ free.
          write-Kept i.id (restoring_row stringify restore_fence now i r) e s (λ h.
            Had-append s.events e i.id (authorized ∷ []) (
              restoring_history r.state s.events i.id (restore_early_lem now r free)
                (IsSound-found i.id r s there h))))

pub renew_row-Kept :
    (now : ℕ) (i : RenewInput) (s : Store) (o : Option Release)
    → find i.id s.releases ≡ o
    → Kept s (renew_row now i s o).1
unfolding renew_row
renew_row-Kept now i s none there = Kept-refl s
renew_row-Kept now i s (some r) there = answered-Kept (renew_early now i r) _ s _ (λ _.
    put-Kept i.id r (renewed_row now (lease_until now i.wanted_ms production_lease_ms) r) s there
      refl)
