-- ===== src/Release/Sound.antt =====
-- The events that a release of app/worker/src/editor-store-core.js has behind it in each state once it was
-- prepared. The ledger backfill, which writes complete releases without them, is outside the model.
pub mod Steps
pub mod Reports
use mathlib.Core.Path.{subst}
use sonsteng_magnum_opus.Prelude.{
  ℕ, String, ◌≡◌, refl, sym, ap, ◌∙◌, Bool, true, false, not, ◌&&◌, ◌||◌, Option, none, some, List,
  [], ◌∷◌, ◌++◌, any, any-append, nat_beq_iff, All, ◌==◌, string_eq, ==_self, arith, Bool-cases,
  Option-cases, inl, inr, both_true, some_inj, if◌then◌else◌, nat_beq,
}
use sonsteng_magnum_opus.Prelude.Json.{Json}
use sonsteng_magnum_opus.Prelude.Table.{Table, find, put, find-put}
use sonsteng_magnum_opus.Release.{
  ReleaseState, entered, prepared, authorized, executing, pages_deployed, worker_deployed, verified,
  complete, failed_fenced, restoring, restored, index, state_beq, Release, Event, Member, Store,
  is_running, write, has_event, Answer,
}
use sonsteng_magnum_opus.Release.Claim.{
  AuthorizeInput, ClaimInput, authorize_row, authorize_production_release, claim_row, claimed_state,
  claim_authorized_production_release,
}
use sonsteng_magnum_opus.Release.Lease.{
  RenewInput, restore_row, claim_production_restore, renew_row, renew_production_release_lease,
}
use sonsteng_magnum_opus.Release.Transition.{
  TransitionInput, allowed, publish_member, publish_sources, publish_members, mark_suggestions,
  publish, move, transition_row, transition_production_release,
}

-- The events that a release in a state has behind it.
abbrev pub history : ReleaseState → List ReleaseState
history prepared = []
history verified = authorized ∷ pages_deployed ∷ worker_deployed ∷ verified ∷ []
history complete = authorized ∷ pages_deployed ∷ worker_deployed ∷ verified ∷ complete ∷ []
history _ = authorized ∷ []

abbrev pub Had : List Event → String → List ReleaseState → Type 0
Had events id kinds = All (λ (k : ReleaseState). has_event id k events ≡ true) kinds

-- A release that is there has the events of its state behind it.
abbrev pub History : List Event → String → Option Release → Type 0
History events id none = Unit
History events id (some r) = Had events id (history r.state)

abbrev pub IsSound : String → Store → Type 0
IsSound id s = History s.events id (find id s.releases)

pub Had-append :
    (es : List Event) (e : Event) (id : String) (ks : List ReleaseState)
    → Had es id ks
    → Had (es ++ (e ∷ [])) id ks
Had-append es e id [] h = tt
Had-append es e id (k ∷ ks) h = (any-append _ es e ∙ rw (h.0) refl, Had-append es e id ks h.1)

either_of : (a b : Bool) → b ≡ true → (a || b) ≡ true
either_of true b h = refl
either_of false b h = h

state_beq_self : (k : ReleaseState) → state_beq k k ≡ true
state_beq_self k = (nat_beq_iff (index k) (index k)).1 refl

-- The event that was written last.
pub has_event_last :
    (id : String) (k : ReleaseState) (es : List Event) (e : Event)
    → e.release_id ≡ id
    → e.kind ≡ entered k
    → has_event id k (es ++ (e ∷ [])) ≡ true
has_event_last id k es e i kind =
    any-append _ es e
    ∙ either_of (has_event id k es) _ (rw (i, kind, ==_self id, state_beq_self k) refl)

pub IsSound-found :
    (id : String) (r : Release) (s : Store)
    → find id s.releases ≡ some r
    → IsSound id s
    → Had s.events id (history r.state)
IsSound-found id r s there = subst (λ (o : Option Release). History s.events id o) there

-- Whatever two lists of events agree on, they agree on for the release that is there.
History-grows :
    (es es' : List Event) (id : String)
    → ((ks : List ReleaseState) → Had es id ks → Had es' id ks)
    → (o : Option Release) → History es id o
    → History es' id o
History-grows es es' id grow none h = tt
History-grows es es' id grow (some r) h = grow (history r.state) h

-- A release is updated, and events are added.
pub put-IsSound :
    (id : String) (r : Release) (es : List Event) (s : Store)
    → ((j : String) (ks : List ReleaseState) → Had s.events j ks → Had es j ks)
    → (IsSound id s → Had es id (history r.state))
    → (j : String) → IsSound j s
    → IsSound j (record s { releases = put id r s.releases; events = es })
put-IsSound id r es s grow had j sound = elim (Bool-cases (id == j)) [
  | inl this ↦
      let same = (string_eq.beq_iff id j).0 this in
      let there : find j (put id r s.releases) ≡ some r =
        find-put id j r s.releases ∙ rw this refl in
      subst (λ (o : Option Release). History es j o) (sym there)
        (subst (λ (k : String). Had es k (history r.state)) same
          (had (subst (λ (k : String). IsSound k s) (sym same) sound)))
  | inr other ↦
      let there : find j (put id r s.releases) ≡ find j s.releases =
        find-put id j r s.releases ∙ rw other refl in
      subst (λ (o : Option Release). History es j o) (sym there)
        (History-grows s.events es j (grow j) (find j s.releases) sound)
]

pub write-IsSound :
    (id : String) (r : Release) (e : Event) (s : Store)
    → (IsSound id s → Had (s.events ++ (e ∷ [])) id (history r.state))
    → (j : String) → IsSound j s
    → IsSound j (write id r e s)
write-IsSound id r e s =
    put-IsSound id r (s.events ++ (e ∷ [])) s (λ j ks. Had-append s.events e j ks)
