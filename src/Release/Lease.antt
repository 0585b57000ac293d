-- ===== src/Release/Lease.antt =====
-- `claimProductionRestore` and `renewProductionReleaseLease` of app/worker/src/editor-store-core.js. Arguments:
-- `JSON.stringify` and the digest of the fencing token.
use sonsteng_magnum_opus.Prelude.{
  ℕ, String, Bool, true, not, ◌&&◌, ◌||◌, Option, none, some, [], ◌∷◌, ◌==◌, string_eq,
  if◌then◌else◌,
}
use sonsteng_magnum_opus.Prelude.Text.{is_empty}
use sonsteng_magnum_opus.Prelude.Json.{Json, obj}
use sonsteng_magnum_opus.Prelude.Table.{find, put}
use sonsteng_magnum_opus.Release.{
  entered, failed_fenced, restoring, state_beq, Release, Event, Store, production_lease_ms,
  lease_until, is_live, is_fenced_state, fields_of, write, not_found, service_bearer_required,
  lease_active, not_fenced, stale_fence, not_executing, lease_expired, Answer, refused, done,
  renewed,
}
use sonsteng_magnum_opus.Release.Claim.{ClaimInput, is_text, answered}

pub record RenewInput : Type 0 where
  pub id : String
  pub actor : String
  pub credential_channel : String
  pub fencing_token : String
  pub wanted_ms : ℕ

abbrev pub or_empty : Option String → String
or_empty none = ""
or_empty (some t) = t

module _ (stringify : Json → String) (restore_fence : String → String → ℕ → String → String) where
  abbrev pub restore_early : ℕ → Release → Option Answer
  restore_early now r =
      if state_beq r.state restoring && is_live now r.lease_expires_at
      then some (refused lease_active)
      else if not (state_beq r.state failed_fenced || state_beq r.state restoring)
      then some (refused not_fenced)
      else none

  abbrev pub restoring_row : ℕ → ClaimInput → Release → Release
  restoring_row now i r = record r {
    state = restoring;
    fencing_token = some (restore_fence i.id (or_empty r.fencing_token) now i.actor);
    lease_expires_at = some (lease_until now i.wanted_ms production_lease_ms);
    updated_at = now;
  }

  abbrev pub restoring_event : ℕ → ClaimInput → Event
  restoring_event now i = record {
    release_id = i.id;
    kind = entered restoring;
    actor = i.actor;
    detail_json = stringify (obj (fields_of (("restore_claim", Json.bool true) ∷ [])));
    created_at = now;
  }

  unfoldable pub restore_row : ℕ → ClaimInput → Store → Option Release → Answer × Store
  restore_row now i s none = (refused not_found, s)
  restore_row now i s (some r) =
      answered (restore_early now r) done
        (write i.id (restoring_row now i r) (restoring_event now i) s) s

  unfoldable pub claim_production_restore : ℕ → ClaimInput → Store → Answer × Store
  unfolding restore_row
  claim_production_restore now i s =
      if is_empty i.id || is_empty i.actor || not (i.credential_channel == "bearer")
      then (refused service_bearer_required, s)
      else restore_row now i s (find i.id s.releases)

-- The caller does not hold the release's fencing token.
abbrev pub lacks_fence : String → Release → Bool
lacks_fence token r = is_empty token || not (is_text token r.fencing_token)

abbrev pub renew_early : ℕ → RenewInput → Release → Option Answer
renew_early now i r =
    if not (i.credential_channel == "bearer") || is_empty i.actor
    then some (refused service_bearer_required)
    else if lacks_fence i.fencing_token r
    then some (refused stale_fence)
    else if not (is_fenced_state r.state)
    then some (refused not_executing)
    else if not (is_live now r.lease_expires_at)
    then some (refused lease_expired)
    else none

abbrev pub renewed_row : ℕ → ℕ → Release → Release
renewed_row now lease r = record r { lease_expires_at = some lease; updated_at = now }

unfoldable pub renew_row : ℕ → RenewInput → Store → Option Release → Answer × Store
renew_row now i s none = (refused not_found, s)
renew_row now i s (some r) =
    let lease = lease_until now i.wanted_ms production_lease_ms in
    answered (renew_early now i r) (renewed lease)
      (record s { releases = put i.id (renewed_row now lease r) s.releases }) s

unfoldable pub renew_production_release_lease : ℕ → RenewInput → Store → Answer × Store
unfolding renew_row
renew_production_release_lease now i s = renew_row now i s (find i.id s.releases)
