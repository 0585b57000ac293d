-- ===== src/Budget/Mints.antt =====
-- The request throttles of app/worker/src/budget-core.js: `mint` and `claimAssessmentRequest`.
pub mod Limits
use sonsteng_magnum_opus.Prelude.{
  ℕ, ◌+◌, ◌-◌, String, Bool, true, false, not, ◌&&◌, Option, none, some, ◌==◌, string_eq, nat_eq,
  pair_eq, leb, if◌then◌else◌,
}
use sonsteng_magnum_opus.Prelude.Value.{Value, nonempty_text, positive}
use sonsteng_magnum_opus.Prelude.Table.{find, put, weight}
use sonsteng_magnum_opus.Budget.Store.{Requests, Store}

pub record MintOptions : Type 0 where
  pub max_sessions_per_day : ℕ
  pub per_ip_ceiling : ℕ
  pub bypass : Bool

abbrev pub count_of : Option ℕ → ℕ
count_of none = 0
count_of (some n) = n

-- `INSERT … VALUES (…, 1) ON CONFLICT DO UPDATE SET count = count + 1`
abbrev pub bumped : Option ℕ → ℕ
bumped none = 1
bumped (some n) = n + 1

abbrev pub count_ip : ℕ → String → Store → Store
count_ip today ip_hash s = record s {
  ip_mints = put (ip_hash, today) (bumped (find (ip_hash, today) s.ip_mints)) s.ip_mints;
}

abbrev pub count_mint : ℕ → Store → Store
count_mint today s = record s { mints = put today (bumped (find today s.mints)) s.mints }

-- The Boolean is `ok`; a refusal is `rate_limited`.
unfoldable pub mint : ℕ → String → MintOptions → Store → Bool × Store
mint today ip_hash o s =
    if not o.bypass && leb o.max_sessions_per_day (count_of (find today s.mints))
    then (false, s)
    else if o.bypass
    then (true, count_mint today s)
    else if leb o.per_ip_ceiling (count_of (find (ip_hash, today) s.ip_mints))
    then (false, s)
    else (true, count_mint today (count_ip today ip_hash s))

pub data Claim : Type 0 where
  validation_error rate_limited : Claim
  claimed : ℕ → ℕ → Claim

abbrev pub requests_on : ℕ → Option Requests → ℕ
requests_on today none = 0
requests_on today (some r) = if r.day == today then r.requests else 0

abbrev pub next_requests : ℕ → Option Requests → Requests
next_requests today none = record { day = today; requests = 1 }
next_requests today (some r) = record {
  day = today;
  requests = if r.day == today then r.requests + 1 else 1;
}

unfoldable pub claim_checked : ℕ → Option String → Option ℕ → Store → Claim × Store
claim_checked today (some sid) (some max_requests) s =
    let row = find sid s.assessment_requests in
    let count = requests_on today row in
    if leb max_requests count then (rate_limited, s) else (
      claimed (count + 1) (max_requests - (count + 1)),
      record s { assessment_requests = put sid (next_requests today row) s.assessment_requests },
    )
claim_checked today _ _ s = (validation_error, s)

unfoldable pub claim_assessment_request : ℕ → Value → Value → Store → Claim × Store
unfolding claim_checked
claim_assessment_request today sid max_requests s =
    claim_checked today (nonempty_text sid) (positive max_requests) s
