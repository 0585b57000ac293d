-- ===== src/Budget/Mints/Limits.antt =====
-- The daily ceilings on new sessions, and the per-session ceiling on memo assessments.
use sonsteng_magnum_opus.Prelude.{
  ℕ, ◌+◌, ◌-◌, ◌≤◌, ◌<◌, String, ◌≡◌, true, false, Option, some, string_eq, nat_eq, pair_eq,
  if◌then◌else◌, arith,
}
use sonsteng_magnum_opus.Prelude.Value.{Value, nonempty_text, positive}
use sonsteng_magnum_opus.Prelude.Table.{find, find-put, find-put_self}
use sonsteng_magnum_opus.Budget.Store.{Store}
use sonsteng_magnum_opus.Budget.Mints.{
  MintOptions, mint, count_of, bumped, claimed, requests_on, next_requests, claim_checked,
  claim_assessment_request,
}

abbrev pub minted : ℕ → Store → ℕ
minted day s = count_of (find day s.mints)

abbrev pub minted_by : String → ℕ → Store → ℕ
minted_by ip day s = count_of (find (ip, day) s.ip_mints)

-- Without the bypass, a mint keeps every day's count of sessions within the daily ceiling and every
-- address's count within its ceiling.
pub mint-le-ceilings :
    (today : ℕ) (ip : String) (o : MintOptions) (s : Store)
    → o.bypass ≡ false
    → ((day : ℕ) → minted day s ≤ o.max_sessions_per_day)
    → ((a : String) (day : ℕ) → minted_by a day s ≤ o.per_ip_ceiling)
    → let s' = (mint today ip o s).1 in
      ((day : ℕ) → minted day s' ≤ o.max_sessions_per_day)
      × ((a : String) (day : ℕ) → minted_by a day s' ≤ o.per_ip_ceiling)
unfolding mint
mint-le-ceilings today ip o s no_bypass days ips = (
  λ day. ground (arith, days day, find-put today day (bumped (find today s.mints)) s.mints),
  λ a day. ground (
    arith,
    ips a day,
    find-put (ip, today) (a, day) (bumped (find (ip, today) s.ip_mints)) s.ip_mints,
    (pair_eq {A = String} {B = ℕ}).beq_iff (ip, today) (a, day),
  ),
)

-- A mint that is granted counts one session of the day, and without the bypass one of the address;
-- a refused one changes nothing.
pub mint_counts :
    (today : ℕ) (ip : String) (o : MintOptions) (s : Store)
    → let (ok, s') = mint today ip o s in
      (ok ≡ true → minted today s' ≡ minted today s + 1)
      × (ok ≡ true → minted_by ip today s' ≡ minted_by ip today s + (if o.bypass then 0 else 1))
      × (ok ≡ false → s' ≡ s)
unfolding mint
mint_counts today ip o s = (
  λ h. ground (arith, find-put_self today (bumped (find today s.mints)) s.mints),
  λ h. ground (arith, find-put_self (ip, today) (bumped (find (ip, today) s.ip_mints)) s.ip_mints),
  λ h. ground arith,
)

claim_lem :
    (today : ℕ) (i : Option String) (m : Option ℕ) (sid : String) (n : ℕ) (s : Store)
    → i ≡ some sid
    → m ≡ some n
    → claim_checked today i m s ≡ claim_checked today (some sid) (some n) s
claim_lem today i m sid n s ei em = rw (ei, em)

claim_row :
    (today : ℕ) (sid : String) (max_requests : ℕ) (s : Store)
    → let (answer, s') = claim_checked today (some sid) (some max_requests) s in
      let before = requests_on today (find sid s.assessment_requests) in
      ((n left : ℕ)
        → answer ≡ claimed n left
        → (n ≡ before + 1)
          × (n + left ≡ max_requests)
          × (requests_on today (find sid s'.assessment_requests) ≡ n))
      × (max_requests ≤ before → s' ≡ s)
      × (before < max_requests → answer ≡ claimed (before + 1) (max_requests - (before + 1)))
unfolding claim_checked
claim_row today sid max_requests s = (
  λ n left h. ground (
    arith,
    find-put_self sid (next_requests today (find sid s.assessment_requests)) s.assessment_requests,
  ),
  λ h. ground arith,
  λ h. ground arith,
)

-- With a session id and a positive ceiling, a memo assessment is granted exactly while the session's
-- requests of the day are below the ceiling. A granted one is the next of the day and is counted; a
-- refused one changes nothing.
pub claim_counts :
    (today : ℕ) (sidv maxv : Value) (sid : String) (max_requests : ℕ) (s : Store)
    → nonempty_text sidv ≡ some sid
    → positive maxv ≡ some max_requests
    → let (answer, s') = claim_assessment_request today sidv maxv s in
      let before = requests_on today (find sid s.assessment_requests) in
      ((n left : ℕ)
        → answer ≡ claimed n left
        → (n ≡ before + 1)
          × (n + left ≡ max_requests)
          × (requests_on today (find sid s'.assessment_requests) ≡ n))
      × (max_requests ≤ before → s' ≡ s)
      × (before < max_requests → answer ≡ claimed (before + 1) (max_requests - (before + 1)))
unfolding claim_assessment_request
claim_counts today sidv maxv sid max_requests s ei em =
    rw (claim_lem today (nonempty_text sidv) (positive maxv) sid max_requests s ei em)
      (claim_row today sid max_requests s)
