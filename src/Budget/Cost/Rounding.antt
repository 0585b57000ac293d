-- ===== src/Budget/Cost/Rounding.antt =====
-- cost.js: the rounding of `centsForUsage`, and when the worst-case reservation covers the cost.
use sonsteng_magnum_opus.Prelude.{ℕ, ◌+◌, ◌*◌, ◌≤◌, ◌<◌, ◌≡◌, arith}
use sonsteng_magnum_opus.Budget.Cost.{
  Usage, normalize_token_count, ceil_cents, micro_for_usage, cents_for_usage,
  worst_case_reserve_cents,
}

ceil_cents_bounds : (m : ℕ) → (m ≤ ceil_cents m * 1000000) × (ceil_cents m * 1000000 < m + 1000000)
unfolding ceil_cents
ceil_cents_bounds m = (omega arith, omega arith)

ceil_cents_mono : (m n : ℕ) → m ≤ n → ceil_cents m ≤ ceil_cents n
unfolding ceil_cents
ceil_cents_mono m n h = omega arith

-- The cost in whole cents is the least that covers the weighted tokens, in millionths of a cent: it
-- covers them, and one cent less would not.
pub cents_for_usage_bounds :
    (u : Usage)
    → (micro_for_usage u ≤ cents_for_usage u * 1000000)
      × (cents_for_usage u * 1000000 < micro_for_usage u + 1000000)
unfolding cents_for_usage
cents_for_usage_bounds u = ceil_cents_bounds (micro_for_usage u)

-- The reservation of a call covers its cost when the call wrote nothing to the provider's cache, its
-- plain and cached input stay within the estimate, and its output and thinking within the maximum.
pub cents-le-reserve :
    (u : Usage) (estimate max_output : ℕ)
    → normalize_token_count u.cache_creation_input_tokens ≡ 0
    → normalize_token_count u.input_tokens + normalize_token_count u.cache_read_input_tokens
      ≤ estimate
    → normalize_token_count u.output_tokens + normalize_token_count u.thought_tokens ≤ max_output
    → cents_for_usage u ≤ worst_case_reserve_cents estimate max_output
unfolding cents_for_usage worst_case_reserve_cents micro_for_usage
cents-le-reserve u estimate max_output writes input output = ceil_cents_mono _ _ (omega arith)

-- A call that writes its whole estimated input to the cache, at least 40,000 tokens, and emits the
-- maximum costs more than was reserved for it.
pub reserve-lt-cache_writes :
    (u : Usage) (max_output : ℕ)
    → 40000 ≤ normalize_token_count u.cache_creation_input_tokens
    → normalize_token_count u.output_tokens ≡ max_output
    → worst_case_reserve_cents (normalize_token_count u.cache_creation_input_tokens) max_output
      < cents_for_usage u
unfolding cents_for_usage worst_case_reserve_cents micro_for_usage ceil_cents
reserve-lt-cache_writes u max_output writes output = omega arith
