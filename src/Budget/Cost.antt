-- ===== src/Budget/Cost.antt =====
-- app/worker/src/cost.js: token prices in cents per million tokens, the cost of a call rounded up to
-- whole cents, and the worst-case reservation. Arithmetic is exact: the source's doubles agree with
-- it while the weighted sum stays below 2^53.
pub mod Rounding
use sonsteng_magnum_opus.Prelude.{ℕ, ◌+◌, ◌*◌, ◌/◌, leb, if◌then◌else◌}
use sonsteng_magnum_opus.Prelude.Value.{Value, nat, max_safe_integer}

abbrev pub input_rate : ℕ
input_rate = 100

abbrev pub output_rate : ℕ
output_rate = 500

abbrev pub cache_read_rate : ℕ
cache_read_rate = 10

abbrev pub cache_write_rate : ℕ
cache_write_rate = 125

-- The fields of a provider's usage; one that is left out is `undefined`.
pub record Usage : Type 0 where
  pub input_tokens : Value
  pub output_tokens : Value
  pub thought_tokens : Value
  pub cache_creation_input_tokens : Value
  pub cache_read_input_tokens : Value

unfoldable pub normalize_token_count : Value → ℕ
normalize_token_count (nat n) = if leb n max_safe_integer then n else 0
normalize_token_count _ = 0

-- `Math.ceil(micro / 1_000_000)`
unfoldable pub ceil_cents : ℕ → ℕ
ceil_cents micro = (micro + 999999) / 1000000

-- `micro` in `centsForUsage`.
unfoldable pub micro_for_usage : Usage → ℕ
micro_for_usage u =
    normalize_token_count u.input_tokens * input_rate
    + (normalize_token_count u.output_tokens + normalize_token_count u.thought_tokens) * output_rate
    + normalize_token_count u.cache_creation_input_tokens * cache_write_rate
    + normalize_token_count u.cache_read_input_tokens * cache_read_rate

unfoldable pub cents_for_usage : Usage → ℕ
unfolding micro_for_usage ceil_cents
cents_for_usage u = ceil_cents (micro_for_usage u)

unfoldable pub worst_case_reserve_cents : ℕ → ℕ → ℕ
unfolding ceil_cents
worst_case_reserve_cents input_tokens_estimate max_output_tokens =
    ceil_cents (input_tokens_estimate * input_rate + max_output_tokens * output_rate)
