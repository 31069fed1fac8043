-- ===== src/BurnTokens/Price.antt =====
-- The reference price: the pool's `sqrt_price`, and the floor under the swap's output.
use toggld_program.Base.{
  ℕ, ◌+◌, ◌*◌, ◌/◌, ◌^◌, List, [], ◌∷◌, leb, u128_size, checked_mul, checked_sub, length, slice,
}
use toggld_program.Outcome.{
  Result, ok, code, ◌>>=◌, ◌>>◌, require, ok_or, or_panic, math_overflow, malformed_pool_account,
}

-- `u128::from_le_bytes`
abbrev pub from_le_bytes : List ℕ → ℕ
from_le_bytes [] = 0
from_le_bytes (b ∷ bs) = b + 256 * from_le_bytes bs

-- The sum `offset + 16` is of constants and does not overflow.
unfoldable pub read_pool_sqrt_price : List ℕ → ℕ → Result ℕ
read_pool_sqrt_price bytes offset = do
  let end = offset + 16
  require (leb end (length bytes)) malformed_pool_account
  ok (from_le_bytes (slice bytes offset end))

abbrev pub q64 : ℕ
q64 = 2 ^ 64

-- Step 2b. The square root of the price is positive, as the caller has checked; `/` does not panic.
unfoldable pub price_floor : ℕ → ℕ → ℕ → Result ℕ
price_floor sweep sqrt_price max_slippage_bps = do
  scaled ← ok_or (checked_mul u128_size sweep q64) (code math_overflow)
  let t = scaled / sqrt_price
  scaled_again ← ok_or (checked_mul u128_size t q64) (code math_overflow)
  let expected_out = scaled_again / sqrt_price
  keep ← or_panic (checked_sub 10_000 max_slippage_bps)
  product ← ok_or (checked_mul u128_size expected_out keep) (code math_overflow)
  ok (product / 10_000)
