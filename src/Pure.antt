-- ===== src/Pure.antt =====
-- programs/toggld/src/pure.rs: the arithmetic of bids, windows, splits and vesting.
pub mod MinRaise
pub mod Window
pub mod Split
pub mod Vesting
use toggld_program.Base.{
  ℕ, ◌+◌, ◌-◌, ◌*◌, ◌/◌, ◌%◌, ◌==◌, leb, if◌then◌else◌, u64_size, u128_size, checked_add,
  checked_mul, checked_sub, checked_div, try_from, saturating_mul, checked_add_i64,
  saturating_add_i64, some, none, Option,
}
use toggld_program.Base.Int.{ℤ, pos, negsuc, ◌-ℤ◌, leb_ℤ, fits_i64}
use toggld_program.Outcome.{
  Result, ok, err, code, ◌>>=◌, ◌>>◌, require, ok_or, or_panic, math_overflow, bid_too_low,
}

unfoldable pub require_min_raise : ℕ → ℕ → ℕ → Result (Unit {0})
require_min_raise base bid min_raise_bps = do
  factor ← ok_or (checked_add u128_size 10_000 min_raise_bps) (code math_overflow)
  required_scaled ← ok_or (checked_mul u128_size base factor) (code math_overflow)
  bid_scaled ← ok_or (checked_mul u128_size bid 10_000) (code math_overflow)
  require (leb required_scaled bid_scaled) bid_too_low

unfoldable pub compute_window_reset : ℕ → ℤ → Result ℤ
compute_window_reset base_window_secs now =
    ok_or (checked_add_i64 now (pos base_window_secs)) (code math_overflow)

unfoldable pub compute_split : ℕ → ℕ → Result (ℕ × ℕ)
compute_split winning_price fee_bps = do
  scaled ← ok_or (checked_mul u128_size winning_price fee_bps) (code math_overflow)
  fee_wide ← ok_or (checked_div scaled 10_000) (code math_overflow)
  fee_amount ← ok_or (try_from u64_size fee_wide) (code math_overflow)
  burn_amount ← ok_or (checked_sub winning_price fee_amount) (code math_overflow)
  total ← ok_or (checked_add u64_size fee_amount burn_amount) (code math_overflow)
  require (total == winning_price) math_overflow
  ok (fee_amount, burn_amount)

-- `as u128`: a negative number is sign-extended.
abbrev pub as_u128 : ℤ → ℕ
as_u128 (pos n) = n
as_u128 (negsuc n) = u128_size - 1 - n

-- `a - b` on `i64`, which panics on overflow.
abbrev pub sub_i64 : ℤ → ℤ → Option ℤ
sub_i64 a b = if fits_i64 (a -ℤ b) then some (a -ℤ b) else none

unfoldable pub compute_vested_unlocked : ℕ → ℤ → ℤ → ℤ → Result ℕ
compute_vested_unlocked total start_ts duration_secs now =
    if leb_ℤ now start_ts
    then ok 0
    else if leb_ℤ duration_secs (pos 0)
    then ok total
    else if leb_ℤ (saturating_add_i64 start_ts duration_secs) now
    then ok total
    else do
      difference ← or_panic (sub_i64 now start_ts)
      let elapsed = as_u128 difference
      let duration = as_u128 duration_secs
      let unlocked = saturating_mul u128_size total elapsed / duration
      ok (unlocked % u64_size)
