-- ===== src/Pure/Window.antt =====
-- The deadline of a bidding window: `compute_window_reset` of programs/toggld/src/pure.rs.
use toggld_program.Base.{ℕ, ◌≡◌, arith, if◌then◌else◌}
use toggld_program.Base.Int.{ℤ, pos, ◌+ℤ◌, i64_max, InI64, leb_ℤ}
use toggld_program.Outcome.{ok, err, code, math_overflow}
use toggld_program.Pure.{compute_window_reset}

-- From an `i64` time the deadline is exactly `now + base`, and the only failure is a deadline past
-- the greatest `i64`.
pub compute_window_reset-decides :
    (base : ℕ) (now : ℤ)
    → InI64 now
    → compute_window_reset base now
      ≡ (if leb_ℤ (now +ℤ pos base) i64_max then ok (now +ℤ pos base) else err (code math_overflow))
unfolding compute_window_reset ◌+ℤ◌
compute_window_reset-decides base now h = ground arith

-- A deadline that is returned lies exactly `base` seconds after `now`, in the range of an `i64`.
pub compute_window_reset-eq :
    (base : ℕ) (now : ℤ) {deadline : ℤ}
    → compute_window_reset base now ≡ ok deadline
    → (deadline ≡ now +ℤ pos base) × InI64 deadline
unfolding compute_window_reset
compute_window_reset-eq base now h = ground arith
