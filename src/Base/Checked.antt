-- ===== src/Base/Checked.antt =====
-- Rust's checked and saturating operations on the unsigned integers of the program: a value is a
-- natural number, and a `w`-bit operation tests its result against `2 ^ w`.
use Prim.Native.Nat.{ℕ, ◌+◌, ◌-◌, ◌*◌, ◌/◌, ◌^◌, min}
use mathlib.Core.Option.{Option, none, some}
use toggld_program.Base.Tests.{ltb, leb, ◌==◌, if◌then◌else◌}
use toggld_program.Base.Int.{ℤ, ◌+ℤ◌, ◌-ℤ◌, ltb_ℤ, fits_i64, i64_max, i64_min}

-- The numbers of values of `u16`, `u64` and `u128`.
abbrev pub u16_size : ℕ
u16_size = 2 ^ 16

abbrev pub u64_size : ℕ
u64_size = 2 ^ 64

abbrev pub u128_size : ℕ
u128_size = 2 ^ 128

module _ (size : ℕ) where
  abbrev pub checked_add : ℕ → ℕ → Option ℕ
  checked_add a b = if ltb (a + b) size then some (a + b) else none

  abbrev pub checked_mul : ℕ → ℕ → Option ℕ
  checked_mul a b = if ltb (a * b) size then some (a * b) else none

  abbrev pub try_from : ℕ → Option ℕ
  try_from a = if ltb a size then some a else none

  abbrev pub saturating_mul : ℕ → ℕ → ℕ
  saturating_mul a b = min (a * b) (size - 1)

abbrev pub checked_sub : ℕ → ℕ → Option ℕ
checked_sub a b = if leb b a then some (a - b) else none

abbrev pub checked_div : ℕ → ℕ → Option ℕ
checked_div a b = if b == 0 then none else some (a / b)

-- On `i64`.
abbrev pub checked_add_i64 : ℤ → ℤ → Option ℤ
checked_add_i64 a b = if fits_i64 (a +ℤ b) then some (a +ℤ b) else none

-- A result outside the range stops at its nearer end.
abbrev pub saturate_i64 : ℤ → ℤ
saturate_i64 a = if ltb_ℤ i64_max a then i64_max else if ltb_ℤ a i64_min then i64_min else a

abbrev pub saturating_add_i64 : ℤ → ℤ → ℤ
saturating_add_i64 a b = saturate_i64 (a +ℤ b)

abbrev pub saturating_sub_i64 : ℤ → ℤ → ℤ
saturating_sub_i64 a b = saturate_i64 (a -ℤ b)
