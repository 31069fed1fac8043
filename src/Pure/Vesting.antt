-- ===== src/Pure/Vesting.antt =====
-- The linear release: `compute_vested_unlocked` of programs/toggld/src/pure.rs.
use toggld_program.Base.{
  ℕ, ◌*◌, ◌/◌, ◌%◌, ◌≤◌, ◌<◌, ◌≡◌, arith, u64_size, u128_size, if◌then◌else◌, saturating_mul,
}
use toggld_program.Base.Int.{
  ℤ, ◌-ℤ◌, ◌≤ℤ◌, ◌<ℤ◌, leb_ℤ, i64_max, InI64, pos_part, +ℤ_parts, -ℤ_parts,
}
use toggld_program.Outcome.{ok}
use toggld_program.Pure.{compute_vested_unlocked}

-- The release as a schedule over unbounded integers: nothing up to the start, all from the end on
-- (at once after the start, for a duration of 0 or less), and the proportion of the elapsed time,
-- rounded down, in between.
abbrev pub linear_release : ℕ → ℤ → ℤ → ℤ → ℕ
linear_release total start duration now =
    if leb_ℤ now start
    then 0
    else if leb_ℤ duration (now -ℤ start)
    then total
    else total * pos_part (now -ℤ start) / pos_part duration

-- A share of less than the whole duration does not exceed the total, nor does the product
-- overflow.
pub share-le :
    (total elapsed duration : ℕ) → elapsed < duration → total * elapsed / duration ≤ total
share-le total elapsed duration h = grind arith

share_mono :
    (total elapsed later duration : ℕ)
    → elapsed ≤ later
    → total * elapsed / duration ≤ total * later / duration
share_mono total elapsed later duration h = grind arith

product-lt :
    (total elapsed : ℕ) → total < u64_size → elapsed < u64_size → total * elapsed < u128_size
product-lt total elapsed ht he = grind arith

share_exact :
    (total elapsed duration : ℕ)
    → total < u64_size
    → duration < u64_size
    → elapsed < duration
    → saturating_mul u128_size total elapsed / duration % u64_size ≡ total * elapsed / duration
share_exact total elapsed duration ht hd he =
    grind (arith, share-le total elapsed duration he, product-lt total elapsed)

-- On a `u64` total and `i64` times, before the last second of the `i64` range, the code does not
-- panic and returns exactly the linear release.
pub compute_vested_unlocked-eq-linear_release :
    (total : ℕ) (start duration now : ℤ)
    → total < u64_size
    → InI64 start
    → InI64 duration
    → InI64 now
    → now <ℤ i64_max
    → compute_vested_unlocked total start duration now
      ≡ ok (linear_release total start duration now)
unfolding compute_vested_unlocked
compute_vested_unlocked-eq-linear_release total start duration now ht hs hd hn hm = ground (
  arith,
  -ℤ_parts now start,
  +ℤ_parts start duration,
  share_exact total (pos_part (now -ℤ start)) (pos_part duration) ht,
)

-- Later times release no less, and no time releases more than the total.
pub linear_release_mono :
    (total : ℕ) (start duration now later : ℤ)
    → now ≤ℤ later
    → linear_release total start duration now ≤ linear_release total start duration later
linear_release_mono total start duration now later h = ground (
  arith,
  -ℤ_parts now start,
  -ℤ_parts later start,
  share-le total (pos_part (now -ℤ start)) (pos_part duration),
  share_mono total (pos_part (now -ℤ start)) (pos_part (later -ℤ start)) (pos_part duration),
)

pub linear_release-le :
    (total : ℕ) (start duration now : ℤ) → linear_release total start duration now ≤ total
linear_release-le total start duration now =
    ground (arith, -ℤ_parts now start, share-le total (pos_part (now -ℤ start)) (pos_part duration))
