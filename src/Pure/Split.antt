-- ===== src/Pure/Split.antt =====
-- The split of a winning bid: `compute_split` of programs/toggld/src/pure.rs.
use toggld_program.Base.{ℕ, ◌+◌, ◌-◌, ◌*◌, ◌/◌, ◌≤◌, ◌<◌, ◌≡◌, arith, u64_size, u128_size}
use toggld_program.Outcome.{ok}
use toggld_program.Pure.{compute_split}

scaled-lt : (price rate : ℕ) → price < u64_size → rate ≤ 10_000 → price * rate < u128_size
scaled-lt price rate hp hr = grind arith

fee-le : (price rate : ℕ) → rate ≤ 10_000 → price * rate ≤ price * 10_000
fee-le price rate hr = grind arith

-- For a `u64` price and a rate of at most 10000 basis points the split succeeds: the fee is
-- `price * rate / 10000` rounded down, and the burn is the rest of the price.
pub compute_split-eq :
    (price rate : ℕ)
    → price < u64_size
    → rate ≤ 10_000
    → compute_split price rate ≡ ok (price * rate / 10_000, price - price * rate / 10_000)
unfolding compute_split
compute_split-eq price rate hp hr = ground (arith, scaled-lt price rate hp hr, fee-le price rate hr)

-- Whenever the split succeeds, for any price and rate, fee and burn add up to the price and the
-- fee is the exact share rounded down.
pub compute_split_conserves :
    (price rate : ℕ) {fee burn : ℕ}
    → compute_split price rate ≡ ok (fee, burn)
    → (fee + burn ≡ price) × (fee * 10_000 ≤ price * rate) × (price * rate < (fee + 1) * 10_000)
unfolding compute_split
compute_split_conserves price rate h = ground arith
