-- ===== src/Pure/MinRaise.antt =====
-- The minimum raise: `require_min_raise` of programs/toggld/src/pure.rs.
use toggld_program.Base.{
  ℕ, ◌+◌, ◌*◌, ◌/◌, ◌≤◌, ◌<◌, ◌≡◌, ◌↔◌, arith, leb, if◌then◌else◌, u64_size, u16_size, u128_size,
}
use toggld_program.Outcome.{ok, err, code, bid_too_low}
use toggld_program.Pure.{require_min_raise}

-- On a `u64` base and bid and a `u16` rate the `u128` products do not overflow.
product-lt :
    (base rate : ℕ) → base < u64_size → rate < u16_size → base * (10_000 + rate) < u128_size
product-lt base rate hb hr = grind arith

-- On machine-width arguments the test never overflows: it accepts the bid when
-- `base * (10000 + rate) ≤ bid * 10000` and otherwise returns `BidTooLow`.
pub require_min_raise-decides :
    (base bid rate : ℕ)
    → base < u64_size
    → bid < u64_size
    → rate < u16_size
    → require_min_raise base bid rate
      ≡ (if leb (base * (10_000 + rate)) (bid * 10_000) then ok tt else err (code bid_too_low))
unfolding require_min_raise
require_min_raise-decides base bid rate hb hd hr = ground (arith, product-lt base rate hb hr)

-- The least bid that a rate allows over a base: the exact raise, rounded up.
abbrev pub min_raise_amount : ℕ → ℕ → ℕ
min_raise_amount base rate = (base * (10_000 + rate) + 9_999) / 10_000

-- On machine-width arguments the accepted bids are exactly those from `min_raise_amount` on, the
-- exact raise `base * (10000 + rate) / 10000` rounded up.
pub require_min_raise_iff :
    (base bid rate : ℕ)
    → base < u64_size
    → bid < u64_size
    → rate < u16_size
    → (require_min_raise base bid rate ≡ ok tt) ↔ (min_raise_amount base rate ≤ bid)
require_min_raise_iff base bid rate hb hd hr =
    ground (arith, require_min_raise-decides base bid rate hb hd hr)

-- An accepted bid is a raise at the rate at least, whatever the widths.
pub require_min_raise-raises :
    (base bid rate : ℕ)
    → require_min_raise base bid rate ≡ ok tt
    → base * (10_000 + rate) ≤ bid * 10_000
unfolding require_min_raise
require_min_raise-raises base bid rate h = ground arith
