-- ===== src/BurnTokens/Floor.antt =====
-- The price floor against the exact price.
use toggld_program.Base.{ℕ, ◌+◌, ◌-◌, ◌*◌, ◌/◌, ◌≤◌, ◌<◌, ◌≡◌, arith, u64_size}
use toggld_program.Outcome.{ok}
use toggld_program.BurnTokens.Price.{price_floor, q64}

-- The output that the two divisions compute.
abbrev pub expected_out : ℕ → ℕ → ℕ
expected_out sweep sqrt_price = sweep * q64 / sqrt_price * q64 / sqrt_price

price_floor-eq :
    (sweep sqrt_price slippage : ℕ) {floor : ℕ}
    → price_floor sweep sqrt_price slippage ≡ ok floor
    → (floor ≡ expected_out sweep sqrt_price * (10_000 - slippage) / 10_000) × (slippage ≤ 10_000)
unfolding price_floor
price_floor-eq sweep sqrt_price slippage h = ground arith

scale : {a b : ℕ} (c : ℕ) → a ≤ b → a * c ≤ b * c
scale c h = grind arith

quotient_below : (a t e p q : ℕ) → t * p ≤ a → e * p ≤ t * q → e * (p * p) ≤ a * q
quotient_below a t e p q h k =
    omega (arith, scale {a = t * p} {b = a} q h, scale {a = e * p} {b = t * q} p k)

quotient_above :
    (a t e p q : ℕ)
    → 0 < p
    → 0 < q
    → a < (t + 1) * p
    → t * q < (e + 1) * p
    → a * q < (e + 1) * (p * p) + q * p
quotient_above a t e p q hp hq h k = omega (
  arith,
  scale {a = a + 1} {b = (t + 1) * p} q (omega arith),
  scale {a = t * q + 1} {b = (e + 1) * p} p (omega arith),
)

-- Two rounded divisions by the square root of the price stay below the exact quotient, by less than
-- the slack `q64 / sqrt_price + 1`.
expected_out_bounds :
    (sweep p : ℕ)
    → 0 < p
    → (expected_out sweep p * (p * p) ≤ sweep * (q64 * q64))
      × (sweep * (q64 * q64) < (expected_out sweep p + 1) * (p * p) + q64 * p)
expected_out_bounds sweep p h =
    let a = sweep * q64 in
    let t = a / p in
    let e = t * q64 / p in
    let below = quotient_below a t e p q64 (grind arith) (grind arith) in
    let above = quotient_above a t e p q64 h (omega arith) (grind arith) (grind arith) in
    (omega (arith, below), omega (arith, above))

-- For a `u64` sweep below the square root of the price, which is 10000 or more, and a slippage of at
-- most 10000 basis points, the floor is computed: nothing overflows.
pub price_floor_total :
    (sweep p slippage : ℕ)
    → sweep < p
    → sweep < u64_size
    → 10_000 ≤ p
    → slippage ≤ 10_000
    → price_floor sweep p slippage ≡ ok (expected_out sweep p * (10_000 - slippage) / 10_000)
unfolding price_floor
price_floor_total sweep p slippage less fits large hs =
    let t = sweep * q64 / p in
    let e = t * q64 / p in
    let t_small : t < q64 = grind arith in
    let e_small : e * p ≤ t * q64 = grind arith in
    let keep : e * (10_000 - slippage) ≤ e * p = grind arith in
    ground (arith, t_small, e_small, keep)

-- The floor lies between the exact output at the pool's price, less the slippage, and that output
-- less what the rounding takes: for the square root `p` of the price in units of `2^64`, the exact
-- output is `sweep * 2^128 / p^2`.
pub price_floor_bounds :
    (sweep p slippage : ℕ) {floor : ℕ}
    → 0 < p
    → price_floor sweep p slippage ≡ ok floor
    → (floor * 10_000 * (p * p) ≤ sweep * (q64 * q64) * (10_000 - slippage))
      × (sweep * (q64 * q64) * (10_000 - slippage)
          ≤ ((floor + 1) * 10_000 + (10_000 - slippage)) * (p * p) + q64 * p * (10_000 - slippage))
price_floor_bounds sweep p slippage {floor} pos_p h =
    let e = expected_out sweep p in
    let k = 10_000 - slippage in
    let (floor_eq, _) = price_floor-eq sweep p slippage h in
    let (below, above) = expected_out_bounds sweep p pos_p in
    let low : floor * 10_000 ≤ e * k = omega (arith, floor_eq) in
    let high : e * k ≤ (floor + 1) * 10_000 = omega (arith, floor_eq) in
    (
      omega (arith, scale (p * p) low, scale k below),
      omega (
        arith,
        scale (p * p) high,
        scale {a = sweep * (q64 * q64)} {b = (e + 1) * (p * p) + q64 * p} k (omega (arith, above)),
      ),
    )
