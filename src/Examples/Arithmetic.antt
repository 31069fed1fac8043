-- ===== src/Examples/Arithmetic.antt =====
-- The theorems on the pure functions and on the swap's floor and accounts, at concrete inputs.
use toggld_program.Base.{◌+◌, ◌*◌, ◌≤◌, ◌≡◌, some, none, arith}
use toggld_program.Base.Int.{pos, ◌+ℤ◌, ◌-ℤ◌}
use toggld_program.Outcome.{ok}
use toggld_program.Pure.{
  require_min_raise, compute_window_reset, compute_split, compute_vested_unlocked,
}
use toggld_program.Pure.MinRaise.{require_min_raise_iff}
use toggld_program.Pure.Window.{compute_window_reset-decides}
use toggld_program.Pure.Split.{compute_split-eq, compute_split_conserves}
use toggld_program.Pure.Vesting.{compute_vested_unlocked-eq-linear_release}
use toggld_program.BurnTokens.Price.{price_floor, q64}
use toggld_program.BurnTokens.Floor.{price_floor_bounds, price_floor_total}
use toggld_program.DbcCpi.{Swap2Accounts, swap2_metas, swap2_infos}
use toggld_program.DbcCpi.Layout.{swap2_well_formed, swap2_layouts, pubkeys}
use toggld_program.Base.{length}

-- A bid of 105 on a price of 100 at 5 percent.
require_min_raise_iff_example : require_min_raise 100 105 500 ≡ ok tt
require_min_raise_iff_example =
    (require_min_raise_iff 100 105 500 (omega arith) (omega arith) (omega arith)).1 (omega arith)

compute_window_reset-decides_example : compute_window_reset 30 (pos 1_000) ≡ ok (pos 1_030)
unfolding ◌+ℤ◌
compute_window_reset-decides_example = compute_window_reset-decides 30 (pos 1_000) (omega arith)

compute_split-eq_example : compute_split 1_000_007 1_500 ≡ ok (150_001, 850_006)
compute_split-eq_example = compute_split-eq 1_000_007 1_500 (omega arith) (omega arith)

compute_split_conserves_example : 150_001 + 850_006 ≡ 1_000_007
compute_split_conserves_example =
    let (sum, _, _) =
      compute_split_conserves 1_000_007 1_500 {fee = 150_001} {burn = 850_006}
        compute_split-eq_example in
    sum

compute_vested_unlocked-eq-linear_release_example :
    compute_vested_unlocked 1_000 (pos 100) (pos 400) (pos 200) ≡ ok 250
unfolding ◌-ℤ◌
compute_vested_unlocked-eq-linear_release_example =
    compute_vested_unlocked-eq-linear_release 1_000 (pos 100) (pos 400) (pos 200) (omega arith)
      (omega arith) (omega arith) (omega arith) (omega arith)

-- 10000000 lamports at a price whose square root is 2 swap into 2500000, less 1 percent.
price_floor_total_example : price_floor 10_000_000 (2 * q64) 100 ≡ ok 2_475_000
price_floor_total_example =
    price_floor_total 10_000_000 (2 * q64) 100 (omega arith) (omega arith) (omega arith)
      (omega arith)

price_floor_bounds_example :
    2_475_000 * 10_000 * (2 * q64 * (2 * q64)) ≤ 10_000_000 * (q64 * q64) * 9_900
price_floor_bounds_example =
    (price_floor_bounds 10_000_000 (2 * q64) 100 {floor = 2_475_000} (omega arith)
      price_floor_total_example).0

abbrev swap_example : Swap2Accounts
swap_example = record {
  pool_authority = 1;
  config = some 2;
  pool = 3;
  input_token_account = 4;
  output_token_account = 5;
  base_vault = 6;
  quote_vault = 7;
  base_mint = 8;
  quote_mint = 9;
  payer = 10;
  token_base_program = 11;
  token_quote_program = 12;
  referral_token_account = none;
  event_authority = 13;
  dbc_program = 14;
}

swap2_well_formed_example : pubkeys (swap2_metas swap_example 14) ≡ swap2_infos swap_example
swap2_well_formed_example = (swap2_well_formed swap_example).0

swap2_layouts_example : length (swap2_metas swap_example 14) ≡ 15
swap2_layouts_example = let (_, count, _) = swap2_layouts swap_example 14 2 in count
