-- ===== src/WithdrawTreasury.antt =====
-- programs/toggld/src/instructions/withdraw_treasury.rs: the admin pays the treasury its balance.
pub mod Effect
use toggld_program.Base.{ℕ, ◌≡◌, some, ◌==◌, ltb}
use toggld_program.Base.Int.{ℤ}
use toggld_program.Constants.{Pubkey}
use toggld_program.State.{GlobalState}
use toggld_program.Outcome.{
  Result, ok, constraint, ◌>>=◌, ◌>>◌, require, ok_or, not_initialized, unauthorized,
  invalid_treasury_account, nothing_to_withdraw, constrain, seeds,
}
use toggld_program.Runtime.{Runtime, vault}
use toggld_program.World.{World, emit}
use toggld_program.Events.{treasury_withdrawn}

-- What a caller supplies.
pub record WithdrawTreasuryAccounts : Type 0 where
  pub admin : Pubkey
  pub treasury : Pubkey

module _ (rt : Runtime) where
  unfoldable pub run_withdraw_treasury :
      ℤ → WithdrawTreasuryAccounts → GlobalState → World → Result World
  run_withdraw_treasury now ctx gs w = do
    require (ctx.admin == gs.admin) unauthorized
    constrain (gs.vault_bump == rt.bump vault) seeds
    require (ctx.treasury == gs.treasury) invalid_treasury_account
    require (ltb 0 gs.treasury_balance) nothing_to_withdraw
    let amount = gs.treasury_balance
    lamports ← rt.transfer (rt.address vault) ctx.treasury amount w.lamports
    ok (
        emit
          (treasury_withdrawn (record {
            admin = ctx.admin;
            treasury = ctx.treasury;
            amount = amount;
            timestamp = now;
          }))
          (record w {
            lamports = lamports;
            global_state = some (record gs { treasury_balance = 0 });
          }))

  unfoldable pub withdraw_treasury : ℤ → WithdrawTreasuryAccounts → World → Result World
  withdraw_treasury now ctx w = do
    gs ← ok_or w.global_state (constraint not_initialized)
    run_withdraw_treasury now ctx gs w
