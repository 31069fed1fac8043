-- ===== src/WithdrawTreasury/Effect.antt =====
-- What a successful withdrawal has done.
use toggld_program.Base.{◌<◌, ◌≡◌, some, arith}
use toggld_program.Base.Int.{ℤ}
use toggld_program.State.{GlobalState}
use toggld_program.Outcome.{ok}
use toggld_program.Runtime.{Runtime, vault, Moves}
use toggld_program.World.{World, emit}
use toggld_program.Events.{treasury_withdrawn}
use toggld_program.WithdrawTreasury.{WithdrawTreasuryAccounts, run_withdraw_treasury}

-- Only the admin withdraws, and only to the treasury: the whole balance leaves the vault, and of
-- the program's accounts nothing but the balance changes.
pub withdraw_treasury_effect :
    (rt : Runtime) (now : ℤ) (ctx : WithdrawTreasuryAccounts) (gs : GlobalState) (w w' : World)
    → run_withdraw_treasury rt now ctx gs w ≡ ok w'
    → (ctx.admin ≡ gs.admin)
      × (ctx.treasury ≡ gs.treasury)
      × (0 < gs.treasury_balance)
      × Moves w.lamports (rt.address vault) gs.treasury gs.treasury_balance w'.lamports
      × (w'
          ≡ emit
              (treasury_withdrawn (record {
                admin = gs.admin;
                treasury = gs.treasury;
                amount = gs.treasury_balance;
                timestamp = now;
              }))
              (record w {
                lamports = w'.lamports;
                global_state = some (record gs { treasury_balance = 0 });
              }))
unfolding run_withdraw_treasury
withdraw_treasury_effect rt now ctx gs w w' done = ground (
  arith,
  rt.transfer_moves (rt.address vault) gs.treasury gs.treasury_balance w.lamports w'.lamports,
)
