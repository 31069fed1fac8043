-- ===== src/TeamVesting.antt =====
-- programs/toggld/src/instructions/init_team_vesting.rs and claim_vested.rs: the lock of the team's
-- allocation, and the claims of what has been released.
pub mod Effect
use toggld_program.Base.{
  ℕ, ◌≡◌, Bool, not, Option, none, some, ◌==◌, ◌&&◌, ltb, is_some, u64_size, checked_add,
  checked_sub, saturating_sub_i64,
}
use toggld_program.Base.Int.{ℤ, leb_ℤ}
use toggld_program.Constants.{
  Pubkey, team_vesting_space, max_start_backdate_secs, min_duration_secs, max_duration_secs,
}
use toggld_program.State.{GlobalState}
use toggld_program.State
use toggld_program.Outcome.{
  Result, ok, code, constraint, ◌>>=◌, ◌>>◌, require, constrain, ok_or, already_in_use,
  not_initialized, math_overflow, unauthorized, invalid_vesting_amount, invalid_vesting_schedule,
  token_not_configured, vesting_not_started, nothing_vested_to_claim, seeds,
}
use toggld_program.Pure.{compute_vested_unlocked}
use toggld_program.Runtime.{Runtime, Balances, team_vesting}
use toggld_program.Programs.{Programs}
use toggld_program.World.{World, emit, open_at}
use toggld_program.Events.{team_vesting_initialized, vested_claimed}

-- What a caller of either instruction supplies.
pub record VestingAccounts : Type 0 where
  pub admin : Pubkey
  pub mint : Pubkey

-- The arguments of `init_team_vesting`.
pub record ScheduleArgs : Type 0 where
  pub total_amount : ℕ
  pub start_ts : ℤ
  pub duration_secs : ℤ

unfoldable pub check_schedule :
    ℤ → VestingAccounts → ScheduleArgs → GlobalState → World → Result (Unit {0})
check_schedule now ctx args gs w = do
  require (ctx.admin == gs.admin) unauthorized
  constrain (not (is_some w.team_vesting)) already_in_use
  require (ltb 0 args.total_amount) invalid_vesting_amount
  require (leb_ℤ (saturating_sub_i64 now max_start_backdate_secs) args.start_ts)
      invalid_vesting_schedule
  require (leb_ℤ min_duration_secs args.duration_secs && leb_ℤ args.duration_secs max_duration_secs)
      invalid_vesting_schedule

module _ (rt : Runtime) (pr : Programs) where
  -- The token account of the schedule, and the admin's.
  abbrev pub vesting_ata : VestingAccounts → Pubkey
  vesting_ata ctx = pr.ata (rt.address team_vesting) ctx.mint

  abbrev pub admin_ata : VestingAccounts → Pubkey
  admin_ata ctx = pr.ata ctx.admin ctx.mint

  -- The token accounts that `init_team_vesting` needs: the admin's is there, the schedule's is not.
  unfoldable pub check_vesting_accounts : VestingAccounts → World → Result (Unit {0})
  check_vesting_accounts ctx w = do
    constrain (not (w.token_accounts (vesting_ata ctx))) already_in_use
    constrain (w.token_accounts (admin_ata ctx)) not_initialized

  unfoldable pub fund_schedule : VestingAccounts → Balances → Result Balances
  fund_schedule ctx l = do
    l₁ ← rt.init ctx.admin (rt.address team_vesting) team_vesting_space l
    rt.init ctx.admin (vesting_ata ctx) pr.token_account_space l₁

  abbrev pub new_schedule : VestingAccounts → ScheduleArgs → State.TeamVesting
  new_schedule ctx args = record {
    mint = ctx.mint;
    total_amount = args.total_amount;
    start_ts = args.start_ts;
    duration_secs = args.duration_secs;
    claimed_amount = 0;
    bump = rt.bump team_vesting;
  }

  unfoldable pub run_init_team_vesting :
      ℤ → VestingAccounts → ScheduleArgs → GlobalState → World → Result World
  run_init_team_vesting now ctx args gs w = do
    check_vesting_accounts ctx w
    check_schedule now ctx args gs w
    lamports ← fund_schedule ctx w.lamports
    tokens ← pr.token_transfer (admin_ata ctx) (vesting_ata ctx) args.total_amount w.tokens
    ok (
        emit
          (team_vesting_initialized (record {
            mint = ctx.mint;
            total_amount = args.total_amount;
            start_ts = args.start_ts;
            duration_secs = args.duration_secs;
          }))
          (record w {
            lamports = lamports;
            token_accounts = open_at w.token_accounts (vesting_ata ctx);
            tokens = tokens;
            team_vesting = some (new_schedule ctx args);
          }))

  unfoldable pub init_team_vesting : ℤ → VestingAccounts → ScheduleArgs → World → Result World
  init_team_vesting now ctx args w = do
    gs ← ok_or w.global_state (constraint not_initialized)
    run_init_team_vesting now ctx args gs w

  unfoldable pub run_claim_vested :
      ℤ → VestingAccounts → GlobalState → State.TeamVesting → World → Result World
  run_claim_vested now ctx gs v w = do
    require (ctx.admin == gs.admin) unauthorized
    constrain (v.bump == rt.bump team_vesting) seeds
    require (ctx.mint == v.mint) token_not_configured
    constrain (w.token_accounts (vesting_ata ctx)) not_initialized
    constrain (w.token_accounts (admin_ata ctx)) not_initialized
    require (leb_ℤ v.start_ts now) vesting_not_started
    unlocked ← compute_vested_unlocked v.total_amount v.start_ts v.duration_secs now
    amount ← ok_or (checked_sub unlocked v.claimed_amount) (code math_overflow)
    require (ltb 0 amount) nothing_vested_to_claim
    tokens ← pr.token_transfer (vesting_ata ctx) (admin_ata ctx) amount w.tokens
    claimed_total ← ok_or (checked_add u64_size v.claimed_amount amount) (code math_overflow)
    ok (
        emit
          (vested_claimed
            (record { amount = amount; claimed_total = claimed_total; unlocked = unlocked }))
          (record w {
            tokens = tokens;
            team_vesting = some (record v { claimed_amount = claimed_total });
          }))

  unfoldable pub claim_vested : ℤ → VestingAccounts → World → Result World
  claim_vested now ctx w = do
    gs ← ok_or w.global_state (constraint not_initialized)
    v ← ok_or w.team_vesting (constraint not_initialized)
    run_claim_vested now ctx gs v w
