-- ===== src/BurnTokens.antt =====
-- programs/toggld/src/instructions/burn_tokens.rs: the sweep of the burn vault into tokens, which
-- are burned.
pub mod Price
pub mod Floor
pub mod Effect
pub mod Burn
use toggld_program.Base.{
  ℕ, ◌-◌, ◌≡◌, Bool, true, false, not, Option, none, some, List, ◌==◌, ◌||◌, if◌then◌else◌, ltb,
  leb, u64_size, checked_add, checked_sub, is_some,
}
use toggld_program.Constants.{
  Pubkey, wsol_mint, venue_dbc_curve, venue_damm_v2, min_sweep_lamports, max_slippage_bps_ceiling,
}
use toggld_program.State.{TokenConfig}
use toggld_program.Outcome.{
  Result, ok, err, code, constraint, ◌>>=◌, ◌>>◌, require, constrain, ok_or, address,
  not_initialized, math_overflow, invalid_venue, sweep_below_rent_exempt, nothing_to_sweep,
  min_out_zero, slippage_tolerance_too_wide, slippage_floor_not_met, malformed_pool_account, seeds,
}
use toggld_program.Runtime.{Runtime, Balances, burn_vault}
use toggld_program.Programs.{Programs, Bank}
use toggld_program.World.{World, emit, open_at}
use toggld_program.Events.{tokens_burned}
use toggld_program.DbcCpi.{
  Swap2Accounts, dbc_program_id, damm_v2_program_id, exact_in, mode_byte, swap2,
}
use Price.{price_floor, read_pool_sqrt_price}

-- What a caller supplies.
pub record BurnTokensAccounts : Type 0 where
  pub caller : Pubkey
  pub mint : Pubkey
  pub wsol_mint : Pubkey
  pub dbc_pool_authority : Pubkey
  pub dbc_config : Option Pubkey
  pub dbc_pool : Pubkey
  pub dbc_base_vault : Pubkey
  pub dbc_quote_vault : Pubkey
  pub dbc_event_authority : Pubkey
  pub dbc_program : Pubkey
  pub token_program : Pubkey

abbrev pub dbc_pool_sqrt_price_offset : ℕ
dbc_pool_sqrt_price_offset = 280

abbrev pub damm_v2_pool_sqrt_price_offset : ℕ
damm_v2_pool_sqrt_price_offset = 456

-- The `address` constraint of an optional account.
abbrev pub config_matches : Option Pubkey → Pubkey → Bool
config_matches none k = true
config_matches (some c) k = c == k

-- Step 0: the program of the venue.
unfoldable pub route : BurnTokensAccounts → TokenConfig → Result Pubkey
route ctx config = do
  program_id ←
      if config.venue == venue_dbc_curve
      then ok dbc_program_id
      else if config.venue == venue_damm_v2
      then ok damm_v2_program_id
      else err (code invalid_venue)
  require (ctx.dbc_program == program_id) invalid_venue
  require (not (config.venue == venue_dbc_curve) || is_some ctx.dbc_config) invalid_venue
  ok program_id

-- Where the pool of the configured venue keeps the square root of its price.
abbrev pub sqrt_price_offset : TokenConfig → ℕ
sqrt_price_offset config =
    if config.venue == venue_dbc_curve
    then dbc_pool_sqrt_price_offset
    else damm_v2_pool_sqrt_price_offset

-- Steps 1 and 2: the lamports above the rent, and the guards on the arguments.
unfoldable pub sweep_of : ℕ → ℕ → ℕ → TokenConfig → Result ℕ
sweep_of rent vault_lamports min_out config = do
  sweep ← ok_or (checked_sub vault_lamports rent) (code sweep_below_rent_exempt)
  require (leb min_sweep_lamports sweep) nothing_to_sweep
  require (ltb 0 min_out) min_out_zero
  require (leb config.max_slippage_bps max_slippage_bps_ceiling) slippage_tolerance_too_wide
  ok sweep

-- Step 2b: the least output may not be below the floor at the pool's price.
unfoldable pub check_floor : List ℕ → TokenConfig → ℕ → ℕ → Result (Unit {0})
check_floor pool_data config sweep min_out = do
  sqrt_price ← read_pool_sqrt_price pool_data (sqrt_price_offset config)
  require (ltb 0 sqrt_price) malformed_pool_account
  floor ← price_floor sweep sqrt_price config.max_slippage_bps
  require (leb floor min_out) slippage_floor_not_met

module _ (rt : Runtime) (pr : Programs) where
  -- The vault's associated accounts for the token and for wrapped lamports.
  abbrev pub toggld_ata : BurnTokensAccounts → Pubkey
  toggld_ata ctx = pr.ata (rt.address burn_vault) ctx.mint

  abbrev pub wsol_ata : BurnTokensAccounts → Pubkey
  wsol_ata ctx = pr.ata (rt.address burn_vault) ctx.wsol_mint

  -- The constraints on the accounts, by their seeds and addresses.
  unfoldable pub check_burn_accounts : BurnTokensAccounts → TokenConfig → World → Result (Unit {0})
  check_burn_accounts ctx config w = do
    constrain (config.burn_vault_bump == rt.bump burn_vault) seeds
    constrain (ctx.mint == config.toggld_mint) address
    constrain (ctx.wsol_mint == wsol_mint) address
    constrain (w.token_accounts (toggld_ata ctx)) not_initialized
    constrain (config_matches ctx.dbc_config config.venue_config) address
    constrain (ctx.dbc_pool == config.pool_address) address

  -- What the called programs can change.
  abbrev pub bank_of : World → Bank
  bank_of w = record {
    lamports = w.lamports;
    tokens = w.tokens;
    supply = w.supply;
    token_accounts = w.token_accounts;
    pool_data = w.pool_data;
  }

  -- `init_if_needed` of the wrapped account, at the caller's cost.
  unfoldable pub open_wsol_ata : BurnTokensAccounts → World → Result Bank
  open_wsol_ata ctx w = if w.token_accounts (wsol_ata ctx) then ok (bank_of w) else (do
    lamports ← rt.init ctx.caller (wsol_ata ctx) pr.token_account_space w.lamports
    ok (record (bank_of w) {
      lamports = lamports;
      token_accounts = open_at w.token_accounts (wsol_ata ctx);
    }))

  -- Step 3: the swept lamports are wrapped.
  unfoldable pub wrap : BurnTokensAccounts → ℕ → Bank → Result Bank
  wrap ctx sweep b = do
    lamports ← rt.transfer (rt.address burn_vault) (wsol_ata ctx) sweep b.lamports
    pr.sync_native (wsol_ata ctx) (record b { lamports = lamports })

  abbrev pub swap_accounts : BurnTokensAccounts → Swap2Accounts
  swap_accounts ctx = record {
    pool_authority = ctx.dbc_pool_authority;
    config = ctx.dbc_config;
    pool = ctx.dbc_pool;
    input_token_account = wsol_ata ctx;
    output_token_account = toggld_ata ctx;
    base_vault = ctx.dbc_base_vault;
    quote_vault = ctx.dbc_quote_vault;
    base_mint = ctx.mint;
    quote_mint = ctx.wsol_mint;
    payer = rt.address burn_vault;
    token_base_program = ctx.token_program;
    token_quote_program = ctx.token_program;
    referral_token_account = none;
    event_authority = ctx.dbc_event_authority;
    dbc_program = ctx.dbc_program;
  }

  -- Step 4: the swap, with `min_out` as its least output.
  unfoldable pub swap : BurnTokensAccounts → Pubkey → ℕ → ℕ → Bank → Result Bank
  swap ctx program_id sweep min_out =
      swap2 pr (swap_accounts ctx)
        (record { amount_0 = sweep; amount_1 = min_out; swap_mode = mode_byte exact_in }) program_id

  -- Steps 5 and 6: what was received is burned, and the wrapped account is closed into the vault.
  unfoldable pub burn_received : BurnTokensAccounts → ℕ → Bank → Result (ℕ × Bank)
  burn_received ctx before b = do
    received ← ok_or (checked_sub (b.tokens (toggld_ata ctx)) before) (code math_overflow)
    require (ltb 0 received) nothing_to_sweep
    burned ← pr.token_burn ctx.mint (toggld_ata ctx) received b
    closed ← pr.close_account (wsol_ata ctx) (rt.address burn_vault) burned
    ok (received, closed)

  -- Step 7: the counter and the event.
  unfoldable pub count_burned : ℕ → ℕ → TokenConfig → Bank → World → Result World
  count_burned sweep received config b w = do
    total ← ok_or (checked_add u64_size config.total_tokens_burned received) (code math_overflow)
    ok (
        emit
          (tokens_burned
            (record { sol_swapped = sweep; tokens_received = received; tokens_burned = received }))
          (record w {
            lamports = b.lamports;
            tokens = b.tokens;
            supply = b.supply;
            token_accounts = b.token_accounts;
            pool_data = b.pool_data;
            token_config = some (record config { total_tokens_burned = total });
          }))

  unfoldable pub run_burn_tokens : BurnTokensAccounts → ℕ → TokenConfig → World → Result World
  run_burn_tokens ctx min_out config w = do
    check_burn_accounts ctx config w
    opened ← open_wsol_ata ctx w
    program_id ← route ctx config
    sweep ← sweep_of (rt.minimum_balance 0) (opened.lamports (rt.address burn_vault)) min_out config
    check_floor (w.pool_data ctx.dbc_pool) config sweep min_out
    wrapped ← wrap ctx sweep opened
    swapped ← swap ctx program_id sweep min_out wrapped
    (received, b) ← burn_received ctx (w.tokens (toggld_ata ctx)) swapped
    count_burned sweep received config b w

  unfoldable pub burn_tokens : BurnTokensAccounts → ℕ → World → Result World
  burn_tokens ctx min_out w = do
    config ← ok_or w.token_config (constraint not_initialized)
    run_burn_tokens ctx min_out config w
