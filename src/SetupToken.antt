-- ===== src/SetupToken.antt =====
-- programs/toggld/src/instructions/setup_token.rs: the one-time wiring of the token launch, which
-- turns the burn of later settlements to the burn vault.
pub mod Effect
use toggld_program.Base.{
  ℕ, ◌≡◌, Bool, true, false, not, Option, none, some, ◌==◌, ◌||◌, leb, is_some,
}
use toggld_program.Constants.{
  Pubkey, incinerator, venue_dbc_curve, venue_damm_v1, venue_damm_v2, max_slippage_bps_ceiling,
  token_config_space,
}
use toggld_program.State.{GlobalState, TokenConfig}
use toggld_program.Outcome.{
  Result, ok, constraint, ◌>>=◌, ◌>>◌, require, constrain, ok_or, already_in_use, address,
  not_initialized, unauthorized, token_already_configured, invalid_venue,
  slippage_tolerance_too_wide,
}
use toggld_program.Runtime.{Runtime, Balances, token_config, burn_vault}
use toggld_program.Programs.{Programs}
use toggld_program.World.{World, emit, open_at}
use toggld_program.Events.{token_configured}

-- What a caller supplies.
pub record SetupTokenAccounts : Type 0 where
  pub admin : Pubkey
  pub mint : Pubkey

-- The arguments of the instruction.
pub record SetupTokenArgs : Type 0 where
  pub toggld_mint : Pubkey
  pub venue : ℕ
  pub pool_address : Pubkey
  pub venue_config : Pubkey
  pub max_slippage_bps : ℕ

module _ (rt : Runtime) (pr : Programs) where
  -- The account constraints and the guards of the handler.
  unfoldable pub check_setup_token :
      SetupTokenAccounts → SetupTokenArgs → GlobalState → World → Result (Unit {0})
  check_setup_token ctx args gs w = do
    require (ctx.admin == gs.admin) unauthorized
    constrain (not (is_some w.token_config)) already_in_use
    constrain (ctx.mint == args.toggld_mint) address
    constrain (not (w.token_accounts (pr.ata (rt.address burn_vault) ctx.mint))) already_in_use
    require (gs.burn_address == incinerator) token_already_configured
    require
        (args.venue == venue_dbc_curve
          || args.venue == venue_damm_v1
          || args.venue == venue_damm_v2)
        invalid_venue
    require (leb args.max_slippage_bps max_slippage_bps_ceiling) slippage_tolerance_too_wide

  -- The accounts that the admin pays for: the configuration, the vault's token account, the vault.
  unfoldable pub fund_setup_token : SetupTokenAccounts → Balances → Result Balances
  fund_setup_token ctx l = do
    l₁ ← rt.init ctx.admin (rt.address token_config) token_config_space l
    l₂ ← rt.init ctx.admin (pr.ata (rt.address burn_vault) ctx.mint) pr.token_account_space l₁
    rt.create_account ctx.admin (rt.address burn_vault) (rt.minimum_balance 0) l₂

  abbrev pub new_token_config : SetupTokenArgs → Pubkey → TokenConfig
  new_token_config args mint = record {
    toggld_mint = args.toggld_mint;
    burn_vault_bump = rt.bump burn_vault;
    burn_vault_ata_bump = pr.ata_bump (rt.address burn_vault) mint;
    venue = args.venue;
    pool_address = args.pool_address;
    venue_config = args.venue_config;
    max_slippage_bps = args.max_slippage_bps;
    total_tokens_burned = 0;
  }

  -- What the handler writes and emits, with the balances that the payments leave.
  abbrev pub configured_world :
      SetupTokenAccounts → SetupTokenArgs → GlobalState → World → Balances → World
  configured_world ctx args gs w lamports =
      emit
        (token_configured (record {
          mint = args.toggld_mint;
          burn_vault = rt.address burn_vault;
          venue = args.venue;
          pool_address = args.pool_address;
          venue_config = args.venue_config;
          max_slippage_bps = args.max_slippage_bps;
        }))
        (record w {
          lamports = lamports;
          token_accounts = open_at w.token_accounts (pr.ata (rt.address burn_vault) ctx.mint);
          token_config = some (new_token_config args ctx.mint);
          global_state = some (record gs { burn_address = rt.address burn_vault });
        })

  unfoldable pub run_setup_token :
      SetupTokenAccounts → SetupTokenArgs → GlobalState → World → Result World
  run_setup_token ctx args gs w = do
    check_setup_token ctx args gs w
    lamports ← fund_setup_token ctx w.lamports
    ok (configured_world ctx args gs w lamports)

  unfoldable pub setup_token : SetupTokenAccounts → SetupTokenArgs → World → Result World
  setup_token ctx args w = do
    gs ← ok_or w.global_state (constraint not_initialized)
    run_setup_token ctx args gs w
