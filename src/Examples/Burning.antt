-- ===== src/Examples/Burning.antt =====
-- The theorem on the burn, at a pool whose price is 4 lamports for a token unit.
use toggld_program.Base.{ℕ, zero, suc, some, List, [], ◌∷◌, ◌++◌, if◌then◌else◌, ◌==◌}
use toggld_program.Constants.{wsol_mint, venue_dbc_curve}
use toggld_program.State.{TokenConfig}
use toggld_program.Runtime.{burn_vault}
use toggld_program.Runtime.Sample.{sample}
use toggld_program.Programs.Sample.{sample_programs}
use toggld_program.World.{World}
use toggld_program.DbcCpi.{dbc_program_id}
use toggld_program.BurnTokens.{BurnTokensAccounts, run_burn_tokens, toggld_ata}
use toggld_program.Examples.Scenario.{empty_world, world_of}

abbrev zeros : ℕ → List ℕ
zeros zero = []
zeros (suc n) = 0 ∷ zeros n

-- The square root of the price is 2, in units of `2^64`.
abbrev pool : List ℕ
pool = zeros 288 ++ 2 ∷ zeros 7

abbrev burner : BurnTokensAccounts
burner = record {
  caller = 1001;
  mint = 5001;
  wsol_mint = wsol_mint;
  dbc_pool_authority = 21;
  dbc_config = some 6002;
  dbc_pool = 6001;
  dbc_base_vault = 22;
  dbc_quote_vault = 23;
  dbc_event_authority = 24;
  dbc_program = dbc_program_id;
  token_program = 25;
}

abbrev config : TokenConfig
config = record {
  toggld_mint = 5001;
  burn_vault_bump = 255;
  burn_vault_ata_bump = 254;
  venue = venue_dbc_curve;
  pool_address = 6001;
  venue_config = 6002;
  max_slippage_bps = 100;
  total_tokens_burned = 7;
}

-- The burn vault holds 0.02 SOL above its rent, and there are tokens to burn.
abbrev before : World
before = record empty_world {
  lamports = λ k. if k == sample.address burn_vault then 20_890_880 else empty_world.lamports k;
  supply = λ k. if k == 5001 then 1_000_000_000 else 0;
  token_config = some config;
  token_accounts = λ k. k == toggld_ata sample sample_programs burner;
  pool_data = λ k. if k == 6001 then pool else [];
}

abbrev after : World
after = world_of (run_burn_tokens sample sample_programs burner 5_000_000 config before)
