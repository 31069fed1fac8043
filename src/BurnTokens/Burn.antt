-- ===== src/BurnTokens/Burn.antt =====
-- The instruction as a whole: what a successful burn has swapped and burned.
use toggld_program.Base.{none, ◌<◌, ℕ, ◌+◌, ◌≤◌, ◌≡◌, ◌⊎◌, ◌∷◌, u64_size}
use toggld_program.Constants.{Pubkey}
use toggld_program.Outcome.{ok}
use toggld_program.Runtime.{Runtime, burn_vault}
use toggld_program.Programs.{Programs, Bank, Instruction}
use toggld_program.World.{World}
use toggld_program.DbcCpi.{
  dbc_program_id, damm_v2_program_id, Swap2Accounts, swap2_metas, swap2_infos,
}
use toggld_program.BurnTokens.{BurnTokensAccounts}

-- An exact-in `swap2`: the discriminator, the amount in, the least output, and mode 0.
abbrev pub exact_in_swap : Programs → Pubkey → Swap2Accounts → ℕ → ℕ → Instruction
exact_in_swap pr program_id a amount_in min_out = record {
  program_id = program_id;
  accounts = swap2_metas a program_id;
  bytes = 65 ∷ 75 ∷ 63 ∷ 76 ∷ 235 ∷ 91 ∷ 91 ∷ 136 ∷ pr.serialize amount_in min_out 0;
}

-- What the venue documents of an exact-in `swap2` by one of its two programs: the output account
-- gains the least output at least, and no supply changes.
pub record HonoursMinimum (pr : Programs) : Type 0 where
  pub output :
      (program_id : Pubkey) (a : Swap2Accounts) (amount_in min_out : ℕ) (b b' : Bank)
      → (program_id ≡ dbc_program_id) ⊎ (program_id ≡ damm_v2_program_id)
      → min_out < u64_size
      → pr.invoke_signed (exact_in_swap pr program_id a amount_in min_out) (swap2_infos a) b ≡ ok b'
      → b.tokens a.output_token_account + min_out ≤ b'.tokens a.output_token_account
  pub supply_kept :
      (program_id : Pubkey) (a : Swap2Accounts) (amount_in min_out : ℕ) (b b' : Bank)
      → (program_id ≡ dbc_program_id) ⊎ (program_id ≡ damm_v2_program_id)
      → pr.invoke_signed (exact_in_swap pr program_id a amount_in min_out) (swap2_infos a) b ≡ ok b'
      → b'.supply ≡ b.supply

-- The accounts of the burn's swap: wrapped lamports of the burn vault in, tokens of the vault out.
abbrev vault_swap : Runtime → Programs → BurnTokensAccounts → Swap2Accounts
vault_swap rt pr ctx = record {
  pool_authority = ctx.dbc_pool_authority;
  config = ctx.dbc_config;
  pool = ctx.dbc_pool;
  input_token_account = pr.ata (rt.address burn_vault) ctx.wsol_mint;
  output_token_account = pr.ata (rt.address burn_vault) ctx.mint;
  base_vault = ctx.dbc_base_vault;
  quote_vault = ctx.dbc_quote_vault;
  base_mint = ctx.mint;
  quote_mint = ctx.wsol_mint;
  payer = rt.address burn_vault;
  token_base_program = ctx.token_program;
  token_quote_program = ctx.token_program;
  referral_token_account = none;
  event_authority = ctx.dbc_event_authority;
  dbc_program = ctx.dbc_program;
}
