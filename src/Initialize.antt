-- ===== src/Initialize.antt =====
-- programs/toggld/src/instructions/initialize.rs: the one-time creation of the game, by the holder
-- of the program's upgrade authority.
pub mod Effect
use toggld_program.Base.{
  ℕ, ◌≡◌, Bool, true, false, not, Option, none, some, ◌==◌, if◌then◌else◌, ltb, is_some,
}
use toggld_program.Base.Int.{ℤ, pos}
use toggld_program.Constants.{
  Pubkey, default, incinerator, fee_bps_default, default_min_raise_bps, default_base_window_secs,
  global_state_space, win_record_space,
}
use toggld_program.State.{GlobalState, WinRecord}
use toggld_program.Outcome.{
  Result, ok, ◌>>=◌, ◌>>◌, require, constrain, already_in_use, unauthorized, invalid_genesis_price,
  invalid_treasury, invalid_admin,
}
use toggld_program.Runtime.{Runtime, Balances, global_state, vault, win_record}
use toggld_program.World.{World, put}

-- What a caller supplies: the signer, the address that the program's own account names as its
-- program data, and the supplied program data account with the authority that it names.
pub record InitializeAccounts : Type 0 where
  pub payer : Pubkey
  pub programdata_address : Option Pubkey
  pub program_data : Pubkey
  pub upgrade_authority : Option Pubkey

-- `option == Some(key)`
abbrev pub is_key : Option Pubkey → Pubkey → Bool
is_key none k = false
is_key (some j) k = j == k

abbrev pub genesis_state : ℤ → Pubkey → Pubkey → ℕ → ℕ → GlobalState
genesis_state now treasury admin genesis_price bump = record {
  holder = treasury;
  holder_since = now;
  current_price = genesis_price;
  is_on = false;
  total_challenges = 0;
  holder_count = 1;
  treasury = treasury;
  burn_address = incinerator;
  fee_bps = fee_bps_default;
  admin = admin;
  params_locked = false;
  min_raise_bps = default_min_raise_bps;
  base_window_secs = default_base_window_secs;
  genesis_price = genesis_price;
  window_active = false;
  window_end_ts = pos 0;
  top_bidder = default;
  top_bid_amount = 0;
  escrowed_amount = 0;
  treasury_balance = 0;
  vault_bump = bump;
}

abbrev pub genesis_win : ℤ → Pubkey → ℕ → WinRecord
genesis_win now treasury bump = record {
  winner = treasury;
  holder_count = 1;
  price_paid = 0;
  won_at = now;
  minted = false;
  bump = bump;
}

module _ (rt : Runtime) where
  -- `init` of the global state, the constraints on the program's accounts, and the guards.
  unfoldable pub check_initialize :
      InitializeAccounts → Pubkey → Pubkey → ℕ → World → Result (Unit {0})
  check_initialize ctx treasury admin genesis_price w = do
    constrain (not (is_some w.global_state)) already_in_use
    require (is_key ctx.programdata_address ctx.program_data) unauthorized
    require (is_key ctx.upgrade_authority ctx.payer) unauthorized
    require (ltb 0 genesis_price) invalid_genesis_price
    require (not (treasury == default)) invalid_treasury
    require (not (admin == default)) invalid_admin

  -- The three accounts that the payer funds: the global state, the vault and the genesis record.
  unfoldable pub fund_initialize : Pubkey → Balances → Result Balances
  fund_initialize payer l = do
    l₁ ← rt.init payer (rt.address global_state) global_state_space l
    l₂ ← rt.create_account payer (rt.address vault) (rt.minimum_balance 0) l₁
    rt.create_account payer (rt.address (win_record 0)) (rt.minimum_balance win_record_space) l₂

  unfoldable pub initialize : ℤ → InitializeAccounts → Pubkey → Pubkey → ℕ → World → Result World
  initialize now ctx treasury admin genesis_price w = do
    check_initialize ctx treasury admin genesis_price w
    lamports ← fund_initialize ctx.payer w.lamports
    let gs = genesis_state now treasury admin genesis_price (rt.bump vault)
    let win = genesis_win now treasury (rt.bump (win_record 0))
    ok (record w {
      lamports = lamports;
      global_state = some gs;
      win_records = put w.win_records (rt.address (win_record 0)) (some win);
    })
