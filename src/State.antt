-- ===== src/State.antt =====
-- programs/toggld/src/state.rs: the accounts that the program owns, field by field.
use toggld_program.Base.{ℕ, Bool}
use toggld_program.Base.Int.{ℤ}
use toggld_program.Constants.{Pubkey}

pub record GlobalState : Type 0 where
  pub holder : Pubkey
  pub holder_since : ℤ
  pub current_price : ℕ
  pub is_on : Bool
  pub total_challenges : ℕ
  pub holder_count : ℕ
  pub treasury : Pubkey
  pub burn_address : Pubkey
  pub fee_bps : ℕ
  pub admin : Pubkey
  pub params_locked : Bool
  pub min_raise_bps : ℕ
  pub base_window_secs : ℕ
  pub genesis_price : ℕ
  pub window_active : Bool
  pub window_end_ts : ℤ
  pub top_bidder : Pubkey
  pub top_bid_amount : ℕ
  pub escrowed_amount : ℕ
  pub treasury_balance : ℕ
  pub vault_bump : ℕ

pub record PendingRefund : Type 0 where
  pub bidder : Pubkey
  pub amount : ℕ
  pub bump : ℕ
  pub rent_payer : Pubkey

pub record WinRecord : Type 0 where
  pub winner : Pubkey
  pub holder_count : ℕ
  pub price_paid : ℕ
  pub won_at : ℤ
  pub minted : Bool
  pub bump : ℕ

pub record NftCollectionConfig : Type 0 where
  pub collection : Pubkey
  pub collection_authority_bump : ℕ
  pub bump : ℕ

-- The 64 bytes of forward padding are always zero and are left out.
pub record TokenConfig : Type 0 where
  pub toggld_mint : Pubkey
  pub burn_vault_bump : ℕ
  pub burn_vault_ata_bump : ℕ
  pub venue : ℕ
  pub pool_address : Pubkey
  pub venue_config : Pubkey
  pub max_slippage_bps : ℕ
  pub total_tokens_burned : ℕ

pub record TeamVesting : Type 0 where
  pub mint : Pubkey
  pub total_amount : ℕ
  pub start_ts : ℤ
  pub duration_secs : ℤ
  pub claimed_amount : ℕ
  pub bump : ℕ
