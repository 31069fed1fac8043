-- ===== src/Events.antt =====
-- programs/toggld/src/instructions/events.rs: the events, in the order of the source. A text (the
-- `uri` of a minted asset) is the list of its bytes.
use toggld_program.Base.{ℕ, Bool, List}
use toggld_program.Base.Int.{ℤ}
use toggld_program.Constants.{Pubkey}

pub record ChallengeEvent : Type 0 where
  pub challenger : Pubkey
  pub bid_amount : ℕ
  pub window_end_ts : ℤ
  pub extended : Bool

pub record SettleEvent : Type 0 where
  pub winner : Pubkey
  pub previous_holder : Pubkey
  pub flipped : Bool
  pub winning_price : ℕ
  pub treasury_cut : ℕ
  pub burned_amount : ℕ

pub record TreasuryWithdrawEvent : Type 0 where
  pub admin : Pubkey
  pub treasury : Pubkey
  pub amount : ℕ
  pub timestamp : ℤ

pub record RefundClaimedEvent : Type 0 where
  pub claimant : Pubkey
  pub amount : ℕ

pub record TokenConfiguredEvent : Type 0 where
  pub mint : Pubkey
  pub burn_vault : Pubkey
  pub venue : ℕ
  pub pool_address : Pubkey
  pub venue_config : Pubkey
  pub max_slippage_bps : ℕ

pub record TeamVestingInitializedEvent : Type 0 where
  pub mint : Pubkey
  pub total_amount : ℕ
  pub start_ts : ℤ
  pub duration_secs : ℤ

pub record VestedClaimedEvent : Type 0 where
  pub amount : ℕ
  pub claimed_total : ℕ
  pub unlocked : ℕ

pub record TokensBurnedEvent : Type 0 where
  pub sol_swapped : ℕ
  pub tokens_received : ℕ
  pub tokens_burned : ℕ

pub record BurnVenuePromotedEvent : Type 0 where
  pub venue : ℕ
  pub pool_address : Pubkey
  pub venue_config : Pubkey

pub record WinNftMintedEvent : Type 0 where
  pub winner : Pubkey
  pub asset : Pubkey
  pub holder_count : ℕ
  pub price_paid : ℕ
  pub won_at : ℤ
  pub minted_at : ℤ
  pub uri : List ℕ

pub record NftCollectionInitializedEvent : Type 0 where
  pub collection : Pubkey
  pub treasury : Pubkey
  pub royalty_basis_points : ℕ

-- What `emit!` takes.
pub data Event : Type 0 where
  challenged : ChallengeEvent → Event
  settled : SettleEvent → Event
  treasury_withdrawn : TreasuryWithdrawEvent → Event
  refund_claimed : RefundClaimedEvent → Event
  token_configured : TokenConfiguredEvent → Event
  team_vesting_initialized : TeamVestingInitializedEvent → Event
  vested_claimed : VestedClaimedEvent → Event
  tokens_burned : TokensBurnedEvent → Event
  burn_venue_promoted : BurnVenuePromotedEvent → Event
  win_nft_minted : WinNftMintedEvent → Event
  nft_collection_initialized : NftCollectionInitializedEvent → Event
