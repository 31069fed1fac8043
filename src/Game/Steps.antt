-- ===== src/Game/Steps.antt =====
-- The steps of the game's history (the instructions that lib.rs lists): all but initialize and
-- burn_tokens, in any order, by any wallets and at any time, with whatever else happens on the
-- chain in between.
use toggld_program.Base.{ℕ, List, ◌≤◌, ◌<◌, ◌≡◌, ◌≢◌, false, u64_size}
use toggld_program.Base.Int.{ℤ}
use toggld_program.Constants.{Pubkey, default}
use toggld_program.State.{GlobalState}
use toggld_program.Outcome.{ok}
use toggld_program.Runtime.{Runtime, Seeds}
use toggld_program.Programs.{Programs}
use toggld_program.World.{World}
use toggld_program.Challenge.{ChallengeAccounts, challenge}
use toggld_program.Settle.{SettleAccounts, settle}
use toggld_program.ClaimRefund.{ClaimRefundAccounts, claim_refund}
use toggld_program.WithdrawTreasury.{WithdrawTreasuryAccounts, withdraw_treasury}
use toggld_program.SetupToken.{SetupTokenAccounts, SetupTokenArgs, setup_token}
use toggld_program.TeamVesting.{VestingAccounts, ScheduleArgs, init_team_vesting, claim_vested}
use toggld_program.WinNft.Core.{Core}
use toggld_program.WinNft.Attestation.{Transaction}
use toggld_program.WinNft.Mint.{MintWinNftAccounts, mint_win_nft}
use toggld_program.WinNft.Collection.{InitNftCollectionAccounts, init_nft_collection}
use toggld_program.PromoteBurnVenue.{PromoteArgs, promote_burn_venue}
use toggld_program.Game.Invariant.{WorldInv}

-- What other programs and wallets can do: they write none of the game's accounts, and take nothing
-- from an address that this program alone signs for.
pub record Elsewhere (rt : Runtime) (w w' : World) : Type 0 where
  pub same_state : w'.global_state ≡ w.global_state
  pub same_refunds : w'.refunds ≡ w.refunds
  pub same_wins : w'.win_records ≡ w.win_records
  pub grown : (s : Seeds) → w.lamports (rt.address s) ≤ w'.lamports (rt.address s)

-- One step of the chain. Signers are wallets, and a bid is a `u64`.
pub data Step (rt : Runtime) (pr : Programs) (core : Core) : World → World → Type 0 where
  bids :
      {w w' : World} (now : ℤ) (ctx : ChallengeAccounts) (bid : ℕ)
      → rt.is_derived ctx.challenger ≡ false
      → ctx.challenger ≢ default
      → bid < u64_size
      → challenge rt now ctx bid w ≡ ok w'
      → Step rt pr core w w'
  settles :
      {w w' : World} (now : ℤ) (ctx : SettleAccounts)
      → rt.is_derived ctx.caller ≡ false
      → settle rt now ctx w ≡ ok w'
      → Step rt pr core w w'
  claims :
      {w w' : World} (ctx : ClaimRefundAccounts)
      → rt.is_derived ctx.claimant ≡ false
      → claim_refund rt ctx w ≡ ok w'
      → Step rt pr core w w'
  withdraws :
      {w w' : World} (now : ℤ) (ctx : WithdrawTreasuryAccounts)
      → withdraw_treasury rt now ctx w ≡ ok w'
      → Step rt pr core w w'
  sets_up :
      {w w' : World} (ctx : SetupTokenAccounts) (args : SetupTokenArgs)
      → rt.is_derived ctx.admin ≡ false
      → setup_token rt pr ctx args w ≡ ok w'
      → Step rt pr core w w'
  promotes :
      {w w' : World} (admin : Pubkey) (args : PromoteArgs)
      → promote_burn_venue admin args w ≡ ok w'
      → Step rt pr core w w'
  vests :
      {w w' : World} (now : ℤ) (ctx : VestingAccounts) (args : ScheduleArgs)
      → rt.is_derived ctx.admin ≡ false
      → init_team_vesting rt pr now ctx args w ≡ ok w'
      → Step rt pr core w w'
  claims_vested :
      {w w' : World} (now : ℤ) (ctx : VestingAccounts)
      → claim_vested rt pr now ctx w ≡ ok w'
      → Step rt pr core w w'
  opens_collection :
      {w w' : World} (ctx : InitNftCollectionAccounts) (name uri : List ℕ)
      → rt.is_derived ctx.admin ≡ false
      → init_nft_collection rt core ctx name uri w ≡ ok w'
      → Step rt pr core w w'
  mints :
      {w w' : World} (now : ℤ) (tx : Transaction) (ctx : MintWinNftAccounts)
      (uri content_hash : List ℕ)
      → rt.is_derived ctx.caller ≡ false
      → mint_win_nft rt core now tx ctx uri content_hash w ≡ ok w'
      → Step rt pr core w w'
  elsewhere : {w w' : World} → Elsewhere rt w w' → Step rt pr core w w'

-- How the state moves over time: the price never falls, and holders, rounds and the genesis price
-- are counted or kept.
pub record Progress (gs gs' : GlobalState) : Type 0 where
  pub price_le : gs.current_price ≤ gs'.current_price
  pub count_le : gs.holder_count ≤ gs'.holder_count
  pub challenges_le : gs.total_challenges ≤ gs'.total_challenges
  pub same_admin : gs'.admin ≡ gs.admin
  pub same_treasury : gs'.treasury ≡ gs.treasury
  pub same_genesis : gs'.genesis_price ≡ gs.genesis_price

-- A world that keeps the invariant and has moved on from an earlier state.
abbrev pub Advanced : Runtime → GlobalState → World → Type 0
Advanced rt gs w = (gs' : GlobalState) × WorldInv rt w gs' × Progress gs gs'
