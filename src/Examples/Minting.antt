-- ===== src/Examples/Minting.antt =====
-- The theorem on minting once, at the short game.
use toggld_program.Base.{◌≡◌, ◌≢◌, refl, some, none, arith}
use toggld_program.Base.Int.{pos, ◌+ℤ◌}
use toggld_program.State.{GlobalState}
use toggld_program.Outcome.{ok}
use toggld_program.Runtime.{win_record}
use toggld_program.Runtime.Sample.{sample}
use toggld_program.Programs.Sample.{sample_programs}
use toggld_program.World.{World}
use toggld_program.Initialize.{initialize, check_initialize, fund_initialize}
use toggld_program.Challenge.{
  ChallengeAccounts, challenge, run_challenge, open_or_extend, open_refund, settle_previous,
  take_bid,
}
use toggld_program.Pure.{require_min_raise, compute_window_reset, compute_split}
use toggld_program.Settle.{settle, run_settle, close_window, pay_burn, record_win}
use toggld_program.Settle.Effect.{settled_state}
use toggld_program.WinNft.Attestation.{
  parse_ed25519_instruction_data, parse_offsets, follow_offsets, verify_metadata_signature,
}
use toggld_program.WinNft.Mint.{MintWinNftAccounts, check_mint, run_mint_win_nft, mint_win_nft}
use toggld_program.Game.Invariant.{WorldInv}
use toggld_program.Game.Payouts.{grown-WorldInv}
use toggld_program.Game.Steps.{bids}
use toggld_program.Game.History.{Reach, here, next}
use toggld_program.Game.Collectibles.{mint_win_nft_once}
use toggld_program.Examples.Scenario.{alice, bob, settled_world, world_of, went_through}
use toggld_program.Examples.Bidding.{raised_gs, settled_inv}
use toggld_program.Examples.Collectible.{core, attestation, uri, hash}

abbrev final_gs : GlobalState
final_gs = settled_state (pos 1_060) raised_gs

-- The settled game with a collection.
abbrev shown : World
shown = record settled_world {
  nft_collection_config =
      some (record { collection = 8001; collection_authority_bump = 255; bump = 255 });
}

shown_inv : WorldInv sample shown final_gs
shown_inv =
    grown-WorldInv sample final_gs final_gs settled_world shown settled_inv settled_inv.loaded
      settled_inv.game (refl, refl, refl, refl) refl refl (λ s. omega arith)

abbrev bobs_mint : MintWinNftAccounts
bobs_mint = record {
  caller = bob;
  win_record = sample.address (win_record 1);
  asset = 8002;
  collection = 8001;
}

abbrev kept : World
kept = world_of (mint_win_nft sample core (pos 3_000) attestation bobs_mint uri hash shown)

kept_eq : mint_win_nft sample core (pos 3_000) attestation bobs_mint uri hash shown ≡ ok kept
unfolding initialize check_initialize fund_initialize challenge run_challenge open_or_extend
    open_refund settle_previous take_bid require_min_raise compute_window_reset ◌+ℤ◌ settle
    run_settle close_window pay_burn record_win compute_split mint_win_nft run_mint_win_nft
    check_mint verify_metadata_signature parse_ed25519_instruction_data parse_offsets follow_offsets
kept_eq = went_through _ refl

abbrev third_bidder : ChallengeAccounts
third_bidder = record { challenger = alice; pending_refund = none }

abbrev reopened : World
reopened = world_of (challenge sample (pos 3_100) third_bidder 1_260_000 kept)

reopened_eq : challenge sample (pos 3_100) third_bidder 1_260_000 kept ≡ ok reopened
unfolding initialize check_initialize fund_initialize challenge run_challenge open_or_extend
    open_refund settle_previous take_bid require_min_raise compute_window_reset ◌+ℤ◌ settle
    run_settle close_window pay_burn record_win compute_split mint_win_nft run_mint_win_nft
    check_mint verify_metadata_signature parse_ed25519_instruction_data parse_offsets follow_offsets
reopened_eq = went_through _ refl

one_more_bid : Reach sample sample_programs core kept reopened
one_more_bid =
    next here
      (bids (pos 3_100) third_bidder 1_260_000 refl (λ e. ground arith) (omega arith) reopened_eq)

mint_win_nft_once_example :
    mint_win_nft sample core (pos 3_200) attestation bobs_mint uri hash reopened ≢ ok reopened
mint_win_nft_once_example =
    mint_win_nft_once sample sample_programs core (pos 3_000) (pos 3_200) attestation attestation
      bobs_mint bobs_mint uri uri hash hash shown kept reopened reopened final_gs shown_inv refl
      kept_eq one_more_bid refl
