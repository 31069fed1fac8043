-- ===== src/Game/Marks.antt =====
-- What each instruction of the game does to the marks of minted wins.
use toggld_program.Base.{
  ℕ, ◌≡◌, ◌≢◌, refl, true, false, some, inl, inr, List, arith, ap, sym, ◌∙◌, ◌==◌, if◌then◌else◌,
  Bool-cases,
}
use toggld_program.Base.Int.{ℤ}
use toggld_program.Constants.{Pubkey}
use toggld_program.State.{GlobalState, WinRecord}
use toggld_program.Outcome.{ok, ok_or, >>=-eq-ok}
use toggld_program.Runtime.{Runtime, win_record}
use toggld_program.Programs.{Programs}
use toggld_program.World.{World, Accounts, put}
use toggld_program.Challenge.{ChallengeAccounts, challenge}
use toggld_program.Challenge.Effect.{cold_effect, outbid_effect}
use toggld_program.Settle.{SettleAccounts, settle}
use toggld_program.Settle.Effect.{is_flip, win_of, settle_effect}
use toggld_program.ClaimRefund.{ClaimRefundAccounts, claim_refund}
use toggld_program.ClaimRefund.Effect.{claim_refund_effect}
use toggld_program.WithdrawTreasury.{WithdrawTreasuryAccounts, withdraw_treasury}
use toggld_program.WithdrawTreasury.Effect.{withdraw_treasury_effect}
use toggld_program.SetupToken.{SetupTokenAccounts, SetupTokenArgs, setup_token}
use toggld_program.SetupToken.Effect.{setup_token_effect}
use toggld_program.PromoteBurnVenue.{PromoteArgs, promote_burn_venue}
use toggld_program.PromoteBurnVenue.Effect.{promote_effect}
use toggld_program.WinNft.Core.{Core}
use toggld_program.WinNft.Attestation.{Transaction}
use toggld_program.WinNft.Mint.{MintWinNftAccounts, mint_win_nft}
use toggld_program.WinNft.Mint.Effect.{mint_win_nft_effect}
use toggld_program.Game.Invariant.{WorldInv}
use toggld_program.Game.Bids.{challenge_loaded}
use toggld_program.Game.Settlements.{settle_loaded}

-- The record at an address is there and is marked as minted.
abbrev pub IsMinted : World → Pubkey → Type 0
IsMinted w k = (r : WinRecord) × (w.win_records k ≡ some r) × (r.minted ≡ true)

pub kept-IsMinted :
    {f f' : Accounts WinRecord} (k : Pubkey)
    → f' ≡ f
    → (r : WinRecord) × (f k ≡ some r) × (r.minted ≡ true)
    → (r : WinRecord) × (f' k ≡ some r) × (r.minted ≡ true)
kept-IsMinted k same (r, there, mark) = (r, ap (λ t. t k) same ∙ there, mark)

module _ (rt : Runtime) (pr : Programs) (core : Core) (gs : GlobalState) (w w' : World)
    (v : WorldInv rt w gs) where
  pub challenge-keeps :
      (now : ℤ) (ctx : ChallengeAccounts) (bid : ℕ)
      → challenge rt now ctx bid w ≡ ok w'
      → w'.win_records ≡ w.win_records
  challenge-keeps now ctx bid done =
      let run = sym (challenge_loaded rt now ctx bid gs w v.loaded) ∙ done in
      elim (Bool-cases gs.window_active) [
        | inl active ↦
            let (_, _, _, written, _, _, _, _) =
              outbid_effect rt now ctx bid gs w w' run (v.game.open_bidder active) in
            ap (λ t. t.win_records) written
        | inr idle ↦
            let (_, _, _, written, _) =
              cold_effect rt now ctx bid gs w w' run (v.game.idle_bidder idle) in
            ap (λ t. t.win_records) written
      ]

  -- A settlement writes where there was no record.
  pub settle-IsMinted :
      (now : ℤ) (ctx : SettleAccounts) (k : Pubkey)
      → settle rt now ctx w ≡ ok w'
      → IsMinted w k
      → IsMinted w' k
  settle-IsMinted now ctx k done (r, there, mark) =
      let account = rt.address (win_record gs.holder_count) in
      let run = sym (settle_loaded rt now ctx gs w v.loaded) ∙ done in
      let (_, _, _, _, written, _) = settle_effect rt now ctx gs w w' run in
      let vacant = v.unrecorded gs.holder_count (omega arith) in
      let apart : k ≢ account = λ e. cc (sym there ∙ ap w.win_records e ∙ vacant) in
      let aside : put w.win_records account (some (win_of rt now gs)) k ≡ w.win_records k =
        ground arith in
      (
        r,
        ap (λ t. t.win_records k) written ∙ elim (Bool-cases (is_flip gs)) [
          | inl flip ↦
              ap
                (λ c.
                  (if c then put w.win_records account (some (win_of rt now gs)) else w.win_records)
                    k)
                flip
              ∙ aside
              ∙ there
          | inr kept ↦
              ap
                (λ c.
                  (if c then put w.win_records account (some (win_of rt now gs)) else w.win_records)
                    k)
                kept
              ∙ there
        ],
        mark,
      )

  pub mint_win_nft-IsMinted :
      (now : ℤ) (tx : Transaction) (ctx : MintWinNftAccounts) (uri content_hash : List ℕ)
      (k : Pubkey)
      → mint_win_nft rt core now tx ctx uri content_hash w ≡ ok w'
      → IsMinted w k
      → IsMinted w' k
  mint_win_nft-IsMinted now tx ctx uri content_hash k done (r, there, mark) =
      let (win, _, _, _, _, _, _, _, _, _, _, _, written) =
        mint_win_nft_effect rt core now tx ctx uri content_hash w w' done in
      let new = record win { minted = true } in
      let seen = ap (λ t. t.win_records k) written in
      elim (Bool-cases (k == ctx.win_record)) [
        | inl same ↦ (new, seen ∙ ap (λ c. if c then some new else w.win_records k) same, refl)
        | inr other ↦
            (r, seen ∙ ap (λ c. if c then some new else w.win_records k) other ∙ there, mark)
      ]

  pub claim_refund-keeps :
      (ctx : ClaimRefundAccounts)
      → rt.is_derived ctx.claimant ≡ false
      → claim_refund rt ctx w ≡ ok w'
      → w'.win_records ≡ w.win_records
  unfolding claim_refund
  claim_refund-keeps ctx wallet done =
      let (slot, _, run) = >>=-eq-ok (ok_or (w.refunds ctx.pending_refund) _) _ done in
      let (_, _, _, _, _, _, written) = claim_refund_effect rt ctx slot w w' wallet run in
      ap (λ t. t.win_records) written

  pub withdraw_treasury-keeps :
      (now : ℤ) (ctx : WithdrawTreasuryAccounts)
      → withdraw_treasury rt now ctx w ≡ ok w'
      → w'.win_records ≡ w.win_records
  unfolding withdraw_treasury
  withdraw_treasury-keeps now ctx done =
      let (g, _, run) = >>=-eq-ok (ok_or w.global_state _) _ done in
      let (_, _, _, _, written) = withdraw_treasury_effect rt now ctx g w w' run in
      ap (λ t. t.win_records) written

  pub setup_token-keeps :
      (ctx : SetupTokenAccounts) (args : SetupTokenArgs)
      → rt.is_derived ctx.admin ≡ false
      → setup_token rt pr ctx args w ≡ ok w'
      → w'.win_records ≡ w.win_records
  unfolding setup_token
  setup_token-keeps ctx args wallet done =
      let (g, _, run) = >>=-eq-ok (ok_or w.global_state _) _ done in
      let (_, _, written) = setup_token_effect rt pr ctx args g w w' wallet run in
      ap (λ t. t.win_records) written

  pub promote_burn_venue-keeps :
      (admin : Pubkey) (args : PromoteArgs)
      → promote_burn_venue admin args w ≡ ok w'
      → w'.win_records ≡ w.win_records
  unfolding promote_burn_venue
  promote_burn_venue-keeps admin args done =
      let (g, _, run) = >>=-eq-ok (ok_or w.global_state _) _ done in
      let (config, _, run') = >>=-eq-ok (ok_or w.token_config _) _ run in
      let (_, _, written) = promote_effect admin args g config w w' run' in
      ap (λ t. t.win_records) written
