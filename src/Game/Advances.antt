-- ===== src/Game/Advances.antt =====
-- The invariant and the progress of the game across each of its steps.
use toggld_program.Base.{ℕ, ◌<◌, ◌≡◌, ◌≢◌, false, u64_size, arith, ap, sym, ◌∙◌, refl}
use toggld_program.Base.Int.{ℤ}
use toggld_program.Constants.{Pubkey, default}
use toggld_program.State.{GlobalState}
use toggld_program.Outcome.{ok, ok_or, >>=-eq-ok, ok_or-bind}
use toggld_program.Runtime.{Runtime, Seeds}
use toggld_program.Programs.{Programs}
use toggld_program.World.{World}
use toggld_program.Challenge.{ChallengeAccounts, challenge}
use toggld_program.Settle.{SettleAccounts, settle}
use toggld_program.Settle.Effect.{settled_state, settle_effect}
use toggld_program.ClaimRefund.{ClaimRefundAccounts, claim_refund}
use toggld_program.WithdrawTreasury.{WithdrawTreasuryAccounts, withdraw_treasury}
use toggld_program.SetupToken.{SetupTokenAccounts, SetupTokenArgs, setup_token}
use toggld_program.SetupToken.Effect.{setup_token_effect}
use toggld_program.PromoteBurnVenue.{PromoteArgs, promote_burn_venue}
use toggld_program.PromoteBurnVenue.Effect.{promote_effect}
use toggld_program.Game.Invariant.{WorldInv}
use toggld_program.Game.Bids.{challenge_loaded, after_bid, run_challenge-WorldInv}
use toggld_program.Game.Settlements.{settle_loaded, run_settle-WorldInv}
use toggld_program.Game.Payouts.{
  grown-WorldInv, run_withdraw_treasury-WorldInv, run_claim_refund-WorldInv,
}
use toggld_program.WinNft.Core.{Core}
use toggld_program.Game.Steps.{
  Step, bids, settles, claims, withdraws, sets_up, promotes, vests, claims_vested, opens_collection,
  mints, elsewhere, Elsewhere, Advanced,
}
use toggld_program.Game.Outside.{
  init_team_vesting-Elsewhere, claim_vested-Elsewhere, init_nft_collection-Elsewhere,
}
use toggld_program.Game.Mints.{mint_win_nft-WorldInv}

module _ (rt : Runtime) (pr : Programs) (gs : GlobalState) (w w' : World)
    (v : WorldInv rt w gs) where
  bids-Advanced :
      (now : ℤ) (ctx : ChallengeAccounts) (bid : ℕ)
      → rt.is_derived ctx.challenger ≡ false
      → ctx.challenger ≢ default
      → bid < u64_size
      → challenge rt now ctx bid w ≡ ok w'
      → Advanced rt gs w'
  bids-Advanced now ctx bid wallet real fits done =
      let run = sym (challenge_loaded rt now ctx bid gs w v.loaded) ∙ done in
      (
        after_bid now ctx.challenger bid gs,
        run_challenge-WorldInv rt now ctx bid gs w w' v wallet real fits run,
        ground arith,
      )

  settles-Advanced :
      (now : ℤ) (ctx : SettleAccounts)
      → rt.is_derived ctx.caller ≡ false
      → settle rt now ctx w ≡ ok w'
      → Advanced rt gs w'
  settles-Advanced now ctx wallet done =
      let run = sym (settle_loaded rt now ctx gs w v.loaded) ∙ done in
      let (_, _, c, _, _, _) = settle_effect rt now ctx gs w w' run in
      (
        settled_state now gs,
        run_settle-WorldInv rt now ctx gs w w' v wallet run,
        ground (arith, v.game.open_raised c.active),
      )

  claims-Advanced :
      (ctx : ClaimRefundAccounts)
      → rt.is_derived ctx.claimant ≡ false
      → claim_refund rt ctx w ≡ ok w'
      → Advanced rt gs w'
  unfolding claim_refund
  claims-Advanced ctx wallet done =
      let (slot, _, run) = >>=-eq-ok (ok_or (w.refunds ctx.pending_refund) _) _ done in
      (gs, run_claim_refund-WorldInv rt ctx slot gs w w' v wallet run, ground arith)

  withdraws-Advanced :
      (now : ℤ) (ctx : WithdrawTreasuryAccounts)
      → withdraw_treasury rt now ctx w ≡ ok w'
      → Advanced rt gs w'
  unfolding withdraw_treasury
  withdraws-Advanced now ctx done =
      let run = sym (ok_or-bind w.global_state _ _ gs v.loaded) ∙ done in
      (
        record gs { treasury_balance = 0 },
        run_withdraw_treasury-WorldInv rt now ctx gs w w' v run,
        ground arith,
      )

  sets_up-Advanced :
      (ctx : SetupTokenAccounts) (args : SetupTokenArgs)
      → rt.is_derived ctx.admin ≡ false
      → setup_token rt pr ctx args w ≡ ok w'
      → Advanced rt gs w'
  unfolding setup_token
  sets_up-Advanced ctx args wallet done =
      let run = sym (ok_or-bind w.global_state _ _ gs v.loaded) ∙ done in
      let (_, grown, written) = setup_token_effect rt pr ctx args gs w w' wallet run in
      let gs' = record gs { burn_address = rt.address Seeds.burn_vault } in
      (
        gs',
        grown-WorldInv rt gs gs' w w' v (ap (λ t. t.global_state) written) (ground (arith, v.game))
            (refl, refl, refl, refl) (ap (λ t. t.refunds) written) (ap (λ t. t.win_records) written)
            grown,
        ground arith,
      )

  promotes-Advanced :
      (admin : Pubkey) (args : PromoteArgs)
      → promote_burn_venue admin args w ≡ ok w'
      → Advanced rt gs w'
  unfolding promote_burn_venue
  promotes-Advanced admin args done =
      let run = sym (ok_or-bind w.global_state _ _ gs v.loaded) ∙ done in
      let (config, _, run') = >>=-eq-ok (ok_or w.token_config _) _ run in
      let (_, _, written) = promote_effect admin args gs config w w' run' in
      (
        gs,
        grown-WorldInv rt gs gs w w' v (ap (λ t. t.global_state) written ∙ v.loaded) v.game
            (refl, refl, refl, refl) (ap (λ t. t.refunds) written) (ap (λ t. t.win_records) written)
            (λ s. ground (arith, ap (λ t. t.lamports (rt.address s)) written)),
        ground arith,
      )

  Elsewhere-Advanced : Elsewhere rt w w' → Advanced rt gs w'
  Elsewhere-Advanced e = (
    gs,
    grown-WorldInv rt gs gs w w' v (e.same_state ∙ v.loaded) v.game (refl, refl, refl, refl)
        e.same_refunds e.same_wins e.grown,
    ground arith,
  )

-- Every step keeps the invariant and moves the state forward.
pub Step-Advanced :
    (rt : Runtime) (pr : Programs) (core : Core) {w w' : World} (gs : GlobalState)
    → Step rt pr core w w'
    → WorldInv rt w gs
    → Advanced rt gs w'
Step-Advanced rt pr core gs (bids now ctx bid wallet real fits done) v =
    bids-Advanced rt pr gs _ _ v now ctx bid wallet real fits done
Step-Advanced rt pr core gs (settles now ctx wallet done) v =
    settles-Advanced rt pr gs _ _ v now ctx wallet done
Step-Advanced rt pr core gs (claims ctx wallet done) v =
    claims-Advanced rt pr gs _ _ v ctx wallet done
Step-Advanced rt pr core gs (withdraws now ctx done) v =
    withdraws-Advanced rt pr gs _ _ v now ctx done
Step-Advanced rt pr core gs (sets_up ctx args wallet done) v =
    sets_up-Advanced rt pr gs _ _ v ctx args wallet done
Step-Advanced rt pr core gs (promotes admin args done) v =
    promotes-Advanced rt pr gs _ _ v admin args done
Step-Advanced rt pr core gs (elsewhere e) v = Elsewhere-Advanced rt pr gs _ _ v e
Step-Advanced rt pr core gs (vests now ctx args wallet done) v =
    Elsewhere-Advanced rt pr gs _ _ v
      (init_team_vesting-Elsewhere rt pr now ctx args _ _ wallet done)
Step-Advanced rt pr core gs (claims_vested now ctx done) v =
    Elsewhere-Advanced rt pr gs _ _ v (claim_vested-Elsewhere rt pr now ctx _ _ done)
Step-Advanced rt pr core gs (opens_collection ctx name uri wallet done) v =
    Elsewhere-Advanced rt pr gs _ _ v
      (init_nft_collection-Elsewhere rt core ctx name uri _ _ wallet done)
Step-Advanced rt pr core gs (mints now tx ctx uri content_hash wallet done) v = (
  gs,
  mint_win_nft-WorldInv rt core now tx ctx uri content_hash _ _ gs v wallet done,
  ground arith,
)
