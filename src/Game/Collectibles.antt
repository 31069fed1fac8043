-- ===== src/Game/Collectibles.antt =====
-- The collectibles over a history: the mark of a minted win (mint_win_nft.rs).
use mathlib.Core.Option.{some-injective}
use toggld_program.Base.{ℕ, ◌≡◌, ◌≢◌, refl, true, false, some, List, ap, sym, ◌∙◌}
use toggld_program.Base.Int.{ℤ}
use toggld_program.Constants.{Pubkey}
use toggld_program.State.{GlobalState}
use toggld_program.Outcome.{ok}
use toggld_program.Runtime.{Runtime}
use toggld_program.Programs.{Programs}
use toggld_program.World.{World, put_self}
use toggld_program.WinNft.Core.{Core}
use toggld_program.WinNft.Attestation.{Transaction}
use toggld_program.WinNft.Mint.{MintWinNftAccounts, mint_win_nft}
use toggld_program.WinNft.Mint.Effect.{mint_win_nft_effect}
use toggld_program.Game.Invariant.{WorldInv}
use toggld_program.Game.Mints.{mint_win_nft-WorldInv}
use toggld_program.Game.Steps.{
  Step, bids, settles, claims, withdraws, sets_up, promotes, vests, claims_vested, opens_collection,
  mints, elsewhere,
}
use toggld_program.Game.Outside.{
  init_team_vesting-Elsewhere, claim_vested-Elsewhere, init_nft_collection-Elsewhere,
}
use toggld_program.Game.History.{Reach, here, next, Reach-Advanced}
use toggld_program.Game.Marks.{
  IsMinted, kept-IsMinted, challenge-keeps, settle-IsMinted, mint_win_nft-IsMinted,
  claim_refund-keeps, withdraw_treasury-keeps, setup_token-keeps, promote_burn_venue-keeps,
}

Step-IsMinted :
    (rt : Runtime) (pr : Programs) (core : Core) {w w' : World} (gs : GlobalState) (k : Pubkey)
    → Step rt pr core w w'
    → WorldInv rt w gs
    → IsMinted w k
    → IsMinted w' k
Step-IsMinted rt pr core gs k (bids now ctx bid _ _ _ done) v m =
    kept-IsMinted k (challenge-keeps rt pr core gs _ _ v now ctx bid done) m
Step-IsMinted rt pr core gs k (settles now ctx _ done) v m =
    settle-IsMinted rt pr core gs _ _ v now ctx k done m
Step-IsMinted rt pr core gs k (claims ctx wallet done) v m =
    kept-IsMinted k (claim_refund-keeps rt pr core gs _ _ v ctx wallet done) m
Step-IsMinted rt pr core gs k (withdraws now ctx done) v m =
    kept-IsMinted k (withdraw_treasury-keeps rt pr core gs _ _ v now ctx done) m
Step-IsMinted rt pr core gs k (sets_up ctx args wallet done) v m =
    kept-IsMinted k (setup_token-keeps rt pr core gs _ _ v ctx args wallet done) m
Step-IsMinted rt pr core gs k (promotes admin args done) v m =
    kept-IsMinted k (promote_burn_venue-keeps rt pr core gs _ _ v admin args done) m
Step-IsMinted rt pr core gs k (vests now ctx args wallet done) v m =
    kept-IsMinted k (init_team_vesting-Elsewhere rt pr now ctx args _ _ wallet done).same_wins m
Step-IsMinted rt pr core gs k (claims_vested now ctx done) v m =
    kept-IsMinted k (claim_vested-Elsewhere rt pr now ctx _ _ done).same_wins m
Step-IsMinted rt pr core gs k (opens_collection ctx name uri wallet done) v m =
    kept-IsMinted k (init_nft_collection-Elsewhere rt core ctx name uri _ _ wallet done).same_wins m
Step-IsMinted rt pr core gs k (mints now tx ctx uri content_hash _ done) v m =
    mint_win_nft-IsMinted rt pr core gs _ _ v now tx ctx uri content_hash k done m
Step-IsMinted rt pr core gs k (elsewhere e) v m = kept-IsMinted k e.same_wins m

Reach-IsMinted :
    (rt : Runtime) (pr : Programs) (core : Core) {w w' : World} (gs : GlobalState) (k : Pubkey)
    → Reach rt pr core w w'
    → WorldInv rt w gs
    → IsMinted w k
    → IsMinted w' k
Reach-IsMinted rt pr core gs k here v m = m
Reach-IsMinted rt pr core gs k (next before step) v m =
    let (gs₁, v₁, _) = Reach-Advanced rt pr core gs before v in
    Step-IsMinted rt pr core gs₁ k step v₁ (Reach-IsMinted rt pr core gs k before v m)

-- A win is minted at most once: from a state of the invariant, after a successful mint by a wallet
-- and any steps that follow it, every mint of the same record fails, by whomever, at any time and
-- with any attestation.
pub mint_win_nft_once :
    (rt : Runtime) (pr : Programs) (core : Core) (now later : ℤ) (tx tx' : Transaction)
    (ctx again : MintWinNftAccounts) (uri uri' content_hash content_hash' : List ℕ)
    (w w₁ w₂ w₃ : World) (gs : GlobalState)
    → WorldInv rt w gs
    → rt.is_derived ctx.caller ≡ false
    → mint_win_nft rt core now tx ctx uri content_hash w ≡ ok w₁
    → Reach rt pr core w₁ w₂
    → again.win_record ≡ ctx.win_record
    → mint_win_nft rt core later tx' again uri' content_hash' w₂ ≢ ok w₃
mint_win_nft_once rt pr core now later tx tx' ctx again uri uri' content_hash content_hash' w w₁ w₂
      w₃ gs v wallet done run same retried =
    let (win, _, _, _, _, _, _, _, _, _, _, _, written) =
      mint_win_nft_effect rt core now tx ctx uri content_hash w w₁ done in
    let new = record win { minted = true } in
    let fresh : IsMinted w₁ ctx.win_record = (
      new,
      ap (λ t. t.win_records ctx.win_record) written
          ∙ put_self w.win_records ctx.win_record (some new),
      refl,
    ) in
    let v₁ = mint_win_nft-WorldInv rt core now tx ctx uri content_hash w w₁ gs v wallet done in
    let (r, there, mark) = Reach-IsMinted rt pr core gs ctx.win_record run v₁ fresh in
    let (win', _, _, _, found, _, checked, _, _, _, _, _, _) =
      mint_win_nft_effect rt core later tx' again uri' content_hash' w₂ w₃ retried in
    let same_win : r ≡ win' =
      some-injective _ _ (sym there ∙ ap w₂.win_records (sym same) ∙ found) in
    cc (mark, same_win, checked.unminted)
