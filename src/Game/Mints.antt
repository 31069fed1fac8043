-- ===== src/Game/Mints.antt =====
-- The invariant of the game across a mint (mint_win_nft.rs).
use mathlib.Core.Option.{some-injective}
use toggld_program.Base.{
  ℕ, ◌+◌, ◌≤◌, ◌<◌, ◌≡◌, true, false, some, none, inl, inr, List, arith, ap, sym, ◌∙◌, ◌==◌,
  if◌then◌else◌, Bool-cases, ==_iff,
}
use toggld_program.Base.Int.{ℤ}
use toggld_program.State.{GlobalState, WinRecord}
use toggld_program.Outcome.{ok}
use toggld_program.Runtime.{Runtime, Seeds, vault, refund, win_record, derived-ne}
use toggld_program.World.{World}
use toggld_program.WinNft.Core.{Core}
use toggld_program.WinNft.Attestation.{Transaction}
use toggld_program.WinNft.Mint.{MintWinNftAccounts, mint_win_nft}
use toggld_program.WinNft.Mint.Effect.{mint_win_nft_effect}
use toggld_program.Game.Invariant.{WorldInv}

module _ (rt : Runtime) (core : Core) (now : ℤ) (tx : Transaction) (ctx : MintWinNftAccounts)
    (uri content_hash : List ℕ) (w w' : World) (gs : GlobalState) (v : WorldInv rt w gs)
    (wallet : rt.is_derived ctx.caller ≡ false)
    (done : mint_win_nft rt core now tx ctx uri content_hash w ≡ ok w') where
  mint-grows : (s : Seeds) → w.lamports (rt.address s) ≤ w'.lamports (rt.address s)
  mint-grows s =
      let (_, _, _, _, _, _, _, _, _, _, _, called, _) =
        mint_win_nft_effect rt core now tx ctx uri content_hash w w' done in
      core.create_v1_charges _ w.lamports w'.lamports (rt.address s) called
        (λ e. derived-ne rt ctx.caller s wallet (sym e))

  -- An ordinal without a record has none after a mint.
  mint-unrecorded :
      (n : ℕ) → gs.holder_count ≤ n → w'.win_records (rt.address (win_record n)) ≡ none
  mint-unrecorded n h =
      let here = rt.address (win_record n) in
      let (win, _, _, _, found, _, _, _, _, _, _, _, written) =
        mint_win_nft_effect rt core now tx ctx uri content_hash w w' done in
      let absent = v.unrecorded n h in
      let seen = ap (λ t. t.win_records here) written in
      elim (Bool-cases (here == ctx.win_record)) [
        | inl same ↦
            let e : here ≡ ctx.win_record = (==_iff here ctx.win_record).0 same in
            absurd (cc (sym found ∙ ap w.win_records (sym e) ∙ absent))
        | inr other ↦ seen ∙ ground (arith, absent)
      ]

  -- A recorded win stays the same win.
  mint-recorded :
      (n : ℕ)
      → n < gs.holder_count
      → (r : WinRecord) × (w'.win_records (rt.address (win_record n)) ≡ some r)
        × (r.holder_count ≡ n + 1)
        × (n + 1 ≡ gs.holder_count → r.winner ≡ gs.holder)
  mint-recorded n h =
      let here = rt.address (win_record n) in
      let (win, _, _, _, found, _, _, _, _, _, _, _, written) =
        mint_win_nft_effect rt core now tx ctx uri content_hash w w' done in
      let (r, there, number, holder) = v.recorded n h in
      let seen = ap (λ t. t.win_records here) written in
      elim (Bool-cases (here == ctx.win_record)) [
        | inl same ↦
            let e : here ≡ ctx.win_record = (==_iff here ctx.win_record).0 same in
            let win_eq : win ≡ r =
              some-injective _ _ (sym found ∙ ap w.win_records (sym e) ∙ there) in
            (
              record win { minted = true },
              seen
                  ∙ ap (λ c. if c then some (record win { minted = true }) else w.win_records here)
                      same,
              ap (λ t. t.holder_count) win_eq ∙ number,
              λ last. ap (λ t. t.winner) win_eq ∙ holder last,
            )
        | inr other ↦ (r, seen ∙ ground (arith, there), number, holder)
      ]

  -- A mint by a wallet keeps the invariant.
  pub mint_win_nft-WorldInv : WorldInv rt w' gs
  mint_win_nft-WorldInv =
      let (_, _, _, _, _, _, _, _, _, _, _, _, written) =
        mint_win_nft_effect rt core now tx ctx uri content_hash w w' done in
      record {
        loaded = ap (λ t. t.global_state) written ∙ v.loaded;
        game = v.game;
        solvent = omega (arith, v.solvent, mint-grows vault);
        refunds_backed = λ b slot there.
            let old =
              v.refunds_backed b slot
                (ap (λ t. t.refunds (rt.address (refund b))) (sym written) ∙ there) in
            ground (arith, old, mint-grows (refund b));
        unrecorded = mint-unrecorded;
        recorded = mint-recorded;
      }
