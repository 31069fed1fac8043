-- ===== src/Game/Payouts.antt =====
-- The invariant of the game across its payouts and its first instruction.
use toggld_program.Base.{ℕ, ◌≤◌, ◌<◌, ◌≡◌, refl, false, some, none, u64_size, arith, ap, sym, ◌∙◌}
use toggld_program.Base.Int.{ℤ}
use toggld_program.Constants.{Pubkey}
use toggld_program.State.{GlobalState, PendingRefund}
use toggld_program.Outcome.{ok}
use toggld_program.Runtime.{
  Runtime, Seeds, vault, refund, win_record, win_record-injective, address-ne,
}
use toggld_program.World.{World, put, put_self}
use toggld_program.ClaimRefund.{ClaimRefundAccounts, run_claim_refund}
use toggld_program.ClaimRefund.Effect.{claim_refund_effect}
use toggld_program.WithdrawTreasury.{WithdrawTreasuryAccounts, run_withdraw_treasury}
use toggld_program.WithdrawTreasury.Effect.{withdraw_treasury_effect}
use toggld_program.Initialize.{InitializeAccounts, initialize, genesis_state, genesis_win}
use toggld_program.Initialize.Effect.{initialize_effect}
use toggld_program.Game.Invariant.{GameInv, WorldInv}

-- A change that leaves the refunds and the wins alone, takes nothing from a derived account and
-- keeps the money and the holder of the state.
pub grown-WorldInv :
    (rt : Runtime) (gs gs' : GlobalState) (w w' : World)
    → WorldInv rt w gs
    → w'.global_state ≡ some gs'
    → GameInv rt gs'
    → (gs'.escrowed_amount ≡ gs.escrowed_amount)
      × (gs'.treasury_balance ≡ gs.treasury_balance)
      × (gs'.holder_count ≡ gs.holder_count)
      × (gs'.holder ≡ gs.holder)
    → w'.refunds ≡ w.refunds
    → w'.win_records ≡ w.win_records
    → ((s : Seeds) → w.lamports (rt.address s) ≤ w'.lamports (rt.address s))
    → WorldInv rt w' gs'
grown-WorldInv rt gs gs' w w' v loaded game (e₁, e₂, e₃, e₄) refunds wins grown = record {
  loaded = loaded;
  game = game;
  solvent = omega (arith, v.solvent, grown vault, e₁, e₂);
  refunds_backed = λ b slot there.
      let old =
        v.refunds_backed b slot (ap (λ f. f (rt.address (refund b))) (sym refunds) ∙ there) in
      ground (arith, old, grown (refund b));
  unrecorded = λ n h. ap (λ f. f (rt.address (win_record n))) wins ∙ v.unrecorded n (ground arith);
  recorded = λ n h.
      let (r, there, number, holder) = v.recorded n (ground arith) in
      (
        r,
        ap (λ f. f (rt.address (win_record n))) wins ∙ there,
        number,
        λ last. holder (last ∙ e₃) ∙ sym e₄,
      );
}

-- A withdrawal keeps the invariant.
pub run_withdraw_treasury-WorldInv :
    (rt : Runtime) (now : ℤ) (ctx : WithdrawTreasuryAccounts) (gs : GlobalState) (w w' : World)
    → WorldInv rt w gs
    → run_withdraw_treasury rt now ctx gs w ≡ ok w'
    → WorldInv rt w' (record gs { treasury_balance = 0 })
run_withdraw_treasury-WorldInv rt now ctx gs w w' v done =
    let (_, _, _, moves, written) = withdraw_treasury_effect rt now ctx gs w w' done in
    record {
      loaded = ap (λ t. t.global_state) written;
      game = ground (arith, v.game);
      solvent = ground (arith, moves (rt.address vault), v.solvent);
      refunds_backed = λ b slot there.
          let r = address-ne rt (refund b) vault (λ e. cc) in
          let old =
            v.refunds_backed b slot
              (ap (λ t. t.refunds (rt.address (refund b))) (sym written) ∙ there) in
          ground (arith, moves (rt.address (refund b)), r, old);
      unrecorded =
          λ n h. ap (λ t. t.win_records (rt.address (win_record n))) written ∙ v.unrecorded n h;
      recorded = λ n h.
          let (r, there, number, holder) = v.recorded n h in
          (r, ap (λ t. t.win_records (rt.address (win_record n))) written ∙ there, number, holder);
    }

-- A claim keeps the invariant.
pub run_claim_refund-WorldInv :
    (rt : Runtime) (ctx : ClaimRefundAccounts) (slot : PendingRefund) (gs : GlobalState)
    (w w' : World)
    → WorldInv rt w gs
    → rt.is_derived ctx.claimant ≡ false
    → run_claim_refund rt ctx slot w ≡ ok w'
    → WorldInv rt w' gs
run_claim_refund-WorldInv rt ctx slot gs w w' v wallet done =
    let account = rt.address (refund ctx.claimant) in
    let (_, _, _, _, covered, moves, written) = claim_refund_effect rt ctx slot w w' wallet done in
    record {
      loaded = ap (λ t. t.global_state) written ∙ v.loaded;
      game = v.game;
      solvent = ground (
        arith,
        moves (rt.address vault),
        address-ne rt vault (refund ctx.claimant) (λ e. cc),
        v.solvent,
      );
      refunds_backed = λ b other there.
          let here = rt.address (refund b) in
          let found : put w.refunds account none here ≡ some other =
            ap (λ t. t.refunds here) (sym written) ∙ there in
          ground (arith, moves here, v.refunds_backed b other);
      unrecorded =
          λ n h. ap (λ t. t.win_records (rt.address (win_record n))) written ∙ v.unrecorded n h;
      recorded = λ n h.
          let (r, there, number, holder) = v.recorded n h in
          (r, ap (λ t. t.win_records (rt.address (win_record n))) written ∙ there, number, holder);
    }

-- The initialization of a world without refunds and wins establishes the invariant.
pub initialize-WorldInv :
    (rt : Runtime) (now : ℤ) (ctx : InitializeAccounts) (treasury admin : Pubkey) (price : ℕ)
    (w w' : World)
    → rt.is_derived ctx.payer ≡ false
    → price < u64_size
    → ((k : Pubkey) → w.refunds k ≡ none)
    → ((k : Pubkey) → w.win_records k ≡ none)
    → initialize rt now ctx treasury admin price w ≡ ok w'
    → WorldInv rt w' (genesis_state now treasury admin price (rt.bump vault))
initialize-WorldInv rt now ctx treasury admin price w w' wallet fits no_refunds no_wins done =
    let (p, funded, written) = initialize_effect rt now ctx treasury admin price w w' wallet done in
    let win = genesis_win now treasury (rt.bump (win_record 0)) in
    let first = rt.address (win_record 0) in
    record {
      loaded = ap (λ t. t.global_state) written;
      game = ground (arith, p.price_pos);
      solvent = omega (arith, funded);
      refunds_backed = λ b slot there.
          let absent = ap (λ t. t.refunds (rt.address (refund b))) written ∙ no_refunds _ in
          ground (arith, absent);
      unrecorded = λ n h.
          let apart =
            address-ne rt (win_record n) (win_record 0)
              (λ e. ground (arith, win_record-injective e)) in
          ap (λ t. t.win_records (rt.address (win_record n))) written
          ∙ ground (arith, no_wins (rt.address (win_record n)));
      recorded = λ n h.
          let zero_eq : n ≡ 0 = omega (arith, h) in
          (
            win,
            ap (λ t. t.win_records (rt.address (win_record n))) written
                ∙ ap (λ m. put w.win_records first (some win) (rt.address (win_record m))) zero_eq
                ∙ put_self w.win_records first (some win),
            omega (arith, zero_eq),
            λ _. refl,
          );
    }
