-- ===== src/Game/Settlements.antt =====
-- The invariant of the game across a settlement (settle.rs).
use toggld_program.Base.{
  ℕ, ◌+◌, ◌≤◌, ◌<◌, ◌≡◌, ◌≢◌, false, some, none, inl, inr, arith, ap, sym, ◌∙◌, ◌==◌, Bool-cases,
}
use toggld_program.Base.Int.{ℤ}
use toggld_program.Constants.{incinerator}
use toggld_program.State.{GlobalState, WinRecord}
use toggld_program.Outcome.{ok, ok_or-bind}
use toggld_program.Runtime.{
  Runtime, vault, burn_vault, refund, win_record, win_record-injective, address-ne, derived-ne,
}
use toggld_program.World.{World, Accounts, put, put_self}
use toggld_program.Settle.{SettleAccounts, settle, run_settle}
use toggld_program.Settle.Effect.{Closed, is_flip, settled_state, win_of, settle_effect}
use toggld_program.Game.Invariant.{GameInv, WorldInv}

-- A settlement of a loaded state runs on it.
pub settle_loaded :
    (rt : Runtime) (now : ℤ) (ctx : SettleAccounts) (gs : GlobalState) (w : World)
    → w.global_state ≡ some gs
    → settle rt now ctx w ≡ run_settle rt now ctx gs w
unfolding settle
settle_loaded rt now ctx gs w e = ok_or-bind w.global_state _ (λ g. run_settle rt now ctx g w) gs e

settled_state-GameInv :
    (rt : Runtime) (now : ℤ) (gs : GlobalState)
    → GameInv rt gs
    → Closed now gs
    → GameInv rt (settled_state now gs)
settled_state-GameInv rt now gs v c = let raised = v.open_raised c.active in ground arith

-- The burn address is not the vault.
burn_address-ne :
    (rt : Runtime) (gs : GlobalState) → GameInv rt gs → gs.burn_address ≢ rt.address vault
burn_address-ne rt gs v = elim v.burns [
  | inl burned ↦ λ e. derived-ne rt incinerator vault rt.incinerator_not_derived (sym burned ∙ e)
  | inr swept ↦ λ e. address-ne rt burn_vault vault (λ q. cc) (sym swept ∙ e)
]

-- A write at one ordinal is not seen at another.
put-win_record :
    (rt : Runtime) (f : Accounts WinRecord) (m n : ℕ) (r : WinRecord)
    → m ≢ n
    → put f (rt.address (win_record m)) (some r) (rt.address (win_record n))
      ≡ f (rt.address (win_record n))
put-win_record rt f m n r ne =
    let apart : rt.address (win_record n) ≢ rt.address (win_record m) =
      address-ne rt (win_record n) (win_record m) (λ e. ne (sym (win_record-injective e))) in
    ground arith

module _ (rt : Runtime) (now : ℤ) (ctx : SettleAccounts) (gs : GlobalState) (w w' : World)
    (v : WorldInv rt w gs) (wallet : rt.is_derived ctx.caller ≡ false)
    (done : run_settle rt now ctx gs w ≡ ok w') where
  -- The records after the settlement: with the new one on a flip, and otherwise the old ones.
  unrecorded_after :
      (n : ℕ)
      → (settled_state now gs).holder_count ≤ n
      → w'.win_records (rt.address (win_record n)) ≡ none
  unrecorded_after n h =
      let (_, _, _, _, written, _) = settle_effect rt now ctx gs w w' done in
      let seen = ap (λ t. t.win_records (rt.address (win_record n))) written in
      ground (
        arith,
        seen,
        put-win_record rt w.win_records gs.holder_count n (win_of rt now gs),
        v.unrecorded n,
      )

  recorded_after :
      (n : ℕ)
      → n < (settled_state now gs).holder_count
      → (r : WinRecord) × (w'.win_records (rt.address (win_record n)) ≡ some r)
        × (r.holder_count ≡ n + 1)
        × (n + 1 ≡ (settled_state now gs).holder_count → r.winner ≡ (settled_state now gs).holder)
  recorded_after n h =
      let (_, _, _, _, written, _) = settle_effect rt now ctx gs w w' done in
      let seen = ap (λ t. t.win_records (rt.address (win_record n))) written in
      let latest =
        put_self w.win_records (rt.address (win_record gs.holder_count))
          (some (win_of rt now gs)) in
      elim (Bool-cases (is_flip gs)) [
        | inl flip ↦ elim (Bool-cases (n == gs.holder_count)) [
          | inl new ↦ (win_of rt now gs, ground (arith, seen, latest), ground arith, ground arith)
          | inr old ↦
              let (r, there, number, holder) = v.recorded n (ground arith) in
              (
                r,
                ground (
                  arith,
                  seen,
                  put-win_record rt w.win_records gs.holder_count n (win_of rt now gs),
                ),
                number,
                ground arith,
              )
        ]
        | inr kept ↦
            let (r, there, number, holder) = v.recorded n (ground arith) in
            (r, ground (arith, seen), number, ground arith)
      ]

  -- A settlement called by a wallet keeps the invariant.
  pub run_settle-WorldInv : WorldInv rt w' (settled_state now gs)
  run_settle-WorldInv =
      let (_, _, c, moves, written, _) = settle_effect rt now ctx gs w w' done in
      let burn = burn_address-ne rt gs v.game in
      let p = derived-ne rt ctx.caller vault wallet in
      let q = address-ne rt (win_record gs.holder_count) vault (λ e. cc) in
      record {
        loaded = ap (λ t. t.global_state) written;
        game = settled_state-GameInv rt now gs v.game c;
        solvent = ground (
          arith,
          moves (rt.address vault),
          p,
          q,
          burn,
          v.solvent,
          c.fee_fits,
          c.covered,
          v.game.escrow_eq,
        );
        refunds_backed = λ b slot there.
            let p' = derived-ne rt ctx.caller (refund b) wallet in
            let q' = address-ne rt (refund b) vault (λ e. cc) in
            let old =
              v.refunds_backed b slot
                (ap (λ t. t.refunds (rt.address (refund b))) (sym written) ∙ there) in
            ground (arith, moves (rt.address (refund b)), p', q', old);
        unrecorded = unrecorded_after;
        recorded = recorded_after;
      }
