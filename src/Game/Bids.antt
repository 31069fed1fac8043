-- ===== src/Game/Bids.antt =====
-- The invariant of the game across a bid (challenge.rs).
use toggld_program.Base.{
  ℕ, ◌+◌, ◌-◌, ◌*◌, ◌≤◌, ◌<◌, ◌≡◌, ◌≢◌, true, false, some, inl, inr, u64_size, arith, subst, ap,
  sym, ◌∙◌, ◌==◌, if◌then◌else◌, Bool-cases, Option-cases, ==_iff,
}
use mathlib.Core.Option.{some-injective}
use toggld_program.Base.Int.{ℤ}
use toggld_program.Constants.{Pubkey, default}
use toggld_program.State.{GlobalState, PendingRefund}
use toggld_program.Outcome.{ok, ok_or-bind}
use toggld_program.Runtime.{
  Runtime, vault, refund, win_record, refund-injective, address-ne, derived-ne,
}
use toggld_program.World.{World, put}
use toggld_program.Challenge.{ChallengeAccounts, challenge, run_challenge}
use toggld_program.Challenge.Blocks.{Opened, base_price, reserve}
use toggld_program.Challenge.Effect.{bid_state, outbid_slot, cold_effect, outbid_effect}
use toggld_program.Game.Invariant.{GameInv, SlotInv, WorldInv}

-- A bid on a loaded state runs on it.
pub challenge_loaded :
    (rt : Runtime) (now : ℤ) (ctx : ChallengeAccounts) (bid : ℕ) (gs : GlobalState) (w : World)
    → w.global_state ≡ some gs
    → challenge rt now ctx bid w ≡ run_challenge rt now ctx bid gs w
unfolding challenge
challenge_loaded rt now ctx bid gs w e =
    ok_or-bind w.global_state _ (λ g. run_challenge rt now ctx bid g w) gs e

raised_plain :
    (challenger : Pubkey) (now : ℤ) (bid : ℕ) (rt : Runtime) (gs : GlobalState)
    → GameInv rt gs
    → Opened now challenger bid gs
    → base_price gs * 10_500 ≤ bid * 10_000
raised_plain challenger now bid rt gs v o =
    subst (λ r. base_price gs * (10_000 + r) ≤ bid * 10_000) v.raise_rate o.raised

bid_state-GameInv :
    (rt : Runtime) (now : ℤ) (challenger : Pubkey) (bid escrow : ℕ) (gs : GlobalState)
    → GameInv rt gs
    → Opened now challenger bid gs
    → challenger ≢ default
    → bid < u64_size
    → escrow ≡ 0
    → GameInv rt (bid_state now challenger bid escrow gs)
bid_state-GameInv rt now challenger bid escrow gs v o ne fits none_left =
    ground (arith, raised_plain challenger now bid rt gs v o)

-- The state after a bid, under the invariant: the new bid is all of the escrow.
abbrev pub after_bid : ℤ → Pubkey → ℕ → GlobalState → GlobalState
after_bid now challenger bid gs =
    bid_state now challenger bid (gs.escrowed_amount - gs.top_bid_amount) gs

-- The refund account of the bidder who is outbid is backed after the bid.
outbid_slot-SlotInv :
    (rt : Runtime) (w : World) (gs : GlobalState) (challenger : Pubkey) (after : ℕ)
    → let account = rt.address (refund gs.top_bidder) in
      gs.top_bidder ≢ default
      → 0 < gs.top_bid_amount
      → ((slot : PendingRefund)
          → w.refunds account ≡ some slot
          → SlotInv rt gs.top_bidder (w.lamports account) slot)
      → w.lamports account + (reserve rt w account + gs.top_bid_amount) ≤ after
      → SlotInv rt gs.top_bidder after (outbid_slot rt w gs challenger)
outbid_slot-SlotInv rt w gs challenger after real paid backed grown =
    let account = rt.address (refund gs.top_bidder) in
    elim (Option-cases (w.refunds account)) [
      | inl absent ↦ ground arith
      | inr (slot, there) ↦ ground (arith, backed slot there)
    ]

module _ (rt : Runtime) (now : ℤ) (ctx : ChallengeAccounts) (bid : ℕ) (gs : GlobalState)
    (w w' : World) (v : WorldInv rt w gs) (wallet : rt.is_derived ctx.challenger ≡ false)
    (real : ctx.challenger ≢ default) (fits : bid < u64_size)
    (done : run_challenge rt now ctx bid gs w ≡ ok w') where
  cold_inv : gs.window_active ≡ false → WorldInv rt w' (after_bid now ctx.challenger bid gs)
  cold_inv idle =
      let (_, o, moves, written, _) =
        cold_effect rt now ctx bid gs w w' done (v.game.idle_bidder idle) in
      let none_left : gs.escrowed_amount - gs.top_bid_amount ≡ 0 =
        omega (arith, v.game.escrow_eq) in
      let same : gs.escrowed_amount ≡ gs.escrowed_amount - gs.top_bid_amount =
        omega (arith, v.game.escrow_eq, v.game.idle_bid idle) in
      let escrow_zero : gs.escrowed_amount ≡ 0 =
        omega (arith, v.game.escrow_eq, v.game.idle_bid idle) in
      let p = derived-ne rt ctx.challenger vault wallet in
      record {
        loaded =
            ap (λ t. t.global_state) written
            ∙ ap (λ n. some (bid_state now ctx.challenger bid n gs)) same;
        game = bid_state-GameInv rt now ctx.challenger bid _ gs v.game o real fits none_left;
        solvent = ground (arith, moves (rt.address vault), p, v.solvent);
        refunds_backed = λ b slot there.
            let q = derived-ne rt ctx.challenger (refund b) wallet in
            let r = address-ne rt (refund b) vault (λ e. cc) in
            let old =
              v.refunds_backed b slot
                (ap (λ t. t.refunds (rt.address (refund b))) (sym written) ∙ there) in
            ground (arith, moves (rt.address (refund b)), q, r, old);
        unrecorded =
            λ n h. ap (λ t. t.win_records (rt.address (win_record n))) written ∙ v.unrecorded n h;
        recorded = λ n h.
            let (r, there, number, holder) = v.recorded n h in
            (
              r,
              ap (λ t. t.win_records (rt.address (win_record n))) written ∙ there,
              number,
              holder,
            );
      }

  -- A refund account after a bid against a top bidder: that bidder's, or one that has not changed.
  outbid_backed :
      gs.window_active ≡ true
      → (b : Pubkey) (slot : PendingRefund) → w'.refunds (rt.address (refund b)) ≡ some slot
      → SlotInv rt b (w'.lamports (rt.address (refund b))) slot
  outbid_backed active b slot found =
      let account = rt.address (refund gs.top_bidder) in
      let here = rt.address (refund b) in
      let real' = v.game.open_bidder active in
      let (_, _, moves, written, _, _, _, _) = outbid_effect rt now ctx bid gs w w' done real' in
      let p = derived-ne rt ctx.challenger (refund b) wallet in
      let q = address-ne rt (refund b) vault (λ e. cc) in
      let found' : put w.refunds account (some (outbid_slot rt w gs ctx.challenger)) here
          ≡ some slot =
        ap (λ t. t.refunds here) (sym written) ∙ found in
      elim (Bool-cases (here == account)) [
        | inl same ↦
            let e : b ≡ gs.top_bidder = refund-injective (
              rt.address_injective (refund b) (refund gs.top_bidder)
                ((==_iff here account).0 same)) in
            let kept =
              outbid_slot-SlotInv rt w gs ctx.challenger (w'.lamports account) real'
                (omega (arith, v.game.open_raised active, v.game.price_pos))
                (v.refunds_backed gs.top_bidder)
                (ground (
                  arith,
                  moves account,
                  derived-ne rt ctx.challenger (refund gs.top_bidder) wallet,
                  address-ne rt (refund gs.top_bidder) vault (λ e. cc),
                )) in
            let slot_eq : outbid_slot rt w gs ctx.challenger ≡ slot = some-injective _ _ (
              ap (λ c. if c then some (outbid_slot rt w gs ctx.challenger) else w.refunds here)
                (sym same)
              ∙ found') in
            subst (λ t. SlotInv rt b (w'.lamports (rt.address (refund b))) t) slot_eq
              (subst
                (λ c.
                  SlotInv rt c (w'.lamports (rt.address (refund c)))
                    (outbid_slot rt w gs ctx.challenger))
                (sym e) kept)
        | inr other ↦ ground (arith, moves here, p, q, v.refunds_backed b slot)
      ]

  outbid_inv : gs.window_active ≡ true → WorldInv rt w' (after_bid now ctx.challenger bid gs)
  outbid_inv active =
      let account = rt.address (refund gs.top_bidder) in
      let real' = v.game.open_bidder active in
      let (_, o, moves, written, _, _, _, _) = outbid_effect rt now ctx bid gs w w' done real' in
      let none_left : gs.escrowed_amount - gs.top_bid_amount ≡ 0 =
        omega (arith, v.game.escrow_eq) in
      let paid : 0 < gs.top_bid_amount =
        omega (arith, v.game.open_raised active, v.game.price_pos) in
      let p = derived-ne rt ctx.challenger vault wallet in
      let q = address-ne rt vault (refund gs.top_bidder) (λ e. cc) in
      record {
        loaded = ap (λ t. t.global_state) written;
        game = bid_state-GameInv rt now ctx.challenger bid _ gs v.game o real fits none_left;
        solvent = ground (arith, moves (rt.address vault), p, q, v.solvent, v.game.escrow_eq);
        refunds_backed = outbid_backed active;
        unrecorded =
            λ n h. ap (λ t. t.win_records (rt.address (win_record n))) written ∙ v.unrecorded n h;
        recorded = λ n h.
            let (r, there, number, holder) = v.recorded n h in
            (
              r,
              ap (λ t. t.win_records (rt.address (win_record n))) written ∙ there,
              number,
              holder,
            );
      }

  -- A bid by a wallet keeps the invariant.
  pub run_challenge-WorldInv : WorldInv rt w' (after_bid now ctx.challenger bid gs)
  run_challenge-WorldInv = elim (Bool-cases gs.window_active) [
    | inl active ↦ outbid_inv active
    | inr idle ↦ cold_inv idle
  ]
