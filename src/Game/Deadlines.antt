-- ===== src/Game/Deadlines.antt =====
-- Bids and settlements before and after the deadline of a window (challenge.rs, settle.rs).
use toggld_program.Base.{
  ℕ, ◌+◌, ◌-◌, ◌<◌, ◌≡◌, ◌≢◌, true, some, inl, inr, u64_size, arith, sym, ◌∙◌, Bool-cases, refl,
}
use toggld_program.Base.Int.{ℤ, ◌≤ℤ◌}
use toggld_program.Constants.{win_record_space}
use toggld_program.State.{GlobalState}
use toggld_program.Outcome.{ok}
use toggld_program.Pure.Split.{compute_split-eq}
use toggld_program.Runtime.{Runtime, Balances, vault, win_record}
use toggld_program.World.{World, put, emit}
use toggld_program.Events.{settled}
use toggld_program.Challenge.{ChallengeAccounts, challenge}
use toggld_program.Challenge.Effect.{outbid_effect}
use toggld_program.Settle.{SettleAccounts, close_window, pay_burn, record_win, run_settle, settle}
use toggld_program.Settle.Effect.{
  is_flip, fee_of, settle_event, settled_state, settlement_of, win_of, settle_effect,
}
use toggld_program.Game.Invariant.{GameInv, WorldInv}
use toggld_program.Game.Bids.{challenge_loaded}
use toggld_program.Game.Settlements.{settle_loaded}

-- Under the invariant, a window past its deadline closes as long as the counters have room.
pub close_window_succeeds :
    (rt : Runtime) (now : ℤ) (gs : GlobalState)
    → GameInv rt gs
    → gs.window_active ≡ true
    → gs.window_end_ts ≤ℤ now
    → gs.holder_count + 1 < u64_size
    → gs.total_challenges + 1 < u64_size
    → gs.treasury_balance + fee_of gs < u64_size
    → close_window now gs ≡ ok (settled_state now gs, settlement_of now gs)
unfolding close_window
close_window_succeeds rt now gs v active over count rounds balance =
    ground (arith, compute_split-eq gs.top_bid_amount gs.fee_bps)

-- Under the invariant and past the deadline, a settlement with the right accounts goes through,
-- if the vault's burn and, on a flip, the account of the win do, and the counters have room. It
-- then closes the window, pays the fee to the treasury's balance, and crowns the top bidder.
pub settle_succeeds :
    (rt : Runtime) (now : ℤ) (ctx : SettleAccounts) (gs : GlobalState) (w : World) (l l' : Balances)
    → WorldInv rt w gs
    → gs.window_active ≡ true
    → gs.window_end_ts ≤ℤ now
    → ctx.burn_address ≡ gs.burn_address
    → ctx.win_record ≡ rt.address (win_record gs.holder_count)
    → gs.holder_count + 1 < u64_size
    → gs.total_challenges + 1 < u64_size
    → gs.treasury_balance + fee_of gs < u64_size
    → rt.transfer (rt.address vault) ctx.burn_address (gs.top_bid_amount - fee_of gs) w.lamports
      ≡ ok l
    → (is_flip gs ≡ true
        → rt.create_account ctx.caller ctx.win_record (rt.minimum_balance win_record_space) l
          ≡ ok l')
    → (w' : World) × (settle rt now ctx w ≡ ok w')
      × (w'.global_state ≡ some (settled_state now gs))
      × ((settled_state now gs).holder ≡ gs.top_bidder)
unfolding settle run_settle pay_burn record_win
settle_succeeds rt now ctx gs w l l' v active over burn win count rounds balance paid created =
    let closed = close_window_succeeds rt now gs v.game active over count rounds balance in
    elim (Bool-cases (is_flip gs)) [
      | inl flip ↦ (
        emit (settled (settle_event gs)) (record w {
          lamports = l';
          global_state = some (settled_state now gs);
          win_records = put w.win_records ctx.win_record (some (win_of rt now gs));
        }),
        ground (arith, v.loaded, created flip),
        refl,
        ground arith,
      )
      | inr kept ↦ (
        emit (settled (settle_event gs))
            (record w { lamports = l; global_state = some (settled_state now gs) }),
        ground (arith, v.loaded),
        refl,
        ground arith,
      )
    ]

-- Under the invariant, lamports at the address of the next win, which anyone can send there, stop
-- the game: past the deadline of a window that a challenger leads, no settlement goes through, since
-- the account of the win cannot be created, and no bid does, since the window awaits its settlement.
pub preempted_stops :
    (rt : Runtime) (now : ℤ) (gs : GlobalState) (w : World)
    → WorldInv rt w gs
    → gs.window_active ≡ true
    → gs.window_end_ts ≤ℤ now
    → gs.top_bidder ≢ gs.holder
    → 0 < w.lamports (rt.address (win_record gs.holder_count))
    → ((ctx : SettleAccounts) (w' : World) → settle rt now ctx w ≢ ok w')
      × ((ctx : ChallengeAccounts) (bid : ℕ) (w' : World) → challenge rt now ctx bid w ≢ ok w')
preempted_stops rt now gs w v active over flips sent = (
  λ ctx w' done.
      let (_, _, _, _, _, vacant) =
        settle_effect rt now ctx gs w w' (sym (settle_loaded rt now ctx gs w v.loaded) ∙ done) in
      ground arith,
  λ ctx bid w' done.
      let (_, o, _, _, _, _, _, _) =
        outbid_effect rt now ctx bid gs w w'
          (sym (challenge_loaded rt now ctx bid gs w v.loaded) ∙ done)
          (v.game.open_bidder active) in
      ground (arith, o.in_time active),
)
