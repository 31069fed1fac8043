-- ===== src/Examples/Settling.antt =====
-- The theorems on the end of the game and its payouts, at the short game.
use toggld_program.Base.{◌+◌, ◌≡◌, ◌≢◌, refl, some, none, arith, if◌then◌else◌, ◌==◌}
use toggld_program.Base.Int.{pos, ◌+ℤ◌, ◌≤ℤ◌}
use toggld_program.Constants.{incinerator, win_record_space}
use toggld_program.State.{GlobalState, PendingRefund}
use toggld_program.Outcome.{ok}
use toggld_program.Runtime.{Balances, vault, refund, win_record}
use toggld_program.Runtime.Sample.{sample, move}
use toggld_program.World.{World}
use toggld_program.Initialize.{initialize, check_initialize, fund_initialize}
use toggld_program.Challenge.{
  challenge, run_challenge, open_or_extend, open_refund, settle_previous, take_bid,
}
use toggld_program.Pure.{require_min_raise, compute_window_reset, compute_split}
use toggld_program.Settle.{settle, run_settle, close_window, pay_burn, record_win}
use toggld_program.Settle.Effect.{settled_state}
use toggld_program.ClaimRefund.{
  ClaimRefundAccounts, claim_refund, run_claim_refund, check_claim, pay_out,
}
use toggld_program.ClaimRefund.Effect.{claim_refund_effect}
use toggld_program.WithdrawTreasury.{WithdrawTreasuryAccounts, run_withdraw_treasury}
use toggld_program.WithdrawTreasury.Effect.{withdraw_treasury_effect}
use toggld_program.Game.Invariant.{WorldInv}
use toggld_program.Game.Payouts.{grown-WorldInv}
use toggld_program.Game.Deadlines.{settle_succeeds, preempted_stops}
use toggld_program.Game.Claims.{claim_succeeds}
use toggld_program.Examples.Scenario.{
  alice, bob, admin, treasury, world_of, went_through, raised, settler, settled_world,
}
use toggld_program.Examples.Bidding.{raised_gs, raised_inv}

abbrev burn_paid : Balances
burn_paid = move (sample.address vault) incinerator 1_020_000 raised.lamports

deadline_passed : raised_gs.window_end_ts ≤ℤ pos 1_060
unfolding ◌+ℤ◌
deadline_passed = omega arith

settle_succeeds_example :
    (w' : World) × (settle sample (pos 1_060) settler raised ≡ ok w')
    × (w'.global_state ≡ some (settled_state (pos 1_060) raised_gs))
    × ((settled_state (pos 1_060) raised_gs).holder ≡ bob)
unfolding initialize check_initialize fund_initialize challenge run_challenge open_or_extend
    open_refund settle_previous take_bid require_min_raise compute_window_reset ◌+ℤ◌
settle_succeeds_example =
    settle_succeeds sample (pos 1_060) settler raised_gs raised burn_paid
      (move alice (sample.address (win_record 1)) (sample.minimum_balance win_record_space)
        burn_paid)
      raised_inv refl deadline_passed refl refl (omega arith) (omega arith) (omega arith) refl
      (λ _. refl)

-- Somebody has sent a lamport to the address of the next win.
abbrev preempted : World
preempted = record raised {
  lamports = λ k. raised.lamports k + (if k == sample.address (win_record 1) then 1 else 0);
}

preempted_inv : WorldInv sample preempted raised_gs
preempted_inv =
    grown-WorldInv sample raised_gs raised_gs raised preempted raised_inv raised_inv.loaded
      raised_inv.game (refl, refl, refl, refl) refl refl (λ s. omega arith)

preempted_stops_example : settle sample (pos 1_060) settler preempted ≢ ok settled_world
preempted_stops_example =
    (preempted_stops sample (pos 1_060) raised_gs preempted preempted_inv refl deadline_passed
        (λ e. ground arith) (omega arith)).0
      settler settled_world

abbrev alices_slot : PendingRefund
alices_slot = record { bidder = alice; amount = 1_050_000; bump = 255; rent_payer = bob }

alices_slot_eq : raised.refunds (sample.address (refund alice)) ≡ some alices_slot
unfolding initialize check_initialize fund_initialize challenge run_challenge open_or_extend
    open_refund settle_previous take_bid require_min_raise compute_window_reset ◌+ℤ◌
alices_slot_eq = refl

abbrev alices_claim : ClaimRefundAccounts
alices_claim = record {
  claimant = alice;
  pending_refund = sample.address (refund alice);
  rent_payer = bob;
}

claim_succeeds_example :
    (w' : World) × (claim_refund sample alices_claim raised ≡ ok w')
    × (w'.refunds (sample.address (refund alice)) ≡ none)
unfolding initialize check_initialize fund_initialize challenge run_challenge open_or_extend
    open_refund settle_previous take_bid require_min_raise compute_window_reset ◌+ℤ◌
claim_succeeds_example =
    claim_succeeds sample raised raised_gs alice alices_slot raised_inv refl alices_slot_eq
      (omega arith)
      (λ l. (
        move (sample.address (refund alice)) bob (l (sample.address (refund alice))) l,
        ground arith,
      ))

abbrev claimed : World
claimed = world_of (run_claim_refund sample alices_claim alices_slot raised)

claimed_eq : run_claim_refund sample alices_claim alices_slot raised ≡ ok claimed
unfolding initialize check_initialize fund_initialize challenge run_challenge open_or_extend
    open_refund settle_previous take_bid require_min_raise compute_window_reset ◌+ℤ◌
    run_claim_refund check_claim pay_out
claimed_eq = went_through _ refl

claim_refund_effect_example : claimed.refunds (sample.address (refund alice)) ≡ none
claim_refund_effect_example =
    let (_, _, _, _, _, _, written) =
      claim_refund_effect sample alices_claim alices_slot raised claimed refl claimed_eq in
    λ i. (written i).refunds (sample.address (refund alice))

abbrev withdrawal : WithdrawTreasuryAccounts
withdrawal = record { admin = admin; treasury = treasury }

abbrev settled_gs : GlobalState
settled_gs = settled_state (pos 1_060) raised_gs

abbrev withdrawn : World
withdrawn = world_of (run_withdraw_treasury sample (pos 2_000) withdrawal settled_gs settled_world)

withdrawn_eq :
    run_withdraw_treasury sample (pos 2_000) withdrawal settled_gs settled_world ≡ ok withdrawn
unfolding initialize check_initialize fund_initialize challenge run_challenge open_or_extend
    open_refund settle_previous take_bid require_min_raise compute_window_reset ◌+ℤ◌ settle
    run_settle close_window pay_burn record_win compute_split run_withdraw_treasury
withdrawn_eq = went_through _ refl

withdraw_treasury_effect_example :
    withdrawn.global_state ≡ some (record settled_gs { treasury_balance = 0 })
withdraw_treasury_effect_example =
    let (_, _, _, _, written) =
      withdraw_treasury_effect sample (pos 2_000) withdrawal settled_gs settled_world withdrawn
        withdrawn_eq in
    λ i. (written i).global_state
