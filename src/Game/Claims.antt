-- ===== src/Game/Claims.antt =====
-- Claims of refunds under the invariant of the game (claim_refund.rs).
use toggld_program.Base.{ℕ, ◌+◌, ◌-◌, ◌≤◌, ◌<◌, ◌≡◌, ◌≢◌, false, some, none, arith, u64_size}
use toggld_program.Constants.{Pubkey}
use toggld_program.State.{GlobalState, PendingRefund}
use toggld_program.Outcome.{ok}
use toggld_program.Runtime.{Runtime, Balances, refund, derived-ne}
use toggld_program.World.{World, put, emit}
use toggld_program.Events.{refund_claimed}
use toggld_program.ClaimRefund.{set_balance, pay_out, check_claim, run_claim_refund, claim_refund}
use toggld_program.Game.Invariant.{WorldInv}

-- A balance after a payout.
paid_balances : Pubkey → Pubkey → ℕ → Balances → Balances
paid_balances from to n l = set_balance (set_balance l from (l from - n)) to (l to + n)

pay_out_succeeds :
    (from to : Pubkey) (n : ℕ) (l : Balances)
    → to ≢ from
    → n ≤ l from
    → l to + n < u64_size
    → pay_out from to n l ≡ ok (paid_balances from to n l)
unfolding pay_out paid_balances
pay_out_succeeds from to n l ne covered fits = ground arith

-- Under the invariant, the bidder of a refund account claims it at any time: the claim goes through
-- with the account's own addresses, if the account can be closed and the bidder's balance stays a
-- `u64`, and the account is gone after it.
pub claim_succeeds :
    (rt : Runtime) (w : World) (gs : GlobalState) (bidder : Pubkey) (slot : PendingRefund)
    → let account = rt.address (refund bidder) in
      WorldInv rt w gs
      → rt.is_derived bidder ≡ false
      → w.refunds account ≡ some slot
      → w.lamports bidder + slot.amount < u64_size
      → ((l : Balances) → (l' : Balances) × (rt.close account slot.rent_payer l ≡ ok l'))
      → (w' : World) × (claim_refund rt
            (record { claimant = bidder; pending_refund = account; rent_payer = slot.rent_payer })
            w
          ≡ ok w')
        × (w'.refunds account ≡ none)
unfolding claim_refund run_claim_refund check_claim
claim_succeeds rt w gs bidder slot v wallet there fits closes =
    let account = rt.address (refund bidder) in
    let s = v.refunds_backed bidder slot there in
    let paid =
      pay_out_succeeds account bidder slot.amount w.lamports
        (derived-ne rt bidder (refund bidder) wallet) (omega (arith, s.backed)) fits in
    let (closed, e) = closes (paid_balances account bidder slot.amount w.lamports) in
    (
      emit (refund_claimed (record { claimant = bidder; amount = slot.amount }))
          (record w { lamports = closed; refunds = put w.refunds account none }),
      ground (arith, s.owned, s.bumped, s.nonzero),
      ground arith,
    )
