-- ===== src/ClaimRefund.antt =====
-- programs/toggld/src/instructions/claim_refund.rs: an outbid bidder takes the refund, and the
-- account's rent goes back to whoever paid it.
pub mod Effect
use toggld_program.Base.{
  ℕ, ◌-◌, ◌+◌, ◌≡◌, Bool, true, false, Option, none, some, ◌==◌, ◌&&◌, if◌then◌else◌, u64_size,
  checked_add, checked_sub, ltb,
}
use toggld_program.Constants.{Pubkey}
use toggld_program.State.{PendingRefund}
use toggld_program.Outcome.{
  Result, ok, constraint, ◌>>=◌, ◌>>◌, require, constrain, ok_or, or_panic, seeds, not_initialized,
  nothing_to_refund, invalid_rent_payer,
}
use toggld_program.Runtime.{Runtime, Balances, refund}
use toggld_program.World.{World, put, emit}
use toggld_program.Events.{refund_claimed}

-- What a caller supplies.
pub record ClaimRefundAccounts : Type 0 where
  pub claimant : Pubkey
  pub pending_refund : Pubkey
  pub rent_payer : Pubkey

-- A balance is overwritten.
abbrev pub set_balance : Balances → Pubkey → ℕ → Balances
set_balance l k n j = if j == k then n else l j

-- `-= amount` on one account and `+= amount` on another, with overflow checks.
unfoldable pub pay_out : Pubkey → Pubkey → ℕ → Balances → Result Balances
pay_out from to amount l = do
  left ← or_panic (checked_sub (l from) amount)
  let debited = set_balance l from left
  gained ← or_panic (checked_add u64_size (debited to) amount)
  ok (set_balance debited to gained)

module _ (rt : Runtime) where
  -- The account constraints, and the guard of the handler.
  unfoldable pub check_claim : ClaimRefundAccounts → PendingRefund → Result (Unit {0})
  check_claim ctx slot = do
    constrain
        (ctx.pending_refund == rt.address (refund slot.bidder)
          && slot.bump == rt.bump (refund slot.bidder))
        seeds
    require (slot.bidder == ctx.claimant) nothing_to_refund
    require (ctx.rent_payer == slot.rent_payer) invalid_rent_payer
    require (ltb 0 slot.amount) nothing_to_refund

  unfoldable pub run_claim_refund : ClaimRefundAccounts → PendingRefund → World → Result World
  run_claim_refund ctx slot w = do
    check_claim ctx slot
    paid ← pay_out ctx.pending_refund ctx.claimant slot.amount w.lamports
    closed ← rt.close ctx.pending_refund ctx.rent_payer paid
    ok (
        emit (refund_claimed (record { claimant = ctx.claimant; amount = slot.amount }))
          (record w { lamports = closed; refunds = put w.refunds ctx.pending_refund none }))

  unfoldable pub claim_refund : ClaimRefundAccounts → World → Result World
  claim_refund ctx w = do
    slot ← ok_or (w.refunds ctx.pending_refund) (constraint not_initialized)
    run_claim_refund ctx slot w
