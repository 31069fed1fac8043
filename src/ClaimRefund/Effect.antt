-- ===== src/ClaimRefund/Effect.antt =====
-- What a successful claim has done.
use toggld_program.Base.{
  ℕ, ◌+◌, ◌-◌, ◌≤◌, ◌<◌, ◌≡◌, ◌≢◌, false, none, arith, ◌==◌, if◌then◌else◌, sym, ap, ◌∙◌,
}
use toggld_program.Constants.{Pubkey}
use toggld_program.State.{PendingRefund}
use toggld_program.Outcome.{ok, >>=-eq-ok, ok-injective}
use toggld_program.Runtime.{Runtime, Balances, refund, Moves, derived-ne}
use toggld_program.World.{World, put, emit}
use toggld_program.Events.{refund_claimed}
use toggld_program.ClaimRefund.{ClaimRefundAccounts, pay_out, check_claim, run_claim_refund}

-- Between two accounts that differ, the debit and the credit move the amount, which is covered.
pay_out_done :
    (from to : Pubkey) (n : ℕ) (l l' : Balances)
    → from ≢ to
    → pay_out from to n l ≡ ok l'
    → Moves l from to n l' × (n ≤ l from)
unfolding pay_out
pay_out_done from to n l l' ne h = (λ k. ground arith, ground arith)

-- What the checks of a claim have established.
record Checked (rt : Runtime) (ctx : ClaimRefundAccounts) (slot : PendingRefund) : Type 0 where
  account : ctx.pending_refund ≡ rt.address (refund ctx.claimant)
  owned : slot.bidder ≡ ctx.claimant
  payer : ctx.rent_payer ≡ slot.rent_payer
  nonzero : 0 < slot.amount

check_claim_done :
    (rt : Runtime) (ctx : ClaimRefundAccounts) (slot : PendingRefund)
    → check_claim rt ctx slot ≡ ok tt
    → Checked rt ctx slot
unfolding check_claim
check_claim_done rt ctx slot h = ground arith

-- A claim by a wallet pays the recorded bidder exactly the recorded amount and the rent payer what
-- is left, and the account is gone.
pub claim_refund_effect :
    (rt : Runtime) (ctx : ClaimRefundAccounts) (slot : PendingRefund) (w w' : World)
    → rt.is_derived ctx.claimant ≡ false
    → run_claim_refund rt ctx slot w ≡ ok w'
    → let account = rt.address (refund ctx.claimant) in
      (ctx.pending_refund ≡ account)
      × (slot.bidder ≡ ctx.claimant)
      × (ctx.rent_payer ≡ slot.rent_payer)
      × (0 < slot.amount)
      × (slot.amount ≤ w.lamports account)
      × ((k : Pubkey)
          → w'.lamports k + (if k == account then w.lamports account else 0)
            ≡ w.lamports k
              + (if k == ctx.claimant then slot.amount else 0)
              + (if k == slot.rent_payer then w.lamports account - slot.amount else 0))
      × (w'
          ≡ emit
              (refund_claimed (record { claimant = ctx.claimant; amount = slot.amount }))
              (record w { lamports = w'.lamports; refunds = put w.refunds account none }))
unfolding run_claim_refund
claim_refund_effect rt ctx slot w w' wallet done =
    let (_, e₀, f₀) = >>=-eq-ok (check_claim rt ctx slot) _ done in
    let (paid, e₁, f₁) =
      >>=-eq-ok (pay_out ctx.pending_refund ctx.claimant slot.amount w.lamports) _ f₀ in
    let (closed, e₂, f₂) = >>=-eq-ok (rt.close ctx.pending_refund ctx.rent_payer paid) _ f₁ in
    let c = check_claim_done rt ctx slot e₀ in
    let apart = derived-ne rt ctx.claimant (refund ctx.claimant) wallet in
    let (m₁, covered) =
      pay_out_done (rt.address (refund ctx.claimant)) ctx.claimant slot.amount w.lamports paid
        (λ e. apart (sym e)) (rw (← c.account) e₁) in
    let account = rt.address (refund ctx.claimant) in
    let m₂ : Moves paid account slot.rent_payer (paid account) closed =
      rt.close_moves account slot.rent_payer paid closed (rw (← c.account, ← c.payer) e₂) in
    let last = ok-injective _ w' f₂ in
    let balances : w'.lamports ≡ closed = ap (λ t. t.lamports) last in
    let world = λ (l : Balances) (a : Pubkey).
      emit (refund_claimed (record { claimant = ctx.claimant; amount = slot.amount }))
        (record w { lamports = l; refunds = put w.refunds a none }) in
    (
      c.account,
      c.owned,
      c.payer,
      c.nonzero,
      covered,
      λ k. ground (arith, m₁ k, m₁ account, m₂ k, apart, ap (λ l. l k) balances),
      last ∙ ap (world closed) c.account ∙ ap (λ l. world l account) (sym balances),
    )
