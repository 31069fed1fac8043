-- ===== src/Challenge/Blocks.antt =====
-- What a successful run of each block of the challenge handler has done.
use toggld_program.Base.{
  ℕ, ◌+◌, ◌-◌, ◌*◌, ◌≤◌, ◌<◌, ◌≡◌, ◌≢◌, Bool, true, false, none, some, arith, ◌==◌, if◌then◌else◌,
  u64_size, inl, inr, ◌⊎◌, Option-cases, Bool-cases,
}
use toggld_program.Base.Int.{ℤ, pos, ◌+ℤ◌, ◌<ℤ◌, InI64}
use toggld_program.Constants.{Pubkey, default, pending_refund_space}
use toggld_program.State.{GlobalState, PendingRefund}
use toggld_program.Outcome.{ok}
use toggld_program.Pure.{compute_window_reset}
use toggld_program.Pure.MinRaise.{require_min_raise-raises}
use toggld_program.Runtime.{Runtime, vault, refund, Moves, Balances}
use toggld_program.World.{World, put, put_same, emit}
use toggld_program.Events.{challenged}
use toggld_program.Challenge.{
  ChallengeAccounts, open_or_extend, open_refund, settle_previous, take_bid, empty_refund, max_i64,
}

-- The price that a bid has to raise: the resting price, or the top bid of an open window.
abbrev pub base_price : GlobalState → ℕ
base_price gs = if gs.window_active then gs.top_bid_amount else gs.current_price

-- What the first block writes, given the time.
abbrev pub opened_state : ℤ → GlobalState → GlobalState
opened_state now gs =
    let deadline = now +ℤ pos gs.base_window_secs in
    record gs {
      window_active = true;
      window_end_ts = (if gs.window_active then max_i64 deadline gs.window_end_ts else deadline);
    }

-- What the first block has checked.
pub record Opened (now : ℤ) (challenger : Pubkey) (bid : ℕ) (gs : GlobalState) : Type 0 where
  pub raised : base_price gs * (10_000 + gs.min_raise_bps) ≤ bid * 10_000
  pub in_time : gs.window_active ≡ true → now <ℤ gs.window_end_ts
  pub not_top : gs.window_active ≡ true → challenger ≢ gs.top_bidder
  pub not_holder : gs.window_active ≡ false → challenger ≢ gs.holder
  pub deadline_fits : InI64 (now +ℤ pos gs.base_window_secs)

pub open_or_extend_done :
    (now : ℤ) (challenger : Pubkey) (bid : ℕ) (gs : GlobalState) (opened : GlobalState × Bool)
    → open_or_extend now challenger bid gs ≡ ok opened
    → (opened ≡ (opened_state now gs, gs.window_active)) × Opened now challenger bid gs
unfolding open_or_extend compute_window_reset
open_or_extend_done now challenger bid gs opened h = elim (Bool-cases gs.window_active) [
  | inl active ↦ ground (arith, require_min_raise-raises gs.top_bid_amount bid gs.min_raise_bps)
  | inr idle ↦ ground (arith, require_min_raise-raises gs.current_price bid gs.min_raise_bps)
]

-- The refund account of a top bidder, and what it holds before a bid.
abbrev pub old_slot : World → Pubkey → PendingRefund
old_slot w account = elim (w.refunds account) [ none ↦ empty_refund | some slot ↦ slot ]

abbrev pub claimed_slot : Pubkey → ℕ → Pubkey → PendingRefund → PendingRefund
claimed_slot previous bump challenger slot =
    if slot.bidder == default
    then record slot { bidder = previous; bump = bump; rent_payer = challenger }
    else slot

-- The world after the last block, given the balances that it leaves.
abbrev pub taken_world : Pubkey → ℕ → Bool → Balances → GlobalState → World → World
taken_world challenger bid extended lamports gs w =
    emit
      (challenged (record {
        challenger = challenger;
        bid_amount = bid;
        window_end_ts = gs.window_end_ts;
        extended = extended;
      }))
      (record w {
        lamports = lamports;
        global_state = some (record gs {
          top_bidder = challenger;
          top_bid_amount = bid;
          escrowed_amount = gs.escrowed_amount + bid;
        });
      })

-- What the challenger pays for a refund account that does not exist: its rent, as far as the
-- address does not hold it yet.
abbrev pub reserve : Runtime → World → Pubkey → ℕ
reserve rt w account = elim (w.refunds account) [
  | none ↦ rt.minimum_balance pending_refund_space - w.lamports account
  | some _ ↦ 0
]

module _ (rt : Runtime) where
  pub take_bid_done :
      (challenger : Pubkey) (bid : ℕ) (extended : Bool) (gs : GlobalState) (w w' : World)
      → take_bid rt challenger bid extended gs w ≡ ok w'
      → (w' ≡ taken_world challenger bid extended w'.lamports gs w)
        × (gs.escrowed_amount + bid < u64_size)
        × Moves w.lamports challenger (rt.address vault) bid w'.lamports
  unfolding take_bid
  take_bid_done challenger bid extended gs w w' h =
      ground (arith, rt.transfer_moves challenger (rt.address vault) bid w.lamports w'.lamports)

  pub settle_previous-none :
      (ctx : ChallengeAccounts) (gs : GlobalState) (w : World) (settled : GlobalState × World)
      → gs.top_bidder ≡ default
      → settle_previous rt ctx gs w ≡ ok settled
      → (ctx.pending_refund ≡ none) × (settled ≡ (gs, w))
  unfolding settle_previous
  settle_previous-none ctx gs w settled e h = ground arith

  pub settle_previous-some :
      (ctx : ChallengeAccounts) (gs : GlobalState) (w : World) (settled : GlobalState × World)
      (account : Pubkey) (slot : PendingRefund)
      → gs.top_bidder ≢ default
      → ctx.pending_refund ≡ some account
      → w.refunds account ≡ some slot
      → settle_previous rt ctx gs w ≡ ok settled
      → (settled.0 ≡ record gs { escrowed_amount = gs.escrowed_amount - gs.top_bid_amount })
        × (gs.top_bid_amount ≤ gs.escrowed_amount)
        × Moves w.lamports (rt.address vault) account gs.top_bid_amount settled.1.lamports
        × (settled.1 ≡ record w {
          lamports = settled.1.lamports;
          refunds = put w.refunds account (
              some
                (record (claimed_slot gs.top_bidder
                  (rt.bump (refund gs.top_bidder))
                  ctx.challenger
                  slot) { amount = slot.amount + gs.top_bid_amount }));
        })
        × (slot.amount + gs.top_bid_amount < u64_size)
        × ((slot.bidder ≡ default) ⊎ (slot.bidder ≡ gs.top_bidder))
  unfolding settle_previous
  settle_previous-some ctx gs w settled account slot ne ea es h = ground (
    arith,
    rt.transfer_moves (rt.address vault) account gs.top_bid_amount w.lamports settled.1.lamports,
  )

  pub open_refund-none :
      (ctx : ChallengeAccounts) (top_bidder : Pubkey) (w w' : World)
      → ctx.pending_refund ≡ none
      → open_refund rt ctx top_bidder w ≡ ok w'
      → w' ≡ w
  unfolding open_refund
  open_refund-none ctx top_bidder w w' e h = ground arith

  -- The world after the refund account has been looked up, and created if it is not there.
  pub open_refund-some :
      (ctx : ChallengeAccounts) (top_bidder : Pubkey) (w w' : World)
      → ctx.pending_refund ≢ none
      → open_refund rt ctx top_bidder w ≡ ok w'
      → let account = rt.address (refund top_bidder) in
        (ctx.pending_refund ≡ some account)
        × (w' ≡ record w {
          lamports = w'.lamports;
          refunds = put w.refunds account (some (old_slot w account));
        })
        × Moves w.lamports ctx.challenger account (reserve rt w account) w'.lamports
  unfolding open_refund
  open_refund-some ctx top_bidder w w' given h =
      let account = rt.address (refund top_bidder) in
      elim (Option-cases (w.refunds account)) [
        | inl absent ↦ ground (
          arith,
          rt.init_moves ctx.challenger account pending_refund_space w.lamports w'.lamports,
        )
        | inr (slot, there) ↦ ground (arith, put_same w.refunds account (some slot) there)
      ]

  pub settle_previous_given :
      (ctx : ChallengeAccounts) (gs : GlobalState) (w : World) (settled : GlobalState × World)
      → gs.top_bidder ≢ default
      → settle_previous rt ctx gs w ≡ ok settled
      → ctx.pending_refund ≢ none
  unfolding settle_previous
  settle_previous_given ctx gs w settled ne h = ground arith
