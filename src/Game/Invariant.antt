-- ===== src/Game/Invariant.antt =====
-- The invariant of the game between two instructions.
use toggld_program.Base.{ℕ, ◌+◌, ◌*◌, ◌≤◌, ◌<◌, ◌≡◌, ◌≢◌, true, false, some, none, ◌⊎◌, u64_size}
use toggld_program.Constants.{
  Pubkey, default, incinerator, fee_bps_default, default_min_raise_bps, default_base_window_secs,
  pending_refund_space,
}
use toggld_program.State.{GlobalState, PendingRefund, WinRecord}
use toggld_program.Runtime.{Runtime, vault, burn_vault, refund, win_record}
use toggld_program.World.{World}

-- The global state: the fixed rates, a resting price, and a window that is open exactly while there
-- is a top bidder, whose bid is all of the escrow and raises the price by the minimum at least.
pub record GameInv (rt : Runtime) (gs : GlobalState) : Type 0 where
  pub fee_rate : gs.fee_bps ≡ fee_bps_default
  pub raise_rate : gs.min_raise_bps ≡ default_min_raise_bps
  pub window_secs : gs.base_window_secs ≡ default_base_window_secs
  pub price_pos : 0 < gs.current_price
  pub price_fits : gs.current_price < u64_size
  pub counted : 0 < gs.holder_count
  pub vault_bumped : gs.vault_bump ≡ rt.bump vault
  pub escrow_eq : gs.escrowed_amount ≡ gs.top_bid_amount
  pub bid_fits : gs.top_bid_amount < u64_size
  pub balance_fits : gs.treasury_balance < u64_size
  pub open_bidder : gs.window_active ≡ true → gs.top_bidder ≢ default
  pub open_raised : gs.window_active ≡ true → gs.current_price * 10_500 ≤ gs.top_bid_amount * 10_000
  pub idle_bidder : gs.window_active ≡ false → gs.top_bidder ≡ default
  pub idle_bid : gs.window_active ≡ false → gs.top_bid_amount ≡ 0
  pub burns : (gs.burn_address ≡ incinerator) ⊎ (gs.burn_address ≡ rt.address burn_vault)

-- What a refund account at the address of a bidder holds: that bidder's money, and its rent.
pub record SlotInv (rt : Runtime) (bidder : Pubkey) (lamports : ℕ) (slot : PendingRefund)
    : Type 0 where
  pub owned : slot.bidder ≡ bidder
  pub bumped : slot.bump ≡ rt.bump (refund bidder)
  pub nonzero : 0 < slot.amount
  pub backed : rt.minimum_balance pending_refund_space + slot.amount ≤ lamports

-- The accounts around it: the vault covers its rent, the escrow and the treasury's balance; each
-- refund account covers its rent and its amount; and the wins are recorded at the ordinals below
-- the holder count, the latest for the holder.
pub record WorldInv (rt : Runtime) (w : World) (gs : GlobalState) : Type 0 where
  pub loaded : w.global_state ≡ some gs
  pub game : GameInv rt gs
  pub solvent :
      rt.minimum_balance 0 + gs.escrowed_amount + gs.treasury_balance
      ≤ w.lamports (rt.address vault)
  pub refunds_backed :
      (b : Pubkey) (slot : PendingRefund)
      → w.refunds (rt.address (refund b)) ≡ some slot
      → SlotInv rt b (w.lamports (rt.address (refund b))) slot
  pub unrecorded : (n : ℕ) → gs.holder_count ≤ n → w.win_records (rt.address (win_record n)) ≡ none
  pub recorded :
      (n : ℕ)
      → n < gs.holder_count
      → (r : WinRecord) × (w.win_records (rt.address (win_record n)) ≡ some r)
        × (r.holder_count ≡ n + 1)
        × (n + 1 ≡ gs.holder_count → r.winner ≡ gs.holder)
