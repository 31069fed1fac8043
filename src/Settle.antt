-- ===== src/Settle.antt =====
-- programs/toggld/src/instructions/settle.rs: the end of a window. The handler's first block closes
-- the window on the global state; then the burn leaves the vault, and a flip records the win.
pub mod Effect
use toggld_program.Base.{
  ℕ, ◌≡◌, Bool, true, false, not, Option, none, some, ◌==◌, if◌then◌else◌, u64_size, checked_add,
  checked_sub,
}
use toggld_program.Base.Int.{ℤ, pos, leb_ℤ}
use toggld_program.Constants.{Pubkey, default, win_record_space}
use toggld_program.State.{GlobalState, WinRecord}
use toggld_program.Outcome.{
  Result, ok, err, code, constraint, ◌>>=◌, ◌>>◌, require, constrain, ok_or, seeds, not_initialized,
  math_overflow, no_active_window, window_not_closed, invalid_burn_address,
}
use toggld_program.Pure.{compute_split}
use toggld_program.Runtime.{Runtime, Seeds, vault, win_record}
use toggld_program.World.{World, put, emit}
use toggld_program.Events.{settled, SettleEvent}

-- What a caller supplies.
pub record SettleAccounts : Type 0 where
  pub caller : Pubkey
  pub burn_address : Pubkey
  pub win_record : Pubkey

-- The locals that the first block hands on: the event, and the holder's number after it.
pub record Settlement : Type 0 where
  pub event : SettleEvent
  pub post_increment_holder_count : ℕ

-- A flip makes the winner the holder and turns the toggle; a defence leaves the streak alone.
unfoldable pub crown : ℤ → GlobalState → Result GlobalState
crown now gs =
    if not (gs.top_bidder == gs.holder)
    then (do
      count ← ok_or (checked_add u64_size gs.holder_count 1) (code math_overflow)
      ok (record gs {
        holder = gs.top_bidder;
        is_on = not gs.is_on;
        holder_since = now;
        holder_count = count;
      }))
    else ok gs

unfoldable pub close_window : ℤ → GlobalState → Result (GlobalState × Settlement)
unfolding crown
close_window now gs = do
  require gs.window_active no_active_window
  require (leb_ℤ gs.window_end_ts now) window_not_closed
  crowned ← crown now gs
  (fee_amount, burn_amount) ← compute_split gs.top_bid_amount gs.fee_bps
  escrowed ← ok_or (checked_sub gs.escrowed_amount gs.top_bid_amount) (code math_overflow)
  balance ← ok_or (checked_add u64_size gs.treasury_balance fee_amount) (code math_overflow)
  challenges ← ok_or (checked_add u64_size gs.total_challenges 1) (code math_overflow)
  ok (
    record crowned {
      current_price = gs.top_bid_amount;
      escrowed_amount = escrowed;
      treasury_balance = balance;
      window_active = false;
      window_end_ts = pos 0;
      top_bidder = default;
      top_bid_amount = 0;
      total_challenges = challenges;
    },
    record {
      event = record {
        winner = gs.top_bidder;
        previous_holder = gs.holder;
        flipped = not (gs.top_bidder == gs.holder);
        winning_price = gs.top_bid_amount;
        treasury_cut = fee_amount;
        burned_amount = burn_amount;
      };
      post_increment_holder_count = crowned.holder_count;
    },
  )

-- The record of a win.
abbrev pub new_win : ℤ → ℕ → Settlement → WinRecord
new_win now bump s = record {
  winner = s.event.winner;
  holder_count = s.post_increment_holder_count;
  price_paid = s.event.winning_price;
  won_at = now;
  minted = false;
  bump = bump;
}

module _ (rt : Runtime) where
  -- The burn moves from the vault to the burn address.
  unfoldable pub pay_burn : SettleAccounts → Settlement → World → Result World
  pay_burn ctx s w = do
    lamports ← rt.transfer (rt.address vault) ctx.burn_address s.event.burned_amount w.lamports
    ok (record w { lamports = lamports })

  -- On a flip the caller pays for the account of the win, at the ordinal before the increment.
  unfoldable pub record_win : ℤ → SettleAccounts → ℕ → Settlement → World → Result World
  record_win now ctx ordinal s w =
      if s.event.flipped
      then (do
        lamports ←
            rt.create_account ctx.caller ctx.win_record (rt.minimum_balance win_record_space)
              w.lamports
        let win = new_win now (rt.bump (win_record ordinal)) s
        ok (record w {
          lamports = lamports;
          win_records = put w.win_records ctx.win_record (some win);
        }))
      else ok w

  unfoldable pub run_settle : ℤ → SettleAccounts → GlobalState → World → Result World
  run_settle now ctx gs w = do
    constrain (gs.vault_bump == rt.bump vault) seeds
    require (ctx.burn_address == gs.burn_address) invalid_burn_address
    constrain (ctx.win_record == rt.address (win_record gs.holder_count)) seeds
    closed ← close_window now gs
    paid ← pay_burn ctx closed.1 (record w { global_state = some closed.0 })
    recorded ← record_win now ctx gs.holder_count closed.1 paid
    ok (emit (settled closed.1.event) recorded)

  unfoldable pub settle : ℤ → SettleAccounts → World → Result World
  settle now ctx w = do
    gs ← ok_or w.global_state (constraint not_initialized)
    run_settle now ctx gs w
