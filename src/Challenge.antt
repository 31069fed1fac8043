-- ===== src/Challenge.antt =====
-- programs/toggld/src/instructions/challenge.rs: a bid. The blocks of the handler are functions,
-- in its order: the window, the refund of the bidder who is outbid, and the new top bid.
pub mod Blocks
pub mod Effect
use toggld_program.Base.{
  ℕ, ◌≡◌, Bool, true, false, not, Option, none, some, ◌==◌, if◌then◌else◌, u64_size, checked_add,
  checked_sub, is_some,
}
use toggld_program.Base.Int.{ℤ, ltb_ℤ}
use toggld_program.Constants.{Pubkey, default, pending_refund_space}
use toggld_program.State.{GlobalState, PendingRefund}
use toggld_program.Outcome.{
  Result, ok, err, code, constraint, ◌>>=◌, ◌>>◌, require, constrain, ok_or, seeds, not_initialized,
  cannot_challenge_self, window_closed_pending_settlement, already_top_bidder, math_overflow,
  missing_pending_refund_account, nothing_to_refund, unexpected_pending_refund_account,
}
use toggld_program.Pure.{require_min_raise, compute_window_reset}
use toggld_program.Runtime.{Runtime, Seeds, vault, refund}
use toggld_program.World.{World, put, emit}
use toggld_program.Events.{challenged}

-- What a caller supplies: the signer, and the optional refund account of the top bidder.
pub record ChallengeAccounts : Type 0 where
  pub challenger : Pubkey
  pub pending_refund : Option Pubkey

-- `Ord::max` on `i64`.
abbrev pub max_i64 : ℤ → ℤ → ℤ
max_i64 a b = if ltb_ℤ b a then a else b

cold_open : ℤ → Pubkey → ℕ → GlobalState → Result (GlobalState × Bool)
cold_open now challenger bid_amount gs = do
  require (not (challenger == gs.holder)) cannot_challenge_self
  require_min_raise gs.current_price bid_amount gs.min_raise_bps
  deadline ← compute_window_reset gs.base_window_secs now
  ok (record gs { window_active = true; window_end_ts = deadline }, false)

raise_bid : ℤ → Pubkey → ℕ → GlobalState → Result (GlobalState × Bool)
raise_bid now challenger bid_amount gs = do
  require (ltb_ℤ now gs.window_end_ts) window_closed_pending_settlement
  require (not (challenger == gs.top_bidder)) already_top_bidder
  require_min_raise gs.top_bid_amount bid_amount gs.min_raise_bps
  deadline ← compute_window_reset gs.base_window_secs now
  ok (record gs { window_end_ts = max_i64 deadline gs.window_end_ts }, true)

-- The first block of the handler: the guards and the deadline, with the flag `extended`.
unfoldable pub open_or_extend : ℤ → Pubkey → ℕ → GlobalState → Result (GlobalState × Bool)
unfolding cold_open raise_bid
open_or_extend now challenger bid_amount gs =
    if not gs.window_active
    then cold_open now challenger bid_amount gs
    else raise_bid now challenger bid_amount gs

-- What `init_if_needed` leaves in a new account.
abbrev pub empty_refund : PendingRefund
empty_refund = record { bidder = default; amount = 0; bump = 0; rent_payer = default }

-- A new refund account takes its bidder and its rent payer; an old one must be the bidder's.
unfoldable pub claim_slot : Pubkey → ℕ → Pubkey → PendingRefund → Result PendingRefund
claim_slot previous bump challenger slot =
    if slot.bidder == default
    then ok (record slot { bidder = previous; bump = bump; rent_payer = challenger })
    else do require (slot.bidder == previous) nothing_to_refund; ok slot

module _ (rt : Runtime) where
  -- The constraints on `pending_refund`: its address is the one derived from the top bidder, and it
  -- is created, at the challenger's cost, if it does not exist.
  unfoldable pub open_refund : ChallengeAccounts → Pubkey → World → Result World
  open_refund ctx top_bidder w = elim ctx.pending_refund [
    | none ↦ ok w
    | some account ↦ do
      constrain (account == rt.address (refund top_bidder)) seeds
      elim (w.refunds account) [
        | some _ ↦ ok w
        | none ↦ do
          lamports ← rt.init ctx.challenger account pending_refund_space w.lamports
          ok (record w { lamports = lamports; refunds = put w.refunds account (some empty_refund) })
      ]
  ]

  -- The previous top bid moves from the vault into the bidder's refund account.
  unfoldable pub refund_previous :
      ChallengeAccounts → GlobalState → World → Result (GlobalState × World)
  unfolding claim_slot
  refund_previous ctx gs w = do
    account ← ok_or ctx.pending_refund (code missing_pending_refund_account)
    slot ← ok_or (w.refunds account) (constraint not_initialized)
    claimed ← claim_slot gs.top_bidder (rt.bump (refund gs.top_bidder)) ctx.challenger slot
    amount ← ok_or (checked_add u64_size claimed.amount gs.top_bid_amount) (code math_overflow)
    lamports ← rt.transfer (rt.address vault) account gs.top_bid_amount w.lamports
    escrowed ← ok_or (checked_sub gs.escrowed_amount gs.top_bid_amount) (code math_overflow)
    ok (
      record gs { escrowed_amount = escrowed },
      record w {
        lamports = lamports;
        refunds = put w.refunds account (some (record claimed { amount = amount }));
      },
    )

  -- On a cold open there is nobody to refund, and an account supplied for it is refused.
  unfoldable pub settle_previous :
      ChallengeAccounts → GlobalState → World → Result (GlobalState × World)
  unfolding refund_previous
  settle_previous ctx gs w = if not (gs.top_bidder == default) then refund_previous ctx gs w else do
    require (not (is_some ctx.pending_refund)) unexpected_pending_refund_account
    ok (gs, w)

  -- The bid moves into the vault and becomes the top bid.
  unfoldable pub take_bid : Pubkey → ℕ → Bool → GlobalState → World → Result World
  take_bid challenger bid_amount extended gs w = do
    lamports ← rt.transfer challenger (rt.address vault) bid_amount w.lamports
    escrowed ← ok_or (checked_add u64_size gs.escrowed_amount bid_amount) (code math_overflow)
    let gs' = record gs {
      top_bidder = challenger;
      top_bid_amount = bid_amount;
      escrowed_amount = escrowed;
    }
    ok (
        emit
          (challenged (record {
            challenger = challenger;
            bid_amount = bid_amount;
            window_end_ts = gs.window_end_ts;
            extended = extended;
          }))
          (record w { lamports = lamports; global_state = some gs' }))

  -- The instruction on a loaded global state: the framework's part first, then the handler's
  -- blocks.
  unfoldable pub run_challenge : ℤ → ChallengeAccounts → ℕ → GlobalState → World → Result World
  run_challenge now ctx bid_amount gs w = do
    constrain (gs.vault_bump == rt.bump vault) seeds
    w' ← open_refund ctx gs.top_bidder w
    opened ← open_or_extend now ctx.challenger bid_amount gs
    settled ← settle_previous ctx opened.0 w'
    take_bid ctx.challenger bid_amount opened.1 settled.0 settled.1

  unfoldable pub challenge : ℤ → ChallengeAccounts → ℕ → World → Result World
  challenge now ctx bid_amount w = do
    gs ← ok_or w.global_state (constraint not_initialized)
    run_challenge now ctx bid_amount gs w
