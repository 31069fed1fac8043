-- ===== src/Game/Guards.antt =====
-- What a bid and a settlement have to satisfy (instructions/challenge.rs and settle.rs).
use toggld_program.Challenge.Blocks.{opened_state, base_price, open_or_extend_done}
use toggld_program.Pure.Window.{compute_window_reset-decides}
use toggld_program.Pure.MinRaise.{require_min_raise_iff}
use toggld_program.Pure.{require_min_raise, compute_window_reset}
use toggld_program.Base.{
  ℕ, ◌+◌, ◌<◌, ◌≡◌, ◌≢◌, true, false, inl, inr, u64_size, arith, sym, ◌∙◌, Bool-cases, ◌*◌, ◌/◌,
  ◌≤◌, ap, subst, Bool, if◌then◌else◌,
}
use toggld_program.Base.Int.{ℤ, ◌≤ℤ◌, ◌<ℤ◌, pos, ◌+ℤ◌, InI64, i64_max, leb_ℤ}
use toggld_program.Constants.{Pubkey}
use toggld_program.State.{GlobalState}
use toggld_program.Outcome.{ok, err, code, math_overflow}
use toggld_program.Pure.Split.{compute_split-eq}
use toggld_program.Runtime.{Runtime}
use toggld_program.Challenge.{open_or_extend}
use toggld_program.Settle.{close_window, Settlement, crown}
use toggld_program.Settle.Effect.{settled_state, settlement_of}
use toggld_program.Game.Invariant.{GameInv}

-- What a bid has to satisfy, of the state alone: on an open window it comes before the deadline and
-- from another than the top bidder, on a closed one from another than the holder; it is a raise of 5%
-- at least, rounded up; and the new deadline is an `i64`.
abbrev pub IsAcceptable : ℤ → Pubkey → ℕ → GlobalState → Type 0
IsAcceptable now challenger bid gs =
    (gs.window_active ≡ true → (now <ℤ gs.window_end_ts) × (challenger ≢ gs.top_bidder))
    × (gs.window_active ≡ false → challenger ≢ gs.holder)
    × ((base_price gs * 10_500 + 9_999) / 10_000 ≤ bid)
    × (now +ℤ pos 30 ≤ℤ i64_max)

-- What a window has to satisfy to be settled.
abbrev pub IsClosable : ℤ → GlobalState → Type 0
IsClosable now gs =
    (gs.window_active ≡ true)
    × (gs.window_end_ts ≤ℤ now)
    × (gs.top_bidder ≢ gs.holder → gs.holder_count + 1 < u64_size)
    × (gs.total_challenges + 1 < u64_size)
    × (gs.treasury_balance + gs.top_bid_amount * 15 / 100 < u64_size)

rounded_up : (n bid : ℕ) → n ≤ bid * 10_000 → (n + 9_999) / 10_000 ≤ bid
rounded_up n bid h = omega arith

raised_rounded :
    (rt : Runtime) (gs : GlobalState) (bid : ℕ)
    → GameInv rt gs
    → base_price gs * (10_000 + gs.min_raise_bps) ≤ bid * 10_000
    → (base_price gs * 10_500 + 9_999) / 10_000 ≤ bid
raised_rounded rt gs bid v h =
    let plain = subst (λ r. base_price gs * (10_000 + r) ≤ bid * 10_000) v.raise_rate h in
    rounded_up (base_price gs * 10_500) bid plain

deadline_le :
    (rt : Runtime) (gs : GlobalState) (now : ℤ)
    → GameInv rt gs
    → InI64 (now +ℤ pos gs.base_window_secs)
    → now +ℤ pos 30 ≤ℤ i64_max
deadline_le rt gs now v h =
    let plain = subst (λ n. InI64 (now +ℤ pos n)) v.window_secs h in ground (arith, plain)

raise_total :
    (rt : Runtime) (gs : GlobalState) (bid : ℕ)
    → GameInv rt gs
    → bid < u64_size
    → (base_price gs * 10_500 + 9_999) / 10_000 ≤ bid
    → require_min_raise (base_price gs) bid gs.min_raise_bps ≡ ok tt
raise_total rt gs bid v hb h =
    let rate = v.raise_rate in
    let fits : base_price gs < u64_size = ground (arith, v.price_fits, v.bid_fits) in
    ap (require_min_raise (base_price gs) bid) rate
    ∙ (require_min_raise_iff (base_price gs) bid 500 fits hb (omega arith)).1 h

deadline_total :
    (rt : Runtime) (gs : GlobalState) (now : ℤ)
    → GameInv rt gs
    → InI64 now
    → now +ℤ pos 30 ≤ℤ i64_max
    → compute_window_reset gs.base_window_secs now ≡ ok (now +ℤ pos gs.base_window_secs)
deadline_total rt gs now v hn h =
    let fits : leb_ℤ (now +ℤ pos 30) i64_max ≡ true = ground arith in
    ap (λ n. compute_window_reset n now) v.window_secs
    ∙ compute_window_reset-decides 30 now hn
    ∙ ap (λ c. if c then ok (now +ℤ pos 30) else err (code math_overflow)) fits
    ∙ ap (λ n. ok (now +ℤ pos n)) (sym v.window_secs)

-- Under the invariant, on a `u64` bid at an `i64` time: an acceptable bid goes through the first
-- block, which opens or extends the window by the full 30 seconds, and a bid that goes through it,
-- whatever the outcome, is acceptable.
pub open_or_extend_iff :
    (rt : Runtime) (now : ℤ) (challenger : Pubkey) (bid : ℕ) (gs : GlobalState)
    → GameInv rt gs
    → InI64 now
    → bid < u64_size
    → (IsAcceptable now challenger bid gs
        → open_or_extend now challenger bid gs ≡ ok (opened_state now gs, gs.window_active))
      × ((opened : GlobalState × Bool)
          → open_or_extend now challenger bid gs ≡ ok opened
          → IsAcceptable now challenger bid gs)
unfolding open_or_extend
open_or_extend_iff rt now challenger bid gs v hn hb = (
  λ (active, idle, raised, late).
      let r = raise_total rt gs bid v hb raised in
      let d = deadline_total rt gs now v hn late in
      elim (Bool-cases gs.window_active) [
        | inl is_open ↦ ground (arith, active is_open)
        | inr closed ↦ ground (arith, idle closed)
      ],
  λ opened h.
      let (_, o) = open_or_extend_done now challenger bid gs opened h in
      (
        λ is_open. (o.in_time is_open, o.not_top is_open),
        o.not_holder,
        raised_rounded rt gs bid v o.raised,
        deadline_le rt gs now v o.deadline_fits,
      ),
)

-- Under the invariant: a window that is open and past its deadline closes as long as the counters
-- have room, by the fee of 15% rounded down; and a window that closes, whatever the outcome, is one
-- of these.
pub close_window_iff :
    (rt : Runtime) (now : ℤ) (gs : GlobalState)
    → GameInv rt gs
    → (IsClosable now gs → close_window now gs ≡ ok (settled_state now gs, settlement_of now gs))
      × ((closed : GlobalState × Settlement) → close_window now gs ≡ ok closed → IsClosable now gs)
unfolding close_window crown
close_window_iff rt now gs v = (
  λ (active, over, count, rounds, balance).
      ground (arith, compute_split-eq gs.top_bid_amount gs.fee_bps),
  λ closed h. ground (arith, compute_split-eq gs.top_bid_amount gs.fee_bps),
)
