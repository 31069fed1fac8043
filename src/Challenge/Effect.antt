-- ===== src/Challenge/Effect.antt =====
-- What a successful bid has done, on a cold open and against a previous top bidder.
use toggld_program.Base.{
  ℕ, ◌+◌, ◌-◌, ◌≤◌, ◌<◌, ◌≡◌, ◌≢◌, none, some, arith, subst, ap, ◌∙◌, ◌==◌, if◌then◌else◌, u64_size,
  ◌⊎◌,
}
use toggld_program.Base.Int.{ℤ}
use toggld_program.Constants.{Pubkey, default}
use toggld_program.State.{GlobalState, PendingRefund}
use toggld_program.Outcome.{ok, >>=-eq-ok, constrain, seeds}
use toggld_program.Runtime.{Runtime, vault, refund, Moves}
use toggld_program.World.{World, put, put-put, put_self, emit}
use toggld_program.Events.{Event, challenged}
use toggld_program.Challenge.{
  ChallengeAccounts, open_or_extend, open_refund, settle_previous, take_bid, run_challenge,
}
use toggld_program.Challenge.Blocks.{
  Opened, opened_state, open_or_extend_done, old_slot, claimed_slot, take_bid_done,
  settle_previous-none, settle_previous-some, taken_world, reserve, open_refund-none,
  open_refund-some, settle_previous_given,
}

-- The event of a bid.
abbrev pub bid_event : ℤ → Pubkey → ℕ → GlobalState → Event
bid_event now challenger bid gs = challenged (record {
  challenger = challenger;
  bid_amount = bid;
  window_end_ts = (opened_state now gs).window_end_ts;
  extended = gs.window_active;
})

-- The global state after a bid: `escrowed` is what the previous bid leaves in escrow.
abbrev pub bid_state : ℤ → Pubkey → ℕ → ℕ → GlobalState → GlobalState
bid_state now challenger bid escrowed gs = record (opened_state now gs) {
  top_bidder = challenger;
  top_bid_amount = bid;
  escrowed_amount = escrowed + bid;
}

-- The refund account of the bidder who is outbid: it keeps what it held and gains the old bid.
abbrev pub outbid_slot : Runtime → World → GlobalState → Pubkey → PendingRefund
outbid_slot rt w gs challenger =
    let slot = old_slot w (rt.address (refund gs.top_bidder)) in
    record (claimed_slot gs.top_bidder (rt.bump (refund gs.top_bidder)) challenger slot) {
      amount = slot.amount + gs.top_bid_amount;
    }

module _ (rt : Runtime) (now : ℤ) (ctx : ChallengeAccounts) (bid : ℕ) (gs : GlobalState)
    (w w' : World) (done : run_challenge rt now ctx bid gs w ≡ ok w') where
  -- The blocks of a successful run, with the outcome of the first one put in.
  run_challenge_blocks :
      (w₁ : World) × (settled : GlobalState × World) × (open_refund rt ctx gs.top_bidder w ≡ ok w₁)
      × Opened now ctx.challenger bid gs
      × (settle_previous rt ctx (opened_state now gs) w₁ ≡ ok settled)
      × (take_bid rt ctx.challenger bid gs.window_active settled.0 settled.1 ≡ ok w')
  unfolding run_challenge
  run_challenge_blocks =
      let (_, _, f) = >>=-eq-ok (constrain (gs.vault_bump == rt.bump vault) seeds) _ done in
      let (w₁, e₁, f₁) = >>=-eq-ok (open_refund rt ctx gs.top_bidder w) _ f in
      let (opened, e₂, f₂) = >>=-eq-ok (open_or_extend now ctx.challenger bid gs) _ f₁ in
      let (settled, e₃, f₃) = >>=-eq-ok (settle_previous rt ctx opened.0 w₁) _ f₂ in
      let (opened_eq, o) = open_or_extend_done now ctx.challenger bid gs opened e₂ in
      (
        w₁,
        settled,
        e₁,
        o,
        subst (λ t. settle_previous rt ctx t.0 w₁ ≡ ok settled) opened_eq e₃,
        subst (λ t. take_bid rt ctx.challenger bid t.1 settled.0 settled.1 ≡ ok w') opened_eq f₃,
      )

  -- A cold open: nobody is refunded, and the bid moves into the vault.
  pub cold_effect :
      gs.top_bidder ≡ default
      → (ctx.pending_refund ≡ none)
        × Opened now ctx.challenger bid gs
        × Moves w.lamports ctx.challenger (rt.address vault) bid w'.lamports
        × (w'
            ≡ emit (bid_event now ctx.challenger bid gs) (record w {
              lamports = w'.lamports;
              global_state = some (bid_state now ctx.challenger bid gs.escrowed_amount gs);
            }))
        × (gs.escrowed_amount + bid < u64_size)
  cold_effect idle =
      let (w₁, settled, e₁, o, e₃, e₄) = run_challenge_blocks in
      let (absent, kept) = settle_previous-none rt ctx (opened_state now gs) w₁ settled idle e₃ in
      let same = open_refund-none rt ctx gs.top_bidder w w₁ absent e₁ in
      let kept' = subst (λ t. settled ≡ (opened_state now gs, t)) same kept in
      let e₅ =
        subst (λ t. take_bid rt ctx.challenger bid gs.window_active t.0 t.1 ≡ ok w') kept' e₄ in
      let (written, fits, moves) =
        take_bid_done rt ctx.challenger bid gs.window_active (opened_state now gs) w w' e₅ in
      (absent, o, moves, written, fits)

  -- A bid against a previous top bidder: the old bid moves from the vault into that bidder's refund
  -- account, which the challenger pays for if it does not exist, and the new bid into the vault.
  pub outbid_effect :
      gs.top_bidder ≢ default
      → let account = rt.address (refund gs.top_bidder) in
        let old = gs.top_bid_amount in
        (ctx.pending_refund ≡ some account)
        × Opened now ctx.challenger bid gs
        × ((k : Pubkey)
            → w'.lamports k
                + (if k == ctx.challenger then reserve rt w account + bid else 0)
                + (if k == rt.address vault then old else 0)
              ≡ w.lamports k
                + (if k == account then reserve rt w account + old else 0)
                + (if k == rt.address vault then bid else 0))
        × (w'
            ≡ emit (bid_event now ctx.challenger bid gs) (record w {
              lamports = w'.lamports;
              global_state = some (bid_state now ctx.challenger bid (gs.escrowed_amount - old) gs);
              refunds = put w.refunds account (some (outbid_slot rt w gs ctx.challenger));
            }))
        × (gs.escrowed_amount - old + bid < u64_size)
        × (old ≤ gs.escrowed_amount)
        × ((old_slot w account).amount + old < u64_size)
        × (((old_slot w account).bidder ≡ default) ⊎ ((old_slot w account).bidder ≡ gs.top_bidder))
  outbid_effect active =
      let (w₁, settled, e₁, o, e₃, e₄) = run_challenge_blocks in
      let account = rt.address (refund gs.top_bidder) in
      let given = settle_previous_given rt ctx (opened_state now gs) w₁ settled active e₃ in
      let (ea, opened, m₁) = open_refund-some rt ctx gs.top_bidder w w₁ given e₁ in
      let slot_eq : w₁.refunds account ≡ some (old_slot w account) =
        ap (λ t. t.refunds account) opened ∙ put_self w.refunds account _ in
      let (s₀, covered, m₂, s₁, fits, owned) =
        settle_previous-some rt ctx (opened_state now gs) w₁ settled account (old_slot w account)
          active ea slot_eq e₃ in
      let (written, escrow_fits, m₃) =
        take_bid_done rt ctx.challenger bid gs.window_active settled.0 settled.1 w' e₄ in
      let slot = some (outbid_slot rt w gs ctx.challenger) in
      let left = record (opened_state now gs) {
        escrowed_amount = gs.escrowed_amount - gs.top_bid_amount;
      } in
      let taken = λ (g : GlobalState) (v : World).
        taken_world ctx.challenger bid gs.window_active w'.lamports g v in
      (
        ea,
        o,
        λ k. ground (arith, m₁ k, m₂ k, m₃ k),
        written
            ∙ ap (λ t. taken t settled.1) s₀
            ∙ ap (taken left) s₁
            ∙ ap (λ t. taken left (record t { refunds = put t.refunds account slot })) opened
            ∙ ap (λ f. taken left (record w { refunds = f })) (put-put w.refunds account _ slot),
        subst (λ t. t.escrowed_amount + bid < u64_size) s₀ escrow_fits,
        covered,
        fits,
        owned,
      )
