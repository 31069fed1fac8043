-- ===== src/Settle/Effect.antt =====
-- What a successful settlement has done.
use toggld_program.Base.{
  ℕ, ◌+◌, ◌-◌, ◌*◌, ◌/◌, ◌≤◌, ◌<◌, ◌≡◌, Bool, true, false, not, some, arith, subst, ap, sym, ◌∙◌,
  ◌==◌, if◌then◌else◌, u64_size, ◌⊎◌,
}
use toggld_program.Base.Int.{ℤ, pos, ◌≤ℤ◌}
use toggld_program.Constants.{Pubkey, default, win_record_space}
use toggld_program.State.{GlobalState, WinRecord}
use toggld_program.Outcome.{ok, >>=-eq-ok, require, constrain, invalid_burn_address, seeds}
use toggld_program.Pure.{compute_split}
use toggld_program.Runtime.{Runtime, address-ne, vault, win_record, Moves, Balances}
use toggld_program.World.{World, put, emit}
use toggld_program.Events.{settled, SettleEvent}
use toggld_program.Settle.{
  SettleAccounts, Settlement, close_window, pay_burn, record_win, run_settle, new_win,
}

-- Whether the window's winner is a new holder.
abbrev pub is_flip : GlobalState → Bool
is_flip gs = not (gs.top_bidder == gs.holder)

-- The fee: the exact share of the winning price, rounded down.
abbrev pub fee_of : GlobalState → ℕ
fee_of gs = gs.top_bid_amount * gs.fee_bps / 10_000

abbrev pub settle_event : GlobalState → SettleEvent
settle_event gs = record {
  winner = gs.top_bidder;
  previous_holder = gs.holder;
  flipped = is_flip gs;
  winning_price = gs.top_bid_amount;
  treasury_cut = fee_of gs;
  burned_amount = gs.top_bid_amount - fee_of gs;
}

-- The holder's fields after a settlement.
abbrev pub crowned_state : ℤ → GlobalState → GlobalState
crowned_state now gs =
    if is_flip gs
    then record gs {
      holder = gs.top_bidder;
      is_on = not gs.is_on;
      holder_since = now;
      holder_count = gs.holder_count + 1;
    }
    else gs

abbrev pub settled_state : ℤ → GlobalState → GlobalState
settled_state now gs = record (crowned_state now gs) {
  current_price = gs.top_bid_amount;
  escrowed_amount = gs.escrowed_amount - gs.top_bid_amount;
  treasury_balance = gs.treasury_balance + fee_of gs;
  window_active = false;
  window_end_ts = pos 0;
  top_bidder = default;
  top_bid_amount = 0;
  total_challenges = gs.total_challenges + 1;
}

abbrev pub settlement_of : ℤ → GlobalState → Settlement
settlement_of now gs = record {
  event = settle_event gs;
  post_increment_holder_count = (crowned_state now gs).holder_count;
}

-- What the first block has checked.
pub record Closed (now : ℤ) (gs : GlobalState) : Type 0 where
  pub active : gs.window_active ≡ true
  pub over : gs.window_end_ts ≤ℤ now
  pub fee_fits : fee_of gs ≤ gs.top_bid_amount
  pub covered : gs.top_bid_amount ≤ gs.escrowed_amount
  pub balance_fits : gs.treasury_balance + fee_of gs < u64_size
  pub count_fits : ((crowned_state now gs).holder_count < u64_size) ⊎ (is_flip gs ≡ false)

pub close_window_done :
    (now : ℤ) (gs : GlobalState) (closed : GlobalState × Settlement)
    → close_window now gs ≡ ok closed
    → (closed ≡ (settled_state now gs, settlement_of now gs)) × Closed now gs
unfolding close_window compute_split
close_window_done now gs closed h = ground arith

-- What the account of a win costs the caller.
abbrev pub win_rent : Runtime → GlobalState → ℕ
win_rent rt gs = if is_flip gs then rt.minimum_balance win_record_space else 0

abbrev pub win_of : Runtime → ℤ → GlobalState → WinRecord
win_of rt now gs = new_win now (rt.bump (win_record gs.holder_count)) (settlement_of now gs)

module _ (rt : Runtime) where
  pay_burn_done :
      (ctx : SettleAccounts) (s : Settlement) (w w' : World)
      → pay_burn rt ctx s w ≡ ok w'
      → (w' ≡ record w { lamports = w'.lamports })
        × Moves w.lamports (rt.address vault) ctx.burn_address s.event.burned_amount w'.lamports
  unfolding pay_burn
  pay_burn_done ctx s w w' h = ground (
    arith,
    rt.transfer_moves (rt.address vault) ctx.burn_address s.event.burned_amount w.lamports
        w'.lamports,
  )

  record_win_done :
      (now : ℤ) (ctx : SettleAccounts) (gs : GlobalState) (w w' : World)
      → record_win rt now ctx gs.holder_count (settlement_of now gs) w ≡ ok w'
      → (w' ≡ record w {
        lamports = w'.lamports;
        win_records =
            (if is_flip gs
              then put w.win_records ctx.win_record (some (win_of rt now gs))
              else w.win_records);
      })
        × Moves w.lamports ctx.caller ctx.win_record (win_rent rt gs) w'.lamports
        × (is_flip gs ≡ true → w.lamports ctx.win_record ≡ 0)
  unfolding record_win
  record_win_done now ctx gs w w' h = ground (
    arith,
    rt.create_account_moves ctx.caller ctx.win_record (rt.minimum_balance win_record_space)
        w.lamports w'.lamports,
    rt.create_account_vacant ctx.caller ctx.win_record (rt.minimum_balance win_record_space)
        w.lamports w'.lamports,
  )

module _ (rt : Runtime) (now : ℤ) (ctx : SettleAccounts) (gs : GlobalState) (w w' : World)
    (done : run_settle rt now ctx gs w ≡ ok w') where
  -- The account checks of a successful run, and its two blocks that follow the first.
  run_settle_blocks :
      (paid recorded : World) × (ctx.burn_address ≡ gs.burn_address)
      × (ctx.win_record ≡ rt.address (win_record gs.holder_count))
      × Closed now gs
      × (pay_burn rt ctx
            (settlement_of now gs)
            (record w { global_state = some (settled_state now gs) })
          ≡ ok paid)
      × (record_win rt now ctx gs.holder_count (settlement_of now gs) paid ≡ ok recorded)
      × (w' ≡ emit (settled (settle_event gs)) recorded)
  unfolding run_settle
  run_settle_blocks =
      let (_, _, f) = >>=-eq-ok (constrain (gs.vault_bump == rt.bump vault) seeds) _ done in
      let (_, b₀, f₀) =
        >>=-eq-ok (require (ctx.burn_address == gs.burn_address) invalid_burn_address) _ f in
      let (_, b₁, f₁) =
        >>=-eq-ok (constrain (ctx.win_record == rt.address (win_record gs.holder_count)) seeds) _
          f₀ in
      let (closed, e₂, f₂) = >>=-eq-ok (close_window now gs) _ f₁ in
      let (closed_eq, c) = close_window_done now gs closed e₂ in
      let (paid, e₃, f₃) =
        >>=-eq-ok (pay_burn rt ctx closed.1 (record w { global_state = some closed.0 })) _ f₂ in
      let (recorded, e₄, f₄) =
        >>=-eq-ok (record_win rt now ctx gs.holder_count closed.1 paid) _ f₃ in
      (
        paid,
        recorded,
        ground arith,
        ground arith,
        c,
        subst (λ t. pay_burn rt ctx t.1 (record w { global_state = some t.0 }) ≡ ok paid) closed_eq
            e₃,
        subst (λ t. record_win rt now ctx gs.holder_count t.1 paid ≡ ok recorded) closed_eq e₄,
        subst (λ t. w' ≡ emit (settled t.1.event) recorded) closed_eq (ground arith),
      )

  -- A settlement closes the window, burns from the vault and, on a flip, records the win at the
  -- address of the holder count before it, which was vacant.
  pub settle_effect :
      let account = rt.address (win_record gs.holder_count) in
      (ctx.burn_address ≡ gs.burn_address)
      × (ctx.win_record ≡ account)
      × Closed now gs
      × ((k : Pubkey)
          → w'.lamports k
              + (if k == rt.address vault then gs.top_bid_amount - fee_of gs else 0)
              + (if k == ctx.caller then win_rent rt gs else 0)
            ≡ w.lamports k
              + (if k == gs.burn_address then gs.top_bid_amount - fee_of gs else 0)
              + (if k == account then win_rent rt gs else 0))
      × (w'
          ≡ emit (settled (settle_event gs)) (record w {
            lamports = w'.lamports;
            global_state = some (settled_state now gs);
            win_records =
                (if is_flip gs
                  then put w.win_records account (some (win_of rt now gs))
                  else w.win_records);
          }))
      × (is_flip gs ≡ true → w.lamports account ≡ 0)
  settle_effect =
      let account = rt.address (win_record gs.holder_count) in
      let (paid, recorded, burns, wins, c, e₃, e₄, last) = run_settle_blocks in
      let (paid_eq, m₁) = pay_burn_done rt ctx (settlement_of now gs) _ paid e₃ in
      let (recorded_eq, m₂, vacant) = record_win_done rt now ctx gs paid recorded e₄ in
      let apart = address-ne rt (win_record gs.holder_count) vault (λ e. cc) in
      let balances : w'.lamports ≡ recorded.lamports = ap (λ t. t.lamports) last in
      let n₁ =
        subst
          (λ a. Moves w.lamports (rt.address vault) a (gs.top_bid_amount - fee_of gs) paid.lamports)
          burns m₁ in
      let n₂ =
        subst (λ a. Moves paid.lamports ctx.caller a (win_rent rt gs) recorded.lamports) wins m₂ in
      let vacant' = subst (λ a. is_flip gs ≡ true → paid.lamports a ≡ 0) wins vacant in
      let world = λ (l : Balances) (a : Pubkey) (t : World).
        emit (settled (settle_event gs)) (record t {
          lamports = l;
          win_records =
              (if is_flip gs then put t.win_records a (some (win_of rt now gs)) else t.win_records);
        }) in
      (
        burns,
        wins,
        c,
        λ k. ground (arith, n₁ k, n₂ k, ap (λ l. l k) balances),
        last
            ∙ ap (emit (settled (settle_event gs))) recorded_eq
            ∙ ap (λ a. world recorded.lamports a paid) wins
            ∙ ap (world recorded.lamports account) paid_eq
            ∙ ap (λ l. world l account (record w { global_state = some (settled_state now gs) }))
                (sym balances),
        λ flip. ground (arith, vacant' flip, n₁ account),
      )
