-- ===== src/Initialize/Effect.antt =====
-- What a successful initialization has done.
use toggld_program.Base.{ℕ, ◌<◌, ◌≡◌, ◌≢◌, none, some, false, arith, ap, ◌∙◌, sym}
use toggld_program.Base.Int.{ℤ, pos}
use toggld_program.State.{GlobalState}
use toggld_program.Constants.{Pubkey, default, global_state_space, incinerator}
use toggld_program.Outcome.{ok, >>=-eq-ok, ok-injective}
use toggld_program.Runtime.{
  Runtime, Balances, global_state, vault, win_record, derived-ne, address-ne,
}
use toggld_program.World.{World, put}
use toggld_program.Initialize.{
  InitializeAccounts, check_initialize, fund_initialize, initialize, genesis_state, genesis_win,
}

-- What the checks have established.
pub record Permitted (ctx : InitializeAccounts) (treasury admin : Pubkey) (price : ℕ) (w : World)
    : Type 0 where
  pub fresh : w.global_state ≡ none
  pub program_data_found : ctx.programdata_address ≡ some ctx.program_data
  pub authorized : ctx.upgrade_authority ≡ some ctx.payer
  pub price_pos : 0 < price
  pub treasury_set : treasury ≢ default
  pub admin_set : admin ≢ default

check_initialize_done :
    (rt : Runtime) (ctx : InitializeAccounts) (treasury admin : Pubkey) (price : ℕ) (w : World)
    → check_initialize rt ctx treasury admin price w ≡ ok tt
    → Permitted ctx treasury admin price w
unfolding check_initialize
check_initialize_done rt ctx treasury admin price w h = ground arith

-- The vault was vacant, and holds exactly its rent.
fund_initialize_done :
    (rt : Runtime) (payer : Pubkey) (l l' : Balances)
    → rt.is_derived payer ≡ false
    → fund_initialize rt payer l ≡ ok l'
    → (l (rt.address vault) ≡ 0) × (l' (rt.address vault) ≡ rt.minimum_balance 0)
unfolding fund_initialize
fund_initialize_done rt payer l l' wallet h =
    let (l₁, e₁, f₁) =
      >>=-eq-ok (rt.init payer (rt.address global_state) global_state_space l) _ h in
    let (l₂, e₂, f₂) =
      >>=-eq-ok (rt.create_account payer (rt.address vault) (rt.minimum_balance 0) l₁) _ f₁ in
    let v = rt.address vault in
    let m₁ = rt.init_moves _ _ _ l l₁ e₁ v in
    let m₂ = rt.create_account_moves _ _ _ l₁ l₂ e₂ v in
    let m₃ = rt.create_account_moves _ _ _ l₂ l' f₂ v in
    let vacant = rt.create_account_vacant _ _ _ l₁ l₂ e₂ in
    let p = derived-ne rt payer vault wallet in
    let g = address-ne rt vault global_state (λ e. cc) in
    let r = address-ne rt vault (win_record 0) (λ e. cc) in
    (ground (arith, m₁, vacant, p, g), ground (arith, m₁, m₂, m₃, vacant, p, g, r))

-- The state of a game that begins: the treasury holds the toggle, which is off, at the genesis price;
-- 15% of a bid is the fee, a raise is 5% and a window 30 seconds; no window is open, nothing is
-- escrowed, and the burns go to the incinerator.
abbrev first_state : ℤ → Pubkey → Pubkey → ℕ → ℕ → GlobalState
first_state now treasury admin price vault_bump = record {
  holder = treasury;
  holder_since = now;
  current_price = price;
  is_on = false;
  total_challenges = 0;
  holder_count = 1;
  treasury = treasury;
  burn_address = incinerator;
  fee_bps = 1_500;
  admin = admin;
  params_locked = false;
  min_raise_bps = 500;
  base_window_secs = 30;
  genesis_price = price;
  window_active = false;
  window_end_ts = pos 0;
  top_bidder = 0;
  top_bid_amount = 0;
  escrowed_amount = 0;
  treasury_balance = 0;
  vault_bump = vault_bump;
}

-- A successful call by a wallet comes from the upgrade authority, at a positive price, for a treasury
-- and an admin that are set, and before any game. It leaves the first state, a vault that holds
-- exactly its rent, and at ordinal 0 the record of the treasury as the first holder, at no price and
-- not minted; nothing else changes but the balances.
pub initialize_effect :
    (rt : Runtime) (now : ℤ) (ctx : InitializeAccounts) (treasury admin : Pubkey) (price : ℕ)
    (w w' : World)
    → rt.is_derived ctx.payer ≡ false
    → initialize rt now ctx treasury admin price w ≡ ok w'
    → Permitted ctx treasury admin price w
      × (w'.lamports (rt.address vault) ≡ rt.minimum_balance 0)
      × (w' ≡ record w {
        lamports = w'.lamports;
        global_state = some (first_state now treasury admin price (rt.bump vault));
        win_records = put w.win_records (rt.address (win_record 0)) (
            some (record {
              winner = treasury;
              holder_count = 1;
              price_paid = 0;
              won_at = now;
              minted = false;
              bump = rt.bump (win_record 0);
            }));
      })
unfolding initialize
initialize_effect rt now ctx treasury admin price w w' wallet done =
    let (_, e₀, f₀) = >>=-eq-ok (check_initialize rt ctx treasury admin price w) _ done in
    let (l, e₁, f₁) = >>=-eq-ok (fund_initialize rt ctx.payer w.lamports) _ f₀ in
    let last = ok-injective _ w' f₁ in
    let balances : w'.lamports ≡ l = ap (λ t. t.lamports) last in
    let (_, funded) = fund_initialize_done rt ctx.payer w.lamports l wallet e₁ in
    (
      check_initialize_done rt ctx treasury admin price w e₀,
      ap (λ t. t (rt.address vault)) balances ∙ funded,
      last
          ∙ ap
              (λ t. record w {
                lamports = t;
                global_state = some (genesis_state now treasury admin price (rt.bump vault));
                win_records =
                    put w.win_records (rt.address (win_record 0))
                      (some (genesis_win now treasury (rt.bump (win_record 0))));
              })
              (sym balances),
    )
