-- ===== src/BurnTokens/Effect.antt =====
-- What a successful burn has done.
use toggld_program.Base.{ℕ, ◌+◌, ◌≤◌, ◌<◌, ◌≡◌, ◌≢◌, ◌⊎◌, none, arith, ap, checked_sub, ltb, List}
use toggld_program.Constants.{
  Pubkey, venue_dbc_curve, venue_damm_v2, min_sweep_lamports, max_slippage_bps_ceiling,
}
use toggld_program.State.{TokenConfig}
use toggld_program.Outcome.{
  ok, >>=-eq-ok, ok-injective, require, malformed_pool_account, nothing_to_sweep, ok_or, code,
  math_overflow,
}
use toggld_program.Runtime.{Runtime, burn_vault, Moves}
use toggld_program.Programs.{Programs, Bank, Burns}
use toggld_program.World.{World}
use toggld_program.DbcCpi.{dbc_program_id, damm_v2_program_id}
use toggld_program.BurnTokens.{
  BurnTokensAccounts, check_burn_accounts, open_wsol_ata, route, sweep_of, check_floor,
  sqrt_price_offset, wrap, swap, burn_received, count_burned, run_burn_tokens, toggld_ata, wsol_ata,
}
use toggld_program.BurnTokens.Price.{price_floor, read_pool_sqrt_price}

pub check_burn_accounts_done :
    (rt : Runtime) (pr : Programs) (ctx : BurnTokensAccounts) (config : TokenConfig) (w : World)
    → check_burn_accounts rt pr ctx config w ≡ ok tt
    → (ctx.mint ≡ config.toggld_mint) × (ctx.dbc_pool ≡ config.pool_address)
unfolding check_burn_accounts
check_burn_accounts_done rt pr ctx config w h = ground arith

-- The only venues are the curve, with its configuration, and DAMM v2, each by its own program.
pub route_done :
    (ctx : BurnTokensAccounts) (config : TokenConfig) (program_id : Pubkey)
    → route ctx config ≡ ok program_id
    → (ctx.dbc_program ≡ program_id)
      × (((config.venue ≡ venue_dbc_curve)
            × (program_id ≡ dbc_program_id)
            × (ctx.dbc_config ≢ none))
          ⊎ ((config.venue ≡ venue_damm_v2) × (program_id ≡ damm_v2_program_id)))
unfolding route
route_done ctx config program_id h = ground arith

-- What the guards on the sweep have established: it leaves exactly the rent.
pub record Guarded (rent lamports min_out : ℕ) (config : TokenConfig) (sweep : ℕ) : Type 0 where
  pub leaves_rent : lamports ≡ sweep + rent
  pub not_dust : min_sweep_lamports ≤ sweep
  pub min_out_pos : 0 < min_out
  pub slippage_capped : config.max_slippage_bps ≤ max_slippage_bps_ceiling

pub sweep_of_done :
    (rent lamports min_out : ℕ) (config : TokenConfig) (sweep : ℕ)
    → sweep_of rent lamports min_out config ≡ ok sweep
    → Guarded rent lamports min_out config sweep
unfolding sweep_of
sweep_of_done rent lamports min_out config sweep h = ground arith

-- The least output that the caller accepts is no less than the floor at the pool's own price.
abbrev pub IsFloored : List ℕ → TokenConfig → ℕ → ℕ → Type 0
IsFloored pool_data config sweep min_out =
    (sqrt_price floor : ℕ) × (read_pool_sqrt_price pool_data (sqrt_price_offset config)
      ≡ ok sqrt_price)
    × (0 < sqrt_price)
    × (price_floor sweep sqrt_price config.max_slippage_bps ≡ ok floor)
    × (floor ≤ min_out)

pub check_floor_done :
    (pool_data : List ℕ) (config : TokenConfig) (sweep min_out : ℕ)
    → check_floor pool_data config sweep min_out ≡ ok tt
    → IsFloored pool_data config sweep min_out
unfolding check_floor
check_floor_done pool_data config sweep min_out h =
    let (p, e₁, f₁) = >>=-eq-ok (read_pool_sqrt_price pool_data (sqrt_price_offset config)) _ h in
    let (_, e₂, f₂) = >>=-eq-ok (require (ltb 0 p) malformed_pool_account) _ f₁ in
    let (floor, e₃, f₃) = >>=-eq-ok (price_floor sweep p config.max_slippage_bps) _ f₂ in
    (p, floor, e₁, ground arith, e₃, ground arith)

module _ (rt : Runtime) (pr : Programs) (ctx : BurnTokensAccounts) where
  -- Opening the wrapped account touches no token amount.
  pub open_wsol_ata_done :
      (w : World) (opened : Bank)
      → open_wsol_ata rt pr ctx w ≡ ok opened
      → (opened.tokens ≡ w.tokens) × (opened.supply ≡ w.supply)
  unfolding open_wsol_ata
  open_wsol_ata_done w opened h = ground arith

  -- The sweep has moved into the wrapped account.
  pub wrap_done :
      (sweep : ℕ) (b b' : Bank)
      → ctx.mint ≢ ctx.wsol_mint
      → wrap rt pr ctx sweep b ≡ ok b'
      → (b'.tokens (toggld_ata rt pr ctx) ≡ b.tokens (toggld_ata rt pr ctx))
        × (b'.supply ≡ b.supply)
        × Moves b.lamports (rt.address burn_vault) (wsol_ata rt pr ctx) sweep b'.lamports
  unfolding wrap
  wrap_done sweep b b' ne h =
      let (l, e₁, f₁) =
        >>=-eq-ok (rt.transfer (rt.address burn_vault) (wsol_ata rt pr ctx) sweep b.lamports) _ h in
      let kept = pr.sync_native_lamports (wsol_ata rt pr ctx) (record b { lamports = l }) b' f₁ in
      (
        pr.sync_native_elsewhere (wsol_ata rt pr ctx) (toggld_ata rt pr ctx)
            (record b { lamports = l }) b' f₁ (λ e. ne (pr.ata_injective _ _ _ _ e)),
        pr.sync_native_supply (wsol_ata rt pr ctx) (record b { lamports = l }) b' f₁,
        λ k. ground (arith, rt.transfer_moves _ _ sweep b.lamports l e₁ k, ap (λ t. t k) kept),
      )

  -- What was received is gone again from the vault's account and from the supply.
  pub burn_received_done :
      (before received : ℕ) (b b' : Bank)
      → ctx.mint ≢ ctx.wsol_mint
      → burn_received rt pr ctx before b ≡ ok (received, b')
      → (0 < received)
        × (b.tokens (toggld_ata rt pr ctx) ≡ before + received)
        × (b'.tokens (toggld_ata rt pr ctx) ≡ before)
        × Burns b.supply ctx.mint received b'.supply
  unfolding burn_received
  burn_received_done before received b b' ne h =
      let ata = toggld_ata rt pr ctx in
      let (r, e₀, f₀) =
        >>=-eq-ok (ok_or (checked_sub (b.tokens ata) before) (code math_overflow)) _ h in
      let (_, e₁, f₁) = >>=-eq-ok (require (ltb 0 r) nothing_to_sweep) _ f₀ in
      let (burned, e₂, f₂) = >>=-eq-ok (pr.token_burn ctx.mint ata r b) _ f₁ in
      let (closed, e₃, f₃) =
        >>=-eq-ok (pr.close_account (wsol_ata rt pr ctx) (rt.address burn_vault) burned) _ f₂ in
      let last = ok-injective _ (received, b') f₃ in
      let r_eq : received ≡ r = ap (λ t. t.0) last in
      let b_eq : b' ≡ closed = ap (λ t. t.1) last in
      let (gone, fewer, _) = pr.token_burn_burns ctx.mint ata r b burned e₂ in
      let kept =
        pr.close_account_elsewhere (wsol_ata rt pr ctx) (rt.address burn_vault) ata burned closed e₃
          (λ e. ne (pr.ata_injective _ _ _ _ e)) in
      let supply_kept = (pr.close_account_moves _ _ burned closed e₃).1 in
      (
        ground (arith, e₁, r_eq),
        ground (arith, e₀, r_eq),
        ground (arith, e₀, gone ata, kept, ap (λ t. t.tokens ata) b_eq),
        λ k. ground (arith, fewer k, r_eq, ap (λ t. t k) supply_kept, ap (λ t. t.supply k) b_eq),
      )

  -- The blocks of a successful burn, each by what it leaves.
  pub run_burn_tokens_blocks :
      (min_out : ℕ) (config : TokenConfig) (w w' : World)
      → run_burn_tokens rt pr ctx min_out config w ≡ ok w'
      → (opened : Bank) × (program_id : Pubkey) × (sweep : ℕ) × (wrapped swapped : Bank)
        × (received : ℕ) × (b : Bank) × (check_burn_accounts rt pr ctx config w ≡ ok tt)
        × (open_wsol_ata rt pr ctx w ≡ ok opened)
        × (route ctx config ≡ ok program_id)
        × (sweep_of (rt.minimum_balance 0) (opened.lamports (rt.address burn_vault)) min_out config
            ≡ ok sweep)
        × (check_floor (w.pool_data ctx.dbc_pool) config sweep min_out ≡ ok tt)
        × (wrap rt pr ctx sweep opened ≡ ok wrapped)
        × (swap rt pr ctx program_id sweep min_out wrapped ≡ ok swapped)
        × (burn_received rt pr ctx (w.tokens (toggld_ata rt pr ctx)) swapped ≡ ok (received, b))
        × (count_burned rt pr sweep received config b w ≡ ok w')
  unfolding run_burn_tokens
  run_burn_tokens_blocks min_out config w w' done =
      let (_, e₀, f₀) = >>=-eq-ok (check_burn_accounts rt pr ctx config w) _ done in
      let (opened, e₁, f₁) = >>=-eq-ok (open_wsol_ata rt pr ctx w) _ f₀ in
      let (program_id, e₂, f₂) = >>=-eq-ok (route ctx config) _ f₁ in
      let (sweep, e₃, f₃) =
        >>=-eq-ok
          (sweep_of (rt.minimum_balance 0) (opened.lamports (rt.address burn_vault)) min_out config)
          _ f₂ in
      let (_, e₄, f₄) =
        >>=-eq-ok (check_floor (w.pool_data ctx.dbc_pool) config sweep min_out) _ f₃ in
      let (wrapped, e₅, f₅) = >>=-eq-ok (wrap rt pr ctx sweep opened) _ f₄ in
      let (swapped, e₆, f₆) = >>=-eq-ok (swap rt pr ctx program_id sweep min_out wrapped) _ f₅ in
      let (rb, e₇, f₇) =
        >>=-eq-ok (burn_received rt pr ctx (w.tokens (toggld_ata rt pr ctx)) swapped) _ f₆ in
      (opened, program_id, sweep, wrapped, swapped, rb.0, rb.1, e₀, e₁, e₂, e₃, e₄, e₅, e₆, e₇, f₇)
