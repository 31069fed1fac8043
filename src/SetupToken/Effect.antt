-- ===== src/SetupToken/Effect.antt =====
-- What a successful set-up has done.
use toggld_program.Base.{◌≤◌, ◌≡◌, none, refl, false, arith, ap, some, ◌++◌, ◌∷◌, []}
use toggld_program.Events.{token_configured}
use toggld_program.Constants.{
  incinerator, venue_damm_v2, max_slippage_bps_ceiling, token_config_space,
}
use toggld_program.State.{GlobalState}
use toggld_program.Outcome.{ok, >>=-eq-ok, ok-injective}
use toggld_program.Runtime.{Runtime, Seeds, Balances, token_config, burn_vault, derived-ne}
use toggld_program.Programs.{Programs}
use toggld_program.World.{World, own_balances, open_at}
use toggld_program.SetupToken.{
  SetupTokenAccounts, SetupTokenArgs, check_setup_token, fund_setup_token, run_setup_token,
  configured_world,
}

-- What the checks have established.
pub record Accepted (ctx : SetupTokenAccounts) (args : SetupTokenArgs) (gs : GlobalState)
    (w : World) : Type 0 where
  pub by_admin : ctx.admin ≡ gs.admin
  pub first : w.token_config ≡ none
  pub unset : gs.burn_address ≡ incinerator
  pub mint_matches : ctx.mint ≡ args.toggld_mint
  pub venue_known : args.venue ≤ venue_damm_v2
  pub slippage_capped : args.max_slippage_bps ≤ max_slippage_bps_ceiling

check_setup_token_done :
    (rt : Runtime) (pr : Programs) (ctx : SetupTokenAccounts) (args : SetupTokenArgs)
    (gs : GlobalState) (w : World)
    → check_setup_token rt pr ctx args gs w ≡ ok tt
    → Accepted ctx args gs w
unfolding check_setup_token
check_setup_token_done rt pr ctx args gs w h = ground arith

-- No derived account loses lamports when a wallet pays.
fund_setup_token_done :
    (rt : Runtime) (pr : Programs) (ctx : SetupTokenAccounts) (l l' : Balances)
    → rt.is_derived ctx.admin ≡ false
    → fund_setup_token rt pr ctx l ≡ ok l'
    → (s : Seeds) → l (rt.address s) ≤ l' (rt.address s)
unfolding fund_setup_token
fund_setup_token_done rt pr ctx l l' wallet h s =
    let (l₁, e₁, f₁) =
      >>=-eq-ok (rt.init ctx.admin (rt.address token_config) token_config_space l) _ h in
    let (l₂, e₂, f₂) =
      >>=-eq-ok
        (rt.init ctx.admin (pr.ata (rt.address burn_vault) ctx.mint) pr.token_account_space l₁) _
        f₁ in
    let p = derived-ne rt ctx.admin s wallet in
    ground (
      arith,
      rt.init_moves _ _ _ l l₁ e₁ (rt.address s),
      rt.init_moves _ _ _ l₁ l₂ e₂ (rt.address s),
      rt.create_account_moves _ _ _ l₂ l' f₂ (rt.address s),
      p,
    )

-- A successful set-up by a wallet comes from the admin, before any other, and takes nothing from a
-- derived account. Of the game's state it changes the burn address alone, from the incinerator to
-- the burn vault; it configures the token as the arguments say, with the bumps of the derived
-- addresses and no tokens burned, logs that, and opens the vault's token account; nothing else
-- changes but the balances.
pub setup_token_effect :
    (rt : Runtime) (pr : Programs) (ctx : SetupTokenAccounts) (args : SetupTokenArgs)
    (gs : GlobalState) (w w' : World)
    → rt.is_derived ctx.admin ≡ false
    → run_setup_token rt pr ctx args gs w ≡ ok w'
    → Accepted ctx args gs w
      × ((s : Seeds) → w.lamports (rt.address s) ≤ w'.lamports (rt.address s))
      × (w' ≡ record w {
        lamports = w'.lamports;
        token_accounts = open_at w.token_accounts (pr.ata (rt.address burn_vault) ctx.mint);
        global_state = some (record gs { burn_address = rt.address burn_vault });
        token_config = some (record {
          toggld_mint = args.toggld_mint;
          burn_vault_bump = rt.bump burn_vault;
          burn_vault_ata_bump = pr.ata_bump (rt.address burn_vault) ctx.mint;
          venue = args.venue;
          pool_address = args.pool_address;
          venue_config = args.venue_config;
          max_slippage_bps = args.max_slippage_bps;
          total_tokens_burned = 0;
        });
        events =
            w.events
            ++ token_configured (record {
              mint = args.toggld_mint;
              burn_vault = rt.address burn_vault;
              venue = args.venue;
              pool_address = args.pool_address;
              venue_config = args.venue_config;
              max_slippage_bps = args.max_slippage_bps;
            })
              ∷ [];
      })
unfolding run_setup_token
setup_token_effect rt pr ctx args gs w w' wallet done =
    let (_, e₀, f₀) = >>=-eq-ok (check_setup_token rt pr ctx args gs w) _ done in
    let (l, e₁, f₁) = >>=-eq-ok (fund_setup_token rt pr ctx w.lamports) _ f₀ in
    let last = ok-injective _ w' f₁ in
    (
      check_setup_token_done rt pr ctx args gs w e₀,
      λ s. ground (
        arith,
        fund_setup_token_done rt pr ctx w.lamports l wallet e₁ s,
        ap (λ t. t.lamports (rt.address s)) last,
      ),
      own_balances (configured_world rt pr ctx args gs w) l w' (λ b. refl) last,
    )
