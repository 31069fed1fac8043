-- ===== src/PromoteBurnVenue/Effect.antt =====
-- The effect of a promotion (promote_burn_venue.rs), once and again.
use toggld_program.Base.{◌≡◌, ◌≢◌, some, arith, ◌++◌, ◌∷◌, []}
use toggld_program.Constants.{Pubkey, venue_damm_v2}
use toggld_program.State.{GlobalState, TokenConfig}
use toggld_program.Outcome.{ok, err, code, venue_cannot_revert}
use toggld_program.World.{World, emit}
use toggld_program.Events.{burn_venue_promoted}
use toggld_program.PromoteBurnVenue.{
  PromoteArgs, promoted_config, run_promote_burn_venue, promote_burn_venue,
}

-- A successful promotion comes from the admin and goes to DAMM v2. Of the token's configuration it
-- changes the venue, the pool and the venue's configuration, to what the arguments say, keeping the
-- mint, the bumps, the slippage and the count of burned tokens; it logs that, and nothing else
-- changes.
pub promote_effect :
    (admin : Pubkey) (args : PromoteArgs) (gs : GlobalState) (config : TokenConfig) (w w' : World)
    → run_promote_burn_venue admin args gs config w ≡ ok w'
    → (admin ≡ gs.admin)
      × (args.new_venue ≡ venue_damm_v2)
      × (w' ≡ record w {
        token_config = some (record config {
          venue = venue_damm_v2;
          pool_address = args.new_pool_address;
          venue_config = args.new_venue_config;
        });
        events =
            w.events
            ++ burn_venue_promoted (record {
              venue = venue_damm_v2;
              pool_address = args.new_pool_address;
              venue_config = args.new_venue_config;
            })
              ∷ [];
      })
unfolding run_promote_burn_venue
promote_effect admin args gs config w w' h = ground arith

-- The instruction is not one-time, as lib.rs has it: after a promotion by the admin the
-- admin promotes a second time to any other pool of DAMM v2, while repeating the same arguments is
-- refused.
pub promote_again :
    (args again : PromoteArgs) (gs : GlobalState) (config : TokenConfig) (w w' : World)
    → w.global_state ≡ some gs
    → w.token_config ≡ some config
    → promote_burn_venue gs.admin args w ≡ ok w'
    → again.new_venue ≡ venue_damm_v2
    → (again.new_pool_address ≢ args.new_pool_address
        → (w'' : World) × (promote_burn_venue gs.admin again w' ≡ ok w''))
      × (promote_burn_venue gs.admin args w' ≡ err (code venue_cannot_revert))
unfolding promote_burn_venue run_promote_burn_venue
promote_again args again gs config w w' e f h v = (
  λ moved. (
    emit
        (burn_venue_promoted (record {
          venue = again.new_venue;
          pool_address = again.new_pool_address;
          venue_config = again.new_venue_config;
        }))
        (record w' { token_config = some (promoted_config again config) }),
    ground arith,
  ),
  ground arith,
)
