-- ===== src/PromoteBurnVenue.antt =====
-- programs/toggld/src/instructions/promote_burn_venue.rs: the admin turns the swap to the pool that
-- the curve has graduated to.
pub mod Effect
use toggld_program.Base.{ℕ, ◌≡◌, Bool, not, some, ◌==◌, ◌||◌}
use toggld_program.Constants.{Pubkey, venue_damm_v2}
use toggld_program.State.{GlobalState, TokenConfig}
use toggld_program.Outcome.{
  Result, ok, constraint, ◌>>=◌, ◌>>◌, require, ok_or, not_initialized, unauthorized, invalid_venue,
  venue_cannot_revert,
}
use toggld_program.World.{World, emit}
use toggld_program.Events.{burn_venue_promoted}

-- The arguments of the instruction.
pub record PromoteArgs : Type 0 where
  pub new_venue : ℕ
  pub new_pool_address : Pubkey
  pub new_venue_config : Pubkey

abbrev pub promoted_config : PromoteArgs → TokenConfig → TokenConfig
promoted_config args config = record config {
  venue = args.new_venue;
  pool_address = args.new_pool_address;
  venue_config = args.new_venue_config;
}

unfoldable pub run_promote_burn_venue :
    Pubkey → PromoteArgs → GlobalState → TokenConfig → World → Result World
run_promote_burn_venue admin args gs config w = do
  require (admin == gs.admin) unauthorized
  require (args.new_venue == venue_damm_v2) invalid_venue
  require
      (not (config.venue == args.new_venue)
        || not (config.pool_address == args.new_pool_address)
        || not (config.venue_config == args.new_venue_config))
      venue_cannot_revert
  ok (
      emit
        (burn_venue_promoted (record {
          venue = args.new_venue;
          pool_address = args.new_pool_address;
          venue_config = args.new_venue_config;
        }))
        (record w { token_config = some (promoted_config args config) }))

unfoldable pub promote_burn_venue : Pubkey → PromoteArgs → World → Result World
promote_burn_venue admin args w = do
  gs ← ok_or w.global_state (constraint not_initialized)
  config ← ok_or w.token_config (constraint not_initialized)
  run_promote_burn_venue admin args gs config w
