-- ===== src/Examples/Token.antt =====
-- The theorems on the token instructions, at concrete inputs.
use toggld_program.Base.{◌≤◌, ◌<◌, ◌≡◌, refl, some, arith, if◌then◌else◌, ◌==◌}
use toggld_program.Base.Int.{pos, ◌+ℤ◌, ◌-ℤ◌}
use toggld_program.Constants.{Pubkey, venue_damm_v2, venue_dbc_curve}
use toggld_program.State.{GlobalState, TokenConfig}
use toggld_program.State
use toggld_program.Outcome.{ok, err, code, venue_cannot_revert}
use toggld_program.Runtime.{Balances, burn_vault}
use toggld_program.Runtime.Sample.{sample, move}
use toggld_program.Programs.Sample.{sample_programs}
use toggld_program.World.{World}
use toggld_program.Initialize.{genesis_state}
use toggld_program.SetupToken.{
  SetupTokenAccounts, SetupTokenArgs, check_setup_token, fund_setup_token, run_setup_token,
  new_token_config,
}
use toggld_program.SetupToken.Effect.{setup_token_effect}
use toggld_program.PromoteBurnVenue.{
  PromoteArgs, promoted_config, run_promote_burn_venue, promote_burn_venue,
}
use toggld_program.PromoteBurnVenue.Effect.{promote_effect, promote_again}
use toggld_program.TeamVesting.{
  VestingAccounts, ScheduleArgs, new_schedule, check_schedule, fund_schedule, run_init_team_vesting,
  run_claim_vested, vesting_ata, admin_ata, check_vesting_accounts,
}
use toggld_program.TeamVesting.Effect.{
  released, ScheduleInv, claimed_world, claim_vested_effect, claim_vested_succeeds,
  init_team_vesting_effect,
}
use toggld_program.Pure.{compute_vested_unlocked}
use toggld_program.Examples.Scenario.{admin, treasury, empty_world, world_of, went_through}

abbrev mint : Pubkey
mint = 5001

abbrev gs : GlobalState
gs = genesis_state (pos 1_000) treasury admin 1_000_000 255

-- A world in which the admin holds tokens.
abbrev launch : World
launch = record empty_world {
  global_state = some gs;
  tokens = λ k. if k == sample_programs.ata admin mint then 50_000_000 else 0;
  token_accounts = λ k. k == sample_programs.ata admin mint;
}

abbrev setup : SetupTokenAccounts
setup = record { admin = admin; mint = mint }

abbrev setup_args : SetupTokenArgs
setup_args = record {
  toggld_mint = mint;
  venue = venue_dbc_curve;
  pool_address = 6001;
  venue_config = 6002;
  max_slippage_bps = 100;
}

abbrev configured : World
configured = world_of (run_setup_token sample sample_programs setup setup_args gs launch)

configured_eq : run_setup_token sample sample_programs setup setup_args gs launch ≡ ok configured
unfolding run_setup_token check_setup_token fund_setup_token
configured_eq = went_through _ refl

setup_token_effect_example :
    launch.lamports (sample.address burn_vault) ≤ configured.lamports (sample.address burn_vault)
setup_token_effect_example =
    let (_, grown, _) =
      setup_token_effect sample sample_programs setup setup_args gs launch configured refl
        configured_eq in
    grown burn_vault

abbrev config : TokenConfig
config = new_token_config sample sample_programs setup_args mint

abbrev graduated : World
graduated = record launch { token_config = some config }

abbrev first_pool : PromoteArgs
first_pool = record { new_venue = venue_damm_v2; new_pool_address = 7001; new_venue_config = 7002 }

abbrev second_pool : PromoteArgs
second_pool = record { new_venue = venue_damm_v2; new_pool_address = 7003; new_venue_config = 7002 }

abbrev promoted : World
promoted = world_of (promote_burn_venue admin first_pool graduated)

promoted_eq : promote_burn_venue admin first_pool graduated ≡ ok promoted
unfolding promote_burn_venue run_promote_burn_venue
promoted_eq = went_through _ refl

promote_again_example :
    promote_burn_venue admin first_pool promoted ≡ err (code venue_cannot_revert)
promote_again_example =
    let (_, refused) =
      promote_again first_pool second_pool gs config graduated promoted refl refl promoted_eq
        refl in
    refused

abbrev promoted_run : World
promoted_run = world_of (run_promote_burn_venue admin first_pool gs config graduated)

promoted_run_eq : run_promote_burn_venue admin first_pool gs config graduated ≡ ok promoted_run
unfolding run_promote_burn_venue
promoted_run_eq = went_through _ refl

promote_effect_example : promoted_run.token_config ≡ some (promoted_config first_pool config)
promote_effect_example =
    let (_, _, written) =
      promote_effect admin first_pool gs config graduated promoted_run promoted_run_eq in
    λ i. (written i).token_config

abbrev vesting : VestingAccounts
vesting = record { admin = admin; mint = mint }

abbrev schedule : ScheduleArgs
schedule = record {
  total_amount = 50_000_000;
  start_ts = pos 10_000;
  duration_secs = pos 5_000_000;
}

abbrev locked : World
locked =
    world_of (run_init_team_vesting sample sample_programs (pos 10_000) vesting schedule gs launch)

locked_eq :
    run_init_team_vesting sample sample_programs (pos 10_000) vesting schedule gs launch ≡ ok locked
unfolding run_init_team_vesting check_vesting_accounts check_schedule fund_schedule ◌-ℤ◌
locked_eq = went_through _ refl

init_team_vesting_effect_example :
    locked.team_vesting ≡ some (new_schedule sample sample_programs vesting schedule)
init_team_vesting_effect_example =
    let (_, _, stored, _, _, _, _, _) =
      init_team_vesting_effect sample sample_programs (pos 10_000) vesting schedule gs launch locked
        (omega arith) (omega arith) locked_eq in
    stored

abbrev locked_schedule : State.TeamVesting
locked_schedule = new_schedule sample sample_programs vesting schedule

schedule_inv : ScheduleInv (pos 10_000) locked_schedule
unfolding ◌-ℤ◌
schedule_inv = ground arith

abbrev paid : Balances
paid =
    move (vesting_ata sample sample_programs vesting) (admin_ata sample sample_programs vesting)
      25_000_000 locked.tokens

claim_vested_succeeds_example :
    run_claim_vested sample sample_programs (pos 2_510_000) vesting gs locked_schedule locked
    ≡ ok (
        claimed_world sample sample_programs (pos 2_510_000) vesting gs locked_schedule locked paid)
unfolding ◌-ℤ◌ run_init_team_vesting check_vesting_accounts check_schedule fund_schedule
claim_vested_succeeds_example =
    claim_vested_succeeds sample sample_programs (pos 2_510_000) vesting gs locked_schedule locked
      (pos 10_000) paid schedule_inv refl refl refl (omega arith) (omega arith) refl refl
      (omega arith) refl

abbrev claimed : World
claimed =
    world_of
      (run_claim_vested sample sample_programs (pos 2_510_000) vesting gs locked_schedule locked)

claimed_eq :
    run_claim_vested sample sample_programs (pos 2_510_000) vesting gs locked_schedule locked
    ≡ ok claimed
unfolding ◌-ℤ◌ ◌+ℤ◌ run_init_team_vesting check_vesting_accounts check_schedule fund_schedule
    run_claim_vested compute_vested_unlocked
claimed_eq = went_through _ refl

claim_vested_effect_example :
    locked_schedule.claimed_amount < released locked_schedule (pos 2_510_000)
claim_vested_effect_example =
    let (_, more, _, _) =
      claim_vested_effect sample sample_programs (pos 2_510_000) vesting gs locked_schedule locked
        claimed (pos 10_000) schedule_inv (omega arith) (omega arith) claimed_eq in
    more
