-- ===== src/Examples/Scenario.antt =====
-- A short game: an initialization, a first bid, a bid over it, and the settlement.
use toggld_program.Base.{◌≡◌, refl, Bool, true, false, some, none, [], ◌==◌, ◌||◌, if◌then◌else◌}
use toggld_program.Base.Int.{pos}
use toggld_program.Constants.{Pubkey, incinerator}
use toggld_program.Outcome.{Result, ok, err}
use toggld_program.Runtime.{Balances, refund, win_record}
use toggld_program.Runtime.Sample.{sample}
use toggld_program.World.{World}
use toggld_program.Initialize.{InitializeAccounts, initialize, check_initialize, fund_initialize}
use toggld_program.Challenge.{
  ChallengeAccounts, challenge, run_challenge, open_or_extend, open_refund, settle_previous,
  take_bid,
}
use toggld_program.Pure.{require_min_raise, compute_window_reset, compute_split}
use toggld_program.Settle.{SettleAccounts, settle, run_settle, close_window, pay_burn, record_win}
use toggld_program.Base.Int.{◌+ℤ◌}

abbrev pub alice : Pubkey
alice = 1001

abbrev pub bob : Pubkey
bob = 1002

abbrev pub admin : Pubkey
admin = 2001

abbrev pub treasury : Pubkey
treasury = 2002

abbrev pub deployer : Pubkey
deployer = 3001

-- The wallets that hold something at first.
abbrev purses : Balances
purses k = if k == alice || k == bob || k == admin || k == deployer then 1_000_000_000_000 else 0

abbrev pub empty_world : World
empty_world = record {
  lamports = purses;
  tokens = λ _. 0;
  supply = λ _. 0;
  token_accounts = λ _. false;
  pool_data = λ _. [];
  global_state = none;
  refunds = λ _. none;
  win_records = λ _. none;
  token_config = none;
  team_vesting = none;
  nft_collection_config = none;
  events = [];
}

-- The outcome of an instruction that goes through.
abbrev pub world_of : Result World → World
world_of (ok w) = w
world_of (err _) = empty_world

abbrev is_ok : Result World → Bool
is_ok (ok _) = true
is_ok (err _) = false

pub went_through : (r : Result World) → is_ok r ≡ true → r ≡ ok (world_of r)
went_through (ok w) h = refl
went_through (err e) h = cc

abbrev pub deploy : InitializeAccounts
deploy = record {
  payer = deployer;
  programdata_address = some 77;
  program_data = 77;
  upgrade_authority = some deployer;
}

abbrev pub genesis : World
genesis = world_of (initialize sample (pos 1_000) deploy treasury admin 1_000_000 empty_world)

pub genesis_eq :
    initialize sample (pos 1_000) deploy treasury admin 1_000_000 empty_world ≡ ok genesis
unfolding initialize check_initialize fund_initialize
genesis_eq = went_through _ refl

abbrev pub first_bidder : ChallengeAccounts
first_bidder = record { challenger = alice; pending_refund = none }

abbrev pub opened : World
opened = world_of (challenge sample (pos 1_010) first_bidder 1_050_000 genesis)

pub opened_eq : challenge sample (pos 1_010) first_bidder 1_050_000 genesis ≡ ok opened
unfolding initialize check_initialize fund_initialize challenge run_challenge open_or_extend
    open_refund settle_previous take_bid require_min_raise compute_window_reset ◌+ℤ◌
opened_eq = went_through _ refl

abbrev pub second_bidder : ChallengeAccounts
second_bidder = record { challenger = bob; pending_refund = some (sample.address (refund alice)) }

abbrev pub raised : World
raised = world_of (challenge sample (pos 1_020) second_bidder 1_200_000 opened)

pub raised_eq : challenge sample (pos 1_020) second_bidder 1_200_000 opened ≡ ok raised
unfolding initialize check_initialize fund_initialize challenge run_challenge open_or_extend
    open_refund settle_previous take_bid require_min_raise compute_window_reset ◌+ℤ◌
raised_eq = went_through _ refl

abbrev pub settler : SettleAccounts
settler = record {
  caller = alice;
  burn_address = incinerator;
  win_record = sample.address (win_record 1);
}

abbrev pub settled_world : World
settled_world = world_of (settle sample (pos 1_060) settler raised)

pub settled_eq : settle sample (pos 1_060) settler raised ≡ ok settled_world
unfolding initialize check_initialize fund_initialize challenge run_challenge open_or_extend
    open_refund settle_previous take_bid require_min_raise compute_window_reset ◌+ℤ◌ settle
    run_settle close_window pay_burn record_win compute_split
settled_eq = went_through _ refl
