-- ===== src/Examples/Bidding.antt =====
-- The theorems on the game, at the short game.
use toggld_program.Base.{◌+◌, ◌≤◌, ◌<◌, ◌≡◌, refl, some, false, arith, sym, ◌∙◌}
use toggld_program.Base.Int.{pos, ◌+ℤ◌}
use toggld_program.State.{GlobalState}
use toggld_program.Outcome.{ok}
use toggld_program.Runtime.{vault}
use toggld_program.Runtime.Sample.{sample}
use toggld_program.Programs.Sample.{sample_programs}
use toggld_program.Initialize.{genesis_state}
use toggld_program.Initialize.Effect.{initialize_effect}
use toggld_program.Challenge.{run_challenge, open_or_extend}
use toggld_program.Challenge.Blocks.{opened_state}
use toggld_program.Challenge.Effect.{cold_effect, outbid_effect}
use toggld_program.Settle.{run_settle, close_window}
use toggld_program.Settle.Effect.{settled_state, settlement_of, settle_effect}
use toggld_program.Game.Invariant.{WorldInv}
use toggld_program.Game.Bids.{challenge_loaded, after_bid, run_challenge-WorldInv}
use toggld_program.Game.Settlements.{settle_loaded, run_settle-WorldInv}
use toggld_program.Game.Payouts.{initialize-WorldInv}
use toggld_program.Game.Steps.{bids, settles, Advanced}
use toggld_program.Game.History.{
  Reach, here, next, Reach-Advanced, history_solvent, history_recorded,
}
use toggld_program.Game.Guards.{open_or_extend_iff, close_window_iff}
use toggld_program.Examples.Collectible.{core}
use toggld_program.Examples.Scenario.{
  alice, bob, admin, treasury, empty_world, deploy, genesis, genesis_eq, first_bidder, opened,
  opened_eq, second_bidder, raised, raised_eq, settler, settled_world, settled_eq,
}

abbrev pub genesis_gs : GlobalState
genesis_gs = genesis_state (pos 1_000) treasury admin 1_000_000 255

pub genesis_inv : WorldInv sample genesis genesis_gs
genesis_inv =
    initialize-WorldInv sample (pos 1_000) deploy treasury admin 1_000_000 empty_world genesis refl
      (omega arith) (λ _. refl) (λ _. refl) genesis_eq

abbrev pub opened_gs : GlobalState
opened_gs = after_bid (pos 1_010) alice 1_050_000 genesis_gs

opening : run_challenge sample (pos 1_010) first_bidder 1_050_000 genesis_gs genesis ≡ ok opened
opening =
    sym (
      challenge_loaded sample (pos 1_010) first_bidder 1_050_000 genesis_gs genesis
        genesis_inv.loaded)
    ∙ opened_eq

pub opened_inv : WorldInv sample opened opened_gs
opened_inv =
    run_challenge-WorldInv sample (pos 1_010) first_bidder 1_050_000 genesis_gs genesis opened
      genesis_inv refl (λ e. ground arith) (omega arith) opening

abbrev pub raised_gs : GlobalState
raised_gs = after_bid (pos 1_020) bob 1_200_000 opened_gs

raising : run_challenge sample (pos 1_020) second_bidder 1_200_000 opened_gs opened ≡ ok raised
raising =
    sym (
      challenge_loaded sample (pos 1_020) second_bidder 1_200_000 opened_gs opened
        opened_inv.loaded)
    ∙ raised_eq

pub raised_inv : WorldInv sample raised raised_gs
raised_inv =
    run_challenge-WorldInv sample (pos 1_020) second_bidder 1_200_000 opened_gs opened raised
      opened_inv refl (λ e. ground arith) (omega arith) raising

pub settling : run_settle sample (pos 1_060) settler raised_gs raised ≡ ok settled_world
settling =
    sym (settle_loaded sample (pos 1_060) settler raised_gs raised raised_inv.loaded) ∙ settled_eq

pub settled_inv : WorldInv sample settled_world (settled_state (pos 1_060) raised_gs)
settled_inv =
    run_settle-WorldInv sample (pos 1_060) settler raised_gs raised settled_world raised_inv refl
      settling

whole_game : Reach sample sample_programs core genesis settled_world
whole_game =
    next
      (next
        (next here (
          bids (pos 1_010) first_bidder 1_050_000 refl (λ e. ground arith) (omega arith) opened_eq))
        (bids (pos 1_020) second_bidder 1_200_000 refl (λ e. ground arith) (omega arith) raised_eq))
      (settles (pos 1_060) settler refl settled_eq)

history_solvent_example :
    (gs : GlobalState) × (settled_world.global_state ≡ some gs)
    × (890_880 + gs.top_bid_amount + gs.treasury_balance
        ≤ settled_world.lamports (sample.address vault))
    × (1_000_000 ≤ gs.current_price)
history_solvent_example =
    let (gs, loaded, solvent, _, price, _, _) =
      history_solvent sample sample_programs core (pos 1_000) deploy treasury admin 1_000_000
        empty_world genesis settled_world refl (omega arith) (λ _. refl) (λ _. refl) genesis_eq
        whole_game in
    (gs, loaded, solvent, price)

history_recorded_example :
    (gs : GlobalState) × (settled_world.global_state ≡ some gs) × (0 < gs.holder_count)
history_recorded_example =
    let (gs, loaded, counted, _, _) =
      history_recorded sample sample_programs core (pos 1_000) deploy treasury admin 1_000_000
        empty_world genesis settled_world refl (omega arith) (λ _. refl) (λ _. refl) genesis_eq
        whole_game in
    (gs, loaded, counted)

Reach-Advanced_example : Advanced sample genesis_gs settled_world
Reach-Advanced_example =
    Reach-Advanced sample sample_programs core genesis_gs whole_game genesis_inv

cold_effect_example : opened.global_state ≡ some opened_gs
cold_effect_example =
    let (_, _, _, written, _) =
      cold_effect sample (pos 1_010) first_bidder 1_050_000 genesis_gs genesis opened opening
        refl in
    λ i. (written i).global_state

outbid_effect_example : raised.global_state ≡ some raised_gs
outbid_effect_example =
    let (_, _, _, written, _, _, _, _) =
      outbid_effect sample (pos 1_020) second_bidder 1_200_000 opened_gs opened raised raising
        (λ e. ground arith) in
    λ i. (written i).global_state

settle_effect_example : settled_world.global_state ≡ some (settled_state (pos 1_060) raised_gs)
settle_effect_example =
    let (_, _, _, _, written, _) =
      settle_effect sample (pos 1_060) settler raised_gs raised settled_world settling in
    λ i. (written i).global_state

initialize_effect_example : genesis.lamports (sample.address vault) ≡ 890_880
initialize_effect_example =
    let (_, funded, _) =
      initialize_effect sample (pos 1_000) deploy treasury admin 1_000_000 empty_world genesis refl
        genesis_eq in
    funded

open_or_extend_iff_example :
    open_or_extend (pos 1_010) alice 1_050_000 genesis_gs
    ≡ ok (opened_state (pos 1_010) genesis_gs, false)
unfolding ◌+ℤ◌
open_or_extend_iff_example =
    (open_or_extend_iff sample (pos 1_010) alice 1_050_000 genesis_gs genesis_inv.game (omega arith)
        (omega arith)).0
      ((λ e. ground arith), (λ e. ground arith), omega arith, omega arith)

close_window_iff_example :
    close_window (pos 1_060) raised_gs
    ≡ ok (settled_state (pos 1_060) raised_gs, settlement_of (pos 1_060) raised_gs)
unfolding ◌+ℤ◌
close_window_iff_example =
    (close_window_iff sample (pos 1_060) raised_gs raised_inv.game).0
      (refl, omega arith, (λ e. omega arith), omega arith, omega arith)
