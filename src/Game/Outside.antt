-- ===== src/Game/Outside.antt =====
-- The instructions that leave the game's accounts alone: the vesting and the collection.
use toggld_program.Base.{ℕ, ◌≤◌, ◌≡◌, false, List, arith, ap, sym}
use toggld_program.Base.Int.{ℤ}
use toggld_program.Constants.{team_vesting_space}
use toggld_program.State.{GlobalState}
use toggld_program.State
use toggld_program.Outcome.{ok, ok_or, >>=-eq-ok, ok-injective}
use toggld_program.Runtime.{Runtime, Seeds, Balances, team_vesting, derived-ne}
use toggld_program.Programs.{Programs}
use toggld_program.World.{World}
use toggld_program.TeamVesting.{
  VestingAccounts, ScheduleArgs, check_schedule, fund_schedule, vesting_ata, admin_ata,
  init_team_vesting, run_init_team_vesting, claim_vested, run_claim_vested, check_vesting_accounts,
}
use toggld_program.WinNft.Core.{Core}
use toggld_program.WinNft.Collection.{InitNftCollectionAccounts, init_nft_collection}
use toggld_program.WinNft.Collection.Effect.{init_nft_collection_effect}
use toggld_program.Game.Steps.{Elsewhere}

fund_schedule-grows :
    (rt : Runtime) (pr : Programs) (ctx : VestingAccounts) (l l' : Balances)
    → rt.is_derived ctx.admin ≡ false
    → fund_schedule rt pr ctx l ≡ ok l'
    → (s : Seeds) → l (rt.address s) ≤ l' (rt.address s)
unfolding fund_schedule
fund_schedule-grows rt pr ctx l l' wallet h s =
    let (l₁, e₁, e₂) =
      >>=-eq-ok (rt.init ctx.admin (rt.address team_vesting) team_vesting_space l) _ h in
    ground (
      arith,
      rt.init_moves _ _ _ l l₁ e₁ (rt.address s),
      rt.init_moves _ _ _ l₁ l' e₂ (rt.address s),
      derived-ne rt ctx.admin s wallet,
    )

pub init_team_vesting-Elsewhere :
    (rt : Runtime) (pr : Programs) (now : ℤ) (ctx : VestingAccounts) (args : ScheduleArgs)
    (w w' : World)
    → rt.is_derived ctx.admin ≡ false
    → init_team_vesting rt pr now ctx args w ≡ ok w'
    → Elsewhere rt w w'
unfolding init_team_vesting run_init_team_vesting
init_team_vesting-Elsewhere rt pr now ctx args w w' wallet done =
    let (gs, _, f) = >>=-eq-ok (ok_or w.global_state _) _ done in
    let (_, _, f') = >>=-eq-ok (check_vesting_accounts rt pr ctx w) _ f in
    let (_, _, f₀) = >>=-eq-ok (check_schedule now ctx args gs w) _ f' in
    let (l, e₁, f₁) = >>=-eq-ok (fund_schedule rt pr ctx w.lamports) _ f₀ in
    let (t, _, f₂) =
      >>=-eq-ok
        (pr.token_transfer (admin_ata rt pr ctx) (vesting_ata rt pr ctx) args.total_amount w.tokens)
        _ f₁ in
    let last = ok-injective _ w' f₂ in
    record {
      same_state = ap (λ u. u.global_state) last;
      same_refunds = ap (λ u. u.refunds) last;
      same_wins = ap (λ u. u.win_records) last;
      grown = λ s. ground (
        arith,
        fund_schedule-grows rt pr ctx w.lamports l wallet e₁ s,
        ap (λ u. u.lamports (rt.address s)) last,
      );
    }

run_claim_vested-frame :
    (rt : Runtime) (pr : Programs) (now : ℤ) (ctx : VestingAccounts) (gs : GlobalState)
    (v : State.TeamVesting) (w w' : World)
    → run_claim_vested rt pr now ctx gs v w ≡ ok w'
    → (w'.global_state ≡ w.global_state)
      × (w'.refunds ≡ w.refunds)
      × (w'.win_records ≡ w.win_records)
      × (w'.lamports ≡ w.lamports)
unfolding run_claim_vested
run_claim_vested-frame rt pr now ctx gs v w w' h = ground arith

pub claim_vested-Elsewhere :
    (rt : Runtime) (pr : Programs) (now : ℤ) (ctx : VestingAccounts) (w w' : World)
    → claim_vested rt pr now ctx w ≡ ok w'
    → Elsewhere rt w w'
unfolding claim_vested
claim_vested-Elsewhere rt pr now ctx w w' done =
    let (gs, _, f) = >>=-eq-ok (ok_or w.global_state _) _ done in
    let (v, _, f₀) = >>=-eq-ok (ok_or w.team_vesting _) _ f in
    let (a, b, c, d) = run_claim_vested-frame rt pr now ctx gs v w w' f₀ in
    record {
      same_state = a;
      same_refunds = b;
      same_wins = c;
      grown = λ s. ground (arith, ap (λ l. l (rt.address s)) d);
    }

pub init_nft_collection-Elsewhere :
    (rt : Runtime) (core : Core) (ctx : InitNftCollectionAccounts) (name uri : List ℕ)
    (w w' : World)
    → rt.is_derived ctx.admin ≡ false
    → init_nft_collection rt core ctx name uri w ≡ ok w'
    → Elsewhere rt w w'
unfolding init_nft_collection
init_nft_collection-Elsewhere rt core ctx name uri w w' wallet done =
    let (gs, _, f) = >>=-eq-ok (ok_or w.global_state _) _ done in
    let (opened, _, _, _, _, _, _, e₁, e₂, written, _) =
      init_nft_collection_effect rt core ctx name uri gs w w' f in
    record {
      same_state = ap (λ u. u.global_state) written;
      same_refunds = ap (λ u. u.refunds) written;
      same_wins = ap (λ u. u.win_records) written;
      grown = λ s.
          let p = derived-ne rt ctx.admin s wallet in
          ground (
            arith,
            rt.init_moves _ _ _ w.lamports opened e₁ (rt.address s),
            core.create_collection_v1_charges _ opened w'.lamports (rt.address s) e₂
                (λ e. p (sym e)),
            p,
          );
    }
