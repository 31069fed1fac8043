-- ===== src/TeamVesting/Effect.antt =====
-- The effects of a lock and of a claim (init_team_vesting.rs, claim_vested.rs).
use toggld_program.Base.{ℕ, ◌-◌, ◌*◌, ◌/◌, ◌≤◌, ◌<◌, ◌≡◌, none, some, arith, ap, u64_size, true}
use toggld_program.Base.Int.{ℤ, pos, pos_part, ◌-ℤ◌, ◌≤ℤ◌, ◌<ℤ◌, InI64, i64_max, -ℤ_parts}
use toggld_program.Constants.{min_duration_secs, max_duration_secs}
use toggld_program.State.{GlobalState}
use toggld_program.State
use toggld_program.Outcome.{ok, >>=-eq-ok, ok-injective}
use toggld_program.Pure.Vesting.{
  linear_release, linear_release-le, compute_vested_unlocked-eq-linear_release,
}
use toggld_program.Runtime.{Runtime, Balances, Moves, team_vesting}
use toggld_program.Programs.{Programs}
use toggld_program.World.{World, emit}
use toggld_program.Events.{vested_claimed}
use toggld_program.TeamVesting.{
  VestingAccounts, ScheduleArgs, check_schedule, fund_schedule, run_init_team_vesting,
  run_claim_vested, vesting_ata, admin_ata, new_schedule, check_vesting_accounts,
}

-- What a schedule has released by a time.
abbrev pub released : State.TeamVesting → ℤ → ℕ
released v now = linear_release v.total_amount v.start_ts v.duration_secs now

-- The widths of a schedule's fields, and that no more has been claimed than released by a time.
pub record ScheduleInv (now : ℤ) (v : State.TeamVesting) : Type 0 where
  pub total_fits : v.total_amount < u64_size
  pub start_fits : InI64 v.start_ts
  pub duration_fits : InI64 v.duration_secs
  pub claimed_released : v.claimed_amount ≤ released v now

-- A schedule that passes the checks releases at most the 720th part of its total at once: it starts
-- an hour ago at the earliest and lasts 30 days at least.
check_schedule_bounds :
    (now : ℤ) (ctx : VestingAccounts) (args : ScheduleArgs) (gs : GlobalState) (w : World)
    → InI64 now
    → InI64 args.start_ts
    → check_schedule now ctx args gs w ≡ ok tt
    → (ctx.admin ≡ gs.admin)
      × (w.team_vesting ≡ none)
      × (0 < args.total_amount)
      × (min_duration_secs ≤ℤ args.duration_secs)
      × (args.duration_secs ≤ℤ max_duration_secs)
      × (pos_part (now -ℤ args.start_ts) ≤ 3_600)
unfolding check_schedule
check_schedule_bounds now ctx args gs w hn hs h =
    ground (arith, -ℤ_parts now args.start_ts, -ℤ_parts now (pos 3_600))

share_of_hour :
    (total elapsed duration : ℕ)
    → elapsed ≤ 3_600
    → 2_592_000 ≤ duration
    → total * elapsed / duration ≤ total / 720
share_of_hour total elapsed duration h k = grind arith

module _ (rt : Runtime) (pr : Programs) (now : ℤ) (ctx : VestingAccounts) (gs : GlobalState)
    (v : State.TeamVesting) (w : World) where
  -- The world after a claim, with the token amounts that the transfer leaves.
  abbrev pub claimed_world : Balances → World
  claimed_world tokens =
      emit
        (vested_claimed (record {
          amount = released v now - v.claimed_amount;
          claimed_total = released v now;
          unlocked = released v now;
        }))
        (record w {
          tokens = tokens;
          team_vesting = some (record v { claimed_amount = released v now });
        })

  -- For a schedule whose fields are of machine width, and before the last second of `i64`, a
  -- successful claim comes from the admin and pays exactly what has been released since the last
  -- one, after which the claims add up to the release.
  pub claim_vested_effect :
      (w' : World) (past : ℤ)
      → ScheduleInv past v
      → InI64 now
      → now <ℤ i64_max
      → run_claim_vested rt pr now ctx gs v w ≡ ok w'
      → (ctx.admin ≡ gs.admin)
        × (v.claimed_amount < released v now)
        × Moves w.tokens
            (vesting_ata rt pr ctx)
            (admin_ata rt pr ctx)
            (released v now - v.claimed_amount)
            w'.tokens
        × (w' ≡ claimed_world w'.tokens)
  unfolding run_claim_vested
  claim_vested_effect w' past inv hn hm done = ground (
    arith,
    compute_vested_unlocked-eq-linear_release v.total_amount v.start_ts v.duration_secs now
        inv.total_fits inv.start_fits inv.duration_fits hn hm,
    linear_release-le v.total_amount v.start_ts v.duration_secs now,
    pr.token_transfer_moves (vesting_ata rt pr ctx) (admin_ata rt pr ctx)
        (released v now - v.claimed_amount) w.tokens w'.tokens,
  )

  -- For a schedule with the bump of its derived address, whose fields are of machine width and of
  -- which no more was claimed than released by some time, before the last second of `i64`, and with
  -- the token accounts of the schedule and of the admin open: if the token program pays out of the
  -- schedule's account, the admin's claim on the schedule's mint goes through as soon as more has
  -- been released than claimed, and leaves the claims at exactly what has been released.
  pub claim_vested_succeeds :
      (past : ℤ) (tokens : Balances)
      → ScheduleInv past v
      → v.bump ≡ rt.bump team_vesting
      → w.token_accounts (vesting_ata rt pr ctx) ≡ true
      → w.token_accounts (admin_ata rt pr ctx) ≡ true
      → InI64 now
      → now <ℤ i64_max
      → ctx.admin ≡ gs.admin
      → ctx.mint ≡ v.mint
      → v.claimed_amount < released v now
      → pr.token_transfer
          (vesting_ata rt pr ctx)
          (admin_ata rt pr ctx)
          (released v now - v.claimed_amount)
          w.tokens
        ≡ ok tokens
      → run_claim_vested rt pr now ctx gs v w ≡ ok (claimed_world tokens)
  unfolding run_claim_vested
  claim_vested_succeeds past tokens inv bumped there home hn hm a m more paid = ground (
    arith,
    compute_vested_unlocked-eq-linear_release v.total_amount v.start_ts v.duration_secs now
        inv.total_fits inv.start_fits inv.duration_fits hn hm,
    linear_release-le v.total_amount v.start_ts v.duration_secs now,
  )

-- At `i64` times, a schedule is locked only by the admin and only where there is none, for a
-- positive total over 30 days to 10 years; at most the 720th part of the total is released at once.
pub init_team_vesting_effect :
    (rt : Runtime) (pr : Programs) (now : ℤ) (ctx : VestingAccounts) (args : ScheduleArgs)
    (gs : GlobalState) (w w' : World)
    → InI64 now
    → InI64 args.start_ts
    → run_init_team_vesting rt pr now ctx args gs w ≡ ok w'
    → let v = new_schedule rt pr ctx args in
      (ctx.admin ≡ gs.admin)
      × (w.team_vesting ≡ none)
      × (w'.team_vesting ≡ some v)
      × (0 < args.total_amount)
      × (min_duration_secs ≤ℤ args.duration_secs)
      × (args.duration_secs ≤ℤ max_duration_secs)
      × (released v now ≤ args.total_amount / 720)
      × Moves w.tokens (admin_ata rt pr ctx) (vesting_ata rt pr ctx) args.total_amount w'.tokens
unfolding run_init_team_vesting
init_team_vesting_effect rt pr now ctx args gs w w' hn hs done =
    let (_, _, f) = >>=-eq-ok (check_vesting_accounts rt pr ctx w) _ done in
    let (_, e₀, f₀) = >>=-eq-ok (check_schedule now ctx args gs w) _ f in
    let (l, e₁, f₁) = >>=-eq-ok (fund_schedule rt pr ctx w.lamports) _ f₀ in
    let (t, e₂, f₂) =
      >>=-eq-ok
        (pr.token_transfer (admin_ata rt pr ctx) (vesting_ata rt pr ctx) args.total_amount w.tokens)
        _ f₁ in
    let last = ok-injective _ w' f₂ in
    let (by_admin, first, some_total, long, short, early) =
      check_schedule_bounds now ctx args gs w hn hs e₀ in
    let share =
      share_of_hour args.total_amount (pos_part (now -ℤ args.start_ts))
        (pos_part args.duration_secs) in
    (
      by_admin,
      first,
      ap (λ u. u.team_vesting) last,
      some_total,
      long,
      short,
      ground (arith, share, -ℤ_parts now args.start_ts),
      λ k. ground (
        arith,
        pr.token_transfer_moves (admin_ata rt pr ctx) (vesting_ata rt pr ctx) args.total_amount
            w.tokens t e₂ k,
        ap (λ u. u.tokens k) last,
      ),
    )
