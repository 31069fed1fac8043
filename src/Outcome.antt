-- ===== src/Outcome.antt =====
-- programs/toggld/src/error.rs: the error codes, and the results of the program's fallible code.
-- Besides its own codes an instruction fails on an account constraint of the framework, on an
-- error of a program that it calls, or by a panic (overflow checks are on in the release profile).
use toggld_program.Base.{ℕ, ◌≡◌, refl, ap, Bool, true, false, Option, none, some}

pub data ErrorCode : Type 0 where
  unauthorized no_active_window window_closed_pending_settlement window_not_closed : ErrorCode
  bid_too_low nothing_to_refund invalid_burn_address invalid_treasury_account : ErrorCode
  nothing_to_withdraw math_overflow invalid_genesis_price invalid_treasury : ErrorCode
  invalid_admin missing_pending_refund_account unexpected_pending_refund_account : ErrorCode
  token_already_configured token_not_configured nothing_to_sweep : ErrorCode
  sweep_below_rent_exempt slippage_tolerance_too_wide min_out_zero : ErrorCode
  vesting_not_started nothing_vested_to_claim invalid_vesting_amount : ErrorCode
  invalid_vesting_schedule invalid_venue venue_cannot_revert slippage_floor_not_met : ErrorCode
  malformed_pool_account cannot_challenge_self already_top_bidder : ErrorCode
  not_win_record_owner win_nft_already_minted invalid_nft_uri : ErrorCode
  invalid_metadata_signature invalid_collection_name nft_collection_not_configured : ErrorCode
  invalid_nft_collection invalid_rent_payer : ErrorCode

-- The account constraints that carry no code of the program's own.
pub data Constraint : Type 0 where
  seeds address already_in_use not_initialized : Constraint

pub data Error : Type 0 where
  code : ErrorCode → Error
  constraint : Constraint → Error
  external : ℕ → Error
  panic : Error

pub data Result {ℓ} (A : Type ℓ) : Type ℓ where
  ok : A → Result A
  err : Error → Result A

-- `.ok_or(error)?`
abbrev pub ok_or {ℓ} : {A : Type ℓ} → Option A → Error → Result A
ok_or none e = err e
ok_or (some a) e = ok a

-- `require!(test, ErrorCode::…)`
abbrev pub require : Bool → ErrorCode → Result (Unit {0})
require true e = ok tt
require false e = err (code e)

-- `?`: the first error ends the instruction.
infixl 5 ◌>>=◌
abbrev pub ◌>>=◌ {ℓ κ} : {B : Type ℓ} {A : Type κ} → Result A → (A → Result B) → Result B
err failure >>= rest = err failure
ok value >>= rest = rest value

-- An account constraint without a code of its own.
abbrev pub constrain : Bool → Constraint → Result (Unit {0})
constrain true c = ok tt
constrain false c = err (constraint c)

-- `?` on a check.
infixl 5 ◌>>◌
abbrev pub ◌>>◌ {ℓ} : {A : Type ℓ} → Result (Unit {0}) → Result A → Result A
check >> rest = check >>= λ _. rest

-- An arithmetic operation that panics where the checked one has no result.
abbrev pub or_panic {ℓ} : {A : Type ℓ} → Option A → Result A
or_panic o = ok_or o panic

-- A chain that succeeds has a first step that succeeds.
pub >>=-eq-ok {ℓ κ} :
    {B : Type ℓ} {A : Type κ} (step : Result A) (rest : A → Result B) {final : B}
    → (step >>= rest) ≡ ok final
    → (value : A) × (step ≡ ok value) × (rest value ≡ ok final)
>>=-eq-ok (err failure) rest done = cc
>>=-eq-ok (ok value) rest done = (value, refl, done)

pub ok-injective {ℓ} : {A : Type ℓ} (a b : A) → ok a ≡ ok b → b ≡ a
ok-injective a b h = cc

-- An account that is there is loaded.
pub ok_or-bind {ℓ κ} :
    {A : Type ℓ} {B : Type κ} (o : Option A) (e : Error) (f : A → Result B) (a : A)
    → o ≡ some a
    → (ok_or o e >>= f) ≡ f a
ok_or-bind o e f a p = ap (λ t. ok_or t e >>= f) p

-- A check that passes, and a value that is there.
pub require-eq-true : (test : Bool) (e : ErrorCode) → require test e ≡ ok tt → test ≡ true
require-eq-true true e h = refl
require-eq-true false e h = cc

pub ok_or-eq-some {ℓ} :
    {A : Type ℓ} (o : Option A) (e : Error) (a : A) → ok_or o e ≡ ok a → o ≡ some a
ok_or-eq-some none e a h = cc
ok_or-eq-some (some b) e a h = cc
