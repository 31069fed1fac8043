-- ===== src/World.antt =====
-- The accounts that an instruction reads and writes: the program's own by their contents, and the
-- balances of all. An instruction that fails changes nothing, since the chain reverts it, so each
-- is a function from a world to a result.
use toggld_program.Base.{
  ◌≡◌, ◌∙◌, ap, sym, Option, List, [], ◌∷◌, ◌++◌, arith, ◌==◌, if◌then◌else◌, ℕ, Bool, true,
}
use mathlib.Core.Path.{fun_ext}
use toggld_program.Constants.{Pubkey}
use toggld_program.State.{
  GlobalState, PendingRefund, WinRecord, NftCollectionConfig, TokenConfig, TeamVesting,
}
use toggld_program.Events.{Event}
use toggld_program.Runtime.{Balances}

-- Accounts of one kind, by address.
abbrev pub Accounts {ℓ} : Type ℓ → Type ℓ
Accounts A = Pubkey → Option A

abbrev pub put {ℓ} : {A : Type ℓ} → Accounts A → Pubkey → Option A → Accounts A
put f k v j = if j == k then v else f j

-- `tokens` and `supply` are the token program's: the amount of a token account and the supply of a
-- mint; `token_accounts` tells which of them exist, and `pool_data` is the content of the swap venue's
-- accounts. `events` is the log, the latest last.
pub record World : Type 0 where
  pub lamports : Balances
  pub tokens : Balances
  pub supply : Balances
  pub token_accounts : Pubkey → Bool
  pub pool_data : Pubkey → List ℕ
  pub global_state : Option GlobalState
  pub refunds : Accounts PendingRefund
  pub win_records : Accounts WinRecord
  pub token_config : Option TokenConfig
  pub team_vesting : Option TeamVesting
  pub nft_collection_config : Option NftCollectionConfig
  pub events : List Event

-- A token account is opened.
abbrev pub open_at : (Pubkey → Bool) → Pubkey → Pubkey → Bool
open_at f k j = if j == k then true else f j

-- `emit!`
abbrev pub emit : Event → World → World
emit e w = record w { events = w.events ++ e ∷ [] }

pub put-put {ℓ} :
    {A : Type ℓ} (f : Accounts A) (k : Pubkey) (v v' : Option A) → put (put f k v) k v' ≡ put f k v'
put-put f k v v' = fun_ext λ j. ground arith

pub put_same {ℓ} :
    {A : Type ℓ} (f : Accounts A) (k : Pubkey) (v : Option A) → f k ≡ v → put f k v ≡ f
put_same f k v e = fun_ext λ j. ground arith

pub put_self {ℓ} : {A : Type ℓ} (f : Accounts A) (k : Pubkey) (v : Option A) → put f k v k ≡ v
put_self f k v = ground arith

-- A world that is known up to its balances, by its own balances.
pub own_balances :
    (make : Balances → World) (l : Balances) (w : World)
    → ((b : Balances) → (make b).lamports ≡ b)
    → w ≡ make l
    → w ≡ make w.lamports
own_balances make l w keeps e = e ∙ ap make (sym (ap (λ t. t.lamports) e ∙ keeps l))
