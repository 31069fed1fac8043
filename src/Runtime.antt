-- ===== src/Runtime.antt =====
-- What the program takes from the chain: addresses derived from seeds, the sysvars, and the
-- programs that it calls (the System Program, the account framework, the token program, the swap
-- venue). None of that code is in the repository, so it is a record of operations with the
-- documented behaviour that the program relies on.
pub mod Sample
use toggld_program.Base.{ℕ, ◌+◌, ◌-◌, ◌*◌, ◌≡◌, ◌≢◌, ap, Bool, true, false, ◌==◌, if◌then◌else◌}
use toggld_program.Outcome.{Result, ok}
use toggld_program.Constants.{Pubkey, incinerator}

-- The seeds of the program's derived addresses (constants.rs).
pub data Seeds : Type 0 where
  global_state vault token_config burn_vault team_vesting : Seeds
  nft_collection_config collection_authority : Seeds
  refund : Pubkey → Seeds
  win_record : ℕ → Seeds

-- The balance of every account, in lamports or in token units.
abbrev pub Balances : Type 0
Balances = Pubkey → ℕ

-- `after` is `before` with `amount` moved from one account to the other and nothing else changed.
abbrev pub Moves : Balances → Pubkey → Pubkey → ℕ → Balances → Type 0
Moves before from to amount after =
    (k : Pubkey)
    → after k + (if k == from then amount else 0) ≡ before k + (if k == to then amount else 0)

pub record Runtime : Type 0 where
  -- `find_program_address` of seeds under this program: distinct seeds have distinct addresses,
  -- and no wallet key is such an address.
  pub address : Seeds → Pubkey
  pub bump : Seeds → ℕ
  pub is_derived : Pubkey → Bool
  pub address_injective : (s t : Seeds) → address s ≡ address t → s ≡ t
  pub address_is_derived : (s : Seeds) → is_derived (address s) ≡ true
  pub incinerator_not_derived : is_derived incinerator ≡ false
  -- `Rent::minimum_balance` of an account's size.
  pub minimum_balance : ℕ → ℕ
  -- The System Program moves what it is asked to, and creates an account only where none is.
  pub transfer : Pubkey → Pubkey → ℕ → Balances → Result Balances
  pub transfer_moves :
      (from to : Pubkey) (n : ℕ) (l l' : Balances)
      → transfer from to n l ≡ ok l'
      → Moves l from to n l'
  pub create_account : Pubkey → Pubkey → ℕ → Balances → Result Balances
  pub create_account_moves :
      (from to : Pubkey) (n : ℕ) (l l' : Balances)
      → create_account from to n l ≡ ok l'
      → Moves l from to n l'
  pub create_account_vacant :
      (from to : Pubkey) (n : ℕ) (l l' : Balances) → create_account from to n l ≡ ok l' → l to ≡ 0
  -- `init` and `init_if_needed` of an account of some size: the payer tops it up to the rent.
  pub init : Pubkey → Pubkey → ℕ → Balances → Result Balances
  pub init_moves :
      (payer account : Pubkey) (space : ℕ) (l l' : Balances)
      → init payer account space l ≡ ok l'
      → Moves l payer account (minimum_balance space - l account) l'
  -- `close = destination`: all that the account holds goes to the destination.
  pub close : Pubkey → Pubkey → Balances → Result Balances
  pub close_moves :
      (account destination : Pubkey) (l l' : Balances)
      → close account destination l ≡ ok l'
      → Moves l account destination (l account) l'

-- Addresses of different seeds differ.
pub address-ne : (rt : Runtime) (s t : Seeds) → s ≢ t → rt.address s ≢ rt.address t
address-ne rt s t ne e = ne (rt.address_injective s t e)

-- A wallet key is no derived address.
pub derived-ne :
    (rt : Runtime) (k : Pubkey) (s : Seeds) → rt.is_derived k ≡ false → k ≢ rt.address s
derived-ne rt k s wallet e = cc (wallet, ap rt.is_derived e, rt.address_is_derived s)

-- The bidder of a refund account's seeds, and the ordinal of a win's.
pub refund-injective : {a b : Pubkey} → Seeds.refund a ≡ refund b → a ≡ b
refund-injective e = cc

pub win_record-injective : {m n : ℕ} → Seeds.win_record m ≡ win_record n → m ≡ n
win_record-injective e = cc
