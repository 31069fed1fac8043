-- ===== src/Programs.antt =====
-- What the token instructions take from the token program, its associated accounts and the swap
-- venue: operations with the documented behaviour that the program relies on.
pub mod Sample
use toggld_program.Base.{ℕ, ◌+◌, ◌≤◌, ◌≡◌, ◌≢◌, List, Bool, ◌==◌, if◌then◌else◌}
use toggld_program.Outcome.{Result, ok}
use toggld_program.Constants.{Pubkey}
use toggld_program.Runtime.{Balances, Moves}

-- The balances that a call of another program may change.
pub record Bank : Type 0 where
  pub lamports : Balances
  pub tokens : Balances
  pub supply : Balances
  pub token_accounts : Pubkey → Bool
  pub pool_data : Pubkey → List ℕ

-- An account as an instruction names it.
pub record AccountMeta : Type 0 where
  pub pubkey : Pubkey
  pub is_signer : Bool
  pub is_writable : Bool

pub record Instruction : Type 0 where
  pub program_id : Pubkey
  pub accounts : List AccountMeta
  pub bytes : List ℕ

-- `after` is `before` with `amount` gone from one account and nothing else changed.
abbrev pub Burns : Balances → Pubkey → ℕ → Balances → Type 0
Burns before from amount after =
    (k : Pubkey) → after k + (if k == from then amount else 0) ≡ before k

pub record Programs : Type 0 where
  -- The associated token account of an owner and a mint, and its bump.
  pub ata : Pubkey → Pubkey → Pubkey
  pub ata_bump : Pubkey → Pubkey → ℕ
  pub ata_injective : (o m o' m' : Pubkey) → ata o m ≡ ata o' m' → m ≡ m'
  -- The size of a token account, which fixes its rent.
  pub token_account_space : ℕ
  -- `token::transfer` between two token accounts.
  pub token_transfer : Pubkey → Pubkey → ℕ → Balances → Result Balances
  pub token_transfer_moves :
      (from to : Pubkey) (n : ℕ) (t t' : Balances)
      → token_transfer from to n t ≡ ok t'
      → Moves t from to n t'
  -- `token::burn` of an amount of a mint from a token account.
  pub token_burn : Pubkey → Pubkey → ℕ → Bank → Result Bank
  pub token_burn_burns :
      (mint from : Pubkey) (n : ℕ) (b b' : Bank)
      → token_burn mint from n b ≡ ok b'
      → Burns b.tokens from n b'.tokens
        × Burns b.supply mint n b'.supply
        × (b'.lamports ≡ b.lamports)
  -- `token::sync_native`, after which a wrapped account's amount is what its lamports cover.
  pub sync_native : Pubkey → Bank → Result Bank
  pub sync_native_elsewhere :
      (account k : Pubkey) (b b' : Bank)
      → sync_native account b ≡ ok b'
      → k ≢ account
      → b'.tokens k ≡ b.tokens k
  pub sync_native_supply :
      (account : Pubkey) (b b' : Bank) → sync_native account b ≡ ok b' → b'.supply ≡ b.supply
  pub sync_native_lamports :
      (account : Pubkey) (b b' : Bank) → sync_native account b ≡ ok b' → b'.lamports ≡ b.lamports
  -- `token::close_account`, which sends the account's lamports to a destination.
  pub close_account : Pubkey → Pubkey → Bank → Result Bank
  pub close_account_moves :
      (account destination : Pubkey) (b b' : Bank)
      → close_account account destination b ≡ ok b'
      → Moves b.lamports account destination (b.lamports account) b'.lamports
        × (b'.supply ≡ b.supply)
  pub close_account_elsewhere :
      (account destination k : Pubkey) (b b' : Bank)
      → close_account account destination b ≡ ok b'
      → k ≢ account
      → b'.tokens k ≡ b.tokens k
  -- Borsh's encoding of two `u64` and a `u8`.
  pub serialize : ℕ → ℕ → ℕ → List ℕ
  -- `invoke_signed` of an instruction, with the accounts that are handed over.
  pub invoke_signed : Instruction → List Pubkey → Bank → Result Bank
