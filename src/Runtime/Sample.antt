-- ===== src/Runtime/Sample.antt =====
-- A chain that behaves as documented, by concrete functions: derived addresses are numbered above
-- every 32-byte key, and balances move if the payer covers them.
use toggld_program.Base.{ℕ, ◌+◌, ◌-◌, ◌*◌, ◌≡◌, refl, true, arith, ◌==◌, if◌then◌else◌, leb}
use toggld_program.Constants.{Pubkey}
use toggld_program.Outcome.{Result, ok, err, external}
use toggld_program.Runtime.{
  Seeds, Balances, Moves, Runtime, global_state, vault, token_config, burn_vault, team_vesting,
  nft_collection_config, collection_authority, refund, win_record,
}

abbrev number : Seeds → ℕ
number global_state = 1
number vault = 3
number token_config = 5
number burn_vault = 7
number team_vesting = 9
number nft_collection_config = 11
number collection_authority = 13
number (refund k) = 16 + 2 * k
number (win_record n) = 17 + 2 * n

abbrev pub base : ℕ
base = 0x10000000000000000000000000000000000000000000000000000000000000000

pub number-injective : (s t : Seeds) → number s ≡ number t → s ≡ t
number-injective s t e = ground arith

pub number-is_derived : (s : Seeds) → leb base (base + number s) ≡ true
number-is_derived s = ground arith

-- An amount moves if the payer covers it.
abbrev pub move : Pubkey → Pubkey → ℕ → Balances → Balances
move from to n l k = l k + (if k == to then n else 0) - (if k == from then n else 0)

abbrev pub pay : Pubkey → Pubkey → ℕ → Balances → Result Balances
pay from to n l = if leb n (l from) then ok (move from to n l) else err (external 1)

abbrev create : Pubkey → Pubkey → ℕ → Balances → Result Balances
create from to n l = if l to == 0 then pay from to n l else err (external 0)

pub pay-Moves :
    (from to : Pubkey) (n : ℕ) (l l' : Balances) → pay from to n l ≡ ok l' → Moves l from to n l'
pay-Moves from to n l l' h k = ground arith

pub create-Moves :
    (from to : Pubkey) (n : ℕ) (l l' : Balances) → create from to n l ≡ ok l' → Moves l from to n l'
create-Moves from to n l l' h k = ground arith

pub create_vacant :
    (from to : Pubkey) (n : ℕ) (l l' : Balances) → create from to n l ≡ ok l' → l to ≡ 0
create_vacant from to n l l' h = ground arith

-- The rent is a constant and a part that grows with the size.
abbrev pub rent : ℕ → ℕ
rent n = 890_880 + 6_960 * n

abbrev pub sample : Runtime
sample = record {
  address = λ s. base + number s;
  bump = λ _. 255;
  is_derived = λ k. leb base k;
  address_injective = λ s t e. number-injective s t (omega (arith, e));
  address_is_derived = number-is_derived;
  incinerator_not_derived = refl;
  minimum_balance = rent;
  transfer = pay;
  transfer_moves = pay-Moves;
  create_account = create;
  create_account_moves = create-Moves;
  create_account_vacant = create_vacant;
  init = λ payer account space l. pay payer account (rent space - l account) l;
  init_moves =
      λ payer account space l l' h. pay-Moves payer account (rent space - l account) l l' h;
  close = λ account destination l. pay account destination (l account) l;
  close_moves = λ account destination l l' h. pay-Moves account destination (l account) l l' h;
}
