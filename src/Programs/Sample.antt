-- ===== src/Programs/Sample.antt =====
-- Token programs and a swap venue that behave as documented, by concrete functions: the venue pays
-- out exactly the least output that the caller asks for.
use toggld_program.Base.{
  ℕ, ◌+◌, ◌-◌, ◌*◌, ◌/◌, ◌%◌, ◌≡◌, ◌≢◌, zero, suc, arith, ◌==◌, if◌then◌else◌, leb, List, [], ◌∷◌,
  ◌++◌, length, slice, get_or, false,
}
use toggld_program.Constants.{Pubkey}
use toggld_program.Outcome.{Result, ok, err, external}
use toggld_program.Runtime.{Moves}
use toggld_program.Runtime.Sample.{base, rent, move, pay, pay-Moves}
use toggld_program.Programs.{Programs, Bank, Burns, Instruction}
use toggld_program.BurnTokens.Price.{from_le_bytes}

-- An associated account is numbered by its mint and by whether its owner is a program's address.
abbrev ata : Pubkey → Pubkey → Pubkey
ata owner mint = 4 * base + 2 * mint + (if leb base owner then 1 else 0)

abbrev sync : Pubkey → Bank → Result Bank
sync account b =
    ok (record b { tokens = λ k. if k == account then b.lamports k - rent 165 else b.tokens k })

abbrev burn : Pubkey → Pubkey → ℕ → Bank → Result Bank
burn mint from n b =
    if leb n (b.tokens from)
    then (if leb n (b.supply mint)
        then ok (record b {
          tokens = λ k. b.tokens k - (if k == from then n else 0);
          supply = λ k. b.supply k - (if k == mint then n else 0);
        })
        else err (external 2))
    else err (external 1)

pub burn-Burns :
    (mint from : Pubkey) (n : ℕ) (b b' : Bank)
    → burn mint from n b ≡ ok b'
    → Burns b.tokens from n b'.tokens × Burns b.supply mint n b'.supply × (b'.lamports ≡ b.lamports)
burn-Burns mint from n b b' h = (λ k. ground arith, λ k. ground arith, ground arith)

abbrev close : Pubkey → Pubkey → Bank → Result Bank
close account destination b = ok (record b {
  token_accounts = λ k. if k == account then false else b.token_accounts k;
  lamports = move account destination (b.lamports account) b.lamports;
  tokens = λ k. if k == account then 0 else b.tokens k;
})

pub close-Moves :
    (account destination : Pubkey) (b b' : Bank)
    → close account destination b ≡ ok b'
    → Moves b.lamports account destination (b.lamports account) b'.lamports × (b'.supply ≡ b.supply)
close-Moves account destination b b' h = (λ k. ground arith, ground arith)

pub close_elsewhere :
    (account destination k : Pubkey) (b b' : Bank)
    → close account destination b ≡ ok b'
    → k ≢ account
    → b'.tokens k ≡ b.tokens k
close_elsewhere account destination k b b' h ne = ground arith

pub sync_elsewhere :
    (account k : Pubkey) (b b' : Bank)
    → sync account b ≡ ok b'
    → k ≢ account
    → b'.tokens k ≡ b.tokens k
sync_elsewhere account k b b' h ne = ground arith

pub sync_lamports :
    (account : Pubkey) (b b' : Bank) → sync account b ≡ ok b' → b'.lamports ≡ b.lamports
sync_lamports account b b' h = ground arith

pub sync_supply : (account : Pubkey) (b b' : Bank) → sync account b ≡ ok b' → b'.supply ≡ b.supply
sync_supply account b b' h = ground arith

abbrev pub le_bytes : ℕ → ℕ → List ℕ
le_bytes zero n = []
le_bytes (suc w) n = n % 256 ∷ le_bytes w (n / 256)

abbrev encode : ℕ → ℕ → ℕ → List ℕ
encode a b c = le_bytes 8 a ++ le_bytes 8 b ++ c ∷ []

-- The output account stands at index 4 of the layout with a configuration, and else at index 3.
abbrev trade : Instruction → List Pubkey → Bank → Result Bank
trade ix infos b = ok (record b {
  tokens = λ k.
      b.tokens k
      + (if k == get_or infos (if length infos == 15 then 4 else 3) 0
          then from_le_bytes (slice ix.bytes 16 24)
          else 0);
})

pub ata_distinct : (o m o' m' : Pubkey) → ata o m ≡ ata o' m' → m ≡ m'
ata_distinct o m o' m' e = ground arith

abbrev pub sample_programs : Programs
sample_programs = record {
  ata = ata;
  ata_bump = λ _ _. 254;
  ata_injective = ata_distinct;
  token_account_space = 165;
  token_transfer = pay;
  token_transfer_moves = pay-Moves;
  token_burn = burn;
  token_burn_burns = burn-Burns;
  sync_native = sync;
  sync_native_elsewhere = sync_elsewhere;
  sync_native_supply = sync_supply;
  sync_native_lamports = sync_lamports;
  close_account = close;
  close_account_moves = close-Moves;
  close_account_elsewhere = close_elsewhere;
  serialize = encode;
  invoke_signed = trade;
}
