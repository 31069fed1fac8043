-- ===== src/WinNft/Text/Decimal.antt =====
-- The decimal digits of the attributes of a collectible (mint_win_nft.rs): 20 are enough.
use toggld_program.Base.{
  ℕ, zero, suc, ◌+◌, ◌-◌, ◌*◌, ◌/◌, ◌%◌, ◌<◌, ◌≡◌, List, [], ◌∷◌, arith, ap, u64_size, Bool-cases,
  inl, inr, ltb,
}
use toggld_program.WinNft.Text.{digits, u64_to_string}

-- The number that decimal digits spell, after a number read before them.
abbrev read_decimal : ℕ → List ℕ → ℕ
read_decimal n [] = n
read_decimal n (d ∷ ds) = read_decimal (n * 10 + (d - 48)) ds

abbrev limit : ℕ → ℕ
limit zero = 1
limit (suc k) = 10 * limit k

read_decimal-digits :
    (k n : ℕ) (rest : List ℕ) → n < limit k → read_decimal 0 (digits k n rest) ≡ read_decimal n rest
read_decimal-digits zero n rest h = ap (λ m. read_decimal m rest) (omega arith)
read_decimal-digits (suc k) n rest h =
    let shorter = read_decimal-digits k (n / 10) ((48 + n % 10) ∷ rest) (omega arith) in
    let last : (n / 10) * 10 + ((48 + n % 10) - 48) ≡ n = omega arith in
    elim (Bool-cases (ltb n 10)) [
      | inl small ↦ ground arith
      | inr large ↦ ground (arith, shorter, ap (λ m. read_decimal m rest) last)
    ]

-- The decimal form of a `u64` spells it.
pub read_decimal-u64_to_string : (n : ℕ) → n < u64_size → read_decimal 0 (u64_to_string n) ≡ n
read_decimal-u64_to_string n h = read_decimal-digits 20 n [] (omega arith)
