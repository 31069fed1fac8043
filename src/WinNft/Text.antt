-- ===== src/WinNft/Text.antt =====
-- The strings of the collectible, as bytes: `to_hex` of mint_win_nft.rs, and Rust's decimal numbers.
pub mod Decimal
use toggld_program.Base.{
  ℕ, zero, suc, ◌+◌, ◌-◌, ◌*◌, ◌/◌, ◌%◌, ◌<◌, ◌≡◌, refl, List, [], ◌∷◌, arith, if◌then◌else◌, ltb,
  length,
}
use toggld_program.Base.Int.{ℤ, pos, negsuc}

-- The 20 digits of a `u64` at most, the last one first to be known.
abbrev digits : ℕ → ℕ → List ℕ → List ℕ
digits zero n rest = rest
digits (suc k) n rest =
    let more = digits k (n / 10) ((48 + n % 10) ∷ rest) in
    if ltb n 10 then (48 + n) ∷ rest else more

abbrev pub u64_to_string : ℕ → List ℕ
u64_to_string n = digits 20 n []

abbrev pub i64_to_string : ℤ → List ℕ
i64_to_string (pos n) = digits 20 n []
i64_to_string (negsuc n) = 45 ∷ digits 20 (n + 1) []

-- One digit of `{b:02x}`.
abbrev pub hex_digit : ℕ → ℕ
hex_digit d = if ltb d 10 then 48 + d else 87 + d

unfoldable pub to_hex : List ℕ → List ℕ
to_hex [] = []
to_hex (b ∷ bs) = hex_digit (b / 16) ∷ hex_digit (b % 16) ∷ to_hex bs

-- A reader of hexadecimal digits.
abbrev digit_value : ℕ → ℕ
digit_value c = if ltb c 58 then c - 48 else c - 87

abbrev pub from_hex : List ℕ → List ℕ
from_hex [] = []
from_hex (c ∷ []) = []
from_hex (c ∷ d ∷ rest) = (16 * digit_value c + digit_value d) ∷ from_hex rest

abbrev pub AreBytes : List ℕ → Type 0
AreBytes [] = Unit
AreBytes (b ∷ bs) = (b < 256) × AreBytes bs

byte_of_hex :
    (b : ℕ) → b < 256 → 16 * digit_value (hex_digit (b / 16)) + digit_value (hex_digit (b % 16)) ≡ b
byte_of_hex b h = ground arith

-- The hexadecimal string of bytes has two digits for each of them, and reading it gives the bytes
-- back, so that different hashes have different strings.
pub from_hex-to_hex :
    (bs : List ℕ) → AreBytes bs → (length (to_hex bs) ≡ 2 * length bs) × (from_hex (to_hex bs) ≡ bs)
unfolding to_hex
from_hex-to_hex [] h = (refl, refl)
from_hex-to_hex (b ∷ bs) (hb, hs) =
    let (n, e) = from_hex-to_hex bs hs in (omega (arith, n), λ i. byte_of_hex b hb i ∷ e i)
