-- ===== src/WinNft/Attestation/Parser.antt =====
-- The parser against the layout that the instruction documents, and what a verified attestation is.
use toggld_program.Base.{
  ℕ, ◌+◌, ◌-◌, ◌*◌, ◌/◌, ◌%◌, ◌≤◌, ◌<◌, ◌≡◌, refl, true, false, some, none, List, [], ◌∷◌, ◌++◌,
  arith, ap, sym, ◌∙◌, ltb, if◌then◌else◌, length, slice, take, drop, ◌==◌, length-append,
  drop-length_append, take-length_append, u64_size,
}
use toggld_program.Constants.{metadata_signer}
use toggld_program.Outcome.{
  ok, code, >>=-eq-ok, ok_or, require, invalid_metadata_signature, require-eq-true, ok_or-eq-some,
}
use toggld_program.Programs.{Instruction}
use toggld_program.WinNft.Attestation.{
  Transaction, new_from_array, same_instruction, parse_offsets, follow_offsets,
  parse_ed25519_instruction_data, bytes_eq, verify_metadata_signature,
}

-- The two bytes of a `u16`.
abbrev u16_bytes : ℕ → List ℕ → List ℕ
u16_bytes n rest = (n % 256) ∷ (n / 256) ∷ rest

-- The documented layout: the header, one record of offsets, the signature, the key, the message.
abbrev pub layout : List ℕ → List ℕ → List ℕ → List ℕ
layout signature public_key message =
    1
    ∷ 0
    ∷ u16_bytes 16 (
        u16_bytes same_instruction (
          u16_bytes 80 (
            u16_bytes same_instruction (
              u16_bytes 112 (
                u16_bytes (length message)
                  (u16_bytes same_instruction (signature ++ (public_key ++ message))))))))

drop-append : (n : ℕ) (xs ys : List ℕ) → length xs ≡ n → drop n (xs ++ ys) ≡ ys
drop-append n xs ys e = ap (λ m. drop m (xs ++ ys)) (sym e) ∙ drop-length_append xs ys

take-append : (n : ℕ) (xs ys : List ℕ) → length xs ≡ n → take n (xs ++ ys) ≡ xs
take-append n xs ys e = ap (λ m. take m (xs ++ ys)) (sym e) ∙ take-length_append xs ys

take-all : (xs : List ℕ) → take (length xs) xs ≡ xs
take-all [] = refl
take-all (x ∷ xs) = ap (◌∷◌ x) (take-all xs)

append_twice : (xs ys zs : List ℕ) → xs ++ (ys ++ zs) ≡ (xs ++ ys) ++ zs
append_twice [] ys zs = refl
append_twice (x ∷ xs) ys zs = ap (◌∷◌ x) (append_twice xs ys zs)

-- Ranges that lie within the bytes are followed.
follow_offsets-eq :
    (bytes : List ℕ) (p q n : ℕ)
    → p + 32 ≤ length bytes
    → q + n ≤ length bytes
    → p + 32 < u64_size
    → q + n < u64_size
    → follow_offsets bytes p q n
      ≡ some (new_from_array (slice bytes p (p + 32)), slice bytes q (q + n))
unfolding follow_offsets
follow_offsets-eq bytes p q n hp hq fp fq = ground arith

not_short : (n : ℕ) → 16 ≤ n → ltb n 16 ≡ false
not_short n h = ground arith

module _ (signature public_key message : List ℕ) (hs : length signature ≡ 64)
    (hk : length public_key ≡ 32) where
  -- The key stands at 80 of the layout, and the message at 112.
  key_slice : slice (layout signature public_key message) 80 112 ≡ public_key
  key_slice =
      ap (take 32) (drop-append 64 signature (public_key ++ message) hs)
      ∙ take-append 32 public_key message hk

  message_slice : slice (layout signature public_key message) 112 (112 + length message) ≡ message
  message_slice =
      ap (λ n. take n (drop 96 (signature ++ (public_key ++ message)))) (omega arith)
      ∙ ap (λ t. take (length message) (drop 96 t)) (append_twice signature public_key message)
      ∙ ap (take (length message)) (
          drop-append 96 (signature ++ public_key) message
            (omega (arith, length-append signature public_key, hs, hk)))
      ∙ take-all message

  -- An instruction of the documented layout is parsed into its key and its message, for a message
  -- of fewer than 65536 bytes.
  pub parse-layout :
      length message < 65_536
      → parse_ed25519_instruction_data (layout signature public_key message)
        ≡ some (new_from_array public_key, message)
  unfolding parse_ed25519_instruction_data parse_offsets
  parse-layout h =
      let size_eq : length message % 256 + 256 * (length message / 256) ≡ length message =
        omega arith in
      let total : length (layout signature public_key message) ≡ 112 + length message = omega (
        arith,
        length-append signature (public_key ++ message),
        length-append public_key message,
        hs,
        hk,
      ) in
      let bytes = layout signature public_key message in
      ap (λ c. if c then none else parse_offsets bytes (slice bytes 2 16))
        (not_short (length bytes) (omega (arith, total)))
      ∙ ap (follow_offsets bytes 80 112) size_eq
      ∙ follow_offsets-eq bytes 80 112 (length message) (omega (arith, total))
          (omega (arith, total)) (omega arith) (omega arith)
      ∙ ap (λ k. some (new_from_array k, slice bytes 112 (112 + length message))) key_slice
      ∙ ap (λ t. some (new_from_array public_key, t)) message_slice

bytes_eq-eq : (xs ys : List ℕ) → bytes_eq xs ys ≡ true → xs ≡ ys
bytes_eq-eq [] [] h = refl
bytes_eq-eq [] (y ∷ ys) h = cc
bytes_eq-eq (x ∷ xs) [] h = cc
bytes_eq-eq (x ∷ xs) (y ∷ ys) h =
    let e : x ≡ y = ground (arith, h) in
    let es = bytes_eq-eq xs ys (ground (arith, h)) in λ i. e i ∷ es i

predecessor : (i : ℕ) → ltb 0 i ≡ true → i ≡ i - 1 + 1
predecessor i h = ground arith

-- A verified attestation is an instruction of the Ed25519 program immediately before the current
-- one, whose message is the hash and whose key is the metadata signer.
pub verify_metadata_signature_sound :
    (tx : Transaction) (content_hash : List ℕ)
    → verify_metadata_signature tx content_hash ≡ ok tt
    → (current : ℕ) × (preceding : Instruction) × (tx.current_index ≡ some (current + 1))
      × (tx.instruction_at current ≡ some preceding)
      × (preceding.program_id ≡ tx.ed25519_program)
      × (parse_ed25519_instruction_data preceding.bytes ≡ some (metadata_signer, content_hash))
unfolding verify_metadata_signature
verify_metadata_signature_sound tx content_hash h =
    let (i, e₀, f₀) = >>=-eq-ok (ok_or tx.current_index (code invalid_metadata_signature)) _ h in
    let (_, e₁, f₁) = >>=-eq-ok (require (ltb 0 i) invalid_metadata_signature) _ f₀ in
    let (preceding, e₂, f₂) =
      >>=-eq-ok (ok_or (tx.instruction_at (i - 1)) (code invalid_metadata_signature)) _ f₁ in
    let (_, e₃, f₃) =
      >>=-eq-ok (require (preceding.program_id == tx.ed25519_program) invalid_metadata_signature) _
        f₂ in
    let (parsed, e₄, f₄) =
      >>=-eq-ok
        (ok_or (parse_ed25519_instruction_data preceding.bytes) (code invalid_metadata_signature)) _
        f₃ in
    let (_, e₅, f₅) =
      >>=-eq-ok (require (parsed.0 == metadata_signer) invalid_metadata_signature) _ f₄ in
    let signer_eq : parsed.0 ≡ metadata_signer = ground (arith, require-eq-true _ _ e₅) in
    let same : parsed.1 ≡ content_hash =
      bytes_eq-eq parsed.1 content_hash (require-eq-true _ _ f₅) in
    (
      i - 1,
      preceding,
      ok_or-eq-some _ _ _ e₀ ∙ ap some (predecessor _ (require-eq-true _ _ e₁)),
      ok_or-eq-some _ _ _ e₂,
      ground (arith, require-eq-true _ _ e₃),
      ok_or-eq-some _ _ _ e₄ ∙ (λ t. some (signer_eq t, same t)),
    )
