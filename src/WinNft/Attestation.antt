-- ===== src/WinNft/Attestation.antt =====
-- The attestation of a metadata hash (mint_win_nft.rs): the instruction before the mint is the
-- Ed25519 program's, over the hash and by the metadata signer.
pub mod Parser
use toggld_program.Base.{
  ℕ, zero, suc, ◌+◌, ◌-◌, ◌*◌, ◌≡◌, Bool, true, false, not, Option, none, some, List, [], ◌∷◌, ◌==◌,
  ◌&&◌, ◌||◌, if◌then◌else◌, ltb, length, get_or, slice, checked_add, u64_size,
}
use toggld_program.Constants.{Pubkey, metadata_signer}
use toggld_program.Outcome.{
  Result, ok, code, ◌>>=◌, ◌>>◌, require, ok_or, invalid_metadata_signature,
}
use toggld_program.Programs.{Instruction}

-- What the Instructions sysvar tells of the transaction, and the Ed25519 program's address. A
-- reading that fails has no result.
pub record Transaction : Type 0 where
  pub current_index : Option ℕ
  pub instruction_at : ℕ → Option Instruction
  pub ed25519_program : Pubkey

-- `Pubkey::new_from_array`: the number that the bytes are read as, the first byte foremost.
abbrev pub key_from : ℕ → List ℕ → Pubkey
key_from high [] = high
key_from high (b ∷ bs) = key_from (256 * high + b) bs

abbrev pub new_from_array : List ℕ → Pubkey
new_from_array = key_from 0

abbrev pub same_instruction : ℕ
same_instruction = 65_535

-- `u16::from_le_bytes` at an index.
abbrev pub read_u16 : List ℕ → ℕ → ℕ
read_u16 offsets o = get_or offsets o 0 + 256 * get_or offsets (o + 1) 0

-- The two ranges, which must lie within the bytes.
unfoldable pub follow_offsets : List ℕ → ℕ → ℕ → ℕ → Option (Pubkey × List ℕ)
follow_offsets bytes public_key_offset message_data_offset message_data_size =
    elim (checked_add u64_size public_key_offset 32) [
      | none ↦ none
      | some public_key_end ↦ elim (checked_add u64_size message_data_offset message_data_size) [
        | none ↦ none
        | some message_end ↦
            if ltb (length bytes) public_key_end || ltb (length bytes) message_end
            then none
            else some (
              new_from_array (slice bytes public_key_offset public_key_end),
              slice bytes message_data_offset message_end,
            )
      ]
    ]

-- Everything after the header: the three instruction indices come before the ranges.
unfoldable pub parse_offsets : List ℕ → List ℕ → Option (Pubkey × List ℕ)
parse_offsets bytes offsets =
    if not (read_u16 offsets 2 == same_instruction)
      || not (read_u16 offsets 6 == same_instruction)
      || not (read_u16 offsets 12 == same_instruction)
    then none
    else follow_offsets bytes (read_u16 offsets 4) (read_u16 offsets 8) (read_u16 offsets 10)

unfoldable pub parse_ed25519_instruction_data : List ℕ → Option (Pubkey × List ℕ)
parse_ed25519_instruction_data bytes =
    if ltb (length bytes) 16
    then none
    else if not (get_or bytes 0 0 == 1)
    then none
    else parse_offsets bytes (slice bytes 2 16)

-- `==` of two slices.
abbrev pub bytes_eq : List ℕ → List ℕ → Bool
bytes_eq [] [] = true
bytes_eq [] (y ∷ ys) = false
bytes_eq (x ∷ xs) [] = false
bytes_eq (x ∷ xs) (y ∷ ys) = x == y && bytes_eq xs ys

unfoldable pub verify_metadata_signature : Transaction → List ℕ → Result (Unit {0})
verify_metadata_signature tx content_hash = do
  current_index ← ok_or tx.current_index (code invalid_metadata_signature)
  require (ltb 0 current_index) invalid_metadata_signature
  preceding ← ok_or (tx.instruction_at (current_index - 1)) (code invalid_metadata_signature)
  require (preceding.program_id == tx.ed25519_program) invalid_metadata_signature
  (signer_pubkey, message) ←
      ok_or (parse_ed25519_instruction_data preceding.bytes) (code invalid_metadata_signature)
  require (signer_pubkey == metadata_signer) invalid_metadata_signature
  require (bytes_eq message content_hash) invalid_metadata_signature
