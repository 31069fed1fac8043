-- ===== src/Examples/Collectible.antt =====
-- The theorems on the collectibles, at concrete inputs.
use toggld_program.Base.{
  ◌≤◌, ℕ, zero, suc, ◌≡◌, refl, false, some, none, arith, List, [], ◌∷◌, length, if◌then◌else◌,
  ◌==◌,
}
use toggld_program.Base.Int.{pos}
use toggld_program.Constants.{Pubkey, metadata_signer}
use toggld_program.Constants.{Pubkey}
use toggld_program.State.{GlobalState, WinRecord, NftCollectionConfig}
use toggld_program.Outcome.{Result, ok}
use toggld_program.Programs.{Instruction}
use toggld_program.Runtime.{Balances, win_record}
use toggld_program.Runtime.Sample.{sample}
use toggld_program.World.{World}
use toggld_program.Initialize.{genesis_state}
use toggld_program.WinNft.Core.{Core}
use toggld_program.WinNft.Text.{to_hex, from_hex, from_hex-to_hex}
use toggld_program.WinNft.Attestation.{
  Transaction, parse_ed25519_instruction_data, parse_offsets, follow_offsets,
  verify_metadata_signature,
}
use toggld_program.WinNft.Attestation.Parser.{layout, parse-layout, verify_metadata_signature_sound}
use toggld_program.WinNft.Mint.{MintWinNftAccounts, check_mint, run_mint_win_nft, mint_win_nft}
use toggld_program.WinNft.Mint.Effect.{mint_win_nft_effect}
use toggld_program.WinNft.Collection.{
  InitNftCollectionAccounts, check_collection, run_init_nft_collection,
}
use toggld_program.WinNft.Collection.Effect.{init_nft_collection_effect}
use toggld_program.Examples.Scenario.{alice, admin, treasury, empty_world, world_of, went_through}

abbrev fill : ℕ → ℕ → List ℕ
fill zero b = []
fill (suc n) b = b ∷ fill n b

abbrev signer_bytes : List ℕ
signer_bytes =
    160 ∷ 214 ∷ 195 ∷ 139 ∷ 222 ∷ 8 ∷ 41 ∷ 15 ∷ 54 ∷ 150 ∷ 246 ∷ 100 ∷ 187 ∷ 30 ∷ 11 ∷ 2 ∷ 167 ∷ 20
    ∷ 108 ∷ 71 ∷ 104 ∷ 168 ∷ 226 ∷ 74 ∷ 59 ∷ 172 ∷ 251 ∷ 86 ∷ 48 ∷ 113 ∷ 95 ∷ 74 ∷ []

abbrev pub hash : List ℕ
hash = 10 ∷ 255 ∷ fill 30 7

from_hex-to_hex_example : (length (to_hex hash) ≡ 64) × (from_hex (to_hex hash) ≡ hash)
from_hex-to_hex_example = from_hex-to_hex hash (ground arith)

parse-layout_example :
    parse_ed25519_instruction_data (layout (fill 64 1) signer_bytes hash)
    ≡ some (metadata_signer, hash)
parse-layout_example = parse-layout (fill 64 1) signer_bytes hash refl refl (omega arith)

abbrev pub attestation : Transaction
attestation = record {
  current_index = some 1;
  instruction_at = λ i.
      if i == 0
      then some
          (record { program_id = 9; accounts = []; bytes = layout (fill 64 1) signer_bytes hash })
      else none;
  ed25519_program = 9;
}

attested : verify_metadata_signature attestation hash ≡ ok tt
unfolding verify_metadata_signature parse_ed25519_instruction_data parse_offsets follow_offsets
attested = refl

verify_metadata_signature_sound_example :
    (current : ℕ) × (preceding : Instruction) × (preceding.program_id ≡ 9)
verify_metadata_signature_sound_example =
    let (current, preceding, _, _, program, _) =
      verify_metadata_signature_sound attestation hash attested in
    (current, preceding, program)

pub free : (l l' : Balances) (k : Pubkey) → Result.ok l ≡ ok l' → l k ≤ l' k
free l l' k h = ground arith

-- A stand-in for mpl-core that takes no rent.
abbrev pub core : Core
core = record {
  create_v1 = λ args l. ok l;
  create_collection_v1 = λ args l. ok l;
  create_v1_charges = λ args l l' k h ne. free l l' k h;
  create_collection_v1_charges = λ args l l' k h ne. free l l' k h;
  key_to_string = λ k. k ∷ [];
}

abbrev win : WinRecord
win = record {
  winner = alice;
  holder_count = 2;
  price_paid = 1_200_000;
  won_at = pos 1_060;
  minted = false;
  bump = 255;
}

abbrev won : World
won = record empty_world {
  win_records = λ k. if k == sample.address (win_record 1) then some win else none;
  nft_collection_config =
      some (record { collection = 8001; collection_authority_bump = 255; bump = 255 });
}

abbrev minting : MintWinNftAccounts
minting = record {
  caller = alice;
  win_record = sample.address (win_record 1);
  asset = 8002;
  collection = 8001;
}

abbrev pub uri : List ℕ
uri = fill 43 97

abbrev minted : World
minted = world_of (mint_win_nft sample core (pos 3_000) attestation minting uri hash won)

minted_eq : mint_win_nft sample core (pos 3_000) attestation minting uri hash won ≡ ok minted
unfolding mint_win_nft run_mint_win_nft check_mint verify_metadata_signature
    parse_ed25519_instruction_data parse_offsets follow_offsets
minted_eq = went_through _ refl

mint_win_nft_effect_example :
    (config : NftCollectionConfig) × (won.nft_collection_config ≡ some config)
mint_win_nft_effect_example =
    let (_, config, _, _, _, found, _, _, _, _, _, _, _) =
      mint_win_nft_effect sample core (pos 3_000) attestation minting uri hash won minted
        minted_eq in
    (config, found)

abbrev gs : GlobalState
gs = genesis_state (pos 1_000) treasury admin 1_000_000 255

abbrev creation : InitNftCollectionAccounts
creation = record { admin = admin; collection = 8001 }

abbrev collected : World
collected = world_of (run_init_nft_collection sample core creation (fill 10 84) uri gs empty_world)

collected_eq :
    run_init_nft_collection sample core creation (fill 10 84) uri gs empty_world ≡ ok collected
unfolding run_init_nft_collection check_collection
collected_eq = went_through _ refl

init_nft_collection_effect_example :
    collected.nft_collection_config
    ≡ some (record { collection = 8001; collection_authority_bump = 255; bump = 255 })
init_nft_collection_effect_example =
    let (_, _, _, _, _, _, _, _, _, written, _) =
      init_nft_collection_effect sample core creation (fill 10 84) uri gs empty_world collected
        collected_eq in
    λ i. (written i).nft_collection_config
