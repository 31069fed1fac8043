-- ===== src/WinNft/Mint/Effect.antt =====
-- The effect of a mint (mint_win_nft.rs).
use toggld_program.Base.{
  ℕ, ◌+◌, ◌≤◌, ◌<◌, ◌≡◌, true, false, some, List, [], ◌∷◌, ◌++◌, length, arith, ap, sym, ◌∙◌,
}
use toggld_program.Base.Int.{ℤ}
use toggld_program.Constants.{metadata_signer, max_nft_uri_len}
use toggld_program.State.{WinRecord, NftCollectionConfig}
use toggld_program.Outcome.{
  ok, constraint, ok_or, not_initialized, >>=-eq-ok, ok_or-eq-some, ok-injective,
}
use toggld_program.Runtime.{Runtime, collection_authority}
use toggld_program.Programs.{Instruction}
use toggld_program.World.{World, put}
use toggld_program.Events.{win_nft_minted}
use toggld_program.WinNft.Text.{u64_to_string, i64_to_string, to_hex}
use toggld_program.WinNft.Attestation.{
  Transaction, verify_metadata_signature, parse_ed25519_instruction_data,
}
use toggld_program.WinNft.Attestation.Parser.{verify_metadata_signature_sound}
use toggld_program.WinNft.Core.{
  Core, Attribute, attributes, immutable_metadata, nobody, update_authority,
}
use toggld_program.WinNft.Mint.{
  MintWinNftAccounts, win_asset, check_mint, minted_world, run_mint_win_nft, mint_win_nft,
}

-- What the checks have established.
pub record Mintable (tx : Transaction) (ctx : MintWinNftAccounts) (config : NftCollectionConfig)
    (win : WinRecord) (uri content_hash : List ℕ) : Type 0 where
  pub same_collection : ctx.collection ≡ config.collection
  pub by_winner : win.winner ≡ ctx.caller
  pub unminted : win.minted ≡ false
  pub uri_some : 0 < length uri
  pub uri_short : length uri ≤ max_nft_uri_len
  pub attested : verify_metadata_signature tx content_hash ≡ ok tt

pub check_mint_done :
    (rt : Runtime) (tx : Transaction) (ctx : MintWinNftAccounts) (config : NftCollectionConfig)
    (win : WinRecord) (uri content_hash : List ℕ)
    → check_mint rt tx ctx config win uri content_hash ≡ ok tt
    → Mintable tx ctx config win uri content_hash
unfolding check_mint
check_mint_done rt tx ctx config win uri content_hash h = ground arith

-- The five facts of a win as mpl-core attributes: "winner", "holder_count", "price_paid", "won_at"
-- and "metadata_hash", with the values of the record and the hash.
abbrev pub facts : Core → WinRecord → List ℕ → List Attribute
facts core win content_hash =
    record { key = 119 ∷ 105 ∷ 110 ∷ 110 ∷ 101 ∷ 114 ∷ []; value = core.key_to_string win.winner }
    ∷ record {
      key = 104 ∷ 111 ∷ 108 ∷ 100 ∷ 101 ∷ 114 ∷ 95 ∷ 99 ∷ 111 ∷ 117 ∷ 110 ∷ 116 ∷ [];
      value = u64_to_string win.holder_count;
    }
    ∷ record {
      key = 112 ∷ 114 ∷ 105 ∷ 99 ∷ 101 ∷ 95 ∷ 112 ∷ 97 ∷ 105 ∷ 100 ∷ [];
      value = u64_to_string win.price_paid;
    }
    ∷ record { key = 119 ∷ 111 ∷ 110 ∷ 95 ∷ 97 ∷ 116 ∷ []; value = i64_to_string win.won_at }
    ∷ record {
      key = 109 ∷ 101 ∷ 116 ∷ 97 ∷ 100 ∷ 97 ∷ 116 ∷ 97 ∷ 95 ∷ 104 ∷ 97 ∷ 115 ∷ 104 ∷ [];
      value = to_hex content_hash;
    }
    ∷ []

module _ (rt : Runtime) (core : Core) (now : ℤ) (tx : Transaction) (ctx : MintWinNftAccounts)
    (uri content_hash : List ℕ) (w w' : World)
    (done : mint_win_nft rt core now tx ctx uri content_hash w ≡ ok w') where
  -- A successful mint is by the recorded winner of a win that is not minted, into the program's
  -- collection, directly after an instruction of the Ed25519 program in which the metadata signer
  -- signs exactly the content hash. It calls mpl-core for that asset, owned and paid for by the
  -- caller, named "TOGGLD Win #" and the holder's number, with the URI, with the facts of the record
  -- and that hash under nobody's authority, and with immutable metadata. Of the record it changes the
  -- mark alone, it logs the mint, and nothing else changes but the balances that mpl-core leaves.
  pub mint_win_nft_effect :
      (win : WinRecord) × (config : NftCollectionConfig) × (current : ℕ) × (preceding : Instruction)
      × (w.win_records ctx.win_record ≡ some win)
      × (w.nft_collection_config ≡ some config)
      × Mintable tx ctx config win uri content_hash
      × (tx.current_index ≡ some (current + 1))
      × (tx.instruction_at current ≡ some preceding)
      × (preceding.program_id ≡ tx.ed25519_program)
      × (parse_ed25519_instruction_data preceding.bytes ≡ some (metadata_signer, content_hash))
      × (core.create_v1
            (record {
              asset = ctx.asset;
              collection = ctx.collection;
              authority = rt.address collection_authority;
              payer = ctx.caller;
              owner = ctx.caller;
              name =
                  84
                  ∷ 79
                  ∷ 71
                  ∷ 71
                  ∷ 76
                  ∷ 68
                  ∷ 32
                  ∷ 87
                  ∷ 105
                  ∷ 110
                  ∷ 32
                  ∷ 35
                  ∷ u64_to_string win.holder_count;
              uri = uri;
              plugins =
                  record { plugin = attributes (facts core win content_hash); authority = nobody }
                  ∷ record { plugin = immutable_metadata; authority = update_authority }
                  ∷ [];
            })
            w.lamports
          ≡ ok w'.lamports)
      × (w' ≡ record w {
        lamports = w'.lamports;
        win_records = put w.win_records ctx.win_record (
            some (record {
              winner = win.winner;
              holder_count = win.holder_count;
              price_paid = win.price_paid;
              won_at = win.won_at;
              minted = true;
              bump = win.bump;
            }));
        events =
            w.events
            ++ win_nft_minted (record {
              winner = ctx.caller;
              asset = ctx.asset;
              holder_count = win.holder_count;
              price_paid = win.price_paid;
              won_at = win.won_at;
              minted_at = now;
              uri = uri;
            })
              ∷ [];
      })
  unfolding mint_win_nft run_mint_win_nft
  mint_win_nft_effect =
      let (win, e₀, f₀) =
        >>=-eq-ok (ok_or (w.win_records ctx.win_record) (constraint not_initialized)) _ done in
      let (config, e₁, f₁) =
        >>=-eq-ok (ok_or w.nft_collection_config (constraint not_initialized)) _ f₀ in
      let (_, e₂, f₂) = >>=-eq-ok (check_mint rt tx ctx config win uri content_hash) _ f₁ in
      let (l, e₃, f₃) =
        >>=-eq-ok (core.create_v1 (win_asset rt core ctx win uri content_hash) w.lamports) _ f₂ in
      let checked = check_mint_done rt tx ctx config win uri content_hash e₂ in
      let (current, preceding, at, before, program, parsed) =
        verify_metadata_signature_sound tx content_hash checked.attested in
      let last = ok-injective _ w' f₃ in
      let balances : w'.lamports ≡ l = ap (λ t. t.lamports) last in
      (
        win,
        config,
        current,
        preceding,
        ok_or-eq-some _ _ _ e₀,
        ok_or-eq-some _ _ _ e₁,
        checked,
        at,
        before,
        program,
        parsed,
        e₃ ∙ ap ok (sym balances),
        last ∙ ap (minted_world rt core now ctx win uri w) (sym balances),
      )
