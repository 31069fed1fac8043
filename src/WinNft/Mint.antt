-- ===== src/WinNft/Mint.antt =====
-- The mint of a win's collectible: mint_win_nft.rs.
pub mod Effect
use toggld_program.Base.{
  ℕ, ◌+◌, ◌≤◌, ◌<◌, ◌≡◌, ◌≢◌, true, false, not, some, List, [], ◌∷◌, ◌++◌, ◌==◌, ◌&&◌, ltb, leb,
  length, arith, ap, sym, ◌∙◌,
}
use mathlib.Core.Option.{some-injective}
use toggld_program.Base.Int.{ℤ}
use toggld_program.Constants.{Pubkey, metadata_signer, max_nft_uri_len}
use toggld_program.State.{WinRecord, NftCollectionConfig}
use toggld_program.Outcome.{
  Result, ok, constraint, ◌>>=◌, ◌>>◌, require, constrain, ok_or, seeds, not_initialized,
  not_win_record_owner, win_nft_already_minted, invalid_nft_uri, invalid_nft_collection, >>=-eq-ok,
  ok_or-eq-some, ok-injective,
}
use toggld_program.Runtime.{Runtime, Balances, collection_authority, nft_collection_config}
use toggld_program.Programs.{Instruction}
use toggld_program.World.{World, put, put_self, emit}
use toggld_program.Events.{win_nft_minted}
use toggld_program.WinNft.Text.{u64_to_string, i64_to_string, to_hex}
use toggld_program.WinNft.Attestation.{
  Transaction, verify_metadata_signature, parse_ed25519_instruction_data,
}
use toggld_program.WinNft.Attestation.Parser.{verify_metadata_signature_sound}
use toggld_program.WinNft.Core.{
  Core, CreateV1, PluginAuthorityPair, attributes, immutable_metadata, nobody, update_authority,
}

-- What a caller supplies.
pub record MintWinNftAccounts : Type 0 where
  pub caller : Pubkey
  pub win_record : Pubkey
  pub asset : Pubkey
  pub collection : Pubkey

-- "TOGGLD Win #"
abbrev name_prefix : List ℕ
name_prefix = 84 ∷ 79 ∷ 71 ∷ 71 ∷ 76 ∷ 68 ∷ 32 ∷ 87 ∷ 105 ∷ 110 ∷ 32 ∷ 35 ∷ []

-- "winner", "holder_count", "price_paid", "won_at" and "metadata_hash".
abbrev winner_key : List ℕ
winner_key = 119 ∷ 105 ∷ 110 ∷ 110 ∷ 101 ∷ 114 ∷ []

abbrev holder_count_key : List ℕ
holder_count_key = 104 ∷ 111 ∷ 108 ∷ 100 ∷ 101 ∷ 114 ∷ 95 ∷ 99 ∷ 111 ∷ 117 ∷ 110 ∷ 116 ∷ []

abbrev price_paid_key : List ℕ
price_paid_key = 112 ∷ 114 ∷ 105 ∷ 99 ∷ 101 ∷ 95 ∷ 112 ∷ 97 ∷ 105 ∷ 100 ∷ []

abbrev won_at_key : List ℕ
won_at_key = 119 ∷ 111 ∷ 110 ∷ 95 ∷ 97 ∷ 116 ∷ []

abbrev metadata_hash_key : List ℕ
metadata_hash_key = 109 ∷ 101 ∷ 116 ∷ 97 ∷ 100 ∷ 97 ∷ 116 ∷ 97 ∷ 95 ∷ 104 ∷ 97 ∷ 115 ∷ 104 ∷ []

-- The facts of a win, which nobody can change afterwards.
abbrev pub attributes_plugin : Core → WinRecord → List ℕ → PluginAuthorityPair
attributes_plugin core win content_hash = record {
  plugin = attributes (
      record { key = winner_key; value = core.key_to_string win.winner }
      ∷ record { key = holder_count_key; value = u64_to_string win.holder_count }
      ∷ record { key = price_paid_key; value = u64_to_string win.price_paid }
      ∷ record { key = won_at_key; value = i64_to_string win.won_at }
      ∷ record { key = metadata_hash_key; value = to_hex content_hash }
      ∷ []);
  authority = nobody;
}

module _ (rt : Runtime) where
  -- The account constraints, and the guards of the handler.
  unfoldable pub check_mint :
      Transaction
      → MintWinNftAccounts
      → NftCollectionConfig
      → WinRecord
      → List ℕ
      → List ℕ
      → Result (Unit {0})
  check_mint tx ctx config win uri content_hash = do
    constrain (config.bump == rt.bump nft_collection_config) seeds
    require (ctx.collection == config.collection) invalid_nft_collection
    constrain (config.collection_authority_bump == rt.bump collection_authority) seeds
    require (win.winner == ctx.caller) not_win_record_owner
    require (not win.minted) win_nft_already_minted
    require (ltb 0 (length uri) && leb (length uri) max_nft_uri_len) invalid_nft_uri
    verify_metadata_signature tx content_hash

module _ (rt : Runtime) (core : Core) where
  -- The call of mpl-core.
  abbrev pub win_asset : MintWinNftAccounts → WinRecord → List ℕ → List ℕ → CreateV1
  win_asset ctx win uri content_hash = record {
    asset = ctx.asset;
    collection = ctx.collection;
    authority = rt.address collection_authority;
    payer = ctx.caller;
    owner = ctx.caller;
    name = name_prefix ++ u64_to_string win.holder_count;
    uri = uri;
    plugins =
        attributes_plugin core win content_hash
        ∷ record { plugin = immutable_metadata; authority = update_authority }
        ∷ [];
  }

  abbrev pub minted_world : ℤ → MintWinNftAccounts → WinRecord → List ℕ → World → Balances → World
  minted_world now ctx win uri w lamports =
      emit
        (win_nft_minted (record {
          winner = ctx.caller;
          asset = ctx.asset;
          holder_count = win.holder_count;
          price_paid = win.price_paid;
          won_at = win.won_at;
          minted_at = now;
          uri = uri;
        }))
        (record w {
          lamports = lamports;
          win_records = put w.win_records ctx.win_record (some (record win { minted = true }));
        })

  unfoldable pub run_mint_win_nft :
      ℤ
      → Transaction
      → MintWinNftAccounts
      → NftCollectionConfig
      → WinRecord
      → List ℕ
      → List ℕ
      → World
      → Result World
  run_mint_win_nft now tx ctx config win uri content_hash w = do
    check_mint rt tx ctx config win uri content_hash
    lamports ← core.create_v1 (win_asset ctx win uri content_hash) w.lamports
    ok (minted_world now ctx win uri w lamports)

  unfoldable pub mint_win_nft :
      ℤ → Transaction → MintWinNftAccounts → List ℕ → List ℕ → World → Result World
  mint_win_nft now tx ctx uri content_hash w = do
    win ← ok_or (w.win_records ctx.win_record) (constraint not_initialized)
    config ← ok_or w.nft_collection_config (constraint not_initialized)
    run_mint_win_nft now tx ctx config win uri content_hash w
