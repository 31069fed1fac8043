-- ===== src/WinNft/Collection.antt =====
-- The collection of the wins' collectibles: init_nft_collection.rs.
pub mod Effect
use toggld_program.Base.{
  ℕ, ◌≤◌, ◌<◌, ◌≡◌, false, not, some, none, List, [], ◌∷◌, ◌==◌, ◌&&◌, ltb, leb, length, is_some,
  arith, ap, sym, ◌∙◌,
}
use toggld_program.Constants.{
  Pubkey, max_collection_name_len, max_collection_uri_len, nft_royalty_basis_points,
  nft_collection_config_space,
}
use toggld_program.State.{GlobalState}
use toggld_program.Outcome.{
  Result, ok, err, constraint, ◌>>=◌, ◌>>◌, require, constrain, ok_or, unauthorized, already_in_use,
  not_initialized, invalid_collection_name, invalid_nft_uri, >>=-eq-ok, ok-injective,
}
use toggld_program.Runtime.{Runtime, Balances, collection_authority, nft_collection_config}
use toggld_program.World.{World, emit}
use toggld_program.Events.{nft_collection_initialized}
use toggld_program.WinNft.Core.{
  Core, CreateCollectionV1, royalties, verified_creators, update_delegate, update_authority,
}

-- What a caller supplies.
pub record InitNftCollectionAccounts : Type 0 where
  pub admin : Pubkey
  pub collection : Pubkey

unfoldable pub check_collection :
    InitNftCollectionAccounts → GlobalState → World → Result (Unit {0})
check_collection ctx gs w = do
  require (ctx.admin == gs.admin) unauthorized
  constrain (not (is_some w.nft_collection_config)) already_in_use

abbrev pub check_names : List ℕ → List ℕ → Result (Unit {0})
check_names name uri = do
  require (ltb 0 (length name) && leb (length name) max_collection_name_len) invalid_collection_name
  require (ltb 0 (length uri) && leb (length uri) max_collection_uri_len) invalid_nft_uri

module _ (rt : Runtime) (core : Core) where
  -- The call of mpl-core: royalties to the treasury, the admin as an unverified creator, and the
  -- program's own address as a delegate.
  abbrev pub win_collection :
      InitNftCollectionAccounts → List ℕ → List ℕ → GlobalState → CreateCollectionV1
  win_collection ctx name uri gs = record {
    collection = ctx.collection;
    update_authority = ctx.admin;
    payer = ctx.admin;
    name = name;
    uri = uri;
    plugins =
        record {
          plugin =
              royalties nft_royalty_basis_points
                (record { address = gs.treasury; percentage = 100 } ∷ []);
          authority = update_authority;
        }
        ∷ record {
          plugin = verified_creators (record { address = ctx.admin; verified = false } ∷ []);
          authority = update_authority;
        }
        ∷ record {
          plugin = update_delegate (rt.address collection_authority ∷ []);
          authority = update_authority;
        }
        ∷ [];
  }

  abbrev pub collected_world : InitNftCollectionAccounts → GlobalState → World → Balances → World
  collected_world ctx gs w lamports =
      emit
        (nft_collection_initialized (record {
          collection = ctx.collection;
          treasury = gs.treasury;
          royalty_basis_points = nft_royalty_basis_points;
        }))
        (record w {
          lamports = lamports;
          nft_collection_config = some (record {
            collection = ctx.collection;
            collection_authority_bump = rt.bump collection_authority;
            bump = rt.bump nft_collection_config;
          });
        })

  unfoldable pub run_init_nft_collection :
      InitNftCollectionAccounts → List ℕ → List ℕ → GlobalState → World → Result World
  run_init_nft_collection ctx name uri gs w = do
    check_collection ctx gs w
    opened ←
        rt.init ctx.admin (rt.address nft_collection_config) nft_collection_config_space w.lamports
    check_names name uri
    lamports ← core.create_collection_v1 (win_collection ctx name uri gs) opened
    ok (collected_world ctx gs w lamports)

  unfoldable pub init_nft_collection :
      InitNftCollectionAccounts → List ℕ → List ℕ → World → Result World
  init_nft_collection ctx name uri w = do
    gs ← ok_or w.global_state (constraint not_initialized)
    run_init_nft_collection ctx name uri gs w
