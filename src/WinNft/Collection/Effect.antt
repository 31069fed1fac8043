-- ===== src/WinNft/Collection/Effect.antt =====
-- The effect of the creation of the collection (init_nft_collection.rs).
use toggld_program.Base.{
  ℕ, ◌≤◌, ◌<◌, ◌≡◌, false, some, none, List, [], ◌∷◌, length, arith, ap, sym, ◌∙◌, ◌++◌,
}
use toggld_program.Constants.{nft_collection_config_space}
use toggld_program.State.{GlobalState}
use toggld_program.Outcome.{ok, err, constraint, already_in_use, >>=-eq-ok, ok-injective}
use toggld_program.Runtime.{Runtime, Balances, collection_authority, nft_collection_config}
use toggld_program.World.{World}
use toggld_program.Events.{nft_collection_initialized}
use toggld_program.WinNft.Core.{
  Core, royalties, verified_creators, update_delegate, update_authority,
}
use toggld_program.WinNft.Collection.{
  InitNftCollectionAccounts, check_collection, check_names, win_collection, collected_world,
  run_init_nft_collection,
}

module _ (rt : Runtime) (core : Core) (ctx : InitNftCollectionAccounts) (name uri : List ℕ)
    (gs : GlobalState) (w w' : World)
    (done : run_init_nft_collection rt core ctx name uri gs w ≡ ok w') where
  -- A successful creation is by the admin, with a name of 1 to 32 bytes and a URI of 1 to 200. It
  -- calls mpl-core, once the admin has paid for the configuration's account, for that collection
  -- under the admin's authority, with royalties of 5% to the treasury alone, the admin as an
  -- unverified creator and the program's address as a delegate. The configuration then names the
  -- collection with the bumps of the derived addresses, the log says so, and nothing else changes
  -- but the balances; and a further creation by the admin fails.
  pub init_nft_collection_effect :
      (opened : Balances) × (ctx.admin ≡ gs.admin)
      × (w.nft_collection_config ≡ none)
      × (0 < length name)
      × (length name ≤ 32)
      × (0 < length uri)
      × (length uri ≤ 200)
      × (rt.init ctx.admin (rt.address nft_collection_config) 42 w.lamports ≡ ok opened)
      × (core.create_collection_v1
            (record {
              collection = ctx.collection;
              update_authority = ctx.admin;
              payer = ctx.admin;
              name = name;
              uri = uri;
              plugins =
                  record {
                    plugin =
                        royalties 500 (record { address = gs.treasury; percentage = 100 } ∷ []);
                    authority = update_authority;
                  }
                  ∷ record {
                    plugin =
                        verified_creators (record { address = ctx.admin; verified = false } ∷ []);
                    authority = update_authority;
                  }
                  ∷ record {
                    plugin = update_delegate (rt.address collection_authority ∷ []);
                    authority = update_authority;
                  }
                  ∷ [];
            })
            opened
          ≡ ok w'.lamports)
      × (w' ≡ record w {
        lamports = w'.lamports;
        nft_collection_config = some (record {
          collection = ctx.collection;
          collection_authority_bump = rt.bump collection_authority;
          bump = rt.bump nft_collection_config;
        });
        events =
            w.events
            ++ nft_collection_initialized (record {
              collection = ctx.collection;
              treasury = gs.treasury;
              royalty_basis_points = 500;
            })
              ∷ [];
      })
      × ((again : InitNftCollectionAccounts) (name' uri' : List ℕ)
          → again.admin ≡ gs.admin
          → run_init_nft_collection rt core again name' uri' gs w'
            ≡ err (constraint already_in_use))
  unfolding run_init_nft_collection check_collection
  init_nft_collection_effect =
      let (_, e₀, f₀) = >>=-eq-ok (check_collection ctx gs w) _ done in
      let (l, e₁, f₁) =
        >>=-eq-ok
          (rt.init ctx.admin (rt.address nft_collection_config) nft_collection_config_space
            w.lamports)
          _ f₀ in
      let (_, e₂, f₂) = >>=-eq-ok (check_names name uri) _ f₁ in
      let (l', e₃, f₃) =
        >>=-eq-ok (core.create_collection_v1 (win_collection rt core ctx name uri gs) l) _ f₂ in
      let last = ok-injective _ w' f₃ in
      let balances : w'.lamports ≡ l' = ap (λ t. t.lamports) last in
      (
        l,
        ground arith,
        ground arith,
        ground arith,
        ground arith,
        ground arith,
        ground arith,
        e₁,
        e₃ ∙ ap ok (sym balances),
        last ∙ ap (collected_world rt core ctx gs w) (sym balances),
        λ again name' uri' by_admin. ground (arith, ap (λ t. t.nft_collection_config) last),
      )
