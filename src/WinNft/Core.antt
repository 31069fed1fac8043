-- ===== src/WinNft/Core.antt =====
-- What the collectibles take from mpl-core: the shapes of its plugins and of the two calls, and the
-- calls themselves, of which the program only relies on the balances that they leave.
use toggld_program.Base.{ℕ, Bool, List, ◌≡◌, ◌≢◌, ◌≤◌}
use toggld_program.Constants.{Pubkey}
use toggld_program.Outcome.{Result, ok}
use toggld_program.Runtime.{Balances}

pub record Attribute : Type 0 where
  pub key : List ℕ
  pub value : List ℕ

pub record Creator : Type 0 where
  pub address : Pubkey
  pub percentage : ℕ

pub record VerifiedCreatorsSignature : Type 0 where
  pub address : Pubkey
  pub verified : Bool

-- `royalties` has the basis points, the creators, and the rule set `None`.
pub data Plugin : Type 0 where
  attributes : List Attribute → Plugin
  immutable_metadata : Plugin
  royalties : ℕ → List Creator → Plugin
  verified_creators : List VerifiedCreatorsSignature → Plugin
  update_delegate : List Pubkey → Plugin

pub data PluginAuthority : Type 0 where
  nobody update_authority : PluginAuthority

pub record PluginAuthorityPair : Type 0 where
  pub plugin : Plugin
  pub authority : PluginAuthority

-- `CreateV1CpiBuilder`, with the update authority that the collection gives.
pub record CreateV1 : Type 0 where
  pub asset : Pubkey
  pub collection : Pubkey
  pub authority : Pubkey
  pub payer : Pubkey
  pub owner : Pubkey
  pub name : List ℕ
  pub uri : List ℕ
  pub plugins : List PluginAuthorityPair

-- `CreateCollectionV1CpiBuilder`
pub record CreateCollectionV1 : Type 0 where
  pub collection : Pubkey
  pub update_authority : Pubkey
  pub payer : Pubkey
  pub name : List ℕ
  pub uri : List ℕ
  pub plugins : List PluginAuthorityPair

pub record Core : Type 0 where
  pub create_v1 : CreateV1 → Balances → Result Balances
  pub create_collection_v1 : CreateCollectionV1 → Balances → Result Balances
  -- Nobody but the payer is charged.
  pub create_v1_charges :
      (args : CreateV1) (l l' : Balances) (k : Pubkey)
      → create_v1 args l ≡ ok l'
      → k ≢ args.payer
      → l k ≤ l' k
  pub create_collection_v1_charges :
      (args : CreateCollectionV1) (l l' : Balances) (k : Pubkey)
      → create_collection_v1 args l ≡ ok l'
      → k ≢ args.payer
      → l k ≤ l' k
  -- `Pubkey::to_string`, in base 58.
  pub key_to_string : Pubkey → List ℕ
