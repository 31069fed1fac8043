-- ===== src/DbcCpi/Layout.antt =====
-- The accounts of the `swap2` instruction, for either venue.
use toggld_program.Base.{
  ◌≡◌, refl, Bool, true, false, Option, none, some, List, [], ◌∷◌, ◌++◌, map, length, take, drop,
}
use toggld_program.Constants.{Pubkey}
use toggld_program.Programs.{AccountMeta}
use toggld_program.DbcCpi.{Swap2Accounts, swap2_metas, swap2_infos, readonly}

abbrev push_signer : Bool → Pubkey → List Pubkey → List Pubkey
push_signer true k ks = k ∷ ks
push_signer false k ks = ks

-- The keys that an instruction names as signers.
abbrev pub signers : List AccountMeta → List Pubkey
signers [] = []
signers (m ∷ ms) = push_signer m.is_signer m.pubkey (signers ms)

abbrev pub pubkeys : List AccountMeta → List Pubkey
pubkeys = map (λ m. m.pubkey)

keys_align :
    (a : Swap2Accounts) (config referral : Option Pubkey)
    → let b = record a { config = config; referral_token_account = referral } in
      pubkeys (swap2_metas b a.dbc_program) ≡ swap2_infos b
unfolding swap2_metas swap2_infos
keys_align a none none = refl
keys_align a none (some r) = refl
keys_align a (some c) none = refl
keys_align a (some c) (some r) = refl

one_signer :
    (a : Swap2Accounts) (program_id : Pubkey) (config referral : Option Pubkey)
    → signers
        (swap2_metas (record a { config = config; referral_token_account = referral }) program_id)
      ≡ a.payer ∷ []
unfolding swap2_metas
one_signer a program_id none none = refl
one_signer a program_id none (some r) = refl
one_signer a program_id (some c) none = refl
one_signer a program_id (some c) (some r) = refl

-- For the program that the accounts name, with or without a configuration and a referral account,
-- the keys of the instruction are those of the accounts handed over, in the same order, and the
-- payer is the only signer.
pub swap2_well_formed :
    (a : Swap2Accounts)
    → (pubkeys (swap2_metas a a.dbc_program) ≡ swap2_infos a)
      × (signers (swap2_metas a a.dbc_program) ≡ a.payer ∷ [])
swap2_well_formed a = (
  keys_align a a.config a.referral_token_account,
  one_signer a a.dbc_program a.config a.referral_token_account,
)

-- With a configuration the instruction has that one account more than without, at index 1, and
-- otherwise the same accounts: 15 against 14.
pub swap2_layouts :
    (a : Swap2Accounts) (program_id c : Pubkey)
    → let dbc = swap2_metas (record a { config = some c }) program_id in
      let damm = swap2_metas (record a { config = none }) program_id in
      (dbc ≡ take 1 damm ++ (readonly c false ∷ drop 1 damm))
      × (length dbc ≡ 15)
      × (length damm ≡ 14)
unfolding swap2_metas
swap2_layouts a program_id c = (refl, refl, refl)
