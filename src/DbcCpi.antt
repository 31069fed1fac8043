-- ===== src/DbcCpi.antt =====
-- programs/toggld/src/dbc_cpi.rs: the hand-made `swap2` instruction of the swap venue.
pub mod Layout
use toggld_program.Base.{ℕ, ◌≡◌, Bool, true, false, Option, none, some, List, [], ◌∷◌, ◌++◌}
use toggld_program.Outcome.{Result}
use toggld_program.Constants.{Pubkey}
use toggld_program.Programs.{Programs, Bank, AccountMeta, Instruction}

abbrev pub dbc_program_id : Pubkey
dbc_program_id = 0x9600ca524f7b1b7d6ccb1c3973aa0330d1903da601cc9b5dee3c662b4cad149

abbrev pub damm_v2_program_id : Pubkey
damm_v2_program_id = 0x92d2135657a159c2b87d4b66a70db8e9752389ff76aaf206ced063a38f95aed

abbrev pub swap2_discriminator : List ℕ
swap2_discriminator = 65 ∷ 75 ∷ 63 ∷ 76 ∷ 235 ∷ 91 ∷ 91 ∷ 136 ∷ []

pub data SwapMode : Type 0 where
  exact_in partial_fill exact_out : SwapMode

-- `mode as u8`
abbrev pub mode_byte : SwapMode → ℕ
mode_byte exact_in = 0
mode_byte partial_fill = 1
mode_byte exact_out = 2

pub record SwapParameters2 : Type 0 where
  pub amount_0 : ℕ
  pub amount_1 : ℕ
  pub swap_mode : ℕ

pub record Swap2Accounts : Type 0 where
  pub pool_authority : Pubkey
  pub config : Option Pubkey
  pub pool : Pubkey
  pub input_token_account : Pubkey
  pub output_token_account : Pubkey
  pub base_vault : Pubkey
  pub quote_vault : Pubkey
  pub base_mint : Pubkey
  pub quote_mint : Pubkey
  pub payer : Pubkey
  pub token_base_program : Pubkey
  pub token_quote_program : Pubkey
  pub referral_token_account : Option Pubkey
  pub event_authority : Pubkey
  pub dbc_program : Pubkey

-- `AccountMeta::new` and `AccountMeta::new_readonly`.
abbrev pub writable : Pubkey → Bool → AccountMeta
writable key signer = record { pubkey = key; is_signer = signer; is_writable = true }

abbrev pub readonly : Pubkey → Bool → AccountMeta
readonly key signer = record { pubkey = key; is_signer = signer; is_writable = false }

abbrev pub referral_meta : Option Pubkey → Pubkey → AccountMeta
referral_meta (some a) program_id = writable a false
referral_meta none program_id = readonly program_id false

-- `if let Some(cfg) = config { accounts.push(…) }`
abbrev pub push_config {ℓ} : {A : Type ℓ} → Option Pubkey → (Pubkey → A) → List A → List A
push_config none f rest = rest
push_config (some c) f rest = f c ∷ rest

unfoldable pub swap2_metas : Swap2Accounts → Pubkey → List AccountMeta
swap2_metas a program_id =
    readonly a.pool_authority false
    ∷ push_config a.config (λ c. readonly c false)
        (writable a.pool false
          ∷ writable a.input_token_account false
          ∷ writable a.output_token_account false
          ∷ writable a.base_vault false
          ∷ writable a.quote_vault false
          ∷ readonly a.base_mint false
          ∷ readonly a.quote_mint false
          ∷ readonly a.payer true
          ∷ readonly a.token_base_program false
          ∷ readonly a.token_quote_program false
          ∷ referral_meta a.referral_token_account program_id
          ∷ readonly a.event_authority false
          ∷ readonly a.dbc_program false
          ∷ [])

-- The account that fills the place of a referral account.
abbrev pub referral_info : Option Pubkey → Pubkey → Pubkey
referral_info (some a) dbc_program = a
referral_info none dbc_program = dbc_program

unfoldable pub swap2_infos : Swap2Accounts → List Pubkey
swap2_infos a =
    a.pool_authority
    ∷ push_config a.config (λ c. c)
        (a.pool
          ∷ a.input_token_account
          ∷ a.output_token_account
          ∷ a.base_vault
          ∷ a.quote_vault
          ∷ a.base_mint
          ∷ a.quote_mint
          ∷ a.payer
          ∷ a.token_base_program
          ∷ a.token_quote_program
          ∷ referral_info a.referral_token_account a.dbc_program
          ∷ a.event_authority
          ∷ a.dbc_program
          ∷ [])

module _ (pr : Programs) where
  unfoldable pub swap2_instruction : Swap2Accounts → SwapParameters2 → Pubkey → Instruction
  unfolding swap2_metas
  swap2_instruction a params program_id = record {
    program_id = program_id;
    accounts = swap2_metas a program_id;
    bytes = swap2_discriminator ++ pr.serialize params.amount_0 params.amount_1 params.swap_mode;
  }

  unfoldable pub swap2 : Swap2Accounts → SwapParameters2 → Pubkey → Bank → Result Bank
  swap2 a params program_id b =
      pr.invoke_signed (swap2_instruction a params program_id) (swap2_infos a) b
