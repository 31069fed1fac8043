-- ===== src/Constants.antt =====
-- programs/toggld/src/constants.rs and the constants of state.rs. An address is the number that
-- its 32 bytes are read as, the first byte foremost; lamports, amounts and sizes are numbers.
use toggld_program.Base.{ℕ, ◌+◌, ◌-◌, ◌*◌}
use toggld_program.Base.Int.{ℤ, pos}

abbrev pub Pubkey : Type 0
Pubkey = ℕ

-- `Pubkey::default()`
abbrev pub default : Pubkey
default = 0

abbrev pub fee_bps_default : ℕ
fee_bps_default = 1500

abbrev pub incinerator : Pubkey
incinerator = 0x3390728d34116079bdc911bfff00dbd44d2ecdccf79ca6e10038e100000000

abbrev pub default_min_raise_bps : ℕ
default_min_raise_bps = 500

abbrev pub default_base_window_secs : ℕ
default_base_window_secs = 30

abbrev pub max_nft_uri_len : ℕ
max_nft_uri_len = 200

-- The signer of every real build (without the feature `test-fixtures`).
abbrev pub metadata_signer : Pubkey
metadata_signer = 0xa0d6c38bde08290f3696f664bb1e0b02a7146c4768a8e24a3bacfb5630715f4a

abbrev pub nft_royalty_basis_points : ℕ
nft_royalty_basis_points = 500

abbrev pub max_collection_name_len : ℕ
max_collection_name_len = 32

abbrev pub max_collection_uri_len : ℕ
max_collection_uri_len = 200

abbrev pub wsol_mint : Pubkey
wsol_mint = 0x69b8857feab8184fb687f634618c035dac439dc1aeb3b5598a0f00000000001

abbrev pub max_slippage_bps_ceiling : ℕ
max_slippage_bps_ceiling = 500

abbrev pub min_sweep_lamports : ℕ
min_sweep_lamports = 10_000_000

abbrev pub total_token_supply : ℕ
total_token_supply = 1_000_000_000 * 1_000_000_000

abbrev pub team_allocation : ℕ
team_allocation = 50_000_000 * 1_000_000_000

abbrev pub pool_allocation : ℕ
pool_allocation = total_token_supply - team_allocation

-- The sizes of the accounts, with the 8-byte discriminator.
abbrev pub global_state_space : ℕ
global_state_space = 8 + 244

abbrev pub pending_refund_space : ℕ
pending_refund_space = 8 + 32 + 8 + 1 + 32

abbrev pub win_record_space : ℕ
win_record_space = 8 + 32 + 8 + 8 + 8 + 1 + 1

abbrev pub nft_collection_config_space : ℕ
nft_collection_config_space = 8 + 32 + 1 + 1

abbrev pub token_config_space : ℕ
token_config_space = 8 + 32 + 1 + 1 + 1 + 32 + 32 + 2 + 8 + 64

abbrev pub team_vesting_space : ℕ
team_vesting_space = 8 + 32 + 8 + 8 + 8 + 8 + 1

abbrev pub venue_dbc_curve : ℕ
venue_dbc_curve = 0

abbrev pub venue_damm_v1 : ℕ
venue_damm_v1 = 1

abbrev pub venue_damm_v2 : ℕ
venue_damm_v2 = 2

abbrev pub max_start_backdate_secs : ℤ
max_start_backdate_secs = pos 3_600

abbrev pub min_duration_secs : ℤ
min_duration_secs = pos (30 * 24 * 3_600)

abbrev pub max_duration_secs : ℤ
max_duration_secs = pos (10 * 365 * 24 * 3_600)
