-- ===== src/WinNft.antt =====
-- programs/toggld/src/instructions/mint_win_nft.rs and init_nft_collection.rs: the collectible of a
-- win, and the collection of all of them.
pub mod Text
pub mod Attestation
pub mod Core
pub mod Mint
pub mod Collection
