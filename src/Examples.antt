-- ===== src/Examples.antt =====
-- The theorems at concrete inputs: a short game on a chain that behaves as documented.
mod Scenario
mod Bidding
mod Settling
mod Token
mod Arithmetic
mod Burning
mod Collectible
mod Minting
