-- ===== src/Game.antt =====
-- The game as a whole: its invariant, its steps and its histories (programs/toggld/src/instructions/,
-- with lib.rs, which lists the instructions).
pub mod Invariant
pub mod Bids
pub mod Settlements
pub mod Payouts
pub mod Steps
pub mod Outside
pub mod Mints
pub mod Advances
pub mod History
pub mod Guards
pub mod Deadlines
pub mod Claims
pub mod Marks
pub mod Collectibles
