-- ===== src/Lib.antt =====
-- The toggld program: one toggle with exactly one holder at a time, on Solana. Anyone opens a
-- bidding window by a bid, each later bid raises it and restarts the clock, and after the deadline
-- anyone settles: the highest bidder becomes the holder, 15% of the bid goes to the treasury's
-- balance and 85% is burned. This library models the program under programs/toggld/src/.
--
-- How the parts interact: every instruction reads and writes the accounts of one `World`: the
-- global state, the refund accounts, the win records, the token, vesting and collection
-- configurations, the lamports and token amounts of all addresses, which token accounts exist, the
-- bytes of the pools, and the log of events. An instruction
-- is a function from its accounts, arguments and time to a `Result World`; one that fails changes
-- nothing, because the chain reverts it. `run_X` is instruction X on the accounts that the
-- framework has loaded, and `X` loads them.
--
--   Base          checked and saturating operations, lists, and `i64` as integers in a range
--   Outcome       error.rs, the results, and `require!`, `ok_or`, `?`
--   Constants     constants.rs, with the accounts' sizes of state.rs
--   State         state.rs
--   Events        instructions/events.rs
--   Pure          pure.rs: the minimum raise, the deadline, the split, the linear release
--   Runtime       what the chain provides: derived addresses, rent, the System Program, the
--                 framework's `init` and `close`; Runtime/Sample is a concrete chain
--   Programs      the token program and the swap venue; Programs/Sample is a concrete one
--   World         the accounts that the instructions share
--   Initialize, Challenge, Settle, ClaimRefund, WithdrawTreasury, SetupToken, PromoteBurnVenue,
--   TeamVesting, BurnTokens   the handlers of instructions/, each with what it does in its Effect
--   DbcCpi        dbc_cpi.rs, the hand-made swap instruction
--   WinNft        mint_win_nft.rs and init_nft_collection.rs
--   WinNft/Core   the calls to mpl-core
--   Game          the invariant of the game (Invariant), how each instruction keeps it (Bids,
--                 Settlements, Payouts, Outside, Mints, Advances), its steps and histories (Steps,
--                 History), what a bid and a settlement need (Guards, Deadlines), refunds (Claims)
--                 and the marks of minted wins (Marks, Collectibles)
--   Examples      the theorems at concrete inputs
--
-- Numbers are natural numbers, and a `u64` or `u128` operation tests its result against 2^64 or
-- 2^128 as the code does; an operation that the code leaves to overflow checks panics. An address
-- is a number. The only loop on fuel prints decimal digits: 20 of them, as many as a `u64` has.
--
-- Derived addresses and their bumps, the System Program, rent, `init`, `close`, the token program,
-- Borsh, the swap venue and mpl-core are not in the repository: they are fields of `Runtime`,
-- `Programs` and `Core` with the documented behaviour that is used, namely that different seeds
-- have different addresses, that no wallet has such an address, that a transfer moves its amount,
-- that an account is created only where there are no lamports, and that mpl-core takes lamports
-- from its payer alone. The venue is assumed to honour the least output only where a theorem says
-- so. A constraint on a derived account with a stored bump is a test of that bump against the
-- derived one.
--
-- Not modelled: the entry points of lib.rs, the tests and the build files. The steps of Game/Steps
-- are all the instructions but initialize, from which the histories start, and burn_tokens, which
-- invokes a venue with the burn vault's signature and has a theorem of its own.
pub mod Base
pub mod Outcome
pub mod Constants
pub mod State
pub mod Pure
pub mod Runtime
pub mod Events
pub mod Programs
pub mod World
pub mod Initialize
pub mod Challenge
pub mod Settle
pub mod ClaimRefund
pub mod WithdrawTreasury
pub mod SetupToken
pub mod PromoteBurnVenue
pub mod TeamVesting
pub mod DbcCpi
pub mod BurnTokens
pub mod WinNft
pub mod Game
pub mod Examples
