-- ===== src/Lib.antt =====
-- The Quay integration of the Titan router. Paths are from the root of the repository.
--
-- The off-chain crate (src/) exposes one Quay strategy as a venue: it loads the strategy from an account
-- and refreshes it from an accounts cache, quotes it through the simulator of the Quay SDK, searches the
-- range of amounts that it quotes, builds its swap instruction, and turns that into a leg of a route. The
-- on-chain program (program-template/programs/titan-v3-venue-template/) takes the route, spends the user's
-- tokens leg by leg through an account of its own, TitanPDA, and pays out the result.
--
-- Files:
--   Prelude: lists, results, machine words, bits, byte strings and tests on the native numbers.
--   Solana: keys, accounts, account metas and instructions.
--   TradingVenue: src/trading_venue. Bounds is bounds.rs: find_boundaries_coarse is coarse_lower and
--     upper_phase, refine_lower and refine_upper are the loops of those names, find_boundaries the whole.
--     Interface is the trait TradingVenue, Error, Quote, TokenInfo, Protocol and Creation the data.
--   Quay: src/quay. Venue holds the struct QuayVenue and its gate initialized, Clock decode_clock, State
--     from_account and refresh_state, Price compute_quote, Swap build_swap_ix, Creation
--     parse_pool_creations, Trait the impl of TradingVenue, Lifecycle a venue over many refreshes, and
--     Range the trait's bounds on a venue.
--     Step is the shape of a method that may change the venue and may fail.
--   AccountCaching: src/account_caching/rpc_cache.rs; get_accounts returns its answer and the new cache.
--     History is a cache over many calls.
--   SwapRoute: src/swap_route/mod.rs; build_swap_leg, assemble_leg_accounts and
--     encode_swap_route_v3_data. Dispatch and Side relate it to the program and to the quotes,
--     Performed the legs that it builds to the calls that the program makes for them.
--   Program: the on-chain program. Route is execute of instructions/swap_route_v3.rs, in the stages
--     read_request, create_missing, take_balances and trade_and_settle; Reserves holds the two loops over
--     the balances, Trade the loop over the legs, Tokens the functions that create, fund, move and close
--     token accounts, Accounts the reads of accounts, Bitmap TitanPdaBitmap, Legs the amount and the
--     account metas of a leg. QuayCpi is instructions/venues/quay.rs, State is state.rs and error.rs, Entry
--     is lib.rs and instructions/initialize.rs. Route.Authority lists the calls that a route may make and
--     Calls is a sequence of them; Route.Closing, Route.Intake and Route.Payout are about the created accounts,
--     the input and the output, Intake.Setup and Intake.Wrapped about an input of lamports, Authority.Spent
--     about the input account and Authority.Bystander about the accounts that a route does not name. Ends is
--     a step that succeeds, and Route.Success what a route needs of its accounts and of the other programs,
--     stage by stage.
--     Runtime is the state that a handler works on: the accounts by key, so that a key that occurs twice
--     is one account, and the calls of other programs, which may change any account.
--   Tests: a strategy, its accounts and concrete runs.
--
-- Numbers are unbounded naturals with the wrap-around or the saturation of the source written out, bytes
-- are naturals, and a key is its 32 bytes as one number. The search for the quoting range recurs on the
-- accessibility of its interval, so it needs no fuel: a step of the first part doubles the interval's
-- upper end below 2^64, and a step of the second narrows an interval wider than 100.
--
-- Parameters: the Quay SDK (Sdk: decoders, address derivations, the simulator and the instruction
-- builder), the SPL crates (Spl, TokenIds), the RPC client (Rpc), the 64-bit floats (F64), the Borsh
-- bytes of a leg, the derivation of addresses (Derivation) and the effect of the calls of other programs
-- (Runtime). What a theorem needs of the other programs is a predicate of its own: ClosesOnly, CreatesOnly,
-- TakesOnly, OpensEmpty, which says that an account that is created where nothing was is empty, and
-- MovesExactly, which says that a transfer moves its whole amount, as it does for a mint without a transfer
-- fee; Wraps is the same of lamports moved into a token account; Obliging says that the two token programs
-- and the associated-token program do their work when what a call relies on is there, IsAccepted that the
-- venue trades a leg, IsFair that the trade takes no more than it should; Serves says that the RPC client
-- answers from a ledger, and IsBorsh how Borsh lays out a leg. Not modelled: the texts of errors, logging,
-- allocation, concurrent use of the cache, and the constraints on accounts that the framework checks before
-- a handler.
pub mod Prelude
pub mod Solana
pub mod TradingVenue
pub mod AccountCaching
pub mod Quay
pub mod SwapRoute
pub mod Program
pub mod Tests
