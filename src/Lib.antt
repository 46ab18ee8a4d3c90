-- ===== src/Lib.antt =====
-- LpMaker keeps liquidity in a concentrated pool, hedges the base asset with a perpetual, and withdraws
-- when the market turns. This library models its decisions and the EVM parts that they go through.
--
-- The parts of the program. A runner (src/engine, src/solana/runner.rs) reads a market frame, asks the
-- strategy for a decision, and carries it out: liquidity through src/liquidity, the hedge through
-- src/hyperliquid. All calls to an EVM node pass the gate of src/evm/rpc/limit.rs, and each transaction
-- takes its fees from src/evm/fees.rs.
--
--   Base      shared names: Boolean tests, lists, results, machine words and integers
--   Float     a 64-bit float, as a record of operations over any type
--   Domain    src/domain.rs: the market frame, the portfolio, the intents
--   Math      src/math.rs: the amounts of a range
--   Config    src/config.rs: the settings and their defaults in State, `Config::validate` in Validate and
--             Endpoints, the checks of the profiles in src/strategy/eth in Profile. Passed says what each
--             group of checks leaves, Guarantees what the strategy and the engine may rely on.
--   Runtime   src/runtime.rs: the age of an observation, the record of health, and the loop that retries
--             reads, with what is proved of it in Retries
--   Strategy  src/strategy: Strategy.State has the state and the settings of src/config.rs that are
--             read, Indicators is indicators.rs, Progress is progress.rs. `Strategy::evaluate_inner` of
--             mod.rs is the composition, in Evaluate, of the blocks in Market (data, drawdown, market),
--             Phases (healthy hours, phases) and Breakout (bars, layers, hedge target). Blocks and Cases
--             hold what each block and each way through the function does; Windows, Halting, Deployment,
--             Resumption and Hours hold theorems. Strategy.Eth is src/strategy/eth: Feature has the hourly
--             features and the guard, Steps what both state machines share, Persistent the one without a
--             band (mod.rs), Account, Risk and Band that of band.rs, Evaluate the entries, up to
--             `evaluate_with_continuity` of src/strategy/mod.rs; Clocks, Cases, Entries, Withdrawals,
--             Reentry, Holding, Lasting and Origin hold what is proved of them.
--   Evm       src/evm/fees.rs in Fees; src/evm/rpc/limit.rs in Limit, where Limit.Queue runs the callers
--             of a gate in any order; src/evm/nonce.rs in Nonce, where Nonce.Sender runs the writes of
--             `send` and `wait_receipt` of src/liquidity/uniswap_v3/tx.rs with refreshes and restarts
--   Engine    src/engine/entry_rearm.rs in EntryRearm, which asks the strategy under an operator's permit;
--             src/engine/paper.rs in Paper, Paper.Apply and Paper.Payments, the book of simulated
--             executions, of which Paper.Held, Paper.Layers and Paper.Funding hold what is proved; the
--             request for candles of src/engine/mod.rs in Feed
--   Hyperliquid  the order journal of src/hyperliquid/journal.rs in Journal and Journal.Reconcile, the
--             search for an order in doubt of src/hyperliquid/order_recovery.rs in Recovery, the files
--             of src/store.rs that they use in Store, JSON values in Json. History runs the operations
--             in any order; Soundness, Runs, Ownership, Recovery.Writes, Recovery.Final and
--             Recovery.Evidence hold what is proved, Ledger, Presence and Acknowledged the lemmas
--             on the map of orders. Exchange is `exchange_inner` of src/hyperliquid/mod.rs over the
--             moments of Course; Hedge has the cancellation and the synchronization of
--             src/hyperliquid/hedge.rs, Interrupted its `reconcile`. Exchange.Ahead, Exchange.Recorded,
--             Hedge.Settled, Hedge.Synced and Interrupted.Retained hold what is proved of them.
--   Solana    src/solana/regime.rs: the settings and the signals of the completed hours in Signals, the
--             decision in Regime, which shares the state, the indicators and the drawdown of Strategy.
--             Signals.Latest, Regime.Entries, Regime.Waits, Regime.Dangers and Averages hold what is
--             proved
--   Recovery  src/recovery.rs: the entry history after a restart, and the waiting after an interruption
--   Liquidity src/liquidity/uniswap_v3/slippage.rs in Slippage: price bounds and least amounts;
--             src/liquidity/uniswap_v3/dust.rs in Dust: what may stay behind after an exit;
--             src/liquidity/chains in Chains: the registered pools and the check against them
--
-- How the code is modelled.
--   * A method that changes `self` returns the new state. `Result` is `err` with a message, or `ok`.
--   * An f64 is a value of a type `W` with the operations of the record F64, none of which has a law: the
--     theorems hold for the rounded arithmetic of the hardware, NaN and infinity included.
--   * An unsigned integer is a natural number. A product or sum of u64 that may overflow wraps, as in a
--     release build; checked and saturating operations are written out. u128 fees are checked
--     as in the code. Times of the strategy are milliseconds, those of the gate nanoseconds.
--   * Texts that the code only makes and compares (reasons, causes, events) are constructors with the
--     numbers that the text shows. The name of a phase in a decision is the phase.
--   * A BTreeMap is an association list. The ledger of orders keeps the order of its keys, on which the
--     search by number depends; no other modelled code depends on an order.
--   * JSON values are any type with the operations of the record Json, none of which has a law. What the
--     exchange answers is a function of the attempt and the query, so it may change between them. The one
--     theorem that reads back what the program wrote names what serde_json promises as the hypothesis
--     `ReadsBack`.
--   * A call of the exchange is the list of the moments at which it may stop: what is on disk after each
--     write, and whether the request has left. The signature, the check of the signer and the answer of
--     the exchange are arguments.
--   * How the libraries read a URL or an address is the argument `Parsers` of `Config::validate`.
--   * The replies of the node are an argument of `estimate`; the callers of the gate are a list of events.
--   * The files of src/store.rs are a record; a method that writes one returns what it writes, and the
--     writes of a send are steps, between which anything else may happen. A write happens whole or not at
--     all, as the code renames a finished file.
--   * U256 and U512 are natural numbers with the checks of the code; the integer square root of their
--     library is a parameter, with what it promises as the hypothesis `IsRoot`; so are the decimal texts
--     of these numbers, with the hypothesis `RoundTrips` that what is written is read back.
--   * Loops are recursion on the list they read; the five attempts of the search for an order are counted
--     down, and the code makes no more of them. Only the retries of reads, which the code does not bound,
--     have fuel; one more than the reads that fail is enough.
--
-- What is not modelled: the loops of the runners, the venues and their transports, the size of a hedge and
-- the wire format of its order, the ticks of a price, the display, the reset and the migration of an
-- account; and of src/solana the bins of the pool, the journal of signed transactions and the research.
pub mod Base
pub mod Float
pub mod Config
pub mod Runtime
pub mod Solana
pub mod Domain
pub mod Math
pub mod Evm
pub mod Strategy
pub mod Engine
pub mod Hyperliquid
pub mod Recovery
pub mod Liquidity
