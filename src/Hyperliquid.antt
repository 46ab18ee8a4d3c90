-- ===== src/Hyperliquid.antt =====
-- src/hyperliquid: the orders that are sent to the exchange, and what is known of them.
pub mod Json
pub mod Store
pub mod Journal
pub mod Ledger
pub mod Presence
pub mod Acknowledged
pub mod Recovery
pub mod Ownership
pub mod History
pub mod Soundness
pub mod Runs
pub mod Course
pub mod Exchange
pub mod Hedge
pub mod Interrupted
pub mod Samples
mod Examples
mod SendingExamples
