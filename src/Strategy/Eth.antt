-- ===== src/Strategy/Eth.antt =====
-- src/strategy/eth: the persistent position in ETH, alone or with the band of src/strategy/eth/band.rs.
pub mod State
pub mod Feature
pub mod Steps
pub mod Persistent
pub mod Account
pub mod Risk
pub mod Band
pub mod Evaluate
pub mod Clocks
pub mod Cases
pub mod Entries
pub mod Withdrawals
pub mod Reentry
pub mod Holding
pub mod Lasting
pub mod Origin
pub mod Samples
mod Examples
