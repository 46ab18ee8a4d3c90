-- ===== src/Strategy.antt =====
-- src/strategy: the state machine that decides when liquidity is deployed, kept and withdrawn.
pub mod Eth
pub mod State
pub mod Indicators
pub mod Windows
pub mod Progress
pub mod Market
pub mod Breakout
pub mod Phases
pub mod Evaluate
pub mod Blocks
pub mod Cases
pub mod Halting
pub mod Deployment
pub mod Resumption
pub mod Hours
pub mod Samples
mod Examples
