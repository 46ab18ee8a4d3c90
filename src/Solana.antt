-- ===== src/Solana.antt =====
-- The timing of src/solana/regime.rs, which the Solana runner uses in place of src/strategy/mod.rs.
pub mod Signals
pub mod Averages
pub mod Regime
