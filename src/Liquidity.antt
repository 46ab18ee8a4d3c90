-- ===== src/Liquidity.antt =====
-- src/liquidity: the arithmetic of the pools.
pub mod Slippage
pub mod Dust
pub mod Chains
