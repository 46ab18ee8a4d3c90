-- ===== src/Evm.antt =====
-- src/evm: the transaction fees, the shared gate in front of the RPC and the nonces.
pub mod Fees
pub mod Limit
pub mod Nonce
