-- ===== src/Liquidity.antt =====
-- execution/src/layer/handlers/liquidity.rs: vaults and the exchange pool, in the children.
pub mod Vaults
pub mod Sqrt
pub mod Pool
