-- ===== src/Tests.antt =====
-- The theorems at concrete inputs.
mod Data
mod Casino
mod Liquidity
mod Economy
mod Rng
mod Mempool
mod Wire
mod Codec
mod Chain
mod Games
