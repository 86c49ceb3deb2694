-- ===== src/Casino.antt =====
-- execution/src/layer/handlers/casino.rs, with what it calls of execution/src/casino.
pub mod Interface
pub mod Aura
pub mod Funds
pub mod Players
pub mod Progressive
pub mod Settle
pub mod Move
pub mod Start
pub mod Tournaments
pub mod Rng
pub mod Ending
pub mod Multipliers
