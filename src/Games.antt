-- ===== src/Games.antt =====
-- The games of execution/src/casino.
pub mod Session
pub mod HiLo
pub mod CasinoWar
