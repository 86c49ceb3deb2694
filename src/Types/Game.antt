-- ===== src/Types/Game.antt =====
-- types/src/casino/game.rs: the kinds of games, and the super mode of a session.
use supersociety_battleware.Base.{ℕ, Bool, false, List, []}

pub data GameType : Type 0 where
  baccarat blackjack casino_war craps video_poker hi_lo roulette sic_bo three_card : GameType
  ultimate_holdem : GameType

pub data SuperType : Type 0 where
  card number total rank suit : SuperType

pub record SuperMultiplier : Type 0 where
  pub id : ℕ
  pub multiplier : ℕ
  pub super_type : SuperType

pub record SuperModeState : Type 0 where
  pub is_active : Bool
  pub multipliers : List SuperMultiplier
  pub streak_level : ℕ

-- `SuperModeState::default()`
abbrev pub default_super_mode : SuperModeState
default_super_mode = record { is_active = false; multipliers = []; streak_level = 0 }
