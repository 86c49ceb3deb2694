-- ===== src/Types/Tournaments.antt =====
-- types/src/casino/leaderboard.rs and types/src/casino/tournament.rs: the data.
use supersociety_battleware.Base.{ℕ, List, []}
use supersociety_battleware.Types.Constants.{PublicKey}

pub record LeaderboardEntry : Type 0 where
  pub player : PublicKey
  pub name : List ℕ
  pub chips : ℕ
  pub rank : ℕ

pub record CasinoLeaderboard : Type 0 where
  pub entries : List LeaderboardEntry

-- `CasinoLeaderboard::default()`
abbrev pub default_leaderboard : CasinoLeaderboard
default_leaderboard = record { entries = [] }

pub data TournamentPhase : Type 0 where
  registration active complete : TournamentPhase

pub record Tournament : Type 0 where
  pub id : ℕ
  pub phase : TournamentPhase
  pub start_block : ℕ
  pub start_time_ms : ℕ
  pub end_time_ms : ℕ
  pub players : List PublicKey
  pub prize_pool : ℕ
  pub starting_chips : ℕ
  pub starting_shields : ℕ
  pub starting_doubles : ℕ
  pub leaderboard : CasinoLeaderboard
