-- ===== src/Casino/Interface.antt =====
-- The interface between the handlers and the games (execution/src/casino/mod.rs): the results of
-- games, the trait `CasinoGame`, the dispatch by kind of game, and the seeding of the generator.
use supersociety_battleware.Base.{ℕ, zero, suc, ℤ, ◌/◌, ◌%◌, ◌^◌, List, [], ◌∷◌, ◌++◌}
use supersociety_battleware.Types.{GameType, GameSession, SuperMultiplier}
use supersociety_battleware.Layer.{Seed}

pub data GameResult : Type 0 where
  continue : GameResult
  continue_with_update : ℤ → GameResult
  win : ℕ → GameResult
  -- The payout and the extra deduction.
  win_with_extra_deduction : ℕ → ℕ → GameResult
  loss : GameResult
  loss_with_extra_deduction : ℕ → GameResult
  loss_pre_deducted : ℕ → GameResult
  -- The total loss and the extra deduction.
  loss_pre_deducted_with_extra_deduction : ℕ → ℕ → GameResult
  push : GameResult

pub data GameError : Type 0 where
  invalid_payload invalid_move game_already_complete invalid_state deck_exhausted : GameError

-- What a move of a game gives: a result and the new session, an error, or a panic.
pub data MoveResult : Type 0 where
  moved : GameResult → GameSession → MoveResult
  failed : GameError → MoveResult
  crashed : MoveResult

pub record GameRng : Type 0 where
  pub state : List ℕ
  pub index : ℕ

-- The trait `CasinoGame`. The generator is used up by the call.
pub record CasinoGame : Type 0 where
  pub init : GameSession → GameRng → GameResult × GameSession
  pub process_move : GameSession → List ℕ → GameRng → MoveResult

-- What the handlers are given: SHA-256, the games, and the multipliers of the super mode.
pub record Host : Type 0 where
  pub sha256 : List ℕ → List ℕ
  pub game : GameType → CasinoGame
  pub super_multipliers : GameType → GameRng → List SuperMultiplier

-- `x.to_be_bytes()`, for a word of `n` bytes.
unfoldable pub to_be_bytes : ℕ → ℕ → List ℕ
to_be_bytes zero x = []
to_be_bytes (suc n) x = (x / 256 ^ n % 256) ∷ to_be_bytes n x

-- `GameRng::new`
pub new_rng : Host → Seed → ℕ → ℕ → GameRng
unfolding to_be_bytes
new_rng host seed session_id move_number = record {
  state = host.sha256 (seed.encoded ++ (to_be_bytes 8 session_id ++ to_be_bytes 4 move_number));
  index = 0;
}

-- `init_game`
abbrev pub init_game : Host → GameSession → GameRng → GameResult × GameSession
init_game host session rng = (host.game session.game_type).init session rng

-- `process_game_move`
abbrev pub process_game_move : Host → GameSession → List ℕ → GameRng → MoveResult
process_game_move host session payload rng =
    (host.game session.game_type).process_move session payload rng
