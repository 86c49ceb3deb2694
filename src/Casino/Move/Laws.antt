-- ===== src/Casino/Move/Laws.antt =====
-- Who may make a move, and what a move that is refused leaves behind.
use supersociety_battleware.Base.{
  ℕ, ◌+◌, ◌<◌, ◌^◌, ◌≡◌, ◌==◌, not, Option, none, some, List, arith, if◌then◌else◌,
}
use supersociety_battleware.Types.{
  PublicKey, GameSession, error_session_not_found, error_session_not_owned, error_session_complete,
  error_invalid_move,
}
use supersociety_battleware.Layer.{Layer, done, session_at}
use supersociety_battleware.Casino.Interface.{
  Host, GameError, MoveResult, failed, new_rng, process_game_move,
}
use supersociety_battleware.Casino.Players.{casino_error}
use supersociety_battleware.Casino.Move.{handle_casino_game_move}

-- Why a move is refused before the game sees it, from the session that is stored.
abbrev pub refusal : PublicKey → Option GameSession → Option ℕ
refusal p none = some error_session_not_found
refusal p (some session) =
    if not (session.player == p)
    then some error_session_not_owned
    else if session.is_complete
    then some error_session_complete
    else none

-- A move in a session that is missing, of another player or complete is reported, and changes
-- nothing, whatever the games do.
pub handle_casino_game_move_refused :
    (host : Host) (p : PublicKey) (id code : ℕ) (payload : List ℕ) (l : Layer)
    → refusal p (session_at id l) ≡ some code
    → handle_casino_game_move host p id payload l ≡ done (casino_error p (some id) code) l
unfolding handle_casino_game_move
handle_casino_game_move_refused host p id code payload l refused = grind arith

-- The move's session, with the move counted, and the generator's seed: this is what the game sees.
abbrev pub played : Host → ℕ → GameSession → List ℕ → Layer → MoveResult
played host id session payload l =
    process_game_move host (record session { move_count = session.move_count + 1 }) payload
      (new_rng host l.seed id (session.move_count + 1))

-- A move that the game itself refuses, in a session of the player that is not complete, changes
-- nothing: the count of moves is not stored.
pub handle_casino_game_move_invalid :
    (host : Host) (p : PublicKey) (id : ℕ) (session : GameSession) (payload : List ℕ)
    (e : GameError) (l : Layer)
    → session_at id l ≡ some session
    → refusal p (some session) ≡ none
    → session.move_count + 1 < 2 ^ 32
    → played host id session payload l ≡ failed e
    → handle_casino_game_move host p id payload l
      ≡ done (casino_error p (some id) error_invalid_move) l
unfolding handle_casino_game_move
handle_casino_game_move_invalid host p id session payload e l at admitted room refused = grind arith
