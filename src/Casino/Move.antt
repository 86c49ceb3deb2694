-- ===== src/Casino/Move.antt =====
-- `handle_casino_game_move`: one move of a game, for any games that the host provides.
pub mod Books
pub mod Laws
pub mod Completion
pub mod House
pub mod Frame
use supersociety_battleware.Base.{
  ℕ, ℤ, pos, negsuc, ◌+ℤ◌, ◌-ℤ◌, ◌+◌, ◌-◌, ◌^◌, ltb, ltb_ℤ, leb_ℤ, ◌==◌, sat_add, to_u64_or_zero,
  neg, Bool, true, false, not, ◌&&◌, ◌||◌, Option, none, some, List, [], ◌∷◌, if◌then◌else◌,
}
use supersociety_battleware.Types.{
  PublicKey, Event, Key, Value, Player, GameSession, error_insufficient_funds,
  error_session_not_found, error_session_not_owned, error_session_complete, error_invalid_move,
}
use supersociety_battleware.Layer.{
  Layer, M, ◌>>=◌, ◌>>◌, pure, exit, panic, return_if, or_return, when, put, look, checked, handler,
  player_at, session_at,
}
use supersociety_battleware.Casino.Interface.{
  Host, GameResult, MoveResult, moved, failed, crashed, new_rng, process_game_move,
}
use supersociety_battleware.Casino.Funds.{
  stack_of, set_stack, update_house_pnl, update_leaderboard_for_session,
}
use supersociety_battleware.Casino.Players.{casino_error}
use supersociety_battleware.Casino.Progressive.{apply_progressive_meters}
use supersociety_battleware.Casino.Settle.{
  book_profit, save_player, deduct, charge_extra, credit, settle_win, settle_push, settle_loss,
  settle_loss_extra, settle_loss_pre,
}

-- The session and the generator's moves: an error or a panic of the game, or its result.
abbrev pub play : PublicKey → ℕ → MoveResult → M (GameResult × GameSession)
play public session_id (moved result session) = pure (result, session)
play public session_id (failed e) = exit (casino_error public (some session_id) error_invalid_move)
play public session_id crashed = panic

abbrev pub save_session : ℕ → GameSession → M (Unit {0})
save_session session_id session = put (Key.casino_session session_id) (Value.casino_session session)

abbrev pub complete_session : GameSession → GameSession
complete_session session = record session { is_complete = true }

-- `payout.checked_neg()` as a `u64`, with 0 for what has no negation.
abbrev pub deduction_of : ℤ → ℕ
deduction_of (pos n) = 0
deduction_of (negsuc n) = if ltb (n + 1) (2 ^ 63) then n + 1 else 0

-- A bet during the game: it is deducted, with its fee.
abbrev pub place_bet : PublicKey → ℕ → GameSession → ℕ → Player → M Player
place_bet public session_id session deduction player = do
  return_if (deduction == 0) (casino_error public (some session_id) error_insufficient_funds)
  deduct public session_id session deduction player

-- A payout during the game.
abbrev pub pay_out : GameSession → ℕ → Player → M Player
pay_out session addition player = do
  when (not session.is_tournament && ltb 0 addition) (update_house_pnl (neg addition))
  pure (credit session addition player)

abbrev pub apply_update : PublicKey → ℕ → GameSession → ℤ → Player → M Player
apply_update public session_id session (pos n) player = pay_out session n player
apply_update public session_id session (negsuc n) player =
    place_bet public session_id session (deduction_of (negsuc n)) player

-- `ContinueWithUpdate`, for the player if there is one.
unfoldable pub update_balance : PublicKey → ℕ → GameSession → ℤ → Option Player → M (Unit {0})
update_balance public session_id session payout none = pure tt
update_balance public session_id session payout (some player) = do
  player' ← apply_update public session_id session payout player
  save_player session public player'

abbrev pub one_event : M Event → M (List Event)
one_event m = do event ← m; pure (event ∷ [])

-- The result after the extra deduction of a win: charged first, so that a failure changes nothing.
unfoldable pub finish_win_extra :
    PublicKey → ℕ → GameSession → ℕ → ℕ → Option Player → M (List Event)
finish_win_extra public session_id session payout extra none = do
  save_session session_id (complete_session session)
  pure []
finish_win_extra public session_id session payout extra (some player) = do
  charged ← charge_extra public session_id session extra player
  save_session session_id (complete_session session)
  one_event (settle_win public session_id (complete_session session) payout charged)

unfoldable pub finish_loss_pre_extra :
    PublicKey → ℕ → GameSession → ℕ → ℕ → Option Player → M (List Event)
finish_loss_pre_extra public session_id session total_loss extra none = do
  save_session session_id (complete_session session)
  pure []
finish_loss_pre_extra public session_id session total_loss extra (some player) = do
  charged ← charge_extra public session_id session extra player
  save_session session_id (complete_session session)
  one_event (settle_loss_pre public session_id (complete_session session) total_loss charged)

abbrev pub settle_if : (Player → M Event) → Option Player → M (List Event)
settle_if settle none = pure []
settle_if settle (some player) = one_event (settle player)

-- The other ends: the completed session is written before anything else.
unfoldable pub finish :
    PublicKey → ℕ → GameSession → (GameSession → Player → M Event) → M (List Event)
finish public session_id session settle = do
  save_session session_id (complete_session session)
  player ← look (player_at public)
  settle_if (settle (complete_session session)) player

-- The arms of the handler: the events after the first.
unfoldable pub apply_result : PublicKey → ℕ → GameSession → GameResult → M (List Event)
apply_result public session_id session GameResult.continue = do
  save_session session_id session
  pure []
apply_result public session_id session (GameResult.continue_with_update payout) = do
  update_balance public session_id session payout (← look (player_at public))
  save_session session_id session
  pure []
apply_result public session_id session (GameResult.win payout) =
    finish public session_id session (λ s p. settle_win public session_id s payout p)
apply_result public session_id session (GameResult.win_with_extra_deduction payout extra) = do
  finish_win_extra public session_id session payout extra (← look (player_at public))
apply_result public session_id session GameResult.push =
    finish public session_id session (λ s p. settle_push true public session_id s p)
apply_result public session_id session GameResult.loss =
    finish public session_id session (λ s p. settle_loss public session_id s p)
apply_result public session_id session (GameResult.loss_with_extra_deduction extra) =
    finish public session_id session (λ s p. settle_loss_extra public session_id s extra p)
apply_result public session_id session (GameResult.loss_pre_deducted total_loss) =
    finish public session_id session (λ s p. settle_loss_pre public session_id s total_loss p)
apply_result public session_id session
      (GameResult.loss_pre_deducted_with_extra_deduction total_loss extra) =
    do finish_loss_pre_extra public session_id session total_loss extra (← look (player_at public))

pub handle_casino_game_move : Host → PublicKey → ℕ → List ℕ → M (List Event)
handle_casino_game_move host public session_id payload = handler do
  session ←
      or_return (← look (session_at session_id))
        (casino_error public (some session_id) error_session_not_found)
  return_if (not (session.player == public))
      (casino_error public (some session_id) error_session_not_owned)
  return_if session.is_complete (casino_error public (some session_id) error_session_complete)
  move_number ← checked 32 (session.move_count + 1)
  rng ← look (λ (l : Layer). new_rng host l.seed session_id move_number)
  outcome ←
      play public session_id
        (process_game_move host (record session { move_count = move_number }) payload rng)
  result ← apply_progressive_meters outcome.1 outcome.0
  events ← apply_result public session_id outcome.1 result
  pure (Event.casino_game_moved session_id outcome.1.move_count outcome.1.state_blob ∷ events)
