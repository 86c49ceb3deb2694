-- ===== src/Tests/Casino.antt =====
-- The games, the players and the tournaments at concrete inputs.
use supersociety_battleware.Tests.Data.{
  alice, rich, player_layer, session, session_layer, lucky_game, stubborn_game, host_of,
}
use supersociety_battleware.Base.{◌≡◌, refl, true, [], arith}
use supersociety_battleware.Types.{GameType}
use supersociety_battleware.Layer.{
  Ensures, Leaves, player_at, vault_at, staker_at, session_at, tournament_at, house_at, amm_at,
  lp_balance_at, pending_get, get,
}
use supersociety_battleware.Casino.Interface.{GameResult}
use supersociety_battleware.Casino.Progressive.{apply_progressive_meters}
use supersociety_battleware.Casino.Settle.Books.{books_at, Balances}
use supersociety_battleware.Casino.Move.{apply_result, handle_casino_game_move}
use supersociety_battleware.Casino.Move.Books.{apply_result-Balances}
use supersociety_battleware.Casino.Move.House.{handle_casino_game_move-books}
use supersociety_battleware.Casino.Move.Completion.{ends, Completes, apply_result-Completes}
use supersociety_battleware.Casino.Start.{handle_casino_start_game}
use supersociety_battleware.Casino.Start.Laws.{handle_casino_start_game-books}

handle_casino_game_move-books_example :
    Ensures
      (handle_casino_game_move (host_of lucky_game) alice 1 ([]) session_layer)
      (λ events l'. books_at alice l' ≡ books_at alice session_layer)
unfolding amm_at player_at house_at lp_balance_at vault_at staker_at session_at tournament_at get
    pending_get apply_progressive_meters
handle_casino_game_move-books_example =
    handle_casino_game_move-books (host_of lucky_game) alice 1 session
      (record session { is_complete = true; move_count = 1 }) (GameResult.win 300)
      (GameResult.win 300) ([]) rich session_layer session_layer refl refl (omega arith) refl refl
      refl refl (omega arith)

apply_result-Balances_example :
    Leaves
      (apply_result alice 1 session (GameResult.win_with_extra_deduction 300 50) session_layer)
      (Balances alice rich session_layer)
unfolding amm_at player_at house_at lp_balance_at vault_at staker_at session_at tournament_at get
    pending_get
apply_result-Balances_example =
    apply_result-Balances alice 1 session (GameResult.win_with_extra_deduction 300 50) rich
      session_layer refl refl (omega arith)

apply_result-Completes_example :
    Completes 1 session (apply_result alice 1 session (GameResult.win 300) session_layer)
unfolding ends
apply_result-Completes_example =
    apply_result-Completes alice 1 session (GameResult.win 300) session_layer refl

handle_casino_start_game-books_example :
    Ensures
      (handle_casino_start_game (host_of stubborn_game) alice GameType.hi_lo 100 2 player_layer)
      (λ events l'. books_at alice l' ≡ books_at alice player_layer)
unfolding amm_at player_at house_at lp_balance_at vault_at staker_at session_at tournament_at get
    pending_get
handle_casino_start_game-books_example =
    handle_casino_start_game-books (host_of stubborn_game) alice GameType.hi_lo 100 2 rich
      player_layer (record { keeps = λ s r. refl; fits = λ s r. tt }) refl refl
