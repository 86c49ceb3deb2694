-- ===== src/Casino/Start/Frame.antt =====
-- The start of a game leaves the accounts alone.
use supersociety_battleware.Base.{ℕ, Option, arith}
use supersociety_battleware.Types.{PublicKey, Player, GameSession, GameType}
use supersociety_battleware.Layer.{Layer, Leaves}
use supersociety_battleware.Layer.Frame.{IsSound, Keeps, frame_laws}
use supersociety_battleware.Casino.Start.{
  settle_start, begin_game, open_session, handle_casino_start_game,
}
use supersociety_battleware.Casino.Funds.Frame.{
  when-update_house_pnl-Keeps, update_leaderboard_for_session-Keeps,
}
use supersociety_battleware.Casino.Settle.Frame.{
  settle_win-Keeps, settle_push-Keeps, settle_loss-Keeps,
}
use supersociety_battleware.Casino.Interface.{Host, GameResult}
use supersociety_battleware.Casino.Start.Laws.{start_super-SameKind}

pub settle_start-Keeps :
    (q : PublicKey) (p : PublicKey) (id : ℕ) (session : GameSession) (result : GameResult)
    (l : Layer)
    → IsSound l
    → Leaves (settle_start p id session result l) (Keeps q l)
unfolding settle_start
settle_start-Keeps q p id session result l s =
    grind (arith, frame_laws, settle_win-Keeps q, settle_push-Keeps q, settle_loss-Keeps q)

pub begin_game-Keeps :
    (q : PublicKey) (host : Host) (p : PublicKey) (game_type : GameType) (bet : ℕ) (id : ℕ)
    (player : Player) (session : GameSession) (l : Layer)
    → IsSound l
    → Leaves (begin_game host p game_type bet id player session l) (Keeps q l)
unfolding begin_game
begin_game-Keeps q host p game_type bet id player session l s =
    grind (arith, frame_laws, update_leaderboard_for_session-Keeps q, settle_start-Keeps q)

pub open_session-Keeps :
    (q : PublicKey) (host : Host) (p : PublicKey) (game_type : GameType) (bet : ℕ) (id : ℕ)
    (tournament : Option ℕ) (player : Player) (l : Layer)
    → IsSound l
    → Leaves (open_session host p game_type bet id tournament player l) (Keeps q l)
unfolding open_session
open_session-Keeps q host p game_type bet id tournament player l s =
    grind
      (arith, frame_laws, when-update_house_pnl-Keeps q, start_super-SameKind, begin_game-Keeps q)

pub handle_casino_start_game-Keeps :
    (q : PublicKey) (host : Host) (p : PublicKey) (game_type : GameType) (bet : ℕ) (id : ℕ)
    (l : Layer)
    → IsSound l
    → Leaves (handle_casino_start_game host p game_type bet id l) (Keeps q l)
unfolding handle_casino_start_game
handle_casino_start_game-Keeps q host p game_type bet id l s =
    grind (arith, frame_laws, open_session-Keeps q)
