-- ===== src/Casino/Move/Frame.antt =====
-- A move of a game leaves the accounts alone.
use supersociety_battleware.Base.{ℕ, ℤ, Option, List, arith}
use supersociety_battleware.Types.{PublicKey, Player, GameSession}
use supersociety_battleware.Layer.{Layer, Leaves}
use supersociety_battleware.Layer.Frame.{IsSound, Keeps, frame_laws}
use supersociety_battleware.Casino.Move.{
  update_balance, finish_win_extra, finish_loss_pre_extra, apply_result, handle_casino_game_move,
  finish,
}
use supersociety_battleware.Casino.Funds.Frame.{
  when-update_house_pnl-Keeps, update_leaderboard_for_session-Keeps,
}
use supersociety_battleware.Casino.Settle.Frame.{
  charge_extra-Keeps, deduct-Keeps, settle_win-Keeps, settle_push-Keeps, settle_loss-Keeps,
  settle_loss_extra-Keeps, settle_loss_pre-Keeps,
}
use supersociety_battleware.Casino.Interface.{Host, GameResult}
use supersociety_battleware.Casino.Progressive.Frame.{apply_progressive_meters-Keeps}

pub update_balance-Keeps :
    (q : PublicKey) (p : PublicKey) (id : ℕ) (session : GameSession) (payout : ℤ)
    (player : Option Player) (l : Layer)
    → IsSound l
    → Leaves (update_balance p id session payout player l) (Keeps q l)
unfolding update_balance
update_balance-Keeps q p id session payout player l s = grind (
  arith,
  frame_laws,
  when-update_house_pnl-Keeps q,
  deduct-Keeps q,
  update_leaderboard_for_session-Keeps q,
)

pub finish_win_extra-Keeps :
    (q : PublicKey) (p : PublicKey) (id : ℕ) (session : GameSession) (payout : ℕ) (extra : ℕ)
    (player : Option Player) (l : Layer)
    → IsSound l
    → Leaves (finish_win_extra p id session payout extra player l) (Keeps q l)
unfolding finish_win_extra
finish_win_extra-Keeps q p id session payout extra player l s =
    grind (arith, frame_laws, charge_extra-Keeps q, settle_win-Keeps q)

pub finish_loss_pre_extra-Keeps :
    (q : PublicKey) (p : PublicKey) (id : ℕ) (session : GameSession) (loss : ℕ) (extra : ℕ)
    (player : Option Player) (l : Layer)
    → IsSound l
    → Leaves (finish_loss_pre_extra p id session loss extra player l) (Keeps q l)
unfolding finish_loss_pre_extra
finish_loss_pre_extra-Keeps q p id session loss extra player l s =
    grind (arith, frame_laws, charge_extra-Keeps q, settle_loss_pre-Keeps q)

pub apply_result-Keeps :
    (q : PublicKey) (p : PublicKey) (id : ℕ) (session : GameSession) (result : GameResult)
    (l : Layer)
    → IsSound l
    → Leaves (apply_result p id session result l) (Keeps q l)
unfolding apply_result finish
apply_result-Keeps q p id session result l s = grind (
  arith,
  frame_laws,
  settle_win-Keeps q,
  settle_push-Keeps q,
  settle_loss-Keeps q,
  settle_loss_extra-Keeps q,
  settle_loss_pre-Keeps q,
  update_balance-Keeps q,
  finish_win_extra-Keeps q,
  finish_loss_pre_extra-Keeps q,
)

pub handle_casino_game_move-Keeps :
    (q : PublicKey) (host : Host) (p : PublicKey) (id : ℕ) (payload : List ℕ) (l : Layer)
    → IsSound l
    → Leaves (handle_casino_game_move host p id payload l) (Keeps q l)
unfolding handle_casino_game_move
handle_casino_game_move-Keeps q host p id payload l s =
    grind (arith, frame_laws, apply_progressive_meters-Keeps q, apply_result-Keeps q)
