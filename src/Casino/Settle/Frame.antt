-- ===== src/Casino/Settle/Frame.antt =====
-- The ends of a game leave the accounts alone.
use supersociety_battleware.Base.{ℕ, zero, suc, Bool, false, ◌≡◌, refl, arith}
use supersociety_battleware.Types.{Key, Value, PublicKey, Player, GameSession}
use supersociety_battleware.Layer.{insert, Outcome, done, returned, panicked, Layer, Leaves}
use supersociety_battleware.Layer.Frame.{IsSound, Keeps, frame_laws}
use supersociety_battleware.Casino.Aura.{aura_after_completion}
use supersociety_battleware.Casino.Funds.{clear_modifiers}
use supersociety_battleware.Casino.Settle.{
  save_player, use_shield, charge_extra, deduct, settle_win, settle_push, settle_loss,
  settle_loss_extra, settle_loss_pre,
}
use supersociety_battleware.Casino.Funds.Frame.{
  when-update_house_pnl-Keeps, update_leaderboard_for_session-Keeps,
}

pub deduct-Keeps :
    (q : PublicKey) (p : PublicKey) (id : ℕ) (session : GameSession) (amount : ℕ) (player : Player)
    (l : Layer)
    → IsSound l
    → Leaves (deduct p id session amount player l) (Keeps q l)
unfolding deduct
deduct-Keeps q p id session amount player l s =
    grind (arith, frame_laws, when-update_house_pnl-Keeps q, update_leaderboard_for_session-Keeps q)

-- The player is written, then the board.
saved-Keeps :
    (q p : PublicKey) (session : GameSession) (player : Player) (l : Layer)
    → IsSound l
    → Leaves (save_player session p player l) (Keeps q l)
saved-Keeps q p session player l s = grind (
  arith,
  frame_laws,
  update_leaderboard_for_session-Keeps q session p player
      (insert (Key.casino_player p) (Value.casino_player player) l),
)

pub settle_win-Keeps :
    (q : PublicKey) (p : PublicKey) (id : ℕ) (session : GameSession) (payout : ℕ) (player : Player)
    (l : Layer)
    → IsSound l
    → Leaves (settle_win p id session payout player l) (Keeps q l)
unfolding settle_win
settle_win-Keeps q p id session payout player l s =
    grind (arith, frame_laws, when-update_house_pnl-Keeps q, update_leaderboard_for_session-Keeps q)

pub settle_push-Keeps :
    (q : PublicKey) (after : Bool) (p : PublicKey) (id : ℕ) (session : GameSession)
    (player : Player) (l : Layer)
    → IsSound l
    → Leaves (settle_push after p id session player l) (Keeps q l)
unfolding settle_push
settle_push-Keeps q after p id session player l s =
    grind (arith, frame_laws, when-update_house_pnl-Keeps q, update_leaderboard_for_session-Keeps q)

pub settle_loss-Keeps :
    (q : PublicKey) (p : PublicKey) (id : ℕ) (session : GameSession) (player : Player) (l : Layer)
    → IsSound l
    → Leaves (settle_loss p id session player l) (Keeps q l)
unfolding settle_loss
settle_loss-Keeps q p id session player l s =
    grind (arith, frame_laws, when-update_house_pnl-Keeps q, update_leaderboard_for_session-Keeps q)

pub charge_extra-Keeps :
    (q p : PublicKey) (id : ℕ) (session : GameSession) (extra : ℕ) (player : Player) (l : Layer)
    → IsSound l
    → Leaves (charge_extra p id session extra player l) (Keeps q l)
charge_extra-Keeps q p id session extra player l s =
    grind (arith, deduct-Keeps q p id session extra player l)

-- The rest, by the outcome of the extra deduction.
after_deduction :
    (q p : PublicKey) (id : ℕ) (session : GameSession) (extra : ℕ) (player : Player) (l : Layer)
    (o : Outcome Player)
    → deduct p id session (suc extra) (use_shield session player) l ≡ o
    → Leaves o (Keeps q l)
    → Leaves (settle_loss_extra p id session (suc extra) player l) (Keeps q l)
unfolding settle_loss_extra
after_deduction q p id session extra player l (done charged l1) e h = grind (
  arith,
  saved-Keeps q p session (aura_after_completion (clear_modifiers charged) session false) l1 h.2,
)
after_deduction q p id session extra player l (returned events l1) e h = grind arith
after_deduction q p id session extra player l panicked e h = grind arith

pub settle_loss_extra-Keeps :
    (q : PublicKey) (p : PublicKey) (id : ℕ) (session : GameSession) (extra : ℕ) (player : Player)
    (l : Layer)
    → IsSound l
    → Leaves (settle_loss_extra p id session extra player l) (Keeps q l)
unfolding settle_loss_extra
settle_loss_extra-Keeps q p id session zero player l s = grind (arith, saved-Keeps q p session)
settle_loss_extra-Keeps q p id session (suc extra) player l s =
    after_deduction q p id session extra player l
      (deduct p id session (suc extra) (use_shield session player) l) refl
      (deduct-Keeps q p id session (suc extra) (use_shield session player) l s)

pub settle_loss_pre-Keeps :
    (q : PublicKey) (p : PublicKey) (id : ℕ) (session : GameSession) (loss : ℕ) (player : Player)
    (l : Layer)
    → IsSound l
    → Leaves (settle_loss_pre p id session loss player l) (Keeps q l)
unfolding settle_loss_pre
settle_loss_pre-Keeps q p id session loss player l s =
    grind (arith, frame_laws, when-update_house_pnl-Keeps q, update_leaderboard_for_session-Keeps q)
