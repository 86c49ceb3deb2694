-- ===== src/Casino/Move/Books.antt =====
-- Every result of a move in a cash game, with what it does to the player and to the house.
use supersociety_battleware.Base.{
  ℕ, ℤ, pos, negsuc, ◌+◌, ◌*◌, ◌^◌, ◌<◌, ◌≡◌, pos_part, false, some, arith, int_laws,
}
use supersociety_battleware.Types.{PublicKey, Player, GameSession, Event}
use supersociety_battleware.Layer.{Layer, Outcome, Leaves, player_at, view_laws}
use supersociety_battleware.Casino.Interface.{GameResult}
use supersociety_battleware.Casino.Settle.Books.{
  Balances, chips_laws, when-update_house_pnl, update_leaderboard_for_session_lem, deduct-Deducts,
  chips-credit, charge_extra-Deducts, settle_win-Balances, settle_push-Balances,
  settle_loss-Balances, settle_loss_extra-Balances, settle_loss_pre-Balances,
}
use supersociety_battleware.Casino.Move.{
  complete_session, update_balance, finish_win_extra, finish_loss_pre_extra, finish, apply_result,
}

-- What a result adds does not make the stack overflow, where the code's additions would stop.
abbrev pub Fits : ℕ → ℕ → GameResult → Type 0
Fits chips bet GameResult.continue = Unit
Fits chips bet (GameResult.continue_with_update z) = chips + pos_part z < 2 ^ 63
Fits chips bet (GameResult.win n) = chips + 2 * n < 2 ^ 63
Fits chips bet (GameResult.win_with_extra_deduction n _) = chips + 2 * n < 2 ^ 63
Fits chips bet GameResult.loss = Unit
Fits chips bet (GameResult.loss_with_extra_deduction _) = Unit
Fits chips bet (GameResult.loss_pre_deducted n) = chips + n < 2 ^ 63
Fits chips bet (GameResult.loss_pre_deducted_with_extra_deduction n _) = chips + n < 2 ^ 63
Fits chips bet GameResult.push = chips + bet < 2 ^ 63

update_balance-Balances :
    (p : PublicKey) (id : ℕ) (session : GameSession) (z : ℤ) (player : Player) (l : Layer)
    → session.is_tournament ≡ false
    → player_at p l ≡ some player
    → player.chips + pos_part z < 2 ^ 63
    → Leaves (update_balance p id session z (some player) l) (Balances p player l)
unfolding update_balance
update_balance-Balances p id session (pos n) player l cash at room = grind (
  int_laws,
  view_laws,
  chips_laws,
  when-update_house_pnl p,
  update_leaderboard_for_session_lem p,
  chips-credit session n player cash,
)
update_balance-Balances p id session (negsuc n) player l cash at room = grind (
  int_laws,
  view_laws,
  chips_laws,
  when-update_house_pnl p,
  update_leaderboard_for_session_lem p,
  deduct-Deducts p,
)

finish_win_extra-Balances :
    (p : PublicKey) (id : ℕ) (session : GameSession) (payout extra : ℕ) (player : Player)
    (l : Layer)
    → session.is_tournament ≡ false
    → player_at p l ≡ some player
    → player.chips + 2 * payout < 2 ^ 63
    → Leaves (finish_win_extra p id session payout extra (some player) l) (Balances p player l)
unfolding finish_win_extra
finish_win_extra-Balances p id session payout extra player l cash at room =
    grind (int_laws, view_laws, charge_extra-Deducts p, settle_win-Balances p)

finish_loss_pre_extra-Balances :
    (p : PublicKey) (id : ℕ) (session : GameSession) (total extra : ℕ) (player : Player) (l : Layer)
    → session.is_tournament ≡ false
    → player_at p l ≡ some player
    → player.chips + total < 2 ^ 63
    → Leaves (finish_loss_pre_extra p id session total extra (some player) l) (Balances p player l)
unfolding finish_loss_pre_extra
finish_loss_pre_extra-Balances p id session total extra player l cash at room =
    grind (int_laws, view_laws, charge_extra-Deducts p, settle_loss_pre-Balances p)

-- The end of a game balances if its settlement does.
finish-Balances :
    (p : PublicKey) (id : ℕ) (session : GameSession)
    (settle : GameSession → Player → Layer → Outcome Event) (player : Player) (l : Layer)
    → player_at p l ≡ some player
    → ((l' : Layer)
        → player_at p l' ≡ some player
        → Leaves (settle (complete_session session) player l') (Balances p player l'))
    → Leaves (finish p id session settle l) (Balances p player l)
unfolding finish
finish-Balances p id session settle player l at h = grind (arith, view_laws)

-- However the handling of a result ends in a cash session of a registered player, with an error or
-- without, unless it panics, the chips of the player and the profit of the house together are as
-- they were, if what the result adds has room in the chips.
pub apply_result-Balances :
    (p : PublicKey) (id : ℕ) (session : GameSession) (result : GameResult) (player : Player)
    (l : Layer)
    → session.is_tournament ≡ false
    → player_at p l ≡ some player
    → Fits player.chips session.bet result
    → Leaves (apply_result p id session result l) (Balances p player l)
unfolding apply_result
apply_result-Balances p id session GameResult.continue player l cash at room =
    grind (arith, view_laws)
apply_result-Balances p id session (GameResult.continue_with_update z) player l cash at room =
    grind (arith, view_laws, update_balance-Balances p)
apply_result-Balances p id session (GameResult.win n) player l cash at room =
    finish-Balances p id session _ player l at (λ l' _.
      settle_win-Balances p id (complete_session session) n player l' cash (omega arith)
        (omega arith))
apply_result-Balances p id session (GameResult.win_with_extra_deduction n extra) player l cash at
      room =
    grind (arith, finish_win_extra-Balances p)
apply_result-Balances p id session GameResult.push player l cash at room =
    finish-Balances p id session _ player l at
      (λ l' _. settle_push-Balances p id (complete_session session) player l' cash (omega arith))
apply_result-Balances p id session GameResult.loss player l cash at room =
    finish-Balances p id session _ player l at
      (λ l' _. settle_loss-Balances p id (complete_session session) player l' cash)
apply_result-Balances p id session (GameResult.loss_with_extra_deduction extra) player l cash at
      room =
    finish-Balances p id session _ player l at (λ l' at'.
      settle_loss_extra-Balances p id (complete_session session) extra player l' cash at')
apply_result-Balances p id session (GameResult.loss_pre_deducted n) player l cash at room =
    finish-Balances p id session _ player l at (λ l' _.
      settle_loss_pre-Balances p id (complete_session session) n player l' cash (omega arith))
apply_result-Balances p id session (GameResult.loss_pre_deducted_with_extra_deduction n extra)
      player l cash at room =
    grind (arith, finish_loss_pre_extra-Balances p)
