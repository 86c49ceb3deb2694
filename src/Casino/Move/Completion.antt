-- ===== src/Casino/Move/Completion.antt =====
-- A game that ends is stored as complete, and takes no further move.
use supersociety_battleware.Base.{ℕ, ℤ, ◌≡◌, Bool, true, false, Option, none, some, List, arith}
use supersociety_battleware.Types.{PublicKey, Player, GameSession, Event}
use supersociety_battleware.Layer.{
  Layer, Outcome, done, returned, panicked, Leaves, when, session_at, view_laws,
}
use supersociety_battleware.Casino.Interface.{GameResult}
use supersociety_battleware.Casino.Funds.{
  update_house_pnl, update_leaderboard_for_session, update_casino_leaderboard,
  update_tournament_leaderboard,
}
use supersociety_battleware.Casino.Settle.{
  deduct, charge_extra, use_shield, settle_win, settle_push, settle_loss, settle_loss_extra,
  settle_loss_pre,
}
use supersociety_battleware.Casino.Move.{
  complete_session, finish_win_extra, finish_loss_pre_extra, finish, apply_result,
}

-- The results that end a game.
unfoldable pub ends : GameResult → Bool
ends GameResult.continue = false
ends (GameResult.continue_with_update _) = false
ends _ = true

when-update_house_pnl-session_at :
    (id : ℕ) (b : Bool) (amount : ℤ) (l : Layer)
    → Leaves (when b (update_house_pnl amount) l) (λ l'. session_at id l' ≡ session_at id l)
unfolding update_house_pnl
when-update_house_pnl-session_at id b amount l = grind (arith, view_laws)

update_leaderboard-session_at :
    (id : ℕ) (session : GameSession) (q : PublicKey) (player : Player) (l : Layer)
    → Leaves
        (update_leaderboard_for_session session q player l)
        (λ l'. session_at id l' ≡ session_at id l)
unfolding update_leaderboard_for_session update_casino_leaderboard update_tournament_leaderboard
update_leaderboard-session_at id session q player l = grind (arith, view_laws)

-- No settlement writes a session.
abbrev Keeps : ℕ → Layer → Layer → Type 0
Keeps id l l' = session_at id l' ≡ session_at id l

settle_win-session_at :
    (id : ℕ) (p : PublicKey) (session : GameSession) (n : ℕ) (player : Player) (l : Layer)
    → Leaves (settle_win p id session n player l) (Keeps id l)
unfolding settle_win
settle_win-session_at id p session n player l =
    grind (arith, view_laws, when-update_house_pnl-session_at id, update_leaderboard-session_at id)

settle_push-session_at :
    (id : ℕ) (p : PublicKey) (session : GameSession) (player : Player) (l : Layer)
    → Leaves (settle_push true p id session player l) (Keeps id l)
unfolding settle_push
settle_push-session_at id p session player l =
    grind (arith, view_laws, when-update_house_pnl-session_at id, update_leaderboard-session_at id)

settle_loss-session_at :
    (id : ℕ) (p : PublicKey) (session : GameSession) (player : Player) (l : Layer)
    → Leaves (settle_loss p id session player l) (Keeps id l)
unfolding settle_loss
settle_loss-session_at id p session player l =
    grind (arith, view_laws, when-update_house_pnl-session_at id, update_leaderboard-session_at id)

deduct-session_at :
    (id : ℕ) (p : PublicKey) (session : GameSession) (n : ℕ) (player : Player) (l : Layer)
    → Leaves (deduct p id session n player l) (Keeps id l)
unfolding deduct
deduct-session_at id p session n player l =
    grind (arith, view_laws, when-update_house_pnl-session_at id, update_leaderboard-session_at id)

charge_extra-session_at :
    (id : ℕ) (p : PublicKey) (session : GameSession) (n : ℕ) (player : Player) (l : Layer)
    → Leaves (charge_extra p id session n player l) (Keeps id l)
charge_extra-session_at id p session n player l =
    grind (arith, deduct-session_at id p session n player l)

settle_loss_extra-session_at :
    (id : ℕ) (p : PublicKey) (session : GameSession) (n : ℕ) (player : Player) (l : Layer)
    → Leaves (settle_loss_extra p id session n player l) (Keeps id l)
unfolding settle_loss_extra
settle_loss_extra-session_at id p session n player l = grind (
  arith,
  view_laws,
  when-update_house_pnl-session_at id,
  update_leaderboard-session_at id,
  charge_extra-session_at id p session n (use_shield session player) l,
)

settle_loss_pre-session_at :
    (id : ℕ) (p : PublicKey) (session : GameSession) (n : ℕ) (player : Player) (l : Layer)
    → Leaves (settle_loss_pre p id session n player l) (Keeps id l)
unfolding settle_loss_pre
settle_loss_pre-session_at id p session n player l =
    grind (arith, view_laws, when-update_house_pnl-session_at id, update_leaderboard-session_at id)

-- The session is stored as complete, if the action ends without an early return.
abbrev pub Completes : ℕ → GameSession → Outcome (List Event) → Type 0
Completes id session (done events l) = session_at id l ≡ some (complete_session session)
Completes id session (returned events l) = Unit
Completes id session panicked = Unit

finish-Completes :
    (p : PublicKey) (id : ℕ) (session : GameSession)
    (settle : GameSession → Player → Layer → Outcome Event) (l : Layer)
    → ((player : Player) (l' : Layer)
        → Leaves (settle (complete_session session) player l') (Keeps id l'))
    → Completes id session (finish p id session settle l)
unfolding finish
finish-Completes p id session settle l h = grind (arith, view_laws)

finish_win_extra-Completes :
    (p : PublicKey) (id : ℕ) (session : GameSession) (n extra : ℕ) (player : Option Player)
    (l : Layer)
    → Completes id session (finish_win_extra p id session n extra player l)
unfolding finish_win_extra
finish_win_extra-Completes p id session n extra none l = grind (arith, view_laws)
finish_win_extra-Completes p id session n extra (some player) l =
    grind (arith, view_laws, deduct-session_at id, settle_win-session_at id)

finish_loss_pre_extra-Completes :
    (p : PublicKey) (id : ℕ) (session : GameSession) (n extra : ℕ) (player : Option Player)
    (l : Layer)
    → Completes id session (finish_loss_pre_extra p id session n extra player l)
unfolding finish_loss_pre_extra
finish_loss_pre_extra-Completes p id session n extra none l = grind (arith, view_laws)
finish_loss_pre_extra-Completes p id session n extra (some player) l =
    grind (arith, view_laws, deduct-session_at id, settle_loss_pre-session_at id)

-- Whatever result ends a game, the session that is stored afterwards is the completed one, unless
-- the handler reports an error or panics.
pub apply_result-Completes :
    (p : PublicKey) (id : ℕ) (session : GameSession) (result : GameResult) (l : Layer)
    → ends result ≡ true
    → Completes id session (apply_result p id session result l)
unfolding ends apply_result
apply_result-Completes p id session GameResult.continue l e = grind arith
apply_result-Completes p id session (GameResult.continue_with_update z) l e = grind arith
apply_result-Completes p id session (GameResult.win n) l e =
    finish-Completes p id session _ l (settle_win-session_at id p (complete_session session) n)
apply_result-Completes p id session (GameResult.win_with_extra_deduction n x) l e =
    finish_win_extra-Completes p id session n x _ l
apply_result-Completes p id session GameResult.loss l e =
    finish-Completes p id session _ l (settle_loss-session_at id p (complete_session session))
apply_result-Completes p id session (GameResult.loss_with_extra_deduction x) l e =
    finish-Completes p id session _ l
      (settle_loss_extra-session_at id p (complete_session session) x)
apply_result-Completes p id session (GameResult.loss_pre_deducted n) l e =
    finish-Completes p id session _ l (settle_loss_pre-session_at id p (complete_session session) n)
apply_result-Completes p id session (GameResult.loss_pre_deducted_with_extra_deduction n x) l e =
    finish_loss_pre_extra-Completes p id session n x _ l
apply_result-Completes p id session GameResult.push l e =
    finish-Completes p id session _ l (settle_push-session_at id p (complete_session session))
