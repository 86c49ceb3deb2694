-- ===== src/Casino/Funds/Frame.antt =====
-- The books and boards are no accounts.
use supersociety_battleware.Base.{ℕ, ℤ, Bool, true, false, refl, arith}
use supersociety_battleware.Types.{PublicKey, Player, GameSession}
use supersociety_battleware.Layer.{Layer, when, Leaves}
use supersociety_battleware.Layer.Frame.{IsSound, Keeps, frame_laws}
use supersociety_battleware.Casino.Funds.{
  update_house_pnl, update_casino_leaderboard, update_tournament_leaderboard,
  update_leaderboard_for_session,
}

pub update_house_pnl-Keeps :
    (q : PublicKey) (amount : ℤ) (l : Layer)
    → IsSound l
    → Leaves (update_house_pnl amount l) (Keeps q l)
unfolding update_house_pnl
update_house_pnl-Keeps q amount l s = grind (arith, frame_laws)

pub update_casino_leaderboard-Keeps :
    (q : PublicKey) (p : PublicKey) (player : Player) (l : Layer)
    → IsSound l
    → Leaves (update_casino_leaderboard p player l) (Keeps q l)
unfolding update_casino_leaderboard
update_casino_leaderboard-Keeps q p player l s = grind (arith, frame_laws)

pub update_tournament_leaderboard-Keeps :
    (q : PublicKey) (id : ℕ) (p : PublicKey) (player : Player) (l : Layer)
    → IsSound l
    → Leaves (update_tournament_leaderboard id p player l) (Keeps q l)
unfolding update_tournament_leaderboard
update_tournament_leaderboard-Keeps q id p player l s = grind (arith, frame_laws)

pub update_leaderboard_for_session-Keeps :
    (q : PublicKey) (session : GameSession) (p : PublicKey) (player : Player) (l : Layer)
    → IsSound l
    → Leaves (update_leaderboard_for_session session p player l) (Keeps q l)
unfolding update_leaderboard_for_session
update_leaderboard_for_session-Keeps q session p player l s =
    grind
      (arith, frame_laws, update_casino_leaderboard-Keeps q, update_tournament_leaderboard-Keeps q)

pub when-update_house_pnl-Keeps :
    (q : PublicKey) (b : Bool) (amount : ℤ) (l : Layer)
    → IsSound l
    → Leaves (when b (update_house_pnl amount) l) (Keeps q l)
when-update_house_pnl-Keeps q true amount l s = update_house_pnl-Keeps q amount l s
when-update_house_pnl-Keeps q false amount l s = (refl, refl, s)
