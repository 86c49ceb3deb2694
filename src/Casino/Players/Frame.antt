-- ===== src/Casino/Players/Frame.antt =====
-- The handlers of players leave the accounts alone.
use supersociety_battleware.Base.{ℕ, List, arith}
use supersociety_battleware.Types.{PublicKey}
use supersociety_battleware.Layer.{Layer, Leaves}
use supersociety_battleware.Layer.Frame.{IsSound, Keeps, frame_laws}
use supersociety_battleware.Casino.Players.{
  handle_casino_register, handle_casino_deposit, handle_casino_toggle_shield,
  handle_casino_toggle_double, handle_casino_toggle_super,
}
use supersociety_battleware.Casino.Funds.Frame.{update_casino_leaderboard-Keeps}

pub handle_casino_register-Keeps :
    (q : PublicKey) (p : PublicKey) (name : List ℕ) (l : Layer)
    → IsSound l
    → Leaves (handle_casino_register p name l) (Keeps q l)
unfolding handle_casino_register
handle_casino_register-Keeps q p name l s =
    grind (arith, frame_laws, update_casino_leaderboard-Keeps q)

pub handle_casino_deposit-Keeps :
    (q : PublicKey) (p : PublicKey) (amount : ℕ) (l : Layer)
    → IsSound l
    → Leaves (handle_casino_deposit p amount l) (Keeps q l)
unfolding handle_casino_deposit
handle_casino_deposit-Keeps q p amount l s =
    grind (arith, frame_laws, update_casino_leaderboard-Keeps q)

pub handle_casino_toggle_shield-Keeps :
    (q : PublicKey) (p : PublicKey) (l : Layer)
    → IsSound l
    → Leaves (handle_casino_toggle_shield p l) (Keeps q l)
unfolding handle_casino_toggle_shield
handle_casino_toggle_shield-Keeps q p l s = grind (arith, frame_laws)

pub handle_casino_toggle_double-Keeps :
    (q : PublicKey) (p : PublicKey) (l : Layer)
    → IsSound l
    → Leaves (handle_casino_toggle_double p l) (Keeps q l)
unfolding handle_casino_toggle_double
handle_casino_toggle_double-Keeps q p l s = grind (arith, frame_laws)

pub handle_casino_toggle_super-Keeps :
    (q : PublicKey) (p : PublicKey) (l : Layer)
    → IsSound l
    → Leaves (handle_casino_toggle_super p l) (Keeps q l)
unfolding handle_casino_toggle_super
handle_casino_toggle_super-Keeps q p l s = grind (arith, frame_laws)
