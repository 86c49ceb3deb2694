-- ===== src/Casino/Tournaments/Frame.antt =====
-- Joining and starting a tournament leave the accounts alone.
use supersociety_battleware.Base.{ℕ, List, [], ◌∷◌, refl, arith}
use supersociety_battleware.Types.{PublicKey, Tournament, CasinoLeaderboard}
use supersociety_battleware.Layer.{Layer, Leaves, Ensures}
use supersociety_battleware.Layer.Frame.{IsSound, Keeps, frame_laws}
use supersociety_battleware.Casino.Tournaments.{
  seat_players, handle_casino_join_tournament, handle_casino_start_tournament,
}

pub handle_casino_join_tournament-Keeps :
    (q p : PublicKey) (id : ℕ) (l : Layer)
    → IsSound l
    → Leaves (handle_casino_join_tournament p id l) (Keeps q l)
unfolding handle_casino_join_tournament
handle_casino_join_tournament-Keeps q p id l s = grind (arith, frame_laws)

seat_players-Keeps :
    (q : PublicKey) (id : ℕ) (t : Tournament) (players : List PublicKey) (board : CasinoLeaderboard)
    (l : Layer)
    → IsSound l
    → Ensures (seat_players id t players board l) (λ _ l'. Keeps q l l')
unfolding seat_players
seat_players-Keeps q id t [] board l s = (refl, refl, s)
seat_players-Keeps q id t (p ∷ rest) board l s =
    grind (arith, frame_laws, seat_players-Keeps q id t rest)

pub handle_casino_start_tournament-Keeps :
    (q p : PublicKey) (id start_ms end_ms : ℕ) (l : Layer)
    → IsSound l
    → Leaves (handle_casino_start_tournament p id start_ms end_ms l) (Keeps q l)
unfolding handle_casino_start_tournament
handle_casino_start_tournament-Keeps q p id start_ms end_ms l s =
    grind (arith, frame_laws, seat_players-Keeps q id)
