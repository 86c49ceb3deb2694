-- ===== src/Casino/Ending.antt =====
-- `handle_casino_end_tournament` of execution/src/layer/handlers/casino.rs. The prizes are split in
-- floating point: the number of winners and the payouts are parameters.
pub mod Frame
pub mod Runs
pub mod Prizes
pub mod Laws
use supersociety_battleware.Base.{
  ℕ, zero, suc, ◌+◌, min, max, ltb, leb, ◌==◌, sat_add, Bool, true, false, not, ◌&&◌, Option, none,
  some, List, [], ◌∷◌, ◌++◌, length, if◌then◌else◌,
}
use supersociety_battleware.Types.{
  PublicKey, Event, Key, Value, Player, TournamentPhase, Tournament,
}
use supersociety_battleware.Layer.{
  Layer, M, ◌>>=◌, ◌>>◌, pure, return_if, or_return, when, put, look, handler, player_at,
  tournament_at,
}
use supersociety_battleware.Casino.Start.{is_active_phase}

-- `(num_players as f64 * 0.15).ceil() as usize`, and `(share * prize_pool as f64) as u64` of a rank
-- from 0, by the number of winners and the pool.
pub record Split : Type 0 where
  pub part_of : ℕ → ℕ
  pub payout : ℕ → ℕ → ℕ → ℕ

abbrev pub Rankings : Type 0
Rankings = List (PublicKey × ℕ)

-- The chips of the players that there are.
abbrev pub with_chips : PublicKey → Option Player → Rankings → Rankings
with_chips public none rest = rest
with_chips public (some player) rest = (public, player.tournament_chips) ∷ rest

unfoldable pub gather : List PublicKey → Layer → Rankings
gather [] l = []
gather (public ∷ rest) l = with_chips public (player_at public l) (gather rest l)

-- `sort_by`, which is stable: an entry goes before those with fewer chips, after the others.
unfoldable pub place : PublicKey × ℕ → Rankings → Rankings
place x [] = x ∷ []
place x (y ∷ ys) = if leb x.1 y.1 then y ∷ place x ys else x ∷ (y ∷ ys)

unfoldable pub sort_by_chips : Rankings → Rankings → Rankings
sort_by_chips sorted [] = sorted
sort_by_chips sorted (x ∷ xs) = sort_by_chips (place x sorted) xs

abbrev pub num_winners : Split → ℕ → ℕ
num_winners split num_players = min (max (split.part_of num_players) 1) num_players

-- A prize goes to the chips of the player.
abbrev pub pay_prize : PublicKey → ℕ → Option Player → M (Unit {0})
pay_prize public payout none = pure tt
pay_prize public payout (some p) =
    put (Key.casino_player public)
      (Value.casino_player (record p { chips = sat_add p.chips payout }))

-- The winners from rank `i` on; `n` of them are left.
unfoldable pub pay_winners : (ℕ → ℕ) → ℕ → ℕ → Rankings → M (Unit {0})
pay_winners payout zero i rankings = pure tt
pay_winners payout (suc n) i [] = pure tt
pay_winners payout (suc n) i (x ∷ rest) = do
  when (ltb 0 (payout i)) (look (player_at x.0) >>= pay_prize x.0 (payout i))
  pay_winners payout n (i + 1) rest

abbrev pub is_in : ℕ → Option ℕ → Bool
is_in tournament_id none = false
is_in tournament_id (some id) = id == tournament_id

abbrev pub leave : Player → Player
leave player = record player {
  active_tournament = none;
  tournament_chips = 0;
  tournament_shields = 0;
  tournament_doubles = 0;
  active_shield = false;
  active_double = false;
  active_super = false;
  active_session = none;
}

abbrev pub clear_player : ℕ → PublicKey → Option Player → M (Unit {0})
clear_player tournament_id public none = pure tt
clear_player tournament_id public (some player) =
    when (is_in tournament_id player.active_tournament)
      (put (Key.casino_player public) (Value.casino_player (leave player)))

-- The flags and stacks of everyone who played.
unfoldable pub clear_players : ℕ → List PublicKey → M (Unit {0})
clear_players tournament_id [] = pure tt
clear_players tournament_id (public ∷ rest) = do
  clear_player tournament_id public (← look (player_at public))
  clear_players tournament_id rest

unfoldable pub distribute : Split → Tournament → Rankings → M (Unit {0})
distribute split t rankings =
    let winners = num_winners split (length rankings) in
    when (ltb 0 winners && ltb 0 t.prize_pool)
      (pay_winners (λ i. split.payout winners i t.prize_pool) winners 0 rankings)

unfoldable pub handle_casino_end_tournament : Split → PublicKey → ℕ → M (List Event)
handle_casino_end_tournament split public tournament_id = handler do
  tournament ← or_return (← look (tournament_at tournament_id)) []
  return_if (not (is_active_phase tournament.phase)) []
  gathered ← look (gather tournament.players)
  let rankings = sort_by_chips [] gathered
  distribute split tournament rankings
  clear_players tournament_id tournament.players
  put (Key.tournament tournament_id)
      (Value.tournament (record tournament { phase = TournamentPhase.complete }))
  pure (Event.tournament_ended tournament_id rankings ∷ [])
