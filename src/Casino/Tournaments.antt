-- ===== src/Casino/Tournaments.antt =====
-- Tournaments: `handle_casino_join_tournament` and `handle_casino_start_tournament`.
pub mod Laws
pub mod Frame
use supersociety_battleware.Base.{
  ℕ, ◌+◌, ◌-◌, ◌*◌, ◌/◌, min, ltb, leb, ◌==◌, sat_add, sat_mul, as_u64, Bool, true, false, not,
  ◌&&◌, Option, none, some, List, [], ◌∷◌, if◌then◌else◌,
}
use supersociety_battleware.Types.{
  PublicKey, Event, Key, Value, Player, CasinoLeaderboard, TournamentPhase, Tournament,
  default_leaderboard, starting_chips, starting_shields, starting_doubles, total_supply,
  annual_emission_rate_bps, reward_pool_bps, tournaments_per_day, tournament_duration_secs,
  error_player_not_found, error_invalid_move, error_tournament_not_registering,
  error_already_in_tournament, error_tournament_limit_reached,
}
use supersociety_battleware.Layer.{
  Layer, M, ◌>>=◌, ◌>>◌, pure, exit, panic, return_if, or_return, or_else, put, look, seed_view,
  checked, handler, get, player_at, tournament_at, house_at,
}
use supersociety_battleware.Leaderboard.{update_board, add_player}
use supersociety_battleware.Casino.Players.{casino_error}

-- A tournament as it is first stored.
abbrev pub new_tournament : ℕ → TournamentPhase → ℕ → ℕ → ℕ → Tournament
new_tournament id phase start_block start_time_ms end_time_ms = record {
  id = id;
  phase = phase;
  start_block = start_block;
  start_time_ms = start_time_ms;
  end_time_ms = end_time_ms;
  players = [];
  prize_pool = 0;
  starting_chips = starting_chips;
  starting_shields = starting_shields;
  starting_doubles = starting_doubles;
  leaderboard = default_leaderboard;
}

abbrev pub is_registration : TournamentPhase → Bool
is_registration TournamentPhase.registration = true
is_registration _ = false

-- How many tournaments of today count, at a time in seconds.
abbrev pub played_today : Player → ℕ → ℕ
played_today player now =
    if ltb (player.last_tournament_ts / 86400) (now / 86400)
    then 0
    else player.tournaments_played_today

pub handle_casino_join_tournament : PublicKey → ℕ → M (List Event)
handle_casino_join_tournament public tournament_id = handler do
  player ← or_return (← look (player_at public)) (casino_error public none error_player_not_found)
  view ← seed_view
  now ← checked 64 (view * 3)
  return_if (leb 5 (played_today player now))
      (casino_error public none error_tournament_limit_reached)
  stored ← look (tournament_at tournament_id)
  let tournament = or_else stored (new_tournament tournament_id TournamentPhase.registration 0 0 0)
  return_if (not (is_registration tournament.phase))
      (casino_error public none error_tournament_not_registering)
  joined ←
      or_return (add_player public tournament)
        (casino_error public none error_already_in_tournament)
  put (Key.casino_player public) (
      Value.casino_player (record player {
        tournaments_played_today = played_today player now + 1;
        last_tournament_ts = now;
        active_tournament = some tournament_id;
      }))
  put (Key.tournament tournament_id) (Value.tournament joined)
  pure (Event.player_joined tournament_id public ∷ [])

-- The tournament to start, from what is stored at its key: a new one has its starter as a player.
-- Another type of value there is a panic.
abbrev pub tournament_to_start : PublicKey → ℕ → ℕ → ℕ → ℕ → Option Value → M Tournament
tournament_to_start public id view start_time_ms end_time_ms none =
    let t = new_tournament id TournamentPhase.active view start_time_ms end_time_ms in
    pure (or_else (add_player public t) t)
tournament_to_start public id view start_time_ms end_time_ms (some (Value.tournament t)) = do
  return_if (not (is_registration t.phase)) (casino_error public none error_invalid_move)
  pure t
tournament_to_start public id view start_time_ms end_time_ms (some _) = panic

-- The end time: five minutes after the start, whatever the client asks for.
abbrev pub fixed_end_time : ℕ → ℕ → ℕ
fixed_end_time start_time_ms end_time_ms =
    let duration = sat_mul tournament_duration_secs 1000 in
    if leb start_time_ms end_time_ms && (end_time_ms - start_time_ms) == duration
    then end_time_ms
    else sat_add start_time_ms duration

abbrev pub reward_pool_cap : ℕ
reward_pool_cap = total_supply * reward_pool_bps / 10000

abbrev pub per_game_emission : ℕ
per_game_emission = total_supply * annual_emission_rate_bps / 10000 / 365 / tournaments_per_day

-- The prize, with this much issued before.
unfoldable pub prize_of : ℕ → ℕ
prize_of total_issuance = as_u64 (min per_game_emission (reward_pool_cap - total_issuance))

-- The stacks of a player at the start of a tournament.
abbrev pub enter : ℕ → Tournament → Player → Player
enter tournament_id t player = record player {
  tournament_chips = t.starting_chips;
  tournament_shields = t.starting_shields;
  tournament_doubles = t.starting_doubles;
  active_tournament = some tournament_id;
  active_shield = false;
  active_double = false;
  active_super = false;
  active_session = none;
  aura_meter = 0;
}

abbrev pub seat_player :
    ℕ → Tournament → PublicKey → CasinoLeaderboard → Option Player → M CasinoLeaderboard
seat_player tournament_id t public board none = pure board
seat_player tournament_id t public board (some player) = do
  put (Key.casino_player public) (Value.casino_player (enter tournament_id t player))
  pure (update_board public player.name t.starting_chips board)

-- Every player gets the stacks, and the board is built again.
unfoldable pub seat_players :
    ℕ → Tournament → List PublicKey → CasinoLeaderboard → M CasinoLeaderboard
seat_players tournament_id t [] board = pure board
seat_players tournament_id t (public ∷ rest) board = do
  next ← seat_player tournament_id t public board (← look (player_at public))
  seat_players tournament_id t rest next

pub handle_casino_start_tournament : PublicKey → ℕ → ℕ → ℕ → M (List Event)
handle_casino_start_tournament public tournament_id start_time_ms end_time_ms = handler do
  view ← seed_view
  stored ← look (get (Key.tournament tournament_id))
  tournament ← tournament_to_start public tournament_id view start_time_ms end_time_ms stored
  house ← look house_at
  let prize_pool = prize_of house.total_issuance
  put Key.house (
      Value.house (record house {
        total_issuance = min (sat_add house.total_issuance prize_pool) reward_pool_cap;
      }))
  let started = record tournament {
    phase = TournamentPhase.active;
    start_block = view;
    start_time_ms = start_time_ms;
    end_time_ms = fixed_end_time start_time_ms end_time_ms;
    prize_pool = prize_pool;
  }
  board ← seat_players tournament_id started started.players default_leaderboard
  put (Key.tournament tournament_id) (Value.tournament (record started { leaderboard = board }))
  pure (Event.tournament_started tournament_id view ∷ [])
