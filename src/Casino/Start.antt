-- ===== src/Casino/Start.antt =====
-- `handle_casino_start_game`: the bet is taken, the session made, and the game begun.
pub mod Laws
pub mod Frame
use supersociety_battleware.Base.{
  ℕ, pos, ◌+◌, ◌-◌, ltb, ◌==◌, sat_add, Bool, true, false, not, ◌&&◌, Option, none, some, List, [],
  ◌∷◌, if◌then◌else◌,
}
use supersociety_battleware.Types.{
  PublicKey, Event, Key, Value, Player, GameType, GameSession, SuperModeState, SuperMultiplier,
  TournamentPhase, Tournament, default_super_mode, error_player_not_found, error_invalid_bet,
  error_insufficient_funds, error_session_exists,
}
use supersociety_battleware.Layer.{
  Layer, M, ◌>>=◌, ◌>>◌, pure, return_if, or_return, when, put, look, seed_view, handler, get,
  player_at, tournament_at,
}
use supersociety_battleware.Liquidity.Vaults.{is_some}
use supersociety_battleware.Casino.Interface.{Host, GameResult, new_rng, init_game}
use supersociety_battleware.Casino.Aura.{is_super_aura_round, enhance_multipliers}
use supersociety_battleware.Casino.Funds.{
  stack_of, set_stack, super_mode_fee, update_house_pnl, update_leaderboard_for_session,
}
use supersociety_battleware.Casino.Players.{casino_error}
use supersociety_battleware.Casino.Settle.{settle_win, settle_push, settle_loss}
use supersociety_battleware.Casino.Move.{one_event, save_session, settle_if}

abbrev pub is_active_phase : TournamentPhase → Bool
is_active_phase TournamentPhase.active = true
is_active_phase _ = false

-- A tournament that is not being played is forgotten.
abbrev pub current_tournament : Option ℕ → Layer → Option ℕ
current_tournament none l = none
current_tournament (some id) l = elim (tournament_at id l) [
  | none ↦ none
  | some t ↦ if is_active_phase t.phase then some id else none
]

abbrev pub allows_zero_bet : GameType → Bool
allows_zero_bet GameType.baccarat = true
allows_zero_bet GameType.craps = true
allows_zero_bet GameType.roulette = true
allows_zero_bet GameType.sic_bo = true
allows_zero_bet _ = false

-- The bet, with the fee of the super mode.
abbrev pub required_stack : Player → ℕ → ℕ
required_stack player bet =
    sat_add bet (if player.active_super && ltb 0 bet then super_mode_fee bet else 0)

abbrev pub new_session : ℕ → PublicKey → GameType → ℕ → ℕ → Option ℕ → GameSession
new_session session_id public game_type bet view tournament_id = record {
  id = session_id;
  player = public;
  game_type = game_type;
  bet = bet;
  state_blob = [];
  move_count = 0;
  created_at = view;
  is_complete = false;
  super_mode = default_super_mode;
  is_tournament = is_some tournament_id;
  tournament_id = tournament_id;
}

abbrev pub raise_multipliers : Bool → List SuperMultiplier → M (List SuperMultiplier)
raise_multipliers true drawn = enhance_multipliers drawn
raise_multipliers false drawn = pure drawn

-- The super mode of a new session, from the generator at the move number `u32::MAX`.
abbrev pub start_super : Bool → Host → Player → GameSession → M GameSession
start_super false host player session = pure session
start_super true host player session = do
  rng ← look (λ (l : Layer). new_rng host l.seed session.id 4294967295)
  let drawn = host.super_multipliers session.game_type rng
  multipliers ← raise_multipliers (is_super_aura_round player.aura_meter) drawn
  pure (record session {
    super_mode = record default_super_mode { is_active = true; multipliers = multipliers };
  })

-- The result of a game that its first deal decides.
unfoldable pub settle_start : PublicKey → ℕ → GameSession → GameResult → M (List Event)
settle_start public session_id session (GameResult.win payout) = do
  settle_if (settle_win public session_id session payout) (← look (player_at public))
settle_start public session_id session GameResult.push = do
  settle_if (settle_push false public session_id session) (← look (player_at public))
settle_start public session_id session GameResult.loss = do
  settle_if (settle_loss public session_id session) (← look (player_at public))
settle_start public session_id session _ = pure []

-- The first deal, for a player who has paid.
unfoldable pub begin_game :
    Host → PublicKey → GameType → ℕ → ℕ → Player → GameSession → M (List Event)
begin_game host public game_type bet session_id player session = do
  update_leaderboard_for_session session public player
  rng ← look (λ (l : Layer). new_rng host l.seed session_id 0)
  let begun = init_game host session rng
  save_session session_id begun.1
  events ← settle_start public session_id begun.1 begun.0
  pure (Event.casino_game_started session_id public game_type bet begun.1.state_blob ∷ events)

-- The bet is taken, and the session made.
unfoldable pub open_session :
    Host → PublicKey → GameType → ℕ → ℕ → Option ℕ → Player → M (List Event)
open_session host public game_type bet session_id tournament_id stored = do
  let required = required_stack stored bet
  let stack = stack_of (is_some tournament_id) stored
  let player =
      set_stack (is_some tournament_id) (stack - required)
        (record stored { active_tournament = tournament_id })
  put (Key.casino_player public) (Value.casino_player player)
  when (not (is_some tournament_id) && ltb 0 required) (update_house_pnl (pos required))
  view ← seed_view
  session ←
      start_super stored.active_super host player
        (new_session session_id public game_type bet view tournament_id)
  begin_game host public game_type bet session_id player session

pub handle_casino_start_game : Host → PublicKey → GameType → ℕ → ℕ → M (List Event)
handle_casino_start_game host public game_type bet session_id = handler do
  stored ←
      or_return (← look (player_at public))
        (casino_error public (some session_id) error_player_not_found)
  tournament_id ← look (current_tournament stored.active_tournament)
  return_if (bet == 0 && not (allows_zero_bet game_type))
      (casino_error public (some session_id) error_invalid_bet)
  let required = required_stack stored bet
  let stack = stack_of (is_some tournament_id) stored
  return_if (ltb stack required) (casino_error public (some session_id) error_insufficient_funds)
  return_if (is_some (← look (get (Key.casino_session session_id))))
      (casino_error public (some session_id) error_session_exists)
  open_session host public game_type bet session_id tournament_id stored
