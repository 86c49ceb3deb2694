-- ===== src/Tests/Data.antt =====
-- The players, pools and hosts of the tests.
use supersociety_battleware.Base.{pos, true, false, none, [], ◌∷◌}
use supersociety_battleware.Types.{
  PublicKey, Key, Value, Player, GameType, GameSession, Staker, Vault, AmmPool, TournamentPhase,
  Tournament, default_super_mode, default_leaderboard, new_house, new_amm,
}
use supersociety_battleware.Layer.{Layer, Pending, Status, Seed}
use supersociety_battleware.Casino.Interface.{
  Host, CasinoGame, GameResult, GameError, moved, failed,
}

abbrev pub alice : PublicKey
alice = 7

abbrev pub bob : PublicKey
bob = 8

abbrev pub seed : Seed
seed = record { view = 100; encoded = [] }

-- A layer with these changes over an empty state.
abbrev pub layer_of : Pending → Layer
layer_of pending = record { state = λ k. none; pending = pending; seed = seed }

abbrev pub empty_layer : Layer
empty_layer = layer_of []

abbrev pub rich : Player
rich = record {
  nonce = 0;
  name = [];
  chips = 5000;
  vusdt_balance = 4000;
  shields = 3;
  doubles = 3;
  tournament_chips = 0;
  tournament_shields = 0;
  tournament_doubles = 0;
  active_tournament = none;
  rank = 0;
  active_shield = false;
  active_double = true;
  active_super = false;
  active_session = none;
  last_deposit_block = 0;
  aura_meter = 0;
  tournaments_played_today = 0;
  last_tournament_ts = 0;
  is_kyc_verified = false;
}

abbrev pub player_entry : Key × Status
player_entry = (Key.casino_player alice, Status.update (Value.casino_player rich))

abbrev pub player_layer : Layer
player_layer = layer_of (player_entry ∷ [])

abbrev pub pool : AmmPool
pool = record (new_amm 30) { reserve_rng = 10000; reserve_vusdt = 10000; total_shares = 10000 }

abbrev pub pool_layer : Layer
pool_layer = layer_of (
    player_entry
    ∷ (Key.amm_pool, Status.update (Value.amm_pool pool))
    ∷ (Key.lp_balance alice, Status.update (Value.lp_balance 9000))
    ∷ [])

abbrev pub vault : Vault
vault = record { collateral_rng = 1000; debt_vusdt = 100 }

abbrev pub vault_layer : Layer
vault_layer = layer_of (player_entry ∷ (Key.vault alice, Status.update (Value.vault vault)) ∷ [])

abbrev pub staker : Staker
staker = record { balance = 500; unlock_ts = 90; last_claim_epoch = 0; voting_power = 5000 }

abbrev pub staker_layer : Layer
staker_layer =
    layer_of (player_entry ∷ (Key.staker alice, Status.update (Value.staker staker)) ∷ [])

-- A house whose epoch began at block 0.
abbrev pub old_layer : Layer
old_layer =
    layer_of
      ((Key.house, Status.update (Value.house (record (new_house 0) { net_pnl = pos 9 }))) ∷ [])

abbrev pub session : GameSession
session = record {
  id = 1;
  player = alice;
  game_type = GameType.hi_lo;
  bet = 100;
  state_blob = [];
  move_count = 0;
  created_at = 99;
  is_complete = false;
  super_mode = default_super_mode;
  is_tournament = false;
  tournament_id = none;
}

abbrev pub session_layer : Layer
session_layer =
    layer_of
      (player_entry ∷ (Key.casino_session 1, Status.update (Value.casino_session session)) ∷ [])

-- A game that is won at the first move, and one that refuses every move.
abbrev pub lucky_game : CasinoGame
lucky_game = record {
  init = λ s r. (GameResult.continue, s);
  process_move = λ s payload r. moved (GameResult.win 300) (record s { is_complete = true });
}

abbrev pub stubborn_game : CasinoGame
stubborn_game = record {
  init = λ s r. (GameResult.loss, s);
  process_move = λ s payload r. failed GameError.invalid_payload;
}

abbrev pub host_of : CasinoGame → Host
host_of game = record {
  sha256 = λ bytes. bytes;
  game = λ kind. game;
  super_multipliers = λ kind rng. [];
}

abbrev pub tournament : Tournament
tournament = record {
  id = 3;
  phase = TournamentPhase.registration;
  start_block = 0;
  start_time_ms = 0;
  end_time_ms = 0;
  players = bob ∷ [];
  prize_pool = 0;
  starting_chips = 1000;
  starting_shields = 3;
  starting_doubles = 3;
  leaderboard = default_leaderboard;
}

abbrev pub tournament_layer : Layer
tournament_layer =
    layer_of (player_entry ∷ (Key.tournament 3, Status.update (Value.tournament tournament)) ∷ [])
