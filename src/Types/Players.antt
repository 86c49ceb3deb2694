-- ===== src/Types/Players.antt =====
-- types/src/casino/player.rs: a registered player, and a game session.
use supersociety_battleware.Base.{ℕ, Bool, false, Option, none, List}
use supersociety_battleware.Types.Constants.{
  PublicKey, initial_chips, starting_shields, starting_doubles,
}
use supersociety_battleware.Types.Game.{GameType, SuperModeState}

pub record Player : Type 0 where
  pub nonce : ℕ
  pub name : List ℕ
  pub chips : ℕ
  pub vusdt_balance : ℕ
  pub shields : ℕ
  pub doubles : ℕ
  pub tournament_chips : ℕ
  pub tournament_shields : ℕ
  pub tournament_doubles : ℕ
  pub active_tournament : Option ℕ
  pub rank : ℕ
  pub active_shield : Bool
  pub active_double : Bool
  pub active_super : Bool
  pub active_session : Option ℕ
  pub last_deposit_block : ℕ
  pub aura_meter : ℕ
  pub tournaments_played_today : ℕ
  pub last_tournament_ts : ℕ
  pub is_kyc_verified : Bool

-- `Player::new_with_block`, which does not use the block.
unfoldable pub new_player : List ℕ → Player
new_player name = record {
  nonce = 0;
  name = name;
  chips = initial_chips;
  vusdt_balance = 0;
  shields = starting_shields;
  doubles = starting_doubles;
  tournament_chips = 0;
  tournament_shields = 0;
  tournament_doubles = 0;
  active_tournament = none;
  rank = 0;
  active_shield = false;
  active_double = false;
  active_super = false;
  active_session = none;
  last_deposit_block = 0;
  aura_meter = 0;
  tournaments_played_today = 0;
  last_tournament_ts = 0;
  is_kyc_verified = false;
}

pub record GameSession : Type 0 where
  pub id : ℕ
  pub player : PublicKey
  pub game_type : GameType
  pub bet : ℕ
  pub state_blob : List ℕ
  pub move_count : ℕ
  pub created_at : ℕ
  pub is_complete : Bool
  pub super_mode : SuperModeState
  pub is_tournament : Bool
  pub tournament_id : Option ℕ
