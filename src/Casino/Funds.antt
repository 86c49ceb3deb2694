-- ===== src/Casino/Funds.antt =====
-- The two purses of a player, the modifiers, the fee of the super mode, the house's profit, and the
-- leaderboards.
pub mod Frame
use supersociety_battleware.Base.{
  ℕ, ℤ, ◌+ℤ◌, ◌/◌, Bool, true, false, Option, none, some, if◌then◌else◌,
}
use supersociety_battleware.Types.{PublicKey, Key, Value, Player, GameSession, Tournament}
use supersociety_battleware.Layer.{
  M, ◌>>=◌, pure, put, look, checked_signed, tournament_at, house_at, leaderboard_at,
}
use supersociety_battleware.Leaderboard.{update_board}

-- The chips that a session plays with: those of the tournament or the player's own.
unfoldable pub stack_of : Bool → Player → ℕ
stack_of true player = player.tournament_chips
stack_of false player = player.chips

unfoldable pub set_stack : Bool → ℕ → Player → Player
set_stack true chips player = record player { tournament_chips = chips }
set_stack false chips player = record player { chips = chips }

unfoldable pub shields_of : Bool → Player → ℕ
shields_of true player = player.tournament_shields
shields_of false player = player.shields

unfoldable pub set_shields : Bool → ℕ → Player → Player
set_shields true n player = record player { tournament_shields = n }
set_shields false n player = record player { shields = n }

unfoldable pub doubles_of : Bool → Player → ℕ
doubles_of true player = player.tournament_doubles
doubles_of false player = player.doubles

unfoldable pub set_doubles : Bool → ℕ → Player → Player
set_doubles true n player = record player { tournament_doubles = n }
set_doubles false n player = record player { doubles = n }

unfoldable pub clear_modifiers : Player → Player
clear_modifiers player = record player {
  active_shield = false;
  active_double = false;
  active_super = false;
}

-- `get_super_mode_fee`
abbrev pub super_mode_fee : ℕ → ℕ
super_mode_fee bet = bet / 5

-- `update_house_pnl`
unfoldable pub update_house_pnl : ℤ → M (Unit {0})
update_house_pnl amount = do
  house ← look house_at
  pnl ← checked_signed 127 (house.net_pnl +ℤ amount)
  put Key.house (Value.house (record house { net_pnl = pnl }))

-- `update_casino_leaderboard`
unfoldable pub update_casino_leaderboard : PublicKey → Player → M (Unit {0})
update_casino_leaderboard public player = do
  board ← look leaderboard_at
  put Key.casino_leaderboard
      (Value.casino_leaderboard (update_board public player.name player.chips board))

abbrev pub board_of_tournament : ℕ → PublicKey → Player → Option Tournament → M (Unit {0})
board_of_tournament id public player none = pure tt
board_of_tournament id public player (some t) = put (Key.tournament id) (
    Value.tournament (record t {
      leaderboard = update_board public player.name player.tournament_chips t.leaderboard;
    }))

-- `update_tournament_leaderboard`
unfoldable pub update_tournament_leaderboard : ℕ → PublicKey → Player → M (Unit {0})
update_tournament_leaderboard id public player =
    look (tournament_at id) >>= board_of_tournament id public player

abbrev pub board_of_session : Option ℕ → PublicKey → Player → M (Unit {0})
board_of_session none public player = pure tt
board_of_session (some id) public player = update_tournament_leaderboard id public player

-- `update_leaderboard_for_session`
unfoldable pub update_leaderboard_for_session : GameSession → PublicKey → Player → M (Unit {0})
update_leaderboard_for_session session public player =
    if session.is_tournament
    then board_of_session session.tournament_id public player
    else update_casino_leaderboard public player
