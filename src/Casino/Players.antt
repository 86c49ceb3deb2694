-- ===== src/Casino/Players.antt =====
-- Registration, the daily faucet and the modifiers: `handle_casino_register`,
-- `handle_casino_deposit` and the three toggles.
pub mod Laws
pub mod Frame
use supersociety_battleware.Base.{
  ℕ, ◌*◌, ◌/◌, ltb, ◌==◌, sat_add, sat_mul, Bool, true, false, not, ◌&&◌, Option, none, some, List,
  [], ◌∷◌, if◌then◌else◌,
}
use supersociety_battleware.Types.{
  PublicKey, Event, Key, Value, Player, new_player, error_player_already_registered,
  error_player_not_found, error_rate_limited,
}
use supersociety_battleware.Layer.{
  M, ◌>>=◌, ◌>>◌, pure, return_if, or_return, put, look, seed_view, handler, get, player_at,
}
use supersociety_battleware.Liquidity.Vaults.{is_some}
use supersociety_battleware.Casino.Funds.{update_casino_leaderboard}

abbrev pub casino_error : PublicKey → Option ℕ → ℕ → List Event
casino_error public session_id code = Event.casino_error public session_id code ∷ []

pub handle_casino_register : PublicKey → List ℕ → M (List Event)
handle_casino_register public name = handler do
  return_if (is_some (← look (get (Key.casino_player public))))
      (casino_error public none error_player_already_registered)
  put (Key.casino_player public) (Value.casino_player (new_player name))
  update_casino_leaderboard public (new_player name)
  pure (Event.casino_player_registered public name ∷ [])

-- The day of a block: three seconds to a block.
abbrev pub day_of_block : ℕ → ℕ
day_of_block block = sat_mul block 3 / 86400

pub handle_casino_deposit : PublicKey → ℕ → M (List Event)
handle_casino_deposit public amount = handler do
  player ← or_return (← look (player_at public)) (casino_error public none error_player_not_found)
  current_block ← seed_view
  return_if
      (not (player.last_deposit_block == 0)
        && day_of_block player.last_deposit_block == day_of_block current_block)
      (casino_error public none error_rate_limited)
  let player' = record player {
    chips = sat_add player.chips amount;
    last_deposit_block = current_block;
  }
  put (Key.casino_player public) (Value.casino_player player')
  update_casino_leaderboard public player'
  pure (Event.casino_player_registered public player.name ∷ [])

-- A toggle does nothing for a key that is not registered.
abbrev pub change_player : PublicKey → (Player → Player) → Option Player → M (List Event)
change_player public f none = pure []
change_player public f (some player) = do
  put (Key.casino_player public) (Value.casino_player (f player))
  pure []

pub handle_casino_toggle_shield : PublicKey → M (List Event)
handle_casino_toggle_shield public = handler do
  change_player public (λ p. record p { active_shield = not p.active_shield })
      (← look (player_at public))

pub handle_casino_toggle_double : PublicKey → M (List Event)
handle_casino_toggle_double public = handler do
  change_player public (λ p. record p { active_double = not p.active_double })
      (← look (player_at public))

pub handle_casino_toggle_super : PublicKey → M (List Event)
handle_casino_toggle_super public = handler do
  change_player public (λ p. record p { active_super = not p.active_super })
      (← look (player_at public))
