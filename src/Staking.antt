-- ===== src/Staking.antt =====
-- execution/src/layer/handlers/staking.rs: stakes, their release, and the epochs of the house.
pub mod Laws
pub mod Frame
use supersociety_battleware.Base.{
  ℕ, ◌+◌, ◌-◌, ◌*◌, pos, ltb, leb, ◌==◌, Option, none, some, List, [], ◌∷◌, if◌then◌else◌,
}
use supersociety_battleware.Types.{
  PublicKey, Event, Key, Value, Player, HouseState, Staker, default_staker,
  error_insufficient_funds, error_invalid_bet, error_invalid_move,
}
use supersociety_battleware.Layer.{
  M, ◌>>=◌, ◌>>◌, pure, exit, return_if, or_return, checked, put, look, seed_view, handler, or_else,
  player_at, staker_at, house_at, insert,
}

abbrev pub stake_error : PublicKey → ℕ → List Event
stake_error public code = Event.casino_error public none code ∷ []

pub handle_stake : PublicKey → ℕ → ℕ → M (List Event)
handle_stake public amount duration = handler do
  player ← or_return (← look (player_at public)) []
  return_if (ltb player.chips amount) (stake_error public error_insufficient_funds)
  return_if (ltb duration 1) (stake_error public error_invalid_bet)
  put (Key.casino_player public)
      (Value.casino_player (record player { chips = player.chips - amount }))
  staker ← look (λ l. or_else (staker_at public l) default_staker)
  current_block ← seed_view
  new_unlock ← checked 64 (current_block + duration)
  balance ← checked 64 (staker.balance + amount)
  let voting_power = balance * duration
  put (Key.staker public) (
      Value.staker
        (record staker { balance = balance; unlock_ts = new_unlock; voting_power = voting_power }))
  house ← look house_at
  total_staked ← checked 64 (house.total_staked_amount + amount)
  total_voting ← checked 128 (house.total_voting_power + amount * duration)
  put Key.house (
      Value.house
        (record house { total_staked_amount = total_staked; total_voting_power = total_voting }))
  pure (Event.staked public amount duration balance new_unlock voting_power ∷ [])

-- The chips go back to the player, if there is one.
abbrev pub return_chips : PublicKey → ℕ → M (Unit {0})
return_chips public amount l = elim (player_at public l) [
  | none ↦ pure tt l
  | some player ↦
      (do
        chips ← checked 64 (player.chips + amount)
        put (Key.casino_player public) (Value.casino_player (record player { chips = chips })))
        l
]

unfoldable pub handle_unstake : PublicKey → M (List Event)
handle_unstake public = handler do
  staker ← or_return (← look (staker_at public)) []
  current_block ← seed_view
  return_if (ltb current_block staker.unlock_ts) (stake_error public error_invalid_move)
  return_if (staker.balance == 0) []
  return_chips public staker.balance
  house ← look house_at
  put Key.house (
      Value.house (record house {
        total_staked_amount = house.total_staked_amount - staker.balance;
        total_voting_power = house.total_voting_power - staker.voting_power;
      }))
  put (Key.staker public) (Value.staker (record staker { balance = 0; voting_power = 0 }))
  pure (Event.unstaked public staker.balance ∷ [])

pub handle_claim_rewards : PublicKey → M (List Event)
handle_claim_rewards public = handler do
  staker ← or_return (← look (staker_at public)) []
  return_if (staker.balance == 0) []
  pure (Event.rewards_claimed public 0 ∷ [])

abbrev pub epoch_length : ℕ
epoch_length = 100

-- `net_pnl` is reset whether there was a surplus or a deficit.
pub handle_process_epoch : PublicKey → M (List Event)
handle_process_epoch public = handler do
  house ← look house_at
  view ← seed_view
  epoch_end ← checked 64 (house.epoch_start_ts + epoch_length)
  return_if (ltb view epoch_end) []
  epoch ← checked 64 (house.current_epoch + 1)
  put Key.house
      (Value.house (record house { current_epoch = epoch; epoch_start_ts = view; net_pnl = pos 0 }))
  pure (Event.epoch_processed epoch ∷ [])
