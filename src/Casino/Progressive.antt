-- ===== src/Casino/Progressive.antt =====
-- The progressive jackpots: `apply_progressive_meters_for_completion` and what it calls, with the
-- parsers and hand tests of execution/src/layer/mod.rs.
pub mod Hands
pub mod Frame
use supersociety_battleware.Base.{
  ℕ, ◌-◌, ◌/◌, max, ltb, leb, ◌==◌, sat_add, sat_mul, Bool, true, false, not, ◌&&◌, ◌||◌, Option,
  none, some, List, [], ◌∷◌, if◌then◌else◌,
}
use supersociety_battleware.Types.{
  GameType, GameSession, HouseState, Key, Value, three_card_progressive_base_jackpot,
  uth_progressive_base_jackpot,
}
use supersociety_battleware.Layer.{M, ◌>>=◌, ◌>>◌, pure, put, look, house_at}
use supersociety_battleware.Casino.Interface.{GameResult, win}
use supersociety_battleware.Casino.Progressive.Hands.{
  ThreeCardState, UthState, parse_three_card_progressive_state, parse_uth_progressive_state,
  is_three_card_mini_royal_spades, uth_progressive_jackpot_tier, UthJackpotTier, royal_flush,
  straight_flush, no_tier,
}

abbrev pub is_win : GameResult → Bool
is_win (win payout) = true
is_win _ = false

-- The payout of a win grows by `delta`; any other result stays.
abbrev pub raise_win : ℕ → GameResult → GameResult
raise_win delta (win payout) = if ltb 0 delta then win (sat_add payout delta) else win payout
raise_win delta result = result

-- The meter after a bet went in.
abbrev pub fed_jackpot : ℕ → ℕ → ℕ → ℕ
fed_jackpot meter base bet = sat_add (max meter base) bet

abbrev pub three_card_meter : Option ThreeCardState → GameResult → M GameResult
three_card_meter none result = pure result
three_card_meter (some s) result = if s.progressive_bet == 0 then pure result else do
  house ← look house_at
  let base = three_card_progressive_base_jackpot
  let jackpot = fed_jackpot house.three_card_progressive_jackpot base s.progressive_bet
  let is_jackpot = is_win result && is_three_card_mini_royal_spades s.c0 s.c1 s.c2
  let delta = if is_jackpot then sat_mul s.progressive_bet (jackpot - base) else 0
  put Key.house (
      Value.house
        (record house { three_card_progressive_jackpot = if is_jackpot then base else jackpot }))
  pure (raise_win delta result)

-- `apply_three_card_progressive_meter`
unfoldable pub apply_three_card_progressive_meter : GameSession → GameResult → M GameResult
apply_three_card_progressive_meter session result =
    three_card_meter (parse_three_card_progressive_state session.state_blob) result

-- What a hand pays of a jackpot.
abbrev pub tier_delta : UthJackpotTier → ℕ → ℕ → ℕ → ℕ
tier_delta royal_flush bet jackpot base = sat_mul bet (jackpot - base)
tier_delta straight_flush bet jackpot base = sat_mul bet (jackpot / 10 - base / 10)
tier_delta no_tier bet jackpot base = 0

-- Only the highest hand resets the meter.
abbrev pub tier_meter : UthJackpotTier → ℕ → ℕ → ℕ
tier_meter royal_flush jackpot base = base
tier_meter straight_flush jackpot base = jackpot
tier_meter no_tier jackpot base = jackpot

abbrev pub uth_meter : Option UthState → GameResult → M GameResult
uth_meter none result = pure result
uth_meter (some s) result = if s.progressive_bet == 0 then pure result else do
  house ← look house_at
  let base = uth_progressive_base_jackpot
  let jackpot = fed_jackpot house.uth_progressive_jackpot base s.progressive_bet
  let tier =
      if is_win result then uth_progressive_jackpot_tier s.h0 s.h1 s.f0 s.f1 s.f2 else no_tier
  put Key.house
      (Value.house (record house { uth_progressive_jackpot = tier_meter tier jackpot base }))
  pure (raise_win (tier_delta tier s.progressive_bet jackpot base) result)

-- `apply_uth_progressive_meter`
unfoldable pub apply_uth_progressive_meter : GameSession → GameResult → M GameResult
apply_uth_progressive_meter session result =
    uth_meter (parse_uth_progressive_state session.state_blob) result

-- The games that have a meter.
abbrev pub meter_of : GameType → GameSession → GameResult → M GameResult
meter_of GameType.three_card session result = apply_three_card_progressive_meter session result
meter_of GameType.ultimate_holdem session result = apply_uth_progressive_meter session result
meter_of _ session result = pure result

-- `apply_progressive_meters_for_completion`: only for a cash session that the game completed.
unfoldable pub apply_progressive_meters : GameSession → GameResult → M GameResult
apply_progressive_meters session result =
    if session.is_tournament || not session.is_complete
    then pure result
    else meter_of session.game_type session result
