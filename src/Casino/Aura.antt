-- ===== src/Casino/Aura.antt =====
-- The aura meter of the super mode (execution/src/casino/super_mode.rs), and its use by the handlers.
use supersociety_battleware.Base.{
  ℕ, ◌+◌, ◌*◌, ◌/◌, ◌≤◌, min, leb, Bool, true, not, ◌&&◌, List, [], ◌∷◌, if◌then◌else◌, arith,
}
use supersociety_battleware.Types.{Player, GameSession, SuperMultiplier}
use supersociety_battleware.Layer.{M, ◌>>=◌, pure, checked}

abbrev pub aura_meter_max : ℕ
aura_meter_max = 5

-- The increment does not overflow: the handlers call this below the maximum only.
unfoldable pub update_aura_meter : ℕ → Bool → Bool → ℕ
update_aura_meter current had_aura_element won =
    if had_aura_element && not won
    then min (current + 1) aura_meter_max
    else if won
    then 0
    else current

unfoldable pub is_super_aura_round : ℕ → Bool
is_super_aura_round meter = leb aura_meter_max meter

-- `update_aura_meter_for_completion`
unfoldable pub aura_after_completion : Player → GameSession → Bool → Player
unfolding update_aura_meter is_super_aura_round
aura_after_completion player session won =
    if session.super_mode.is_active
    then (if is_super_aura_round player.aura_meter
        then record player { aura_meter = 0 }
        else record player { aura_meter = update_aura_meter player.aura_meter true won })
    else player

-- `consume_aura_round_on_push`
unfoldable pub aura_after_push : Player → GameSession → Player
unfolding is_super_aura_round
aura_after_push player session =
    if session.super_mode.is_active && is_super_aura_round player.aura_meter
    then record player { aura_meter = 0 }
    else player

-- `enhance_multipliers_for_aura_round`, on `u16`.
abbrev pub enhance_multipliers : List SuperMultiplier → M (List SuperMultiplier)
enhance_multipliers [] = pure []
enhance_multipliers (m ∷ ms) = do
  tripled ← checked 16 (m.multiplier * 3)
  rest ← enhance_multipliers ms
  pure (record m { multiplier = tripled / 2 } ∷ rest)

-- The meter stays within its segments, whatever comes of the game.
pub aura_after_completion-le :
    (player : Player) (session : GameSession) (won : Bool)
    → player.aura_meter ≤ 5
    → (aura_after_completion player session won).aura_meter ≤ 5
unfolding aura_after_completion
aura_after_completion-le player session won h = ground arith
