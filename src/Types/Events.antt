-- ===== src/Types/Events.antt =====
-- `Event` of types/src/execution.rs: what the handlers report. The text of an error, which is for
-- people, is left out: its code is kept. Two events that no handler emits are left out.
use supersociety_battleware.Base.{ℕ, ℤ, Bool, Option, List}
use supersociety_battleware.Types.Constants.{PublicKey}
use supersociety_battleware.Types.Game.{GameType}

-- The arguments stand in the order of the source's fields.
pub data Event : Type 0 where
  casino_player_registered : PublicKey → List ℕ → Event
  casino_game_started : ℕ → PublicKey → GameType → ℕ → List ℕ → Event
  casino_game_moved : ℕ → ℕ → List ℕ → Event
  casino_game_completed : ℕ → PublicKey → GameType → ℤ → ℕ → Bool → Bool → Event
  casino_error : PublicKey → Option ℕ → ℕ → Event
  tournament_started : ℕ → ℕ → Event
  player_joined : ℕ → PublicKey → Event
  tournament_ended : ℕ → List (PublicKey × ℕ) → Event
  vault_created : PublicKey → Event
  collateral_deposited : PublicKey → ℕ → ℕ → Event
  vusdt_borrowed : PublicKey → ℕ → ℕ → Event
  vusdt_repaid : PublicKey → ℕ → ℕ → Event
  amm_swapped : PublicKey → Bool → ℕ → ℕ → ℕ → ℕ → ℕ → ℕ → Event
  liquidity_added : PublicKey → ℕ → ℕ → ℕ → ℕ → ℕ → ℕ → ℕ → Event
  liquidity_removed : PublicKey → ℕ → ℕ → ℕ → ℕ → ℕ → ℕ → ℕ → Event
  staked : PublicKey → ℕ → ℕ → ℕ → ℕ → ℕ → Event
  unstaked : PublicKey → ℕ → Event
  epoch_processed : ℕ → Event
  rewards_claimed : PublicKey → ℕ → Event
