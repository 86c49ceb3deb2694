-- ===== src/Types/Store.antt =====
-- Accounts, keys, values, instructions and transactions of types/src/execution.rs.
use supersociety_battleware.Base.{
  ℕ, Bool, true, false, List, ◌≡◌, arith, ◌==◌, Bool-cases, inl, inr,
}
use supersociety_battleware.Types.Constants.{PublicKey}
use supersociety_battleware.Types.Game.{GameType}
use supersociety_battleware.Types.Players.{Player, GameSession}
use supersociety_battleware.Types.Economy.{HouseState, Staker, Vault, AmmPool}
use supersociety_battleware.Types.Tournaments.{CasinoLeaderboard, Tournament}

pub record Account : Type 0 where
  pub nonce : ℕ

pub data Key : Type 0 where
  account casino_player : PublicKey → Key
  casino_session : ℕ → Key
  casino_leaderboard : Key
  tournament : ℕ → Key
  house : Key
  staker vault : PublicKey → Key
  amm_pool : Key
  lp_balance : PublicKey → Key

pub data Value : Type 0 where
  account : Account → Value
  commit : ℕ → ℕ → Value
  casino_player : Player → Value
  casino_session : GameSession → Value
  casino_leaderboard : CasinoLeaderboard → Value
  tournament : Tournament → Value
  house : HouseState → Value
  staker : Staker → Value
  vault : Vault → Value
  amm_pool : AmmPool → Value
  lp_balance : ℕ → Value

-- The derived equality of keys.
abbrev pub key_eq : Key → Key → Bool
key_eq (Key.account p) (Key.account q) = p == q
key_eq (Key.casino_player p) (Key.casino_player q) = p == q
key_eq (Key.casino_session i) (Key.casino_session j) = i == j
key_eq Key.casino_leaderboard Key.casino_leaderboard = true
key_eq (Key.tournament i) (Key.tournament j) = i == j
key_eq Key.house Key.house = true
key_eq (Key.staker p) (Key.staker q) = p == q
key_eq (Key.vault p) (Key.vault q) = p == q
key_eq Key.amm_pool Key.amm_pool = true
key_eq (Key.lp_balance p) (Key.lp_balance q) = p == q
key_eq _ _ = false

pub key_eq_refl : (k : Key) → key_eq k k ≡ true
key_eq_refl k = ground arith

pub key_eq_sound : (j k : Key) → key_eq j k ≡ true → j ≡ k
key_eq_sound j k h = ground arith

pub data Instruction : Type 0 where
  casino_register : List ℕ → Instruction
  casino_deposit : ℕ → Instruction
  casino_start_game : GameType → ℕ → ℕ → Instruction
  casino_game_move : ℕ → List ℕ → Instruction
  casino_toggle_shield casino_toggle_double casino_toggle_super : Instruction
  casino_join_tournament : ℕ → Instruction
  casino_start_tournament : ℕ → ℕ → ℕ → Instruction
  casino_end_tournament : ℕ → Instruction
  stake : ℕ → ℕ → Instruction
  unstake claim_rewards process_epoch create_vault : Instruction
  deposit_collateral borrow_usdt repay_usdt : ℕ → Instruction
  swap : ℕ → ℕ → Bool → Instruction
  add_liquidity : ℕ → ℕ → Instruction
  remove_liquidity : ℕ → Instruction

pub record Transaction : Type 0 where
  pub nonce : ℕ
  pub instruction : Instruction
  pub public_key : PublicKey
  pub signature : ℕ

pub key_eq_distinct : (i j k : Key) → key_eq i j ≡ false → key_eq i k ≡ true → key_eq j k ≡ false
key_eq_distinct i j k p q = elim (Bool-cases (key_eq j k)) [
  | inl r ↦ cc (key_eq_sound j k r)
  | inr r ↦ r
]
