-- ===== src/Layer/Views.antt =====
-- What the layer holds at each kind of key, at the type that the handlers expect there: a value of
-- another type is treated as missing, as the handlers' patterns do. The laws give each view after
-- any write.
use supersociety_battleware.Base.{
  ℕ, Bool, true, false, Option, none, some, ◌≡◌, refl, inl, inr, Bool-cases, if◌then◌else◌, ==_refl,
}
use supersociety_battleware.Types.{
  PublicKey, Key, Value, Player, GameSession, CasinoLeaderboard, Tournament, HouseState, Staker,
  Vault, AmmPool, Account, new_house, new_amm, default_leaderboard, key_eq,
}
use supersociety_battleware.Layer.Store.{Layer, get, insert}
use supersociety_battleware.Layer.Laws.{get-insert, seed-insert}

abbrev pub as_player : Option Value → Option Player
as_player (some (Value.casino_player p)) = some p
as_player _ = none

abbrev pub as_session : Option Value → Option GameSession
as_session (some (Value.casino_session s)) = some s
as_session _ = none

abbrev pub as_leaderboard : Option Value → Option CasinoLeaderboard
as_leaderboard (some (Value.casino_leaderboard b)) = some b
as_leaderboard _ = none

abbrev pub as_tournament : Option Value → Option Tournament
as_tournament (some (Value.tournament t)) = some t
as_tournament _ = none

abbrev pub as_house : Option Value → Option HouseState
as_house (some (Value.house h)) = some h
as_house _ = none

abbrev pub as_staker : Option Value → Option Staker
as_staker (some (Value.staker s)) = some s
as_staker _ = none

abbrev pub as_vault : Option Value → Option Vault
as_vault (some (Value.vault v)) = some v
as_vault _ = none

abbrev pub as_amm_pool : Option Value → Option AmmPool
as_amm_pool (some (Value.amm_pool p)) = some p
as_amm_pool _ = none

abbrev pub as_lp_balance : Option Value → Option ℕ
as_lp_balance (some (Value.lp_balance b)) = some b
as_lp_balance _ = none

abbrev pub as_account : Option Value → Option Account
as_account (some (Value.account a)) = some a
as_account _ = none

abbrev pub or_else : {A : Type 0} → Option A → A → A
or_else none d = d
or_else (some a) d = a

-- What the layer holds at the keys of a player, by the type that is expected there.
unfoldable pub player_at : PublicKey → Layer → Option Player
player_at p l = as_player (get (Key.casino_player p) l)

unfoldable pub vault_at : PublicKey → Layer → Option Vault
vault_at p l = as_vault (get (Key.vault p) l)

unfoldable pub staker_at : PublicKey → Layer → Option Staker
staker_at p l = as_staker (get (Key.staker p) l)

unfoldable pub session_at : ℕ → Layer → Option GameSession
session_at i l = as_session (get (Key.casino_session i) l)

unfoldable pub tournament_at : ℕ → Layer → Option Tournament
tournament_at i l = as_tournament (get (Key.tournament i) l)

-- `get_or_init_house`, `get_or_init_amm`, `get_lp_balance`
unfoldable pub house_at : Layer → HouseState
house_at l = or_else (as_house (get Key.house l)) (new_house l.seed.view)

unfoldable pub amm_at : Layer → AmmPool
amm_at l = or_else (as_amm_pool (get Key.amm_pool l)) (new_amm 30)

unfoldable pub lp_balance_at : PublicKey → Layer → ℕ
lp_balance_at p l = or_else (as_lp_balance (get (Key.lp_balance p) l)) 0

-- The leaderboard of the cash games, by default empty.
unfoldable pub leaderboard_at : Layer → CasinoLeaderboard
leaderboard_at l = or_else (as_leaderboard (get Key.casino_leaderboard l)) default_leaderboard

-- `load_account` of execution/src/state.rs: by default the nonce is 0.
unfoldable pub load_account : PublicKey → Layer → Account
load_account p l = or_else (as_account (get (Key.account p) l)) (record { nonce = 0 })

pub player_at-insert :
    (p : PublicKey) (k : Key) (v : Value) (l : Layer)
    → player_at p (insert k v l)
      ≡ (if key_eq k (Key.casino_player p) then as_player (some v) else player_at p l)
unfolding player_at
player_at-insert p k v l = elim (Bool-cases (key_eq k (Key.casino_player p))) [
  | inl q ↦ rw (get-insert (Key.casino_player p) k v l, q)
  | inr q ↦ rw (get-insert (Key.casino_player p) k v l, q)
]

pub vault_at-insert :
    (p : PublicKey) (k : Key) (v : Value) (l : Layer)
    → vault_at p (insert k v l)
      ≡ (if key_eq k (Key.vault p) then as_vault (some v) else vault_at p l)
unfolding vault_at
vault_at-insert p k v l = elim (Bool-cases (key_eq k (Key.vault p))) [
  | inl q ↦ rw (get-insert (Key.vault p) k v l, q)
  | inr q ↦ rw (get-insert (Key.vault p) k v l, q)
]

pub staker_at-insert :
    (p : PublicKey) (k : Key) (v : Value) (l : Layer)
    → staker_at p (insert k v l)
      ≡ (if key_eq k (Key.staker p) then as_staker (some v) else staker_at p l)
unfolding staker_at
staker_at-insert p k v l = elim (Bool-cases (key_eq k (Key.staker p))) [
  | inl q ↦ rw (get-insert (Key.staker p) k v l, q)
  | inr q ↦ rw (get-insert (Key.staker p) k v l, q)
]

pub session_at-insert :
    (i : ℕ) (k : Key) (v : Value) (l : Layer)
    → session_at i (insert k v l)
      ≡ (if key_eq k (Key.casino_session i) then as_session (some v) else session_at i l)
unfolding session_at
session_at-insert i k v l = elim (Bool-cases (key_eq k (Key.casino_session i))) [
  | inl q ↦ rw (get-insert (Key.casino_session i) k v l, q)
  | inr q ↦ rw (get-insert (Key.casino_session i) k v l, q)
]

pub tournament_at-insert :
    (i : ℕ) (k : Key) (v : Value) (l : Layer)
    → tournament_at i (insert k v l)
      ≡ (if key_eq k (Key.tournament i) then as_tournament (some v) else tournament_at i l)
unfolding tournament_at
tournament_at-insert i k v l = elim (Bool-cases (key_eq k (Key.tournament i))) [
  | inl q ↦ rw (get-insert (Key.tournament i) k v l, q)
  | inr q ↦ rw (get-insert (Key.tournament i) k v l, q)
]

pub house_at-insert :
    (k : Key) (v : Value) (l : Layer)
    → house_at (insert k v l) ≡ (
        if key_eq k Key.house
        then or_else (as_house (some v)) (new_house l.seed.view)
        else house_at l)
unfolding house_at insert
house_at-insert k v l = elim (Bool-cases (key_eq k Key.house)) [
  | inl q ↦ rw (get-insert Key.house k v l, q)
  | inr q ↦ rw (get-insert Key.house k v l, q)
]

pub amm_at-insert :
    (k : Key) (v : Value) (l : Layer)
    → amm_at (insert k v l)
      ≡ (if key_eq k Key.amm_pool then or_else (as_amm_pool (some v)) (new_amm 30) else amm_at l)
unfolding amm_at
amm_at-insert k v l = elim (Bool-cases (key_eq k Key.amm_pool)) [
  | inl q ↦ rw (get-insert Key.amm_pool k v l, q)
  | inr q ↦ rw (get-insert Key.amm_pool k v l, q)
]

pub lp_balance_at-insert :
    (p : PublicKey) (k : Key) (v : Value) (l : Layer)
    → lp_balance_at p (insert k v l) ≡ (
        if key_eq k (Key.lp_balance p)
        then or_else (as_lp_balance (some v)) 0
        else lp_balance_at p l)
unfolding lp_balance_at
lp_balance_at-insert p k v l = elim (Bool-cases (key_eq k (Key.lp_balance p))) [
  | inl q ↦ rw (get-insert (Key.lp_balance p) k v l, q)
  | inr q ↦ rw (get-insert (Key.lp_balance p) k v l, q)
]

pub leaderboard_at-insert :
    (k : Key) (v : Value) (l : Layer)
    → leaderboard_at (insert k v l) ≡ (
        if key_eq k Key.casino_leaderboard
        then or_else (as_leaderboard (some v)) default_leaderboard
        else leaderboard_at l)
unfolding leaderboard_at
leaderboard_at-insert k v l = elim (Bool-cases (key_eq k Key.casino_leaderboard)) [
  | inl q ↦ rw (get-insert Key.casino_leaderboard k v l, q)
  | inr q ↦ rw (get-insert Key.casino_leaderboard k v l, q)
]

pub load_account-insert :
    (p : PublicKey) (k : Key) (v : Value) (l : Layer)
    → load_account p (insert k v l) ≡ (
        if key_eq k (Key.account p)
        then or_else (as_account (some v)) (record { nonce = 0 })
        else load_account p l)
unfolding load_account
load_account-insert p k v l = elim (Bool-cases (key_eq k (Key.account p))) [
  | inl q ↦ rw (get-insert (Key.account p) k v l, q)
  | inr q ↦ rw (get-insert (Key.account p) k v l, q)
]

pub ruleset view_laws = (
  player_at-insert, vault_at-insert, staker_at-insert, session_at-insert, tournament_at-insert,
  house_at-insert, amm_at-insert, lp_balance_at-insert, leaderboard_at-insert, load_account-insert,
  seed-insert, get-insert, ==_refl,
)
