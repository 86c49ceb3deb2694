-- ===== src/Liquidity/Vaults.antt =====
-- The vaults: `handle_create_vault`, `handle_deposit_collateral`, `handle_borrow_usdt` and
-- `handle_repay_usdt`.
pub mod Laws
pub mod Frame
use supersociety_battleware.Base.{
  ℕ, ◌+◌, ◌-◌, ◌*◌, min, ltb, Bool, true, false, Option, none, some, List, [], ◌∷◌, if◌then◌else◌,
}
use supersociety_battleware.Types.{
  PublicKey, Event, Key, Value, Player, Vault, AmmPool, default_vault, error_insufficient_funds,
  error_invalid_move,
}
use supersociety_battleware.Layer.{
  M, ◌>>=◌, ◌>>◌, pure, exit, return_if, or_return, checked, put, look, handler, get, player_at,
  vault_at, amm_at,
}

abbrev pub vault_error : PublicKey → ℕ → List Event
vault_error public code = Event.casino_error public none code ∷ []

abbrev pub is_some : {A : Type 0} → Option A → Bool
is_some (some a) = true
is_some none = false

pub handle_create_vault : PublicKey → M (List Event)
handle_create_vault public = handler do
  return_if (is_some (← look (get (Key.vault public)))) (vault_error public error_invalid_move)
  put (Key.vault public) (Value.vault default_vault)
  pure (Event.vault_created public ∷ [])

pub handle_deposit_collateral : PublicKey → ℕ → M (List Event)
handle_deposit_collateral public amount = handler do
  player ← or_return (← look (player_at public)) []
  return_if (ltb player.chips amount) (vault_error public error_insufficient_funds)
  vault ← or_return (← look (vault_at public)) (vault_error public error_invalid_move)
  collateral ← checked 64 (vault.collateral_rng + amount)
  put (Key.casino_player public)
      (Value.casino_player (record player { chips = player.chips - amount }))
  put (Key.vault public) (Value.vault (record vault { collateral_rng = collateral }))
  pure (Event.collateral_deposited public amount collateral ∷ [])

-- The price of the collateral, as a fraction: that of the pool, or 1 before it has reserves.
abbrev pub price_numerator : AmmPool → ℕ
price_numerator amm = if ltb 0 amm.reserve_rng then amm.reserve_vusdt else 1

abbrev pub price_denominator : AmmPool → ℕ
price_denominator amm = if ltb 0 amm.reserve_rng then amm.reserve_rng else 1

-- The loan is credited to the player, if there is one.
abbrev pub credit_vusdt : PublicKey → ℕ → Option Player → M (Unit {0})
credit_vusdt public amount none = pure tt
credit_vusdt public amount (some player) = do
  balance ← checked 64 (player.vusdt_balance + amount)
  put (Key.casino_player public) (Value.casino_player (record player { vusdt_balance = balance }))

pub handle_borrow_usdt : PublicKey → ℕ → M (List Event)
handle_borrow_usdt public amount = handler do
  vault ← or_return (← look (vault_at public)) []
  amm ← look amm_at
  new_debt ← checked 64 (vault.debt_vusdt + amount)
  lhs ← checked 128 (2 * new_debt * price_denominator amm)
  let rhs = vault.collateral_rng * price_numerator amm
  return_if (ltb rhs lhs) (vault_error public error_invalid_move)
  put (Key.vault public) (Value.vault (record vault { debt_vusdt = new_debt }))
  credit_vusdt public amount (← look (player_at public))
  pure (Event.vusdt_borrowed public amount new_debt ∷ [])

pub handle_repay_usdt : PublicKey → ℕ → M (List Event)
handle_repay_usdt public amount = handler do
  player ← or_return (← look (player_at public)) []
  vault ← or_return (← look (vault_at public)) []
  return_if (ltb player.vusdt_balance amount) (vault_error public error_insufficient_funds)
  let actual_repay = min amount vault.debt_vusdt
  let new_debt = vault.debt_vusdt - actual_repay
  put (Key.casino_player public)
      (Value.casino_player (record player { vusdt_balance = player.vusdt_balance - actual_repay }))
  put (Key.vault public) (Value.vault (record vault { debt_vusdt = new_debt }))
  pure (Event.vusdt_repaid public actual_repay new_debt ∷ [])
