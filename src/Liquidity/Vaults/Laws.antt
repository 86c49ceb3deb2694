-- ===== src/Liquidity/Vaults/Laws.antt =====
-- What the operations on vaults keep: the collateral behind a debt, and the sums of the tokens.
use supersociety_battleware.Base.{
  ℕ, ◌+◌, ◌*◌, ◌^◌, ◌≤◌, ◌<◌, ◌≡◌, ◌⊎◌, Option, none, some, [], ◌∷◌, arith,
}
use supersociety_battleware.Types.{
  PublicKey, Event, Key, Player, Vault, AmmPool, error_invalid_move, default_vault,
}
use supersociety_battleware.Layer.{
  Layer, done, Finishes, Ensures, get, player_at, vault_at, amm_at, view_laws,
}
use supersociety_battleware.Liquidity.Vaults.{
  vault_error, price_numerator, price_denominator, handle_create_vault, handle_deposit_collateral,
  handle_borrow_usdt, handle_repay_usdt,
}

-- A vault is created once: where there is none it is empty afterwards, and a second call changes
-- nothing.
pub handle_create_vault_once :
    (p : PublicKey) (l : Layer)
    → get (Key.vault p) l ≡ none
    → Finishes (handle_create_vault p l) (λ events l'.
      (events ≡ Event.vault_created p ∷ [])
      × (vault_at p l' ≡ some default_vault)
      × (handle_create_vault p l' ≡ done (vault_error p error_invalid_move) l'))
unfolding handle_create_vault
handle_create_vault_once p l fresh = grind (arith, view_laws)

-- The chips of a player and the collateral of their vault.
abbrev pub rng_of : PublicKey → Layer → ℕ
rng_of p l =
    elim (player_at p l) [ none ↦ 0 | some player ↦ player.chips ]
    + elim (vault_at p l) [ none ↦ 0 | some vault ↦ vault.collateral_rng ]

-- A deposit moves chips into the vault: together they stay the same, whatever comes of the call,
-- unless it panics.
pub handle_deposit_collateral-rng_of :
    (p : PublicKey) (amount : ℕ) (l : Layer)
    → Ensures (handle_deposit_collateral p amount l) (λ events l'. rng_of p l' ≡ rng_of p l)
unfolding handle_deposit_collateral
handle_deposit_collateral-rng_of p amount l = grind (arith, view_laws)

-- At the pool's price, twice the debt is at most the collateral.
abbrev pub IsCovered : AmmPool → Vault → Type 0
IsCovered amm v = 2 * v.debt_vusdt * price_denominator amm ≤ v.collateral_rng * price_numerator amm

-- There is a vault, and it is covered.
abbrev pub HasCover : AmmPool → Option Vault → Type 0
HasCover amm none = ⊥
HasCover amm (some v) = IsCovered amm v

-- Whatever comes of a request for a loan, unless it panics, the vault is as it was, or twice its
-- debt is at most its collateral at the pool's price.
pub handle_borrow_usdt-IsCovered :
    (p : PublicKey) (amount : ℕ) (l : Layer)
    → Ensures
        (handle_borrow_usdt p amount l)
        (λ events l'. (vault_at p l' ≡ vault_at p l) ⊎ HasCover (amm_at l) (vault_at p l'))
unfolding handle_borrow_usdt
handle_borrow_usdt-IsCovered p amount l = grind (arith, view_laws)

-- A loan to a registered player that the collateral covers is granted: the debt and the balance of
-- the player grow by its amount, if neither they nor the test of the cover overflow.
pub handle_borrow_usdt_granted :
    (p : PublicKey) (amount : ℕ) (player : Player) (vault : Vault) (l : Layer)
    → player_at p l ≡ some player
    → vault_at p l ≡ some vault
    → vault.debt_vusdt + amount < 2 ^ 64
    → player.vusdt_balance + amount < 2 ^ 64
    → 2 * (vault.debt_vusdt + amount) * price_denominator (amm_at l) < 2 ^ 128
    → IsCovered (amm_at l) (record vault { debt_vusdt = vault.debt_vusdt + amount })
    → Finishes (handle_borrow_usdt p amount l) (λ events l'.
      (events ≡ Event.vusdt_borrowed p amount (vault.debt_vusdt + amount) ∷ [])
      × (vault_at p l' ≡ some (record vault { debt_vusdt = vault.debt_vusdt + amount }))
      × (player_at p l' ≡ some (record player { vusdt_balance = player.vusdt_balance + amount })))
unfolding handle_borrow_usdt
handle_borrow_usdt_granted p amount player vault l at v h1 h2 h3 covered = grind (arith, view_laws)

abbrev pub vusdt_of : PublicKey → Layer → ℕ
vusdt_of p l = elim (player_at p l) [ none ↦ 0 | some player ↦ player.vusdt_balance ]

abbrev pub debt_of : PublicKey → Layer → ℕ
debt_of p l = elim (vault_at p l) [ none ↦ 0 | some vault ↦ vault.debt_vusdt ]

-- For a registered player, a request for a loan changes balance and debt by the same amount,
-- unless it panics.
pub handle_borrow_usdt_books :
    (p : PublicKey) (amount : ℕ) (player : Player) (l : Layer)
    → player_at p l ≡ some player
    → Ensures
        (handle_borrow_usdt p amount l)
        (λ events l'. vusdt_of p l' + debt_of p l ≡ vusdt_of p l + debt_of p l')
unfolding handle_borrow_usdt
handle_borrow_usdt_books p amount player l at = grind (arith, view_laws)

-- A repayment lowers balance and debt by the same amount, and never by more than was offered or
-- owed.
pub handle_repay_usdt_books :
    (p : PublicKey) (amount : ℕ) (l : Layer)
    → Finishes (handle_repay_usdt p amount l) (λ events l'.
      (vusdt_of p l' + debt_of p l ≡ vusdt_of p l + debt_of p l')
      × (debt_of p l' ≤ debt_of p l)
      × (debt_of p l ≤ debt_of p l' + amount))
unfolding handle_repay_usdt
handle_repay_usdt_books p amount l = grind (arith, view_laws)
