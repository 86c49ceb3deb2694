-- ===== src/Liquidity/Vaults/Frame.antt =====
-- The handlers of the vaults leave the accounts alone.
use supersociety_battleware.Base.{ℕ, arith}
use supersociety_battleware.Types.{PublicKey}
use supersociety_battleware.Layer.{Layer, Leaves}
use supersociety_battleware.Layer.Frame.{IsSound, Keeps, frame_laws}
use supersociety_battleware.Liquidity.Vaults.{
  handle_create_vault, handle_deposit_collateral, handle_borrow_usdt, handle_repay_usdt,
}

pub handle_create_vault-Keeps :
    (q : PublicKey) (p : PublicKey) (l : Layer)
    → IsSound l
    → Leaves (handle_create_vault p l) (Keeps q l)
unfolding handle_create_vault
handle_create_vault-Keeps q p l s = grind (arith, frame_laws)

pub handle_deposit_collateral-Keeps :
    (q : PublicKey) (p : PublicKey) (amount : ℕ) (l : Layer)
    → IsSound l
    → Leaves (handle_deposit_collateral p amount l) (Keeps q l)
unfolding handle_deposit_collateral
handle_deposit_collateral-Keeps q p amount l s = grind (arith, frame_laws)

pub handle_borrow_usdt-Keeps :
    (q : PublicKey) (p : PublicKey) (amount : ℕ) (l : Layer)
    → IsSound l
    → Leaves (handle_borrow_usdt p amount l) (Keeps q l)
unfolding handle_borrow_usdt
handle_borrow_usdt-Keeps q p amount l s = grind (arith, frame_laws)

pub handle_repay_usdt-Keeps :
    (q : PublicKey) (p : PublicKey) (amount : ℕ) (l : Layer)
    → IsSound l
    → Leaves (handle_repay_usdt p amount l) (Keeps q l)
unfolding handle_repay_usdt
handle_repay_usdt-Keeps q p amount l s = grind (arith, frame_laws)
