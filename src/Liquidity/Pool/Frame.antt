-- ===== src/Liquidity/Pool/Frame.antt =====
-- The handlers of the pool leave the accounts alone.
use supersociety_battleware.Base.{ℕ, Bool, arith}
use supersociety_battleware.Types.{PublicKey, Player, AmmPool}
use supersociety_battleware.Layer.{Layer, Leaves}
use supersociety_battleware.Layer.Frame.{IsSound, Keeps, frame_laws}
use supersociety_battleware.Liquidity.Pool.{
  exchange, handle_swap, handle_add_liquidity, handle_remove_liquidity,
}

pub exchange-Keeps :
    (q : PublicKey) (p : PublicKey) (original : ℕ) (amount_in : ℕ) (burned : ℕ) (min_out : ℕ)
    (buying : Bool) (amm : AmmPool) (player : Player) (l : Layer)
    → IsSound l
    → Leaves (exchange p original amount_in burned min_out buying amm player l) (Keeps q l)
unfolding exchange
exchange-Keeps q p original amount_in burned min_out buying amm player l s =
    grind (arith, frame_laws)

pub handle_swap-Keeps :
    (q : PublicKey) (p : PublicKey) (amount_in : ℕ) (min_out : ℕ) (buying : Bool) (l : Layer)
    → IsSound l
    → Leaves (handle_swap p amount_in min_out buying l) (Keeps q l)
unfolding handle_swap
handle_swap-Keeps q p amount_in min_out buying l s = grind (arith, frame_laws, exchange-Keeps q)

pub handle_add_liquidity-Keeps :
    (q : PublicKey) (p : PublicKey) (rng : ℕ) (usdt : ℕ) (l : Layer)
    → IsSound l
    → Leaves (handle_add_liquidity p rng usdt l) (Keeps q l)
unfolding handle_add_liquidity
handle_add_liquidity-Keeps q p rng usdt l s = grind (arith, frame_laws)

pub handle_remove_liquidity-Keeps :
    (q : PublicKey) (p : PublicKey) (shares : ℕ) (l : Layer)
    → IsSound l
    → Leaves (handle_remove_liquidity p shares l) (Keeps q l)
unfolding handle_remove_liquidity
handle_remove_liquidity-Keeps q p shares l s = grind (arith, frame_laws)
