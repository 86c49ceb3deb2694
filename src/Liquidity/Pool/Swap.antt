-- ===== src/Liquidity/Pool/Swap.antt =====
-- What a swap does to the pool and to the player.
use supersociety_battleware.Base.{
  ℕ, ◌+◌, ◌-◌, ◌*◌, ◌^◌, ◌≤◌, ◌<◌, ◌≡◌, ◌⊎◌, Bool, true, false, some, arith, sat_add,
}
use supersociety_battleware.Types.{PublicKey, Player, AmmPool, error_invalid_move}
use supersociety_battleware.Layer.{
  Layer, Finishes, Ensures, Leaves, player_at, house_at, amm_at, view_laws,
}
use supersociety_battleware.Liquidity.Pool.Quote.{
  sell_tax, swap_fee, swap_out, swap_product, sell_tax-le, swap_denominator_pos,
}
use supersociety_battleware.Liquidity.Pool.{pool_error, exchange, handle_swap}

-- The pool as the chain makes it: 64-bit reserves, and rates of at most the whole.
pub record IsPool (amm : AmmPool) : Type 0 where
  pub rng_fits : amm.reserve_rng < 2 ^ 64
  pub vusdt_fits : amm.reserve_vusdt < 2 ^ 64
  pub fee_fits : amm.fee_basis_points ≤ 10000
  pub tax_fits : amm.sell_tax_basis_points ≤ 10000

-- The input after the sell tax.
abbrev pub taxed : Bool → ℕ → AmmPool → ℕ
taxed true amount_in amm = amount_in
taxed false amount_in amm = amount_in - sell_tax amount_in amm.sell_tax_basis_points

-- What the trader gets for an input after tax.
unfoldable pub out_of : Bool → ℕ → AmmPool → ℕ
out_of true paid amm =
    swap_out (paid - swap_fee paid amm.fee_basis_points) amm.reserve_vusdt amm.reserve_rng
out_of false paid amm =
    swap_out (paid - swap_fee paid amm.fee_basis_points) amm.reserve_rng amm.reserve_vusdt

-- The pool after a swap that goes through, with that input.
unfoldable pub traded : Bool → ℕ → AmmPool → AmmPool
traded true paid amm = record amm {
  reserve_rng = amm.reserve_rng - out_of true paid amm;
  reserve_vusdt = sat_add amm.reserve_vusdt paid;
}
traded false paid amm = record amm {
  reserve_rng = sat_add amm.reserve_rng paid;
  reserve_vusdt = amm.reserve_vusdt - out_of false paid amm;
}

taxed-le : (buying : Bool) (amount_in : ℕ) (amm : AmmPool) → taxed buying amount_in amm ≤ amount_in
taxed-le true amount_in amm = omega arith
taxed-le false amount_in amm = omega arith

-- The exchange leaves the pool alone, or trades.
exchange-traded :
    (p : PublicKey) (original paid burned min_out : ℕ) (buying : Bool) (amm : AmmPool)
    (player : Player) (l : Layer)
    → Leaves
        (exchange p original paid burned min_out buying amm player l)
        (λ l'. (amm_at l' ≡ amm_at l) ⊎ (amm_at l' ≡ traded buying paid amm))
unfolding exchange traded out_of
exchange-traded p original paid burned min_out true amm player l = grind (arith, view_laws)
exchange-traded p original paid burned min_out false amm player l = grind (arith, view_laws)

-- A swap leaves the pool alone, or trades against two reserves that are not empty.
handle_swap-traded :
    (p : PublicKey) (amount_in min_out : ℕ) (buying : Bool) (l : Layer)
    → Ensures (handle_swap p amount_in min_out buying l) (λ events l'.
      (amm_at l' ≡ amm_at l)
      ⊎ ((0 < (amm_at l).reserve_rng)
          × (0 < (amm_at l).reserve_vusdt)
          × (amm_at l' ≡ traded buying (taxed buying amount_in (amm_at l)) (amm_at l))))
unfolding handle_swap
handle_swap-traded p amount_in min_out true l = grind (arith, view_laws, exchange-traded)
handle_swap-traded p amount_in min_out false l = grind (arith, view_laws, exchange-traded)

widen : (n m k r : ℕ) → n ≤ m → (r + n) * k ≤ (r + m) * k
widen n m k r h = grind arith

-- A trade against reserves that are not empty leaves something in the reserve that it takes from,
-- and does not lower the product, if the other reserve has room for the input.
traded-product :
    (buying : Bool) (paid : ℕ) (amm : AmmPool)
    → IsPool amm
    → 0 < amm.reserve_rng
    → 0 < amm.reserve_vusdt
    → amm.reserve_rng + paid < 2 ^ 64
    → amm.reserve_vusdt + paid < 2 ^ 64
    → amm.reserve_rng * amm.reserve_vusdt
      ≤ (traded buying paid amm).reserve_rng * (traded buying paid amm).reserve_vusdt
unfolding traded out_of
traded-product true paid amm v p q h1 h2 =
    let net : ℕ = paid - swap_fee paid amm.fee_basis_points in
    let core = swap_product net amm.reserve_vusdt amm.reserve_rng (omega arith) v.vusdt_fits q p in
    let room : sat_add amm.reserve_vusdt paid ≡ amm.reserve_vusdt + paid = ground arith in
    rw room (
      omega (
        arith,
        widen net paid (amm.reserve_rng - swap_out net amm.reserve_vusdt amm.reserve_rng)
            amm.reserve_vusdt (omega arith),
      ))
traded-product false paid amm v p q h1 h2 =
    let net : ℕ = paid - swap_fee paid amm.fee_basis_points in
    let core = swap_product net amm.reserve_rng amm.reserve_vusdt (omega arith) v.rng_fits p q in
    let room : sat_add amm.reserve_rng paid ≡ amm.reserve_rng + paid = ground arith in
    rw room (
      omega (
        arith,
        widen net paid (amm.reserve_vusdt - swap_out net amm.reserve_rng amm.reserve_vusdt)
            amm.reserve_rng (omega arith),
      ))

-- Whatever comes of a swap, unless it panics, the product of the reserves does not fall, for a
-- pool of 64-bit reserves whose fee and tax are at most the whole, if both reserves have room for
-- the input.
pub handle_swap-product :
    (p : PublicKey) (amount_in min_out : ℕ) (buying : Bool) (l : Layer)
    → IsPool (amm_at l)
    → (amm_at l).reserve_rng + amount_in < 2 ^ 64
    → (amm_at l).reserve_vusdt + amount_in < 2 ^ 64
    → Ensures (handle_swap p amount_in min_out buying l) (λ events l'.
      (amm_at l).reserve_rng * (amm_at l).reserve_vusdt
      ≤ (amm_at l').reserve_rng * (amm_at l').reserve_vusdt)
handle_swap-product p amount_in min_out buying l v h1 h2 = grind (
  arith,
  handle_swap-traded p amount_in min_out buying l,
  traded-product buying (taxed buying amount_in (amm_at l)) (amm_at l) v,
  taxed-le buying amount_in (amm_at l),
)

-- A sale by a player who has the chips, at a price that they accept, to a pool that has both
-- reserves, takes the full amount from them, burns the tax, adds the rest to the pool, and pays
-- out in vUSDT what leaves the pool, if the burned total has room.
pub handle_swap_sale :
    (p : PublicKey) (amount_in min_out : ℕ) (player : Player) (l : Layer)
    → player_at p l ≡ some player
    → IsPool (amm_at l)
    → 0 < amount_in
    → amount_in < 2 ^ 64
    → 0 < (amm_at l).reserve_rng
    → 0 < (amm_at l).reserve_vusdt
    → amount_in ≤ player.chips
    → let tax = sell_tax amount_in (amm_at l).sell_tax_basis_points in
      let out = out_of false (amount_in - tax) (amm_at l) in
      (house_at l).total_burned + tax < 2 ^ 64
      → min_out ≤ out
      → Finishes (handle_swap p amount_in min_out false l) (λ events l'.
        (player_at p l'
          ≡ some (record player {
            chips = player.chips - amount_in;
            vusdt_balance = sat_add player.vusdt_balance out;
          }))
        × (amm_at l' ≡ traded false (amount_in - tax) (amm_at l))
        × ((house_at l').total_burned ≡ (house_at l).total_burned + tax))
unfolding handle_swap exchange traded out_of
handle_swap_sale p amount_in min_out player l at v pos small r1 r2 funds burn accept = grind (
  arith,
  view_laws,
  sell_tax-le amount_in (amm_at l).sell_tax_basis_points,
  swap_denominator_pos
      (amount_in
        - sell_tax amount_in (amm_at l).sell_tax_basis_points
        - swap_fee (amount_in - sell_tax amount_in (amm_at l).sell_tax_basis_points)
            (amm_at l).fee_basis_points)
      (amm_at l).reserve_rng,
)

exchange_purchase :
    (p : PublicKey) (original paid min_out : ℕ) (player : Player) (amm : AmmPool) (l : Layer)
    → 0 < amm.reserve_vusdt
    → paid ≤ player.vusdt_balance
    → min_out ≤ out_of true paid amm
    → Finishes (exchange p original paid 0 min_out true amm player l) (λ events l'.
      (player_at p l'
        ≡ some (record player {
          chips = sat_add player.chips (out_of true paid amm);
          vusdt_balance = player.vusdt_balance - paid;
        }))
      × (amm_at l' ≡ traded true paid amm)
      × ((house_at l').total_burned ≡ (house_at l).total_burned))
unfolding exchange traded out_of
exchange_purchase p original paid min_out player amm l r2 funds accept = grind (
  arith,
  view_laws,
  swap_denominator_pos (paid - swap_fee paid amm.fee_basis_points) amm.reserve_vusdt,
)

-- A purchase by a player who has the vUSDT, at a price that they accept, from a pool that has both
-- reserves, moves it to the pool and pays out in chips what leaves the pool; nothing is burned.
pub handle_swap_purchase :
    (p : PublicKey) (amount_in min_out : ℕ) (player : Player) (l : Layer)
    → player_at p l ≡ some player
    → 0 < amount_in
    → 0 < (amm_at l).reserve_rng
    → 0 < (amm_at l).reserve_vusdt
    → amount_in ≤ player.vusdt_balance
    → min_out ≤ out_of true amount_in (amm_at l)
    → Finishes (handle_swap p amount_in min_out true l) (λ events l'.
      (player_at p l'
        ≡ some (record player {
          chips = sat_add player.chips (out_of true amount_in (amm_at l));
          vusdt_balance = player.vusdt_balance - amount_in;
        }))
      × (amm_at l' ≡ traded true amount_in (amm_at l))
      × ((house_at l').total_burned ≡ (house_at l).total_burned))
unfolding handle_swap
handle_swap_purchase p amount_in min_out player l at pos r1 r2 funds accept =
    grind
      (arith, exchange_purchase p amount_in amount_in min_out player (amm_at l) l r2 funds accept)

-- A sale that is refused for its price leaves player and pool as they are, but its tax is counted
-- as burned all the same, if the burned total has room.
pub handle_swap_refused_burns :
    (p : PublicKey) (amount_in min_out : ℕ) (player : Player) (l : Layer)
    → player_at p l ≡ some player
    → 0 < amount_in
    → 0 < (amm_at l).reserve_rng
    → 0 < (amm_at l).reserve_vusdt
    → let tax = sell_tax amount_in (amm_at l).sell_tax_basis_points in
      (house_at l).total_burned + tax < 2 ^ 64
      → out_of false (amount_in - tax) (amm_at l) < min_out
      → Finishes (handle_swap p amount_in min_out false l) (λ events l'.
        (events ≡ pool_error p error_invalid_move)
        × (player_at p l' ≡ some player)
        × (amm_at l' ≡ amm_at l)
        × ((house_at l').total_burned ≡ (house_at l).total_burned + tax))
unfolding handle_swap exchange out_of
handle_swap_refused_burns p amount_in min_out player l at pos r1 r2 burn refuse = grind (
  arith,
  view_laws,
  swap_denominator_pos
      (amount_in
        - sell_tax amount_in (amm_at l).sell_tax_basis_points
        - swap_fee (amount_in - sell_tax amount_in (amm_at l).sell_tax_basis_points)
            (amm_at l).fee_basis_points)
      (amm_at l).reserve_rng,
)
