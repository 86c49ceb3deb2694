-- ===== src/Tests/Liquidity.antt =====
-- The pool and the vaults at concrete inputs.
use supersociety_battleware.Tests.Data.{alice, rich, pool_layer, vault_layer}
use supersociety_battleware.Base.{◌+◌, ◌*◌, ◌^◌, ◌≤◌, ◌<◌, ◌≡◌, refl, ◌⊎◌, false, some, arith}
use supersociety_battleware.Types.{error_invalid_move}
use supersociety_battleware.Layer.{
  Finishes, Ensures, player_at, vault_at, staker_at, house_at, amm_at, lp_balance_at, pending_get,
  get,
}
use supersociety_battleware.Liquidity.Sqrt.{integer_sqrt, integer_sqrt_lem}
use supersociety_battleware.Liquidity.Pool.{
  pool_error, handle_swap, handle_add_liquidity, handle_remove_liquidity,
}
use supersociety_battleware.Liquidity.Pool.Quote.{sell_tax, swap_fee, swap_denominator, swap_out}
use supersociety_battleware.Liquidity.Pool.Swap.{
  out_of, handle_swap-product, handle_swap_refused_burns,
}
use supersociety_battleware.Liquidity.Pool.Shares.{
  handle_remove_liquidity-value, handle_add_liquidity-value,
}
use supersociety_battleware.Liquidity.Vaults.{handle_borrow_usdt}
use supersociety_battleware.Liquidity.Vaults.Laws.{HasCover, handle_borrow_usdt-IsCovered}

integer_sqrt_lem_example :
    let r = integer_sqrt 200 in (r * r ≤ 200) × (200 < (r + 1) * (r + 1)) × (r < 2 ^ 64)
integer_sqrt_lem_example = integer_sqrt_lem 200 (omega arith)

handle_swap-product_example : Ensures (handle_swap alice 100 1 false pool_layer) (λ events l'.
    (amm_at pool_layer).reserve_rng * (amm_at pool_layer).reserve_vusdt
    ≤ (amm_at l').reserve_rng * (amm_at l').reserve_vusdt)
unfolding amm_at player_at house_at lp_balance_at vault_at staker_at get pending_get
handle_swap-product_example =
    handle_swap-product alice 100 1 false pool_layer
      (record {
        rng_fits = omega arith;
        vusdt_fits = omega arith;
        fee_fits = omega arith;
        tax_fits = omega arith;
      })
      (omega arith) (omega arith)

handle_swap_refused_burns_example :
    let tax = sell_tax 1000 (amm_at pool_layer).sell_tax_basis_points in
    Finishes (handle_swap alice 1000 9000 false pool_layer) (λ events l'.
      (events ≡ pool_error alice error_invalid_move)
      × (player_at alice l' ≡ some rich)
      × (amm_at l' ≡ amm_at pool_layer)
      × ((house_at l').total_burned ≡ (house_at pool_layer).total_burned + tax))
unfolding amm_at player_at house_at lp_balance_at vault_at staker_at get pending_get out_of sell_tax
    swap_fee swap_out swap_denominator
handle_swap_refused_burns_example =
    handle_swap_refused_burns alice 1000 9000 rich pool_layer refl (omega arith) (omega arith)
      (omega arith) (omega arith) (omega arith)

handle_remove_liquidity-value_example :
    Finishes (handle_remove_liquidity alice 2000 pool_layer) (λ events l'.
      ((amm_at pool_layer).reserve_rng * (amm_at l').total_shares
        ≤ (amm_at l').reserve_rng * (amm_at pool_layer).total_shares)
      × ((amm_at pool_layer).reserve_vusdt * (amm_at l').total_shares
          ≤ (amm_at l').reserve_vusdt * (amm_at pool_layer).total_shares))
handle_remove_liquidity-value_example = handle_remove_liquidity-value alice 2000 pool_layer

handle_add_liquidity-value_example :
    Finishes (handle_add_liquidity alice 300 400 pool_layer) (λ events l'.
      ((amm_at pool_layer).reserve_rng * (amm_at l').total_shares
        ≤ (amm_at l').reserve_rng * (amm_at pool_layer).total_shares)
      × ((amm_at pool_layer).reserve_vusdt * (amm_at l').total_shares
          ≤ (amm_at l').reserve_vusdt * (amm_at pool_layer).total_shares))
unfolding amm_at player_at house_at lp_balance_at vault_at staker_at get pending_get
handle_add_liquidity-value_example =
    handle_add_liquidity-value alice 300 400 pool_layer (omega arith) (omega arith) (omega arith)

handle_borrow_usdt-IsCovered_example :
    Ensures (handle_borrow_usdt alice 200 vault_layer) (λ events l'.
      (vault_at alice l' ≡ vault_at alice vault_layer)
      ⊎ HasCover (amm_at vault_layer) (vault_at alice l'))
handle_borrow_usdt-IsCovered_example = handle_borrow_usdt-IsCovered alice 200 vault_layer
