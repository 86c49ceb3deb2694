-- ===== src/Liquidity/Pool.antt =====
-- The exchange pool: `handle_swap`, `handle_add_liquidity` and `handle_remove_liquidity`.
pub mod Quote
pub mod Swap
pub mod Shares
pub mod Frame
use supersociety_battleware.Base.{
  ℕ, ◌+◌, ◌-◌, ◌*◌, ◌/◌, min, ltb, leb, ◌==◌, ◌||◌, ◌&&◌, Bool, true, false, Option, none, some,
  List, [], ◌∷◌, if◌then◌else◌, sat_add, as_u64, not,
}
use supersociety_battleware.Types.{
  PublicKey, Event, Key, Value, Player, AmmPool, HouseState, error_insufficient_funds,
  error_invalid_move,
}
use supersociety_battleware.Layer.{
  M, ◌>>=◌, ◌>>◌, pure, exit, return_if, when, or_return, checked, put, look, handler, player_at,
  house_at, amm_at, lp_balance_at,
}
use supersociety_battleware.Liquidity.Sqrt.{integer_sqrt}
use supersociety_battleware.Liquidity.Pool.Quote.{
  sell_tax, swap_fee, swap_denominator, swap_out, proportional_shares, withdrawn,
}

abbrev pub minimum_liquidity : ℕ
minimum_liquidity = 1000

abbrev pub pool_error : PublicKey → ℕ → List Event
pool_error public code = Event.casino_error public none code ∷ []

-- The sell tax is booked before the swap is known to go through.
abbrev pub book_burned : ℕ → M (Unit {0})
book_burned burned = do
  house ← look house_at
  total ← checked 64 (house.total_burned + burned)
  put Key.house (Value.house (record house { total_burned = total }))

abbrev pub book_fee : ℕ → M (Unit {0})
book_fee fee = do
  house ← look house_at
  put Key.house (
      Value.house (record house { accumulated_fees = sat_add house.accumulated_fees (as_u64 fee) }))

-- The exchange itself, for a buyer of RNG: the player's and the pool's new state.
abbrev pub buy : PublicKey → ℕ → ℕ → Player → AmmPool → M (Player × AmmPool)
buy public amount_in amount_out player amm = do
  return_if (ltb player.vusdt_balance amount_in) (pool_error public error_insufficient_funds)
  pure (
    record player {
      chips = sat_add player.chips amount_out;
      vusdt_balance = player.vusdt_balance - amount_in;
    },
    record amm {
      reserve_rng = amm.reserve_rng - amount_out;
      reserve_vusdt = sat_add amm.reserve_vusdt amount_in;
    },
  )

-- And for a seller, who pays the tax on top.
abbrev pub sell : PublicKey → ℕ → ℕ → ℕ → Player → AmmPool → M (Player × AmmPool)
sell public amount_in burned amount_out player amm = do
  total_deduction ← checked 64 (amount_in + burned)
  return_if (ltb player.chips total_deduction) (pool_error public error_insufficient_funds)
  pure (
    record player {
      chips = player.chips - total_deduction;
      vusdt_balance = sat_add player.vusdt_balance amount_out;
    },
    record amm {
      reserve_rng = sat_add amm.reserve_rng amount_in;
      reserve_vusdt = amm.reserve_vusdt - amount_out;
    },
  )

-- From the reserves on: the quote, its checks, and the writes. `amount_in` is what is left of the
-- original amount after the tax.
pub exchange : PublicKey → ℕ → ℕ → ℕ → ℕ → Bool → AmmPool → Player → M (List Event)
exchange public original_amount_in amount_in burned min_amount_out is_buying_rng amm player = do
  let reserve_in = if is_buying_rng then amm.reserve_vusdt else amm.reserve_rng
  let reserve_out = if is_buying_rng then amm.reserve_rng else amm.reserve_vusdt
  let fee = swap_fee amount_in amm.fee_basis_points
  return_if (swap_denominator (amount_in - fee) reserve_in == 0)
      (pool_error public error_invalid_move)
  let amount_out = swap_out (amount_in - fee) reserve_in reserve_out
  return_if (ltb amount_out min_amount_out) (pool_error public error_invalid_move)
  after ←
      if is_buying_rng
      then buy public amount_in amount_out player amm
      else sell public amount_in burned amount_out player amm
  when (ltb 0 fee) (book_fee fee)
  put (Key.casino_player public) (Value.casino_player after.0)
  put Key.amm_pool (Value.amm_pool after.1)
  pure (
      Event.amm_swapped public is_buying_rng original_amount_in amount_out (as_u64 fee) burned
        after.1.reserve_rng after.1.reserve_vusdt
      ∷ [])

pub handle_swap : PublicKey → ℕ → ℕ → Bool → M (List Event)
handle_swap public original_amount_in min_amount_out is_buying_rng = handler do
  amm ← look amm_at
  player ← or_return (← look (player_at public)) []
  return_if (original_amount_in == 0) []
  return_if (amm.reserve_rng == 0 || amm.reserve_vusdt == 0) (pool_error public error_invalid_move)
  let burned = if is_buying_rng then 0 else sell_tax original_amount_in amm.sell_tax_basis_points
  when (ltb 0 burned) (book_burned burned)
  exchange public original_amount_in (original_amount_in - burned) burned min_amount_out
      is_buying_rng amm player

-- The shares for a deposit: the root of the product for the first, else in proportion.
abbrev pub shares_for : PublicKey → ℕ → ℕ → AmmPool → M ℕ
shares_for public rng_amount usdt_amount amm =
    if amm.total_shares == 0
    then pure (integer_sqrt (rng_amount * usdt_amount))
    else return_if (amm.reserve_rng == 0 || amm.reserve_vusdt == 0)
        (pool_error public error_invalid_move)
      >> pure (
          as_u64 (
            min (proportional_shares rng_amount amm.total_shares amm.reserve_rng)
              (proportional_shares usdt_amount amm.total_shares amm.reserve_vusdt)))

-- On the first deposit the minimum is locked: it is counted in the total and given to nobody.
abbrev pub locked_shares : AmmPool → ℕ
locked_shares amm = if amm.total_shares == 0 then minimum_liquidity else 0

pub handle_add_liquidity : PublicKey → ℕ → ℕ → M (List Event)
handle_add_liquidity public rng_amount usdt_amount = handler do
  amm ← look amm_at
  player ← or_return (← look (player_at public)) []
  return_if (rng_amount == 0 || usdt_amount == 0) (pool_error public error_invalid_move)
  return_if (ltb player.chips rng_amount || ltb player.vusdt_balance usdt_amount)
      (pool_error public error_insufficient_funds)
  lp_balance ← look (lp_balance_at public)
  shares ← shares_for public rng_amount usdt_amount amm
  return_if (amm.total_shares == 0 && leb shares minimum_liquidity)
      (pool_error public error_invalid_move)
  let minted = shares - locked_shares amm
  return_if (minted == 0) (pool_error public error_invalid_move)
  let total = sat_add (sat_add amm.total_shares (locked_shares amm)) minted
  let reserve_rng = sat_add amm.reserve_rng rng_amount
  let reserve_vusdt = sat_add amm.reserve_vusdt usdt_amount
  put (Key.casino_player public) (
      Value.casino_player (record player {
        chips = player.chips - rng_amount;
        vusdt_balance = player.vusdt_balance - usdt_amount;
      }))
  put Key.amm_pool (
      Value.amm_pool (record amm {
        reserve_rng = reserve_rng;
        reserve_vusdt = reserve_vusdt;
        total_shares = total;
      }))
  put (Key.lp_balance public) (Value.lp_balance (sat_add lp_balance minted))
  pure (
      Event.liquidity_added public rng_amount usdt_amount minted total reserve_rng reserve_vusdt
        (sat_add lp_balance minted)
      ∷ [])

pub handle_remove_liquidity : PublicKey → ℕ → M (List Event)
handle_remove_liquidity public shares = handler do
  return_if (shares == 0) []
  amm ← look amm_at
  return_if (amm.total_shares == 0 || ltb amm.total_shares shares) []
  lp_balance ← look (lp_balance_at public)
  return_if (ltb lp_balance shares) (pool_error public error_insufficient_funds)
  player ← or_return (← look (player_at public)) []
  let amount_rng = withdrawn shares amm.reserve_rng amm.total_shares
  let amount_vusd = withdrawn shares amm.reserve_vusdt amm.total_shares
  let reserve_rng = amm.reserve_rng - amount_rng
  let reserve_vusdt = amm.reserve_vusdt - amount_vusd
  let total = amm.total_shares - shares
  put (Key.casino_player public) (
      Value.casino_player (record player {
        chips = sat_add player.chips amount_rng;
        vusdt_balance = sat_add player.vusdt_balance amount_vusd;
      }))
  put Key.amm_pool (
      Value.amm_pool (record amm {
        reserve_rng = reserve_rng;
        reserve_vusdt = reserve_vusdt;
        total_shares = total;
      }))
  put (Key.lp_balance public) (Value.lp_balance (lp_balance - shares))
  pure (
      Event.liquidity_removed public amount_rng amount_vusd shares total reserve_rng reserve_vusdt
        (lp_balance - shares)
      ∷ [])
