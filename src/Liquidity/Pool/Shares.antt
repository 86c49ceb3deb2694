-- ===== src/Liquidity/Pool/Shares.antt =====
-- What deposits and withdrawals of liquidity do to the pool's shares.
use supersociety_battleware.Base.{
  ℕ, ◌+◌, ◌-◌, ◌*◌, ◌^◌, ◌≤◌, ◌<◌, ◌≡◌, ◌⊎◌, some, arith, sat_add, as_u64, min,
}
use supersociety_battleware.Types.{PublicKey, Player, error_invalid_move}
use supersociety_battleware.Layer.{
  Layer, done, Finishes, player_at, amm_at, lp_balance_at, or_else, view_laws,
}
use supersociety_battleware.Liquidity.Sqrt.{integer_sqrt, integer_sqrt_lem}
use supersociety_battleware.Liquidity.Pool.Quote.{
  proportional_shares, withdrawn, withdrawn_bound, proportional_shares_bound,
}
use supersociety_battleware.Liquidity.Pool.{
  pool_error, handle_add_liquidity, handle_remove_liquidity,
}

-- A withdrawal leaves the pool alone, or takes the part of each reserve that the shares stand for.
handle_remove_liquidity-amm :
    (p : PublicKey) (shares : ℕ) (l : Layer)
    → Finishes (handle_remove_liquidity p shares l) (λ events l'.
      (amm_at l' ≡ amm_at l)
      ⊎ ((0 < (amm_at l).total_shares)
          × (shares ≤ (amm_at l).total_shares)
          × (shares ≤ lp_balance_at p l)
          × (lp_balance_at p l' + shares ≡ lp_balance_at p l)
          × (amm_at l' ≡ record (amm_at l) {
            reserve_rng =
                (amm_at l).reserve_rng
                - withdrawn shares (amm_at l).reserve_rng (amm_at l).total_shares;
            reserve_vusdt =
                (amm_at l).reserve_vusdt
                - withdrawn shares (amm_at l).reserve_vusdt (amm_at l).total_shares;
            total_shares = (amm_at l).total_shares - shares;
          })))
unfolding handle_remove_liquidity
handle_remove_liquidity-amm p shares l = grind (arith, view_laws)

part_value : (s k w m : ℕ) → w * (s + k) ≤ s * (w + m) → (w + m) * k ≤ m * (s + k)
part_value s k w m h = omega arith

withdrawn-value :
    (shares reserve total : ℕ)
    → 0 < total
    → shares ≤ total
    → reserve * (total - shares) ≤ (reserve - withdrawn shares reserve total) * total
withdrawn-value shares reserve total p h =
    let w : ℕ = withdrawn shares reserve total in
    let bound = withdrawn_bound shares reserve total p h in
    let t : shares + (total - shares) ≡ total = omega arith in
    let r : w + (reserve - w) ≡ reserve = omega arith in
    rw (r, t) at (part_value shares (total - shares) w (reserve - w) (rw (r, t) bound.0))

-- A share is worth no less of either reserve after a withdrawal than before, whatever comes of it.
pub handle_remove_liquidity-value :
    (p : PublicKey) (shares : ℕ) (l : Layer)
    → Finishes (handle_remove_liquidity p shares l) (λ events l'.
      ((amm_at l).reserve_rng * (amm_at l').total_shares
        ≤ (amm_at l').reserve_rng * (amm_at l).total_shares)
      × ((amm_at l).reserve_vusdt * (amm_at l').total_shares
          ≤ (amm_at l').reserve_vusdt * (amm_at l).total_shares))
handle_remove_liquidity-value p shares l = grind (
  arith,
  handle_remove_liquidity-amm p shares l,
  withdrawn-value shares (amm_at l).reserve_rng (amm_at l).total_shares,
  withdrawn-value shares (amm_at l).reserve_vusdt (amm_at l).total_shares,
)

-- A withdrawal by a registered player moves RNG and vUSDT from the pool to the player: the sums
-- stay the same, if they fit 64 bits.
pub handle_remove_liquidity_sums :
    (p : PublicKey) (shares : ℕ) (player : Player) (l : Layer)
    → player_at p l ≡ some player
    → player.chips + (amm_at l).reserve_rng < 2 ^ 64
    → player.vusdt_balance + (amm_at l).reserve_vusdt < 2 ^ 64
    → Finishes (handle_remove_liquidity p shares l) (λ events l'.
      let player' = or_else (player_at p l') player in
      (player'.chips + (amm_at l').reserve_rng ≡ player.chips + (amm_at l).reserve_rng)
      × (player'.vusdt_balance + (amm_at l').reserve_vusdt
          ≡ player.vusdt_balance + (amm_at l).reserve_vusdt))
unfolding handle_remove_liquidity
handle_remove_liquidity_sums p shares player l at h1 h2 = grind (
  arith,
  view_laws,
  withdrawn_bound shares (amm_at l).reserve_rng (amm_at l).total_shares,
  withdrawn_bound shares (amm_at l).reserve_vusdt (amm_at l).total_shares,
)

-- A deposit into a pool that has shares leaves it alone, or adds the amounts to the reserves and
-- mints at most the shares in proportion to each.
handle_add_liquidity-amm :
    (p : PublicKey) (rng usdt : ℕ) (l : Layer)
    → 0 < (amm_at l).total_shares
    → Finishes (handle_add_liquidity p rng usdt l) (λ events l'.
      let amm = amm_at l in
      let minted = as_u64 (
        min
          (proportional_shares rng amm.total_shares amm.reserve_rng)
          (proportional_shares usdt amm.total_shares amm.reserve_vusdt)) in
      (amm_at l' ≡ amm)
      ⊎ ((0 < amm.reserve_rng)
          × (0 < amm.reserve_vusdt)
          × (amm_at l' ≡ record amm {
            reserve_rng = sat_add amm.reserve_rng rng;
            reserve_vusdt = sat_add amm.reserve_vusdt usdt;
            total_shares = sat_add (sat_add amm.total_shares 0) (minted - 0);
          })))
unfolding handle_add_liquidity
handle_add_liquidity-amm p rng usdt l pos = grind (arith, view_laws)

-- Minting at most in proportion does not thin out a reserve.
minted-value :
    (amount minted total reserve : ℕ)
    → 0 < reserve
    → minted ≤ proportional_shares amount total reserve
    → reserve * (total + minted) ≤ (reserve + amount) * total
minted-value amount minted total reserve p h =
    let bound = proportional_shares_bound amount total reserve p in
    let m : minted * reserve ≤ proportional_shares amount total reserve * reserve = grind arith in
    omega arith

sat_add-le : (a b : ℕ) → sat_add a b ≤ a + b
sat_add-le a b = ground arith

sat_add_fits : (a b : ℕ) → a + b < 2 ^ 64 → sat_add a b ≡ a + b
sat_add_fits a b h = ground arith

mul_mono : (r a b : ℕ) → a ≤ b → r * a ≤ r * b
mul_mono r a b h = grind arith

-- One reserve's side of the claim below, with the saturating sums.
deposit-value :
    (amount minted total reserve : ℕ)
    → 0 < reserve
    → reserve + amount < 2 ^ 64
    → minted ≤ proportional_shares amount total reserve
    → reserve * sat_add (sat_add total 0) (minted - 0) ≤ sat_add reserve amount * total
deposit-value amount minted total reserve p fits h =
    let value = minted-value amount minted total reserve p h in
    let t : sat_add (sat_add total 0) (minted - 0) ≤ total + minted =
      omega (arith, sat_add-le total 0, sat_add-le (sat_add total 0) (minted - 0)) in
    let m : reserve * sat_add (sat_add total 0) (minted - 0) ≤ reserve * (total + minted) =
      mul_mono reserve _ _ t in
    rw (sat_add_fits reserve amount fits) (omega arith)

-- Whatever comes of a deposit into a pool that has shares, a share is worth no less of either
-- reserve than before, if the reserves have room for the amounts.
pub handle_add_liquidity-value :
    (p : PublicKey) (rng usdt : ℕ) (l : Layer)
    → 0 < (amm_at l).total_shares
    → (amm_at l).reserve_rng + rng < 2 ^ 64
    → (amm_at l).reserve_vusdt + usdt < 2 ^ 64
    → Finishes (handle_add_liquidity p rng usdt l) (λ events l'.
      ((amm_at l).reserve_rng * (amm_at l').total_shares
        ≤ (amm_at l').reserve_rng * (amm_at l).total_shares)
      × ((amm_at l).reserve_vusdt * (amm_at l').total_shares
          ≤ (amm_at l').reserve_vusdt * (amm_at l).total_shares))
handle_add_liquidity-value p rng usdt l pos h1 h2 =
    let amm = amm_at l in
    let a : ℕ = proportional_shares rng amm.total_shares amm.reserve_rng in
    let b : ℕ = proportional_shares usdt amm.total_shares amm.reserve_vusdt in
    grind (
      arith,
      handle_add_liquidity-amm p rng usdt l pos,
      (λ (q : 0 < amm.reserve_rng).
          deposit-value rng (as_u64 (min a b)) amm.total_shares amm.reserve_rng q h1 (omega arith)),
      (λ (q : 0 < amm.reserve_vusdt).
          deposit-value usdt (as_u64 (min a b)) amm.total_shares amm.reserve_vusdt q h2
            (omega arith)),
    )

-- The first deposit, by a player who has its amounts and no shares, makes as many shares as the
-- integer root of the product of the amounts, if that is above a thousand and the product fits 128
-- bits. A thousand of them belong to nobody, the rest to the player, who pays the amounts.
pub handle_add_liquidity_first :
    (p : PublicKey) (rng usdt : ℕ) (player : Player) (l : Layer)
    → player_at p l ≡ some player
    → (amm_at l).total_shares ≡ 0
    → 0 < rng
    → 0 < usdt
    → rng ≤ player.chips
    → usdt ≤ player.vusdt_balance
    → lp_balance_at p l ≡ 0
    → rng * usdt + 1 < 2 ^ 128
    → 1000 < integer_sqrt (rng * usdt)
    → Finishes (handle_add_liquidity p rng usdt l) (λ events l'.
      ((amm_at l').total_shares ≡ integer_sqrt (rng * usdt))
      × (lp_balance_at p l' + 1000 ≡ (amm_at l').total_shares)
      × (player_at p l'
          ≡ some (record player {
            chips = player.chips - rng;
            vusdt_balance = player.vusdt_balance - usdt;
          })))
unfolding handle_add_liquidity
handle_add_liquidity_first p rng usdt player l at none_yet r u c b lp fits enough =
    grind (arith, view_laws, integer_sqrt_lem (rng * usdt) fits)

-- A first deposit that is too small is refused and changes nothing.
pub handle_add_liquidity_small :
    (p : PublicKey) (rng usdt : ℕ) (player : Player) (l : Layer)
    → player_at p l ≡ some player
    → (amm_at l).total_shares ≡ 0
    → 0 < rng
    → 0 < usdt
    → rng ≤ player.chips
    → usdt ≤ player.vusdt_balance
    → integer_sqrt (rng * usdt) ≤ 1000
    → handle_add_liquidity p rng usdt l ≡ done (pool_error p error_invalid_move) l
unfolding handle_add_liquidity
handle_add_liquidity_small p rng usdt player l at none_yet r u c b small = grind arith

-- Whatever comes of a withdrawal, the total of the shares falls by just what the player's own
-- shares fall: the rest, which others hold, stays.
pub handle_remove_liquidity_others :
    (p : PublicKey) (shares : ℕ) (l : Layer)
    → Finishes (handle_remove_liquidity p shares l) (λ events l'.
      (amm_at l').total_shares + lp_balance_at p l ≡ (amm_at l).total_shares + lp_balance_at p l')
unfolding handle_remove_liquidity
handle_remove_liquidity_others p shares l = grind (arith, view_laws)
