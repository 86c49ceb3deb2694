-- ===== src/Liquidity/Pool/Quote.antt =====
-- The arithmetic of the exchange pool, on `u128`, with its casts back to `u64`, and its bounds.
use supersociety_battleware.Base.{
  ℕ, ◌+◌, ◌-◌, ◌*◌, ◌/◌, ◌^◌, ◌≤◌, ◌<◌, ◌≡◌, as_u64, sat_add128, sat_mul128, arith, ◌⊎◌, inl, inr,
}

-- The tax on a sale, as a `u64`.
unfoldable pub sell_tax : ℕ → ℕ → ℕ
sell_tax amount_in basis_points = as_u64 (amount_in * basis_points / 10000)

unfoldable pub swap_fee : ℕ → ℕ → ℕ
swap_fee amount_in basis_points = amount_in * basis_points / 10000

unfoldable pub swap_denominator : ℕ → ℕ → ℕ
swap_denominator net_in reserve_in = sat_add128 (sat_mul128 reserve_in 10000) (net_in * 10000)

-- What comes out for the input less the fee.
unfoldable pub swap_out : ℕ → ℕ → ℕ → ℕ
unfolding swap_denominator
swap_out net_in reserve_in reserve_out =
    as_u64 (sat_mul128 (net_in * 10000) reserve_out / swap_denominator net_in reserve_in)

-- The shares for a deposit into one reserve.
pub proportional_shares : ℕ → ℕ → ℕ → ℕ
proportional_shares amount total_shares reserve = amount * total_shares / reserve

-- What some shares are worth of one reserve.
pub withdrawn : ℕ → ℕ → ℕ → ℕ
withdrawn shares reserve total_shares = as_u64 (shares * reserve / total_shares)

sat_mul128-le : (a b : ℕ) → sat_mul128 a b ≤ a * b
sat_mul128-le a b = ground arith

div_mul-le : (n d : ℕ) → 0 < d → n / d * d ≤ n
div_mul-le n d p = grind arith

-- With reserves and input of 64 bits the denominator does not saturate.
swap_denominator_lem :
    (net_in reserve_in : ℕ)
    → net_in < 2 ^ 64
    → reserve_in < 2 ^ 64
    → swap_denominator net_in reserve_in ≡ 10000 * (reserve_in + net_in)
unfolding swap_denominator
swap_denominator_lem net_in reserve_in h k = ground arith

pub swap_denominator_pos :
    (net_in reserve_in : ℕ) → 0 < reserve_in → 0 < swap_denominator net_in reserve_in
unfolding swap_denominator
swap_denominator_pos net_in reserve_in h = ground arith

-- The output is at most its share of the reserve, whether or not the numerator saturates.
pub swap_out_bound :
    (net_in reserve_in reserve_out : ℕ)
    → net_in < 2 ^ 64
    → reserve_in < 2 ^ 64
    → 0 < reserve_in
    → swap_out net_in reserve_in reserve_out * (reserve_in + net_in) ≤ net_in * reserve_out
swap_out_bound net_in reserve_in reserve_out h k p =
    let n : ℕ = sat_mul128 (net_in * 10000) reserve_out in
    let s : ℕ = reserve_in + net_in in
    let q : ℕ = n / (10000 * s) in
    let bound : n ≤ net_in * 10000 * reserve_out = sat_mul128-le (net_in * 10000) reserve_out in
    let whole : q * (10000 * s) ≤ n = div_mul-le n (10000 * s) (omega arith) in
    let cast : as_u64 q * s ≤ q * s = grind arith in
    unfold swap_out in rw (swap_denominator_lem net_in reserve_in h k) (omega arith)

lt_cases : (x y : ℕ) → (x < y) ⊎ (y ≤ x)
lt_cases x y = omega arith

mul_cancel : (q r t : ℕ) → 0 < t → q * t ≤ r * t → q ≤ r
mul_cancel q r t p h = elim (lt_cases r q) [
  | inl above ↦ absurd (let m : (r + 1) * t ≤ q * t = grind arith in omega arith)
  | inr below ↦ below
]

share_lt : (a n o b : ℕ) → 0 < a → 0 < b → o * (a + n) ≤ n * b → o < b
share_lt a n o b p q h = elim (lt_cases o b) [
  | inl below ↦ below
  | inr above ↦ absurd (
      let mono : b * (a + n) ≤ o * (a + n) = grind arith in
      let pos : 1 * 1 ≤ a * b = grind arith in omega arith)
]

share_product : (a n o k : ℕ) → o * (a + n) ≤ n * (o + k) → a * (o + k) ≤ (a + n) * k
share_product a n o k h = omega arith

-- The output leaves something in the reserve, and the product of the reserves does not fall, even
-- without the fee that stays in the pool.
pub swap_product :
    (net_in reserve_in reserve_out : ℕ)
    → net_in < 2 ^ 64
    → reserve_in < 2 ^ 64
    → 0 < reserve_in
    → 0 < reserve_out
    → let out = swap_out net_in reserve_in reserve_out in
      (out < reserve_out) × (reserve_in * reserve_out ≤ (reserve_in + net_in) * (reserve_out - out))
swap_product net_in reserve_in reserve_out h k p q =
    let out : ℕ = swap_out net_in reserve_in reserve_out in
    let bound : out * (reserve_in + net_in) ≤ net_in * reserve_out =
      swap_out_bound net_in reserve_in reserve_out h k p in
    let below : out < reserve_out = share_lt reserve_in net_in out reserve_out p q bound in
    let split : out + (reserve_out - out) ≡ reserve_out = omega arith in
    (below, rw split at (share_product reserve_in net_in out (reserve_out - out) (rw split bound)))

pub sell_tax-le : (amount bps : ℕ) → bps ≤ 10000 → sell_tax amount bps ≤ amount
unfolding sell_tax
sell_tax-le amount bps h =
    let m : amount * bps ≤ amount * 10000 = grind arith in
    let w : amount * bps / 10000 ≤ amount = omega arith in omega arith

pub swap_fee-le : (amount bps : ℕ) → bps ≤ 10000 → swap_fee amount bps ≤ amount
unfolding swap_fee
swap_fee-le amount bps h = let m : amount * bps ≤ amount * 10000 = grind arith in omega arith

-- Shares that are part of the total are worth at most their part of a reserve.
pub withdrawn_bound :
    (shares reserve total : ℕ)
    → 0 < total
    → shares ≤ total
    → (withdrawn shares reserve total * total ≤ shares * reserve)
      × (withdrawn shares reserve total ≤ reserve)
unfolding withdrawn
withdrawn_bound shares reserve total p h =
    let q : ℕ = shares * reserve / total in
    let whole : q * total ≤ shares * reserve = div_mul-le (shares * reserve) total p in
    let cast : as_u64 q * total ≤ q * total = grind arith in
    let part : shares * reserve ≤ total * reserve = grind arith in
    (omega arith, let c : q ≤ reserve = mul_cancel q reserve total p (omega arith) in omega arith)

pub proportional_shares_bound :
    (amount total reserve : ℕ)
    → 0 < reserve
    → proportional_shares amount total reserve * reserve ≤ amount * total
unfolding proportional_shares
proportional_shares_bound amount total reserve p = div_mul-le (amount * total) reserve p
