-- ===== src/Liquidity/Sqrt.antt =====
-- `Layer::integer_sqrt` of execution/src/layer/mod.rs: Newton's iteration on a `u128`. Its sums
-- overflow only at the largest `u128`, which no product of two `u64` reaches.
use supersociety_battleware.Base.{
  ℕ, zero, suc, ◌+◌, ◌-◌, ◌*◌, ◌/◌, ◌%◌, ◌^◌, ◌≤◌, ◌<◌, ◌≡◌, refl, ltb, ◌==◌, if◌then◌else◌, arith,
  as_u64, Bool-cases, inl, inr, ◌⊎◌,
}

-- `while y < x { x = y; y = (x + value / x) >> 1; }` with fuel: `x` falls in each round, so `x`
-- rounds are enough.
sqrt_loop : ℕ → ℕ → ℕ → ℕ → ℕ
sqrt_loop zero value x y = x
sqrt_loop (suc fuel) value x y =
    let rest = sqrt_loop fuel value y ((y + value / y) / 2) in if ltb y x then rest else x

pub integer_sqrt : ℕ → ℕ
unfolding sqrt_loop
integer_sqrt value =
    if value == 0 then 0 else as_u64 (sqrt_loop value value value ((value + 1) / 2))

le_cases : (a b : ℕ) → (a ≤ b) ⊎ (b ≤ a)
le_cases a b = omega arith

square_shift : (a d : ℕ) → 4 * (a * (a + d)) ≤ (a + (a + d)) * (a + (a + d))
square_shift a d = omega arith

-- The mean of two numbers is at least their geometric mean.
four_mul-le-square : (a b : ℕ) → 4 * (a * b) ≤ (a + b) * (a + b)
four_mul-le-square a b = elim (le_cases a b) [
  | inl h ↦ let e : a + (b - a) ≡ b = omega arith in rw e at (square_shift a (b - a))
  | inr h ↦
      let e : b + (a - b) ≡ a = omega arith in
      let f : 4 * (b * a) ≤ (b + a) * (b + a) = rw e at (square_shift b (a - b)) in omega arith
]

square_mono : (a b : ℕ) → a ≤ b → a * a ≤ b * b
square_mono a b h = grind arith

step_positive : (value x y : ℕ) → 0 < x → 0 < value → y ≡ (x + value / x) / 2 → 0 < y
step_positive value zero y p v e = elim p [ ]
step_positive value (suc zero) y p v e = omega arith
step_positive value (suc (suc x)) y p v e = omega arith

-- Where the iteration stops it is at most the root.
root_below : (value x y : ℕ) → 0 < x → y ≡ (x + value / x) / 2 → x ≤ y → x * x ≤ value
root_below value x y p e stop =
    let q : ℕ = value / x in
    let above : x ≤ q = omega arith in
    let low : x * q ≤ value = grind arith in let mono : x * x ≤ x * q = grind arith in omega arith

-- A step of the iteration stays above the root.
step_above : (value x y : ℕ) → 0 < x → y ≡ (x + value / x) / 2 → value < (y + 1) * (y + 1)
step_above value x y p e =
    let q : ℕ = value / x in
    let below : value < x * (q + 1) = grind arith in
    let mean : 4 * (x * (q + 1)) ≤ (x + (q + 1)) * (x + (q + 1)) = four_mul-le-square x (q + 1) in
    let near : x + (q + 1) ≤ 2 * (y + 1) = omega arith in
    let grow : (x + (q + 1)) * (x + (q + 1)) ≤ (2 * (y + 1)) * (2 * (y + 1)) =
      square_mono _ _ near in
    omega arith

-- With `x` rounds left the loop ends at the root.
sqrt_loop_lem :
    (fuel value x y : ℕ)
    → x ≤ fuel
    → 0 < x
    → 0 < value
    → value < (x + 1) * (x + 1)
    → y ≡ (x + value / x) / 2
    → let r = sqrt_loop fuel value x y in (r * r ≤ value) × (value < (r + 1) * (r + 1))
unfolding sqrt_loop
sqrt_loop_lem zero value x y h px pv above e = absurd (omega arith)
sqrt_loop_lem (suc fuel) value x y h px pv above e = elim (Bool-cases (ltb y x)) [
  | inl again ↦ rw again (
      sqrt_loop_lem fuel value y ((y + value / y) / 2) (ground arith)
        (step_positive value x y px pv e) pv (step_above value x y px e) refl)
  | inr stop ↦ rw stop (root_below value x y px e (ground arith), above)
]

lt_cases : (a b : ℕ) → (a < b) ⊎ (b ≤ a)
lt_cases a b = omega arith

square_above : (v : ℕ) → v < (v + 1) * (v + 1)
square_above v = omega arith

root_fits : (r value : ℕ) → r * r ≤ value → value < 2 ^ 128 → r < 2 ^ 64
root_fits r value h v = elim (lt_cases r (2 ^ 64)) [
  | inl small ↦ small
  | inr big ↦ absurd (let m : 2 ^ 64 * 2 ^ 64 ≤ r * r = square_mono (2 ^ 64) r big in omega arith)
]

self_div : (value : ℕ) → 0 < value → value / value ≡ 1
self_div value p = grind arith

-- On every `u128` but the largest the result is the integer square root, and it fits a `u64`.
pub integer_sqrt_lem :
    (value : ℕ)
    → value + 1 < 2 ^ 128
    → let r = integer_sqrt value in (r * r ≤ value) × (value < (r + 1) * (r + 1)) × (r < 2 ^ 64)
unfolding integer_sqrt
integer_sqrt_lem value small = elim (Bool-cases (value == 0)) [
  | inl none_left ↦ rw none_left (ground arith, ground arith, omega arith)
  | inr some_left ↦
      let pv : 0 < value = ground arith in
      let r : ℕ = sqrt_loop value value value ((value + 1) / 2) in
      let root : (r * r ≤ value) × (value < (r + 1) * (r + 1)) =
        sqrt_loop_lem value value value ((value + 1) / 2) (omega arith) pv pv (square_above value)
          (omega (arith, self_div value pv)) in
      let fits : r < 2 ^ 64 = root_fits r value root.0 (omega arith) in
      let same : r % 2 ^ 64 ≡ r = omega arith in rw (some_left, same) (root.0, root.1, fits)
]
