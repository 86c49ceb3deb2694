-- ===== src/Casino/Rng/Fair.antt =====
-- The rejection sampling is fair: of the 256 bytes that a draw may start with, equally many give
-- each number below the bound.
use supersociety_battleware.Base.{
  ap, ◌∙◌, ℕ, zero, suc, ◌+◌, ◌-◌, ◌*◌, ◌/◌, ◌%◌, ◌≤◌, ◌<◌, ◌≡◌, refl, ◌==◌, ltb, Bool, false, ◌&&◌,
  Option, none, some, List, [], ◌∷◌, arith, if◌then◌else◌, Bool-cases, inl, inr,
}
use native.Mathlib.Nat.{mul-add-mod_self_left, mod-eq_of_lt, mod-le, div-add-mod}
use supersociety_battleware.Casino.Interface.{GameRng}
use supersociety_battleware.Casino.Rng.{next_byte, next_bounded, reject_loop}

-- The generator whose next byte is this one.
abbrev pub byte_first : ℕ → GameRng
byte_first byte = record { state = byte ∷ []; index = 0 }

abbrev pub is_drawn : ℕ → Option (ℕ × GameRng) → Bool
is_drawn r none = false
is_drawn r (some drawn) = drawn.0 == r

-- How many of the bytes below `n` give the number `r` as the first byte of a draw.
pub count_draws : (List ℕ → List ℕ) → ℕ → ℕ → ℕ → ℕ
unfolding next_bounded
count_draws sha256 bound r zero = 0
count_draws sha256 bound r (suc n) =
    count_draws sha256 bound r n
    + (if is_drawn r (next_bounded sha256 1 bound (byte_first n)) then 1 else 0)

-- The first byte decides: it is refused, or its remainder is drawn.
is_drawn-next_bounded :
    (sha256 : List ℕ → List ℕ) (bound r byte : ℕ)
    → 0 < bound
    → is_drawn r (next_bounded sha256 1 bound (byte_first byte))
      ≡ (ltb byte (255 - 255 % bound) && byte % bound == r)
unfolding next_bounded reject_loop next_byte
is_drawn-next_bounded sha256 bound r byte h = elim (Bool-cases (ltb byte (255 - 255 % bound))) [
  | inl low ↦ let some_bound : (bound == 0) ≡ false = ground arith in rw (some_bound, low) refl
  | inr high ↦ let some_bound : (bound == 0) ≡ false = ground arith in rw (some_bound, high) refl
]

-- How many of the numbers below `n` have the remainder `r`.
unfoldable count_residue : ℕ → ℕ → ℕ → ℕ
count_residue bound r zero = 0
count_residue bound r (suc n) = count_residue bound r n + (if n % bound == r then 1 else 0)

zero_rows : (bound : ℕ) → bound * 0 ≡ 0
zero_rows bound = grind arith

suc_rows : (bound k : ℕ) → bound * suc k ≡ bound * k + bound
suc_rows bound k = grind arith

module _ (bound r : ℕ) (small : r < bound) where
  -- A part of a row of remainders, after `k` whole rows.
  count_row :
      (k m : ℕ)
      → m ≤ bound
      → count_residue bound r (bound * k) ≡ k
      → count_residue bound r (bound * k + m) ≡ k + (if ltb r m then 1 else 0)
  unfolding count_residue
  count_row k zero h rows = ground (arith, rows)
  count_row k (suc m) h rows =
      let next : bound * k + suc m ≡ suc (bound * k + m) = omega arith in
      let rest : (bound * k + m) % bound ≡ m =
        rw (mul-add-mod_self_left bound k m) (mod-eq_of_lt (omega arith)) in
      rw (next, rest, count_row k m (omega arith) rows) (ground arith)

  count_rows : (k : ℕ) → count_residue bound r (bound * k) ≡ k
  unfolding count_residue
  count_rows zero = rw (zero_rows bound) refl
  count_rows (suc k) =
      rw (suc_rows bound k, count_row k bound (omega arith) (count_rows k)) (ground arith)

module _ (sha256 : List ℕ → List ℕ) (bound r : ℕ) (h : 0 < bound) where
  count_draws_low :
      (n : ℕ) → n ≤ 255 - 255 % bound → count_draws sha256 bound r n ≡ count_residue bound r n
  unfolding count_draws count_residue
  count_draws_low zero low = refl
  count_draws_low (suc n) low =
      ground (arith, count_draws_low n, is_drawn-next_bounded sha256 bound r n h)

  -- A byte from the limit on is refused.
  count_draws_high :
      (n j limit : ℕ)
      → limit ≡ 255 - 255 % bound
      → n ≡ limit + j
      → count_draws sha256 bound r n ≡ count_draws sha256 bound r limit
  unfolding count_draws
  count_draws_high n zero limit at e = ap (count_draws sha256 bound r) (omega arith)
  count_draws_high zero (suc j) limit at e = absurd (omega arith)
  count_draws_high (suc n) (suc j) limit at e =
      let high : ltb n (255 - 255 % bound) ≡ false = ground arith in
      let rest = count_draws_high n j limit at (omega arith) in
      rw (is_drawn-next_bounded sha256 bound r n h, high) (omega (arith, rest))

-- The draw of a number below a bound of at most 255 is fair: of the 256 bytes that may come first,
-- equally many, `255 / bound`, give each number below the bound at once.
pub next_bounded-fair :
    (sha256 : List ℕ → List ℕ) (bound r : ℕ)
    → bound ≤ 255
    → r < bound
    → count_draws sha256 bound r 256 ≡ 255 / bound
next_bounded-fair sha256 bound r small below =
    let limit : 255 - 255 % bound ≡ bound * (255 / bound) = omega (arith, div-add-mod 255 bound) in
    count_draws_high sha256 bound r (omega arith) 256 (1 + 255 % bound) (255 - 255 % bound) refl
      (omega (arith, mod-le 255 bound))
    ∙ (count_draws_low sha256 bound r (omega arith) (255 - 255 % bound) (omega arith)
        ∙ (ap (count_residue bound r) limit ∙ count_rows bound r below (255 / bound)))
