-- ===== src/Casino/Rng/Rejection.antt =====
-- Rejection sampling: the loop ends when a number below the limit is in reach, below its bound.
use supersociety_battleware.Base.{
  ℕ, zero, suc, ◌-◌, ◌%◌, ◌≤◌, ◌<◌, ltb, Option, none, some, List, arith, Bool-cases, inl, inr,
}
use supersociety_battleware.Casino.Interface.{GameRng}
use supersociety_battleware.Casino.Rng.{
  next_byte, reject_loop, next_bounded, next_bounded_usize, next_index,
}

-- The number after `k` others.
unfoldable pub nth_number : (GameRng → ℕ × GameRng) → ℕ → GameRng → ℕ
nth_number next zero rng = (next rng).0
nth_number next (suc k) rng = nth_number next k (next rng).1

-- There is a result, and it is below the bound.
abbrev pub Succeeds : ℕ → Option (ℕ × GameRng) → Type 0
Succeeds bound none = ⊥
Succeeds bound (some drawn) = drawn.0 < bound

-- The loop ends with a number below the bound as soon as one of the numbers that the fuel reaches
-- is below the limit.
pub reject_loop-Succeeds :
    (next : GameRng → ℕ × GameRng) (rounds limit bound k : ℕ) (rng : GameRng)
    → 0 < bound
    → k < rounds
    → nth_number next k rng < limit
    → Succeeds bound (reject_loop next rounds limit bound rng)
unfolding reject_loop nth_number
reject_loop-Succeeds next zero limit bound k rng h reach low = absurd (omega arith)
reject_loop-Succeeds next (suc rounds) limit bound zero rng h reach low = ground arith
reject_loop-Succeeds next (suc rounds) limit bound (suc k) rng h reach low =
    elim (Bool-cases (ltb (next rng).0 limit)) [
      | inl hit ↦ rw hit (omega arith)
      | inr miss ↦
          rw miss (reject_loop-Succeeds next rounds limit bound k (next rng).1 h (omega arith) low)
    ]

-- Every generator has a byte below 128 among its next `fuel` bytes: with the digests of SHA-256,
-- the chance of the contrary halves with each byte.
pub record Lands (sha256 : List ℕ → List ℕ) (fuel : ℕ) : Type 0 where
  pub wait : GameRng → ℕ
  pub in_reach : (rng : GameRng) → wait rng < fuel
  pub is_low : (rng : GameRng) → nth_number (next_byte sha256 fuel) (wait rng) rng < 128

limit_high : (bound : ℕ) → 0 < bound → bound ≤ 255 → 128 ≤ 255 - 255 % bound
limit_high bound h small = grind arith

-- With such a generator, a number below a bound of at most 255 is drawn.
pub next_index-Succeeds :
    (sha256 : List ℕ → List ℕ) (fuel len bound : ℕ) (rng : GameRng)
    → Lands sha256 fuel
    → 0 < bound
    → bound ≤ 255
    → len ≤ 255
    → Succeeds bound (next_index sha256 fuel len bound rng)
unfolding next_bounded next_bounded_usize
next_index-Succeeds sha256 fuel len bound rng lands h small short =
    let high = limit_high bound h small in
    grind (
      arith,
      reject_loop-Succeeds (next_byte sha256 fuel) fuel (255 - 255 % bound) bound (lands.wait rng)
          rng h (lands.in_reach rng) (omega (arith, lands.is_low rng)),
    )
