-- ===== src/Base/Word.antt =====
-- Machine words as native numbers: saturating arithmetic, `as` casts, and signed ranges.
use Prim.Native.Nat.{ℕ, ◌+◌, ◌-◌, ◌*◌, ◌%◌, ◌^◌}
use mathlib.Core.Bool.{Bool, ◌&&◌}
use supersociety_battleware.Base.Tests.{ltb, if◌then◌else◌}
use supersociety_battleware.Base.Int.{ℤ, pos, negsuc, leb_ℤ}

-- One more than the largest `u64`.
abbrev pub u64_mod : ℕ
u64_mod = 2 ^ 64

-- `u64::MAX`
abbrev pub u64_max : ℕ
u64_max = 2 ^ 64 - 1

-- `a.saturating_add(b)` on `u64`.
abbrev pub sat_add : ℕ → ℕ → ℕ
sat_add a b = if ltb (a + b) u64_mod then a + b else u64_max

-- `a.saturating_mul(b)` on `u64`.
abbrev pub sat_mul : ℕ → ℕ → ℕ
sat_mul a b = if ltb (a * b) u64_mod then a * b else u64_max

-- `a.saturating_add(b)` and `a.saturating_mul(b)` on `u128`.
abbrev pub sat_add128 : ℕ → ℕ → ℕ
sat_add128 a b = if ltb (a + b) (2 ^ 128) then a + b else 2 ^ 128 - 1

abbrev pub sat_mul128 : ℕ → ℕ → ℕ
sat_mul128 a b = if ltb (a * b) (2 ^ 128) then a * b else 2 ^ 128 - 1

-- `x as u64`
abbrev pub as_u64 : ℕ → ℕ
as_u64 x = x % 2 ^ 64

-- `x as i64`, for a `u64`.
abbrev pub as_i64 : ℕ → ℤ
as_i64 x = if ltb x (2 ^ 63) then pos x else negsuc (2 ^ 64 - x - 1)

-- `-x` on a number, as an integer.
abbrev pub neg : ℕ → ℤ
neg x = if ltb 0 x then negsuc (x - 1) else pos 0

-- `u64::try_from(z).unwrap_or(0)`
abbrev pub to_u64_or_zero : ℤ → ℕ
to_u64_or_zero (pos n) = n
to_u64_or_zero (negsuc n) = 0

-- Does `z` fit a signed integer of `w + 1` bits?
abbrev pub fits_signed : ℕ → ℤ → Bool
fits_signed w z = leb_ℤ (negsuc (2 ^ w - 1)) z && leb_ℤ z (pos (2 ^ w - 1))
