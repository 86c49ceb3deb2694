-- ===== src/Games/HiLo/State.antt =====
-- The state blob of Hi-Lo.
use supersociety_battleware.Base.{ℕ, ℤ, ◌^◌, ◌<◌, ◌≡◌, refl, fits_signed, as_i64, true, some, arith}
use supersociety_battleware.Casino.Interface.{to_be_bytes}
use supersociety_battleware.Casino.Progressive.Hands.{from_be_bytes}
use supersociety_battleware.Games.HiLo.{word_of, serialize_state, parse_state}

eight_bytes : (x : ℕ) → x < 2 ^ 64 → from_be_bytes 0 (to_be_bytes 8 x) ≡ x
unfolding from_be_bytes to_be_bytes
eight_bytes x h = omega arith

as_i64-word_of : (z : ℤ) → fits_signed 63 z ≡ true → as_i64 (word_of z) ≡ z
as_i64-word_of z h = ground arith

word_of_small : (z : ℤ) → fits_signed 63 z ≡ true → word_of z < 2 ^ 64
word_of_small z h = ground arith

-- The state of a game is read back from its blob: the card, and the accumulator as an `i64`.
pub parse_state-serialize_state :
    (current_card : ℕ) (accumulator : ℤ)
    → fits_signed 63 accumulator ≡ true
    → parse_state (serialize_state current_card accumulator) ≡ some (current_card, accumulator)
unfolding parse_state serialize_state to_be_bytes
parse_state-serialize_state current_card accumulator h =
    rw
      (
        eight_bytes (word_of accumulator) (word_of_small accumulator h),
        as_i64-word_of accumulator h,
      )
      refl
