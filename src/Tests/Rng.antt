-- ===== src/Tests/Rng.antt =====
-- The generator at concrete inputs.
use supersociety_battleware.Base.{
  ℕ, zero, suc, ◌-◌, ◌<◌, ◌≡◌, refl, false, List, [], ◌∷◌, arith, leb,
}
use supersociety_battleware.Casino.Interface.{GameRng}
use supersociety_battleware.Casino.Rng.{next_byte, shuffle, draw_card}
use supersociety_battleware.Casino.Rng.Rejection.{nth_number, Lands}
use supersociety_battleware.Casino.Rng.Fair.{count_draws, next_bounded-fair}
use supersociety_battleware.Casino.Rng.Cards.{
  Rearranges, TakesCard, shuffle-Rearranges, draw_card-TakesCard,
}

abbrev pub fresh : GameRng
fresh = record { state = 200 ∷ 9 ∷ 130 ∷ []; index = 0 }

-- A hash whose digest is zero: a low byte comes when the first digest is used up.
zero_is_low :
    (n : ℕ) (rng : GameRng)
    → 32 - rng.index ≡ n
    → nth_number (next_byte (λ (bytes : List ℕ). []) 40) n rng < 128
unfolding nth_number next_byte
zero_is_low zero rng e = ground arith
zero_is_low (suc n) rng e =
    let small : leb 32 rng.index ≡ false = ground arith in
    let next : GameRng = (next_byte (λ (bytes : List ℕ). []) 40 rng).1 in
    zero_is_low n next (rw small (omega arith))

pub zero-Lands : Lands (λ (bytes : List ℕ). []) 40
zero-Lands = record {
  wait = λ rng. 32 - rng.index;
  in_reach = λ rng. omega arith;
  is_low = λ rng. zero_is_low (32 - rng.index) rng refl;
}

next_bounded-fair_example : count_draws (λ (bytes : List ℕ). []) 6 2 256 ≡ 42
next_bounded-fair_example =
    next_bounded-fair (λ (bytes : List ℕ). []) 6 2 (omega arith) (omega arith)

shuffle-Rearranges_example :
    Rearranges (10 ∷ 20 ∷ 30 ∷ []) (shuffle (λ (bytes : List ℕ). []) 40 (10 ∷ 20 ∷ 30 ∷ []) fresh)
shuffle-Rearranges_example =
    shuffle-Rearranges (λ (bytes : List ℕ). []) 40 zero-Lands (10 ∷ 20 ∷ 30 ∷ []) fresh
      (omega arith) (omega arith)

draw_card-TakesCard_example :
    TakesCard (10 ∷ 20 ∷ 30 ∷ []) (draw_card (λ (bytes : List ℕ). []) 40 (10 ∷ 20 ∷ 30 ∷ []) fresh)
draw_card-TakesCard_example =
    draw_card-TakesCard (λ (bytes : List ℕ). []) 40 zero-Lands (10 ∷ 20 ∷ 30 ∷ []) fresh
      (omega arith)
