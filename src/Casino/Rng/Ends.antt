-- ===== src/Casino/Rng/Ends.antt =====
-- Draws that end, with what holds of the value drawn.
use supersociety_battleware.Base.{
  Bool, get_or, take, ◌%◌, ◌^◌, leb, ◌==◌, Bool-cases, inl, inr, true, false, if◌then◌else◌, ℕ,
  zero, suc, ◌+◌, ◌-◌, ◌<◌, ◌≤◌, ◌≡◌, refl, Option, none, some, List, [], ◌∷◌, length, arith,
}
use supersociety_battleware.Casino.Interface.{GameRng}
use supersociety_battleware.Casino.Rng.{
  Draw, next_index, next_u32, next_bounded_u32, next_bounded_usize, swap, swap_remove, set_at,
  shuffle_from, shuffle, draw_card,
}
use supersociety_battleware.Casino.Rng.Rejection.{
  nth_number, Succeeds, Lands, reject_loop-Succeeds, next_index-Succeeds,
}
use supersociety_battleware.Casino.Rng.Cards.{length-swap, length-set_at}

-- There is a value, and it has the property.
abbrev pub Ends : {A : Type 0} → (A → Type 0) → Option (A × GameRng) → Type 0
Ends P none = ⊥
Ends P (some drawn) = P drawn.0

pub Ends-bind :
    {A B : Type 0} (P : A → Type 0) (Q : B → Type 0) (drawn : Option (A × GameRng)) (f : A → Draw B)
    → Ends P drawn
    → ((a : A) (rng : GameRng) → P a → Ends Q (f a rng))
    → Ends Q (elim drawn [ none ↦ none | some d ↦ f d.0 d.1 ])
Ends-bind P Q none f below next = absurd below
Ends-bind P Q (some d) f below next = next d.0 d.1 below

pub Ends-map :
    {A : Type 0} (P Q : A → Type 0) (drawn : Option (A × GameRng))
    → Ends P drawn
    → ((a : A) → P a → Q a)
    → Ends Q drawn
Ends-map P Q none below f = absurd below
Ends-map P Q (some d) below f = f d.0 below

pub Ends-if :
    {A : Type 0} (P : A → Type 0) (b : Bool) (x y : Draw A) (rng : GameRng)
    → Ends P (x rng)
    → Ends P (y rng)
    → Ends P ((if b then x else y) rng)
Ends-if P true x y rng first second = first
Ends-if P false x y rng first second = second

Ends-Succeeds :
    (bound : ℕ) (drawn : Option (ℕ × GameRng)) → Succeeds bound drawn → Ends (λ n. Unit) drawn
Ends-Succeeds bound none below = below
Ends-Succeeds bound (some d) below = tt

-- A draw of a number ends, for bounds and lists up to a limit.
pub record Serves (sha256 : List ℕ → List ℕ) (fuel limit : ℕ) : Type 0 where
  pub next_ends :
      (len bound : ℕ) (rng : GameRng)
      → 0 < bound
      → bound ≤ len
      → len ≤ limit
      → Ends (λ n. Unit) (next_index sha256 fuel len bound rng)

pub Lands-Serves :
    (sha256 : List ℕ → List ℕ) (fuel : ℕ) → Lands sha256 fuel → Serves sha256 fuel 255
Lands-Serves sha256 fuel lands = record {
  next_ends = λ len bound rng h small short.
      Ends-Succeeds bound (next_index sha256 fuel len bound rng)
        (next_index-Succeeds sha256 fuel len bound rng lands h (omega arith) short);
}

-- Every generator has a word below half of its range among its next `fuel` words.
pub record LandsWords (sha256 : List ℕ → List ℕ) (fuel : ℕ) : Type 0 where
  pub wait : GameRng → ℕ
  pub in_reach : (rng : GameRng) → wait rng < fuel
  pub is_low : (rng : GameRng) → nth_number (next_u32 sha256 fuel) (wait rng) rng < 2 ^ 31

word_limit_high :
    (bound : ℕ) → 0 < bound → bound ≤ 2 ^ 31 → 2 ^ 31 ≤ 4294967295 - 4294967295 % bound
word_limit_high bound h small = grind arith

next_bounded_u32-Succeeds :
    (sha256 : List ℕ → List ℕ) (fuel bound : ℕ) (rng : GameRng)
    → LandsWords sha256 fuel
    → 0 < bound
    → bound ≤ 2 ^ 31
    → Succeeds bound (next_bounded_u32 sha256 fuel bound rng)
unfolding next_bounded_u32
next_bounded_u32-Succeeds sha256 fuel bound rng words h small =
    let high = word_limit_high bound h small in
    grind (
      arith,
      reject_loop-Succeeds (next_u32 sha256 fuel) fuel (4294967295 - 4294967295 % bound) bound
          (words.wait rng) rng h (words.in_reach rng) (omega (arith, words.is_low rng)),
    )

some_bound : (bound : ℕ) → 0 < bound → (bound == 0) ≡ false
some_bound bound h = ground arith

word_bound : (bound : ℕ) → bound ≤ 2 ^ 31 → leb bound 4294967295 ≡ true
word_bound bound small = ground arith

next_bounded_usize-Succeeds :
    (sha256 : List ℕ → List ℕ) (fuel bound : ℕ) (rng : GameRng)
    → Lands sha256 fuel
    → LandsWords sha256 fuel
    → 0 < bound
    → bound ≤ 2 ^ 31
    → Succeeds bound (next_bounded_usize sha256 fuel bound rng)
unfolding next_bounded_usize
next_bounded_usize-Succeeds sha256 fuel bound rng lands words h small =
    elim (Bool-cases (leb bound 255)) [
      | inl short ↦
          rw (some_bound bound h, short)
            (next_index-Succeeds sha256 fuel 0 bound rng lands h (ground arith) (omega arith))
      | inr long ↦
          rw (some_bound bound h, long, word_bound bound small)
            (next_bounded_u32-Succeeds sha256 fuel bound rng words h small)
    ]

next_index_words :
    (sha256 : List ℕ → List ℕ) (fuel len bound : ℕ) (rng : GameRng)
    → Lands sha256 fuel
    → LandsWords sha256 fuel
    → 0 < bound
    → bound ≤ len
    → len ≤ 2 ^ 31
    → Succeeds bound (next_index sha256 fuel len bound rng)
next_index_words sha256 fuel len bound rng lands words h small short =
    elim (Bool-cases (leb len 255)) [
      | inl few ↦
          next_index-Succeeds sha256 fuel len bound rng lands h (ground arith) (ground arith)
      | inr many ↦
          rw many (next_bounded_usize-Succeeds sha256 fuel bound rng lands words h (omega arith))
    ]

pub LandsWords-Serves :
    (sha256 : List ℕ → List ℕ) (fuel : ℕ)
    → Lands sha256 fuel
    → LandsWords sha256 fuel
    → Serves sha256 fuel (2 ^ 31)
LandsWords-Serves sha256 fuel lands words = record {
  next_ends = λ len bound rng h small short.
      Ends-Succeeds bound (next_index sha256 fuel len bound rng)
        (next_index_words sha256 fuel len bound rng lands words h small short);
}

length-take_le : (n : ℕ) (xs : List ℕ) → length (take n xs) ≤ length xs
length-take_le zero xs = omega arith
length-take_le (suc n) [] = omega arith
length-take_le (suc n) (x ∷ xs) = omega (arith, length-take_le n xs)

length-swap_remove : (i : ℕ) (deck : List ℕ) → length (swap_remove i deck) ≤ length deck
unfolding swap_remove
length-swap_remove i deck = omega (
  arith,
  length-take_le (length deck - 1) (set_at i (get_or deck (length deck - 1) 0) deck),
  length-set_at i (get_or deck (length deck - 1) 0) deck,
)

module _ (sha256 : List ℕ → List ℕ) (fuel : ℕ) (limit : ℕ) (serves : Serves sha256 fuel limit) where
  shuffle_from-Ends :
      (n i : ℕ) (cards : List ℕ) (rng : GameRng)
      → length cards ≡ n
      → i < n
      → n ≤ limit
      → Ends (λ deck. length deck ≡ n) (shuffle_from sha256 fuel i cards rng)
  unfolding shuffle_from
  shuffle_from-Ends n zero cards rng same inside small = same
  shuffle_from-Ends n (suc i) cards rng same inside small =
      Ends-bind (λ j. Unit) (λ deck. length deck ≡ n)
        (next_index sha256 fuel (length cards) (i + 2) rng)
        (λ j. shuffle_from sha256 fuel i (swap (suc i) j cards))
        (serves.next_ends (length cards) (i + 2) rng (omega arith) (omega arith) (omega arith))
        (λ j r any.
          shuffle_from-Ends n i (swap (suc i) j cards) r (rw (length-swap (suc i) j cards) same)
            (omega arith) small)

  -- The shuffle of cards up to the limit ends with as many cards.
  pub shuffle-Ends :
      (cards : List ℕ) (rng : GameRng)
      → length cards ≤ limit
      → Ends (λ deck. length deck ≡ length cards) (shuffle sha256 fuel cards rng)
  unfolding shuffle shuffle_from
  shuffle-Ends [] rng small = refl
  shuffle-Ends (card ∷ cards) rng small =
      shuffle_from-Ends (length (card ∷ cards)) (length (card ∷ cards) - 1) (card ∷ cards) rng refl
        (omega arith) small

  -- A draw from a deck of cards up to the limit ends, and the deck does not grow.
  pub draw_card-Ends :
      (deck : List ℕ) (rng : GameRng)
      → length deck ≤ limit
      → Ends (λ drawn. length drawn.1 ≤ length deck) (draw_card sha256 fuel deck rng)
  unfolding draw_card
  draw_card-Ends [] rng small = omega arith
  draw_card-Ends (card ∷ deck) rng small =
      Ends-bind (λ i. Unit) (λ drawn. length drawn.1 ≤ length (card ∷ deck))
        (next_index sha256 fuel (length (card ∷ deck)) (length (card ∷ deck)) rng)
        (λ i r. some ((some (get_or (card ∷ deck) i 0), swap_remove i (card ∷ deck)), r))
        (serves.next_ends (length (card ∷ deck)) (length (card ∷ deck)) rng (omega arith)
          (omega arith) small)
        (λ i r any. length-swap_remove i (card ∷ deck))
