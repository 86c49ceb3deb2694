-- ===== src/Casino/Rng/Cards.antt =====
-- A shuffle and a draw only move cards.
use supersociety_battleware.Base.{
  ℕ, zero, suc, ◌+◌, ◌-◌, ◌≤◌, ◌<◌, ◌≡◌, refl, ◌==◌, Option, none, some, List, [], ◌∷◌, arith,
  if◌then◌else◌, length, get_or, take, ◌∙◌,
}
use supersociety_battleware.Casino.Interface.{GameRng}
use supersociety_battleware.Casino.Rng.{
  next_index, set_at, swap, swap_remove, shuffle_from, shuffle, draw_card,
}
use supersociety_battleware.Casino.Rng.Rejection.{Succeeds, Lands, next_index-Succeeds}

-- How often a card stands in a deck.
unfoldable pub count_card : ℕ → List ℕ → ℕ
count_card q [] = 0
count_card q (x ∷ xs) = (if x == q then 1 else 0) + count_card q xs

pub length-set_at : (i a : ℕ) (xs : List ℕ) → length (set_at i a xs) ≡ length xs
unfolding set_at
length-set_at i a [] = refl
length-set_at zero a (x ∷ xs) = refl
length-set_at (suc i) a (x ∷ xs) = omega (arith, length-set_at i a xs)

-- Writing a card trades the one that stood there for it.
count-set_at :
    (q i a : ℕ) (xs : List ℕ)
    → i < length xs
    → count_card q (set_at i a xs) + (if get_or xs i 0 == q then 1 else 0)
      ≡ count_card q xs + (if a == q then 1 else 0)
unfolding set_at count_card
count-set_at q i a [] h = absurd (omega arith)
count-set_at q zero a (x ∷ xs) h = omega arith
count-set_at q (suc i) a (x ∷ xs) h = omega (arith, count-set_at q i a xs (omega arith))

get_or-set_at : (i j : ℕ) (xs : List ℕ) → get_or (set_at i (get_or xs j 0) xs) j 0 ≡ get_or xs j 0
unfolding set_at
get_or-set_at i j [] = refl
get_or-set_at zero zero (x ∷ xs) = refl
get_or-set_at zero (suc j) (x ∷ xs) = refl
get_or-set_at (suc i) zero (x ∷ xs) = refl
get_or-set_at (suc i) (suc j) (x ∷ xs) = get_or-set_at i j xs

count-swap :
    (q i j : ℕ) (xs : List ℕ)
    → i < length xs
    → j < length xs
    → count_card q (swap i j xs) ≡ count_card q xs
unfolding swap
count-swap q i j xs h k =
    let ys = set_at i (get_or xs j 0) xs in
    let first = count-set_at q i (get_or xs j 0) xs h in
    let second =
      rw (get_or-set_at i j xs) at
        (count-set_at q j (get_or xs i 0) ys (rw (length-set_at i (get_or xs j 0) xs) k)) in
    omega arith

-- There is a result, and it is a deck with the same cards.
abbrev pub Rearranges : List ℕ → Option (List ℕ × GameRng) → Type 0
Rearranges cards none = ⊥
Rearranges cards (some drawn) = (q : ℕ) → count_card q drawn.0 ≡ count_card q cards

pub length-swap : (i j : ℕ) (xs : List ℕ) → length (swap i j xs) ≡ length xs
unfolding swap
length-swap i j xs = rw (length-set_at, length-set_at) refl

Rearranges-trans :
    (xs ys : List ℕ) (drawn : Option (List ℕ × GameRng))
    → ((q : ℕ) → count_card q ys ≡ count_card q xs)
    → Rearranges ys drawn
    → Rearranges xs drawn
Rearranges-trans xs ys none same r = absurd r
Rearranges-trans xs ys (some drawn) same r = λ q. r q ∙ same q

module _ (sha256 : List ℕ → List ℕ) (fuel : ℕ) (lands : Lands sha256 fuel) where
  -- One exchange, with the rest of the shuffle.
  exchange-Rearranges :
      (i : ℕ) (cards : List ℕ) (drawn : Option (ℕ × GameRng))
      → suc i < length cards
      → Succeeds (i + 2) drawn
      → ((j : ℕ) (rng : GameRng)
          → Rearranges
              (swap (suc i) j cards)
              (shuffle_from sha256 fuel i (swap (suc i) j cards) rng))
      → Rearranges cards (elim drawn [
        | none ↦ none
        | some d ↦ shuffle_from sha256 fuel i (swap (suc i) d.0 cards) d.1
      ])
  exchange-Rearranges i cards none inside below rest = absurd below
  exchange-Rearranges i cards (some d) inside below rest =
      Rearranges-trans cards (swap (suc i) d.0 cards) _
        (λ q. count-swap q (suc i) d.0 cards inside (omega arith)) (rest d.0 d.1)

  shuffle_from-Rearranges :
      (i : ℕ) (cards : List ℕ) (rng : GameRng)
      → i < length cards
      → length cards ≤ 255
      → Rearranges cards (shuffle_from sha256 fuel i cards rng)
  unfolding shuffle_from
  shuffle_from-Rearranges zero cards rng inside small = λ q. refl
  shuffle_from-Rearranges (suc i) cards rng inside small =
      exchange-Rearranges i cards (next_index sha256 fuel (length cards) (i + 2) rng) inside
        (next_index-Succeeds sha256 fuel (length cards) (i + 2) rng lands (omega arith)
          (omega arith) small)
        (λ j r.
          shuffle_from-Rearranges i (swap (suc i) j cards) r
            (rw (length-swap (suc i) j cards) (omega arith))
            (rw (length-swap (suc i) j cards) small))

  -- With such a generator the shuffle of one to 255 cards ends, and only moves the cards: every
  -- card stands in the shuffled deck as often as before.
  pub shuffle-Rearranges :
      (cards : List ℕ) (rng : GameRng)
      → 0 < length cards
      → length cards ≤ 255
      → Rearranges cards (shuffle sha256 fuel cards rng)
  unfolding shuffle
  shuffle-Rearranges cards rng some_cards small =
      shuffle_from-Rearranges (length cards - 1) cards rng (omega arith) small

-- The cards before the last one.
count-take_init :
    (q x : ℕ) (xs : List ℕ)
    → count_card q (take (length xs) (x ∷ xs))
        + (if get_or (x ∷ xs) (length xs) 0 == q then 1 else 0)
      ≡ count_card q (x ∷ xs)
unfolding count_card
count-take_init q x [] = omega arith
count-take_init q x (y ∷ xs) = omega (arith, count-take_init q y xs)

count-take_last :
    (q : ℕ) (xs : List ℕ)
    → 0 < length xs
    → count_card q (take (length xs - 1) xs) + (if get_or xs (length xs - 1) 0 == q then 1 else 0)
      ≡ count_card q xs
count-take_last q [] h = absurd (omega arith)
count-take_last q (x ∷ xs) h =
    let e : suc (length xs) - 1 ≡ length xs = omega arith in rw e (count-take_init q x xs)

count-swap_remove :
    (q i : ℕ) (deck : List ℕ)
    → i < length deck
    → count_card q (swap_remove i deck) + (if get_or deck i 0 == q then 1 else 0)
      ≡ count_card q deck
unfolding swap_remove
count-swap_remove q i deck h =
    let last : ℕ = get_or deck (length deck - 1) 0 in
    let moved = count-set_at q i last deck h in
    let n = length-set_at i last deck in
    let rest =
      rw (n, get_or-set_at i (length deck - 1) deck) at
        (count-take_last q (set_at i last deck) (rw n (omega arith))) in
    omega arith

-- There is a result, and it leaves: no card of an empty deck, or the deck without the card.
abbrev pub TakesCard : List ℕ → Option ((Option ℕ × List ℕ) × GameRng) → Type 0
TakesCard deck none = ⊥
TakesCard deck (some ((none, rest), rng)) = (deck ≡ []) × (rest ≡ [])
TakesCard deck (some ((some card, rest), rng)) =
    (q : ℕ) → count_card q rest + (if card == q then 1 else 0) ≡ count_card q deck

module _ (sha256 : List ℕ → List ℕ) (fuel : ℕ) (lands : Lands sha256 fuel) where
  taken :
      (card : ℕ) (deck : List ℕ) (drawn : Option (ℕ × GameRng))
      → Succeeds (length (card ∷ deck)) drawn
      → TakesCard (card ∷ deck) (elim drawn [
        | none ↦ none
        | some d ↦ some ((some (get_or (card ∷ deck) d.0 0), swap_remove d.0 (card ∷ deck)), d.1)
      ])
  taken card deck none below = absurd below
  taken card deck (some d) below = λ q. count-swap_remove q d.0 (card ∷ deck) below

  -- With such a generator a draw from a deck of at most 255 cards ends: it takes one card out and
  -- leaves every other as often as before; from an empty deck it takes none.
  pub draw_card-TakesCard :
      (deck : List ℕ) (rng : GameRng)
      → length deck ≤ 255
      → TakesCard deck (draw_card sha256 fuel deck rng)
  unfolding draw_card
  draw_card-TakesCard [] rng small = (refl, refl)
  draw_card-TakesCard (card ∷ deck) rng small =
      taken card deck (next_index sha256 fuel (length (card ∷ deck)) (length (card ∷ deck)) rng) (
        next_index-Succeeds sha256 fuel (length (card ∷ deck)) (length (card ∷ deck)) rng lands
          (omega arith) small small)
