-- ===== src/Casino/Rng.antt =====
-- `GameRng` of execution/src/casino/mod.rs: bytes from a chain of SHA-256 digests, numbers below a
-- bound by rejection sampling, cards, dice and the shuffle.
pub mod Rejection
pub mod Cards
pub mod Ends
pub mod Fair
use supersociety_battleware.Base.{
  ℕ, zero, suc, ◌+◌, ◌-◌, ◌*◌, ◌%◌, ◌^◌, ltb, leb, ◌==◌, Bool, true, false, Option, none, some,
  List, [], ◌∷◌, if◌then◌else◌, length, get_or, take,
}
use supersociety_battleware.Casino.Interface.{GameRng}

-- A draw ends with a value and the generator after it, or it runs out of fuel: the loop of the
-- rejection sampling has no bound of its own, and takes `fuel` rounds here.
abbrev pub Draw : Type 0 → Type 0
Draw A = GameRng → Option (A × GameRng)

infixl 5 ◌>>=◌
abbrev pub ◌>>=◌ : {A B : Type 0} → Draw A → (A → Draw B) → Draw B
◌>>=◌ m f rng = elim (m rng) [ none ↦ none | some drawn ↦ f drawn.0 drawn.1 ]

abbrev pub pure : {A : Type 0} → A → Draw A
pure a rng = some (a, rng)

-- The loop of a rejection sampling, over the numbers of `next`.
unfoldable pub reject_loop : (GameRng → ℕ × GameRng) → ℕ → ℕ → ℕ → Draw ℕ
reject_loop next zero limit bound rng = none
reject_loop next (suc rounds) limit bound rng =
    let drawn = next rng in
    let rest = reject_loop next rounds limit bound drawn.1 in
    if ltb drawn.0 limit then some (drawn.0 % bound, drawn.1) else rest

-- Drawing, with SHA-256 and the fuel of each loop.
module _ (sha256 : List ℕ → List ℕ) (fuel : ℕ) where
  -- The generator with a byte left: the digest is hashed again when it is used up.
  abbrev pub refill : GameRng → GameRng
  refill rng = if leb 32 rng.index then record { state = sha256 rng.state; index = 0 } else rng

  unfoldable pub next_byte : GameRng → ℕ × GameRng
  next_byte rng =
      let full = refill rng in
      (get_or full.state full.index 0, record full { index = full.index + 1 })

  unfoldable pub next_u32 : GameRng → ℕ × GameRng
  next_u32 rng =
      let a = next_byte rng in
      let b = next_byte a.1 in
      let c = next_byte b.1 in
      let d = next_byte c.1 in (a.0 * 2 ^ 24 + b.0 * 2 ^ 16 + c.0 * 2 ^ 8 + d.0, d.1)

  unfoldable pub next_bounded : ℕ → Draw ℕ
  next_bounded bound =
      if bound == 0 then pure 0 else reject_loop next_byte fuel (255 - 255 % bound) bound

  unfoldable pub next_bounded_u32 : ℕ → Draw ℕ
  next_bounded_u32 bound =
      if bound == 0
      then pure 0
      else reject_loop next_u32 fuel (4294967295 - 4294967295 % bound) bound

  unfoldable pub next_bounded_usize : ℕ → Draw ℕ
  next_bounded_usize bound =
      if bound == 0
      then pure 0
      else if leb bound 255
      then next_bounded bound
      else if leb bound 4294967295
      then next_bounded_u32 bound
      else next_bounded_u32 4294967295

  -- The index that `draw_card` and `shuffle` draw, for a list of this length.
  abbrev pub next_index : ℕ → ℕ → Draw ℕ
  next_index len bound = if leb len 255 then next_bounded bound else next_bounded_usize bound

  pub roll_die : Draw ℕ
  roll_die = next_bounded 6 >>= λ n. pure (n + 1)

  pub spin_roulette : Draw ℕ
  spin_roulette = next_bounded 37

-- `xs[i] = a`
unfoldable pub set_at : ℕ → ℕ → List ℕ → List ℕ
set_at i a [] = []
set_at zero a (x ∷ xs) = a ∷ xs
set_at (suc i) a (x ∷ xs) = x ∷ set_at i a xs

-- `slice.swap(i, j)`
unfoldable pub swap : ℕ → ℕ → List ℕ → List ℕ
swap i j xs = set_at j (get_or xs i 0) (set_at i (get_or xs j 0) xs)

-- `deck.swap_remove(i)`: the last card takes the place of the one drawn.
unfoldable pub swap_remove : ℕ → List ℕ → List ℕ
swap_remove i deck = take (length deck - 1) (set_at i (get_or deck (length deck - 1) 0) deck)

-- The cards `first, first + 1, …`, as many as `n`.
unfoldable pub cards_from : ℕ → ℕ → List ℕ
cards_from first zero = []
cards_from first (suc n) = first ∷ cards_from (first + 1) n

module _ (sha256 : List ℕ → List ℕ) (fuel : ℕ) where
  -- Fisher-Yates, from place `i` down.
  unfoldable pub shuffle_from : ℕ → List ℕ → Draw (List ℕ)
  shuffle_from zero cards = pure cards
  shuffle_from (suc i) cards =
      next_index sha256 fuel (length cards) (i + 2) >>= λ j. shuffle_from i (swap (suc i) j cards)

  unfoldable pub shuffle : List ℕ → Draw (List ℕ)
  shuffle cards = shuffle_from (length cards - 1) cards

  pub create_deck : Draw (List ℕ)
  create_deck = shuffle (cards_from 0 52)

  -- A card, if there is one, and the deck without it.
  unfoldable pub draw_card : List ℕ → Draw (Option ℕ × List ℕ)
  draw_card [] = pure (none, [])
  draw_card (card ∷ deck) =
      next_index sha256 fuel (length (card ∷ deck)) (length (card ∷ deck)) >>= λ i.
      pure (some (get_or (card ∷ deck) i 0), swap_remove i (card ∷ deck))
