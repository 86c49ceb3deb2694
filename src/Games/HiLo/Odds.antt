-- ===== src/Games/HiLo/Odds.antt =====
-- The odds of Hi-Lo: what a guess pays, against the cards that win.
use supersociety_battleware.Base.{
  ℕ, zero, suc, ◌+◌, ◌*◌, ◌<◌, ◌≡◌, refl, ltb, ◌==◌, Bool, true, false, ◌||◌, ◌&&◌, List, [], ◌∷◌,
  length, arith, if◌then◌else◌, Bool-cases, inl, inr,
}
use supersociety_battleware.Base.Assoc.{member}
use supersociety_battleware.Casino.Rng.{cards_from}
use supersociety_battleware.Games.HiLo.{
  base_multiplier, card_rank, calculate_multiplier, without, is_correct, is_impossible,
}

-- How many cards of a deck make the guess right.
unfoldable pub count_correct : Bool → ℕ → List ℕ → ℕ
count_correct guess_higher current_card [] = 0
count_correct guess_higher current_card (card ∷ deck) =
    (if is_correct guess_higher (card_rank current_card) (card_rank card) then 1 else 0)
    + count_correct guess_higher current_card deck

-- The deck that a guess draws from.
abbrev pub deck_beside : ℕ → List ℕ
deck_beside current_card = without (current_card ∷ []) (cards_from 0 52)

unfoldable all_below : ℕ → (ℕ → Bool) → Bool
all_below zero test = true
all_below (suc n) test = test n && all_below n test

all_below_at : (n k : ℕ) (test : ℕ → Bool) → all_below n test ≡ true → k < n → test k ≡ true
unfolding all_below
all_below_at zero k test h small = absurd (omega arith)
all_below_at (suc n) k test h small = elim (Bool-cases (k == n)) [
  | inl last ↦ ground arith
  | inr before ↦ ground (arith, all_below_at n k test)
]

-- The pot grows on average, or the guess is not allowed.
abbrev grows : Bool → ℕ → Bool
grows guess_higher card =
    is_impossible guess_higher (card_rank card)
    || ltb (length (deck_beside card) * base_multiplier) (
        count_correct guess_higher card (deck_beside card)
        * calculate_multiplier (card_rank card) guess_higher)

grows_higher : all_below 52 (grows true) ≡ true
unfolding all_below count_correct without cards_from member calculate_multiplier
grows_higher = refl

grows_lower : all_below 52 (grows false) ≡ true
unfolding all_below count_correct without cards_from member calculate_multiplier
grows_lower = refl

grows_at : (guess_higher : Bool) (card : ℕ) → card < 52 → grows guess_higher card ≡ true
grows_at true card small = all_below_at 52 card (grows true) grows_higher small
grows_at false card small = all_below_at 52 card (grows false) grows_lower small

-- Every guess that is allowed favours the player: over the cards that may be drawn, each as likely,
-- the pot is multiplied by more than one on average.
pub calculate_multiplier_favours :
    (guess_higher : Bool) (card : ℕ)
    → card < 52
    → is_impossible guess_higher (card_rank card) ≡ false
    → length (deck_beside card) * base_multiplier
      < count_correct guess_higher card (deck_beside card)
        * calculate_multiplier (card_rank card) guess_higher
calculate_multiplier_favours guess_higher card small allowed =
    ground (arith, grows_at guess_higher card small)
