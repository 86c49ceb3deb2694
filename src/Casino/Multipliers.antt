-- ===== src/Casino/Multipliers.antt =====
-- The payouts of the super mode (execution/src/casino/super_mode.rs): what a drawn multiplier does to
-- a payout, and whether one of the outcomes matches a multiplier.
use supersociety_battleware.Base.{
  ℕ, ◌/◌, ◌%◌, ◌^◌, ◌<◌, ◌≡◌, refl, ◌==◌, sat_mul, Bool, true, false, ◌&&◌, ◌||◌, List, [], ◌∷◌,
  if◌then◌else◌, arith,
}
use supersociety_battleware.Types.{SuperMultiplier, SuperType}

unfoldable pub matches_card : SuperType → ℕ → ℕ → Bool
matches_card SuperType.card id card = card == id
matches_card SuperType.rank id card = card % 13 == id
matches_card SuperType.suit id card = card / 13 == id
matches_card SuperType.number id card = false
matches_card SuperType.total id card = false

abbrev pub is_number : SuperType → Bool
is_number SuperType.number = true
is_number _ = false

abbrev pub is_total : SuperType → Bool
is_total SuperType.total = true
is_total _ = false

-- The product of the multipliers that match a card.
unfoldable pub multiply_card : ℕ → List SuperMultiplier → ℕ → ℕ
multiply_card card [] total_mult = total_mult
multiply_card card (m ∷ ms) total_mult =
    multiply_card card ms
      (if matches_card m.super_type m.id card then sat_mul total_mult m.multiplier else total_mult)

unfoldable pub multiply_cards : List ℕ → List SuperMultiplier → ℕ → ℕ
multiply_cards [] ms total_mult = total_mult
multiply_cards (card ∷ cards) ms total_mult =
    multiply_cards cards ms (multiply_card card ms total_mult)

unfoldable pub apply_super_multiplier_cards : List ℕ → List SuperMultiplier → ℕ → ℕ
apply_super_multiplier_cards winning_cards ms base_payout =
    sat_mul base_payout (multiply_cards winning_cards ms 1)

unfoldable pub apply_super_multiplier_number : ℕ → List SuperMultiplier → ℕ → ℕ
apply_super_multiplier_number result [] base_payout = base_payout
apply_super_multiplier_number result (m ∷ ms) base_payout =
    let rest = apply_super_multiplier_number result ms base_payout in
    if is_number m.super_type && m.id == result then sat_mul base_payout m.multiplier else rest

unfoldable pub apply_super_multiplier_total : ℕ → List SuperMultiplier → ℕ → ℕ
apply_super_multiplier_total total [] base_payout = base_payout
apply_super_multiplier_total total (m ∷ ms) base_payout =
    let rest = apply_super_multiplier_total total ms base_payout in
    if is_total m.super_type && m.id == total then sat_mul base_payout m.multiplier else rest

unfoldable pub has_card : ℕ → List SuperMultiplier → Bool
has_card card [] = false
has_card card (m ∷ ms) = matches_card m.super_type m.id card || has_card card ms

unfoldable pub has_number : ℕ → List SuperMultiplier → Bool
has_number num [] = false
has_number num (m ∷ ms) = (is_number m.super_type && num == m.id) || has_number num ms

unfoldable pub has_total : ℕ → List SuperMultiplier → Bool
has_total total [] = false
has_total total (m ∷ ms) = (is_total m.super_type && total == m.id) || has_total total ms

-- One of the outcomes has the test.
unfoldable pub any_of : (ℕ → Bool) → List ℕ → Bool
any_of test [] = false
any_of test (x ∷ xs) = test x || any_of test xs

unfoldable pub check_aura_element_presence : List ℕ → List ℕ → List ℕ → List SuperMultiplier → Bool
check_aura_element_presence outcome_cards outcome_numbers outcome_totals ms =
    any_of (λ card. has_card card ms) outcome_cards
    || any_of (λ num. has_number num ms) outcome_numbers
    || any_of (λ total. has_total total ms) outcome_totals

multiply_card_unmatched :
    (card : ℕ) (ms : List SuperMultiplier) (total_mult : ℕ)
    → has_card card ms ≡ false
    → multiply_card card ms total_mult ≡ total_mult
unfolding has_card multiply_card
multiply_card_unmatched card [] total_mult h = refl
multiply_card_unmatched card (m ∷ ms) total_mult h =
    ground (arith, multiply_card_unmatched card ms total_mult)

multiply_cards_unmatched :
    (cards : List ℕ) (ms : List SuperMultiplier) (total_mult : ℕ)
    → any_of (λ card. has_card card ms) cards ≡ false
    → multiply_cards cards ms total_mult ≡ total_mult
unfolding any_of multiply_cards
multiply_cards_unmatched [] ms total_mult h = refl
multiply_cards_unmatched (card ∷ cards) ms total_mult h = grind (
  arith,
  multiply_card_unmatched card ms total_mult,
  multiply_cards_unmatched cards ms total_mult,
)

number_unmatched :
    (num : ℕ) (ms : List SuperMultiplier) (base_payout : ℕ)
    → has_number num ms ≡ false
    → apply_super_multiplier_number num ms base_payout ≡ base_payout
unfolding has_number apply_super_multiplier_number
number_unmatched num [] base_payout h = refl
number_unmatched num (m ∷ ms) base_payout h = ground (arith, number_unmatched num ms base_payout)

total_unmatched :
    (total : ℕ) (ms : List SuperMultiplier) (base_payout : ℕ)
    → has_total total ms ≡ false
    → apply_super_multiplier_total total ms base_payout ≡ base_payout
unfolding has_total apply_super_multiplier_total
total_unmatched total [] base_payout h = refl
total_unmatched total (m ∷ ms) base_payout h = ground (arith, total_unmatched total ms base_payout)

-- Where the check of the aura meter finds no element among the winning cards, the number and the
-- total of a round, no payout of a `u64` is changed by the multipliers, be they for cards, for
-- numbers or for totals.
pub check_aura_element_presence_unmatched :
    (cards : List ℕ) (num total : ℕ) (ms : List SuperMultiplier) (base_payout : ℕ)
    → base_payout < 2 ^ 64
    → check_aura_element_presence cards (num ∷ []) (total ∷ []) ms ≡ false
    → (apply_super_multiplier_cards cards ms base_payout ≡ base_payout)
      × (apply_super_multiplier_number num ms base_payout ≡ base_payout)
      × (apply_super_multiplier_total total ms base_payout ≡ base_payout)
unfolding check_aura_element_presence any_of apply_super_multiplier_cards
check_aura_element_presence_unmatched cards num total ms base_payout small h = ground (
  arith,
  multiply_cards_unmatched cards ms 1,
  number_unmatched num ms base_payout,
  total_unmatched total ms base_payout,
)
