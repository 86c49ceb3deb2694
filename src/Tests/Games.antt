-- ===== src/Tests/Games.antt =====
-- The games at concrete inputs.
use supersociety_battleware.Base.{
  ◌+◌, ◌^◌, ◌≤◌, ◌⊎◌, inl, inr, zero, suc, leb, Bool-cases, ℕ, negsuc, ◌*◌, ◌<◌, ◌≡◌, refl, true,
  some, List, [], ◌∷◌, length, arith,
}
use supersociety_battleware.Casino.Rng.Ends.{Ends, LandsWords}
use supersociety_battleware.Types.{GameSession}
use supersociety_battleware.Casino.Interface.{GameRng}
use supersociety_battleware.Casino.Rng.{next_byte, next_u32}
use supersociety_battleware.Casino.Rng.Rejection.{nth_number}
use supersociety_battleware.Games.CasinoWar.Play.{process_war}
use supersociety_battleware.Games.CasinoWar.Moves.{IsSettled}
use supersociety_battleware.Games.CasinoWar.Draws.{process_war-IsSettled}
use supersociety_battleware.Games.HiLo.{
  base_multiplier, card_rank, calculate_multiplier, serialize_state, parse_state, process_move,
}
use supersociety_battleware.Games.HiLo.State.{parse_state-serialize_state}
use supersociety_battleware.Games.HiLo.Odds.{
  count_correct, deck_beside, calculate_multiplier_favours,
}
use supersociety_battleware.Games.HiLo.Moves.{IsPlayed, process_move-IsPlayed}
use supersociety_battleware.Types.{SuperMultiplier, SuperType}
use supersociety_battleware.Casino.Multipliers.{
  matches_card, has_card, has_number, has_total, any_of, check_aura_element_presence,
  apply_super_multiplier_cards, apply_super_multiplier_number, apply_super_multiplier_total,
  check_aura_element_presence_unmatched,
}
use supersociety_battleware.Tests.Data.{session}
use supersociety_battleware.Tests.Rng.{fresh, zero-Lands}

abbrev tenfold : SuperMultiplier
tenfold = record { id = 20; multiplier = 10; super_type = SuperType.card }

parse_state-serialize_state_example :
    parse_state (serialize_state 51 (negsuc 4)) ≡ some (51, negsuc 4)
parse_state-serialize_state_example = parse_state-serialize_state 51 (negsuc 4) refl

calculate_multiplier_favours_example :
    length (deck_beside 5) * base_multiplier
    < count_correct true 5 (deck_beside 5) * calculate_multiplier (card_rank 5) true
calculate_multiplier_favours_example = calculate_multiplier_favours true 5 (omega arith) refl

process_move-IsPlayed_example :
    Ends (IsPlayed (record session { state_blob = 5 ∷ 0 ∷ 0 ∷ 0 ∷ 0 ∷ 0 ∷ 0 ∷ 39 ∷ 16 ∷ [] })) (
      process_move
        (λ (bytes : List ℕ). [])
        40
        (record session { state_blob = 5 ∷ 0 ∷ 0 ∷ 0 ∷ 0 ∷ 0 ∷ 0 ∷ 39 ∷ 16 ∷ [] })
        (0 ∷ [])
        fresh)
process_move-IsPlayed_example =
    process_move-IsPlayed (λ (bytes : List ℕ). []) 40 zero-Lands
      (record session { state_blob = 5 ∷ 0 ∷ 0 ∷ 0 ∷ 0 ∷ 0 ∷ 0 ∷ 39 ∷ 16 ∷ [] }) (0 ∷ []) fresh

check_aura_element_presence_unmatched_example :
    (apply_super_multiplier_cards (5 ∷ 6 ∷ []) (tenfold ∷ []) 200 ≡ 200)
    × (apply_super_multiplier_number 7 (tenfold ∷ []) 200 ≡ 200)
    × (apply_super_multiplier_total 9 (tenfold ∷ []) 200 ≡ 200)
unfolding check_aura_element_presence any_of has_card has_number has_total matches_card
check_aura_element_presence_unmatched_example =
    check_aura_element_presence_unmatched (5 ∷ 6 ∷ []) 7 9 (tenfold ∷ []) 200 (omega arith) refl

-- With a hash whose digest is empty, a generator has no bytes but zeros after `k` bytes.
abbrev IsSpent : ℕ → GameRng → Type 0
IsSpent k rng = (rng.state ≡ []) ⊎ (32 ≤ rng.index + k)

spend :
    (k : ℕ) (rng : GameRng)
    → IsSpent (suc k) rng
    → IsSpent k (next_byte (λ (bytes : List ℕ). []) 40 rng).1
unfolding next_byte
spend k rng (inl spent) = elim (Bool-cases (leb 32 rng.index)) [
  | inl full ↦ inl (rw full refl)
  | inr left ↦ inl (rw left spent)
]
spend k rng (inr far) = elim (Bool-cases (leb 32 rng.index)) [
  | inl full ↦ inl (rw full refl)
  | inr left ↦ inr (rw left (omega arith))
]

IsSpent-stays :
    (k : ℕ) (rng : GameRng)
    → IsSpent k rng
    → IsSpent k (next_byte (λ (bytes : List ℕ). []) 40 rng).1
IsSpent-stays k rng (inl spent) = spend k rng (inl spent)
IsSpent-stays k rng (inr far) = spend k rng (inr (omega arith))

spent_zero : (rng : GameRng) → IsSpent 0 rng → (next_byte (λ (bytes : List ℕ). []) 40 rng).0 ≡ 0
unfolding next_byte
spent_zero rng (inl spent) = elim (Bool-cases (leb 32 rng.index)) [
  | inl full ↦ rw full refl
  | inr left ↦ rw (left, spent) refl
]
spent_zero rng (inr far) = elim (Bool-cases (leb 32 rng.index)) [
  | inl full ↦ rw full refl
  | inr left ↦ absurd (ground arith)
]

zero_words :
    (n : ℕ) (rng : GameRng)
    → IsSpent n rng
    → nth_number (next_u32 (λ (bytes : List ℕ). []) 40) n rng < 2 ^ 31
unfolding nth_number next_u32
zero_words zero rng spent =
    let a : GameRng = (next_byte (λ (bytes : List ℕ). []) 40 rng).1 in
    let b : GameRng = (next_byte (λ (bytes : List ℕ). []) 40 a).1 in
    let c : GameRng = (next_byte (λ (bytes : List ℕ). []) 40 b).1 in
    let spent_a = IsSpent-stays 0 rng spent in
    let spent_b = IsSpent-stays 0 a spent_a in
    omega (
      arith,
      spent_zero rng spent,
      spent_zero a spent_a,
      spent_zero b spent_b,
      spent_zero c (IsSpent-stays 0 b spent_b),
    )
zero_words (suc n) rng spent =
    let a : GameRng = (next_byte (λ (bytes : List ℕ). []) 40 rng).1 in
    let b : GameRng = (next_byte (λ (bytes : List ℕ). []) 40 a).1 in
    let c : GameRng = (next_byte (λ (bytes : List ℕ). []) 40 b).1 in
    zero_words n (next_byte (λ (bytes : List ℕ). []) 40 c).1
      (IsSpent-stays n c (IsSpent-stays n b (IsSpent-stays n a (spend n rng spent))))

zero-LandsWords : LandsWords (λ (bytes : List ℕ). []) 40
zero-LandsWords = record {
  wait = λ rng. 32;
  in_reach = λ rng. omega arith;
  is_low = λ rng. zero_words 32 rng (inr (omega arith));
}

-- A tie after the deal.
abbrev tied : GameSession
tied = record session { state_blob = 1 ∷ 1 ∷ 5 ∷ 18 ∷ 0 ∷ 0 ∷ 0 ∷ 0 ∷ 0 ∷ 0 ∷ 0 ∷ 0 ∷ [] }

process_war-IsSettled_example :
    Ends (IsSettled tied 1) (process_war (λ (bytes : List ℕ). []) 40 tied (1 ∷ []) fresh)
process_war-IsSettled_example =
    process_war-IsSettled (λ (bytes : List ℕ). []) 40 zero-Lands zero-LandsWords tied (1 ∷ []) fresh
