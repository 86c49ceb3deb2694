-- ===== src/Games/HiLo/Moves.antt =====
-- What a move of Hi-Lo does to its session.
use supersociety_battleware.Base.{
  ℕ, ℤ, pos, as_i64, ◌+◌, ◌^◌, ◌≤◌, ◌≡◌, refl, ltb, fits_signed, Bool, true, false, Option, none,
  some, List, [], ◌∷◌, length, arith, Bool-cases, inl, inr,
}
use supersociety_battleware.Types.{GameSession}
use supersociety_battleware.Casino.Interface.{
  GameResult, GameRng, MoveResult, moved, failed, crashed,
}
use supersociety_battleware.Casino.Rng.{draw_card}
use supersociety_battleware.Casino.Rng.{cards_from, shuffle}
use supersociety_battleware.Casino.Rng.Rejection.{Lands}
use supersociety_battleware.Casino.Rng.Ends.{
  Lands-Serves, Ends, Ends-bind, Ends-map, Ends-if, shuffle-Ends, draw_card-Ends,
}
use supersociety_battleware.Games.Session.{SameGame}
use supersociety_battleware.Games.HiLo.{
  without, play_move, move_of, is_impossible, Move, scaled, checked_scale, serialize_state,
  parse_state, card_rank, calculate_multiplier, is_correct, cash_out, go_on, settle_guess, guess,
  create_deck_excluding, play_parsed, process_move,
}
use supersociety_battleware.Games.HiLo.State.{parse_state-serialize_state}

-- The next state after a right guess: the pot is multiplied as the odds of the card say.
abbrev pub Follows : Option (ℕ × ℤ) → Option (ℕ × ℤ) → Type 0
Follows (some before) (some after) =
    after.1
    ≡ scaled before.1 (
        pos (
          calculate_multiplier (card_rank before.0) (ltb (card_rank before.0) (card_rank after.0))))
Follows _ _ = ⊥

-- What the result of a move says of the session: it goes on with the next state, or it is complete.
abbrev pub IsPlayed : GameSession → MoveResult → Type 0
IsPlayed s (moved GameResult.continue s') =
    SameGame s s'
    × (s'.is_complete ≡ s.is_complete)
    × (s'.move_count ≡ s.move_count + 1)
    × Follows (parse_state s.state_blob) (parse_state s'.state_blob)
IsPlayed s (moved (GameResult.win payout) s') = SameGame s s' × (s'.is_complete ≡ true)
IsPlayed s (moved GameResult.loss s') = SameGame s s' × (s'.is_complete ≡ true)
IsPlayed s (moved _ s') = ⊥
IsPlayed s (failed e) = Unit
IsPlayed s crashed = 2 ^ 32 ≤ s.move_count + 1

cash_out-IsPlayed : (s : GameSession) (card : ℕ) (pot : Option ℤ) → IsPlayed s (cash_out s card pot)
cash_out-IsPlayed s card none = tt
cash_out-IsPlayed s card (some z) = ground arith

checked_scale_fits :
    (a b z : ℤ) → checked_scale a b ≡ some z → (z ≡ scaled a b) × (fits_signed 63 z ≡ true)
unfolding checked_scale
checked_scale_fits a b z h = ground arith

-- A right guess is told by the two ranks.
is_correct_higher :
    (guess_higher : Bool) (rank new_rank : ℕ)
    → is_correct guess_higher rank new_rank ≡ true
    → ltb rank new_rank ≡ guess_higher
is_correct_higher true rank new_rank h = h
is_correct_higher false rank new_rank h = ground arith

Follows-right :
    (guess_higher : Bool) (card new_card : ℕ) (accumulator z : ℤ)
    → is_correct guess_higher (card_rank card) (card_rank new_card) ≡ true
    → checked_scale accumulator (pos (calculate_multiplier (card_rank card) guess_higher)) ≡ some z
    → Follows (some (card, accumulator)) (parse_state (serialize_state new_card z))
Follows-right guess_higher card new_card accumulator z right h =
    let fits =
      checked_scale_fits accumulator (pos (calculate_multiplier (card_rank card) guess_higher)) z
        h in
    rw
      (
        parse_state-serialize_state new_card z fits.1,
        is_correct_higher guess_higher (card_rank card) (card_rank new_card) right,
      )
      fits.0

go_on-IsPlayed :
    (s : GameSession) (guess_higher : Bool) (card new_card : ℕ) (accumulator : ℤ) (pot : Option ℤ)
    → parse_state s.state_blob ≡ some (card, accumulator)
    → is_correct guess_higher (card_rank card) (card_rank new_card) ≡ true
    → checked_scale accumulator (pos (calculate_multiplier (card_rank card) guess_higher)) ≡ pot
    → IsPlayed s (go_on (record s { move_count = s.move_count + 1 }) new_card pot)
go_on-IsPlayed s guess_higher card new_card accumulator none parsed right h = tt
go_on-IsPlayed s guess_higher card new_card accumulator (some z) parsed right h = (
  (refl, refl, refl, refl),
  refl,
  refl,
  rw parsed (Follows-right guess_higher card new_card accumulator z right h),
)

settle_guess-IsPlayed :
    (s : GameSession) (guess_higher : Bool) (card : ℕ) (accumulator : ℤ) (drawn : Option ℕ)
    → parse_state s.state_blob ≡ some (card, accumulator)
    → IsPlayed s (settle_guess s guess_higher card accumulator drawn)
unfolding settle_guess
settle_guess-IsPlayed s guess_higher card accumulator none parsed = tt
settle_guess-IsPlayed s guess_higher card accumulator (some new_card) parsed =
    elim (Bool-cases (ltb (s.move_count + 1) (2 ^ 32))) [
      | inl small ↦
          elim (Bool-cases (is_correct guess_higher (card_rank card) (card_rank new_card))) [
            | inl right ↦
                rw (small, right)
                  (go_on-IsPlayed s guess_higher card new_card accumulator _ parsed right refl)
            | inr wrong ↦ rw (small, wrong) ((refl, refl, refl, refl), refl)
          ]
      | inr large ↦ rw large (ground arith)
    ]

length-without : (excluded cards : List ℕ) → length (without excluded cards) ≤ length cards
unfolding without
length-without excluded [] = omega arith
length-without excluded (card ∷ cards) = ground (arith, length-without excluded cards)

length-cards_from : length (cards_from 0 52) ≡ 52
unfolding cards_from
length-cards_from = refl

module _ (sha256 : List ℕ → List ℕ) (fuel : ℕ) (lands : Lands sha256 fuel) where
  create_deck_excluding-Ends :
      (card : ℕ) (rng : GameRng)
      → Ends (λ deck. length deck ≤ 255) (create_deck_excluding sha256 fuel (card ∷ []) rng)
  unfolding create_deck_excluding
  create_deck_excluding-Ends card rng =
      let deck = without (card ∷ []) (cards_from 0 52) in
      let bound : length deck ≤ 52 =
        omega (arith, length-cards_from, length-without (card ∷ []) (cards_from 0 52)) in
      Ends-map (λ d. length d ≡ length deck) (λ d. length d ≤ 255) (shuffle sha256 fuel deck rng)
        (shuffle-Ends sha256 fuel 255 (Lands-Serves sha256 fuel lands) deck rng (omega arith))
        (λ d same. omega arith)

  guess-Ends :
      (s : GameSession) (guess_higher : Bool) (card : ℕ) (accumulator : ℤ) (rng : GameRng)
      → parse_state s.state_blob ≡ some (card, accumulator)
      → Ends (IsPlayed s) (guess sha256 fuel s guess_higher card accumulator rng)
  unfolding guess
  guess-Ends s guess_higher card accumulator rng parsed =
      elim (Bool-cases (is_impossible guess_higher (card_rank card))) [
        | inl never ↦ rw never tt
        | inr possible ↦ rw possible (
            Ends-bind (λ deck. length deck ≤ 255) (IsPlayed s)
              (create_deck_excluding sha256 fuel (card ∷ []) rng) _
              (create_deck_excluding-Ends card rng)
              (λ deck r small.
                Ends-bind (λ drawn. length drawn.1 ≤ length deck) (IsPlayed s)
                  (draw_card sha256 fuel deck r) _
                  (draw_card-Ends sha256 fuel 255 (Lands-Serves sha256 fuel lands) deck r small)
                  (λ drawn r' any.
                    settle_guess-IsPlayed s guess_higher card accumulator drawn.0 parsed)))
      ]

  play_move-Ends :
      (s : GameSession) (mv : Move) (state : ℕ × ℤ) (rng : GameRng)
      → parse_state s.state_blob ≡ some state
      → Ends (IsPlayed s) (play_move sha256 fuel s mv state rng)
  play_move-Ends s Move.cashout state rng parsed =
      cash_out-IsPlayed s state.0 (checked_scale (as_i64 s.bet) state.1)
  play_move-Ends s Move.higher state rng parsed = guess-Ends s true state.0 state.1 rng parsed
  play_move-Ends s Move.lower state rng parsed = guess-Ends s false state.0 state.1 rng parsed

  play_parsed-Ends :
      (s : GameSession) (mv : Option Move) (state : Option (ℕ × ℤ)) (rng : GameRng)
      → parse_state s.state_blob ≡ state
      → Ends (IsPlayed s) (play_parsed sha256 fuel s mv state rng)
  play_parsed-Ends s none state rng parsed = tt
  play_parsed-Ends s (some mv) none rng parsed = tt
  play_parsed-Ends s (some mv) (some state) rng parsed = play_move-Ends s mv state rng parsed

  -- With a generator that lands, a move of Hi-Lo ends: with an error; with a game that is complete,
  -- of the same bet; or with one that goes on, with one move more and the pot multiplied by the odds of
  -- the guess that the new card makes right. It crashes only when the count of moves is full.
  pub process_move-IsPlayed :
      (s : GameSession) (payload : List ℕ) (rng : GameRng)
      → Ends (IsPlayed s) (process_move sha256 fuel s payload rng)
  unfolding process_move
  process_move-IsPlayed s [] rng = tt
  process_move-IsPlayed s (value ∷ payload) rng =
      Ends-if (IsPlayed s) s.is_complete _
        (play_parsed sha256 fuel s (move_of value) (parse_state s.state_blob)) rng tt
        (play_parsed-Ends s (move_of value) (parse_state s.state_blob) rng refl)
