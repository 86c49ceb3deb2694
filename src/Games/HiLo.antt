-- ===== src/Games/HiLo.antt =====
-- Hi-Lo: execution/src/casino/hilo.rs, with the streak multiplier of execution/src/casino/super_mode.rs and
-- the deck without some cards of execution/src/casino/mod.rs.
pub mod State
pub mod Odds
pub mod Moves
use supersociety_battleware.Base.{
  ℕ, zero, suc, ℤ, pos, negsuc, pos_part, neg_part, ltb_ℤ, ◌+◌, ◌-◌, ◌*◌, ◌/◌, ◌%◌, ◌^◌, min, ltb,
  leb, ◌==◌, fits_signed, sat_mul, as_i64, to_u64_or_zero, Bool, true, false, not, ◌&&◌, ◌||◌,
  Option, none, some, List, [], ◌∷◌, ◌++◌, length, drop, take, get_or, if◌then◌else◌,
}
use supersociety_battleware.Base.Assoc.{member}
use supersociety_battleware.Types.{GameSession}
use supersociety_battleware.Casino.Interface.{
  GameResult, GameError, MoveResult, moved, failed, crashed, to_be_bytes,
}
use supersociety_battleware.Casino.Progressive.Hands.{from_be_bytes}
use supersociety_battleware.Casino.Rng.{
  Draw, ◌>>=◌, pure, create_deck, cards_from, shuffle, draw_card,
}

abbrev pub base_multiplier : ℕ
base_multiplier = 10000

pub data Move : Type 0 where
  higher lower cashout : Move

-- `Move::try_from`
abbrev pub move_of : ℕ → Option Move
move_of value =
    if value == 0
    then some Move.higher
    else if value == 1
    then some Move.lower
    else if value == 2
    then some Move.cashout
    else none

abbrev pub card_rank : ℕ → ℕ
card_rank card = card % 13 + 1

-- The ranks that win.
abbrev pub winning_ranks : ℕ → Bool → ℕ
winning_ranks current_rank true = 13 - current_rank
winning_ranks current_rank false = current_rank - 1

-- In basis points; 0 where nothing wins.
unfoldable pub calculate_multiplier : ℕ → Bool → ℕ
calculate_multiplier current_rank guess_higher =
    let wins = winning_ranks current_rank guess_higher in
    if wins == 0 then 0 else 13 * base_multiplier / wins

-- An `i64` as the word of its eight bytes.
abbrev pub word_of : ℤ → ℕ
word_of (pos n) = n
word_of (negsuc n) = 2 ^ 64 - n - 1

unfoldable pub serialize_state : ℕ → ℤ → List ℕ
serialize_state current_card accumulator = current_card ∷ to_be_bytes 8 (word_of accumulator)

unfoldable pub parse_state : List ℕ → Option (ℕ × ℤ)
parse_state state =
    if ltb (length state) 9
    then none
    else some (get_or state 0 0, as_i64 (from_be_bytes 0 (take 8 (drop 1 state))))

-- The integer of a sign and a size: true is for a negative one.
abbrev pub signed : Bool → ℕ → ℤ
signed true zero = pos 0
signed true (suc n) = negsuc n
signed false n = pos n

abbrev pub is_negative : ℤ → Bool
is_negative (pos n) = false
is_negative (negsuc n) = true

abbrev pub xor : Bool → Bool → Bool
xor true b = not b
xor false b = b

-- `a.checked_mul(b).and_then(|v| v.checked_div(10_000))`: the quotient is rounded towards 0.
abbrev pub scaled : ℤ → ℤ → ℤ
scaled a b =
    signed (xor (is_negative a) (is_negative b))
      ((pos_part a + neg_part a) * (pos_part b + neg_part b) / base_multiplier)

abbrev pub product : ℤ → ℤ → ℤ
product a b =
    signed (xor (is_negative a) (is_negative b))
      ((pos_part a + neg_part a) * (pos_part b + neg_part b))

unfoldable pub checked_scale : ℤ → ℤ → Option ℤ
checked_scale a b = if fits_signed 63 (product a b) then some (scaled a b) else none

-- `apply_hilo_streak_multiplier`, in tenths.
abbrev pub streak_tenths : ℕ → ℕ
streak_tenths streak =
    if leb streak 1
    then 15
    else if streak == 2
    then 25
    else if streak == 3
    then 40
    else if streak == 4
    then 70
    else if streak == 5
    then 120
    else if streak == 6
    then 200
    else if streak == 7
    then 350
    else if streak == 8
    then 600
    else if streak == 9
    then 1000
    else 2000

unfoldable pub apply_hilo_streak_multiplier : ℕ → ℕ → Bool → ℕ
apply_hilo_streak_multiplier base_payout streak was_ace =
    sat_mul base_payout (if was_ace then streak_tenths streak * 3 else streak_tenths streak) / 10

-- The cards of a deck that are not excluded.
unfoldable pub without : List ℕ → List ℕ → List ℕ
without excluded [] = []
without excluded (card ∷ cards) =
    let rest = without excluded cards in if member card excluded then rest else card ∷ rest

-- The payout at a cashout.
abbrev pub cashout_payout : GameSession → ℕ → ℕ → ℕ
cashout_payout session current_card base_payout =
    if session.super_mode.is_active && ltb 0 session.move_count
    then apply_hilo_streak_multiplier base_payout (min session.move_count 255)
        (card_rank current_card == 1)
    else base_payout

-- A cashout, with what the pot is worth.
abbrev pub cash_out : GameSession → ℕ → Option ℤ → MoveResult
cash_out session current_card none = failed GameError.invalid_state
cash_out session current_card (some base_payout) =
    if ltb_ℤ (pos 0) base_payout
    then moved (GameResult.win (cashout_payout session current_card (to_u64_or_zero base_payout)))
        (record session { is_complete = true })
    else moved GameResult.loss (record session { is_complete = true })

-- A guess was right, with the new accumulator.
abbrev pub go_on : GameSession → ℕ → Option ℤ → MoveResult
go_on session new_card none = failed GameError.invalid_state
go_on session new_card (some accumulator) =
    moved GameResult.continue (record session { state_blob = serialize_state new_card accumulator })

abbrev pub is_correct : Bool → ℕ → ℕ → Bool
is_correct true current_rank new_rank = ltb current_rank new_rank
is_correct false current_rank new_rank = ltb new_rank current_rank

-- The card after a guess. The count of moves is checked.
unfoldable pub settle_guess : GameSession → Bool → ℕ → ℤ → Option ℕ → MoveResult
settle_guess session guess_higher current_card accumulator none = failed GameError.deck_exhausted
settle_guess session guess_higher current_card accumulator (some new_card) =
    if not (ltb (session.move_count + 1) (2 ^ 32))
    then crashed
    else if is_correct guess_higher (card_rank current_card) (card_rank new_card)
    then go_on (record session { move_count = session.move_count + 1 }) new_card
        (checked_scale accumulator
          (pos (calculate_multiplier (card_rank current_card) guess_higher)))
    else moved GameResult.loss (record session {
      move_count = session.move_count + 1;
      state_blob = serialize_state new_card (pos 0);
      is_complete = true;
    })

abbrev pub is_impossible : Bool → ℕ → Bool
is_impossible true current_rank = current_rank == 13
is_impossible false current_rank = current_rank == 1

module _ (sha256 : List ℕ → List ℕ) (fuel : ℕ) where
  -- `GameRng::create_deck_excluding`
  unfoldable pub create_deck_excluding : List ℕ → Draw (List ℕ)
  create_deck_excluding excluded = shuffle sha256 fuel (without excluded (cards_from 0 52))

  -- A guess: a card other than the current one is drawn.
  unfoldable pub guess : GameSession → Bool → ℕ → ℤ → Draw MoveResult
  guess session guess_higher current_card accumulator =
      if is_impossible guess_higher (card_rank current_card)
      then pure (failed GameError.invalid_move)
      else create_deck_excluding (current_card ∷ []) >>= λ deck.
          draw_card sha256 fuel deck >>= λ drawn.
          pure (settle_guess session guess_higher current_card accumulator drawn.0)

  abbrev pub play_move : GameSession → Move → ℕ × ℤ → Draw MoveResult
  play_move session Move.cashout state =
      pure (cash_out session state.0 (checked_scale (as_i64 session.bet) state.1))
  play_move session Move.higher state = guess session true state.0 state.1
  play_move session Move.lower state = guess session false state.0 state.1

  abbrev pub play_parsed : GameSession → Option Move → Option (ℕ × ℤ) → Draw MoveResult
  play_parsed session none state = pure (failed GameError.invalid_payload)
  play_parsed session (some mv) none = pure (failed GameError.invalid_payload)
  play_parsed session (some mv) (some state) = play_move session mv state

  -- `HiLo::process_move`
  unfoldable pub process_move : GameSession → List ℕ → Draw MoveResult
  process_move session [] = pure (
      failed (
        if session.is_complete then GameError.game_already_complete else GameError.invalid_payload))
  process_move session (value ∷ payload) =
      if session.is_complete
      then pure (failed GameError.game_already_complete)
      else play_parsed session (move_of value) (parse_state session.state_blob)

  abbrev pub first_card : Option ℕ → ℕ
  first_card none = 0
  first_card (some card) = card

  -- `HiLo::init`
  unfoldable pub init : GameSession → Draw (GameResult × GameSession)
  init session = create_deck sha256 fuel >>= λ deck. draw_card sha256 fuel deck >>= λ drawn. pure (
    GameResult.continue,
    record session { state_blob = serialize_state (first_card drawn.0) (pos base_multiplier) },
  )
