-- ===== src/Games/CasinoWar.antt =====
-- Casino War: execution/src/casino/casino_war.rs, with the shoes of execution/src/casino/mod.rs.
pub mod Play
pub mod Moves
pub mod Draws
use supersociety_battleware.Base.{
  ℕ, zero, suc, ℤ, pos, ◌-ℤ◌, ◌+◌, ◌-◌, ◌*◌, ◌/◌, ◌%◌, ◌^◌, ltb, leb, ◌==◌, sat_add, sat_mul, Bool,
  true, false, not, ◌&&◌, Option, none, some, List, [], ◌∷◌, ◌++◌, length, drop, take, get_or,
  if◌then◌else◌,
}
use supersociety_battleware.Types.{GameSession}
use supersociety_battleware.Casino.Interface.{
  GameResult, GameError, MoveResult, moved, failed, crashed, to_be_bytes,
}
use supersociety_battleware.Casino.Progressive.Hands.{from_be_bytes}
use supersociety_battleware.Casino.Multipliers.{apply_super_multiplier_cards}
use supersociety_battleware.Casino.Rng.{Draw, ◌>>=◌, pure, cards_from, shuffle, draw_card}

abbrev hidden_card : ℕ
hidden_card = 255

abbrev pub casino_war_decks : ℕ
casino_war_decks = 6

-- The ace is high.
abbrev pub war_rank : ℕ → ℕ
war_rank card = if card % 13 + 1 == 1 then 14 else card % 13 + 1

pub data StageV1 : Type 0 where
  betting war complete : StageV1

pub data StageV0 : Type 0 where
  initial war_after_tie : StageV0

pub data WarMove : Type 0 where
  play war surrender set_tie_bet : WarMove

abbrev stage_v1_of : ℕ → Option StageV1
stage_v1_of value =
    if value == 0
    then some StageV1.betting
    else if value == 1
    then some StageV1.war
    else if value == 2
    then some StageV1.complete
    else none

abbrev stage_v1_number : StageV1 → ℕ
stage_v1_number StageV1.betting = 0
stage_v1_number StageV1.war = 1
stage_v1_number StageV1.complete = 2

abbrev stage_v0_of : ℕ → Option StageV0
stage_v0_of value =
    if value == 0
    then some StageV0.initial
    else if value == 1
    then some StageV0.war_after_tie
    else none

abbrev stage_v0_number : StageV0 → ℕ
stage_v0_number StageV0.initial = 0
stage_v0_number StageV0.war_after_tie = 1

abbrev pub war_move_of : ℕ → Option WarMove
war_move_of value =
    if value == 0
    then some WarMove.play
    else if value == 1
    then some WarMove.war
    else if value == 2
    then some WarMove.surrender
    else if value == 3
    then some WarMove.set_tie_bet
    else none

pub record CasinoWarStateV1 : Type 0 where
  pub player_card : ℕ
  pub dealer_card : ℕ
  pub stage : StageV1
  pub tie_bet : ℕ

-- A state blob, with a version or without.
pub data WarState : Type 0 where
  versioned : CasinoWarStateV1 → WarState
  legacy : ℕ → ℕ → StageV0 → WarState

abbrev versioned_state : List ℕ → Option StageV1 → Option WarState
versioned_state blob none = none
versioned_state blob (some stage) = some (
    WarState.versioned (record {
      player_card = get_or blob 2 0;
      dealer_card = get_or blob 3 0;
      stage = stage;
      tie_bet = from_be_bytes 0 (take 8 (drop 4 blob));
    }))

abbrev legacy_state : List ℕ → Option StageV0 → Option WarState
legacy_state blob none = none
legacy_state blob (some stage) = some (WarState.legacy (get_or blob 0 0) (get_or blob 1 0) stage)

unfoldable pub parse_war_state : List ℕ → Option WarState
parse_war_state blob =
    if leb 12 (length blob) && get_or blob 0 0 == 1
    then versioned_state blob (stage_v1_of (get_or blob 1 0))
    else if ltb (length blob) 3
    then none
    else legacy_state blob (stage_v0_of (get_or blob 2 0))

unfoldable pub serialize_state_v1 : CasinoWarStateV1 → List ℕ
serialize_state_v1 state =
    1
    ∷ stage_v1_number state.stage
    ∷ state.player_card
    ∷ state.dealer_card
    ∷ to_be_bytes 8 state.tie_bet

abbrev serialize_state_legacy : ℕ → ℕ → StageV0 → List ℕ
serialize_state_legacy player_card dealer_card stage =
    player_card ∷ dealer_card ∷ stage_v0_number stage ∷ []

-- `CasinoWar::init`
pub init_war : GameSession → GameResult × GameSession
unfolding serialize_state_v1
init_war session = (
  GameResult.continue,
  record session {
    state_blob = serialize_state_v1 (record {
      player_card = hidden_card;
      dealer_card = hidden_card;
      stage = StageV1.betting;
      tie_bet = 0;
    });
  },
)

-- The winnings, with the multipliers of the super mode for the player's card.
abbrev pub winnings : GameSession → ℕ → ℕ → ℕ
winnings session card base_winnings =
    if session.super_mode.is_active
    then apply_super_multiplier_cards (card ∷ []) session.super_mode.multipliers base_winnings
    else base_winnings

-- The tie bet is replaced; the balance changes by the difference, which is an `i64`.
unfoldable pub change_tie_bet : GameSession → CasinoWarStateV1 → ℕ → MoveResult
change_tie_bet session state next_amount =
    let next_session = record session {
      state_blob = serialize_state_v1 (record state { tie_bet = next_amount });
    } in
    if leb state.tie_bet next_amount
    then (if ltb (next_amount - state.tie_bet) (2 ^ 63)
        then moved (GameResult.continue_with_update (pos 0 -ℤ pos (next_amount - state.tie_bet)))
            next_session
        else failed GameError.invalid_payload)
    else if ltb (state.tie_bet - next_amount) (2 ^ 63)
    then moved (GameResult.continue_with_update (pos (state.tie_bet - next_amount))) next_session
    else failed GameError.invalid_payload

-- The session with the cards on the table, at a stage.
abbrev pub with_cards : GameSession → CasinoWarStateV1 → StageV1 → ℕ → ℕ → GameSession
with_cards session state stage player_card dealer_card = record session {
  state_blob =
      serialize_state_v1
        (record state { player_card = player_card; dealer_card = dealer_card; stage = stage });
}

abbrev pub completed : GameSession → GameSession
completed session = record session { is_complete = true }

-- What the tie bet returns: nothing, ten to one, or more than an `i64`.
abbrev pub tie_bet_return : CasinoWarStateV1 → ℕ → ℕ → Option ℕ
tie_bet_return state player_card dealer_card =
    if ltb 0 state.tie_bet && war_rank player_card == war_rank dealer_card
    then (if ltb (sat_mul state.tie_bet 11) (2 ^ 63) then some (sat_mul state.tie_bet 11) else none)
    else some 0

abbrev pub tie_result : ℕ → GameResult
tie_result zero = GameResult.continue
tie_result (suc n) = GameResult.continue_with_update (pos (suc n))

abbrev pub settle_deal : GameSession → CasinoWarStateV1 → ℕ → ℕ → Option ℕ → MoveResult
settle_deal session state player_card dealer_card none = failed GameError.invalid_payload
settle_deal session state player_card dealer_card (some tie_return) =
    if ltb (war_rank dealer_card) (war_rank player_card)
    then moved (GameResult.win (winnings session player_card (sat_mul session.bet 2)))
        (completed (with_cards session state StageV1.complete player_card dealer_card))
    else if ltb (war_rank player_card) (war_rank dealer_card)
    then moved GameResult.loss
        (completed (with_cards session state StageV1.complete player_card dealer_card))
    else moved (tie_result tie_return)
        (with_cards session state StageV1.war player_card dealer_card)

-- The two cards are dealt.
unfoldable pub deal : GameSession → CasinoWarStateV1 → ℕ → ℕ → MoveResult
deal session state player_card dealer_card =
    settle_deal session state player_card dealer_card (tie_bet_return state player_card dealer_card)

-- A tie after a tie pays a bonus of the ante.
abbrev pub war_base : GameSession → ℕ → ℕ → ℕ
war_base session player_card dealer_card =
    if war_rank player_card == war_rank dealer_card
    then sat_add (sat_mul session.bet 2) (sat_mul session.bet 1)
    else sat_mul session.bet 2

unfoldable pub settle_war : GameSession → CasinoWarStateV1 → Option (ℕ × ℕ) → MoveResult
settle_war session state none = failed GameError.invalid_move
settle_war session state (some cards) =
    let next_session = completed (with_cards session state StageV1.complete cards.0 cards.1) in
    if leb (war_rank cards.1) (war_rank cards.0)
    then moved (GameResult.win (winnings session cards.0 (war_base session cards.0 cards.1)))
        next_session
    else moved (GameResult.loss_with_extra_deduction session.bet) next_session

unfoldable pub settle_war_legacy : GameSession → Option (ℕ × ℕ) → MoveResult
settle_war_legacy session none = failed GameError.invalid_move
settle_war_legacy session (some cards) =
    let next_session = completed (record session {
      state_blob = serialize_state_legacy cards.0 cards.1 StageV0.war_after_tie;
    }) in
    if leb (war_rank cards.1) (war_rank cards.0)
    then moved (GameResult.win (winnings session cards.0 (sat_mul session.bet 2))) next_session
    else moved (GameResult.loss_with_extra_deduction session.bet) next_session

unfoldable pub compare_legacy : GameSession → ℕ → ℕ → MoveResult
compare_legacy session player_card dealer_card =
    if ltb (war_rank dealer_card) (war_rank player_card)
    then moved (GameResult.win (winnings session player_card (sat_mul session.bet 2)))
        (completed session)
    else if ltb (war_rank player_card) (war_rank dealer_card)
    then moved GameResult.loss (completed session)
    else moved GameResult.continue (record session {
      state_blob = serialize_state_legacy player_card dealer_card StageV0.war_after_tie;
    })
