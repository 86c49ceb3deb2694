-- ===== src/Games/CasinoWar/Play.antt =====
-- `CasinoWar::process_move`, with the shoes that it draws from.
use supersociety_battleware.Base.{
  leb, ℕ, zero, suc, ◌+◌, ◌-◌, ◌/◌, ◌^◌, ltb, ◌==◌, not, Option, none, some, List, [], ◌∷◌, ◌++◌,
  length, if◌then◌else◌,
}
use supersociety_battleware.Types.{GameSession}
use supersociety_battleware.Casino.Interface.{
  GameResult, GameError, MoveResult, moved, failed, crashed,
}
use supersociety_battleware.Casino.Progressive.Hands.{from_be_bytes}
use supersociety_battleware.Casino.Rng.{Draw, ◌>>=◌, pure, cards_from, shuffle, draw_card}
use supersociety_battleware.Games.HiLo.{create_deck_excluding}
use supersociety_battleware.Games.CasinoWar.{
  casino_war_decks, war_move_of, StageV1, StageV0, WarMove, CasinoWarStateV1, WarState,
  parse_war_state, serialize_state_v1, change_tie_bet, completed, deal, settle_war,
  settle_war_legacy, compare_legacy,
}

-- The cards of some decks, one deck after another.
unfoldable pub shoe_of : ℕ → List ℕ
shoe_of zero = []
shoe_of (suc decks) = cards_from 0 52 ++ shoe_of decks

-- How often a card is excluded.
unfoldable pub used_count : ℕ → List ℕ → ℕ
used_count card [] = 0
used_count card (c ∷ cs) = (if c == card then 1 else 0) + used_count card cs

unfoldable pub copies : ℕ → ℕ → List ℕ
copies card zero = []
copies card (suc n) = card ∷ copies card n

-- The cards from `first` up, `n` of them, each as often as it is left in the decks.
unfoldable pub remaining_cards : List ℕ → ℕ → ℕ → ℕ → List ℕ
remaining_cards excluded decks first zero = []
remaining_cards excluded decks first (suc n) =
    copies first (decks - used_count first excluded) ++ remaining_cards excluded decks (first + 1) n

abbrev pub both_cards : Option ℕ → Option ℕ → Option (ℕ × ℕ)
both_cards (some player_card) (some dealer_card) = some (player_card, dealer_card)
both_cards _ _ = none

abbrev pub or_card : ℕ → Option ℕ → ℕ
or_card card none = card
or_card _ (some card) = card

-- The session of a surrender: the blob is written with the stage changed, the cards kept.
abbrev surrendered : GameSession → CasinoWarStateV1 → GameSession
surrendered session state =
    completed (record session {
      state_blob = serialize_state_v1 (record state { stage = StageV1.complete });
    })

module _ (sha256 : List ℕ → List ℕ) (fuel : ℕ) where
  -- `GameRng::create_shoe`
  unfoldable pub create_shoe : ℕ → Draw (List ℕ)
  create_shoe decks = shuffle sha256 fuel (shoe_of (if decks == 0 then 1 else decks))

  -- `GameRng::create_shoe_excluding`
  unfoldable pub create_shoe_excluding : List ℕ → ℕ → Draw (List ℕ)
  create_shoe_excluding excluded decks =
      if leb decks 1
      then create_deck_excluding sha256 fuel excluded
      else shuffle sha256 fuel (remaining_cards excluded decks 0 52)

  -- Cards are drawn and laid aside.
  unfoldable pub burn : ℕ → List ℕ → Draw (List ℕ)
  burn zero deck = pure deck
  burn (suc n) deck = draw_card sha256 fuel deck >>= λ drawn. burn n drawn.1

  unfoldable pub draw_two : List ℕ → Draw (Option ℕ × Option ℕ)
  draw_two deck = draw_card sha256 fuel deck >>= λ first.
      draw_card sha256 fuel first.1 >>= λ second. pure (first.0, second.0)

  unfoldable pub play_deal : GameSession → CasinoWarStateV1 → Draw MoveResult
  play_deal session state = create_shoe casino_war_decks >>= λ deck.
      draw_two deck >>= λ drawn. pure (deal session state (or_card 0 drawn.0) (or_card 1 drawn.1))

  -- The cards of a war: three cards are burned.
  unfoldable pub war_cards : ℕ → ℕ → Draw (Option ℕ × Option ℕ)
  war_cards player_card dealer_card =
      create_shoe_excluding (player_card ∷ dealer_card ∷ []) casino_war_decks >>= λ deck.
      burn 3 deck >>= λ rest. draw_two rest

  unfoldable pub go_to_war : GameSession → CasinoWarStateV1 → Draw MoveResult
  go_to_war session state = war_cards state.player_card state.dealer_card >>= λ drawn.
      pure (settle_war session state (both_cards drawn.0 drawn.1))

  unfoldable pub go_to_war_legacy : GameSession → ℕ → ℕ → Draw MoveResult
  go_to_war_legacy session player_card dealer_card = war_cards player_card dealer_card >>= λ drawn.
      pure (settle_war_legacy session (both_cards drawn.0 drawn.1))

  -- A move before the deal; `payload` is what follows the first byte.
  abbrev pub play_betting : GameSession → CasinoWarStateV1 → WarMove → List ℕ → Draw MoveResult
  play_betting session state WarMove.set_tie_bet payload = pure (
      if length payload == 8
      then change_tie_bet session state (from_be_bytes 0 payload)
      else failed GameError.invalid_payload)
  play_betting session state WarMove.play payload =
      if length payload == 0
      then play_deal session state
      else pure (failed GameError.invalid_payload)
  play_betting session state _ payload = pure (failed GameError.invalid_move)

  abbrev pub play_war : GameSession → CasinoWarStateV1 → WarMove → Draw MoveResult
  play_war session state WarMove.surrender =
      pure (moved (GameResult.win (session.bet / 2)) (surrendered session state))
  play_war session state WarMove.war = go_to_war session state
  play_war session state _ = pure (failed GameError.invalid_move)

  abbrev pub play_stage :
      GameSession → CasinoWarStateV1 → StageV1 → WarMove → List ℕ → Draw MoveResult
  play_stage session state StageV1.betting mv payload = play_betting session state mv payload
  play_stage session state StageV1.war mv payload = play_war session state mv
  play_stage session state StageV1.complete mv payload =
      pure (failed GameError.game_already_complete)

  abbrev pub play_legacy : GameSession → ℕ → ℕ → StageV0 → WarMove → Draw MoveResult
  play_legacy session player_card dealer_card StageV0.initial WarMove.play =
      pure (compare_legacy session player_card dealer_card)
  play_legacy session player_card dealer_card StageV0.initial _ =
      pure (failed GameError.invalid_move)
  play_legacy session player_card dealer_card StageV0.war_after_tie WarMove.surrender =
      pure (moved (GameResult.win (session.bet / 2)) (completed session))
  play_legacy session player_card dealer_card StageV0.war_after_tie WarMove.war =
      go_to_war_legacy session player_card dealer_card
  play_legacy session player_card dealer_card StageV0.war_after_tie _ =
      pure (failed GameError.invalid_move)

  abbrev pub play_state : GameSession → WarState → WarMove → List ℕ → Draw MoveResult
  play_state session (WarState.versioned state) mv payload =
      play_stage session state state.stage mv payload
  play_state session (WarState.legacy player_card dealer_card stage) mv payload =
      play_legacy session player_card dealer_card stage mv

  abbrev pub play_war_move :
      GameSession → List ℕ → Option WarMove → Option WarState → Draw MoveResult
  play_war_move session payload none state = pure (failed GameError.invalid_payload)
  play_war_move session payload (some mv) none = pure (failed GameError.invalid_payload)
  play_war_move session payload (some mv) (some state) =
      if not (ltb (session.move_count + 1) (2 ^ 32))
      then pure crashed
      else play_state (record session { move_count = session.move_count + 1 }) state mv payload

  -- `CasinoWar::process_move`
  unfoldable pub process_war : GameSession → List ℕ → Draw MoveResult
  process_war session [] = pure (
      failed (
        if session.is_complete then GameError.game_already_complete else GameError.invalid_payload))
  process_war session (value ∷ payload) =
      if session.is_complete
      then pure (failed GameError.game_already_complete)
      else play_war_move session payload (war_move_of value) (parse_war_state session.state_blob)
