-- ===== src/Games/CasinoWar/Draws.antt =====
-- The moves of Casino War end, with the cards that they draw.
use supersociety_battleware.Base.{
  length-append, ℕ, zero, suc, ◌+◌, ◌*◌, ◌^◌, ◌≤◌, ◌≡◌, refl, ltb, ◌==◌, Option, none, some, List,
  [], ◌∷◌, length, arith, Bool-cases, inl, inr,
}
use supersociety_battleware.Types.{GameSession}
use supersociety_battleware.Casino.Interface.{
  GameResult, GameRng, MoveResult, moved, failed, crashed,
}
use supersociety_battleware.Casino.Progressive.Hands.{from_be_bytes}
use supersociety_battleware.Casino.Rng.{draw_card, cards_from, shuffle}
use supersociety_battleware.Casino.Rng.Rejection.{Lands}
use supersociety_battleware.Casino.Rng.Ends.{
  Ends, Ends-bind, Ends-map, Ends-if, LandsWords, LandsWords-Serves, shuffle-Ends, draw_card-Ends,
}
use supersociety_battleware.Games.CasinoWar.{
  war_move_of, StageV1, StageV0, WarMove, CasinoWarStateV1, WarState, parse_war_state,
}
use supersociety_battleware.Games.CasinoWar.Play.{
  shoe_of, remaining_cards, both_cards, or_card, copies, create_shoe, create_shoe_excluding, burn,
  draw_two, play_deal, war_cards, go_to_war, go_to_war_legacy, play_betting, play_stage,
  play_legacy, play_state, play_war_move, process_war,
}
use supersociety_battleware.Games.CasinoWar.Moves.{
  IsSettled, IsSettled-if, change_tie_bet-IsSettled, deal-IsSettled, settle_war-IsSettled,
  settle_war_legacy-IsSettled, compare_legacy-IsSettled,
}

-- The count of the moves before makes no difference.
IsSettled-counted :
    (s : GameSession) (moves count : ℕ) (result : MoveResult)
    → IsSettled (record s { move_count = moves }) count result
    → IsSettled s count result
IsSettled-counted s moves count (moved GameResult.continue s') settled = settled
IsSettled-counted s moves count (moved (GameResult.continue_with_update delta) s') settled = settled
IsSettled-counted s moves count (moved (GameResult.win payout) s') settled = settled
IsSettled-counted s moves count (moved (GameResult.win_with_extra_deduction payout extra) s')
      settled =
    settled
IsSettled-counted s moves count (moved GameResult.loss s') settled = settled
IsSettled-counted s moves count (moved (GameResult.loss_with_extra_deduction extra) s') settled =
    settled
IsSettled-counted s moves count (moved (GameResult.loss_pre_deducted lost) s') settled = settled
IsSettled-counted s moves count
      (moved (GameResult.loss_pre_deducted_with_extra_deduction lost extra) s') settled =
    settled
IsSettled-counted s moves count (moved GameResult.push s') settled = settled
IsSettled-counted s moves count (failed e) settled = tt
IsSettled-counted s moves count crashed settled = settled

length-copies : (card n : ℕ) → length (copies card n) ≡ n
unfolding copies
length-copies card zero = refl
length-copies card (suc n) = rw (length-copies card n) refl

length-remaining_cards :
    (excluded : List ℕ) (decks first n : ℕ)
    → length (remaining_cards excluded decks first n) ≤ n * decks
unfolding remaining_cards
length-remaining_cards excluded decks first zero = omega arith
length-remaining_cards excluded decks first (suc n) =
    rw (length-append, length-copies)
      (grind (arith, length-remaining_cards excluded decks (first + 1) n))

length-shoe_of : length (shoe_of 6) ≡ 312
unfolding shoe_of cards_from
length-shoe_of = refl

module _ (sha256 : List ℕ → List ℕ) (fuel : ℕ) (lands : Lands sha256 fuel)
    (words : LandsWords sha256 fuel) where
  burn-Ends :
      (n : ℕ) (deck : List ℕ) (rng : GameRng)
      → length deck ≤ 2 ^ 31
      → Ends (λ rest. length rest ≤ 2 ^ 31) (burn sha256 fuel n deck rng)
  unfolding burn
  burn-Ends zero deck rng small = small
  burn-Ends (suc n) deck rng small =
      Ends-bind (λ drawn. length drawn.1 ≤ length deck) (λ rest. length rest ≤ 2 ^ 31)
        (draw_card sha256 fuel deck rng) _
        (draw_card-Ends sha256 fuel (2 ^ 31) (LandsWords-Serves sha256 fuel lands words) deck rng
          small)
        (λ drawn r fewer. burn-Ends n drawn.1 r (omega arith))

  draw_two-Ends :
      (deck : List ℕ) (rng : GameRng)
      → length deck ≤ 2 ^ 31
      → Ends (λ drawn. Unit) (draw_two sha256 fuel deck rng)
  unfolding draw_two
  draw_two-Ends deck rng small =
      Ends-bind (λ drawn. length drawn.1 ≤ length deck) (λ drawn. Unit)
        (draw_card sha256 fuel deck rng) _
        (draw_card-Ends sha256 fuel (2 ^ 31) (LandsWords-Serves sha256 fuel lands words) deck rng
          small)
        (λ first r fewer.
          Ends-bind (λ drawn. length drawn.1 ≤ length first.1) (λ drawn. Unit)
            (draw_card sha256 fuel first.1 r) _
            (draw_card-Ends sha256 fuel (2 ^ 31) (LandsWords-Serves sha256 fuel lands words) first.1
              r (omega arith))
            (λ second r' any. tt))

  shuffled-Ends :
      (cards : List ℕ) (rng : GameRng)
      → length cards ≤ 2 ^ 31
      → Ends (λ deck. length deck ≤ 2 ^ 31) (shuffle sha256 fuel cards rng)
  shuffled-Ends cards rng small =
      Ends-map (λ deck. length deck ≡ length cards) (λ deck. length deck ≤ 2 ^ 31)
        (shuffle sha256 fuel cards rng)
        (shuffle-Ends sha256 fuel (2 ^ 31) (LandsWords-Serves sha256 fuel lands words) cards rng
          small)
        (λ deck same. omega arith)

  play_deal-Ends :
      (s : GameSession) (state : CasinoWarStateV1) (rng : GameRng)
      → Ends (IsSettled s s.move_count) (play_deal sha256 fuel s state rng)
  unfolding play_deal create_shoe
  play_deal-Ends s state rng =
      Ends-bind (λ deck. length deck ≤ 2 ^ 31) (IsSettled s s.move_count)
        (shuffle sha256 fuel (shoe_of 6) rng) _
        (shuffled-Ends (shoe_of 6) rng (omega (arith, length-shoe_of)))
        (λ deck r small.
          Ends-bind (λ drawn. Unit) (IsSettled s s.move_count) (draw_two sha256 fuel deck r) _
            (draw_two-Ends deck r small)
            (λ drawn r' any. deal-IsSettled s state (or_card 0 drawn.0) (or_card 1 drawn.1)))

  war_cards-Ends :
      (player_card dealer_card : ℕ) (rng : GameRng)
      → Ends (λ drawn. Unit) (war_cards sha256 fuel player_card dealer_card rng)
  unfolding war_cards create_shoe_excluding
  war_cards-Ends player_card dealer_card rng =
      let shoe = remaining_cards (player_card ∷ dealer_card ∷ []) 6 0 52 in
      Ends-bind (λ deck. length deck ≤ 2 ^ 31) (λ drawn. Unit) (shuffle sha256 fuel shoe rng) _
        (shuffled-Ends shoe rng
          (omega (arith, length-remaining_cards (player_card ∷ dealer_card ∷ []) 6 0 52)))
        (λ deck r small.
          Ends-bind (λ rest. length rest ≤ 2 ^ 31) (λ drawn. Unit) (burn sha256 fuel 3 deck r) _
            (burn-Ends 3 deck r small) (λ rest r' fewer. draw_two-Ends rest r' fewer))

  go_to_war-Ends :
      (s : GameSession) (state : CasinoWarStateV1) (rng : GameRng)
      → Ends (IsSettled s s.move_count) (go_to_war sha256 fuel s state rng)
  unfolding go_to_war
  go_to_war-Ends s state rng =
      Ends-bind (λ drawn. Unit) (IsSettled s s.move_count)
        (war_cards sha256 fuel state.player_card state.dealer_card rng) _
        (war_cards-Ends state.player_card state.dealer_card rng)
        (λ drawn r any. settle_war-IsSettled s state (both_cards drawn.0 drawn.1))

  go_to_war_legacy-Ends :
      (s : GameSession) (player_card dealer_card : ℕ) (rng : GameRng)
      → Ends (IsSettled s s.move_count) (go_to_war_legacy sha256 fuel s player_card dealer_card rng)
  unfolding go_to_war_legacy
  go_to_war_legacy-Ends s player_card dealer_card rng =
      Ends-bind (λ drawn. Unit) (IsSettled s s.move_count)
        (war_cards sha256 fuel player_card dealer_card rng) _
        (war_cards-Ends player_card dealer_card rng)
        (λ drawn r any. settle_war_legacy-IsSettled s (both_cards drawn.0 drawn.1))

  play_betting-Ends :
      (s : GameSession) (state : CasinoWarStateV1) (mv : WarMove) (payload : List ℕ) (rng : GameRng)
      → Ends (IsSettled s s.move_count) (play_betting sha256 fuel s state mv payload rng)
  play_betting-Ends s state WarMove.set_tie_bet payload rng =
      IsSettled-if s s.move_count (length payload == 8) _ _
        (change_tie_bet-IsSettled s state (from_be_bytes 0 payload)) tt
  play_betting-Ends s state WarMove.play payload rng =
      Ends-if (IsSettled s s.move_count) (length payload == 0) (play_deal sha256 fuel s state) _ rng
        (play_deal-Ends s state rng) tt
  play_betting-Ends s state WarMove.war payload rng = tt
  play_betting-Ends s state WarMove.surrender payload rng = tt

  play_stage-Ends :
      (s : GameSession) (state : CasinoWarStateV1) (stage : StageV1) (mv : WarMove)
      (payload : List ℕ) (rng : GameRng)
      → Ends (IsSettled s s.move_count) (play_stage sha256 fuel s state stage mv payload rng)
  play_stage-Ends s state StageV1.betting mv payload rng = play_betting-Ends s state mv payload rng
  play_stage-Ends s state StageV1.war WarMove.play payload rng = tt
  play_stage-Ends s state StageV1.war WarMove.war payload rng = go_to_war-Ends s state rng
  play_stage-Ends s state StageV1.war WarMove.surrender payload rng =
      ((refl, refl, refl, refl), refl, (refl, inl refl))
  play_stage-Ends s state StageV1.war WarMove.set_tie_bet payload rng = tt
  play_stage-Ends s state StageV1.complete mv payload rng = tt

  play_legacy-Ends :
      (s : GameSession) (player_card dealer_card : ℕ) (stage : StageV0) (mv : WarMove)
      (rng : GameRng)
      → Ends
          (IsSettled s s.move_count)
          (play_legacy sha256 fuel s player_card dealer_card stage mv rng)
  play_legacy-Ends s player_card dealer_card StageV0.initial WarMove.play rng =
      compare_legacy-IsSettled s player_card dealer_card
  play_legacy-Ends s player_card dealer_card StageV0.initial WarMove.war rng = tt
  play_legacy-Ends s player_card dealer_card StageV0.initial WarMove.surrender rng = tt
  play_legacy-Ends s player_card dealer_card StageV0.initial WarMove.set_tie_bet rng = tt
  play_legacy-Ends s player_card dealer_card StageV0.war_after_tie WarMove.play rng = tt
  play_legacy-Ends s player_card dealer_card StageV0.war_after_tie WarMove.war rng =
      go_to_war_legacy-Ends s player_card dealer_card rng
  play_legacy-Ends s player_card dealer_card StageV0.war_after_tie WarMove.surrender rng =
      ((refl, refl, refl, refl), refl, (refl, inl refl))
  play_legacy-Ends s player_card dealer_card StageV0.war_after_tie WarMove.set_tie_bet rng = tt

  play_state-Ends :
      (s : GameSession) (state : WarState) (mv : WarMove) (payload : List ℕ) (rng : GameRng)
      → Ends (IsSettled s s.move_count) (play_state sha256 fuel s state mv payload rng)
  play_state-Ends s (WarState.versioned state) mv payload rng =
      play_stage-Ends s state state.stage mv payload rng
  play_state-Ends s (WarState.legacy player_card dealer_card stage) mv payload rng =
      play_legacy-Ends s player_card dealer_card stage mv rng

  -- The move is counted.
  counted :
      (s : GameSession) (state : WarState) (mv : WarMove) (payload : List ℕ) (rng : GameRng)
      → Ends
          (IsSettled s (s.move_count + 1))
          (play_state sha256 fuel (record s { move_count = s.move_count + 1 }) state mv payload rng)
  counted s state mv payload rng =
      Ends-map (IsSettled (record s { move_count = s.move_count + 1 }) (s.move_count + 1))
        (IsSettled s (s.move_count + 1)) _
        (play_state-Ends (record s { move_count = s.move_count + 1 }) state mv payload rng)
        (λ result settled. IsSettled-counted s (s.move_count + 1) (s.move_count + 1) result settled)

  play_war_move-Ends :
      (s : GameSession) (payload : List ℕ) (mv : Option WarMove) (state : Option WarState)
      (rng : GameRng)
      → Ends (IsSettled s (s.move_count + 1)) (play_war_move sha256 fuel s payload mv state rng)
  play_war_move-Ends s payload none state rng = tt
  play_war_move-Ends s payload (some mv) none rng = tt
  play_war_move-Ends s payload (some mv) (some state) rng =
      elim (Bool-cases (ltb (s.move_count + 1) (2 ^ 32))) [
        | inl small ↦ rw small (counted s state mv payload rng)
        | inr large ↦ rw large (ground arith)
      ]

  -- With a generator that lands, a move of Casino War ends, in both formats of the state: with an error,
  -- or with the same bet, one move more, and a game that goes on or is complete as the result says: a
  -- win pays half of the bet back or the winnings of twice the bet, with a bonus or without, and the
  -- extra deduction of a loss is the bet. It crashes only when the count of moves is full.
  pub process_war-IsSettled :
      (s : GameSession) (payload : List ℕ) (rng : GameRng)
      → Ends (IsSettled s (s.move_count + 1)) (process_war sha256 fuel s payload rng)
  unfolding process_war
  process_war-IsSettled s [] rng = tt
  process_war-IsSettled s (value ∷ payload) rng =
      Ends-if (IsSettled s (s.move_count + 1)) s.is_complete _
        (play_war_move sha256 fuel s payload (war_move_of value) (parse_war_state s.state_blob)) rng
        tt (play_war_move-Ends s payload (war_move_of value) (parse_war_state s.state_blob) rng)
