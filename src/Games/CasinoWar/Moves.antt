-- ===== src/Games/CasinoWar/Moves.antt =====
-- What a move of Casino War does to its session, and what it pays.
use supersociety_battleware.Base.{
  ◌⊎◌, ℕ, zero, suc, ◌-◌, ◌/◌, ◌^◌, ◌≤◌, ◌≡◌, refl, ltb, leb, ◌==◌, sat_add, sat_mul, Bool, true,
  false, Option, none, some, if◌then◌else◌, Bool-cases, inl, inr,
}
use supersociety_battleware.Types.{GameSession}
use supersociety_battleware.Casino.Interface.{GameResult, MoveResult, moved, failed, crashed}
use supersociety_battleware.Games.Session.{SameGame}
use supersociety_battleware.Games.CasinoWar.{
  war_rank, winnings, StageV1, CasinoWarStateV1, change_tie_bet, deal, settle_war,
  settle_war_legacy, compare_legacy, settle_deal, tie_result, tie_bet_return, war_base, with_cards,
}

-- What a win can pay: half of the bet, or for some card of the player the winnings of twice the bet or
-- of twice the bet and a bonus of the bet.
abbrev pub IsWon : GameSession → ℕ → Type 0
IsWon s payout =
    (payout ≡ s.bet / 2)
    ⊎ (((card : ℕ) × (payout ≡ winnings s card (sat_mul s.bet 2)))
        ⊎ ((card : ℕ) × (payout ≡ winnings s card (sat_add (sat_mul s.bet 2) (sat_mul s.bet 1)))))

-- The result fits the session after the move: a game that was won or lost is complete.
abbrev pub IsPaid : GameSession → GameResult → GameSession → Type 0
IsPaid s GameResult.continue s' = s'.is_complete ≡ s.is_complete
IsPaid s (GameResult.continue_with_update delta) s' = s'.is_complete ≡ s.is_complete
IsPaid s (GameResult.win payout) s' = (s'.is_complete ≡ true) × IsWon s payout
IsPaid s GameResult.loss s' = s'.is_complete ≡ true
IsPaid s (GameResult.loss_with_extra_deduction extra) s' = (s'.is_complete ≡ true) × (extra ≡ s.bet)
IsPaid s _ s' = ⊥

abbrev pub IsSettled : GameSession → ℕ → MoveResult → Type 0
IsSettled s count (moved result s') = SameGame s s' × (s'.move_count ≡ count) × IsPaid s result s'
IsSettled s count (failed e) = Unit
IsSettled s count crashed = 2 ^ 32 ≤ count

pub IsSettled-if :
    (s : GameSession) (count : ℕ) (b : Bool) (x y : MoveResult)
    → IsSettled s count x
    → IsSettled s count y
    → IsSettled s count (if b then x else y)
IsSettled-if s count true x y first second = first
IsSettled-if s count false x y first second = second

pub change_tie_bet-IsSettled :
    (s : GameSession) (state : CasinoWarStateV1) (next_amount : ℕ)
    → IsSettled s s.move_count (change_tie_bet s state next_amount)
unfolding change_tie_bet
change_tie_bet-IsSettled s state next_amount =
    IsSettled-if s s.move_count (leb state.tie_bet next_amount) _ _
      (IsSettled-if s s.move_count (ltb (next_amount - state.tie_bet) (2 ^ 63)) _ _
        ((refl, refl, refl, refl), refl, refl) tt)
      (IsSettled-if s s.move_count (ltb (state.tie_bet - next_amount) (2 ^ 63)) _ _
        ((refl, refl, refl, refl), refl, refl) tt)

tie-IsSettled :
    (s s' : GameSession) (n : ℕ)
    → SameGame s s'
    → s'.move_count ≡ s.move_count
    → s'.is_complete ≡ s.is_complete
    → IsSettled s s.move_count (moved (tie_result n) s')
tie-IsSettled s s' zero same count open_game = (same, count, open_game)
tie-IsSettled s s' (suc n) same count open_game = (same, count, open_game)

settle_deal-IsSettled :
    (s : GameSession) (state : CasinoWarStateV1) (player_card dealer_card : ℕ)
    (tie_return : Option ℕ)
    → IsSettled s s.move_count (settle_deal s state player_card dealer_card tie_return)
settle_deal-IsSettled s state player_card dealer_card none = tt
settle_deal-IsSettled s state player_card dealer_card (some n) =
    IsSettled-if s s.move_count (ltb (war_rank dealer_card) (war_rank player_card)) _ _
      ((refl, refl, refl, refl), refl, (refl, inr (inl (player_card, refl))))
      (IsSettled-if s s.move_count (ltb (war_rank player_card) (war_rank dealer_card)) _ _
        ((refl, refl, refl, refl), refl, refl)
        (tie-IsSettled s (with_cards s state StageV1.war player_card dealer_card) n
          (refl, refl, refl, refl) refl refl))

pub deal-IsSettled :
    (s : GameSession) (state : CasinoWarStateV1) (player_card dealer_card : ℕ)
    → IsSettled s s.move_count (deal s state player_card dealer_card)
unfolding deal
deal-IsSettled s state player_card dealer_card =
    settle_deal-IsSettled s state player_card dealer_card
      (tie_bet_return state player_card dealer_card)

war-IsWon :
    (s : GameSession) (player_card dealer_card : ℕ)
    → IsWon s (winnings s player_card (war_base s player_card dealer_card))
war-IsWon s player_card dealer_card =
    elim (Bool-cases (war_rank player_card == war_rank dealer_card)) [
      | inl tie ↦ inr (inr (player_card, rw tie refl))
      | inr other ↦ inr (inl (player_card, rw other refl))
    ]

pub settle_war-IsSettled :
    (s : GameSession) (state : CasinoWarStateV1) (cards : Option (ℕ × ℕ))
    → IsSettled s s.move_count (settle_war s state cards)
unfolding settle_war
settle_war-IsSettled s state none = tt
settle_war-IsSettled s state (some cards) =
    IsSettled-if s s.move_count (leb (war_rank cards.1) (war_rank cards.0)) _ _
      ((refl, refl, refl, refl), refl, (refl, war-IsWon s cards.0 cards.1))
      ((refl, refl, refl, refl), refl, (refl, refl))

pub settle_war_legacy-IsSettled :
    (s : GameSession) (cards : Option (ℕ × ℕ))
    → IsSettled s s.move_count (settle_war_legacy s cards)
unfolding settle_war_legacy
settle_war_legacy-IsSettled s none = tt
settle_war_legacy-IsSettled s (some cards) =
    IsSettled-if s s.move_count (leb (war_rank cards.1) (war_rank cards.0)) _ _
      ((refl, refl, refl, refl), refl, (refl, inr (inl (cards.0, refl))))
      ((refl, refl, refl, refl), refl, (refl, refl))

pub compare_legacy-IsSettled :
    (s : GameSession) (player_card dealer_card : ℕ)
    → IsSettled s s.move_count (compare_legacy s player_card dealer_card)
unfolding compare_legacy
compare_legacy-IsSettled s player_card dealer_card =
    IsSettled-if s s.move_count (ltb (war_rank dealer_card) (war_rank player_card)) _ _
      ((refl, refl, refl, refl), refl, (refl, inr (inl (player_card, refl))))
      (IsSettled-if s s.move_count (ltb (war_rank player_card) (war_rank dealer_card)) _ _
        ((refl, refl, refl, refl), refl, refl) ((refl, refl, refl, refl), refl, refl))
