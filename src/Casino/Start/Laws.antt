-- ===== src/Casino/Start/Laws.antt =====
-- The money at the start of a cash game, and the starts that are refused.
use supersociety_battleware.Base.{
  ℕ, ◌+◌, ◌*◌, ◌^◌, ◌<◌, ◌≤◌, ◌≡◌, refl, ltb, ◌==◌, Bool, true, false, not, ◌&&◌, Option, none,
  some, List, [], ◌∷◌, arith, int_laws, if◌then◌else◌,
}
use supersociety_battleware.Types.{
  PublicKey, Player, SuperMultiplier, GameType, GameSession, Key, error_player_not_found,
  error_invalid_bet, error_insufficient_funds, error_session_exists,
}
use supersociety_battleware.Layer.{
  Layer, Outcome, done, returned, panicked, Leaves, Ensures, get, player_at, view_laws,
}
use supersociety_battleware.Liquidity.Vaults.{is_some}
use supersociety_battleware.Casino.Interface.{Host, GameResult, GameRng, init_game}
use supersociety_battleware.Casino.Aura.{enhance_multipliers}
use supersociety_battleware.Casino.Funds.{stack_of, set_stack}
use supersociety_battleware.Casino.Players.{casino_error}
use supersociety_battleware.Casino.Settle.Books.{
  books_at, Balances, when-update_house_pnl, update_leaderboard_for_session_lem,
  settle_win-Balances, settle_loss-Balances,
}
use supersociety_battleware.Casino.Start.{
  current_tournament, allows_zero_bet, required_stack, raise_multipliers, start_super, settle_start,
  begin_game, open_session, handle_casino_start_game,
}

-- Why a start is refused, from the stored player, the session at that number and the tournament.
abbrev pub start_refusal : Option Player → Option ℕ → Bool → GameType → ℕ → Option ℕ
start_refusal none tournament taken game_type bet = some error_player_not_found
start_refusal (some player) tournament taken game_type bet =
    if bet == 0 && not (allows_zero_bet game_type)
    then some error_invalid_bet
    else if ltb (stack_of (is_some tournament) player) (required_stack player bet)
    then some error_insufficient_funds
    else if taken
    then some error_session_exists
    else none

-- The tournament that the player is in, if it is being played.
abbrev pub playing : PublicKey → Layer → Option ℕ
playing p l = elim (player_at p l) [
  | none ↦ none
  | some player ↦ current_tournament player.active_tournament l
]

-- A start by an unknown player, with an empty bet where the game needs one, without the chips for
-- the bet and its fee, or over an existing session is reported in this order, and changes nothing.
pub handle_casino_start_game_refused :
    (host : Host) (p : PublicKey) (game_type : GameType) (bet id code : ℕ) (l : Layer)
    → start_refusal
        (player_at p l)
        (playing p l)
        (is_some (get (Key.casino_session id) l))
        game_type
        bet
      ≡ some code
    → handle_casino_start_game host p game_type bet id l ≡ done (casino_error p (some id) code) l
unfolding handle_casino_start_game
handle_casino_start_game_refused host p game_type bet id code l refused = grind arith

-- Drawing the multipliers changes neither the layer nor the kind of the session.
abbrev pub SameKind : GameSession → Layer → Outcome GameSession → Type 0
SameKind session l (done session' l') = (session'.is_tournament ≡ session.is_tournament) × (l' ≡ l)
SameKind session l (returned events l') = ⊥
SameKind session l panicked = Unit

enhance_multipliers_lem :
    (ms : List SuperMultiplier) (l : Layer) → Ensures (enhance_multipliers ms l) (λ _ l'. l' ≡ l)
enhance_multipliers_lem [] l = refl
enhance_multipliers_lem (m ∷ ms) l = grind (arith, enhance_multipliers_lem ms l)

raise_multipliers_lem :
    (b : Bool) (ms : List SuperMultiplier) (l : Layer)
    → Ensures (raise_multipliers b ms l) (λ _ l'. l' ≡ l)
raise_multipliers_lem true ms l = enhance_multipliers_lem ms l
raise_multipliers_lem false ms l = refl

pub start_super-SameKind :
    (b : Bool) (host : Host) (player : Player) (session : GameSession) (l : Layer)
    → SameKind session l (start_super b host player session l)
start_super-SameKind false host player session l = (refl, refl)
start_super-SameKind true host player session l = grind (arith, raise_multipliers_lem)

-- What a first deal may give for the sum to hold: no push, and no win beyond the room.
abbrev pub StartFits : ℕ → GameResult → Type 0
StartFits chips GameResult.push = ⊥
StartFits chips (GameResult.win n) = chips + 2 * n < 2 ^ 63
StartFits chips _ = Unit

-- The games of the host keep the kind of a session, and deal what fits.
pub record Deals (host : Host) (chips : ℕ) : Type 0 where
  pub keeps :
      (s : GameSession) (r : GameRng) → (init_game host s r).1.is_tournament ≡ s.is_tournament
  pub fits : (s : GameSession) (r : GameRng) → StartFits chips (init_game host s r).0

settle_start-books :
    (p : PublicKey) (id : ℕ) (session : GameSession) (result : GameResult) (player : Player)
    (chips : ℕ) (l : Layer)
    → session.is_tournament ≡ false
    → player_at p l ≡ some player
    → player.chips ≤ chips
    → StartFits chips result
    → Leaves (settle_start p id session result l) (Balances p player l)
unfolding settle_start
settle_start-books p id session GameResult.push player chips l cash at le fit = absurd fit
settle_start-books p id session (GameResult.win n) player chips l cash at le fit =
    grind (arith, settle_win-Balances p id session n player l cash)
settle_start-books p id session GameResult.loss player chips l cash at le fit =
    grind (arith, settle_loss-Balances p id session player l cash)
settle_start-books p id session GameResult.continue player chips l cash at le fit = grind arith
settle_start-books p id session (GameResult.continue_with_update z) player chips l cash at le fit =
    grind arith
settle_start-books p id session (GameResult.win_with_extra_deduction n x) player chips l cash at le
      fit =
    grind arith
settle_start-books p id session (GameResult.loss_with_extra_deduction n) player chips l cash at le
      fit =
    grind arith
settle_start-books p id session (GameResult.loss_pre_deducted n) player chips l cash at le fit =
    grind arith
settle_start-books p id session (GameResult.loss_pre_deducted_with_extra_deduction n x) player chips
      l cash at le fit =
    grind arith

begin_game-books :
    (host : Host) (p : PublicKey) (game_type : GameType) (bet id chips : ℕ) (player : Player)
    (session : GameSession) (l : Layer)
    → Deals host chips
    → player_at p l ≡ some player
    → player.chips ≤ chips
    → session.is_tournament ≡ false
    → Leaves (begin_game host p game_type bet id player session l) (Balances p player l)
unfolding begin_game
begin_game-books host p game_type bet id chips player session l deals at le cash = grind (
  arith,
  view_laws,
  update_leaderboard_for_session_lem p,
  (λ (s : GameSession) (r : GameResult) (l' : Layer). settle_start-books p id s r player chips l'),
  deals.keeps session,
  deals.fits session,
)

open_session-books :
    (host : Host) (p : PublicKey) (game_type : GameType) (bet id : ℕ) (player : Player) (l : Layer)
    → Deals host player.chips
    → player_at p l ≡ some player
    → required_stack player bet ≤ player.chips
    → Leaves (open_session host p game_type bet id none player l) (Balances p player l)
unfolding open_session stack_of set_stack
open_session-books host p game_type bet id player l deals at enough = grind (
  int_laws,
  view_laws,
  when-update_house_pnl p,
  start_super-SameKind,
  (λ (q : Player) (s : GameSession) (l' : Layer).
      begin_game-books host p game_type bet id player.chips q s l' deals),
)

-- Whatever comes of a start by a registered player who is in no tournament that is being played,
-- unless it panics, the chips of the player and the profit of the house together are as they were;
-- the games deal no push, and no win beyond the room in the player's chips.
pub handle_casino_start_game-books :
    (host : Host) (p : PublicKey) (game_type : GameType) (bet id : ℕ) (player : Player) (l : Layer)
    → Deals host player.chips
    → player_at p l ≡ some player
    → current_tournament player.active_tournament l ≡ none
    → Ensures
        (handle_casino_start_game host p game_type bet id l)
        (λ events l'. books_at p l' ≡ books_at p l)
unfolding handle_casino_start_game stack_of
handle_casino_start_game-books host p game_type bet id player l deals at cash =
    grind (arith, open_session-books host p game_type bet id player l deals at)
