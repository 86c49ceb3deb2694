-- ===== src/Casino/Settle.antt =====
-- The ends of a game, as `handle_casino_start_game` and `handle_casino_game_move` settle them: what
-- the player gets or pays, the modifiers used up, the house's profit and the leaderboard. Each ends
-- with the payout and the flags that the event reports.
pub mod Books
pub mod Frame
use supersociety_battleware.Base.{
  ℕ, ℤ, pos, negsuc, ◌+ℤ◌, ◌-ℤ◌, ◌+◌, ◌-◌, ltb, ltb_ℤ, ◌==◌, sat_add, as_i64, neg, to_u64_or_zero,
  Bool, true, false, not, ◌&&◌, ◌||◌, Option, none, some, List, [], ◌∷◌, if◌then◌else◌,
}
use supersociety_battleware.Types.{
  PublicKey, Event, Key, Value, Player, GameSession, error_insufficient_funds,
}
use supersociety_battleware.Layer.{M, ◌>>=◌, ◌>>◌, pure, return_if, when, put, checked_signed}
use supersociety_battleware.Casino.Aura.{aura_after_completion, aura_after_push}
use supersociety_battleware.Casino.Funds.{
  stack_of, set_stack, shields_of, set_shields, doubles_of, set_doubles, clear_modifiers,
  super_mode_fee, update_house_pnl, update_leaderboard_for_session,
}
use supersociety_battleware.Casino.Players.{casino_error}

abbrev pub completed : GameSession → PublicKey → ℕ → ℤ → ℕ → Bool → Bool → Event
completed session public session_id payout final_chips was_shielded was_doubled =
    Event.casino_game_completed session_id public session.game_type payout final_chips was_shielded
      was_doubled

-- The profit of the house, for a cash game only.
abbrev pub book_profit : GameSession → ℤ → M (Unit {0})
book_profit session amount = when (not session.is_tournament) (update_house_pnl amount)

-- The player and the board are written.
abbrev pub save_player : GameSession → PublicKey → Player → M (Unit {0})
save_player session public player = do
  put (Key.casino_player public) (Value.casino_player player)
  update_leaderboard_for_session session public player

-- The fee on an additional bet.
abbrev pub extra_fee : GameSession → ℕ → ℕ
extra_fee session amount = if session.super_mode.is_active then super_mode_fee amount else 0

abbrev pub total_deduction : GameSession → ℕ → ℕ
total_deduction session amount = sat_add amount (extra_fee session amount)

-- The deduction that an amount makes from a stack, or the error.
unfoldable pub deduct : PublicKey → ℕ → GameSession → ℕ → Player → M Player
deduct public session_id session amount player = do
  let total = total_deduction session amount
  let stack = stack_of session.is_tournament player
  return_if (ltb stack total) (casino_error public (some session_id) error_insufficient_funds)
  when (not session.is_tournament && ltb 0 total) (update_house_pnl (pos total))
  pure (set_stack session.is_tournament (stack - total) player)

-- The extra deduction of a game that ends.
abbrev pub charge_extra : PublicKey → ℕ → GameSession → ℕ → Player → M Player
charge_extra public session_id session extra player =
    if ltb 0 extra then deduct public session_id session extra player else pure player

-- Is the payout doubled?
abbrev pub doubles_now : GameSession → Player → Bool
doubles_now session player = player.active_double && ltb 0 (doubles_of session.is_tournament player)

abbrev pub double_payout : Bool → ℤ → M ℤ
double_payout true payout = checked_signed 63 (payout +ℤ payout)
double_payout false payout = pure payout

abbrev pub use_double : GameSession → Player → Player
use_double session player =
    if doubles_now session player
    then set_doubles session.is_tournament (doubles_of session.is_tournament player - 1) player
    else player

-- The player with an addition to the stack.
abbrev pub credit : GameSession → ℕ → Player → Player
credit session amount player =
    set_stack session.is_tournament (sat_add (stack_of session.is_tournament player) amount) player

-- A win. `was_doubled` reports the modifier, whether or not a double was left to use.
unfoldable pub settle_win : PublicKey → ℕ → GameSession → ℕ → Player → M Event
settle_win public session_id session base_payout player = do
  payout ← double_payout (doubles_now session player) (as_i64 base_payout)
  let paid = credit session (to_u64_or_zero payout) (use_double session player)
  let player' = aura_after_completion (clear_modifiers paid) session true
  book_profit session (pos 0 -ℤ payout)
  save_player session public player'
  pure (
      completed session public session_id payout (stack_of session.is_tournament paid) false
        player.active_double)

-- A push returns the bet. Of the house's profit it goes off only after a move.
unfoldable pub settle_push : Bool → PublicKey → ℕ → GameSession → Player → M Event
settle_push after_move public session_id session player = do
  let paid = credit session session.bet player
  let player' = aura_after_push (clear_modifiers paid) session
  when after_move (book_profit session (neg session.bet))
  save_player session public player'
  pure (
      completed session public session_id (as_i64 session.bet) (stack_of session.is_tournament paid)
        false false)

-- Does a shield take the loss?
abbrev pub shields_now : GameSession → Player → Bool
shields_now session player = player.active_shield && ltb 0 (shields_of session.is_tournament player)

abbrev pub use_shield : GameSession → Player → Player
use_shield session player =
    if shields_now session player
    then set_shields session.is_tournament (shields_of session.is_tournament player - 1) player
    else player

-- `-(x as i64)`, or 0 behind a shield.
abbrev pub loss_payout : Bool → ℕ → M ℤ
loss_payout true amount = pure (pos 0)
loss_payout false amount = checked_signed 63 (pos 0 -ℤ as_i64 amount)

-- A loss of the bet.
unfoldable pub settle_loss : PublicKey → ℕ → GameSession → Player → M Event
settle_loss public session_id session player = do
  payout ← loss_payout (shields_now session player) session.bet
  let player' = aura_after_completion (clear_modifiers (use_shield session player)) session false
  save_player session public player'
  pure (
      completed session public session_id payout (stack_of session.is_tournament player)
        (shields_now session player) false)

-- A loss with an extra deduction, which a shield does not prevent.
unfoldable pub settle_loss_extra : PublicKey → ℕ → GameSession → ℕ → Player → M Event
settle_loss_extra public session_id session extra player = do
  payout ← loss_payout (shields_now session player) session.bet
  charged ← charge_extra public session_id session extra (use_shield session player)
  let player' = aura_after_completion (clear_modifiers charged) session false
  save_player session public player'
  reported ← checked_signed 63 (payout -ℤ as_i64 extra)
  pure (
      completed session public session_id reported (stack_of session.is_tournament charged)
        (shields_now session player) false)

-- The refund behind a shield, of what was deducted before.
abbrev pub refund : Bool → GameSession → ℕ → Player → M Player
refund true session total_loss player = do
  book_profit session (neg total_loss)
  pure (credit session total_loss player)
refund false session total_loss player = pure player

-- A loss whose chips were deducted before.
unfoldable pub settle_loss_pre : PublicKey → ℕ → GameSession → ℕ → Player → M Event
settle_loss_pre public session_id session total_loss player = do
  paid ← refund (shields_now session player) session total_loss (use_shield session player)
  payout ← loss_payout (shields_now session player) total_loss
  let player' = aura_after_completion (clear_modifiers paid) session false
  save_player session public player'
  pure (
      completed session public session_id payout (stack_of session.is_tournament paid)
        (shields_now session player) false)
