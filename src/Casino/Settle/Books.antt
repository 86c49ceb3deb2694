-- ===== src/Casino/Settle/Books.antt =====
-- In a cash game the house is the other side of the player: what one gains the other loses.
use supersociety_battleware.Base.{
  ℕ, ℤ, pos, inl, inr, Bool-cases, ◌+ℤ◌, ◌+◌, ◌*◌, ◌^◌, ◌≤◌, ◌<◌, ◌≡◌, refl, ltb, Bool, true, false,
  none, some, arith, int_laws, if◌then◌else◌,
}
use supersociety_battleware.Types.{PublicKey, Player, GameSession}
use supersociety_battleware.Layer.{
  Layer, Outcome, done, returned, panicked, Leaves, Ensures, when, player_at, house_at, view_laws,
}
use supersociety_battleware.Casino.Aura.{aura_after_completion, aura_after_push}
use supersociety_battleware.Casino.Funds.{
  stack_of, set_stack, set_shields, set_doubles, clear_modifiers, update_house_pnl,
  update_leaderboard_for_session, update_casino_leaderboard, update_tournament_leaderboard,
}
use supersociety_battleware.Casino.Settle.{
  use_shield, credit, deduct, charge_extra, settle_win, settle_push, settle_loss, settle_loss_extra,
  settle_loss_pre,
}

-- The chips of a player after the operations on the other fields.
pub chips-aura_after_completion :
    (player : Player) (session : GameSession) (won : Bool)
    → (aura_after_completion player session won).chips ≡ player.chips
unfolding aura_after_completion
chips-aura_after_completion player session won = grind arith

pub chips-aura_after_push :
    (player : Player) (session : GameSession)
    → (aura_after_push player session).chips ≡ player.chips
unfolding aura_after_push
chips-aura_after_push player session = grind arith

pub chips-clear_modifiers : (player : Player) → (clear_modifiers player).chips ≡ player.chips
unfolding clear_modifiers
chips-clear_modifiers player = refl

pub chips-set_doubles :
    (t : Bool) (n : ℕ) (player : Player) → (set_doubles t n player).chips ≡ player.chips
unfolding set_doubles
chips-set_doubles true n player = refl
chips-set_doubles false n player = refl

pub chips-set_shields :
    (t : Bool) (n : ℕ) (player : Player) → (set_shields t n player).chips ≡ player.chips
unfolding set_shields
chips-set_shields true n player = refl
chips-set_shields false n player = refl

pub ruleset chips_laws = (
  chips-aura_after_completion, chips-aura_after_push, chips-clear_modifiers, chips-set_doubles,
  chips-set_shields,
)

pub chips-use_shield :
    (session : GameSession) (player : Player) → (use_shield session player).chips ≡ player.chips
chips-use_shield session player = grind (arith, chips_laws)

pub chips-credit :
    (session : GameSession) (amount : ℕ) (player : Player)
    → session.is_tournament ≡ false
    → player.chips + amount < 2 ^ 64
    → (credit session amount player).chips ≡ player.chips + amount
unfolding stack_of set_stack
chips-credit session amount player cash room = grind arith

-- The profit of the house changes by the amount, and no player's record does.
pub update_house_pnl_lem :
    (p : PublicKey) (amount : ℤ) (l : Layer)
    → Ensures (update_house_pnl amount l) (λ _ l'.
      (player_at p l' ≡ player_at p l) × ((house_at l').net_pnl ≡ (house_at l).net_pnl +ℤ amount))
unfolding update_house_pnl
update_house_pnl_lem p amount l = grind (arith, view_laws)

-- So it is when the amount is booked under a condition.
pub when-update_house_pnl :
    (p : PublicKey) (b : Bool) (amount : ℤ) (l : Layer)
    → Ensures (when b (update_house_pnl amount) l) (λ _ l'.
      (player_at p l' ≡ player_at p l)
      × ((house_at l').net_pnl
          ≡ (if b then (house_at l).net_pnl +ℤ amount else (house_at l).net_pnl)))
when-update_house_pnl p true amount l = update_house_pnl_lem p amount l
when-update_house_pnl p false amount l = (refl, refl)

-- The boards are neither the player's record nor the house's.
pub update_leaderboard_for_session_lem :
    (p q : PublicKey) (session : GameSession) (player : Player) (l : Layer)
    → Ensures
        (update_leaderboard_for_session session q player l)
        (λ _ l'. (player_at p l' ≡ player_at p l) × (house_at l' ≡ house_at l))
unfolding update_leaderboard_for_session update_casino_leaderboard update_tournament_leaderboard
update_leaderboard_for_session_lem p q session player l = grind (arith, view_laws)

-- The player's chips and the house's profit, together.
abbrev pub books : Player → Layer → ℤ
books player l = pos player.chips +ℤ (house_at l).net_pnl

-- The books as a layer has them: no chips, where there is no player.
abbrev pub books_at : PublicKey → Layer → ℤ
books_at p l = elim (player_at p l) [ none ↦ (house_at l).net_pnl | some player ↦ books player l ]

-- The new layer has the books that the player makes with the old one.
abbrev pub Balances : PublicKey → Player → Layer → Layer → Type 0
Balances p player l l' = books_at p l' ≡ books player l

-- A win.
pub settle_win-Balances :
    (p : PublicKey) (id : ℕ) (session : GameSession) (payout : ℕ) (player : Player) (l : Layer)
    → session.is_tournament ≡ false
    → payout < 2 ^ 63
    → player.chips + 2 * payout < 2 ^ 64
    → Leaves (settle_win p id session payout player l) (Balances p player l)
unfolding settle_win stack_of set_stack
settle_win-Balances p id session payout player l cash small room =
    grind (
      int_laws,
      view_laws,
      chips_laws,
      when-update_house_pnl p,
      update_leaderboard_for_session_lem p,
    )

pub settle_push-Balances :
    (p : PublicKey) (id : ℕ) (session : GameSession) (player : Player) (l : Layer)
    → session.is_tournament ≡ false
    → player.chips + session.bet < 2 ^ 64
    → Leaves (settle_push true p id session player l) (Balances p player l)
unfolding settle_push stack_of set_stack
settle_push-Balances p id session player l cash room =
    grind (
      int_laws,
      view_laws,
      chips_laws,
      when-update_house_pnl p,
      update_leaderboard_for_session_lem p,
    )

pub settle_loss-Balances :
    (p : PublicKey) (id : ℕ) (session : GameSession) (player : Player) (l : Layer)
    → session.is_tournament ≡ false
    → Leaves (settle_loss p id session player l) (Balances p player l)
unfolding settle_loss stack_of set_stack
settle_loss-Balances p id session player l cash =
    grind (
      int_laws,
      view_laws,
      chips_laws,
      when-update_house_pnl p,
      update_leaderboard_for_session_lem p,
    )

-- A deduction moves chips to the house and no player's record, or it is refused and moves nothing.
abbrev pub Deducts : PublicKey → Player → Layer → Outcome Player → Type 0
Deducts p player l (done player' l') =
    (books player' l' ≡ books player l)
    × (player'.chips ≤ player.chips)
    × (player_at p l' ≡ player_at p l)
Deducts p player l (returned events l') = l' ≡ l
Deducts p player l panicked = Unit

pub deduct-Deducts :
    (p : PublicKey) (id : ℕ) (session : GameSession) (amount : ℕ) (player : Player) (l : Layer)
    → session.is_tournament ≡ false
    → Deducts p player l (deduct p id session amount player l)
unfolding deduct stack_of set_stack
deduct-Deducts p id session amount player l cash =
    grind (
      int_laws,
      view_laws,
      chips_laws,
      when-update_house_pnl p,
      update_leaderboard_for_session_lem p,
    )

pub charge_extra-Deducts :
    (p : PublicKey) (id : ℕ) (session : GameSession) (extra : ℕ) (player : Player) (l : Layer)
    → session.is_tournament ≡ false
    → Deducts p player l (charge_extra p id session extra player l)
charge_extra-Deducts p id session extra player l cash = elim (Bool-cases (ltb 0 extra)) [
  | inl q ↦ rw q (deduct-Deducts p id session extra player l cash)
  | inr q ↦ rw q (refl, omega arith, refl)
]

pub settle_loss_extra-Balances :
    (p : PublicKey) (id : ℕ) (session : GameSession) (extra : ℕ) (player : Player) (l : Layer)
    → session.is_tournament ≡ false
    → player_at p l ≡ some player
    → Leaves (settle_loss_extra p id session extra player l) (Balances p player l)
unfolding settle_loss_extra
settle_loss_extra-Balances p id session extra player l cash at = grind (
  int_laws,
  view_laws,
  chips_laws,
  when-update_house_pnl p,
  update_leaderboard_for_session_lem p,
  charge_extra-Deducts p id session extra (use_shield session player) l cash,
  chips-use_shield session player,
)

pub settle_loss_pre-Balances :
    (p : PublicKey) (id : ℕ) (session : GameSession) (total_loss : ℕ) (player : Player) (l : Layer)
    → session.is_tournament ≡ false
    → player.chips + total_loss < 2 ^ 64
    → Leaves (settle_loss_pre p id session total_loss player l) (Balances p player l)
unfolding settle_loss_pre
settle_loss_pre-Balances p id session total_loss player l cash room = grind (
  int_laws,
  view_laws,
  chips_laws,
  when-update_house_pnl p,
  update_leaderboard_for_session_lem p,
  chips-use_shield session player,
  chips-credit session total_loss (use_shield session player) cash,
)
