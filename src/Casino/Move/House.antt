-- ===== src/Casino/Move/House.antt =====
-- A whole move of a cash game: what the player gains the house loses.
use supersociety_battleware.Base.{ℕ, ◌+◌, ◌^◌, ◌<◌, ◌≡◌, false, none, some, List, arith}
use supersociety_battleware.Types.{PublicKey, Player, GameSession}
use supersociety_battleware.Layer.{
  Layer, done, Leaves, Ensures, player_at, session_at, house_at, view_laws,
}
use supersociety_battleware.Casino.Interface.{Host, GameResult, moved}
use supersociety_battleware.Casino.Progressive.{
  apply_progressive_meters, apply_three_card_progressive_meter, apply_uth_progressive_meter,
}
use supersociety_battleware.Casino.Settle.Books.{books_at}
use supersociety_battleware.Casino.Move.{handle_casino_game_move}
use supersociety_battleware.Casino.Move.Laws.{refusal, played}
use supersociety_battleware.Casino.Move.Books.{Fits, apply_result-Balances}

-- No meter is the profit, and no player's record is a meter.
abbrev KeepsBooks : PublicKey → Layer → Layer → Type 0
KeepsBooks p l l' =
    (player_at p l' ≡ player_at p l) × ((house_at l').net_pnl ≡ (house_at l).net_pnl)

three_card-KeepsBooks :
    (p : PublicKey) (session : GameSession) (result : GameResult) (l : Layer)
    → Leaves (apply_three_card_progressive_meter session result l) (KeepsBooks p l)
unfolding apply_three_card_progressive_meter
three_card-KeepsBooks p session result l = grind (arith, view_laws)

uth-KeepsBooks :
    (p : PublicKey) (session : GameSession) (result : GameResult) (l : Layer)
    → Leaves (apply_uth_progressive_meter session result l) (KeepsBooks p l)
unfolding apply_uth_progressive_meter
uth-KeepsBooks p session result l = grind (arith, view_laws)

apply_progressive_meters-KeepsBooks :
    (p : PublicKey) (session : GameSession) (result : GameResult) (l : Layer)
    → Leaves (apply_progressive_meters session result l) (KeepsBooks p l)
unfolding apply_progressive_meters
apply_progressive_meters-KeepsBooks p session result l =
    grind (arith, three_card-KeepsBooks p, uth-KeepsBooks p)

-- A move by the owner of a cash session that is not complete, which the game accepts, leaves the
-- chips of the player and the profit of the house together as they were, whatever the result, unless
-- it panics, if the payout has room in the player's chips and the count of moves has not reached its
-- end.
pub handle_casino_game_move-books :
    (host : Host) (p : PublicKey) (id : ℕ) (session session' : GameSession)
    (result result' : GameResult) (payload : List ℕ) (player : Player) (l l1 : Layer)
    → session_at id l ≡ some session
    → refusal p (some session) ≡ none
    → session.move_count + 1 < 2 ^ 32
    → played host id session payload l ≡ moved result session'
    → session'.is_tournament ≡ false
    → player_at p l ≡ some player
    → apply_progressive_meters session' result l ≡ done result' l1
    → Fits player.chips session'.bet result'
    → Ensures
        (handle_casino_game_move host p id payload l)
        (λ events l'. books_at p l' ≡ books_at p l)
unfolding handle_casino_game_move
handle_casino_game_move-books host p id session session' result result' payload player l l1 at
      admitted room accepted cash registered raised fits =
    grind (
      arith,
      apply_progressive_meters-KeepsBooks p session' result l,
      apply_result-Balances p id session' result' player l1 cash,
    )
