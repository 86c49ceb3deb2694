-- ===== src/Casino/Players/Laws.antt =====
-- Registration happens once, the faucet pays once a day, and the shield toggled twice is as it was.
use supersociety_battleware.Base.{ℕ, ◌+◌, ◌*◌, ◌/◌, ◌<◌, ◌^◌, ◌≡◌, ◌≢◌, none, some, List, arith}
use supersociety_battleware.Types.{
  PublicKey, Key, Player, new_player, error_player_already_registered, error_rate_limited,
}
use supersociety_battleware.Layer.{Layer, done, Finishes, get, player_at, view_laws}
use supersociety_battleware.Casino.Funds.{update_casino_leaderboard}
use supersociety_battleware.Casino.Players.{
  casino_error, handle_casino_register, handle_casino_deposit, handle_casino_toggle_shield,
}

-- A key that is not registered gets a new player of that name, and no second one: a later
-- registration, under any name, is refused and changes nothing.
pub handle_casino_register_once :
    (p : PublicKey) (name other : List ℕ) (l : Layer)
    → get (Key.casino_player p) l ≡ none
    → Finishes (handle_casino_register p name l) (λ events l'.
      (player_at p l' ≡ some (new_player name))
      × (handle_casino_register p other l'
          ≡ done (casino_error p none error_player_already_registered) l'))
unfolding handle_casino_register update_casino_leaderboard
handle_casino_register_once p name other l fresh = grind (arith, view_laws)

-- The faucet pays a player who was never paid what is asked for, if the chips have room, and not
-- twice: a second request in the same block, other than block 0, is refused, for any amount.
pub handle_casino_deposit_once :
    (p : PublicKey) (amount again : ℕ) (player : Player) (l : Layer)
    → player_at p l ≡ some player
    → player.last_deposit_block ≡ 0
    → l.seed.view ≢ 0
    → player.chips + amount < 2 ^ 64
    → Finishes (handle_casino_deposit p amount l) (λ events l'.
      (player_at p l'
        ≡ some (record player { chips = player.chips + amount; last_deposit_block = l.seed.view }))
      × (handle_casino_deposit p again l' ≡ done (casino_error p none error_rate_limited) l'))
unfolding handle_casino_deposit update_casino_leaderboard
handle_casino_deposit_once p amount again player l at first later room = grind (arith, view_laws)

-- On the day of the last payment the faucet refuses, in whatever block of it.
pub handle_casino_deposit_same_day :
    (p : PublicKey) (amount : ℕ) (player : Player) (l : Layer)
    → player_at p l ≡ some player
    → player.last_deposit_block ≢ 0
    → l.seed.view * 3 < 2 ^ 64
    → player.last_deposit_block * 3 < 2 ^ 64
    → player.last_deposit_block * 3 / 86400 ≡ l.seed.view * 3 / 86400
    → handle_casino_deposit p amount l ≡ done (casino_error p none error_rate_limited) l
unfolding handle_casino_deposit
handle_casino_deposit_same_day p amount player l at paid h1 h2 same = grind arith

-- The shield toggled twice gives a registered player back as they were.
pub toggle_twice :
    (p : PublicKey) (player : Player) (l : Layer)
    → player_at p l ≡ some player
    → Finishes (handle_casino_toggle_shield p l) (λ events l'.
      Finishes (handle_casino_toggle_shield p l') (λ events' l''. player_at p l'' ≡ some player))
unfolding handle_casino_toggle_shield
toggle_twice p player l at = grind (arith, view_laws)
