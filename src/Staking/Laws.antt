-- ===== src/Staking/Laws.antt =====
-- What staking and its release do to the chips of a player and to the books of the house.
use supersociety_battleware.Base.{
  ℕ, ◌+◌, ◌-◌, ◌*◌, ◌≤◌, ◌<◌, ◌^◌, ◌≡◌, ◌≢◌, pos, none, some, [], ◌∷◌, arith,
}
use supersociety_battleware.Types.{
  PublicKey, Event, Player, Staker, default_staker, error_insufficient_funds, error_invalid_move,
}
use supersociety_battleware.Layer.{
  Layer, done, panicked, Finishes, Ensures, or_else, player_at, staker_at, house_at, view_laws,
}
use supersociety_battleware.Staking.{
  stake_error, handle_stake, handle_unstake, handle_process_epoch,
}

-- A stake whose end lies past the last block number panics.
pub handle_stake-panics :
    (p : PublicKey) (amount duration : ℕ) (player : Player) (l : Layer)
    → player_at p l ≡ some player
    → amount ≤ player.chips
    → 1 ≤ duration
    → 2 ^ 64 ≤ l.seed.view + duration
    → handle_stake p amount duration l ≡ panicked
unfolding handle_stake
handle_stake-panics p amount duration player l at covered long late = grind (arith, view_laws)

-- A stake of chips that the player has, for at least one block, moves exactly its amount from the
-- chips to the staked balance and to the house's total, and locks the whole balance until
-- `duration` blocks from now, if no sum overflows.
pub handle_stake_lem :
    (p : PublicKey) (amount duration : ℕ) (player : Player) (l : Layer)
    → player_at p l ≡ some player
    → amount ≤ player.chips
    → 1 ≤ duration
    → l.seed.view + duration < 2 ^ 64
    → (or_else (staker_at p l) default_staker).balance + amount < 2 ^ 64
    → (house_at l).total_staked_amount + amount < 2 ^ 64
    → (house_at l).total_voting_power + amount * duration < 2 ^ 128
    → Finishes (handle_stake p amount duration l) (λ events l'.
      let staker = or_else (staker_at p l) default_staker in
      (player_at p l' ≡ some (record player { chips = player.chips - amount }))
      × (staker_at p l'
          ≡ some (record staker {
            balance = staker.balance + amount;
            unlock_ts = l.seed.view + duration;
            voting_power = (staker.balance + amount) * duration;
          }))
      × ((house_at l').total_staked_amount ≡ (house_at l).total_staked_amount + amount))
unfolding handle_stake
handle_stake_lem p amount duration player l at covered long h1 h2 h3 h4 = grind (arith, view_laws)

-- The chips and the stake of a player, together.
abbrev pub holdings : PublicKey → Layer → ℕ
holdings p l =
    elim (player_at p l) [ none ↦ 0 | some player ↦ player.chips ]
    + elim (staker_at p l) [ none ↦ 0 | some staker ↦ staker.balance ]

-- Whatever comes of a call, staking makes and destroys nothing: chips and stake together stay the
-- same, unless the call panics.
pub handle_stake-holdings :
    (p : PublicKey) (amount duration : ℕ) (l : Layer)
    → Ensures (handle_stake p amount duration l) (λ events l'. holdings p l' ≡ holdings p l)
unfolding handle_stake
handle_stake-holdings p amount duration l = grind (arith, view_laws)

-- A stake touches no other player.
pub handle_stake_others :
    (p q : PublicKey) (amount duration : ℕ) (l : Layer)
    → q ≢ p
    → Ensures
        (handle_stake p amount duration l)
        (λ events l'. (player_at q l' ≡ player_at q l) × (staker_at q l' ≡ staker_at q l))
unfolding handle_stake
handle_stake_others p q amount duration l ne = grind (arith, view_laws)

-- A stake that asks for more chips than there are changes nothing and is reported.
pub handle_stake_short :
    (p : PublicKey) (amount duration : ℕ) (player : Player) (l : Layer)
    → player_at p l ≡ some player
    → player.chips < amount
    → handle_stake p amount duration l ≡ done (stake_error p error_insufficient_funds) l
unfolding handle_stake
handle_stake_short p amount duration player l at short = grind arith

-- For a registered player, a release keeps chips and stake together the same, unless it panics.
pub handle_unstake-holdings :
    (p : PublicKey) (player : Player) (l : Layer)
    → player_at p l ≡ some player
    → Ensures (handle_unstake p l) (λ events l'. holdings p l' ≡ holdings p l)
unfolding handle_unstake
handle_unstake-holdings p player l at = grind (arith, view_laws)

-- Before its unlock block a stake cannot be released: nothing changes.
pub handle_unstake_locked :
    (p : PublicKey) (staker : Staker) (l : Layer)
    → staker_at p l ≡ some staker
    → l.seed.view < staker.unlock_ts
    → handle_unstake p l ≡ done (stake_error p error_invalid_move) l
unfolding handle_unstake
handle_unstake_locked p staker l at locked = grind arith

-- From its unlock block on, a release pays the whole stake out to the player, if the chips have
-- room for it, and a second release does nothing.
pub handle_unstake_lem :
    (p : PublicKey) (player : Player) (staker : Staker) (l : Layer)
    → player_at p l ≡ some player
    → staker_at p l ≡ some staker
    → staker.unlock_ts ≤ l.seed.view
    → 0 < staker.balance
    → player.chips + staker.balance < 2 ^ 64
    → Finishes (handle_unstake p l) (λ events l'.
      (events ≡ Event.unstaked p staker.balance ∷ [])
      × (player_at p l' ≡ some (record player { chips = player.chips + staker.balance }))
      × (staker_at p l' ≡ some (record staker { balance = 0; voting_power = 0 }))
      × (handle_unstake p l' ≡ done [] l'))
unfolding handle_unstake
handle_unstake_lem p player staker l at st free positive room = grind (arith, view_laws)

-- Before the length of an epoch has passed nothing changes.
pub handle_process_epoch_early :
    (p : PublicKey) (l : Layer)
    → (house_at l).epoch_start_ts + 100 < 2 ^ 64
    → l.seed.view < (house_at l).epoch_start_ts + 100
    → handle_process_epoch p l ≡ done [] l
unfolding handle_process_epoch
handle_process_epoch_early p l h early = grind (arith, view_laws)

-- When the length of an epoch has passed, the epoch's number grows by one, the next begins now,
-- and the profit is reset, if neither number overflows; a second call in the same block then does
-- nothing.
pub handle_process_epoch_lem :
    (p : PublicKey) (l : Layer)
    → (house_at l).epoch_start_ts + 100 ≤ l.seed.view
    → l.seed.view + 100 < 2 ^ 64
    → (house_at l).current_epoch + 1 < 2 ^ 64
    → Finishes (handle_process_epoch p l) (λ events l'.
      (events ≡ Event.epoch_processed ((house_at l).current_epoch + 1) ∷ [])
      × (house_at l' ≡ record (house_at l) {
        current_epoch = (house_at l).current_epoch + 1;
        epoch_start_ts = l.seed.view;
        net_pnl = pos 0;
      })
      × (handle_process_epoch p l' ≡ done [] l'))
unfolding handle_process_epoch
handle_process_epoch_lem p l late room h = grind (arith, view_laws)
