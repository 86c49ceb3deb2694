-- ===== src/Chain/Execution.antt =====
-- The nonces of a block: they depend on the accounts and the nonces of the transactions alone.
use supersociety_battleware.Base.{
  ℕ, ◌+◌, ◌^◌, ◌<◌, ◌≡◌, ◌≢◌, refl, ◌==◌, ◌&&◌, sat_add, Bool, Option, none, some, List, [], ◌∷◌,
  ◌++◌, arith, if◌then◌else◌,
}
use supersociety_battleware.Base.Assoc.{find, store, find-store}
use supersociety_battleware.Types.{PublicKey, Event, Instruction, Transaction}
use supersociety_battleware.Layer.{
  Layer, Outcome, done, returned, panicked, Leaves, Ensures, Prepared, prepare, load_account,
}
use supersociety_battleware.Layer.Frame.{IsSound, Keeps, frame_laws}
use supersociety_battleware.Casino.Interface.{Host}
use supersociety_battleware.Casino.Ending.{Split}
use supersociety_battleware.Chain.{Output, Nonces, ended, apply, outputs_of, execute_loop, execute}
use supersociety_battleware.Staking.Frame.{
  handle_stake-Keeps, handle_unstake-Keeps, handle_claim_rewards-Keeps, handle_process_epoch-Keeps,
}
use supersociety_battleware.Liquidity.Vaults.Frame.{
  handle_create_vault-Keeps, handle_deposit_collateral-Keeps, handle_borrow_usdt-Keeps,
  handle_repay_usdt-Keeps,
}
use supersociety_battleware.Liquidity.Pool.Frame.{
  handle_swap-Keeps, handle_add_liquidity-Keeps, handle_remove_liquidity-Keeps,
}
use supersociety_battleware.Casino.Players.Frame.{
  handle_casino_register-Keeps, handle_casino_deposit-Keeps, handle_casino_toggle_shield-Keeps,
  handle_casino_toggle_double-Keeps, handle_casino_toggle_super-Keeps,
}
use supersociety_battleware.Casino.Start.Frame.{handle_casino_start_game-Keeps}
use supersociety_battleware.Casino.Move.Frame.{handle_casino_game_move-Keeps}
use supersociety_battleware.Casino.Tournaments.Frame.{
  handle_casino_join_tournament-Keeps, handle_casino_start_tournament-Keeps,
}
use supersociety_battleware.Casino.Ending.Frame.{handle_casino_end_tournament-Keeps}

module _ (host : Host) (split : Split) where
  -- No handler writes an account.
  pub apply-Keeps :
      (q p : PublicKey) (i : Instruction) (l : Layer)
      → IsSound l
      → Leaves (apply host split p i l) (Keeps q l)
  unfolding apply
  apply-Keeps q p (Instruction.casino_register name) l s = handle_casino_register-Keeps q p name l s
  apply-Keeps q p (Instruction.casino_deposit amount) l s =
      handle_casino_deposit-Keeps q p amount l s
  apply-Keeps q p (Instruction.casino_start_game game_type bet id) l s =
      handle_casino_start_game-Keeps q host p game_type bet id l s
  apply-Keeps q p (Instruction.casino_game_move id payload) l s =
      handle_casino_game_move-Keeps q host p id payload l s
  apply-Keeps q p Instruction.casino_toggle_shield l s = handle_casino_toggle_shield-Keeps q p l s
  apply-Keeps q p Instruction.casino_toggle_double l s = handle_casino_toggle_double-Keeps q p l s
  apply-Keeps q p Instruction.casino_toggle_super l s = handle_casino_toggle_super-Keeps q p l s
  apply-Keeps q p (Instruction.casino_join_tournament id) l s =
      handle_casino_join_tournament-Keeps q p id l s
  apply-Keeps q p (Instruction.casino_start_tournament id start_ms end_ms) l s =
      handle_casino_start_tournament-Keeps q p id start_ms end_ms l s
  apply-Keeps q p (Instruction.casino_end_tournament id) l s =
      handle_casino_end_tournament-Keeps q split p id l s
  apply-Keeps q p (Instruction.stake amount duration) l s =
      handle_stake-Keeps q p amount duration l s
  apply-Keeps q p Instruction.unstake l s = handle_unstake-Keeps q p l s
  apply-Keeps q p Instruction.claim_rewards l s = handle_claim_rewards-Keeps q p l s
  apply-Keeps q p Instruction.process_epoch l s = handle_process_epoch-Keeps q p l s
  apply-Keeps q p Instruction.create_vault l s = handle_create_vault-Keeps q p l s
  apply-Keeps q p (Instruction.deposit_collateral amount) l s =
      handle_deposit_collateral-Keeps q p amount l s
  apply-Keeps q p (Instruction.borrow_usdt amount) l s = handle_borrow_usdt-Keeps q p amount l s
  apply-Keeps q p (Instruction.repay_usdt amount) l s = handle_repay_usdt-Keeps q p amount l s
  apply-Keeps q p (Instruction.swap amount_in min_out buying) l s =
      handle_swap-Keeps q p amount_in min_out buying l s
  apply-Keeps q p (Instruction.add_liquidity rng usdt) l s =
      handle_add_liquidity-Keeps q p rng usdt l s
  apply-Keeps q p (Instruction.remove_liquidity shares) l s =
      handle_remove_liquidity-Keeps q p shares l s

-- A transaction of the account at that nonce.
abbrev pub is_next : PublicKey → ℕ → Transaction → Bool
is_next q n tx = tx.public_key == q && tx.nonce == n

-- The nonce of an account after a block, from its nonce before: each transaction of the account
-- counts that has the nonce that is next.
unfoldable pub next_nonce : PublicKey → ℕ → List Transaction → ℕ
next_nonce q n [] = n
next_nonce q n (tx ∷ txs) = next_nonce q (if is_next q n tx then n + 1 else n) txs

-- What is reported of it: nothing new if no transaction counts.
unfoldable pub reported : PublicKey → ℕ → List Transaction → Option ℕ → Option ℕ
reported q n [] before = before
reported q n (tx ∷ txs) before =
    reported q (if is_next q n tx then n + 1 else n) txs
      (if is_next q n tx then some (n + 1) else before)

-- What `prepare` says of an account.
abbrev Prepares : PublicKey → Transaction → Layer → Prepared → Type 0
Prepares q tx l (Prepared.ready l1) =
    ((load_account tx.public_key l).nonce ≡ tx.nonce)
    × ((load_account q l1).nonce
        ≡ (if tx.public_key == q then tx.nonce + 1 else (load_account q l).nonce))
    × (l1.state ≡ l.state)
    × IsSound l1
    × (tx.nonce + 1 < 2 ^ 64)
Prepares q tx l (Prepared.nonce_mismatch expected got) =
    (load_account tx.public_key l).nonce ≢ tx.nonce
Prepares q tx l Prepared.overflow = Unit

prepare-Prepares :
    (q : PublicKey) (tx : Transaction) (l : Layer) → IsSound l → Prepares q tx l (prepare tx l)
unfolding prepare
prepare-Prepares q tx l s = grind (arith, frame_laws)

-- After the transactions: the account's nonce, what is reported, and the state below.
abbrev pub After :
    PublicKey → List Transaction → Nonces → Layer → List Output × Nonces → Layer → Type 0
After q txs nonces l r l' =
    ((load_account q l').nonce ≡ next_nonce q (load_account q l).nonce txs)
    × (find q r.1 ≡ reported q (load_account q l).nonce txs (find q nonces))
    × (l'.state ≡ l.state)
    × IsSound l'

module _ (host : Host) (split : Split) (q : PublicKey) (tx : Transaction) (txs : List Transaction)
    (rest : (outputs : List Output) (nonces : Nonces) (l : Layer)
      → IsSound l
      → Ensures (execute_loop host split txs outputs nonces l) (After q txs nonces l))
    (outputs : List Output) (nonces : Nonces) (l : Layer) where
  -- The handler ended, or panicked.
  step_handler :
      (l1 : Layer) (o : Outcome (List Event))
      → Prepares q tx l (Prepared.ready l1)
      → Leaves o (Keeps q l1)
      → Ensures
          (elim (ended o) [
            | none ↦ panicked
            | some (events, l2) ↦
                execute_loop host split txs
                  (outputs ++ outputs_of events tx)
                  (store tx.public_key (sat_add tx.nonce 1) nonces)
                  l2
          ])
          (After q (tx ∷ txs) nonces l)
  unfolding next_nonce reported
  step_handler l1 (done events l2) h k = grind (
    arith,
    rest (outputs ++ outputs_of events tx) (store tx.public_key (sat_add tx.nonce 1) nonces) l2,
    find-store q tx.public_key (sat_add tx.nonce 1) nonces,
  )
  step_handler l1 (returned events l2) h k = grind (
    arith,
    rest (outputs ++ outputs_of events tx) (store tx.public_key (sat_add tx.nonce 1) nonces) l2,
    find-store q tx.public_key (sat_add tx.nonce 1) nonces,
  )
  step_handler l1 panicked h k = tt

  step_prepare :
      (p : Prepared)
      → Prepares q tx l p
      → IsSound l
      → Ensures
          (elim p [
            | Prepared.nonce_mismatch expected got ↦ execute_loop host split txs outputs nonces l
            | Prepared.overflow ↦ panicked
            | Prepared.ready l1 ↦ elim (ended (apply host split tx.public_key tx.instruction l1)) [
              | none ↦ panicked
              | some (events, l2) ↦
                  execute_loop host split txs
                    (outputs ++ outputs_of events tx)
                    (store tx.public_key (sat_add tx.nonce 1) nonces)
                    l2
            ]
          ])
          (After q (tx ∷ txs) nonces l)
  unfolding next_nonce reported
  step_prepare (Prepared.ready l1) h s =
      step_handler l1 (apply host split tx.public_key tx.instruction l1) h
        (apply-Keeps host split q tx.public_key tx.instruction l1 h.3)
  step_prepare (Prepared.nonce_mismatch expected got) h s = grind (arith, rest outputs nonces l)
  step_prepare Prepared.overflow h s = tt

pub execute_loop-After :
    (host : Host) (split : Split) (q : PublicKey) (txs : List Transaction) (outputs : List Output)
    (nonces : Nonces) (l : Layer)
    → IsSound l
    → Ensures (execute_loop host split txs outputs nonces l) (After q txs nonces l)
unfolding execute_loop next_nonce reported
execute_loop-After host split q [] outputs nonces l s = (refl, refl, refl, s)
execute_loop-After host split q (tx ∷ txs) outputs nonces l s =
    step_prepare host split q tx txs
      (λ outputs' nonces' l' s'. execute_loop-After host split q txs outputs' nonces' l' s') outputs
      nonces l (prepare tx l) (prepare-Prepares q tx l s) s

-- On a layer whose changes have each key once: unless the block panics, it leaves each account at
-- the nonce that its transactions alone give, so that a transaction counts at its nonce and once,
-- whatever the handlers do; and the account is reported with that nonce if one of its transactions
-- counted, and not otherwise.
pub execute-After :
    (host : Host) (split : Split) (q : PublicKey) (txs : List Transaction) (l : Layer)
    → IsSound l
    → Ensures (execute host split txs l) (After q txs [] l)
unfolding execute
execute-After host split q txs l s = execute_loop-After host split q txs [] [] l s
