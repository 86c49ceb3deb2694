-- ===== src/Chain.antt =====
-- The execution of a block: the dispatch `Layer::apply` and the loop `Layer::execute` of
-- execution/src/layer/mod.rs, and `execute_state_transition` of execution/src/state_transition.rs.
pub mod Execution
pub mod Databases
pub mod Writes
pub mod Replay
pub mod Transition
use supersociety_battleware.Base.{
  ℕ, ◌+◌, ◌≤◌, Option, none, some, List, [], ◌∷◌, ◌++◌, map, sat_add, if◌then◌else◌,
}
use supersociety_battleware.Base.Assoc.{store}
use supersociety_battleware.Types.{PublicKey, Event, Instruction, Transaction}
use supersociety_battleware.Layer.{Layer, Outcome, done, returned, panicked, M, Prepared, prepare}
use supersociety_battleware.Staking.{
  handle_stake, handle_unstake, handle_claim_rewards, handle_process_epoch,
}
use supersociety_battleware.Liquidity.Vaults.{
  handle_create_vault, handle_deposit_collateral, handle_borrow_usdt, handle_repay_usdt,
}
use supersociety_battleware.Liquidity.Pool.{
  handle_swap, handle_add_liquidity, handle_remove_liquidity,
}
use supersociety_battleware.Casino.Interface.{Host}
use supersociety_battleware.Casino.Players.{
  handle_casino_register, handle_casino_deposit, handle_casino_toggle_shield,
  handle_casino_toggle_double, handle_casino_toggle_super,
}
use supersociety_battleware.Casino.Start.{handle_casino_start_game}
use supersociety_battleware.Casino.Move.{handle_casino_game_move}
use supersociety_battleware.Casino.Tournaments.{
  handle_casino_join_tournament, handle_casino_start_tournament,
}
use supersociety_battleware.Casino.Ending.{Split, handle_casino_end_tournament}

-- What a block's outputs are made of.
pub data Output : Type 0 where
  event : Event → Output
  transaction : Transaction → Output
  commit : ℕ → ℕ → Output

-- The nonces that come next, by account.
abbrev pub Nonces : Type 0
Nonces = List (PublicKey × ℕ)

-- A handler that has ended, short of a panic: its events, and the layer.
abbrev pub ended : Outcome (List Event) → Option (List Event × Layer)
ended (done events l) = some (events, l)
ended (returned events l) = some (events, l)
ended panicked = none

-- The outputs of a transaction.
abbrev pub outputs_of : List Event → Transaction → List Output
outputs_of events tx = map Output.event events ++ Output.transaction tx ∷ []

module _ (host : Host) (split : Split) where
  -- `Layer::apply`: the handler of an instruction.
  unfoldable pub apply : PublicKey → Instruction → M (List Event)
  apply p (Instruction.casino_register name) = handle_casino_register p name
  apply p (Instruction.casino_deposit amount) = handle_casino_deposit p amount
  apply p (Instruction.casino_start_game game_type bet id) =
      handle_casino_start_game host p game_type bet id
  apply p (Instruction.casino_game_move id payload) = handle_casino_game_move host p id payload
  apply p Instruction.casino_toggle_shield = handle_casino_toggle_shield p
  apply p Instruction.casino_toggle_double = handle_casino_toggle_double p
  apply p Instruction.casino_toggle_super = handle_casino_toggle_super p
  apply p (Instruction.casino_join_tournament id) = handle_casino_join_tournament p id
  apply p (Instruction.casino_start_tournament id start_ms end_ms) =
      handle_casino_start_tournament p id start_ms end_ms
  apply p (Instruction.casino_end_tournament id) = handle_casino_end_tournament split p id
  apply p (Instruction.stake amount duration) = handle_stake p amount duration
  apply p Instruction.unstake = handle_unstake p
  apply p Instruction.claim_rewards = handle_claim_rewards p
  apply p Instruction.process_epoch = handle_process_epoch p
  apply p Instruction.create_vault = handle_create_vault p
  apply p (Instruction.deposit_collateral amount) = handle_deposit_collateral p amount
  apply p (Instruction.borrow_usdt amount) = handle_borrow_usdt p amount
  apply p (Instruction.repay_usdt amount) = handle_repay_usdt p amount
  apply p (Instruction.swap amount_in min_out buying) = handle_swap p amount_in min_out buying
  apply p (Instruction.add_liquidity rng usdt) = handle_add_liquidity p rng usdt
  apply p (Instruction.remove_liquidity shares) = handle_remove_liquidity p shares

  -- `Layer::execute`: the outputs and the processed nonces so far are arguments. A transaction whose
  -- nonce is refused is passed over.
  unfoldable pub execute_loop : List Transaction → List Output → Nonces → M (List Output × Nonces)
  execute_loop [] outputs nonces l = done (outputs, nonces) l
  execute_loop (tx ∷ txs) outputs nonces l = elim (prepare tx l) [
    | Prepared.nonce_mismatch expected got ↦ execute_loop txs outputs nonces l
    | Prepared.overflow ↦ panicked
    | Prepared.ready l1 ↦ elim (ended (apply tx.public_key tx.instruction l1)) [
      | none ↦ panicked
      | some (events, l2) ↦
          execute_loop txs (outputs ++ outputs_of events tx)
            (store tx.public_key (sat_add tx.nonce 1) nonces) l2
    ]
  ]

  unfoldable pub execute : List Transaction → M (List Output × Nonces)
  execute txs = execute_loop txs [] []
