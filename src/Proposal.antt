-- ===== src/Proposal.antt =====
-- A proposal of node/src/application/actor.rs: the nonces after the ancestors, and the transactions
-- of the mempool that are next.
pub mod Selection
pub mod Acceptance
pub mod Ancestors
use supersociety_battleware.Base.{
  ℕ, zero, suc, ◌+◌, leb, Option, none, some, List, [], ◌∷◌, if◌then◌else◌, length,
}
use supersociety_battleware.Types.{Transaction}
use supersociety_battleware.Layer.{Memory}
use supersociety_battleware.Layer.Noncer.{Noncer, NoncerPrepared, new_noncer, noncer_prepare}
use supersociety_battleware.Mempool.{Mempool, Next, next}

-- A refusal is passed over; `none` is a panic.
abbrev pub quietly : Noncer → NoncerPrepared → Option Noncer
quietly n (NoncerPrepared.accepted n') = some n'
quietly n (NoncerPrepared.mismatch expected got) = some n
quietly n NoncerPrepared.overflow = none

abbrev pub and_then : Option Noncer → (Noncer → Option Noncer) → Option Noncer
and_then none f = none
and_then (some n) f = f n

unfoldable pub prepare_all : List Transaction → Noncer → Option Noncer
prepare_all [] n = some n
prepare_all (tx ∷ txs) n = and_then (quietly n (noncer_prepare tx n)) (prepare_all txs)

-- The blocks above the height of the state, each a height with its transactions.
unfoldable pub prepare_ancestors : ℕ → List (ℕ × List Transaction) → Noncer → Option Noncer
prepare_ancestors height [] n = some n
prepare_ancestors height ((at, txs) ∷ blocks) n =
    and_then (if leb at height then some n else prepare_all txs n) (prepare_ancestors height blocks)

pub data Selected : Type 0 where
  selected : List Transaction → Mempool → Selected
  stopped : Selected

abbrev pub push : Transaction → Selected → Selected
push tx (Selected.selected txs pool) = Selected.selected (tx ∷ txs) pool
push tx Selected.stopped = Selected.stopped

-- The loop over the mempool, with the room that is left in the block. Each round takes a
-- transaction from the pool: the fuel is their number and one more.
unfoldable pub select : ℕ → ℕ → Noncer → Mempool → Selected
select zero room n pool = Selected.selected [] pool
select (suc fuel) zero n pool = Selected.selected [] pool
select (suc fuel) (suc room) n pool = elim (next pool) [
  | Next.empty pool' ↦ Selected.selected [] pool'
  | Next.panicked ↦ Selected.stopped
  | Next.found tx pool' ↦ elim (noncer_prepare tx n) [
    | NoncerPrepared.mismatch expected got ↦ select fuel (suc room) n pool'
    | NoncerPrepared.overflow ↦ Selected.stopped
    | NoncerPrepared.accepted n' ↦ push tx (select fuel room n' pool')
  ]
]

abbrev pub max_block_transactions : ℕ
max_block_transactions = 500

abbrev pub select_for : Mempool → Option Noncer → Selected
select_for pool none = Selected.stopped
select_for pool (some n) = select (length pool.transactions + 1) max_block_transactions n pool

-- The transactions of a proposal, on a state at a height, after the ancestors.
unfoldable pub propose : Memory → ℕ → List (ℕ × List Transaction) → Mempool → Selected
propose state height blocks pool =
    select_for pool (prepare_ancestors height blocks (new_noncer state))
