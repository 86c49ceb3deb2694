-- ===== src/Mempool.antt =====
-- The mempool of the node (node/src/application/mempool.rs). The maps are association lists with the
-- numbers of digests and of public keys as keys; the gauges are left out.
pub mod Nonces
pub mod Invariant
pub mod Addition
pub mod Retention
pub mod Turns
pub mod Serving
use supersociety_battleware.Base.{
  ℕ, zero, suc, ◌+◌, ltb, leb, ◌==◌, Bool, true, false, not, ◌&&◌, Option, none, some, List, [],
  ◌∷◌, ◌++◌, if◌then◌else◌, length,
}
use supersociety_battleware.Base.Assoc.{find, store, erase, member, remove, keep_members}
use supersociety_battleware.Types.{PublicKey, Transaction}
use supersociety_battleware.Mempool.Nonces.{Backlog, tree_insert, last_entry, before_last}

abbrev pub Transactions : Type 0
Transactions = List (ℕ × Transaction)

pub record Mempool : Type 0 where
  pub max_backlog : ℕ
  pub max_transactions : ℕ
  pub transactions : Transactions
  pub tracked : List (PublicKey × Backlog)
  pub queue : List PublicKey
  pub queued : List PublicKey

-- `new_with_limits`
abbrev pub new_with_limits : ℕ → ℕ → Mempool
new_with_limits max_backlog max_transactions = record {
  max_backlog = max_backlog;
  max_transactions = max_transactions;
  transactions = [];
  tracked = [];
  queue = [];
  queued = [];
}

abbrev pub default_max_backlog : ℕ
default_max_backlog = 64

abbrev pub default_max_transactions : ℕ
default_max_transactions = 100000

-- `Mempool::new`
abbrev pub new : Mempool
new = new_with_limits default_max_backlog default_max_transactions

abbrev pub or_empty : Option Backlog → Backlog
or_empty none = []
or_empty (some e) = e

abbrev pub has {ℓ} : {A : Type ℓ} → Option A → Bool
has none = false
has (some a) = true

-- The account's backlog and the transactions, with the last entry taken off where there are too
-- many.
abbrev pub trim : Bool → Backlog → Transactions → Backlog × Transactions
trim false e txs = (e, txs)
trim true [] txs = ([], txs)
trim true (x ∷ e) txs = (before_last x e, erase (last_entry x e).1 txs)

-- The key goes to the end of the queue, unless it is queued.
abbrev pub enqueue : Bool → PublicKey → Mempool → Mempool
enqueue false public pool = pool
enqueue true public pool = record pool {
  queued = public ∷ pool.queued;
  queue = pool.queue ++ public ∷ [];
}

-- A new transaction, at a nonce that is free.
unfoldable pub track : ℕ → Transaction → Backlog → Mempool → Mempool
track digest tx entry pool =
    let entries = length (tree_insert tx.nonce digest entry) in
    let trimmed =
      trim (ltb pool.max_backlog entries) (tree_insert tx.nonce digest entry)
        (store digest tx pool.transactions) in
    enqueue (entries == 1 && not (member tx.public_key pool.queued)) tx.public_key (record pool {
      tracked = store tx.public_key trimmed.0 pool.tracked;
      transactions = trimmed.1;
    })

-- `add`. The digest is SHA-256 over the encoded transaction.
unfoldable pub add : (Transaction → ℕ) → Transaction → Mempool → Mempool
add digest tx pool =
    if leb pool.max_transactions (length pool.transactions)
    then pool
    else if has (find (digest tx) pool.transactions)
    then pool
    else if has (find tx.nonce (or_empty (find tx.public_key pool.tracked)))
    then pool
    else track (digest tx) tx (or_empty (find tx.public_key pool.tracked)) pool

-- The loop of `retain`.
unfoldable pub retain_loop : ℕ → Backlog → Transactions → Backlog × Transactions
retain_loop min [] txs = ([], txs)
retain_loop min ((n, d) ∷ e) txs =
    let rest = retain_loop min e (erase d txs) in if ltb n min then rest else ((n, d) ∷ e, txs)

-- The account is no longer tracked when nothing is left of its backlog.
abbrev pub untrack_empty : PublicKey → Backlog × Transactions → Mempool → Mempool
untrack_empty public ([], txs) pool = record pool {
  transactions = txs;
  tracked = erase public pool.tracked;
  queued = remove public pool.queued;
}
untrack_empty public (x ∷ e, txs) pool = record pool {
  transactions = txs;
  tracked = store public (x ∷ e) pool.tracked;
}

abbrev pub retain_tracked : PublicKey → ℕ → Option Backlog → Mempool → Mempool
retain_tracked public min none pool = pool
retain_tracked public min (some e) pool =
    untrack_empty public (retain_loop min e pool.transactions) pool

unfoldable pub retain : PublicKey → ℕ → Mempool → Mempool
retain public min pool = retain_tracked public min (find public pool.tracked) pool

-- One turn of the loop of `next`: the queue is empty, the key is skipped, a transaction is taken,
-- or `expect` panics.
pub data Turn : Type 0 where
  dry : Turn
  skipped : Mempool → Turn
  taken : Transaction → Mempool → Turn
  fault : Turn

abbrev pub take_tx : ℕ → Option Transaction → Mempool → Turn
take_tx digest none pool = Turn.fault
take_tx digest (some tx) pool =
    Turn.taken tx (record pool { transactions = erase digest pool.transactions })

abbrev pub take_first : PublicKey → Option Backlog → Mempool → Turn
take_first address none pool = Turn.skipped pool
take_first address (some []) pool =
    Turn.skipped (record pool { tracked = erase address pool.tracked })
take_first address (some ((n, d) ∷ [])) pool =
    take_tx d (find d pool.transactions) (record pool { tracked = erase address pool.tracked })
take_first address (some ((n, d) ∷ (x ∷ e))) pool =
    take_tx d (find d pool.transactions) (record pool {
      tracked = store address (x ∷ e) pool.tracked;
      queued = address ∷ pool.queued;
      queue = pool.queue ++ address ∷ [];
    })

-- The turn of the key that was at the front of the queue.
unfoldable pub visit : PublicKey → Mempool → Turn
visit address pool =
    if member address pool.queued
    then take_first address (find address pool.tracked)
        (record pool { queued = remove address pool.queued })
    else Turn.skipped pool

abbrev pub turn_of : List PublicKey → Mempool → Turn
turn_of [] pool = Turn.dry
turn_of (address ∷ rest) pool = visit address (record pool { queue = rest })

unfoldable pub turn : Mempool → Turn
turn pool = turn_of pool.queue pool

-- After 1024 skipped keys in a row the queue is compacted.
unfoldable pub compact : ℕ → Mempool → ℕ × Mempool
compact stale pool =
    if leb 1024 (stale + 1)
    then (0, record pool { queue = keep_members pool.queued pool.queue })
    else (stale + 1, pool)

pub data Next : Type 0 where
  found : Transaction → Mempool → Next
  empty : Mempool → Next
  panicked : Next

-- Each turn takes a key off the queue, or ends the loop: the fuel is the length of the queue.
unfoldable pub next_loop : ℕ → ℕ → Mempool → Next
next_loop zero stale pool = Next.empty pool
next_loop (suc fuel) stale pool = elim (turn pool) [
  | Turn.dry ↦ Next.empty pool
  | Turn.skipped pool' ↦ next_loop fuel (compact stale pool').0 (compact stale pool').1
  | Turn.taken tx pool' ↦ Next.found tx pool'
  | Turn.fault ↦ Next.panicked
]

unfoldable pub next : Mempool → Next
next pool = next_loop (length pool.queue) 0 pool
