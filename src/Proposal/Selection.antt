-- ===== src/Proposal/Selection.antt =====
-- The transactions of a proposal follow the nonces of their accounts, and none is left out while
-- there is room.
use supersociety_battleware.Base.{
  ℕ, zero, suc, ◌+◌, ◌^◌, ◌≤◌, ◌<◌, ◌≡◌, ◌⊎◌, inl, inr, refl, ◌==◌, some, List, [], ◌∷◌, arith,
  if◌then◌else◌, length,
}
use supersociety_battleware.Base.Assoc.{find}
use supersociety_battleware.Types.{PublicKey, Transaction}
use supersociety_battleware.Layer.Noncer.{
  Noncer, NoncerPrepared, noncer_account, noncer_prepare, Accepts, noncer_prepare-Accepts,
}
use supersociety_battleware.Mempool.{Mempool, Next, next}
use supersociety_battleware.Mempool.Invariant.{IsPool}
use supersociety_battleware.Mempool.Turns.{Takes}
use supersociety_battleware.Mempool.Serving.{IsNext, next-IsNext}
use supersociety_battleware.Proposal.{Selected, push, select}

-- The nonces after a transaction.
abbrev pub bump : Transaction → (PublicKey → ℕ) → PublicKey → ℕ
bump tx nonces q = if tx.public_key == q then tx.nonce + 1 else nonces q

-- Each transaction has the nonce that is next for its account, after those before it.
abbrev pub Follows : (PublicKey → ℕ) → List Transaction → Type 0
Follows nonces [] = Unit
Follows nonces (tx ∷ txs) =
    (nonces tx.public_key ≡ tx.nonce) × (tx.nonce + 1 < 2 ^ 64) × Follows (bump tx nonces) txs

pub Follows-same :
    (f g : PublicKey → ℕ) (txs : List Transaction)
    → ((q : PublicKey) → f q ≡ g q)
    → Follows f txs
    → Follows g txs
Follows-same f g [] same h = tt
Follows-same f g (tx ∷ txs) same h = (
  ground (arith, same tx.public_key, h.0),
  h.1,
  Follows-same (bump tx f) (bump tx g) txs (λ q. ground (arith, same q)) h.2,
)

-- The nonces of the pool have successors on 64 bits.
abbrev pub HasRoom : Mempool → Type 0
HasRoom pool =
    (d : ℕ) (tx : Transaction) → find d pool.transactions ≡ some tx → tx.nonce + 2 ≤ 2 ^ 64

-- What is selected: it follows the nonces, and the block is full or the pool is empty.
abbrev pub IsSelected : (Transaction → ℕ) → ℕ → (PublicKey → ℕ) → Selected → Type 0
IsSelected digest room nonces (Selected.selected txs pool) =
    Follows nonces txs
    × IsPool digest pool
    × (length txs ≤ room)
    × ((length txs ≡ room) ⊎ (pool.transactions ≡ []))
IsSelected digest room nonces Selected.stopped = ⊥

abbrev nonces_of : Noncer → PublicKey → ℕ
nonces_of n q = (noncer_account q n).nonce

push-IsSelected :
    (digest : Transaction → ℕ) (room : ℕ) (nonces nonces' : PublicKey → ℕ) (tx : Transaction)
    (s : Selected)
    → nonces tx.public_key ≡ tx.nonce
    → tx.nonce + 1 < 2 ^ 64
    → ((q : PublicKey) → nonces' q ≡ bump tx nonces q)
    → IsSelected digest room nonces' s
    → IsSelected digest (suc room) nonces (push tx s)
push-IsSelected digest room nonces nonces' tx (Selected.selected txs pool) at fits same h = (
  (at, fits, Follows-same nonces' (bump tx nonces) txs same h.0),
  h.1,
  omega (arith, h.2),
  ground (arith, h.3),
)
push-IsSelected digest room nonces nonces' tx Selected.stopped at fits same h = h

module _ (digest : Transaction → ℕ) (fuel room : ℕ) (n : Noncer) (pool : Mempool)
    (rest : (room' : ℕ) (n' : Noncer) (pool' : Mempool)
      → IsPool digest pool'
      → HasRoom pool'
      → length pool'.transactions < fuel
      → IsSelected digest room' (nonces_of n') (select fuel room' n' pool')) where
  after_next :
      (tx : Transaction) (pool' : Mempool) (p : NoncerPrepared)
      → Takes digest pool tx pool'
      → ((q : PublicKey) → Accepts q tx n p)
      → HasRoom pool
      → length pool.transactions < suc fuel
      → IsSelected digest (suc room) (nonces_of n) (elim p [
        | NoncerPrepared.mismatch expected got ↦ select fuel (suc room) n pool'
        | NoncerPrepared.overflow ↦ Selected.stopped
        | NoncerPrepared.accepted n' ↦ push tx (select fuel room n' pool')
      ])
  after_next tx pool' (NoncerPrepared.accepted n') t a small enough =
      push-IsSelected digest room (nonces_of n) (nonces_of n') tx (select fuel room n' pool')
        (a tx.public_key).0 (a tx.public_key).2 (λ q. (a q).1)
        (rest room n' pool' t.valid (λ d tx' h. small d tx' (ground (arith, t.others d)))
          (omega (arith, t.fewer)))
  after_next tx pool' (NoncerPrepared.mismatch expected got) t a small enough =
      rest (suc room) n pool' t.valid (λ d tx' h. small d tx' (ground (arith, t.others d)))
        (omega (arith, t.fewer))
  after_next tx pool' NoncerPrepared.overflow t a small enough =
      omega (arith, small (digest tx) tx t.was_there, (a tx.public_key).1)

  after_turn :
      (r : Next)
      → IsNext digest pool r
      → HasRoom pool
      → length pool.transactions < suc fuel
      → IsSelected digest (suc room) (nonces_of n) (elim r [
        | Next.empty pool' ↦ Selected.selected [] pool'
        | Next.panicked ↦ Selected.stopped
        | Next.found tx pool' ↦ elim (noncer_prepare tx n) [
          | NoncerPrepared.mismatch expected got ↦ select fuel (suc room) n pool'
          | NoncerPrepared.overflow ↦ Selected.stopped
          | NoncerPrepared.accepted n' ↦ push tx (select fuel room n' pool')
        ]
      ])
  after_turn (Next.found tx pool') t small enough =
      after_next tx pool' (noncer_prepare tx n) t (λ q. noncer_prepare-Accepts q tx n) small enough
  after_turn (Next.empty pool') t small enough = (tt, t.2, omega arith, inr t.1)
  after_turn Next.panicked t small enough = t

-- A selection ends without a panic, whatever the pool has. It takes transactions that are next for
-- their accounts, at most as many as there is room for, and fewer only if the pool is then empty;
-- the pool keeps its invariant. The nonces of the pool have successors.
pub select-IsSelected :
    (digest : Transaction → ℕ) (fuel room : ℕ) (n : Noncer) (pool : Mempool)
    → IsPool digest pool
    → HasRoom pool
    → length pool.transactions < fuel
    → IsSelected digest room (λ q. (noncer_account q n).nonce) (select fuel room n pool)
unfolding select
select-IsSelected digest zero room n pool v small enough = absurd (omega arith)
select-IsSelected digest (suc fuel) zero n pool v small enough = (tt, v, omega arith, inl refl)
select-IsSelected digest (suc fuel) (suc room) n pool v small enough =
    after_turn digest fuel room n pool
      (λ r n' p v' s' e'. select-IsSelected digest fuel r n' p v' s' e') (next pool)
      (next-IsNext digest pool v) small enough
