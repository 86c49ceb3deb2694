-- ===== src/Mempool/Serving.antt =====
-- `next` gives the transaction of the lowest nonce of an account, as long as there is one.
use supersociety_battleware.Base.{
  ℕ, zero, suc, ◌+◌, ◌≤◌, ◌≡◌, refl, ◌∙◌, leb, some, List, [], ◌∷◌, arith, length, Bool-cases, inl,
  inr,
}
use supersociety_battleware.Base.Assoc.{find, member, member-keep_members, length-keep_members}
use supersociety_battleware.Types.{PublicKey, Transaction}
use supersociety_battleware.Mempool.{
  Transactions, Mempool, Turn, turn, compact, Next, next_loop, next,
}
use supersociety_battleware.Mempool.Invariant.{digest_at, IsPool}
use supersociety_battleware.Mempool.Turns.{Takes, IsTurn, turn_of-IsTurn}

-- A pool with nobody in the queue has no transactions.
idle_pool :
    (digest : Transaction → ℕ) (pool : Mempool) (txs : Transactions)
    → IsPool digest pool
    → pool.queue ≡ []
    → pool.transactions ≡ txs
    → txs ≡ []
unfolding find member digest_at
idle_pool digest pool [] v none_waits same = refl
idle_pool digest pool ((d, tx) ∷ txs) v none_waits same = absurd (
    let there : find d pool.transactions ≡ some tx = rw same (ground arith) in
    ground (arith, v.book.is_tracked d tx there, v.waiting tx.public_key, v.in_queue tx.public_key))

-- What `next` gives: a transaction, or nothing where there is none.
abbrev pub IsNext : (Transaction → ℕ) → Mempool → Next → Type 0
IsNext digest pool (Next.found tx pool') = Takes digest pool tx pool'
IsNext digest pool (Next.empty pool') =
    (pool.transactions ≡ []) × (pool'.transactions ≡ []) × IsPool digest pool'
IsNext digest pool Next.panicked = ⊥

-- The keys that are skipped before do not matter.
after_skip :
    (digest : Transaction → ℕ) (pool pool' : Mempool) (result : Next)
    → pool'.transactions ≡ pool.transactions
    → ((q : PublicKey) (n : ℕ) → digest_at q n pool' ≡ digest_at q n pool)
    → IsNext digest pool' result
    → IsNext digest pool result
after_skip digest pool pool' (Next.found tx pool'') kept tracks t = record {
  valid = t.valid;
  was_there = rw (← kept) t.was_there;
  others = λ d. rw (← kept) (t.others d);
  fewer = rw (← kept) t.fewer;
  lowest = λ n. rw (← tracks tx.public_key n) (t.lowest n);
}
after_skip digest pool pool' (Next.empty pool'') kept tracks t = (rw (← kept) t.0, t.1, t.2)
after_skip digest pool pool' Next.panicked kept tracks t = t

compact-IsPool :
    (digest : Transaction → ℕ) (stale : ℕ) (pool : Mempool)
    → IsPool digest pool
    → IsPool digest (compact stale pool).1
      × ((compact stale pool).1.transactions ≡ pool.transactions)
      × (length (compact stale pool).1.queue ≤ length pool.queue)
unfolding compact digest_at
compact-IsPool digest stale pool v = elim (Bool-cases (leb 1024 (stale + 1))) [
  | inr few ↦ rw few (v, refl, omega arith)
  | inl many ↦ rw many (
    record {
      book = v.book;
      ascending = v.ascending;
      waiting = v.waiting;
      in_queue = λ q h. ground (arith, member-keep_members q pool.queued pool.queue, v.in_queue q);
      few = v.few;
      short = v.short;
    },
    refl,
    length-keep_members pool.queued pool.queue,
  )
]

compact-digest_at :
    (stale : ℕ) (pool : Mempool) (q : PublicKey) (n : ℕ)
    → digest_at q n (compact stale pool).1 ≡ digest_at q n pool
unfolding compact digest_at
compact-digest_at stale pool q n = ground arith

-- One round of the loop, with the claim for the rounds after it.
round-IsNext :
    (digest : Transaction → ℕ) (fuel stale : ℕ) (pool : Mempool) (t : Turn)
    → IsPool digest pool
    → IsTurn digest pool t
    → length pool.queue ≤ suc fuel
    → ((stale' : ℕ) (pool' : Mempool)
        → IsPool digest pool'
        → length pool'.queue ≤ fuel
        → IsNext digest pool' (next_loop fuel stale' pool'))
    → IsNext digest pool (elim t [
      | Turn.dry ↦ Next.empty pool
      | Turn.skipped pool' ↦ next_loop fuel (compact stale pool').0 (compact stale pool').1
      | Turn.taken tx pool' ↦ Next.found tx pool'
      | Turn.fault ↦ Next.panicked
    ])
round-IsNext digest fuel stale pool Turn.dry v h enough loop =
    let idle = idle_pool digest pool pool.transactions v h refl in (idle, idle, v)
round-IsNext digest fuel stale pool (Turn.skipped pool') v h enough loop =
    let c = compact-IsPool digest stale pool' h.valid in
    after_skip digest pool (compact stale pool').1 _ (c.1 ∙ h.kept)
      (λ q n. compact-digest_at stale pool' q n ∙ h.tracks q n)
      (loop (compact stale pool').0 (compact stale pool').1 c.0 (omega (arith, c.2, h.shorter)))
round-IsNext digest fuel stale pool (Turn.taken tx pool') v h enough loop = h
round-IsNext digest fuel stale pool Turn.fault v h enough loop = h

no_queue : (queue : List PublicKey) → length queue ≤ 0 → queue ≡ []
no_queue [] h = refl
no_queue (q ∷ qs) h = absurd (omega arith)

next_loop-IsNext :
    (digest : Transaction → ℕ) (fuel stale : ℕ) (pool : Mempool)
    → IsPool digest pool
    → length pool.queue ≤ fuel
    → IsNext digest pool (next_loop fuel stale pool)
unfolding next_loop
next_loop-IsNext digest zero stale pool v enough =
    let idle = idle_pool digest pool pool.transactions v (no_queue pool.queue enough) refl in
    (idle, idle, v)
next_loop-IsNext digest (suc fuel) stale pool v enough =
    round-IsNext digest fuel stale pool (turn pool) v
      (unfold turn in turn_of-IsTurn digest pool pool.queue v refl) enough
      (λ s p h k. next_loop-IsNext digest fuel s p h k)

-- `next` ends and does not panic, whatever keys are skipped. It gives a transaction unless the pool
-- has none; it is of the lowest nonce that is tracked for its account, and the new pool is the old
-- one without it. The invariant is kept.
pub next-IsNext :
    (digest : Transaction → ℕ) (pool : Mempool)
    → IsPool digest pool
    → IsNext digest pool (next pool)
unfolding next
next-IsNext digest pool v = next_loop-IsNext digest (length pool.queue) 0 pool v (omega arith)
