-- ===== src/Mempool/Retention.antt =====
-- `retain` keeps the invariant.
use supersociety_battleware.Base.{
  refl, sym, ◌∙◌, Option, ◌<◌, ℕ, ◌≤◌, ◌≡◌, ltb, ◌==◌, ◌&&◌, none, some, List, [], ◌∷◌, arith,
  if◌then◌else◌, length, Bool-cases, Option-cases, inl, inr,
}
use supersociety_battleware.Base.Assoc.{
  find, store, erase, length-erase, find-store, find-erase, member-remove,
}
use supersociety_battleware.Types.{PublicKey, Transaction}
use supersociety_battleware.Mempool.Nonces.{Backlog, IsAscending, IsAscending-tail, find-Above}
use supersociety_battleware.Mempool.{Transactions, Mempool, retain_loop, untrack_empty, retain}
use supersociety_battleware.Mempool.Invariant.{
  Stands, digest_at, IsBook, IsBook-remove, IsBook-same, IsPool, at_with, at_with-store,
  at_with-erase,
}

module _ (digest : Transaction → ℕ) (tracked : List (PublicKey × Backlog)) (p : PublicKey)
    (min : ℕ) where
  -- The first transaction of the account is taken out of both maps.
  IsBook-first :
      (n d : ℕ) (e : Backlog) (txs : Transactions)
      → IsAscending ((n, d) ∷ e)
      → IsBook digest (λ k. find k txs) (at_with (store p ((n, d) ∷ e) tracked))
      → IsBook digest (λ k. find k (erase d txs)) (at_with (store p e tracked))
  IsBook-first n d e txs a b =
      IsBook-remove digest (λ k. find k txs) (λ k. find k (erase d txs))
        (at_with (store p ((n, d) ∷ e) tracked)) (at_with (store p e tracked)) p n d b
        (unfold find in ground (arith, at_with-store tracked p p n ((n, d) ∷ e)))
        (λ k. find-erase k d txs)
        (λ q k.
          unfold find in
          ground (
            arith,
            at_with-store tracked q p k ((n, d) ∷ e),
            at_with-store tracked q p k e,
            find-Above n k e a,
          ))

  retain_loop-IsBook :
      (e : Backlog) (txs : Transactions)
      → IsAscending e
      → IsBook digest (λ d. find d txs) (at_with (store p e tracked))
      → IsBook digest
          (λ d. find d (retain_loop min e txs).1)
          (at_with (store p (retain_loop min e txs).0 tracked))
  unfolding retain_loop
  retain_loop-IsBook [] txs a b = b
  retain_loop-IsBook ((n, d) ∷ e) txs a b = elim (Bool-cases (ltb n min)) [
    | inr kept ↦ rw kept b
    | inl old ↦ rw old (
        retain_loop-IsBook e (erase d txs) (IsAscending-tail (n, d) e a)
          (IsBook-first n d e txs a b))
  ]

-- What is left of a backlog: in order, no longer than before, and from the bound on.
retain_loop_left :
    (min : ℕ) (e : Backlog) (txs : Transactions)
    → IsAscending e
    → let left = retain_loop min e txs in
      IsAscending left.0 × (length left.0 ≤ length e) × (length left.1 ≤ length txs)
unfolding retain_loop
retain_loop_left min [] txs a = (tt, omega arith, omega arith)
retain_loop_left min ((n, d) ∷ e) txs a =
    ground (
      arith,
      retain_loop_left min e (erase d txs) (IsAscending-tail (n, d) e a),
      length-erase d txs,
    )

untrack_empty-IsPool :
    (digest : Transaction → ℕ) (p : PublicKey) (e : Backlog) (left : Backlog × Transactions)
    (pool : Mempool)
    → IsPool digest pool
    → find p pool.tracked ≡ some e
    → IsBook digest (λ d. find d left.1) (at_with (store p left.0 pool.tracked))
    → IsAscending left.0
    → length left.0 ≤ length e
    → length left.1 ≤ length pool.transactions
    → IsPool digest (untrack_empty p left pool)
unfolding digest_at
untrack_empty-IsPool digest p e ([], txs) pool v at b a fewer less = record {
  book =
      IsBook-same digest _ (at_with (store p [] pool.tracked)) (at_with (erase p pool.tracked)) b
        (λ q k.
          unfold find in
          ground (arith, at_with-erase pool.tracked q p k, at_with-store pool.tracked q p k []));
  ascending = λ q. ground (arith, find-erase q p pool.tracked, v.ascending q);
  waiting =
      λ q. ground (arith, find-erase q p pool.tracked, member-remove q p pool.queued, v.waiting q);
  in_queue = λ q h. ground (arith, member-remove q p pool.queued, v.in_queue q);
  few = omega (arith, v.few);
  short = λ q. ground (arith, find-erase q p pool.tracked, v.short q);
}
untrack_empty-IsPool digest p e (x ∷ rest, txs) pool v at b a fewer less = record {
  book = b;
  ascending = λ q. ground (arith, find-store q p (x ∷ rest) pool.tracked, v.ascending q);
  waiting = λ q. ground (arith, find-store q p (x ∷ rest) pool.tracked, v.waiting q);
  in_queue = v.in_queue;
  few = omega (arith, v.few);
  short = λ q. ground (arith, find-store q p (x ∷ rest) pool.tracked, v.short q, v.short p);
}

-- The book of the pool, with the account's backlog set apart.
tracked-IsBook :
    (digest : Transaction → ℕ) (p : PublicKey) (e : Backlog) (pool : Mempool)
    → IsPool digest pool
    → find p pool.tracked ≡ some e
    → IsBook digest (λ k. find k pool.transactions) (at_with (store p e pool.tracked))
tracked-IsBook digest p e pool v at =
    IsBook-same digest _ _ (at_with (store p e pool.tracked)) v.book
      (λ q k. unfold digest_at in ground (arith, at_with-store pool.tracked q p k e))

-- `retain` keeps the invariant.
pub retain-IsPool :
    (digest : Transaction → ℕ) (p : PublicKey) (min : ℕ) (pool : Mempool)
    → IsPool digest pool
    → IsPool digest (retain p min pool)
unfolding retain
retain-IsPool digest p min pool v = elim (Option-cases (find p pool.tracked)) [
  | inl untracked ↦ rw untracked v
  | inr (e, at) ↦
      let up : IsAscending e = ground (arith, v.ascending p) in
      let left = retain_loop_left min e pool.transactions up in
      rw at (
        untrack_empty-IsPool digest p e (retain_loop min e pool.transactions) pool v at
          (retain_loop-IsBook digest pool.tracked p min e pool.transactions up
            (tracked-IsBook digest p e pool v at))
          left.0 left.1 left.2)
]

at-retain_loop :
    (min k : ℕ) (e : Backlog) (txs : Transactions)
    → IsAscending e
    → find k (retain_loop min e txs).0 ≡ (if ltb k min then none else find k e)
unfolding retain_loop find
at-retain_loop min k [] txs a = ground arith
at-retain_loop min k ((n, d) ∷ e) txs a =
    ground (
      arith,
      at-retain_loop min k e (erase d txs) (IsAscending-tail (n, d) e a),
      find-Above n k e a,
    )

at-untrack_empty :
    (p q : PublicKey) (k : ℕ) (left : Backlog × Transactions) (pool : Mempool)
    → digest_at q k (untrack_empty p left pool)
      ≡ (if p == q then find k left.0 else digest_at q k pool)
unfolding digest_at
at-untrack_empty p q k ([], txs) pool =
    unfold find in ground (arith, at_with-erase pool.tracked q p k)
at-untrack_empty p q k (x ∷ e, txs) pool = at_with-store pool.tracked q p k (x ∷ e)

-- What is left of a transaction when the account's are dropped below a bound.
abbrev pub drop_old : PublicKey → ℕ → Option Transaction → Option Transaction
drop_old p min none = none
drop_old p min (some tx) = if tx.public_key == p && ltb tx.nonce min then none else some tx

-- Nothing is dropped where no nonce of the account is below the bound.
drop_old-none :
    (digest : Transaction → ℕ) (at : PublicKey → ℕ → Option ℕ) (p : PublicKey) (min d : ℕ)
    (txs : Transactions)
    → IsBook digest (λ k. find k txs) at
    → ((n : ℕ) → n < min → at p n ≡ none)
    → find d txs ≡ drop_old p min (find d txs)
drop_old-none digest at p min d txs b high = elim (Option-cases (find d txs)) [
  | inl absent ↦ rw absent refl
  | inr (tx, found) ↦ rw found (ground (arith, b.is_tracked d tx found, high tx.nonce))
]

module _ (digest : Transaction → ℕ) (tracked : List (PublicKey × Backlog)) (p : PublicKey)
    (min d : ℕ) where
  -- A transaction that is tracked below the bound is dropped.
  drop_old-some :
      (n : ℕ) (o : Option Transaction) → Stands p n o → n < min → drop_old p min o ≡ none
  drop_old-some n none h low = absurd h
  drop_old-some n (some tx) h low = ground arith

  first_dropped :
      (n k : ℕ) (txs : Transactions)
      → Stands p n (find k txs)
      → n < min
      → drop_old p min (find d (erase k txs)) ≡ drop_old p min (find d txs)
  first_dropped n k txs gone low = elim (Bool-cases (k == d)) [
    | inl same ↦
        let e : k ≡ d = ground arith in
        rw (find-erase d k txs, same) (sym (rw (← e) (drop_old-some n (find k txs) gone low)))
    | inr other ↦ ground (arith, find-erase d k txs)
  ]

  retain_loop_found :
      (e : Backlog) (txs : Transactions)
      → IsAscending e
      → IsBook digest (λ k. find k txs) (at_with (store p e tracked))
      → find d (retain_loop min e txs).1 ≡ drop_old p min (find d txs)
  unfolding retain_loop
  retain_loop_found [] txs a b =
      drop_old-none digest _ p min d txs b
        (λ n low. unfold find in ground (arith, at_with-store tracked p p n []))
  retain_loop_found ((n, k) ∷ e) txs a b = elim (Bool-cases (ltb n min)) [
    | inr kept ↦ rw kept (
        drop_old-none digest _ p min d txs b (λ j low.
          unfold find in
          ground (arith, find-Above n j e a, at_with-store tracked p p j ((n, k) ∷ e))))
    | inl old ↦
        let low : n < min = ground arith in
        let rest =
          retain_loop_found e (erase k txs) (IsAscending-tail (n, k) e a)
            (IsBook-first digest tracked p min n k e txs a b) in
        let gone =
          b.stands p n k
            (unfold find in ground (arith, at_with-store tracked p p n ((n, k) ∷ e))) in
        rw old (rest ∙ first_dropped n k txs gone low)
  ]

found-untrack_empty :
    (p : PublicKey) (d : ℕ) (left : Backlog × Transactions) (pool : Mempool)
    → find d (untrack_empty p left pool).transactions ≡ find d left.1
found-untrack_empty p d ([], txs) pool = refl
found-untrack_empty p d (x ∷ e, txs) pool = refl

-- On a pool that has its invariant, `retain` drops exactly the account's transactions below the
-- bound: at each digest the pool has the transaction that it had, unless that is one of these, and
-- the digest that it tracks for an account at a nonce is the one before, unless it is the account and
-- the nonce is below the bound.
pub digest_at-retain :
    (digest : Transaction → ℕ) (p q : PublicKey) (min n d : ℕ) (pool : Mempool)
    → IsPool digest pool
    → (digest_at q n (retain p min pool)
        ≡ (if p == q && ltb n min then none else digest_at q n pool))
      × (find d (retain p min pool).transactions ≡ drop_old p min (find d pool.transactions))
unfolding retain
digest_at-retain digest p q min n d pool v = elim (Option-cases (find p pool.tracked)) [
  | inl untracked ↦ rw untracked (
    unfold digest_at find in ground arith,
    drop_old-none digest (λ r k. digest_at r k pool) p min d pool.transactions v.book
        (λ k low. unfold digest_at find in rw untracked refl),
  )
  | inr (e, at) ↦
      let up : IsAscending e = ground (arith, v.ascending p) in
      rw at (
        unfold digest_at in
            ground (
              arith,
              up,
              at-untrack_empty p q n (retain_loop min e pool.transactions) pool,
              at-retain_loop min n e pool.transactions,
            ),
        found-untrack_empty p d (retain_loop min e pool.transactions) pool
            ∙ retain_loop_found digest pool.tracked p min d e pool.transactions up
                (tracked-IsBook digest p e pool v at),
      )
]
