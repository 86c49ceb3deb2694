-- ===== src/Mempool/Addition.antt =====
-- `add` keeps the invariant.
use supersociety_battleware.Base.{
  ℕ, ◌+◌, ◌≤◌, ◌<◌, ◌≡◌, refl, ltb, leb, ◌==◌, Bool, true, false, not, ◌&&◌, Option, none, some,
  List, [], ◌∷◌, arith, if◌then◌else◌, length, Bool-cases, inl, inr,
}
use supersociety_battleware.Base.Assoc.{
  find, store, erase, member, length-store, length-erase, find-store, find-erase, member-append,
}
use supersociety_battleware.Types.{PublicKey, Transaction}
use supersociety_battleware.Mempool.Nonces.{
  Backlog, tree_insert, last_entry, before_last, IsAscending, find-tree_insert,
  IsAscending-tree_insert, find-before_last, find-last_entry, IsAscending-before_last,
  length-before_last, length-tree_insert,
}
use supersociety_battleware.Mempool.{
  Transactions, Mempool, or_empty, has, trim, enqueue, track, add,
}
use supersociety_battleware.Mempool.Invariant.{
  digest_at, IsWaiting, IsBook, IsBook-insert, IsBook-remove, IsPool, at_with, at_with-store,
}

-- The book after the insertion, before the backlog is trimmed.
IsBook-track :
    (digest : Transaction → ℕ) (txs : Transactions) (tracked : List (PublicKey × Backlog))
    (tx : Transaction)
    → IsBook digest (λ d. find d txs) (at_with tracked)
    → find (digest tx) txs ≡ none
    → at_with tracked tx.public_key tx.nonce ≡ none
    → IsBook digest
        (λ d. find d (store (digest tx) tx txs))
        (at_with (
          store tx.public_key
            (tree_insert tx.nonce (digest tx) (or_empty (find tx.public_key tracked)))
            tracked))
IsBook-track digest txs tracked tx b fresh free =
    let e = or_empty (find tx.public_key tracked) in
    IsBook-insert digest (λ d. find d txs) (λ d. find d (store (digest tx) tx txs))
      (at_with tracked) (at_with (store tx.public_key (tree_insert tx.nonce (digest tx) e) tracked))
      (digest tx) tx b refl fresh free (λ k. find-store k (digest tx) tx txs)
      (λ q k. ground (
        arith,
        at_with-store tracked q tx.public_key k (tree_insert tx.nonce (digest tx) e),
        find-tree_insert k tx.nonce (digest tx) e,
      ))

-- And after it is trimmed.
IsBook-trim :
    (digest : Transaction → ℕ) (txs : Transactions) (tracked : List (PublicKey × Backlog))
    (p : PublicKey) (e : Backlog) (over : Bool)
    → IsAscending e
    → IsBook digest (λ d. find d txs) (at_with (store p e tracked))
    → IsBook digest
        (λ d. find d (trim over e txs).1)
        (at_with (store p (trim over e txs).0 tracked))
IsBook-trim digest txs tracked p e false a b = b
IsBook-trim digest txs tracked p [] true a b = b
IsBook-trim digest txs tracked p (x ∷ e) true a b =
    IsBook-remove digest (λ d. find d txs) (λ d. find d (erase (last_entry x e).1 txs))
      (at_with (store p (x ∷ e) tracked)) (at_with (store p (before_last x e) tracked)) p
      (last_entry x e).0 (last_entry x e).1 b
      (ground (arith, at_with-store tracked p p (last_entry x e).0 (x ∷ e), find-last_entry x e a))
      (λ k. find-erase k (last_entry x e).1 txs)
      (λ q k. ground (
        arith,
        at_with-store tracked q p k (x ∷ e),
        at_with-store tracked q p k (before_last x e),
        find-before_last k x e a,
      ))

IsAscending-trim :
    (e : Backlog) (txs : Transactions) (over : Bool)
    → IsAscending e
    → IsAscending (trim over e txs).0
IsAscending-trim e txs false a = a
IsAscending-trim [] txs true a = tt
IsAscending-trim (x ∷ e) txs true a = IsAscending-before_last x e a

length-trim :
    (e : Backlog) (txs : Transactions) (limit : ℕ)
    → length e ≤ limit + 1
    → length (trim (ltb limit (length e)) e txs).0 ≤ limit
length-trim [] txs limit h = ground arith
length-trim (x ∷ e) txs limit h = ground (arith, length-before_last x e)

length-trim_txs :
    (e : Backlog) (txs : Transactions) (over : Bool) → length (trim over e txs).1 ≤ length txs
length-trim_txs e txs false = omega arith
length-trim_txs [] txs true = omega arith
length-trim_txs (x ∷ e) txs true = omega (arith, length-erase (last_entry x e).1 txs)

-- An account whose key is not queued has no other transaction.
track_waits :
    (n d : ℕ) (tracked : Option Backlog) (queued : Bool)
    → IsWaiting tracked queued
    → (if (length (tree_insert n d (or_empty tracked)) == 1 && not queued) then true else queued)
      ≡ true
unfolding tree_insert
track_waits n d none true w = refl
track_waits n d none false w = refl
track_waits n d (some e) queued w = ground arith

-- The invariant but for the one key that may wait to be put in the queue.
record IsPoolBut (digest : Transaction → ℕ) (p : PublicKey) (b : Bool) (pool : Mempool)
    : Type 0 where
  book : IsBook digest (λ d. find d pool.transactions) (at_with pool.tracked)
  ascending : (q : PublicKey) → IsAscending (or_empty (find q pool.tracked))
  waiting :
      (q : PublicKey)
      → IsWaiting (find q pool.tracked) (if b && p == q then true else member q pool.queued)
  in_queue : (q : PublicKey) → member q pool.queued ≡ true → member q pool.queue ≡ true
  few : length pool.transactions ≤ pool.max_transactions
  short : (q : PublicKey) → length (or_empty (find q pool.tracked)) ≤ pool.max_backlog

enqueue-IsPool :
    (digest : Transaction → ℕ) (p : PublicKey) (b : Bool) (pool : Mempool)
    → IsPoolBut digest p b pool
    → IsPool digest (enqueue b p pool)
unfolding digest_at member
enqueue-IsPool digest p false pool v = record {
  book = v.book;
  ascending = v.ascending;
  waiting = v.waiting;
  in_queue = v.in_queue;
  few = v.few;
  short = v.short;
}
enqueue-IsPool digest p true pool v = record {
  book = v.book;
  ascending = v.ascending;
  waiting = v.waiting;
  in_queue = λ q h. ground (arith, member-append q p pool.queue, v.in_queue q);
  few = v.few;
  short = v.short;
}

track-IsPool :
    (digest : Transaction → ℕ) (tx : Transaction) (pool : Mempool)
    → IsPool digest pool
    → length pool.transactions < pool.max_transactions
    → find (digest tx) pool.transactions ≡ none
    → find tx.nonce (or_empty (find tx.public_key pool.tracked)) ≡ none
    → IsPool digest (track (digest tx) tx (or_empty (find tx.public_key pool.tracked)) pool)
unfolding track digest_at
track-IsPool digest tx pool v room fresh free =
    let p = tx.public_key in
    let e : Backlog = or_empty (find p pool.tracked) in
    let e' : Backlog = tree_insert tx.nonce (digest tx) e in
    let txs : Transactions = store (digest tx) tx pool.transactions in
    let over : Bool = ltb pool.max_backlog (length e') in
    let up : IsAscending e' = IsAscending-tree_insert tx.nonce (digest tx) e (v.ascending p) in
    let b : Bool = length e' == 1 && not (member p pool.queued) in
    enqueue-IsPool digest p b
      (record pool {
        tracked = store p (trim over e' txs).0 pool.tracked;
        transactions = (trim over e' txs).1;
      })
      (record {
        book =
            IsBook-trim digest txs pool.tracked p e' over up
              (IsBook-track digest pool.transactions pool.tracked tx v.book fresh free);
        ascending = λ q. ground (
          arith,
          find-store q p (trim over e' txs).0 pool.tracked,
          v.ascending q,
          IsAscending-trim e' txs over up,
        );
        waiting = λ q. ground (
          arith,
          find-store q p (trim over e' txs).0 pool.tracked,
          v.waiting q,
          track_waits tx.nonce (digest tx) (find p pool.tracked) (member p pool.queued)
              (v.waiting p),
        );
        in_queue = v.in_queue;
        few =
            omega
              (arith, length-trim_txs e' txs over, length-store (digest tx) tx pool.transactions);
        short = λ q. ground (
          arith,
          find-store q p (trim over e' txs).0 pool.tracked,
          v.short q,
          length-trim e' txs pool.max_backlog
              (omega (arith, length-tree_insert tx.nonce (digest tx) e, v.short p)),
        );
      })

none_of_has {ℓ} : {A : Type ℓ} (o : Option A) → has o ≡ false → o ≡ none
none_of_has none h = refl
none_of_has (some a) h = cc

-- `add` keeps the invariant.
pub add-IsPool :
    (digest : Transaction → ℕ) (tx : Transaction) (pool : Mempool)
    → IsPool digest pool
    → IsPool digest (add digest tx pool)
unfolding add
add-IsPool digest tx pool v =
    elim (Bool-cases (leb pool.max_transactions (length pool.transactions))) [
      | inl full ↦ rw full v
      | inr room ↦ elim (Bool-cases (has (find (digest tx) pool.transactions))) [
        | inl known ↦ rw (room, known) v
        | inr fresh ↦
            elim (Bool-cases (has (find tx.nonce (or_empty (find tx.public_key pool.tracked))))) [
              | inl used ↦ rw (room, fresh, used) v
              | inr free ↦
                  rw (room, fresh, free)
                    (track-IsPool digest tx pool v (ground arith) (none_of_has _ fresh)
                      (none_of_has _ free))
            ]
      ]
    ]
