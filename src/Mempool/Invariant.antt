-- ===== src/Mempool/Invariant.antt =====
-- The invariant of the mempool: the transactions and the tracked nonces say the same, and every
-- tracked account is in the queue.
use supersociety_battleware.Base.{
  ℕ, ◌≤◌, ◌≡◌, sym, ◌∙◌, ◌==◌, Bool, true, ◌&&◌, Option, none, some, List, arith, if◌then◌else◌,
  length,
}
use supersociety_battleware.Base.Assoc.{find, store, erase, member, find-store, find-erase}
use supersociety_battleware.Types.{PublicKey, Transaction}
use supersociety_battleware.Mempool.Nonces.{Backlog, IsAscending}
use supersociety_battleware.Mempool.{Mempool, or_empty, new_with_limits}

-- The digest that is tracked for an account at a nonce.
unfoldable pub digest_at : PublicKey → ℕ → Mempool → Option ℕ
digest_at p n pool = find n (or_empty (find p pool.tracked))

-- The digest that a map of backlogs has for an account at a nonce.
abbrev pub at_with : List (PublicKey × Backlog) → PublicKey → ℕ → Option ℕ
at_with tracked p n = find n (or_empty (find p tracked))

pub at_with-store :
    (tracked : List (PublicKey × Backlog)) (p q : PublicKey) (n : ℕ) (e : Backlog)
    → at_with (store q e tracked) p n ≡ (if q == p then find n e else at_with tracked p n)
at_with-store tracked p q n e = ground (arith, find-store p q e tracked)

pub at_with-erase :
    (tracked : List (PublicKey × Backlog)) (p q : PublicKey) (n : ℕ)
    → at_with (erase q tracked) p n ≡ (if q == p then none else at_with tracked p n)
unfolding find
at_with-erase tracked p q n = ground (arith, find-erase p q tracked)

-- The transaction is there, and it is the account's at that nonce.
abbrev pub Stands : PublicKey → ℕ → Option Transaction → Type 0
Stands p n none = ⊥
Stands p n (some tx) = (tx.public_key ≡ p) × (tx.nonce ≡ n)

-- An account that is tracked is queued.
abbrev pub IsWaiting : Option Backlog → Bool → Type 0
IsWaiting none queued = Unit
IsWaiting (some e) queued = queued ≡ true

-- The two maps say the same: `look` gives the transaction of a digest, and `at` the digest of an
-- account at a nonce.
pub record IsBook (digest : Transaction → ℕ) (look : ℕ → Option Transaction)
    (at : PublicKey → ℕ → Option ℕ) : Type 0 where
  -- Every transaction is kept under its digest, and tracked at its account and nonce.
  pub keyed : (d : ℕ) (tx : Transaction) → look d ≡ some tx → digest tx ≡ d
  pub is_tracked :
      (d : ℕ) (tx : Transaction) → look d ≡ some tx → at tx.public_key tx.nonce ≡ some d
  -- Every tracked digest has its transaction.
  pub stands : (p : PublicKey) (n d : ℕ) → at p n ≡ some d → Stands p n (look d)

module _ (digest : Transaction → ℕ) (look look' : ℕ → Option Transaction)
    (at at' : PublicKey → ℕ → Option ℕ) where
  -- A new transaction.
  pub IsBook-insert :
      (d : ℕ) (tx : Transaction)
      → IsBook digest look at
      → digest tx ≡ d
      → look d ≡ none
      → at tx.public_key tx.nonce ≡ none
      → ((k : ℕ) → look' k ≡ (if d == k then some tx else look k))
      → ((q : PublicKey) (k : ℕ)
          → at' q k ≡ (if tx.public_key == q && tx.nonce == k then some d else at q k))
      → IsBook digest look' at'
  IsBook-insert d tx b e fresh free l a = record {
    keyed = λ k t h. ground (arith, l k, b.keyed k t);
    is_tracked = λ k t h. ground (arith, l k, a t.public_key t.nonce, b.is_tracked k t);
    stands = λ p n k h. ground (arith, l k, a p n, b.stands p n k);
  }

  -- One transaction less.
  pub IsBook-remove :
      (p : PublicKey) (n d : ℕ)
      → IsBook digest look at
      → at p n ≡ some d
      → ((k : ℕ) → look' k ≡ (if d == k then none else look k))
      → ((q : PublicKey) (k : ℕ) → at' q k ≡ (if p == q && n == k then none else at q k))
      → IsBook digest look' at'
  IsBook-remove p n d b e l a = record {
    keyed = λ k t h. ground (arith, l k, b.keyed k t);
    is_tracked = λ k t h. ground (arith, l k, a t.public_key t.nonce, b.is_tracked k t);
    stands = λ q m k h. ground (arith, l k, a q m, b.stands q m k, b.stands p n d);
  }

-- A book under other names for the same tracked digests.
pub IsBook-same :
    (digest : Transaction → ℕ) (look : ℕ → Option Transaction) (at at' : PublicKey → ℕ → Option ℕ)
    → IsBook digest look at
    → ((q : PublicKey) (k : ℕ) → at' q k ≡ at q k)
    → IsBook digest look at'
IsBook-same digest look at at' b a = record {
  keyed = b.keyed;
  is_tracked = λ k t h. a t.public_key t.nonce ∙ b.is_tracked k t h;
  stands = λ q n k h. b.stands q n k (sym (a q n) ∙ h);
}

pub record IsPool (digest : Transaction → ℕ) (pool : Mempool) : Type 0 where
  pub book : IsBook digest (λ d. find d pool.transactions) (λ p n. digest_at p n pool)
  pub ascending : (p : PublicKey) → IsAscending (or_empty (find p pool.tracked))
  pub waiting : (p : PublicKey) → IsWaiting (find p pool.tracked) (member p pool.queued)
  pub in_queue : (p : PublicKey) → member p pool.queued ≡ true → member p pool.queue ≡ true
  -- The limits.
  pub few : length pool.transactions ≤ pool.max_transactions
  pub short : (p : PublicKey) → length (or_empty (find p pool.tracked)) ≤ pool.max_backlog

-- A new pool keeps it.
pub new_with_limits-IsPool :
    (digest : Transaction → ℕ) (max_backlog max_transactions : ℕ)
    → IsPool digest (new_with_limits max_backlog max_transactions)
unfolding find digest_at member
new_with_limits-IsPool digest max_backlog max_transactions = record {
  book = record {
    keyed = λ d tx h. ground arith;
    is_tracked = λ d tx h. ground arith;
    stands = λ p n d h. ground arith;
  };
  ascending = λ p. tt;
  waiting = λ p. tt;
  in_queue = λ p h. ground arith;
  few = omega arith;
  short = λ p. omega arith;
}
