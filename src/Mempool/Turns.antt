-- ===== src/Mempool/Turns.antt =====
-- One turn of the loop of `next`.
use supersociety_battleware.Base.{
  ℕ, ◌<◌, ◌≡◌, refl, ltb, ◌==◌, false, Option, none, some, List, [], ◌∷◌, ◌++◌, arith,
  if◌then◌else◌, length, Bool-cases, Option-cases, inl, inr,
}
use supersociety_battleware.Base.Assoc.{
  find, store, erase, member, remove, length-erase, length-erase_found, find-store, find-erase,
  member-remove, member-append,
}
use supersociety_battleware.Types.{PublicKey, Transaction}
use supersociety_battleware.Mempool.Nonces.{Backlog, find-Above}
use supersociety_battleware.Mempool.{Mempool, Turn, take_first, visit, turn_of}
use supersociety_battleware.Mempool.Invariant.{
  digest_at, Stands, IsBook-remove, IsBook-same, IsPool, at_with,
}

-- The transaction is one of the pool, of the lowest nonce of its account, and the new pool is the
-- old one without it.
pub record Takes (digest : Transaction → ℕ) (pool : Mempool) (tx : Transaction) (pool' : Mempool)
    : Type 0 where
  pub valid : IsPool digest pool'
  pub was_there : find (digest tx) pool.transactions ≡ some tx
  pub others :
      (d : ℕ)
      → find d pool'.transactions ≡ (if digest tx == d then none else find d pool.transactions)
  pub fewer : length pool'.transactions < length pool.transactions
  pub lowest : (n : ℕ) → (if ltb n tx.nonce then digest_at tx.public_key n pool else none) ≡ none

-- Nothing is lost by skipping a key, and the queue is shorter.
pub record Skips (digest : Transaction → ℕ) (pool pool' : Mempool) : Type 0 where
  pub valid : IsPool digest pool'
  pub kept : pool'.transactions ≡ pool.transactions
  pub tracks : (q : PublicKey) (n : ℕ) → digest_at q n pool' ≡ digest_at q n pool
  pub shorter : length pool'.queue < length pool.queue

abbrev pub IsTurn : (Transaction → ℕ) → Mempool → Turn → Type 0
IsTurn digest pool Turn.dry = pool.queue ≡ []
IsTurn digest pool (Turn.skipped pool') = Skips digest pool pool'
IsTurn digest pool (Turn.taken tx pool') = Takes digest pool tx pool'
IsTurn digest pool Turn.fault = ⊥

-- The pool after the key at the front came off the queue and out of the set.
abbrev popped : PublicKey → List PublicKey → Mempool → Mempool
popped address rest pool = record pool { queue = rest; queued = remove address pool.queued }

module _ (digest : Transaction → ℕ) (pool : Mempool) (address : PublicKey) (rest : List PublicKey)
    (v : IsPool digest pool) (front : pool.queue ≡ address ∷ rest) where
  in_rest : (q : PublicKey) → member q (address ∷ rest) ≡ member q pool.queue
  in_rest q = rw front refl

  -- A key that is in the queue and no longer in the set.
  skip_stale : member address pool.queued ≡ false → Skips digest pool (record pool { queue = rest })
  unfolding digest_at member
  skip_stale stale = record {
    valid = record {
      book = v.book;
      ascending = v.ascending;
      waiting = v.waiting;
      in_queue = λ q h. ground (arith, in_rest q, v.in_queue q);
      few = v.few;
      short = v.short;
    };
    kept = refl;
    tracks = λ q n. refl;
    shorter = rw front (omega arith);
  }

  skip_untracked : find address pool.tracked ≡ none → Skips digest pool (popped address rest pool)
  unfolding digest_at member
  skip_untracked gone = record {
    valid = record {
      book = v.book;
      ascending = v.ascending;
      waiting = λ q. ground (arith, member-remove q address pool.queued, v.waiting q);
      in_queue =
          λ q h. ground (arith, in_rest q, member-remove q address pool.queued, v.in_queue q);
      few = v.few;
      short = v.short;
    };
    kept = refl;
    tracks = λ q n. refl;
    shorter = rw front (omega arith);
  }

  skip_empty :
      find address pool.tracked ≡ some []
      → Skips digest pool
          (record (popped address rest pool) { tracked = erase address pool.tracked })
  unfolding digest_at member find
  skip_empty nothing = record {
    valid = record {
      book =
          IsBook-same digest _ (at_with pool.tracked) (at_with (erase address pool.tracked)) v.book
            (λ q k. ground (arith, find-erase q address pool.tracked));
      ascending = λ q. ground (arith, find-erase q address pool.tracked, v.ascending q);
      waiting = λ q. ground (
        arith,
        find-erase q address pool.tracked,
        member-remove q address pool.queued,
        v.waiting q,
      );
      in_queue =
          λ q h. ground (arith, in_rest q, member-remove q address pool.queued, v.in_queue q);
      few = v.few;
      short = λ q. ground (arith, find-erase q address pool.tracked, v.short q);
    };
    kept = refl;
    tracks = λ q n. ground (arith, find-erase q address pool.tracked);
    shorter = rw front (omega arith);
  }

  -- The only transaction of an account.
  take_only :
      (n d : ℕ) (tx : Transaction)
      → find address pool.tracked ≡ some ((n, d) ∷ [])
      → find d pool.transactions ≡ some tx
      → Takes digest pool tx (record (popped address rest pool) {
        tracked = erase address pool.tracked;
        transactions = erase d pool.transactions;
      })
  unfolding digest_at member find
  take_only n d tx at there =
      let s : Stands address n (some tx) = rw there at (v.book.stands address n d (ground arith)) in
      record {
        valid = record {
          book =
              IsBook-remove digest (λ k. find k pool.transactions)
                (λ k. find k (erase d pool.transactions)) (at_with pool.tracked)
                (at_with (erase address pool.tracked)) address n d v.book (ground arith)
                (λ k. find-erase k d pool.transactions)
                (λ q k. ground (arith, find-erase q address pool.tracked));
          ascending = λ q. ground (arith, find-erase q address pool.tracked, v.ascending q);
          waiting = λ q. ground (
            arith,
            find-erase q address pool.tracked,
            member-remove q address pool.queued,
            v.waiting q,
          );
          in_queue =
              λ q h. ground (arith, in_rest q, member-remove q address pool.queued, v.in_queue q);
          few = omega (arith, v.few, length-erase d pool.transactions);
          short = λ q. ground (arith, find-erase q address pool.tracked, v.short q);
        };
        was_there = rw (v.book.keyed d tx there) there;
        others = λ k. rw (v.book.keyed d tx there) (find-erase k d pool.transactions);
        lowest = λ k. ground arith;
        fewer = length-erase_found d tx pool.transactions there;
      }

  take_more :
      (n d : ℕ) (x : ℕ × ℕ) (e : Backlog) (tx : Transaction)
      → find address pool.tracked ≡ some ((n, d) ∷ x ∷ e)
      → find d pool.transactions ≡ some tx
      → Takes digest pool tx (record (popped address rest pool) {
        tracked = store address (x ∷ e) pool.tracked;
        queued = address ∷ remove address pool.queued;
        queue = rest ++ address ∷ [];
        transactions = erase d pool.transactions;
      })
  unfolding digest_at member find
  take_more n d x e tx at there =
      let s : Stands address n (some tx) = rw there at (v.book.stands address n d (ground arith)) in
      record {
        valid = record {
          book =
              IsBook-remove digest (λ k. find k pool.transactions)
                (λ k. find k (erase d pool.transactions)) (at_with pool.tracked)
                (at_with (store address (x ∷ e) pool.tracked)) address n d v.book (ground arith)
                (λ k. find-erase k d pool.transactions)
                (λ q k. ground (
                  arith,
                  find-store q address (x ∷ e) pool.tracked,
                  find-Above n k (x ∷ e),
                  v.ascending address,
                ));
          ascending = λ q. ground (
            arith,
            find-store q address (x ∷ e) pool.tracked,
            v.ascending q,
            v.ascending address,
          );
          waiting = λ q. ground (
            arith,
            find-store q address (x ∷ e) pool.tracked,
            member-remove q address pool.queued,
            v.waiting q,
          );
          in_queue = λ q h. ground (
            arith,
            in_rest q,
            member-append q address rest,
            member-remove q address pool.queued,
            v.in_queue q,
          );
          few = omega (arith, v.few, length-erase d pool.transactions);
          short = λ q.
              ground (arith, find-store q address (x ∷ e) pool.tracked, v.short q, v.short address);
        };
        was_there = rw (v.book.keyed d tx there) there;
        others = λ k. rw (v.book.keyed d tx there) (find-erase k d pool.transactions);
        fewer = length-erase_found d tx pool.transactions there;
        lowest = λ k. ground (arith, find-Above n k (x ∷ e), v.ascending address);
      }

  first-IsTurn :
      (tracked : Option Backlog)
      → find address pool.tracked ≡ tracked
      → IsTurn digest pool (take_first address tracked (popped address rest pool))
  first-IsTurn none at = skip_untracked at
  first-IsTurn (some []) at = skip_empty at
  first-IsTurn (some ((n, d) ∷ [])) at = elim (Option-cases (find d pool.transactions)) [
    | inl gone ↦
        absurd (rw gone at (v.book.stands address n d (unfold digest_at find in ground arith)))
    | inr (tx, there) ↦ rw there (take_only n d tx at there)
  ]
  first-IsTurn (some ((n, d) ∷ (x ∷ e))) at = elim (Option-cases (find d pool.transactions)) [
    | inl gone ↦
        absurd (rw gone at (v.book.stands address n d (unfold digest_at find in ground arith)))
    | inr (tx, there) ↦ rw there (take_more n d x e tx at there)
  ]

  visit-IsTurn : IsTurn digest pool (visit address (record pool { queue = rest }))
  unfolding visit
  visit-IsTurn = elim (Bool-cases (member address pool.queued)) [
    | inl waits ↦ rw waits (first-IsTurn (find address pool.tracked) refl)
    | inr stale ↦ rw stale (skip_stale stale)
  ]

pub turn_of-IsTurn :
    (digest : Transaction → ℕ) (pool : Mempool) (queue : List PublicKey)
    → IsPool digest pool
    → pool.queue ≡ queue
    → IsTurn digest pool (turn_of queue pool)
turn_of-IsTurn digest pool [] v front = front
turn_of-IsTurn digest pool (address ∷ rest) v front = visit-IsTurn digest pool address rest v front
