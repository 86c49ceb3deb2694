-- ===== src/Chain/Replay.antt =====
-- A transaction that was accepted is refused ever after.
use supersociety_battleware.Base.{ℕ, ◌+◌, ◌≤◌, ◌<◌, ◌≡◌, List, [], ◌∷◌, arith}
use supersociety_battleware.Types.{PublicKey, Transaction}
use supersociety_battleware.Layer.{
  Layer, Outcome, done, returned, panicked, Ensures, Prepared, prepare, load_account,
}
use supersociety_battleware.Layer.Replay.{IsAnswer, prepare-IsAnswer}
use supersociety_battleware.Layer.Frame.{IsSound}
use supersociety_battleware.Casino.Interface.{Host}
use supersociety_battleware.Casino.Ending.{Split}
use supersociety_battleware.Chain.{Output, Nonces, execute}
use supersociety_battleware.Chain.Execution.{next_nonce, After, execute-After}

next_nonce_grows : (q : PublicKey) (n : ℕ) (txs : List Transaction) → n ≤ next_nonce q n txs
unfolding next_nonce
next_nonce_grows q n [] = omega arith
next_nonce_grows q n (tx ∷ txs) =
    ground (arith, next_nonce_grows q n txs, next_nonce_grows q (n + 1) txs)

-- The account has passed the transaction's nonce, and the two nonces are named.
abbrev pub IsPassed : Transaction → Prepared → Type 0
IsPassed tx (Prepared.nonce_mismatch expected given) = (tx.nonce < expected) × (given ≡ tx.nonce)
IsPassed tx (Prepared.ready l) = ⊥
IsPassed tx Prepared.overflow = ⊥

prepare-IsPassed :
    (tx : Transaction) (l : Layer)
    → tx.nonce < (load_account tx.public_key l).nonce
    → IsPassed tx (prepare tx l)
unfolding prepare
prepare-IsPassed tx l passed = ground arith

-- What is left after transactions on an account that has passed the nonce.
ensured-IsPassed :
    (tx : Transaction) (txs : List Transaction) (l : Layer) (o : Outcome (List Output × Nonces))
    → tx.nonce < (load_account tx.public_key l).nonce
    → Ensures o (After tx.public_key txs [] l)
    → Ensures o (λ r l'. IsPassed tx (prepare tx l'))
ensured-IsPassed tx txs l (done r l') passed h =
    prepare-IsPassed tx l'
      (omega (arith, h.0, next_nonce_grows tx.public_key (load_account tx.public_key l).nonce txs))
ensured-IsPassed tx txs l (returned events l') passed h = h
ensured-IsPassed tx txs l panicked passed h = tt

answer-passes :
    (tx : Transaction) (l l' : Layer) (p : Prepared)
    → IsAnswer tx l p
    → p ≡ Prepared.ready l'
    → tx.nonce < (load_account tx.public_key l').nonce
answer-passes tx l l' (Prepared.ready l1) h e = grind arith
answer-passes tx l l' (Prepared.nonce_mismatch expected given) h e = absurd (grind arith)
answer-passes tx l l' Prepared.overflow h e = absurd (grind arith)

-- A transaction that was accepted, with a layer left whose changes have each key once, is refused
-- after any transactions that are executed on that layer, unless these panic: the account has passed
-- its nonce.
pub execute-IsPassed :
    (host : Host) (split : Split) (tx : Transaction) (txs : List Transaction) (l l' : Layer)
    → IsSound l'
    → prepare tx l ≡ Prepared.ready l'
    → Ensures (execute host split txs l') (λ r l''. IsPassed tx (prepare tx l''))
execute-IsPassed host split tx txs l l' sound accepted =
    ensured-IsPassed tx txs l' (execute host split txs l')
      (answer-passes tx l l' (prepare tx l) (prepare-IsAnswer tx l) accepted)
      (execute-After host split tx.public_key txs l' sound)
