-- ===== src/Proposal/Ancestors.antt =====
-- A proposal and the blocks before it: the nonces that the proposer computes are those that the
-- execution of the ancestors leaves.
use supersociety_battleware.Base.{
  ap, ℕ, ◌+◌, ◌≡◌, refl, ◌∙◌, sym, leb, Option, none, some, List, [], ◌∷◌, arith, if◌then◌else◌,
  length, Bool-cases, Option-cases, inl, inr,
}
use supersociety_battleware.Types.{PublicKey, Account, Transaction}
use supersociety_battleware.Layer.{
  Memory, Outcome, done, returned, panicked, Ensures, Seed, new_layer, commit, load_account,
  pending_get, apply_changes,
}
use supersociety_battleware.Layer.Noncer.{
  Noncer, NoncerPrepared, new_noncer, noncer_get, noncer_account, noncer_prepare, Accepts,
  noncer_prepare-Accepts,
}
use supersociety_battleware.Casino.Interface.{Host}
use supersociety_battleware.Casino.Ending.{Split}
use supersociety_battleware.Mempool.{Mempool}
use supersociety_battleware.Mempool.Invariant.{IsPool}
use supersociety_battleware.Chain.{Output, Nonces, execute}
use supersociety_battleware.Chain.Execution.{next_nonce, After, execute-After}
use supersociety_battleware.Chain.Transition.Laws.{
  account_in, new_layer-IsSound, load_account-new_layer, account_in-commit,
}
use supersociety_battleware.Proposal.{
  Selected, quietly, prepare_all, prepare_ancestors, max_block_transactions, select, select_for,
  propose,
}
use supersociety_battleware.Proposal.Selection.{
  HasRoom, Follows-same, IsSelected, select-IsSelected,
}
use supersociety_battleware.Proposal.Acceptance.{transactions_of, execute-transactions_of}

-- The nonce of an account after the blocks above a height.
unfoldable pub nonce_after : PublicKey → ℕ → List (ℕ × List Transaction) → ℕ → ℕ
nonce_after q height [] n = n
nonce_after q height ((at, txs) ∷ blocks) n =
    nonce_after q height blocks (if leb at height then n else next_nonce q n txs)

abbrev nonces_of : Noncer → PublicKey → ℕ
nonces_of n q = (noncer_account q n).nonce

-- A transaction is counted, or passed over.
quietly-next_nonce :
    (q : PublicKey) (tx : Transaction) (txs : List Transaction) (n n' : Noncer) (p : NoncerPrepared)
    → Accepts q tx n p
    → quietly n p ≡ some n'
    → next_nonce q (nonces_of n' q) txs ≡ next_nonce q (nonces_of n q) (tx ∷ txs)
unfolding next_nonce
quietly-next_nonce q tx txs n n' (NoncerPrepared.accepted m) a e = grind arith
quietly-next_nonce q tx txs n n' (NoncerPrepared.mismatch expected got) a e = grind arith
quietly-next_nonce q tx txs n n' NoncerPrepared.overflow a e = absurd (ground arith)

prepare_all-next_nonce :
    (q : PublicKey) (txs : List Transaction) (n n' : Noncer)
    → prepare_all txs n ≡ some n'
    → nonces_of n' q ≡ next_nonce q (nonces_of n q) txs
unfolding prepare_all next_nonce
prepare_all-next_nonce q [] n n' e = ground arith
prepare_all-next_nonce q (tx ∷ txs) n n' e = elim (Option-cases (quietly n (noncer_prepare tx n))) [
  | inl overflow ↦ absurd (ground arith)
  | inr (m, counted) ↦
      let left : prepare_all txs m ≡ some n' = grind arith in
      prepare_all-next_nonce q txs m n' left
      ∙ quietly-next_nonce q tx txs n m (noncer_prepare tx n) (noncer_prepare-Accepts q tx n)
          counted
]

prepare_ancestors-nonce_after :
    (q : PublicKey) (height : ℕ) (blocks : List (ℕ × List Transaction)) (n n' : Noncer)
    → prepare_ancestors height blocks n ≡ some n'
    → nonces_of n' q ≡ nonce_after q height blocks (nonces_of n q)
unfolding prepare_ancestors nonce_after
prepare_ancestors-nonce_after q height [] n n' e = grind arith
prepare_ancestors-nonce_after q height ((at, txs) ∷ blocks) n n' e =
    elim (Bool-cases (leb at height)) [
      | inl old ↦
          let left : prepare_ancestors height blocks n ≡ some n' = grind arith in
          rw old (prepare_ancestors-nonce_after q height blocks n n' left)
      | inr new_block ↦ elim (Option-cases (prepare_all txs n)) [
        | inl overflow ↦ absurd (grind arith)
        | inr (m, counted) ↦
            let left : prepare_ancestors height blocks m ≡ some n' = grind arith in
            rw (new_block, ← prepare_all-next_nonce q txs n m counted)
              (prepare_ancestors-nonce_after q height blocks m n' left)
      ]
    ]

new_nonces : (q : PublicKey) (m : Memory) → nonces_of (new_noncer m) q ≡ (account_in m q).nonce
unfolding noncer_account noncer_get new_noncer pending_get
new_nonces q m = refl

module _ (host : Host) (split : Split) (seed : ℕ → Seed) where
  -- The state after a block, unless it panics.
  abbrev state_after : Memory → Outcome (List Output × Nonces) → Option Memory
  state_after m (done r l) = some (apply_changes (commit l) m)
  state_after m (returned events l) = none
  state_after m panicked = none

  abbrev then_state : Option Memory → (Memory → Option Memory) → Option Memory
  then_state none f = none
  then_state (some m) f = f m

  -- The blocks above a height are executed, each with the seed of its height, on the state that those
  -- before it leave.
  unfoldable pub run_ancestors : ℕ → List (ℕ × List Transaction) → Memory → Option Memory
  run_ancestors height [] m = some m
  run_ancestors height ((at, txs) ∷ blocks) m =
      then_state
        (if leb at height
          then some m
          else state_after m (execute host split txs (new_layer m (seed at))))
        (run_ancestors height blocks)

  state_after-next_nonce :
      (q : PublicKey) (txs : List Transaction) (m m' : Memory) (at : ℕ)
      (o : Outcome (List Output × Nonces))
      → Ensures o (After q txs [] (new_layer m (seed at)))
      → state_after m o ≡ some m'
      → (account_in m' q).nonce ≡ next_nonce q (account_in m q).nonce txs
  unfolding new_layer
  state_after-next_nonce q txs m m' at (done r l) h e =
      let at' : apply_changes (commit l) m ≡ m' = grind arith in
      ap (λ (x : Memory). (account_in x q).nonce)
        (sym at' ∙ ap (apply_changes (commit l)) (sym h.2))
      ∙ (ap (λ (a : Account). a.nonce) (account_in-commit q l h.3)
          ∙ (h.0
              ∙ ap (λ (a : Account). next_nonce q a.nonce txs)
                  (load_account-new_layer q m (seed at))))
  state_after-next_nonce q txs m m' at (returned events l) h e = absurd (ground arith)
  state_after-next_nonce q txs m m' at panicked h e = absurd (ground arith)

  run_ancestors-nonce_after :
      (q : PublicKey) (height : ℕ) (blocks : List (ℕ × List Transaction)) (m m' : Memory)
      → run_ancestors height blocks m ≡ some m'
      → (account_in m' q).nonce ≡ nonce_after q height blocks (account_in m q).nonce
  unfolding run_ancestors nonce_after
  run_ancestors-nonce_after q height [] m m' e = let same : m ≡ m' = grind arith in rw same refl
  run_ancestors-nonce_after q height ((at, txs) ∷ blocks) m m' e =
      elim (Bool-cases (leb at height)) [
        | inl old ↦
            let left : run_ancestors height blocks m ≡ some m' = grind arith in
            rw old (run_ancestors-nonce_after q height blocks m m' left)
        | inr new_block ↦
            elim (Option-cases (state_after m (execute host split txs (new_layer m (seed at))))) [
              | inl panics ↦ absurd (grind arith)
              | inr (m1, ends) ↦
                  let left : run_ancestors height blocks m1 ≡ some m' = grind arith in
                  rw
                    (
                      new_block,
                      ← state_after-next_nonce q txs m m1 at _
                          (execute-After host split q txs (new_layer m (seed at))
                            (new_layer-IsSound m (seed at)))
                          ends,
                    )
                    (run_ancestors-nonce_after q height blocks m1 m' left)
            ]
      ]

  -- A proposal is executed in whole; it stops only where the nonces of the ancestors overflow.
  abbrev pub IsExecuted : Option Noncer → Memory → Seed → Selected → Type 0
  IsExecuted n m own (Selected.selected txs pool) =
      Ensures (execute host split txs (new_layer m own)) (λ r l'. transactions_of r.0 ≡ txs)
  IsExecuted n m own Selected.stopped = n ≡ none

  select_for-IsExecuted :
      (digest : Transaction → ℕ) (m : Memory) (own : Seed) (pool : Mempool) (n : Option Noncer)
      → IsPool digest pool
      → HasRoom pool
      → ((n' : Noncer) → n ≡ some n' → (q : PublicKey) → nonces_of n' q ≡ (account_in m q).nonce)
      → IsExecuted n m own (select_for pool n)
  select_for-IsExecuted digest m own pool none v small same = refl
  select_for-IsExecuted digest m own pool (some n) v small same =
      executed (select (length pool.transactions + 1) max_block_transactions n pool) (
        select-IsSelected digest (length pool.transactions + 1) max_block_transactions n pool v
          small (omega arith))
    where
      executed :
          (s : Selected)
          → IsSelected digest max_block_transactions (nonces_of n) s
          → IsExecuted (some n) m own s
      executed (Selected.selected txs pool') h =
          execute-transactions_of host split txs (new_layer m own) (new_layer-IsSound m own) (
            Follows-same (nonces_of n) (λ q. (load_account q (new_layer m own)).nonce) txs
              (λ q.
                same n refl q
                ∙ ap (λ (a : Account). a.nonce) (sym (load_account-new_layer q m own)))
              h.0)
      executed Selected.stopped h = absurd h

  -- If the blocks above the height of a state execute without a panic, and the pool has its invariant
  -- and nonces with successors: what is proposed on that state after these blocks, and then executed
  -- on the state that they leave, is executed in whole and in its order, unless a handler panics. The
  -- proposal stops only where a nonce of the blocks overflows.
  pub propose-IsExecuted :
      (digest : Transaction → ℕ) (height : ℕ) (blocks : List (ℕ × List Transaction)) (m m' : Memory)
      (own : Seed) (pool : Mempool)
      → IsPool digest pool
      → HasRoom pool
      → run_ancestors height blocks m ≡ some m'
      → IsExecuted
          (prepare_ancestors height blocks (new_noncer m))
          m'
          own
          (propose m height blocks pool)
  unfolding propose
  propose-IsExecuted digest height blocks m m' own pool v small runs =
      select_for-IsExecuted digest m' own pool (prepare_ancestors height blocks (new_noncer m)) v
        small
        (λ n e q.
          prepare_ancestors-nonce_after q height blocks (new_noncer m) n e
          ∙ (ap (nonce_after q height blocks) (new_nonces q m)
              ∙ sym (run_ancestors-nonce_after q height blocks m m' runs)))
