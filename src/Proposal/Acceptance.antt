-- ===== src/Proposal/Acceptance.antt =====
-- Every transaction of a proposal is executed.
use supersociety_battleware.Base.{
  ℕ, ◌+◌, ◌^◌, ◌<◌, ◌≡◌, refl, sym, ◌∙◌, ap, sat_add, none, some, List, [], ◌∷◌, ◌++◌, map, arith,
}
use supersociety_battleware.Base.Assoc.{store}
use mathlib.Core.List.{append_assoc, append-nil}
use supersociety_battleware.Types.{PublicKey, Event, Transaction}
use supersociety_battleware.Layer.{
  Layer, Outcome, done, returned, panicked, Leaves, Ensures, Prepared, prepare, load_account,
}
use supersociety_battleware.Layer.Frame.{IsSound, Keeps, frame_laws}
use supersociety_battleware.Casino.Interface.{Host}
use supersociety_battleware.Casino.Ending.{Split}
use supersociety_battleware.Chain.{Output, Nonces, ended, apply, outputs_of, execute_loop, execute}
use supersociety_battleware.Chain.Execution.{apply-Keeps}
use supersociety_battleware.Proposal.Selection.{bump, Follows, Follows-same}

-- The transactions among the outputs of a block.
unfoldable pub transactions_of : List Output → List Transaction
transactions_of [] = []
transactions_of (Output.transaction tx ∷ os) = tx ∷ transactions_of os
transactions_of (_ ∷ os) = transactions_of os

transactions_of-events :
    (events : List Event) (tx : Transaction)
    → transactions_of (map Output.event events ++ Output.transaction tx ∷ []) ≡ tx ∷ []
unfolding transactions_of
transactions_of-events [] tx = refl
transactions_of-events (e ∷ es) tx = transactions_of-events es tx

transactions_of-append :
    (os os' : List Output) → transactions_of (os ++ os') ≡ transactions_of os ++ transactions_of os'
unfolding transactions_of
transactions_of-append [] os' = refl
transactions_of-append (Output.transaction tx ∷ os) os' =
    ap (λ (x : List Transaction). tx ∷ x) (transactions_of-append os os')
transactions_of-append (Output.event e ∷ os) os' = transactions_of-append os os'
transactions_of-append (Output.commit h s ∷ os) os' = transactions_of-append os os'

abbrev nonces_in : Layer → PublicKey → ℕ
nonces_in l q = (load_account q l).nonce

-- `prepare` takes the transaction that is next.
abbrev IsReady : Transaction → Layer → Prepared → Type 0
IsReady tx l (Prepared.ready l1) =
    IsSound l1 × ((q : PublicKey) → bump tx (nonces_in l) q ≡ nonces_in l1 q)
IsReady tx l (Prepared.nonce_mismatch expected got) = ⊥
IsReady tx l Prepared.overflow = ⊥

-- The same, for one account.
abbrev IsReadyAt : PublicKey → Transaction → Layer → Prepared → Type 0
IsReadyAt q tx l (Prepared.ready l1) = IsSound l1 × (bump tx (nonces_in l) q ≡ nonces_in l1 q)
IsReadyAt q tx l (Prepared.nonce_mismatch expected got) = ⊥
IsReadyAt q tx l Prepared.overflow = ⊥

ready_bump :
    (tx : Transaction) (l : Layer) (q : PublicKey) (p : Prepared)
    → prepare tx l ≡ p
    → (load_account tx.public_key l).nonce ≡ tx.nonce
    → tx.nonce + 1 < 2 ^ 64
    → IsSound l
    → IsReadyAt q tx l p
unfolding prepare
ready_bump tx l q (Prepared.ready l1) e at fits s = grind (arith, frame_laws)
ready_bump tx l q (Prepared.nonce_mismatch expected got) e at fits s = grind (arith, frame_laws)
ready_bump tx l q Prepared.overflow e at fits s = grind (arith, frame_laws)

IsReady-all :
    (tx : Transaction) (l : Layer) (p : Prepared)
    → ((q : PublicKey) → IsReadyAt q tx l p)
    → IsReady tx l p
IsReady-all tx l (Prepared.ready l1) h = ((h 0).0, λ q. (h q).1)
IsReady-all tx l (Prepared.nonce_mismatch expected got) h = h 0
IsReady-all tx l Prepared.overflow h = h 0

-- All of them are in the outputs, after what was there before.
abbrev Outputs : List Output → List Transaction → List Output × Nonces → Layer → Type 0
Outputs outputs txs r l' = transactions_of r.0 ≡ transactions_of outputs ++ txs

module _ (host : Host) (split : Split) (tx : Transaction) (txs : List Transaction)
    (rest : (outputs : List Output) (nonces : Nonces) (l : Layer)
      → IsSound l
      → Follows (nonces_in l) txs
      → Ensures (execute_loop host split txs outputs nonces l) (Outputs outputs txs))
    (outputs : List Output) (nonces : Nonces) where
  weaken :
      (events : List Event) (o : Outcome (List Output × Nonces))
      → Ensures o (Outputs (outputs ++ outputs_of events tx) txs)
      → Ensures o (Outputs outputs (tx ∷ txs))
  weaken events (done r l') h =
      h
      ∙ (ap (λ (x : List Transaction). x ++ txs)
            (transactions_of-append outputs (outputs_of events tx)
              ∙ ap (λ (x : List Transaction). transactions_of outputs ++ x)
                  (transactions_of-events events tx))
          ∙ append_assoc (transactions_of outputs) (tx ∷ []) txs)
  weaken events (returned events' l') h = h
  weaken events panicked h = tt

  step_handler :
      (l l1 : Layer) (o : Outcome (List Event))
      → ((q : PublicKey) → bump tx (nonces_in l) q ≡ nonces_in l1 q)
      → Follows (bump tx (nonces_in l)) txs
      → ((q : PublicKey) → Leaves o (Keeps q l1))
      → Ensures
          (elim (ended o) [
            | none ↦ panicked
            | some (events, l2) ↦
                execute_loop host split txs
                  (outputs ++ outputs_of events tx)
                  (store tx.public_key (sat_add tx.nonce 1) nonces)
                  l2
          ])
          (Outputs outputs (tx ∷ txs))
  step_handler l l1 (done events l2) b f k = weaken events _ (
      rest (outputs ++ outputs_of events tx) _ l2 (k 0).2 (
        Follows-same (bump tx (nonces_in l)) (nonces_in l2) txs (λ q. ground (arith, b q, (k q).0))
          f))
  step_handler l l1 (returned events l2) b f k = weaken events _ (
      rest (outputs ++ outputs_of events tx) _ l2 (k 0).2 (
        Follows-same (bump tx (nonces_in l)) (nonces_in l2) txs (λ q. ground (arith, b q, (k q).0))
          f))
  step_handler l l1 panicked b f k = tt

  step_prepare :
      (l : Layer) (p : Prepared)
      → IsReady tx l p
      → Follows (bump tx (nonces_in l)) txs
      → Ensures
          (elim p [
            | Prepared.nonce_mismatch expected got ↦ execute_loop host split txs outputs nonces l
            | Prepared.overflow ↦ panicked
            | Prepared.ready l1 ↦ elim (ended (apply host split tx.public_key tx.instruction l1)) [
              | none ↦ panicked
              | some (events, l2) ↦
                  execute_loop host split txs
                    (outputs ++ outputs_of events tx)
                    (store tx.public_key (sat_add tx.nonce 1) nonces)
                    l2
            ]
          ])
          (Outputs outputs (tx ∷ txs))
  step_prepare l (Prepared.ready l1) h f =
      step_handler l l1 (apply host split tx.public_key tx.instruction l1) h.1 f
        (λ q. apply-Keeps host split q tx.public_key tx.instruction l1 h.0)
  step_prepare l (Prepared.nonce_mismatch expected got) h f = absurd h
  step_prepare l Prepared.overflow h f = absurd h

execute_loop-Outputs :
    (host : Host) (split : Split) (txs : List Transaction) (outputs : List Output) (nonces : Nonces)
    (l : Layer)
    → IsSound l
    → Follows (nonces_in l) txs
    → Ensures (execute_loop host split txs outputs nonces l) (Outputs outputs txs)
unfolding execute_loop
execute_loop-Outputs host split [] outputs nonces l s f = sym (append-nil (transactions_of outputs))
execute_loop-Outputs host split (tx ∷ txs) outputs nonces l s f =
    step_prepare host split tx txs
      (λ os ns l' s' f'. execute_loop-Outputs host split txs os ns l' s' f') outputs nonces l
      (prepare tx l)
      (IsReady-all tx l (prepare tx l) (λ q. ready_bump tx l q (prepare tx l) refl f.0 f.1 s)) f.2

-- Transactions that follow the nonces of the accounts are all executed, in their order, unless a
-- handler panics.
pub execute-transactions_of :
    (host : Host) (split : Split) (txs : List Transaction) (l : Layer)
    → IsSound l
    → Follows (λ q. (load_account q l).nonce) txs
    → Ensures (execute host split txs l) (λ r l'. transactions_of r.0 ≡ txs)
unfolding execute transactions_of
execute-transactions_of host split txs l s f = execute_loop-Outputs host split txs [] [] l s f
