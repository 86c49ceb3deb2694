-- ===== src/Casino/Ending/Runs.antt =====
-- Actions that end without a panic or an early return.
use supersociety_battleware.Layer.{Layer, Outcome, done, returned, panicked}

-- The action ends as `P` says, without a panic or an early return.
abbrev pub Runs : {A : Type 0} → Outcome A → (A → Layer → Type 0) → Type 0
Runs (done a l) P = P a l
Runs (returned events l) P = ⊥
Runs panicked P = ⊥

-- The rest of the loop, from any layer that the first round may leave.
pub then_runs :
    {A B : Type 0} (o : Outcome A) (m : Layer → Outcome B) (P : Layer → Type 0)
    (Q : B → Layer → Type 0)
    → Runs o (λ _ l'. P l')
    → ((l' : Layer) → P l' → Runs (m l') Q)
    → Runs
        (elim o [
          | done a l' ↦ m l'
          | returned events l' ↦ returned events l'
          | panicked ↦ panicked
        ])
        Q
then_runs (done a l') m P Q h k = k l' h
then_runs (returned events l') m P Q h k = h
then_runs panicked m P Q h k = h
