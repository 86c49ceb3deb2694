-- ===== src/Chain/Transition/Laws.antt =====
-- What a call of `execute_state_transition` does to the two databases.
use supersociety_battleware.Base.{
  Bool-cases, ap, ◌∙◌, ℕ, ◌+◌, ◌^◌, ◌<◌, ◌≡◌, ◌≢◌, ◌⊎◌, inl, inr, refl, Bool, true, false, none,
  some, List, [], arith,
}
use supersociety_battleware.Base.Assoc.{find}
use supersociety_battleware.Types.{PublicKey, Key, Account, Transaction}
use supersociety_battleware.Layer.{
  Layer, Outcome, done, returned, panicked, Ensures, Seed, Memory, new_layer, commit, get,
  load_account, or_else, as_account, pending_get, apply_changes,
}
use supersociety_battleware.Layer.Commit.{apply_changes_lem, IsDistinct}
use supersociety_battleware.Layer.Frame.{IsSound}
use supersociety_battleware.Casino.Interface.{Host}
use supersociety_battleware.Casino.Ending.{Split}
use supersociety_battleware.Chain.{Output, Nonces, execute}
use supersociety_battleware.Chain.Execution.{next_nonce, reported, After, execute-After}
use supersociety_battleware.Chain.Databases.{
  StateDb, EventsDb, IsStateDb, IsEventsDb, adb_get, adb_apply, all_landed,
}
use supersociety_battleware.Chain.Writes.{adb_get-adb_apply}
use supersociety_battleware.Chain.Transition.{
  Ended, or_start, append_all, report, commit_state, commit_events, append_outputs, commit_block,
  process_block, execute_state_transition,
}

-- The account that a state holds.
abbrev pub account_in : Memory → PublicKey → Account
account_in m q = or_else (as_account (m (Key.account q))) (record { nonce = 0 })

pub new_layer-IsSound : (m : Memory) (seed : Seed) → IsSound (new_layer m seed)
unfolding IsSound IsDistinct new_layer
new_layer-IsSound m seed = tt

pub load_account-new_layer :
    (q : PublicKey) (m : Memory) (seed : Seed) → load_account q (new_layer m seed) ≡ account_in m q
unfolding load_account get new_layer pending_get
load_account-new_layer q m seed = refl

-- The changes of a layer, applied, give the accounts that it shows.
pub account_in-commit :
    (q : PublicKey) (l : Layer)
    → IsSound l
    → account_in (apply_changes (commit l) l.state) q ≡ load_account q l
unfolding IsSound commit load_account get
account_in-commit q l s = rw (apply_changes_lem (Key.account q) l.pending l.state s) refl

account_in-agrees :
    (m n : Memory) (q : PublicKey)
    → m (Key.account q) ≡ n (Key.account q)
    → account_in m q ≡ account_in n q
account_in-agrees m n q same = rw same refl

module _ {S D E : Type 0} (state_db : StateDb S D) (events_db : EventsDb E) (host : Host)
    (split : Split) where
  -- The databases are as they were, and no nonce is reported.
  abbrev pub Stays : S → E → Ended S E → Type 0
  Stays s e (Ended.finished s' e' r) = (s' ≡ s) × (e' ≡ e) × (r.processed_nonces ≡ [])
  Stays s e (Ended.failed s' e') = (s' ≡ s) × (e' ≡ e)
  Stays s e Ended.crashed = ⊥

  -- A call for any height but the next one leaves the databases as they were: a block that was
  -- processed is not processed again, and none is passed over. The height of the state has a
  -- successor.
  pub execute_state_transition_elsewhere :
      (height : ℕ) (seed : Seed) (txs : List Transaction) (s : S) (e : E)
      → (or_start (state_db.metadata s)).0 + 1 < 2 ^ 64
      → height ≢ (or_start (state_db.metadata s)).0 + 1
      → Stays s e (execute_state_transition state_db events_db host split height seed txs s e)
  unfolding execute_state_transition report
  execute_state_transition_elsewhere height seed txs s e room other = ground arith

  -- Once the events are one block ahead of the state, as after a stop between the two commits, every
  -- call leaves both databases as they are: the node does not get on.
  pub execute_state_transition_stuck :
      (height : ℕ) (seed : Seed) (txs : List Transaction) (s : S) (e : E)
      → (or_start (state_db.metadata s)).0 + 1 < 2 ^ 64
      → (or_start (events_db.metadata e)).0 ≡ (or_start (state_db.metadata s)).0 + 1
      → Stays s e (execute_state_transition state_db events_db host split height seed txs s e)
  unfolding execute_state_transition report
  execute_state_transition_stuck height seed txs s e room ahead = ground arith

  -- Do all writes of a block land in the database of the state?
  abbrev pub lands_in : S → Outcome (List Output × Nonces) → Bool
  lands_in s (done r layer) = all_landed state_db (commit layer) s
  lands_in s (returned events layer) = true
  lands_in s panicked = true

  -- A block that is finished: both databases are at its height, and the account in the state and in
  -- the report has the nonce that the transactions give, in the state unless a write did not land. On an error the state is as it was, or the
  -- events are at the height.
  abbrev pub IsProcessed : PublicKey → ℕ → List Transaction → Bool → S → E → Ended S E → Type 0
  IsProcessed q height txs landed s e (Ended.finished s' e' r) =
      (state_db.metadata s' ≡ some (height, state_db.op_count s))
      × (events_db.metadata e' ≡ some (height, events_db.op_count e))
      × ((landed ≡ false)
          ⊎ ((account_in (adb_get state_db s') q).nonce
              ≡ next_nonce q (account_in (adb_get state_db s) q).nonce txs))
      × (find q r.processed_nonces ≡ reported q (account_in (adb_get state_db s) q).nonce txs none)
  IsProcessed q height txs landed s e (Ended.failed s' e') =
      (s' ≡ s) ⊎ (events_db.metadata e' ≡ some (height, events_db.op_count e))
  IsProcessed q height txs landed s e Ended.crashed = Unit

  module _ (good : IsStateDb state_db) (good' : IsEventsDb events_db) (q : PublicKey) (height : ℕ)
      (txs : List Transaction) (s : S) (e : E) (layer : Layer) (r : List Output × Nonces)
      (below : layer.state ≡ adb_get state_db s) (sound : IsSound layer)
      (nonce : (load_account q layer).nonce
        ≡ next_nonce q (account_in (adb_get state_db s) q).nonce txs)
      (told : find q r.1 ≡ reported q (account_in (adb_get state_db s) q).nonce txs none) where
    abbrev landed : Bool
    landed = all_landed state_db (commit layer) s

    metadata_at :
        (s1 : S)
        → state_db.commit height (state_db.op_count s) (adb_apply state_db (commit layer) s)
          ≡ (true, s1)
        → state_db.metadata s1 ≡ some (height, state_db.op_count s)
    metadata_at s1 same =
        grind
          (arith, good.committed height (state_db.op_count s) (adb_apply state_db (commit layer) s))

    kept :
        (s1 : S)
        → state_db.commit height (state_db.op_count s) (adb_apply state_db (commit layer) s)
          ≡ (true, s1)
        → adb_get state_db s1 (Key.account q)
          ≡ adb_get state_db (adb_apply state_db (commit layer) s) (Key.account q)
    unfolding adb_get
    kept s1 same = grind (
      arith,
      good.keeps height (state_db.op_count s) (adb_apply state_db (commit layer) s)
          (state_db.hash (Key.account q)),
    )

    -- What the database gives for the account, if the writes landed.
    account_at :
        (s1 : S)
        → landed ≡ true
        → state_db.commit height (state_db.op_count s) (adb_apply state_db (commit layer) s)
          ≡ (true, s1)
        → account_in (adb_get state_db s1) q ≡ load_account q layer
    account_at s1 all same =
        account_in-agrees (adb_get state_db s1) (apply_changes (commit layer) layer.state) q (
          kept s1 same
          ∙ (adb_get-adb_apply state_db good (Key.account q) (commit layer) s all ∙ rw below refl))
        ∙ account_in-commit q layer sound

    commit_state-IsProcessed :
        (e1 : E) (o : Bool × S)
        → events_db.metadata e1 ≡ some (height, events_db.op_count e)
        → state_db.commit height (state_db.op_count s) (adb_apply state_db (commit layer) s) ≡ o
        → IsProcessed q height txs landed s e (
            commit_state state_db events_db height
              (state_db.op_count s)
              (events_db.op_count e)
              r.1
              e1
              o)
    unfolding report
    commit_state-IsProcessed e1 (true, s1) events_at same = (
      metadata_at s1 same,
      events_at,
      elim (Bool-cases landed) [
        | inl all ↦ inr (ap (λ (a : Account). a.nonce) (account_at s1 all same) ∙ nonce)
        | inr some_lost ↦ inl some_lost
      ],
      told,
    )
    commit_state-IsProcessed e1 (false, s1) events_at same = inr events_at

    commit_events-IsProcessed :
        (e1 : E) (o : Bool × E)
        → events_db.commit height (events_db.op_count e) e1 ≡ o
        → IsProcessed q height txs landed s e (
            commit_events state_db events_db height
              (state_db.op_count s)
              (events_db.op_count e)
              r.1
              layer
              s
              o)
    commit_events-IsProcessed e1 (true, e2) same =
        commit_state-IsProcessed e2 _
          (grind (arith, good'.committed height (events_db.op_count e) e1)) refl
    commit_events-IsProcessed e1 (false, e2) same = inl refl

    append_outputs-IsProcessed :
        (o : Bool × E)
        → IsProcessed q height txs landed s e (
            append_outputs state_db events_db height
              (state_db.op_count s)
              (events_db.op_count e)
              r.1
              layer
              s
              o)
    append_outputs-IsProcessed (true, e1) = commit_events-IsProcessed e1 _ refl
    append_outputs-IsProcessed (false, e1) = inl refl

  commit_block-IsProcessed :
      (q : PublicKey) (height : ℕ) (txs : List Transaction) (seed : Seed) (s : S) (e : E)
      (o : Outcome (List Output × Nonces))
      → IsStateDb state_db
      → IsEventsDb events_db
      → Ensures o (After q txs [] (new_layer (adb_get state_db s) seed))
      → IsProcessed q height txs (lands_in s o) s e (commit_block state_db events_db height s e o)
  unfolding new_layer find
  commit_block-IsProcessed q height txs seed s e (done r layer) good good' h =
      append_outputs-IsProcessed good good' q height txs s e layer r h.2 h.3
        (rw (← load_account-new_layer q (adb_get state_db s) seed) h.0)
        (rw (← load_account-new_layer q (adb_get state_db s) seed) h.1)
        (append_all state_db events_db r.0 e)
  commit_block-IsProcessed q height txs seed s e (returned events layer) good good' h = tt
  commit_block-IsProcessed q height txs seed s e panicked good good' h = tt

  -- The next block, on databases that do what the library documents and agree on the height, where no
  -- two keys have the same digest. If the call succeeds, both databases are at its height; the account
  -- is reported with the nonce that its transactions alone give, if any of them counted; and the state
  -- has the account at that nonce, or one of the block's writes to the state did not land, which is no
  -- error of the call. If it fails, the state is as it was, or the events are already committed. It may
  -- panic.
  pub execute_state_transition-IsProcessed :
      (q : PublicKey) (height : ℕ) (seed : Seed) (txs : List Transaction) (s : S) (e : E)
      → IsStateDb state_db
      → IsEventsDb events_db
      → height < 2 ^ 64
      → height ≡ (or_start (state_db.metadata s)).0 + 1
      → (or_start (events_db.metadata e)).0 ≡ (or_start (state_db.metadata s)).0
      → IsProcessed q height txs
          (lands_in s (execute host split txs (new_layer (adb_get state_db s) seed)))
          s
          e
          (execute_state_transition state_db events_db host split height seed txs s e)
  unfolding execute_state_transition process_block
  execute_state_transition-IsProcessed q height seed txs s e good good' room next agree = ground (
    arith,
    commit_block-IsProcessed q height txs seed s e
        (execute host split txs (new_layer (adb_get state_db s) seed)) good good'
        (execute-After host split q txs (new_layer (adb_get state_db s) seed)
          (new_layer-IsSound (adb_get state_db s) seed)),
  )
