-- ===== src/Chain/Transition/Lost.antt =====
-- Writes of a block that are lost: the error path of `impl State for Adb`.
use supersociety_battleware.Base.{
  ℕ, ◌+◌, ◌^◌, ◌<◌, ◌≡◌, refl, ◌∙◌, ap, Bool, true, false, some, List, [], ◌∷◌, arith,
}
use supersociety_battleware.Types.{Key, Value, Transaction}
use supersociety_battleware.Layer.{
  Layer, Status, Pending, Outcome, done, returned, panicked, Seed, new_layer, commit,
}
use supersociety_battleware.Casino.Interface.{Host}
use supersociety_battleware.Casino.Ending.{Split}
use supersociety_battleware.Chain.{Output, Nonces, execute}
use supersociety_battleware.Chain.Databases.{
  StateDb, EventsDb, IsStateDb, adb_get, write_status, adb_apply,
}
use supersociety_battleware.Chain.Transition.{
  Ended, or_start, append_all, report, commit_state, commit_events, append_outputs, commit_block,
  process_block, execute_state_transition,
}

module _ {S D E : Type 0} (state_db : StateDb S D) (events_db : EventsDb E) (host : Host)
    (split : Split) where
  -- Every write fails, and leaves the database as it is.
  pub record LosesWrites : Type 0 where
    pub update_fails : (d : D) (v : Value) (s : S) → state_db.update d v s ≡ (false, s)
    pub delete_fails : (d : D) (s : S) → state_db.delete d s ≡ (false, s)

  -- Nothing else fails: the appends of events, and the two commits.
  pub record CommitsAll : Type 0 where
    pub appends : (o : Output) (e : E) → (events_db.append o e).0 ≡ true
    pub commits_events : (height start : ℕ) (e : E) → (events_db.commit height start e).0 ≡ true
    pub commits_state : (height start : ℕ) (s : S) → (state_db.commit height start s).0 ≡ true

  -- The call succeeds, at the height of the block; but at the key the state has the old value.
  abbrev pub IsLost : Key → ℕ → S → Ended S E → Type 0
  IsLost k height s (Ended.finished s' e' r) =
      (state_db.metadata s' ≡ some (height, state_db.op_count s))
      × (adb_get state_db s' k ≡ adb_get state_db s k)
  IsLost k height s (Ended.failed s' e') = ⊥
  IsLost k height s Ended.crashed = Unit

  write_status-lost :
      (k : Key) (status : Status) (s : S) → LosesWrites → (write_status state_db k status s).1 ≡ s
  write_status-lost k (Status.update v) s loses =
      ap (λ (o : Bool × S). o.1) (loses.update_fails (state_db.hash k) v s)
  write_status-lost k Status.delete s loses =
      ap (λ (o : Bool × S). o.1) (loses.delete_fails (state_db.hash k) s)

  adb_apply-lost : (changes : Pending) (s : S) → LosesWrites → adb_apply state_db changes s ≡ s
  unfolding adb_apply
  adb_apply-lost [] s loses = refl
  adb_apply-lost ((k, status) ∷ rest) s loses =
      adb_apply-lost rest (write_status state_db k status s).1 loses
      ∙ write_status-lost k status s loses

  append_all_commits :
      (os : List Output) (e : E) → CommitsAll → (append_all state_db events_db os e).0 ≡ true
  unfolding append_all
  append_all_commits [] e all = refl
  append_all_commits (o ∷ os) e all =
      ground (arith, all.appends o e, append_all_commits os (events_db.append o e).1 all)

  module _ (good : IsStateDb state_db) (loses : LosesWrites) (all : CommitsAll) (k : Key)
      (height : ℕ) (s : S) (nonces : Nonces) (start_op : ℕ) (layer : Layer) where
    commit_state-IsLost :
        (e : E) (o : Bool × S)
        → state_db.commit height (state_db.op_count s) (adb_apply state_db (commit layer) s) ≡ o
        → IsLost k height s
            (commit_state state_db events_db height (state_db.op_count s) start_op nonces e o)
    unfolding report adb_get
    commit_state-IsLost e (true, s1) same = (
      grind (
        arith,
        good.committed height (state_db.op_count s) s,
        adb_apply-lost (commit layer) s loses,
      ),
      grind (
        arith,
        good.keeps height (state_db.op_count s) s (state_db.hash k),
        adb_apply-lost (commit layer) s loses,
      ),
    )
    commit_state-IsLost e (false, s1) same = absurd (
        grind (
          arith,
          all.commits_state height (state_db.op_count s) (adb_apply state_db (commit layer) s),
        ))

    commit_events-IsLost :
        (o : Bool × E)
        → o.0 ≡ true
        → IsLost k height s (
            commit_events state_db events_db height (state_db.op_count s) start_op nonces layer s o)
    commit_events-IsLost (true, e) ok = commit_state-IsLost e _ refl
    commit_events-IsLost (false, e) ok = absurd (ground arith)

    append_outputs-IsLost :
        (o : Bool × E)
        → o.0 ≡ true
        → IsLost k height s (
            append_outputs state_db events_db height
              (state_db.op_count s)
              start_op
              nonces
              layer
              s
              o)
    append_outputs-IsLost (true, e) ok =
        commit_events-IsLost (events_db.commit height start_op e)
          (all.commits_events height start_op e)
    append_outputs-IsLost (false, e) ok = absurd (ground arith)

  commit_block-IsLost :
      (k : Key) (height : ℕ) (s : S) (e : E) (o : Outcome (List Output × Nonces))
      → IsStateDb state_db
      → LosesWrites
      → CommitsAll
      → IsLost k height s (commit_block state_db events_db height s e o)
  commit_block-IsLost k height s e (done r layer) good loses all =
      append_outputs-IsLost good loses all k height s r.1 (events_db.op_count e) layer
        (append_all state_db events_db r.0 e) (append_all_commits r.0 e all)
  commit_block-IsLost k height s e (returned events layer) good loses all = tt
  commit_block-IsLost k height s e panicked good loses all = tt

  -- The next block, on databases that agree on the height, where every write to the state fails and
  -- nothing else does: unless the block panics, the call succeeds and commits the state at the block's
  -- height, with the old value at every key.
  pub execute_state_transition-IsLost :
      (k : Key) (height : ℕ) (seed : Seed) (txs : List Transaction) (s : S) (e : E)
      → IsStateDb state_db
      → LosesWrites
      → CommitsAll
      → height < 2 ^ 64
      → height ≡ (or_start (state_db.metadata s)).0 + 1
      → (or_start (events_db.metadata e)).0 ≡ (or_start (state_db.metadata s)).0
      → IsLost k height s
          (execute_state_transition state_db events_db host split height seed txs s e)
  unfolding execute_state_transition process_block
  execute_state_transition-IsLost k height seed txs s e good loses all room next agree = ground (
    arith,
    commit_block-IsLost k height s e (execute host split txs (new_layer (adb_get state_db s) seed))
        good loses all,
  )
