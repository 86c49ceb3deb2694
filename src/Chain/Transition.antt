-- ===== src/Chain/Transition.antt =====
-- `execute_state_transition` of execution/src/state_transition.rs.
pub mod Laws
pub mod Lost
use supersociety_battleware.Base.{
  ℕ, ◌+◌, ◌==◌, ltb, ◌^◌, Bool, true, false, not, ◌&&◌, ◌||◌, Option, none, some, List, [], ◌∷◌,
  if◌then◌else◌,
}
use supersociety_battleware.Types.{Transaction}
use supersociety_battleware.Layer.{
  Layer, Outcome, done, returned, panicked, Seed, new_layer, commit,
}
use supersociety_battleware.Casino.Interface.{Host}
use supersociety_battleware.Casino.Ending.{Split}
use supersociety_battleware.Chain.{Output, Nonces, execute}
use supersociety_battleware.Chain.Databases.{StateDb, EventsDb, adb_get, adb_apply}

pub record StateTransitionResult : Type 0 where
  pub state_root : ℕ
  pub state_start_op : ℕ
  pub state_end_op : ℕ
  pub events_root : ℕ
  pub events_start_op : ℕ
  pub events_end_op : ℕ
  pub processed_nonces : Nonces

-- The databases after the call, and its result: the roots, or an error; or the call panicked.
pub data Ended (S E : Type 0) : Type 0 where
  finished : S → E → StateTransitionResult → Ended S E
  failed : S → E → Ended S E
  crashed : Ended S E

-- `.unwrap_or((0, 0))`
abbrev pub or_start : Option (ℕ × ℕ) → ℕ × ℕ
or_start none = (0, 0)
or_start (some m) = m

module _ {S D E : Type 0} (state_db : StateDb S D) (events_db : EventsDb E) where
  -- The outputs are appended in their order, up to an error.
  unfoldable pub append_all : List Output → E → Bool × E
  append_all [] e = (true, e)
  append_all (o ∷ os) e =
      let rest = append_all os (events_db.append o e).1 in
      if (events_db.append o e).0 then rest else events_db.append o e

  -- The last part: the roots.
  unfoldable pub report : ℕ → ℕ → Nonces → S → E → Ended S E
  report state_start_op events_start_op nonces s e = finished s e (record {
    state_root = state_db.root s;
    state_start_op = state_start_op;
    state_end_op = state_db.op_count s;
    events_root = events_db.root e;
    events_start_op = events_start_op;
    events_end_op = events_db.op_count e;
    processed_nonces = nonces;
  })

  -- From the commit of the state on.
  abbrev pub commit_state : ℕ → ℕ → ℕ → Nonces → E → Bool × S → Ended S E
  commit_state height state_start_op events_start_op nonces e (true, s) =
      report state_start_op events_start_op nonces s e
  commit_state height state_start_op events_start_op nonces e (false, s) = failed s e

  -- From the commit of the events on: the state is applied only then.
  abbrev pub commit_events : ℕ → ℕ → ℕ → Nonces → Layer → S → Bool × E → Ended S E
  commit_events height state_start_op events_start_op nonces layer s (true, e) =
      commit_state height state_start_op events_start_op nonces e
        (state_db.commit height state_start_op (adb_apply state_db (commit layer) s))
  commit_events height state_start_op events_start_op nonces layer s (false, e) = failed s e

  abbrev pub append_outputs : ℕ → ℕ → ℕ → Nonces → Layer → S → Bool × E → Ended S E
  append_outputs height state_start_op events_start_op nonces layer s (true, e) =
      commit_events height state_start_op events_start_op nonces layer s
        (events_db.commit height events_start_op e)
  append_outputs height state_start_op events_start_op nonces layer s (false, e) = failed s e

  abbrev pub commit_block : ℕ → S → E → Outcome (List Output × Nonces) → Ended S E
  commit_block height s e (done (outputs, nonces) layer) =
      append_outputs height (state_db.op_count s) (events_db.op_count e) nonces layer s
        (append_all outputs e)
  commit_block height s e (returned events layer) = crashed
  commit_block height s e panicked = crashed

  module _ (host : Host) (split : Split) where
    -- The next block, on databases that agree.
    unfoldable pub process_block : ℕ → Seed → List Transaction → S → E → Ended S E
    process_block height seed txs s e =
        commit_block height s e (execute host split txs (new_layer (adb_get state_db s) seed))

    -- The next height is computed on 64 bits, whatever height is asked for.
    unfoldable pub execute_state_transition : ℕ → Seed → List Transaction → S → E → Ended S E
    execute_state_transition height seed txs s e =
        let at_state = or_start (state_db.metadata s) in
        let at_events = or_start (events_db.metadata e) in
        if not (ltb (at_state.0 + 1) (2 ^ 64))
        then crashed
        else if height == at_state.0
        then report at_state.1 at_events.1 [] s e
        else if not (height == at_state.0 + 1)
        then report (state_db.op_count s) (events_db.op_count e) [] s e
        else if not (at_events.0 == at_state.0)
        then failed s e
        else process_block height seed txs s e
