-- ===== src/Tests/Chain.antt =====
-- Blocks, proposals and the end of a tournament at concrete inputs.
use supersociety_battleware.Base.{
  ◌≢◌, false, Bool-cases, inl, inr, ℕ, ◌≡◌, refl, true, Option, none, some, List, [], ◌∷◌, arith,
}
use supersociety_battleware.Base.Assoc.{find, store, member}
use supersociety_battleware.Types.{
  key_eq, key_eq_refl, key_eq_sound, Key, Value, Transaction, TournamentPhase, Tournament,
}
use supersociety_battleware.Layer.{
  staker_at, Prepared, prepare, insert, pending_insert, memory_insert, memory_delete, new_layer,
  Layer, Status, Memory, Ensures, Finishes, get, pending_get, load_account, tournament_at,
}
use supersociety_battleware.Layer.Commit.{IsDistinct}
use supersociety_battleware.Layer.Frame.{IsSound}
use supersociety_battleware.Layer.Noncer.{new_noncer, noncer_account}
use supersociety_battleware.Casino.Interface.{Host}
use supersociety_battleware.Casino.Ending.{Split, handle_casino_end_tournament}
use supersociety_battleware.Casino.Ending.Laws.{IsOver, handle_casino_end_tournament-IsOver}
use supersociety_battleware.Mempool.{add, track}
use supersociety_battleware.Mempool.Nonces.{tree_insert}
use supersociety_battleware.Chain.{Output, execute, execute_loop, apply}
use supersociety_battleware.Chain.Execution.{After, execute-After}
use supersociety_battleware.Chain.Databases.{StateDb, EventsDb, IsStateDb, IsEventsDb, adb_get}
use supersociety_battleware.Chain.Transition.{execute_state_transition}
use supersociety_battleware.Chain.Transition.Laws.{
  Stays, lands_in, IsProcessed, execute_state_transition_elsewhere, execute_state_transition_stuck,
  execute_state_transition-IsProcessed,
}
use supersociety_battleware.Chain.Transition.Lost.{IsLost, execute_state_transition-IsLost}
use supersociety_battleware.Chain.Replay.{IsPassed, execute-IsPassed}
use supersociety_battleware.Proposal.Ancestors.{run_ancestors, IsExecuted, propose-IsExecuted}
use supersociety_battleware.Staking.{handle_unstake}
use supersociety_battleware.Proposal.{select, prepare_ancestors, propose}
use supersociety_battleware.Proposal.Selection.{HasRoom, IsSelected, select-IsSelected}
use supersociety_battleware.Tests.Data.{
  alice, bob, seed, empty_layer, layer_of, player_entry, lucky_game, host_of, tournament,
}
use supersociety_battleware.Tests.Mempool.{digest, unstake_at, busy, busy-IsPool}

abbrev host : Host
host = host_of lucky_game

-- One winner, who gets all.
abbrev split : Split
split = record { part_of = λ n. 1; payout = λ winners i pool. pool }

abbrev block : List Transaction
block = unstake_at 0 ∷ unstake_at 0 ∷ unstake_at 1 ∷ []

empty_layer-IsSound : IsSound empty_layer
unfolding IsSound IsDistinct
empty_layer-IsSound = tt

execute-After_example :
    Ensures (execute host split block empty_layer) (After alice block [] empty_layer)
execute-After_example = execute-After host split alice block empty_layer empty_layer-IsSound

-- A database in memory, with its last commit, and one of outputs. The keys are their own digests.
abbrev Stored : Type 0
Stored = Memory × Option (ℕ × ℕ)

abbrev Logged : Type 0
Logged = List Output × Option (ℕ × ℕ)

abbrev state_db : StateDb Stored Key
state_db = record {
  hash = λ k. k;
  metadata = λ s. s.1;
  op_count = λ s. 0;
  root = λ s. 0;
  get = λ s k. some (s.0 k);
  update = λ k v s. (true, (memory_insert k v s.0, s.1));
  delete = λ k s. (true, (memory_delete k s.0, s.1));
  commit = λ height start s. (true, (s.0, some (height, start)));
}

abbrev events_db : EventsDb Logged
events_db = record {
  metadata = λ e. e.1;
  op_count = λ e. 0;
  root = λ e. 0;
  append = λ o e. (true, (o ∷ e.0, e.1));
  commit = λ height start e. (true, (e.0, some (height, start)));
}

key_eq_other : (j k : Key) → j ≢ k → key_eq j k ≡ false
key_eq_other j k other = elim (Bool-cases (key_eq j k)) [
  | inl same ↦ absurd (other (key_eq_sound j k same))
  | inr differs ↦ differs
]

state_db-IsStateDb : IsStateDb state_db
unfolding memory_insert memory_delete
state_db-IsStateDb = record {
  distinct = λ j k same. same;
  committed = λ height start s h. refl;
  keeps = λ height start s d h. refl;
  updated = λ d v s h. rw (key_eq_refl d) refl;
  updated_elsewhere = λ d e v s h other. rw (key_eq_other d e other) refl;
  deleted = λ d s h. rw (key_eq_refl d) refl;
  deleted_elsewhere = λ d e s h other. rw (key_eq_other d e other) refl;
}

events_db-IsEventsDb : IsEventsDb events_db
events_db-IsEventsDb = record { committed = λ height start e h. refl }

abbrev fresh : Stored
fresh = (λ k. none, none)

execute_state_transition-IsProcessed_example :
    IsProcessed state_db events_db host split alice 1 block
      (lands_in state_db events_db host split fresh
        (execute host split block (new_layer (adb_get state_db fresh) seed)))
      fresh
      ([], none)
      (execute_state_transition state_db events_db host split 1 seed block fresh ([], none))
execute_state_transition-IsProcessed_example =
    execute_state_transition-IsProcessed state_db events_db host split alice 1 seed block fresh
      ([], none) state_db-IsStateDb events_db-IsEventsDb (omega arith) refl refl

-- A database that loses every write.
abbrev deaf_db : StateDb Stored Key
deaf_db = record state_db { update = λ k v s. (false, s); delete = λ k s. (false, s) }

deaf_db-IsStateDb : IsStateDb deaf_db
deaf_db-IsStateDb = record {
  distinct = λ j k same. same;
  committed = λ height start s h. refl;
  keeps = λ height start s d h. refl;
  updated = λ d v s h. absurd (ground arith);
  updated_elsewhere = λ d e v s h other. refl;
  deleted = λ d s h. absurd (ground arith);
  deleted_elsewhere = λ d e s h other. refl;
}

execute_state_transition-IsLost_example :
    IsLost deaf_db events_db host split
      (Key.account alice)
      1
      fresh
      (execute_state_transition deaf_db events_db host split 1 seed block fresh ([], none))
execute_state_transition-IsLost_example =
    execute_state_transition-IsLost deaf_db events_db host split (Key.account alice) 1 seed block
      fresh ([], none) deaf_db-IsStateDb
      (record { update_fails = λ d v s. refl; delete_fails = λ d s. refl })
      (record {
        appends = λ o e. refl;
        commits_events = λ height start e. refl;
        commits_state = λ height start s. refl;
      })
      (omega arith) refl refl

execute_state_transition_elsewhere_example :
    Stays state_db events_db host split fresh
      ([], none)
      (execute_state_transition state_db events_db host split 5 seed block fresh ([], none))
execute_state_transition_elsewhere_example =
    execute_state_transition_elsewhere state_db events_db host split 5 seed block fresh ([], none)
      (omega arith) (omega arith)

execute_state_transition_stuck_example :
    Stays state_db events_db host split fresh
      ([], some (1, 0))
      (execute_state_transition state_db events_db host split 1 seed block fresh ([], some (1, 0)))
execute_state_transition_stuck_example =
    execute_state_transition_stuck state_db events_db host split 1 seed block fresh
      ([], some (1, 0)) (omega arith) refl

busy-HasRoom : HasRoom busy
unfolding add track tree_insert find store member
busy-HasRoom d tx h = ground arith

select-IsSelected_example :
    IsSelected digest 2
      (λ q. (noncer_account q (new_noncer (λ k. none))).nonce)
      (select 4 2 (new_noncer (λ k. none)) busy)
unfolding add track tree_insert find store member
select-IsSelected_example =
    select-IsSelected digest 4 2 (new_noncer (λ k. none)) busy busy-IsPool busy-HasRoom
      (omega arith)

-- Two blocks of alice before the proposal.
abbrev ancestors : List (ℕ × List Transaction)
ancestors = (1, unstake_at 0 ∷ []) ∷ (2, unstake_at 0 ∷ unstake_at 1 ∷ []) ∷ []

abbrev state_by : Option Memory → Memory
state_by none = λ k. none
state_by (some m) = m

abbrev no_values : Memory
no_values k = none

abbrev final_state : Memory
final_state = state_by (run_ancestors host split (λ height. seed) 1 ancestors no_values)

ancestors_run : run_ancestors host split (λ height. seed) 1 ancestors no_values ≡ some final_state
unfolding run_ancestors execute execute_loop prepare load_account get pending_get apply
    handle_unstake new_layer staker_at insert pending_insert
ancestors_run = refl

propose-IsExecuted_example :
    IsExecuted host split
      (λ height. seed)
      (prepare_ancestors 1 ancestors (new_noncer no_values))
      final_state
      seed
      (propose no_values 1 ancestors busy)
propose-IsExecuted_example =
    propose-IsExecuted host split (λ height. seed) digest 1 ancestors no_values final_state seed
      busy busy-IsPool busy-HasRoom ancestors_run

abbrev accepted_layer : Prepared → Layer
accepted_layer (Prepared.ready l) = l
accepted_layer _ = empty_layer

accepted_layer-IsSound : IsSound (accepted_layer (prepare (unstake_at 0) empty_layer))
unfolding IsSound IsDistinct prepare load_account get pending_get insert pending_insert
accepted_layer-IsSound = (refl, tt)

execute-IsPassed_example :
    Ensures
      (execute host split block (accepted_layer (prepare (unstake_at 0) empty_layer)))
      (λ r l''. IsPassed (unstake_at 0) (prepare (unstake_at 0) l''))
unfolding prepare load_account get pending_get
execute-IsPassed_example =
    execute-IsPassed host split (unstake_at 0) block empty_layer
      (accepted_layer (prepare (unstake_at 0) empty_layer)) accepted_layer-IsSound refl

abbrev played : Tournament
played = record tournament {
  phase = TournamentPhase.active;
  prize_pool = 90;
  players = alice ∷ bob ∷ [];
}

abbrev played_layer : Layer
played_layer =
    layer_of (player_entry ∷ (Key.tournament 3, Status.update (Value.tournament played)) ∷ [])

handle_casino_end_tournament-IsOver_example :
    Finishes
      (handle_casino_end_tournament split bob 3 played_layer)
      (IsOver split 3 played alice 0 played_layer)
unfolding tournament_at get pending_get member
handle_casino_end_tournament-IsOver_example =
    handle_casino_end_tournament-IsOver split bob alice 3 0 played played_layer refl refl refl
