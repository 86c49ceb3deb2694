-- ===== src/Chain/Databases.antt =====
-- The two databases of `execute_state_transition`, which are a library's, and the `State` of the
-- first: `impl State for Adb` of execution/src/state.rs.
use supersociety_battleware.Base.{ℕ, ◌≡◌, ◌≢◌, Option, none, some, Bool, true, ◌&&◌, [], ◌∷◌}
use supersociety_battleware.Types.{Key, Value}
use supersociety_battleware.Layer.{Status, Pending, Memory}
use supersociety_battleware.Chain.{Output}

-- The database of the state, by digests `D` of keys. Each call may fail; a write that fails is told by
-- `false`, a read that fails by `none`.
pub record StateDb (S D : Type 0) : Type 0 where
  -- SHA-256 over the encoded key.
  pub hash : Key → D
  -- The height and the start of the last commit, by `get_metadata`; an error counts as none.
  pub metadata : S → Option (ℕ × ℕ)
  pub op_count : S → ℕ
  pub root : S → ℕ
  pub get : S → D → Option (Option Value)
  pub update : D → Value → S → Bool × S
  pub delete : D → S → Bool × S
  pub commit : ℕ → ℕ → S → Bool × S

pub record EventsDb (E : Type 0) : Type 0 where
  pub metadata : E → Option (ℕ × ℕ)
  pub op_count : E → ℕ
  pub root : E → ℕ
  pub append : Output → E → Bool × E
  pub commit : ℕ → ℕ → E → Bool × E

-- An error of a read is logged, and counts as no value.
abbrev pub or_absent : Option (Option Value) → Option Value
or_absent none = none
or_absent (some v) = v

module _ {S D : Type 0} (db : StateDb S D) where
  -- `State::get` of `Adb`.
  unfoldable pub adb_get : S → Memory
  adb_get s k = or_absent (db.get s (db.hash k))

  -- `State::insert` and `State::delete` of `Adb`: whether the write landed, and the database after it.
  abbrev pub write_status : Key → Status → S → Bool × S
  write_status k (Status.update v) s = db.update (db.hash k) v s
  write_status k Status.delete s = db.delete (db.hash k) s

  -- `State::apply` on `Adb`: an error of a write is only logged, and the rest goes on.
  unfoldable pub adb_apply : Pending → S → S
  adb_apply [] s = s
  adb_apply ((k, status) ∷ rest) s = adb_apply rest (write_status k status s).1

  -- Did every write land?
  unfoldable pub all_landed : Pending → S → Bool
  all_landed [] s = true
  all_landed ((k, status) ∷ rest) s =
      (write_status k status s).0 && all_landed rest (write_status k status s).1

-- What a database of the library documents: a commit is found again and changes no value; a write
-- that lands is read, and changes nothing at other digests.
pub record IsStateDb {S D : Type 0} (db : StateDb S D) : Type 0 where
  -- No two keys have the same digest.
  pub distinct : (j k : Key) → db.hash j ≡ db.hash k → j ≡ k
  pub committed :
      (height start : ℕ) (s : S)
      → (db.commit height start s).0 ≡ true
      → db.metadata (db.commit height start s).1 ≡ some (height, start)
  pub keeps :
      (height start : ℕ) (s : S) (d : D)
      → (db.commit height start s).0 ≡ true
      → db.get (db.commit height start s).1 d ≡ db.get s d
  pub updated :
      (d : D) (v : Value) (s : S)
      → (db.update d v s).0 ≡ true
      → db.get (db.update d v s).1 d ≡ some (some v)
  pub updated_elsewhere :
      (d e : D) (v : Value) (s : S)
      → (db.update d v s).0 ≡ true
      → d ≢ e
      → db.get (db.update d v s).1 e ≡ db.get s e
  pub deleted : (d : D) (s : S) → (db.delete d s).0 ≡ true → db.get (db.delete d s).1 d ≡ some none
  pub deleted_elsewhere :
      (d e : D) (s : S) → (db.delete d s).0 ≡ true → d ≢ e → db.get (db.delete d s).1 e ≡ db.get s e

pub record IsEventsDb {E : Type 0} (db : EventsDb E) : Type 0 where
  pub committed :
      (height start : ℕ) (e : E)
      → (db.commit height start e).0 ≡ true
      → db.metadata (db.commit height start e).1 ≡ some (height, start)
