-- ===== src/Chain/Writes.antt =====
-- The writes of a block to the database of the state.
use supersociety_battleware.Base.{
  ◌≡◌, ◌≢◌, refl, ◌∙◌, true, false, [], ◌∷◌, arith, Bool-cases, inl, inr,
}
use supersociety_battleware.Types.{Key, key_eq, key_eq_refl, key_eq_sound}
use supersociety_battleware.Layer.{
  Status, Pending, memory_insert, memory_delete, apply_status, apply_changes,
}
use supersociety_battleware.Layer.Commit.{apply_changes-agrees}
use supersociety_battleware.Chain.Databases.{
  StateDb, IsStateDb, adb_get, write_status, adb_apply, all_landed,
}

key_differs : (j k : Key) → key_eq j k ≡ false → j ≢ k
key_differs j k other same = cc (key_eq_refl j)

module _ {S D : Type 0} (db : StateDb S D) (good : IsStateDb db) where
  hash_differs : (j k : Key) → key_eq j k ≡ false → db.hash j ≢ db.hash k
  hash_differs j k other same = key_differs j k other (good.distinct j k same)

  -- A write that lands is read like one to a state in memory.
  adb_get-write_status :
      (j k : Key) (status : Status) (s : S)
      → (write_status db j status s).0 ≡ true
      → adb_get db (write_status db j status s).1 k ≡ apply_status j status (adb_get db s) k
  unfolding adb_get memory_insert memory_delete
  adb_get-write_status j k (Status.update v) s landed = elim (Bool-cases (key_eq j k)) [
    | inl same ↦ rw (same, ← key_eq_sound j k same, good.updated (db.hash j) v s landed) refl
    | inr other ↦
        rw
          (
            other,
            good.updated_elsewhere (db.hash j) (db.hash k) v s landed (hash_differs j k other),
          )
          refl
  ]
  adb_get-write_status j k Status.delete s landed = elim (Bool-cases (key_eq j k)) [
    | inl same ↦ rw (same, ← key_eq_sound j k same, good.deleted (db.hash j) s landed) refl
    | inr other ↦
        rw (other, good.deleted_elsewhere (db.hash j) (db.hash k) s landed (hash_differs j k other))
          refl
  ]

  -- Changes that all land are read like those to a state in memory.
  pub adb_get-adb_apply :
      (k : Key) (changes : Pending) (s : S)
      → all_landed db changes s ≡ true
      → adb_get db (adb_apply db changes s) k ≡ apply_changes changes (adb_get db s) k
  unfolding all_landed adb_apply apply_changes
  adb_get-adb_apply k [] s landed = refl
  adb_get-adb_apply k ((j, status) ∷ rest) s landed =
      adb_get-adb_apply k rest (write_status db j status s).1 (ground arith)
      ∙ apply_changes-agrees k rest (adb_get db (write_status db j status s).1)
          (apply_status j status (adb_get db s)) (adb_get-write_status j k status s (ground arith))
