-- ===== src/Layer/Laws.antt =====
-- The laws of the overlay: a read after a write.
use supersociety_battleware.Base.{
  none, some, [], ◌∷◌, ◌≡◌, refl, ap, Bool-cases, inl, inr, if◌then◌else◌,
}
use supersociety_battleware.Types.{Key, Value, key_eq, key_eq_sound, key_eq_distinct}
use supersociety_battleware.Layer.Store.{
  Status, Pending, Layer, pending_get, pending_insert, get, insert, delete_key,
}

pub pending_get-insert :
    (k j : Key) (s : Status) (m : Pending)
    → pending_get k (pending_insert j s m) ≡ (if key_eq j k then some s else pending_get k m)
unfolding pending_get pending_insert
pending_get-insert k j s [] = refl
pending_get-insert k j s ((i, t) ∷ m) = elim (Bool-cases (key_eq i j)) [
  | inl same ↦
      let e : key_eq i k ≡ key_eq j k = ap (λ x. key_eq x k) (key_eq_sound i j same) in
      elim (Bool-cases (key_eq j k)) [ inl q ↦ rw (same, q) | inr q ↦ rw (same, e, q) ]
  | inr other ↦ elim (Bool-cases (key_eq i k)) [
    | inl q ↦ rw (other, q, key_eq_distinct i j k other q)
    | inr q ↦ rw (other, q) (pending_get-insert k j s m)
  ]
]

-- A read after a write gives the value written, or what was there at another key.
pub get-insert :
    (k j : Key) (v : Value) (l : Layer)
    → get k (insert j v l) ≡ (if key_eq j k then some v else get k l)
unfolding get insert
get-insert k j v l = elim (Bool-cases (key_eq j k)) [
  | inl q ↦ rw (pending_get-insert k j (Status.update v) l.pending, q)
  | inr q ↦ rw (pending_get-insert k j (Status.update v) l.pending, q)
]

pub get-delete_key :
    (k j : Key) (l : Layer) → get k (delete_key j l) ≡ (if key_eq j k then none else get k l)
unfolding get delete_key
get-delete_key k j l = elim (Bool-cases (key_eq j k)) [
  | inl q ↦ rw (pending_get-insert k j Status.delete l.pending, q)
  | inr q ↦ rw (pending_get-insert k j Status.delete l.pending, q)
]

pub seed-insert : (k : Key) (v : Value) (l : Layer) → (insert k v l).seed ≡ l.seed
unfolding insert
seed-insert k v l = refl
