-- ===== src/Layer/Store.antt =====
-- The overlay of pending writes over the committed state (execution/src/layer/mod.rs `Layer`,
-- execution/src/state.rs `State`, `Status`, `Memory`). The pending map is an association list with
-- one entry for each key; the order of a `BTreeMap`'s entries is forgotten.
use supersociety_battleware.Base.{ℕ, Option, none, some, List, [], ◌∷◌, if◌then◌else◌}
use supersociety_battleware.Types.{Key, Value, key_eq}

pub data Status : Type 0 where
  update : Value → Status
  delete : Status

-- The seed of the block: its view, and its encoding, from which the games' randomness comes.
pub record Seed : Type 0 where
  pub view : ℕ
  pub encoded : List ℕ

-- A state: what `State::get` gives for each key.
abbrev pub Memory : Type 0
Memory = Key → Option Value

abbrev pub Pending : Type 0
Pending = List (Key × Status)

pub record Layer : Type 0 where
  pub state : Memory
  pub pending : Pending
  pub seed : Seed

unfoldable pub pending_get : Key → Pending → Option Status
pending_get k [] = none
pending_get k ((j, s) ∷ m) = if key_eq j k then some s else pending_get k m

unfoldable pub pending_insert : Key → Status → Pending → Pending
pending_insert k s [] = (k, s) ∷ []
pending_insert k s ((j, t) ∷ m) = if key_eq j k then (k, s) ∷ m else (j, t) ∷ pending_insert k s m

-- The value of a key under a pending status.
abbrev pub read_through : Option Status → Option Value → Option Value
read_through (some (Status.update v)) below = some v
read_through (some Status.delete) below = none
read_through none below = below

-- `Layer::get`
unfoldable pub get : Key → Layer → Option Value
get k l = read_through (pending_get k l.pending) (l.state k)

-- `Layer::insert`
unfoldable pub insert : Key → Value → Layer → Layer
insert k v l = record l { pending = pending_insert k (Status.update v) l.pending }

-- `Layer::delete`
unfoldable pub delete_key : Key → Layer → Layer
delete_key k l = record l { pending = pending_insert k Status.delete l.pending }

-- `Layer::new`
unfoldable pub new_layer : Memory → Seed → Layer
new_layer state seed = record { state = state; pending = []; seed = seed }

-- `Layer::commit`
unfoldable pub commit : Layer → Pending
commit l = l.pending

-- `Memory::insert` and `Memory::delete`
unfoldable pub memory_insert : Key → Value → Memory → Memory
memory_insert k v m j = if key_eq k j then some v else m j

unfoldable pub memory_delete : Key → Memory → Memory
memory_delete k m j = if key_eq k j then none else m j

abbrev pub apply_status : Key → Status → Memory → Memory
apply_status k (Status.update v) m = memory_insert k v m
apply_status k Status.delete m = memory_delete k m

-- `State::apply`
unfoldable pub apply_changes : Pending → Memory → Memory
apply_changes [] m = m
apply_changes ((k, s) ∷ rest) m = apply_changes rest (apply_status k s m)
