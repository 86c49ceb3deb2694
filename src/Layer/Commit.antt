-- ===== src/Layer/Commit.antt =====
-- The overlay is faithful: what it reads is what the state holds once its changes are applied.
use supersociety_battleware.Base.{◌≡◌, refl, ◌∙◌, none, List, [], ◌∷◌, arith, Bool-cases, inl, inr}
use supersociety_battleware.Types.{Key, key_eq, key_eq_sound, key_eq_distinct}
use supersociety_battleware.Layer.Laws.{pending_get-insert, get-insert, get-delete_key}
use supersociety_battleware.Layer.Store.{
  Status, Pending, Layer, Memory, Seed, pending_get, pending_insert, get, insert, delete_key,
  new_layer, commit, read_through, apply_status, apply_changes, memory_insert, memory_delete,
}

-- Each key stands in the list of changes at most once.
unfoldable pub IsDistinct : Pending → Type 0
IsDistinct [] = Unit
IsDistinct ((k, s) ∷ m) = (pending_get k m ≡ none) × IsDistinct m

pub IsDistinct-pending_insert :
    (k : Key) (s : Status) (m : Pending) → IsDistinct m → IsDistinct (pending_insert k s m)
unfolding IsDistinct pending_insert pending_get
IsDistinct-pending_insert k s [] d = grind arith
IsDistinct-pending_insert k s ((j, t) ∷ m) d = grind (
  arith,
  IsDistinct-pending_insert k s m d.1,
  pending_get-insert j k s m,
  key_eq_sound j k,
  key_eq_distinct,
)

-- Applying changes gives each key its pending status over what was there.
pub apply_changes_lem :
    (k : Key) (m : Pending) (state : Memory)
    → IsDistinct m
    → apply_changes m state k ≡ read_through (pending_get k m) (state k)
unfolding IsDistinct apply_changes pending_get memory_insert memory_delete
apply_changes_lem k [] state d = refl
apply_changes_lem k ((j, s) ∷ m) state d = elim (Bool-cases (key_eq j k)) [
  | inl same ↦
      grind (arith, apply_changes_lem k m (apply_status j s state) d.1, key_eq_sound j k same)
  | inr other ↦ grind (arith, apply_changes_lem k m (apply_status j s state) d.1)
]

-- Writes, in their order, to a layer.
abbrev pub write : Key × Status → Layer → Layer
write (k, Status.update v) l = insert k v l
write (k, Status.delete) l = delete_key k l

pub writes : List (Key × Status) → Layer → Layer
writes [] l = l
writes (w ∷ ws) l = writes ws (write w l)

writes-IsDistinct :
    (ws : List (Key × Status)) (l : Layer) → IsDistinct l.pending → IsDistinct (writes ws l).pending
unfolding writes insert delete_key
writes-IsDistinct [] l d = d
writes-IsDistinct ((k, Status.update v) ∷ ws) l d =
    writes-IsDistinct ws (insert k v l) (IsDistinct-pending_insert k (Status.update v) l.pending d)
writes-IsDistinct ((k, Status.delete) ∷ ws) l d =
    writes-IsDistinct ws (delete_key k l) (IsDistinct-pending_insert k Status.delete l.pending d)

state-writes : (ws : List (Key × Status)) (l : Layer) → (writes ws l).state ≡ l.state
unfolding writes insert delete_key
state-writes [] l = refl
state-writes ((k, Status.update v) ∷ ws) l = state-writes ws (insert k v l)
state-writes ((k, Status.delete) ∷ ws) l = state-writes ws (delete_key k l)

-- Changes to states that agree on a key give states that agree on it.
pub apply_changes-agrees :
    (k : Key) (ws : Pending) (m n : Memory)
    → m k ≡ n k
    → apply_changes ws m k ≡ apply_changes ws n k
unfolding apply_changes memory_insert memory_delete
apply_changes-agrees k [] m n e = e
apply_changes-agrees k ((j, Status.update v) ∷ ws) m n e =
    apply_changes-agrees k ws (memory_insert j v m) (memory_insert j v n) (rw e refl)
apply_changes-agrees k ((j, Status.delete) ∷ ws) m n e =
    apply_changes-agrees k ws (memory_delete j m) (memory_delete j n) (rw e refl)

get-writes :
    (k : Key) (ws : List (Key × Status)) (l : Layer)
    → get k (writes ws l) ≡ apply_changes ws (λ j. get j l) k
unfolding writes apply_changes memory_insert memory_delete
get-writes k [] l = refl
get-writes k ((j, Status.update v) ∷ ws) l =
    get-writes k ws (insert j v l)
    ∙ apply_changes-agrees k ws (λ i. get i (insert j v l)) (memory_insert j v (λ i. get i l))
        (get-insert k j v l)
get-writes k ((j, Status.delete) ∷ ws) l =
    get-writes k ws (delete_key j l)
    ∙ apply_changes-agrees k ws (λ i. get i (delete_key j l)) (memory_delete j (λ i. get i l))
        (get-delete_key k j l)

-- After any writes and deletions on a new layer, what the layer reads at a key, what the state
-- holds there once the committed changes are applied to it, and what it holds once the writes are
-- made directly and in order, are the same.
pub commit-writes :
    (ws : List (Key × Status)) (state : Memory) (seed : Seed) (k : Key)
    → let l = writes ws (new_layer state seed) in
      (get k l ≡ apply_changes ws state k) × (apply_changes (commit l) state k ≡ get k l)
unfolding commit new_layer get pending_get IsDistinct
commit-writes ws state seed k =
    let l : Layer = writes ws (new_layer state seed) in
    (
      get-writes k ws (new_layer state seed),
      rw (state-writes ws (new_layer state seed))
          (apply_changes_lem k l.pending state (writes-IsDistinct ws (new_layer state seed) tt)),
    )
