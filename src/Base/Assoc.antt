-- ===== src/Base/Assoc.antt =====
-- Maps and sets with numbers as keys: association lists and lists, with the laws of a read after a
-- write.
use Prim.Native.Nat.{ℕ, ◌+◌, ◌≤◌, ◌<◌}
use mathlib.Core.Path.{◌≡◌, refl}
use mathlib.Core.Bool.{Bool, true, false}
use mathlib.Core.List.{List, [], ◌∷◌, ◌++◌}
use mathlib.Core.Option.{Option, none, some}
use native.Mathlib.Omega.{arith}
use supersociety_battleware.Base.Tests.{◌==◌, if◌then◌else◌}
use supersociety_battleware.Base.Lists.{length}

module _ {ℓ} {V : Type ℓ} where
  -- The value of a key.
  unfoldable pub find : ℕ → List (ℕ × V) → Option V
  find k [] = none
  find k ((j, v) ∷ m) = if j == k then some v else find k m

  unfoldable pub store : ℕ → V → List (ℕ × V) → List (ℕ × V)
  store k v [] = (k, v) ∷ []
  store k v ((j, w) ∷ m) = if j == k then (k, v) ∷ m else (j, w) ∷ store k v m

  unfoldable pub erase : ℕ → List (ℕ × V) → List (ℕ × V)
  erase k [] = []
  erase k ((j, v) ∷ m) = if j == k then erase k m else (j, v) ∷ erase k m

  pub find-store :
      (k j : ℕ) (v : V) (m : List (ℕ × V))
      → find k (store j v m) ≡ (if j == k then some v else find k m)
  unfolding find store
  find-store k j v [] = refl
  find-store k j v ((i, w) ∷ m) = ground (arith, find-store k j v m)

  pub find-erase :
      (k j : ℕ) (m : List (ℕ × V)) → find k (erase j m) ≡ (if j == k then none else find k m)
  unfolding find erase
  find-erase k j [] = ground arith
  find-erase k j ((i, w) ∷ m) = ground (arith, find-erase k j m)

  pub length-store : (k : ℕ) (v : V) (m : List (ℕ × V)) → length (store k v m) ≤ length m + 1
  unfolding store
  length-store k v [] = omega arith
  length-store k v ((j, w) ∷ m) = ground (arith, length-store k v m)

  pub length-erase : (k : ℕ) (m : List (ℕ × V)) → length (erase k m) ≤ length m
  unfolding erase
  length-erase k [] = omega arith
  length-erase k ((j, w) ∷ m) = ground (arith, length-erase k m)

  pub length-erase_found :
      (k : ℕ) (v : V) (m : List (ℕ × V)) → find k m ≡ some v → length (erase k m) < length m
  unfolding find erase
  length-erase_found k v [] h = ground arith
  length-erase_found k v ((j, w) ∷ m) h = ground (arith, length-erase k m, length-erase_found k v m)

-- Is the number in the set?
unfoldable pub member : ℕ → List ℕ → Bool
member k [] = false
member k (j ∷ s) = if j == k then true else member k s

unfoldable pub remove : ℕ → List ℕ → List ℕ
remove k [] = []
remove k (j ∷ s) = if j == k then remove k s else j ∷ remove k s

-- The numbers that are also in the set.
unfoldable pub keep_members : List ℕ → List ℕ → List ℕ
keep_members s [] = []
keep_members s (j ∷ q) = if member j s then j ∷ keep_members s q else keep_members s q

pub member-remove :
    (k j : ℕ) (s : List ℕ) → member k (remove j s) ≡ (if j == k then false else member k s)
unfolding member remove
member-remove k j [] = ground arith
member-remove k j (i ∷ s) = ground (arith, member-remove k j s)

pub member-append :
    (k j : ℕ) (s : List ℕ) → member k (s ++ j ∷ []) ≡ (if j == k then true else member k s)
unfolding member
member-append k j [] = refl
member-append k j (i ∷ s) = ground (arith, member-append k j s)

pub member-keep_members :
    (k : ℕ) (s q : List ℕ)
    → member k (keep_members s q) ≡ (if member k s then member k q else false)
unfolding member keep_members
member-keep_members k s [] = ground arith
member-keep_members k s (j ∷ q) = ground (arith, member-keep_members k s q)

pub length-keep_members : (s q : List ℕ) → length (keep_members s q) ≤ length q
unfolding keep_members
length-keep_members s [] = omega arith
length-keep_members s (j ∷ q) = ground (arith, length-keep_members s q)

pub ruleset assoc_laws = (find-store, find-erase, member-remove, member-append, member-keep_members)
