-- ===== src/Mempool/Nonces.antt =====
-- The transactions of one account by nonce, a `BTreeMap<u64, Digest>`: a list of nonces and digests
-- in ascending order of nonces.
use supersociety_battleware.Base.{
  ℕ, ◌+◌, ◌≤◌, ◌<◌, ◌≡◌, refl, none, some, List, [], ◌∷◌, arith, ltb, ◌==◌, if◌then◌else◌, length,
}
use supersociety_battleware.Base.Assoc.{find}

abbrev pub Backlog : Type 0
Backlog = List (ℕ × ℕ)

-- `insert`
unfoldable pub tree_insert : ℕ → ℕ → Backlog → Backlog
tree_insert n d [] = (n, d) ∷ []
tree_insert n d ((m, c) ∷ e) =
    if ltb n m
    then (n, d) ∷ (m, c) ∷ e
    else if m == n
    then (n, d) ∷ e
    else (m, c) ∷ tree_insert n d e

-- The last entry, and the entries before it, as `pop_last` splits them.
unfoldable pub last_entry : ℕ × ℕ → Backlog → ℕ × ℕ
last_entry x [] = x
last_entry x (y ∷ e) = last_entry y e

unfoldable pub before_last : ℕ × ℕ → Backlog → Backlog
before_last x [] = []
before_last x (y ∷ e) = x ∷ before_last y e

-- `while the first nonce is below min { pop_first }`: what is left.
unfoldable pub drop_below : ℕ → Backlog → Backlog
drop_below min [] = []
drop_below min ((n, d) ∷ e) = if ltb n min then drop_below min e else (n, d) ∷ e

-- All nonces are above `n`.
abbrev pub Above : ℕ → Backlog → Type 0
Above n [] = Unit
Above n ((m, c) ∷ e) = (n < m) × Above m e

abbrev pub IsAscending : Backlog → Type 0
IsAscending [] = Unit
IsAscending ((n, d) ∷ e) = Above n e

pub find-tree_insert :
    (k n d : ℕ) (e : Backlog) → find k (tree_insert n d e) ≡ (if n == k then some d else find k e)
unfolding find tree_insert
find-tree_insert k n d [] = refl
find-tree_insert k n d ((m, c) ∷ e) = ground (arith, find-tree_insert k n d e)

Above-tree_insert : (b n d : ℕ) (e : Backlog) → b < n → Above b e → Above b (tree_insert n d e)
unfolding tree_insert
Above-tree_insert b n d [] h a = (h, tt)
Above-tree_insert b n d ((m, c) ∷ e) h a = ground (arith, Above-tree_insert m n d e)

pub IsAscending-tree_insert :
    (n d : ℕ) (e : Backlog) → IsAscending e → IsAscending (tree_insert n d e)
unfolding tree_insert
IsAscending-tree_insert n d [] a = tt
IsAscending-tree_insert n d ((m, c) ∷ e) a = ground (arith, Above-tree_insert m n d e)

-- A nonce that is no more than the bound is not there.
pub find-Above : (n k : ℕ) (e : Backlog) → Above n e → k ≤ n → find k e ≡ none
unfolding find
find-Above n k [] a h = refl
find-Above n k ((m, c) ∷ e) a h = ground (arith, find-Above m k e)

Above-weaken : (n b : ℕ) (e : Backlog) → Above n e → b ≤ n → Above b e
Above-weaken n b [] a h = tt
Above-weaken n b ((m, c) ∷ e) a h = (omega arith, a.1)

pub IsAscending-tail : (x : ℕ × ℕ) (e : Backlog) → IsAscending (x ∷ e) → IsAscending e
IsAscending-tail (n, d) [] a = tt
IsAscending-tail (n, d) ((m, c) ∷ e) a = a.1

Above-before_last : (b : ℕ) (x : ℕ × ℕ) (e : Backlog) → Above b (x ∷ e) → Above b (before_last x e)
unfolding before_last
Above-before_last b (n, d) [] a = tt
Above-before_last b (n, d) (y ∷ e) a = (a.0, Above-before_last n y e a.1)

pub IsAscending-before_last :
    (x : ℕ × ℕ) (e : Backlog) → IsAscending (x ∷ e) → IsAscending (before_last x e)
unfolding before_last
IsAscending-before_last (n, d) [] a = tt
IsAscending-before_last (n, d) (y ∷ e) a = Above-before_last n y e a

last_entry-Above : (b : ℕ) (x : ℕ × ℕ) (e : Backlog) → Above b (x ∷ e) → b < (last_entry x e).0
unfolding last_entry
last_entry-Above b (n, d) [] a = a.0
last_entry-Above b (n, d) (y ∷ e) a = omega (arith, a.0, last_entry-Above n y e a.1)

-- Taking the last entry off leaves all others.
pub find-before_last :
    (k : ℕ) (x : ℕ × ℕ) (e : Backlog)
    → IsAscending (x ∷ e)
    → find k (before_last x e) ≡ (if (last_entry x e).0 == k then none else find k (x ∷ e))
unfolding find before_last last_entry
find-before_last k (n, d) [] a = ground arith
find-before_last k (n, d) ((m, c) ∷ e) a = ground (
  arith,
  find-before_last k (m, c) e (IsAscending-tail (n, d) ((m, c) ∷ e) a),
  last_entry-Above n (m, c) e a,
)

pub find-last_entry :
    (x : ℕ × ℕ) (e : Backlog)
    → IsAscending (x ∷ e)
    → find (last_entry x e).0 (x ∷ e) ≡ some (last_entry x e).1
unfolding find last_entry
find-last_entry (n, d) [] a = ground arith
find-last_entry (n, d) ((m, c) ∷ e) a = ground (
  arith,
  find-last_entry (m, c) e (IsAscending-tail (n, d) ((m, c) ∷ e) a),
  last_entry-Above n (m, c) e a,
)

-- What is left from a bound on.
pub find-drop_below :
    (k min : ℕ) (e : Backlog)
    → IsAscending e
    → find k (drop_below min e) ≡ (if ltb k min then none else find k e)
unfolding find drop_below
find-drop_below k min [] a = ground arith
find-drop_below k min ((n, d) ∷ e) a =
    ground (arith, find-drop_below k min e (IsAscending-tail (n, d) e a), find-Above n k e a)

pub IsAscending-drop_below :
    (min : ℕ) (e : Backlog) → IsAscending e → IsAscending (drop_below min e)
unfolding drop_below
IsAscending-drop_below min [] a = tt
IsAscending-drop_below min ((n, d) ∷ e) a =
    ground (arith, IsAscending-drop_below min e (IsAscending-tail (n, d) e a))

pub length-before_last : (x : ℕ × ℕ) (e : Backlog) → length (before_last x e) ≡ length e
unfolding before_last
length-before_last x [] = refl
length-before_last x (y ∷ e) = omega (arith, length-before_last y e)

pub length-tree_insert : (n d : ℕ) (e : Backlog) → length (tree_insert n d e) ≤ length e + 1
unfolding tree_insert
length-tree_insert n d [] = omega arith
length-tree_insert n d ((m, c) ∷ e) = ground (arith, length-tree_insert n d e)

pub length-drop_below : (min : ℕ) (e : Backlog) → length (drop_below min e) ≤ length e
unfolding drop_below
length-drop_below min [] = omega arith
length-drop_below min ((n, d) ∷ e) = ground (arith, length-drop_below min e)
