-- ===== src/Layer/Replay.antt =====
-- A transaction is accepted at its nonce only, and once.
use supersociety_battleware.Base.{ℕ, ◌+◌, ◌≤◌, ◌^◌, ◌≡◌, ◌≢◌, arith}
use supersociety_battleware.Types.{Transaction}
use supersociety_battleware.Layer.Store.{Layer}
use supersociety_battleware.Layer.Views.{load_account, view_laws}
use supersociety_battleware.Layer.Nonce.{Prepared, prepare}

-- What each answer means.
abbrev pub IsAnswer : Transaction → Layer → Prepared → Type 0
IsAnswer tx l (Prepared.ready l') =
    ((load_account tx.public_key l).nonce ≡ tx.nonce)
    × ((load_account tx.public_key l').nonce ≡ tx.nonce + 1)
    × (prepare tx l' ≡ Prepared.nonce_mismatch (tx.nonce + 1) tx.nonce)
IsAnswer tx l (Prepared.nonce_mismatch expected given) =
    (expected ≡ (load_account tx.public_key l).nonce) × (given ≡ tx.nonce) × (expected ≢ given)
IsAnswer tx l Prepared.overflow = 2 ^ 64 ≤ tx.nonce + 1

-- A transaction is accepted only at the nonce of its account. The account's nonce then grows by one,
-- and in the layer that this leaves the same transaction is refused. A refusal names the two nonces,
-- which differ; an overflow is reported at the last nonce only.
pub prepare-IsAnswer : (tx : Transaction) (l : Layer) → IsAnswer tx l (prepare tx l)
unfolding prepare
prepare-IsAnswer tx l = grind (arith, view_laws)

-- The nonces of the other accounts stay as they were.
abbrev pub KeepsOthers : Transaction → ℕ → Layer → Prepared → Type 0
KeepsOthers tx other l (Prepared.ready l') = load_account other l' ≡ load_account other l
KeepsOthers tx other l (Prepared.nonce_mismatch expected given) = Unit
KeepsOthers tx other l Prepared.overflow = Unit

pub prepare-KeepsOthers :
    (tx : Transaction) (other : ℕ) (l : Layer)
    → other ≢ tx.public_key
    → KeepsOthers tx other l (prepare tx l)
unfolding prepare
prepare-KeepsOthers tx other l distinct = grind (arith, view_laws)
