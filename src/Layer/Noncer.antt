-- ===== src/Layer/Noncer.antt =====
-- `Noncer` of execution/src/state.rs: the overlay that a proposer keeps for nonces.
use supersociety_battleware.Base.{
  ℕ, ◌+◌, ◌^◌, ◌<◌, ◌≡◌, ◌≢◌, ltb, ◌==◌, Option, [], arith, if◌then◌else◌,
}
use supersociety_battleware.Types.{PublicKey, Key, Value, Account, Transaction}
use supersociety_battleware.Layer.Store.{
  Memory, Pending, Status, pending_get, pending_insert, read_through,
}
use supersociety_battleware.Layer.Laws.{pending_get-insert}
use supersociety_battleware.Layer.Views.{or_else, as_account}

pub record Noncer : Type 0 where
  pub state : Memory
  pub pending : Pending

unfoldable pub new_noncer : Memory → Noncer
new_noncer state = record { state = state; pending = [] }

-- `State::get` and `State::insert` of the overlay.
unfoldable pub noncer_get : Key → Noncer → Option Value
noncer_get k n = read_through (pending_get k n.pending) (n.state k)

unfoldable pub noncer_insert : Key → Value → Noncer → Noncer
noncer_insert k v n = record n { pending = pending_insert k (Status.update v) n.pending }

-- `load_account`, on this overlay.
unfoldable pub noncer_account : PublicKey → Noncer → Account
noncer_account p n = or_else (as_account (noncer_get (Key.account p) n)) (record { nonce = 0 })

pub data NoncerPrepared : Type 0 where
  accepted : Noncer → NoncerPrepared
  mismatch : ℕ → ℕ → NoncerPrepared
  overflow : NoncerPrepared

-- `Noncer::prepare`
unfoldable pub noncer_prepare : Transaction → Noncer → NoncerPrepared
noncer_prepare tx n =
    let account = noncer_account tx.public_key n in
    if account.nonce == tx.nonce
    then (if ltb (account.nonce + 1) (2 ^ 64)
        then NoncerPrepared.accepted (
            noncer_insert (Key.account tx.public_key)
              (Value.account (record { nonce = account.nonce + 1 })) n)
        else NoncerPrepared.overflow)
    else NoncerPrepared.mismatch account.nonce tx.nonce

pub noncer_account-insert :
    (p q : PublicKey) (a : Account) (n : Noncer)
    → noncer_account q (noncer_insert (Key.account p) (Value.account a) n)
      ≡ (if p == q then a else noncer_account q n)
unfolding noncer_account noncer_get noncer_insert
noncer_account-insert p q a n = grind (
  arith,
  pending_get-insert (Key.account q) (Key.account p) (Status.update (Value.account a)) n.pending,
)

-- What an answer means: as that of `Layer::prepare`.
abbrev pub Accepts : PublicKey → Transaction → Noncer → NoncerPrepared → Type 0
Accepts q tx n (NoncerPrepared.accepted n') =
    ((noncer_account tx.public_key n).nonce ≡ tx.nonce)
    × ((noncer_account q n').nonce
        ≡ (if tx.public_key == q then tx.nonce + 1 else (noncer_account q n).nonce))
    × (tx.nonce + 1 < 2 ^ 64)
Accepts q tx n (NoncerPrepared.mismatch expected got) =
    (noncer_account tx.public_key n).nonce ≢ tx.nonce
Accepts q tx n NoncerPrepared.overflow =
    ((noncer_account tx.public_key n).nonce ≡ tx.nonce) × (2 ^ 64 < tx.nonce + 2)

pub noncer_prepare-Accepts :
    (q : PublicKey) (tx : Transaction) (n : Noncer) → Accepts q tx n (noncer_prepare tx n)
unfolding noncer_prepare
noncer_prepare-Accepts q tx n = grind (arith, noncer_account-insert)
