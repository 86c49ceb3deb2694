-- ===== src/Layer/Nonce.antt =====
-- Replay protection: `load_account`, `validate_and_increment_nonce` (execution/src/state.rs) and
-- `Layer::prepare` (execution/src/layer/mod.rs).
use supersociety_battleware.Base.{ℕ, ◌+◌, ◌^◌, ltb, ◌==◌, if◌then◌else◌}
use supersociety_battleware.Types.{Key, Value, Transaction}
use supersociety_battleware.Layer.Store.{Layer, insert}
use supersociety_battleware.Layer.Views.{load_account}

-- `PrepareError::NonceMismatch` carries the expected and the given nonce.
pub data Prepared : Type 0 where
  ready : Layer → Prepared
  nonce_mismatch : ℕ → ℕ → Prepared
  overflow : Prepared

unfoldable pub prepare : Transaction → Layer → Prepared
prepare tx l =
    let account = load_account tx.public_key l in
    if account.nonce == tx.nonce
    then (if ltb (account.nonce + 1) (2 ^ 64)
        then Prepared.ready (
            insert (Key.account tx.public_key)
              (Value.account (record { nonce = account.nonce + 1 })) l)
        else Prepared.overflow)
    else Prepared.nonce_mismatch account.nonce tx.nonce
