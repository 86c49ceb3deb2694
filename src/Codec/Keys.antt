-- ===== src/Codec/Keys.antt =====
-- `Account` and `Key` of types/src/execution.rs: the encodings.
use supersociety_battleware.Base.{
  ℕ, ◌+◌, ◌≡◌, ◌==◌, [], ◌∷◌, length, arith, if◌then◌else◌, length-append,
}
use supersociety_battleware.Codec.Reader.{
  Bytes, CodecError, Reader, ◌>>=◌, pure, fail, Reads, Reads-bind, Reads-pure, joined, Format,
  IsFormat,
}
use supersociety_battleware.Codec.Wire.{Wire, IsWire, Word}
use supersociety_battleware.Types.{Account, Key}

-- `Account`
unfoldable pub write_account : Wire → Account → Bytes
write_account w v = joined (w.u64.write v.nonce ∷ [])

unfoldable pub read_account : Wire → Reader Account
read_account w = do nonce ← w.u64.read; pure (record { nonce = nonce })

unfoldable pub account_size : Wire → Account → ℕ
account_size w v = w.u64.encode_size v.nonce

abbrev pub account_format : Wire → Format Account
account_format w = record {
  write = write_account w;
  read = read_account w;
  encode_size = account_size w;
}

-- `Key`, with the tags of `tags::key`.
unfoldable pub write_key : Wire → Key → Bytes
write_key w (Key.account p) = joined (w.u8.write 0 ∷ w.public_key.write p ∷ [])
write_key w (Key.casino_player p) = joined (w.u8.write 10 ∷ w.public_key.write p ∷ [])
write_key w (Key.casino_session id) = joined (w.u8.write 11 ∷ w.u64.write id ∷ [])
write_key w Key.casino_leaderboard = joined (w.u8.write 12 ∷ [])
write_key w (Key.tournament id) = joined (w.u8.write 13 ∷ w.u64.write id ∷ [])
write_key w Key.house = joined (w.u8.write 14 ∷ [])
write_key w (Key.staker p) = joined (w.u8.write 15 ∷ w.public_key.write p ∷ [])
write_key w (Key.vault p) = joined (w.u8.write 16 ∷ w.public_key.write p ∷ [])
write_key w Key.amm_pool = joined (w.u8.write 17 ∷ [])
write_key w (Key.lp_balance p) = joined (w.u8.write 18 ∷ w.public_key.write p ∷ [])

-- What follows the tag.
unfoldable pub read_key_of : Wire → ℕ → Reader Key
read_key_of w kind =
    if kind == 0
    then (do p ← w.public_key.read; pure (Key.account p))
    else if kind == 10
    then (do p ← w.public_key.read; pure (Key.casino_player p))
    else if kind == 11
    then (do id ← w.u64.read; pure (Key.casino_session id))
    else if kind == 12
    then pure Key.casino_leaderboard
    else if kind == 13
    then (do id ← w.u64.read; pure (Key.tournament id))
    else if kind == 14
    then pure Key.house
    else if kind == 15
    then (do p ← w.public_key.read; pure (Key.staker p))
    else if kind == 16
    then (do p ← w.public_key.read; pure (Key.vault p))
    else if kind == 17
    then pure Key.amm_pool
    else if kind == 18
    then (do p ← w.public_key.read; pure (Key.lp_balance p))
    else fail (CodecError.invalid_enum kind)

unfoldable pub read_key : Wire → Reader Key
read_key w = do kind ← w.u8.read; read_key_of w kind

unfoldable pub key_size : Wire → Key → ℕ
key_size w (Key.account p) = 1 + (w.public_key.encode_size p)
key_size w (Key.casino_player p) = 1 + (w.public_key.encode_size p)
key_size w (Key.casino_session _) = 1 + (8)
key_size w Key.casino_leaderboard = 1
key_size w (Key.tournament _) = 1 + (8)
key_size w Key.house = 1
key_size w (Key.staker p) = 1 + (w.public_key.encode_size p)
key_size w (Key.vault p) = 1 + (w.public_key.encode_size p)
key_size w Key.amm_pool = 1
key_size w (Key.lp_balance p) = 1 + (w.public_key.encode_size p)

abbrev pub key_format : Wire → Format Key
key_format w = record { write = write_key w; read = read_key w; encode_size = key_size w }

-- The fields are in the ranges of their formats.
pub record FitsAccount (w : Wire) (v : Account) : Type 0 where
  pub nonce : Word 64 v.nonce

pub account_format-IsFormat : (w : Wire) → IsWire w → IsFormat (account_format w) (FitsAccount w)
unfolding write_account read_account account_size
account_format-IsFormat w l = record {
  reads = λ v h. Reads-bind _ (l.u64.reads v.nonce h.nonce) (Reads-pure _);
  sized = λ v. simp (length-append, l.u64.sized) (omega arith);
}

-- The numbers are words, and the strings are not too long.
abbrev pub FitsKey : Wire → Key → Type 0
FitsKey w (Key.account p) = Word 256 p
FitsKey w (Key.casino_player p) = Word 256 p
FitsKey w (Key.casino_session id) = Word 64 id
FitsKey w Key.casino_leaderboard = Unit
FitsKey w (Key.tournament id) = Word 64 id
FitsKey w Key.house = Unit
FitsKey w (Key.staker p) = Word 256 p
FitsKey w (Key.vault p) = Word 256 p
FitsKey w Key.amm_pool = Unit
FitsKey w (Key.lp_balance p) = Word 256 p

Reads-key_of :
    (w : Wire) → IsWire w → (v : Key) → FitsKey w v → Reads (read_key w) (write_key w v) v
unfolding read_key read_key_of write_key
Reads-key_of w l (Key.account p) h =
    Reads-bind _ (l.u8.reads 0 (omega arith)) (Reads-bind _ (l.public_key.reads p h) (Reads-pure _))
Reads-key_of w l (Key.casino_player p) h =
    Reads-bind _ (l.u8.reads 10 (omega arith))
      (Reads-bind _ (l.public_key.reads p h) (Reads-pure _))
Reads-key_of w l (Key.casino_session id) h =
    Reads-bind _ (l.u8.reads 11 (omega arith)) (Reads-bind _ (l.u64.reads id h) (Reads-pure _))
Reads-key_of w l Key.casino_leaderboard h =
    Reads-bind _ (l.u8.reads 12 (omega arith)) (Reads-pure _)
Reads-key_of w l (Key.tournament id) h =
    Reads-bind _ (l.u8.reads 13 (omega arith)) (Reads-bind _ (l.u64.reads id h) (Reads-pure _))
Reads-key_of w l Key.house h = Reads-bind _ (l.u8.reads 14 (omega arith)) (Reads-pure _)
Reads-key_of w l (Key.staker p) h =
    Reads-bind _ (l.u8.reads 15 (omega arith))
      (Reads-bind _ (l.public_key.reads p h) (Reads-pure _))
Reads-key_of w l (Key.vault p) h =
    Reads-bind _ (l.u8.reads 16 (omega arith))
      (Reads-bind _ (l.public_key.reads p h) (Reads-pure _))
Reads-key_of w l Key.amm_pool h = Reads-bind _ (l.u8.reads 17 (omega arith)) (Reads-pure _)
Reads-key_of w l (Key.lp_balance p) h =
    Reads-bind _ (l.u8.reads 18 (omega arith))
      (Reads-bind _ (l.public_key.reads p h) (Reads-pure _))

length-write_key : (w : Wire) → IsWire w → (v : Key) → length (write_key w v) ≡ key_size w v
unfolding write_key key_size
length-write_key w l v =
    grind (arith, length-append, l.u8.sized, l.size8, l.size64, l.public_key.sized, l.u64.sized)

pub key_format-IsFormat : (w : Wire) → IsWire w → IsFormat (key_format w) (FitsKey w)
key_format-IsFormat w l = record { reads = Reads-key_of w l; sized = length-write_key w l }
