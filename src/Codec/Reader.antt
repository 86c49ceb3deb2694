-- ===== src/Codec/Reader.antt =====
-- Readers of bytes, as the trait `Read` of the codec library has them: a value and the bytes that
-- are left, or an error. Bytes are numbers.
use supersociety_battleware.Base.{
  ℕ, zero, suc, ◌≡◌, refl, Bool, true, false, List, [], ◌∷◌, ◌++◌, length,
}
use mathlib.Core.List.{append_assoc}

abbrev pub Bytes : Type 0
Bytes = List ℕ

-- `Error` of the codec library: the kinds that the repository's code makes, and all others.
pub data CodecError : Type 0 where
  end_of_buffer : CodecError
  invalid_enum : ℕ → CodecError
  invalid : CodecError
  other : ℕ → CodecError

pub data Decoded (A : Type 0) : Type 0 where
  decoded : A → Bytes → Decoded A
  failed : CodecError → Decoded A

abbrev pub Reader : Type 0 → Type 0
Reader A = Bytes → Decoded A

infixl 5 ◌>>=◌ ◌>>◌
unfoldable pub ◌>>=◌ : {A B : Type 0} → Reader A → (A → Reader B) → Reader B
◌>>=◌ m f bytes = elim (m bytes) [ decoded a rest ↦ f a rest | failed e ↦ failed e ]

abbrev pub ◌>>◌ : {A B : Type 0} → Reader A → Reader B → Reader B
m >> k = m >>= λ _. k

unfoldable pub pure : {A : Type 0} → A → Reader A
pure a bytes = decoded a bytes

unfoldable pub fail : {A : Type 0} → CodecError → Reader A
fail e bytes = failed e

-- `if c { return Err(e) }`
unfoldable pub refuse_if : Bool → CodecError → Reader (Unit {0})
refuse_if true e bytes = failed e
refuse_if false e bytes = decoded tt bytes

-- The first bytes, by `copy_to_slice`, after a look at `remaining()`.
abbrev pub put_front : ℕ → Decoded Bytes → Decoded Bytes
put_front x (decoded a rest) = decoded (x ∷ a) rest
put_front x (failed e) = failed e

unfoldable pub take_bytes : ℕ → Reader Bytes
take_bytes zero bytes = decoded [] bytes
take_bytes (suc n) [] = failed CodecError.end_of_buffer
take_bytes (suc n) (x ∷ bytes) = put_front x (take_bytes n bytes)

-- The reader takes the value back from its bytes, whatever follows them.
pub record Reads {A : Type 0} (r : Reader A) (bytes : Bytes) (a : A) : Type 0 where
  pub back : (rest : Bytes) → r (bytes ++ rest) ≡ decoded a rest

pub Reads-bind :
    {A B : Type 0} {m : Reader A} (f : A → Reader B) {front back : Bytes} {a : A} {b : B}
    → Reads m front a
    → Reads (f a) back b
    → Reads (m >>= f) (front ++ back) b
unfolding ◌>>=◌
Reads-bind {m = m} f {front = front} {back = back} {a = a} p q = record {
  back = λ rest. rw (append_assoc front back rest, ◌>>=◌, p.back (back ++ rest)) (q.back rest);
}

-- A reader of nothing.
pub Reads-pure : {A : Type 0} (a : A) → Reads (pure a) [] a
unfolding pure
Reads-pure a = record { back = λ rest. refl }

pub Reads-refuse :
    {A : Type 0} (k : Unit {0} → Reader A) {c : Bool} (e : CodecError) {bytes : Bytes} {a : A}
    → c ≡ false
    → Reads (k tt) bytes a
    → Reads (refuse_if c e >>= k) bytes a
unfolding ◌>>=◌ refuse_if
Reads-refuse k e h p = record { back = λ rest. rw h (p.back rest) }

pub Reads-take : (bytes : Bytes) → Reads (take_bytes (length bytes)) bytes bytes
unfolding take_bytes
Reads-take [] = record { back = λ rest. refl }
Reads-take (x ∷ bytes) = record { back = λ rest. rw ((Reads-take bytes).back rest) refl }

-- The bytes in the order in which they are written.
abbrev pub joined : List Bytes → Bytes
joined [] = []
joined (x ∷ xs) = x ++ joined xs

-- The traits `Write`, `Read` and `EncodeSize` of a type.
pub record Format (A : Type 0) : Type 0 where
  pub write : A → Bytes
  pub read : Reader A
  pub encode_size : A → ℕ

-- What is written is read back, and has the size that is told, for the values of a range.
pub record IsFormat {A : Type 0} (f : Format A) (Fits : A → Type 0) : Type 0 where
  pub reads : (a : A) → Fits a → Reads f.read (f.write a) a
  pub sized : (a : A) → length (f.write a) ≡ f.encode_size a
