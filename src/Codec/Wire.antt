-- ===== src/Codec/Wire.antt =====
-- What the repository's encodings use of the codec library and of the standard library: the
-- formats of numbers, keys, options and vectors, and the test of UTF-8. They are parameters here;
-- `IsWire` says of them what the library documents.
use supersociety_battleware.Base.{
  ℕ, ℤ, ◌^◌, ◌≤◌, ◌<◌, ◌≡◌, Bool, true, Option, none, some, List, [], ◌∷◌, ◌++◌, length,
  fits_signed,
}
use supersociety_battleware.Types.{PublicKey}
use supersociety_battleware.Codec.Reader.{Bytes, Decoded, Format, IsFormat}

pub record Wire : Type 1 where
  pub u8 : Format ℕ
  pub u16 : Format ℕ
  pub u32 : Format ℕ
  pub u64 : Format ℕ
  pub u128 : Format ℕ
  pub i64 : Format ℤ
  pub i128 : Format ℤ
  pub bool : Format Bool
  pub public_key : Format PublicKey
  pub signature : Format ℕ
  pub digest : Format ℕ
  -- `UInt`, of variable length.
  pub varint : Format ℕ
  pub option : {A : Type 0} → Format A → Format (Option A)
  pub pair : {A B : Type 0} → Format A → Format B → Format (A × B)
  -- A vector, read with the range from 0 to the number.
  pub vec : {A : Type 0} → ℕ → Format A → Format (List A)
  pub is_utf8 : Bytes → Bool

-- A word of that many bits.
abbrev pub Word : ℕ → ℕ → Type 0
Word bits n = n < 2 ^ bits

abbrev pub SignedWord : ℕ → ℤ → Type 0
SignedWord bits z = fits_signed bits z ≡ true

abbrev pub Any : {A : Type 0} → A → Type 0
Any a = Unit

abbrev pub OnSome : {A : Type 0} → (A → Type 0) → Option A → Type 0
OnSome Fits none = Unit
OnSome Fits (some a) = Fits a

abbrev pub Each : {A : Type 0} → (A → Type 0) → List A → Type 0
Each Fits [] = Unit
Each Fits (x ∷ xs) = Fits x × Each Fits xs

abbrev pub Both : {A B : Type 0} → (A → Type 0) → (B → Type 0) → A × B → Type 0
Both Fits Fits' p = Fits p.0 × Fits' p.1

abbrev pub UpTo : {A : Type 0} → ℕ → (A → Type 0) → List A → Type 0
UpTo n Fits xs = (length xs ≤ n) × Each Fits xs

-- The reader gives an error.
abbrev pub IsFailed : {A : Type 0} → Decoded A → Type 0
IsFailed (Decoded.decoded a rest) = ⊥
IsFailed (Decoded.failed e) = Unit

pub record IsWire (w : Wire) : Type 1 where
  pub u8 : IsFormat w.u8 (Word 8)
  pub u16 : IsFormat w.u16 (Word 16)
  pub u32 : IsFormat w.u32 (Word 32)
  pub u64 : IsFormat w.u64 (Word 64)
  pub u128 : IsFormat w.u128 (Word 128)
  pub i64 : IsFormat w.i64 (SignedWord 63)
  pub i128 : IsFormat w.i128 (SignedWord 127)
  pub bool : IsFormat w.bool Any
  -- A key is a number here, of as many values as there are keys.
  pub public_key : IsFormat w.public_key (Word 256)
  pub signature : IsFormat w.signature (Word 512)
  pub digest : IsFormat w.digest (Word 256)
  pub varint : IsFormat w.varint (Word 64)
  pub option :
      {A : Type 0} (f : Format A) (Fits : A → Type 0)
      → IsFormat f Fits
      → IsFormat (w.option f) (OnSome Fits)
  pub pair :
      {A B : Type 0} (f : Format A) (g : Format B) (Fits : A → Type 0) (Fits' : B → Type 0)
      → IsFormat f Fits
      → IsFormat g Fits'
      → IsFormat (w.pair f g) (Both Fits Fits')
  pub vec :
      {A : Type 0} (n : ℕ) (f : Format A) (Fits : A → Type 0)
      → IsFormat f Fits
      → IsFormat (w.vec n f) (UpTo n Fits)
  -- A vector that is too long is not read.
  pub too_long :
      {A : Type 0} (n : ℕ) (f : Format A) (xs : List A) (rest : Bytes)
      → n < length xs
      → IsFailed ((w.vec n f).read ((w.vec n f).write xs ++ rest))
  -- The sizes of words.
  pub size8 : (n : ℕ) → w.u8.encode_size n ≡ 1
  pub size32 : (n : ℕ) → w.u32.encode_size n ≡ 4
  pub size_digest : (n : ℕ) → w.digest.encode_size n ≡ 32
  pub size64 : (n : ℕ) → w.u64.encode_size n ≡ 8
