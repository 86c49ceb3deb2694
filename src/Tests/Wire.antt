-- ===== src/Tests/Wire.antt =====
-- One codec library that does what `IsWire` says: a word is its number, followed by zeros.
use supersociety_battleware.Base.{
  ℕ, zero, suc, ℤ, pos, negsuc, ◌+◌, ◌<◌, ◌≡◌, ◌==◌, refl, ltb, Bool, true, false, Option, none,
  some, List, [], ◌∷◌, ◌++◌, length, length-append, arith, if◌then◌else◌,
}
use mathlib.Core.List.{append-nil}
use supersociety_battleware.Codec.Reader.{
  Bytes, CodecError, Decoded, Reader, ◌>>=◌, ◌>>◌, pure, refuse_if, take_bytes, Reads, Reads-bind,
  Reads-pure, Reads-refuse, joined, Format, IsFormat,
}
use supersociety_battleware.Codec.Wire.{Wire, IsWire, Any, OnSome, Each, Both, UpTo, IsFailed}

unfoldable pub next_number : Reader ℕ
next_number [] = Decoded.failed CodecError.end_of_buffer
next_number (x ∷ bytes) = Decoded.decoded x bytes

Reads-next : (x : ℕ) → Reads next_number (x ∷ []) x
unfolding next_number
Reads-next x = record { back = λ rest. refl }

abbrev zeros : ℕ → Bytes
zeros zero = []
zeros (suc n) = 0 ∷ zeros n

length-zeros : (n : ℕ) → length (zeros n) ≡ n
length-zeros zero = refl
length-zeros (suc n) = omega (arith, length-zeros n)

unfoldable pub read_padded : ℕ → Reader ℕ
read_padded n = do x ← next_number; take_bytes n; pure x

-- A word of `n + 1` bytes.
abbrev pub padded : ℕ → Format ℕ
padded n = record {
  write = λ x. joined ((x ∷ []) ∷ zeros n ∷ []);
  read = read_padded n;
  encode_size = λ x. suc n;
}

Reads-zeros : (n : ℕ) → Reads (take_bytes n) (zeros n) (zeros n)
unfolding take_bytes
Reads-zeros zero = record { back = λ rest. refl }
Reads-zeros (suc n) = record { back = λ rest. rw ((Reads-zeros n).back rest) refl }

pub padded-IsFormat : (n : ℕ) (Fits : ℕ → Type 0) → IsFormat (padded n) Fits
unfolding read_padded
padded-IsFormat n Fits = record {
  reads = λ x h. Reads-bind _ (Reads-next x) (Reads-bind _ (Reads-zeros n) (Reads-pure x));
  sized = λ x. simp (length-append, length-zeros) (omega arith);
}

abbrev integer_of : ℕ → ℕ → Reader ℤ
integer_of sign n = if sign == 0 then pure (pos n) else pure (negsuc n)

unfoldable pub read_integer : Reader ℤ
read_integer = do sign ← next_number; n ← next_number; integer_of sign n

abbrev write_integer : ℤ → Bytes
write_integer (pos n) = joined ((0 ∷ []) ∷ (n ∷ []) ∷ [])
write_integer (negsuc n) = joined ((1 ∷ []) ∷ (n ∷ []) ∷ [])

abbrev integer : Format ℤ
integer = record { write = write_integer; read = read_integer; encode_size = λ z. 2 }

Reads-integer : (z : ℤ) → Reads read_integer (write_integer z) z
unfolding read_integer
Reads-integer (pos n) = Reads-bind _ (Reads-next 0) (Reads-bind _ (Reads-next n) (Reads-pure _))
Reads-integer (negsuc n) = Reads-bind _ (Reads-next 1) (Reads-bind _ (Reads-next n) (Reads-pure _))

integer-IsFormat : (Fits : ℤ → Type 0) → IsFormat integer Fits
integer-IsFormat Fits = record { reads = λ z h. Reads-integer z; sized = λ z. ground arith }

unfoldable pub read_flag : Reader Bool
read_flag = do n ← next_number; pure (n == 1)

abbrev write_flag : Bool → Bytes
write_flag true = 1 ∷ []
write_flag false = 0 ∷ []

abbrev flag : Format Bool
flag = record { write = write_flag; read = read_flag; encode_size = λ b. 1 }

Reads-flag : (b : Bool) → Reads read_flag (write_flag b) b
unfolding read_flag
Reads-flag true = Reads-bind _ (Reads-next 1) (Reads-pure _)
Reads-flag false = Reads-bind _ (Reads-next 0) (Reads-pure _)

flag-IsFormat : IsFormat flag Any
flag-IsFormat = record { reads = λ b h. Reads-flag b; sized = λ b. ground arith }

module _ {A : Type 0} (f : Format A) where
  abbrev write_option : Option A → Bytes
  write_option none = 0 ∷ []
  write_option (some a) = joined ((1 ∷ []) ∷ f.write a ∷ [])

  abbrev option_of : ℕ → Reader (Option A)
  option_of n = if n == 0 then pure none else (do a ← f.read; pure (some a))

  unfoldable pub read_option : Reader (Option A)
  read_option = do n ← next_number; option_of n

  abbrev option_size : Option A → ℕ
  option_size none = 1
  option_size (some a) = 1 + f.encode_size a

  abbrev pub option_format : Format (Option A)
  option_format = record { write = write_option; read = read_option; encode_size = option_size }

  module _ (Fits : A → Type 0) (good : IsFormat f Fits) where
    Reads-option : (o : Option A) → OnSome Fits o → Reads read_option (write_option o) o
    unfolding read_option
    Reads-option none h = Reads-bind _ (Reads-next 0) (Reads-pure _)
    Reads-option (some a) h =
        Reads-bind _ (Reads-next 1) (Reads-bind _ (good.reads a h) (Reads-pure _))

    length-write_option : (o : Option A) → length (write_option o) ≡ option_size o
    length-write_option none = ground arith
    length-write_option (some a) = simp (length-append, good.sized) (omega arith)

    option_format-IsFormat : IsFormat option_format (OnSome Fits)
    option_format-IsFormat = record { reads = Reads-option; sized = length-write_option }

  abbrev write_items : List A → Bytes
  write_items [] = []
  write_items (x ∷ xs) = f.write x ++ write_items xs

  unfoldable pub read_items : ℕ → Reader (List A)
  read_items zero = pure []
  read_items (suc n) = do x ← f.read; xs ← read_items n; pure (x ∷ xs)

  unfoldable pub read_vec : ℕ → Reader (List A)
  read_vec limit = do
    n ← next_number
    refuse_if (ltb limit n) CodecError.invalid
    xs ← read_items n
    pure xs

  abbrev items_size : List A → ℕ
  items_size [] = 0
  items_size (x ∷ xs) = f.encode_size x + items_size xs

  abbrev pub vec_format : ℕ → Format (List A)
  vec_format limit = record {
    write = λ xs. joined ((length xs ∷ []) ∷ write_items xs ∷ []);
    read = read_vec limit;
    encode_size = λ xs. 1 + items_size xs;
  }

  too_long :
      (limit : ℕ) (xs : List A) (rest : Bytes)
      → limit < length xs
      → IsFailed (read_vec limit (joined ((length xs ∷ []) ∷ write_items xs ∷ []) ++ rest))
  unfolding read_vec next_number ◌>>=◌ refuse_if
  too_long limit xs rest h = ground arith

  module _ (Fits : A → Type 0) (good : IsFormat f Fits) where
    Reads-items : (xs : List A) → Each Fits xs → Reads (read_items (length xs)) (write_items xs) xs
    unfolding read_items
    Reads-items [] h = Reads-pure _
    Reads-items (x ∷ xs) h =
        rw (← append-nil (write_items xs))
          (Reads-bind _ (good.reads x h.0) (Reads-bind _ (Reads-items xs h.1) (Reads-pure _)))

    length-write_items : (xs : List A) → length (write_items xs) ≡ items_size xs
    length-write_items [] = ground arith
    length-write_items (x ∷ xs) =
        omega
          (arith, length-append (f.write x) (write_items xs), good.sized x, length-write_items xs)

    vec_format-IsFormat : (limit : ℕ) → IsFormat (vec_format limit) (UpTo limit Fits)
    unfolding read_vec
    vec_format-IsFormat limit = record {
      reads = λ xs h. Reads-bind _ (Reads-next (length xs)) (
          Reads-refuse _ _ (ground (arith, h.0))
            (Reads-bind _ (Reads-items xs h.1) (Reads-pure xs)));
      sized = λ xs. simp (length-append, length-write_items) (omega arith);
    }

module _ {A B : Type 0} (f : Format A) (g : Format B) where
  unfoldable pub read_pair : Reader (A × B)
  read_pair = do a ← f.read; b ← g.read; pure (a, b)

  abbrev pub pair_format : Format (A × B)
  pair_format = record {
    write = λ p. joined (f.write p.0 ∷ g.write p.1 ∷ []);
    read = read_pair;
    encode_size = λ p. f.encode_size p.0 + g.encode_size p.1;
  }

  pair_format-IsFormat :
      (Fits : A → Type 0) (Fits' : B → Type 0)
      → IsFormat f Fits
      → IsFormat g Fits'
      → IsFormat pair_format (Both Fits Fits')
  unfolding read_pair
  pair_format-IsFormat Fits Fits' good good' = record {
    reads = λ p h.
        Reads-bind _ (good.reads p.0 h.0) (Reads-bind _ (good'.reads p.1 h.1) (Reads-pure _));
    sized = λ p. simp (length-append, good.sized, good'.sized) (omega arith);
  }

abbrev pub wire : Wire
wire = record {
  u8 = padded 0;
  u16 = padded 1;
  u32 = padded 3;
  u64 = padded 7;
  u128 = padded 15;
  i64 = integer;
  i128 = integer;
  bool = flag;
  public_key = padded 31;
  signature = padded 63;
  digest = padded 31;
  varint = padded 9;
  option = option_format;
  pair = pair_format;
  vec = λ n f. vec_format f n;
  is_utf8 = λ bytes. true;
}

pub wire-IsWire : IsWire wire
wire-IsWire = record {
  u8 = padded-IsFormat 0 _;
  u16 = padded-IsFormat 1 _;
  u32 = padded-IsFormat 3 _;
  u64 = padded-IsFormat 7 _;
  u128 = padded-IsFormat 15 _;
  i64 = integer-IsFormat _;
  i128 = integer-IsFormat _;
  bool = flag-IsFormat;
  public_key = padded-IsFormat 31 _;
  signature = padded-IsFormat 63 _;
  digest = padded-IsFormat 31 _;
  varint = padded-IsFormat 9 _;
  option = λ f Fits good. option_format-IsFormat f Fits good;
  pair = λ f g Fits Fits' good good'. pair_format-IsFormat f g Fits Fits' good good';
  vec = λ n f Fits good. vec_format-IsFormat f Fits good n;
  too_long = λ n f xs rest h. too_long f n xs rest h;
  size8 = λ n. refl;
  size32 = λ n. refl;
  size64 = λ n. refl;
  size_digest = λ n. refl;
}
