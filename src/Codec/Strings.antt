-- ===== src/Codec/Strings.antt =====
-- Strings, in types/src/casino/codec.rs, and the optional last fields of types/src/casino/economy.rs.
use supersociety_battleware.Base.{
  ℕ, ◌+◌, ◌^◌, ◌%◌, ◌≤◌, ◌<◌, ◌≡◌, true, not, [], ◌∷◌, length, ltb, leb, arith, if◌then◌else◌,
  length-append,
}
use supersociety_battleware.Codec.Reader.{
  Bytes, CodecError, Decoded, Reader, ◌>>=◌, ◌>>◌, pure, refuse_if, take_bytes, Reads, Reads-bind,
  Reads-pure, Reads-refuse, Reads-take, joined,
}
use supersociety_battleware.Codec.Wire.{Wire, IsWire, Word}

abbrev pub max_name_length : ℕ
max_name_length = 32

-- `write_string`
unfoldable pub write_string : Wire → Bytes → Bytes
write_string w s = joined (w.u32.write (length s % 2 ^ 32) ∷ s ∷ [])

-- `read_string`
unfoldable pub read_string : Wire → ℕ → Reader Bytes
read_string w max_len = do
  len ← w.u32.read
  refuse_if (ltb max_len len) CodecError.invalid
  bytes ← take_bytes len
  refuse_if (not (w.is_utf8 bytes)) CodecError.invalid
  pure bytes

unfoldable pub string_encode_size : Bytes → ℕ
string_encode_size s = 4 + length s

-- A string of at most that many bytes.
pub record IsText (w : Wire) (max_len : ℕ) (s : Bytes) : Type 0 where
  pub short : length s ≤ max_len
  pub valid : w.is_utf8 s ≡ true

abbrev pub IsName : Wire → Bytes → Type 0
IsName w = IsText w max_name_length

pub Reads-text :
    (w : Wire)
    → IsWire w
    → (max_len : ℕ) (s : Bytes) → max_len < 2 ^ 32
    → IsText w max_len s
    → Reads (read_string w max_len) (write_string w s) s
unfolding write_string read_string
Reads-text w l max_len s small h =
    let same : length s % 2 ^ 32 ≡ length s = omega (arith, h.short) in
    rw same (
      Reads-bind _ (l.u32.reads (length s) (omega (arith, h.short))) (
        Reads-refuse _ _ (ground (arith, h.short)) (
          Reads-bind _ (Reads-take s) (Reads-refuse _ _ (ground (arith, h.valid)) (Reads-pure s)))))

pub Reads-string :
    (w : Wire)
    → IsWire w
    → (s : Bytes) → IsName w s
    → Reads (read_string w max_name_length) (write_string w s) s
Reads-string w l s h = Reads-text w l max_name_length s (omega arith) h

pub length-write_string :
    (w : Wire) → IsWire w → (s : Bytes) → length (write_string w s) ≡ string_encode_size s
unfolding write_string string_encode_size
length-write_string w l s = simp (length-append, l.u32.sized, l.size32) (omega arith)

-- A number that older values do not have: they end before it.
unfoldable pub read_u64_or : Wire → ℕ → Reader ℕ
read_u64_or w base bytes =
    if leb 8 (length bytes) then w.u64.read bytes else Decoded.decoded base bytes

pub Reads-u64_or :
    (w : Wire) → IsWire w → (base n : ℕ) → Word 64 n → Reads (read_u64_or w base) (w.u64.write n) n
unfolding read_u64_or
Reads-u64_or w l base n h = record {
  back = λ rest. ground (
    arith,
    length-append (w.u64.write n) rest,
    l.u64.sized n,
    l.size64 n,
    (l.u64.reads n h).back rest,
  );
}
