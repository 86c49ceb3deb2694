-- ===== src/Codec/Transactions.antt =====
-- `Transaction` of types/src/execution.rs: the encoding.
use supersociety_battleware.Base.{ℕ, ◌+◌, [], ◌∷◌, arith, length-append}
use supersociety_battleware.Codec.Reader.{
  Bytes, Reader, ◌>>=◌, pure, Reads-bind, Reads-pure, joined, Format, IsFormat,
}
use supersociety_battleware.Codec.Wire.{Wire, IsWire, Word}
use supersociety_battleware.Types.{Transaction}
use supersociety_battleware.Codec.Instructions.{
  instruction_format, write_instruction, read_instruction, instruction_format-IsFormat,
  FitsInstruction,
}

-- `Transaction`
unfoldable pub write_transaction : Wire → Transaction → Bytes
write_transaction w v = joined (
    w.u64.write v.nonce
    ∷ write_instruction w v.instruction
    ∷ w.public_key.write v.public_key
    ∷ w.signature.write v.signature
    ∷ [])

unfoldable pub read_transaction : Wire → Reader Transaction
read_transaction w = do
  nonce ← w.u64.read
  instruction ← read_instruction w
  public_key ← w.public_key.read
  signature ← w.signature.read
  pure (record {
    nonce = nonce;
    instruction = instruction;
    public_key = public_key;
    signature = signature;
  })

unfoldable pub transaction_size : Wire → Transaction → ℕ
transaction_size w v =
    w.u64.encode_size v.nonce
    + (instruction_format w).encode_size v.instruction
    + w.public_key.encode_size v.public_key
    + w.signature.encode_size v.signature

abbrev pub transaction_format : Wire → Format Transaction
transaction_format w = record {
  write = write_transaction w;
  read = read_transaction w;
  encode_size = transaction_size w;
}

-- The fields are in the ranges of their formats.
pub record FitsTransaction (w : Wire) (v : Transaction) : Type 0 where
  pub nonce : Word 64 v.nonce
  pub instruction : FitsInstruction w v.instruction
  pub public_key : Word 256 v.public_key
  pub signature : Word 512 v.signature

pub transaction_format-IsFormat :
    (w : Wire) → IsWire w → IsFormat (transaction_format w) (FitsTransaction w)
unfolding write_transaction read_transaction transaction_size
transaction_format-IsFormat w l = record {
  reads = λ v h. Reads-bind _ (l.u64.reads v.nonce h.nonce) (
      Reads-bind _ ((instruction_format-IsFormat w l).reads v.instruction h.instruction) (
        Reads-bind _ (l.public_key.reads v.public_key h.public_key)
          (Reads-bind _ (l.signature.reads v.signature h.signature) (Reads-pure _))));
  sized = λ v.
      simp
        (
          length-append,
          l.u64.sized,
          (instruction_format-IsFormat w l).sized,
          l.public_key.sized,
          l.signature.sized,
        )
        (omega arith);
}
