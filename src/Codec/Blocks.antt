-- ===== src/Codec/Blocks.antt =====
-- `Block` and `Notarized` of types/src/execution.rs: digests and encodings.
use supersociety_battleware.Base.{
  ℕ, ◌+◌, ◌≡◌, ◌==◌, Option, some, none, List, [], ◌∷◌, ◌++◌, leb, not, length, length-append,
  arith, if◌then◌else◌,
}
use mathlib.Core.List.{append-nil}
use supersociety_battleware.Types.{PublicKey, Instruction, Transaction}
use supersociety_battleware.Casino.Interface.{to_be_bytes}
use supersociety_battleware.Codec.Reader.{
  Bytes, CodecError, Decoded, Reader, ◌>>=◌, ◌>>◌, pure, refuse_if, Reads, Reads-bind, Reads-pure,
  joined, Format, IsFormat,
}
use supersociety_battleware.Codec.Wire.{Wire, IsWire, Word, UpTo}
use supersociety_battleware.Codec.Instructions.{
  write_instruction, read_instruction, FitsInstruction, instruction_format-IsFormat,
}
use supersociety_battleware.Codec.Transactions.{
  transaction_format, FitsTransaction, transaction_format-IsFormat,
}

-- SHA-256, and the bytes of digests and keys.
pub record Hashes : Type 0 where
  pub sha256 : Bytes → ℕ
  pub digest_bytes : ℕ → Bytes
  pub key_bytes : PublicKey → Bytes

-- `MAX_BLOCK_TRANSACTIONS`
abbrev pub max_block_transactions : ℕ
max_block_transactions = 500

-- `Transaction::digest`. The signature has no part in it.
unfoldable pub transaction_digest : Wire → Hashes → Transaction → ℕ
transaction_digest w hashes tx = hashes.sha256 (
    to_be_bytes 8 tx.nonce
    ++ (write_instruction w tx.instruction ++ hashes.key_bytes tx.public_key))

-- `Transaction::payload`: what is signed.
unfoldable pub payload : Wire → ℕ → Instruction → Bytes
payload w nonce instruction = w.u64.write nonce ++ write_instruction w instruction

unfoldable read_payload_back : Wire → Reader (ℕ × Instruction)
read_payload_back w = do
  nonce ← w.u64.read
  instruction ← read_instruction w
  pure (nonce, instruction)

Reads-payload_back :
    (w : Wire) (nonce : ℕ) (instruction : Instruction)
    → IsWire w
    → Word 64 nonce
    → FitsInstruction w instruction
    → Reads
        (read_payload_back w)
        (joined (w.u64.write nonce ∷ write_instruction w instruction ∷ []))
        (nonce, instruction)
unfolding read_payload_back
Reads-payload_back w nonce instruction l h k =
    Reads-bind _ (l.u64.reads nonce h)
      (Reads-bind _ ((instruction_format-IsFormat w l).reads instruction k) (Reads-pure _))

-- Two pairs of a nonce and an instruction with the same payload are the same, where the nonces are of
-- 64 bits and the instructions are within the limits of the encoding.
pub payload_injective :
    (w : Wire) (nonce nonce' : ℕ) (instruction instruction' : Instruction)
    → IsWire w
    → Word 64 nonce
    → Word 64 nonce'
    → FitsInstruction w instruction
    → FitsInstruction w instruction'
    → payload w nonce instruction ≡ payload w nonce' instruction'
    → (nonce ≡ nonce') × (instruction ≡ instruction')
unfolding payload
payload_injective w nonce nonce' instruction instruction' l h h' k k' same =
    let back = (Reads-payload_back w nonce instruction l h k).back [] in
    let back' = (Reads-payload_back w nonce' instruction' l h' k').back [] in
    grind (arith, back, back', append-nil)

pub record Block : Type 0 where
  pub parent : ℕ
  pub view : ℕ
  pub height : ℕ
  pub transactions : List Transaction
  pub digest : ℕ

-- The bytes of the transactions' digests.
unfoldable pub digests : Wire → Hashes → List Transaction → Bytes
digests w hashes [] = []
digests w hashes (tx ∷ txs) =
    hashes.digest_bytes (transaction_digest w hashes tx) ++ digests w hashes txs

-- `Block::compute_digest`
unfoldable pub compute_digest : Wire → Hashes → ℕ → ℕ → ℕ → List Transaction → ℕ
compute_digest w hashes parent view height transactions = hashes.sha256 (
    hashes.digest_bytes parent
    ++ (to_be_bytes 8 view ++ (to_be_bytes 8 height ++ digests w hashes transactions)))

-- `Block::new`; it asserts that the transactions are not too many.
unfoldable pub new_block : Wire → Hashes → ℕ → ℕ → ℕ → List Transaction → Option Block
new_block w hashes parent view height transactions =
    if leb (length transactions) max_block_transactions
    then some (record {
      parent = parent;
      view = view;
      height = height;
      transactions = transactions;
      digest = compute_digest w hashes parent view height transactions;
    })
    else none

unfoldable pub write_block : Wire → Block → Bytes
write_block w b = joined (
    w.digest.write b.parent
    ∷ w.varint.write b.view
    ∷ w.varint.write b.height
    ∷ (w.vec max_block_transactions (transaction_format w)).write b.transactions
    ∷ [])

unfoldable pub read_block : Wire → Hashes → Reader Block
read_block w hashes = do
  parent ← w.digest.read
  view ← w.varint.read
  height ← w.varint.read
  transactions ← (w.vec max_block_transactions (transaction_format w)).read
  pure (record {
    parent = parent;
    view = view;
    height = height;
    transactions = transactions;
    digest = compute_digest w hashes parent view height transactions;
  })

unfoldable pub block_size : Wire → Block → ℕ
block_size w b =
    w.digest.encode_size b.parent
    + w.varint.encode_size b.view
    + w.varint.encode_size b.height
    + (w.vec max_block_transactions (transaction_format w)).encode_size b.transactions

abbrev pub block_format : Wire → Hashes → Format Block
block_format w hashes = record {
  write = write_block w;
  read = read_block w hashes;
  encode_size = block_size w;
}

-- A block as `new` makes it, of words.
pub record FitsBlock (w : Wire) (hashes : Hashes) (b : Block) : Type 0 where
  pub parent : Word 256 b.parent
  pub view : Word 64 b.view
  pub height : Word 64 b.height
  pub transactions : UpTo max_block_transactions (FitsTransaction w) b.transactions
  pub made_by_new : new_block w hashes b.parent b.view b.height b.transactions ≡ some b

new_block-digest :
    (w : Wire) (hashes : Hashes) (b : Block)
    → new_block w hashes b.parent b.view b.height b.transactions ≡ some b
    → compute_digest w hashes b.parent b.view b.height b.transactions ≡ b.digest
unfolding new_block
new_block-digest w hashes b h = ground arith

-- A block is read back as it was written, with the digest that `new` gave it, and its encoding has
-- the size that is told.
pub block_format-IsFormat :
    (w : Wire) (hashes : Hashes) → IsWire w → IsFormat (block_format w hashes) (FitsBlock w hashes)
unfolding write_block read_block block_size
block_format-IsFormat w hashes l = record {
  reads = λ b h. rw (← new_block-digest w hashes b h.made_by_new) (
      Reads-bind _ (l.digest.reads b.parent h.parent) (
        Reads-bind _ (l.varint.reads b.view h.view) (
          Reads-bind _ (l.varint.reads b.height h.height) (
            Reads-bind _
              ((l.vec max_block_transactions (transaction_format w) (FitsTransaction w)
                  (transaction_format-IsFormat w l)).reads
                b.transactions h.transactions)
              (Reads-pure _)))));
  sized = λ b.
      simp
        (
          length-append,
          l.digest.sized,
          l.varint.sized,
          (l.vec max_block_transactions (transaction_format w) (FitsTransaction w)
              (transaction_format-IsFormat w l)).sized,
        )
        (omega arith);
}

-- A proof of the consensus library, with the block that it is about.
pub record Notarized (Proof : Type 0) : Type 0 where
  pub proof : Proof
  pub block : Block

module _ {Proof : Type 0} (w : Wire) (hashes : Hashes) (proofs : Format Proof)
    (payload_of : Proof → ℕ) where
  unfoldable pub write_notarized : Notarized Proof → Bytes
  write_notarized n = joined (proofs.write n.proof ∷ write_block w n.block ∷ [])

  -- The proof must be for the block.
  unfoldable pub read_notarized : Reader (Notarized Proof)
  read_notarized = do
    proof ← proofs.read
    block ← read_block w hashes
    refuse_if (not (payload_of proof == block.digest)) CodecError.invalid
    pure (record { proof = proof; block = block })

  -- What is decoded is a proof of the block's contents.
  abbrev pub IsProven : Decoded (Notarized Proof) → Type 0
  IsProven (Decoded.decoded n rest) =
      payload_of n.proof
      ≡ compute_digest w hashes n.block.parent n.block.view n.block.height n.block.transactions
  IsProven (Decoded.failed e) = Unit

  -- Whatever the bytes are: a notarized block that is decoded has a proof of the digest of its
  -- parent, its view, its height and its transactions.
  pub read_notarized-IsProven : (bytes : Bytes) → IsProven (read_notarized bytes)
  unfolding read_notarized read_block ◌>>=◌ refuse_if pure
  read_notarized-IsProven bytes = grind arith
