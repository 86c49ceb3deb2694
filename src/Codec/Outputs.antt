-- ===== src/Codec/Outputs.antt =====
-- `Output` and `Progress` of types/src/execution.rs: the encodings.
use supersociety_battleware.Base.{
  ℕ, ◌+◌, ◌≡◌, ◌==◌, [], ◌∷◌, length, arith, if◌then◌else◌, length-append,
}
use supersociety_battleware.Codec.Reader.{
  Bytes, CodecError, Reader, ◌>>=◌, pure, fail, Reads, Reads-bind, Reads-pure, joined, Format,
  IsFormat,
}
use supersociety_battleware.Codec.Wire.{Wire, IsWire, Word}
use supersociety_battleware.Types.{Transaction}
use supersociety_battleware.Codec.Events.{Event, event_format, write_event, read_event}
use supersociety_battleware.Codec.Events.RoundTrip.{event_format-IsFormat, FitsEvent}
use supersociety_battleware.Codec.Transactions.{
  transaction_format, write_transaction, read_transaction, transaction_format-IsFormat,
  FitsTransaction,
}

pub data Output : Type 0 where
  event : Event → Output
  transaction : Transaction → Output
  commit : ℕ → ℕ → Output

-- `Output`
unfoldable pub write_output : Wire → Output → Bytes
write_output w (Output.event v) = joined (w.u8.write 0 ∷ write_event w v ∷ [])
write_output w (Output.transaction v) = joined (w.u8.write 1 ∷ write_transaction w v ∷ [])
write_output w (Output.commit height start) =
    joined (w.u8.write 2 ∷ w.u64.write height ∷ w.u64.write start ∷ [])

-- What follows the tag.
unfoldable pub read_output_of : Wire → ℕ → Reader Output
read_output_of w kind =
    if kind == 0
    then (do v ← read_event w; pure (Output.event v))
    else if kind == 1
    then (do v ← read_transaction w; pure (Output.transaction v))
    else if kind == 2
    then (do height ← w.u64.read; start ← w.u64.read; pure (Output.commit height start))
    else fail (CodecError.invalid_enum kind)

unfoldable pub read_output : Wire → Reader Output
read_output w = do kind ← w.u8.read; read_output_of w kind

unfoldable pub output_size : Wire → Output → ℕ
output_size w (Output.event v) = 1 + ((event_format w).encode_size v)
output_size w (Output.transaction v) = 1 + ((transaction_format w).encode_size v)
output_size w (Output.commit height start) =
    1 + (w.u64.encode_size height + w.u64.encode_size start)

abbrev pub output_format : Wire → Format Output
output_format w = record {
  write = write_output w;
  read = read_output w;
  encode_size = output_size w;
}

pub record Progress : Type 0 where
  pub view : ℕ
  pub height : ℕ
  pub block_digest : ℕ
  pub state_root : ℕ
  pub state_start_op : ℕ
  pub state_end_op : ℕ
  pub events_root : ℕ
  pub events_start_op : ℕ
  pub events_end_op : ℕ

-- `Progress`
unfoldable pub write_progress : Wire → Progress → Bytes
write_progress w v = joined (
    w.u64.write v.view
    ∷ w.u64.write v.height
    ∷ w.digest.write v.block_digest
    ∷ w.digest.write v.state_root
    ∷ w.u64.write v.state_start_op
    ∷ w.u64.write v.state_end_op
    ∷ w.digest.write v.events_root
    ∷ w.u64.write v.events_start_op
    ∷ w.u64.write v.events_end_op
    ∷ [])

unfoldable pub read_progress : Wire → Reader Progress
read_progress w = do
  view ← w.u64.read
  height ← w.u64.read
  block_digest ← w.digest.read
  state_root ← w.digest.read
  state_start_op ← w.u64.read
  state_end_op ← w.u64.read
  events_root ← w.digest.read
  events_start_op ← w.u64.read
  events_end_op ← w.u64.read
  pure (record {
    view = view;
    height = height;
    block_digest = block_digest;
    state_root = state_root;
    state_start_op = state_start_op;
    state_end_op = state_end_op;
    events_root = events_root;
    events_start_op = events_start_op;
    events_end_op = events_end_op;
  })

unfoldable pub progress_size : Wire → Progress → ℕ
progress_size w v =
    w.u64.encode_size v.view
    + w.u64.encode_size v.height
    + w.digest.encode_size v.block_digest
    + w.digest.encode_size v.state_root
    + w.u64.encode_size v.state_start_op
    + w.u64.encode_size v.state_end_op
    + w.digest.encode_size v.events_root
    + w.u64.encode_size v.events_start_op
    + w.u64.encode_size v.events_end_op

abbrev pub progress_format : Wire → Format Progress
progress_format w = record {
  write = write_progress w;
  read = read_progress w;
  encode_size = progress_size w;
}

-- The numbers are words, and the strings are not too long.
abbrev pub FitsOutput : Wire → Output → Type 0
FitsOutput w (Output.event v) = FitsEvent w v
FitsOutput w (Output.transaction v) = FitsTransaction w v
FitsOutput w (Output.commit height start) = (Word 64 height) × (Word 64 start)

Reads-output_of :
    (w : Wire)
    → IsWire w
    → (v : Output) → FitsOutput w v
    → Reads (read_output w) (write_output w v) v
unfolding read_output read_output_of write_output
Reads-output_of w l (Output.event v) h =
    Reads-bind _ (l.u8.reads 0 (omega arith))
      (Reads-bind _ ((event_format-IsFormat w l).reads v h) (Reads-pure _))
Reads-output_of w l (Output.transaction v) h =
    Reads-bind _ (l.u8.reads 1 (omega arith))
      (Reads-bind _ ((transaction_format-IsFormat w l).reads v h) (Reads-pure _))
Reads-output_of w l (Output.commit height start) h =
    Reads-bind _ (l.u8.reads 2 (omega arith))
      (Reads-bind _ (l.u64.reads height h.0) (Reads-bind _ (l.u64.reads start h.1) (Reads-pure _)))

length-write_output :
    (w : Wire) → IsWire w → (v : Output) → length (write_output w v) ≡ output_size w v
unfolding write_output output_size
length-write_output w l v = grind (
  arith,
  length-append,
  l.u8.sized,
  l.size8,
  l.size64,
  (event_format-IsFormat w l).sized,
  (transaction_format-IsFormat w l).sized,
  l.u64.sized,
)

-- An output, which is an event, a transaction or a commit, is read back as it was written, whatever
-- follows it, if its numbers are words and its strings and lists are within the limits; its
-- encoding has the size that is told.
pub output_format-IsFormat : (w : Wire) → IsWire w → IsFormat (output_format w) (FitsOutput w)
output_format-IsFormat w l = record { reads = Reads-output_of w l; sized = length-write_output w l }

-- The fields are in the ranges of their formats.
pub record FitsProgress (w : Wire) (v : Progress) : Type 0 where
  pub view : Word 64 v.view
  pub height : Word 64 v.height
  pub block_digest : Word 256 v.block_digest
  pub state_root : Word 256 v.state_root
  pub state_start_op : Word 64 v.state_start_op
  pub state_end_op : Word 64 v.state_end_op
  pub events_root : Word 256 v.events_root
  pub events_start_op : Word 64 v.events_start_op
  pub events_end_op : Word 64 v.events_end_op

pub progress_format-IsFormat : (w : Wire) → IsWire w → IsFormat (progress_format w) (FitsProgress w)
unfolding write_progress read_progress progress_size
progress_format-IsFormat w l = record {
  reads = λ v h. Reads-bind _ (l.u64.reads v.view h.view) (
      Reads-bind _ (l.u64.reads v.height h.height) (
        Reads-bind _ (l.digest.reads v.block_digest h.block_digest) (
          Reads-bind _ (l.digest.reads v.state_root h.state_root) (
            Reads-bind _ (l.u64.reads v.state_start_op h.state_start_op) (
              Reads-bind _ (l.u64.reads v.state_end_op h.state_end_op) (
                Reads-bind _ (l.digest.reads v.events_root h.events_root) (
                  Reads-bind _ (l.u64.reads v.events_start_op h.events_start_op) (
                    Reads-bind _ (l.u64.reads v.events_end_op h.events_end_op)
                      (Reads-pure _)))))))));
  sized = λ v. simp (length-append, l.u64.sized, l.digest.sized) (omega arith);
}
