-- ===== src/Codec/Instructions.antt =====
-- `Instruction` of types/src/execution.rs: the encoding.
use supersociety_battleware.Base.{
  ℕ, ◌+◌, ◌^◌, ◌≤◌, ◌≡◌, ◌==◌, not, [], ◌∷◌, length, ltb, arith, if◌then◌else◌, length-append, ◌%◌,
}
use supersociety_battleware.Codec.Reader.{
  Bytes, CodecError, Reader, ◌>>=◌, ◌>>◌, pure, fail, refuse_if, take_bytes, Reads, Reads-bind,
  Reads-pure, Reads-refuse, Reads-take, joined, Format, IsFormat,
}
use supersociety_battleware.Codec.Wire.{Wire, IsWire, Word}
use supersociety_battleware.Codec.Strings.{
  write_string, read_string, string_encode_size, max_name_length, IsName, Reads-string,
  length-write_string,
}
use supersociety_battleware.Types.{Instruction}
use supersociety_battleware.Codec.Games.{write_game_type, read_game_type, game_type_format-IsFormat}

abbrev pub max_payload_length : ℕ
max_payload_length = 256

-- The name of `CasinoRegister`.
unfoldable pub read_name : Wire → Reader Bytes
read_name w = do
  name_len ← w.u32.read
  refuse_if (ltb max_name_length name_len) CodecError.invalid
  name_bytes ← take_bytes name_len
  refuse_if (not (w.is_utf8 name_bytes)) CodecError.invalid
  pure name_bytes

-- The payload of `CasinoGameMove`.
unfoldable pub read_payload : Wire → Reader Bytes
read_payload w = do
  payload_len ← w.u32.read
  refuse_if (ltb max_payload_length payload_len) CodecError.invalid
  payload ← take_bytes payload_len
  pure payload

-- `Instruction`, with the tags of `tags::instruction`.
unfoldable pub write_instruction : Wire → Instruction → Bytes
write_instruction w (Instruction.casino_register name) =
    joined (w.u8.write 10 ∷ write_string w name ∷ [])
write_instruction w (Instruction.casino_deposit amount) =
    joined (w.u8.write 11 ∷ w.u64.write amount ∷ [])
write_instruction w (Instruction.casino_start_game game_type bet session_id) =
    joined
      (w.u8.write 12 ∷ write_game_type w game_type ∷ w.u64.write bet ∷ w.u64.write session_id ∷ [])
write_instruction w (Instruction.casino_game_move session_id payload) =
    joined (w.u8.write 13 ∷ w.u64.write session_id ∷ write_string w payload ∷ [])
write_instruction w Instruction.casino_toggle_shield = joined (w.u8.write 14 ∷ [])
write_instruction w Instruction.casino_toggle_double = joined (w.u8.write 15 ∷ [])
write_instruction w Instruction.casino_toggle_super = joined (w.u8.write 30 ∷ [])
write_instruction w (Instruction.casino_join_tournament tournament_id) =
    joined (w.u8.write 16 ∷ w.u64.write tournament_id ∷ [])
write_instruction w (Instruction.casino_start_tournament tournament_id start_time_ms end_time_ms) =
    joined (
      w.u8.write 17
      ∷ w.u64.write tournament_id
      ∷ w.u64.write start_time_ms
      ∷ w.u64.write end_time_ms
      ∷ [])
write_instruction w (Instruction.stake amount duration) =
    joined (w.u8.write 18 ∷ w.u64.write amount ∷ w.u64.write duration ∷ [])
write_instruction w Instruction.unstake = joined (w.u8.write 19 ∷ [])
write_instruction w Instruction.claim_rewards = joined (w.u8.write 20 ∷ [])
write_instruction w Instruction.process_epoch = joined (w.u8.write 21 ∷ [])
write_instruction w Instruction.create_vault = joined (w.u8.write 22 ∷ [])
write_instruction w (Instruction.deposit_collateral amount) =
    joined (w.u8.write 23 ∷ w.u64.write amount ∷ [])
write_instruction w (Instruction.borrow_usdt amount) =
    joined (w.u8.write 24 ∷ w.u64.write amount ∷ [])
write_instruction w (Instruction.repay_usdt amount) =
    joined (w.u8.write 25 ∷ w.u64.write amount ∷ [])
write_instruction w (Instruction.swap amount_in min_amount_out is_buying_rng) = joined (
    w.u8.write 26
    ∷ w.u64.write amount_in
    ∷ w.u64.write min_amount_out
    ∷ w.bool.write is_buying_rng
    ∷ [])
write_instruction w (Instruction.add_liquidity rng_amount usdt_amount) =
    joined (w.u8.write 27 ∷ w.u64.write rng_amount ∷ w.u64.write usdt_amount ∷ [])
write_instruction w (Instruction.remove_liquidity shares) =
    joined (w.u8.write 28 ∷ w.u64.write shares ∷ [])
write_instruction w (Instruction.casino_end_tournament tournament_id) =
    joined (w.u8.write 29 ∷ w.u64.write tournament_id ∷ [])

-- What follows the tag.
unfoldable pub read_instruction_of : Wire → ℕ → Reader Instruction
read_instruction_of w kind =
    if kind == 10
    then (do name ← read_name w; pure (Instruction.casino_register name))
    else if kind == 11
    then (do amount ← w.u64.read; pure (Instruction.casino_deposit amount))
    else if kind == 12
    then (do
      game_type ← read_game_type w
      bet ← w.u64.read
      session_id ← w.u64.read
      pure (Instruction.casino_start_game game_type bet session_id))
    else if kind == 13
    then (do
      session_id ← w.u64.read
      payload ← read_payload w
      pure (Instruction.casino_game_move session_id payload))
    else if kind == 14
    then pure Instruction.casino_toggle_shield
    else if kind == 15
    then pure Instruction.casino_toggle_double
    else if kind == 30
    then pure Instruction.casino_toggle_super
    else if kind == 16
    then (do tournament_id ← w.u64.read; pure (Instruction.casino_join_tournament tournament_id))
    else if kind == 17
    then (do
      tournament_id ← w.u64.read
      start_time_ms ← w.u64.read
      end_time_ms ← w.u64.read
      pure (Instruction.casino_start_tournament tournament_id start_time_ms end_time_ms))
    else if kind == 18
    then (do amount ← w.u64.read; duration ← w.u64.read; pure (Instruction.stake amount duration))
    else if kind == 19
    then pure Instruction.unstake
    else if kind == 20
    then pure Instruction.claim_rewards
    else if kind == 21
    then pure Instruction.process_epoch
    else if kind == 22
    then pure Instruction.create_vault
    else if kind == 23
    then (do amount ← w.u64.read; pure (Instruction.deposit_collateral amount))
    else if kind == 24
    then (do amount ← w.u64.read; pure (Instruction.borrow_usdt amount))
    else if kind == 25
    then (do amount ← w.u64.read; pure (Instruction.repay_usdt amount))
    else if kind == 26
    then (do
      amount_in ← w.u64.read
      min_amount_out ← w.u64.read
      is_buying_rng ← w.bool.read
      pure (Instruction.swap amount_in min_amount_out is_buying_rng))
    else if kind == 27
    then (do
      rng_amount ← w.u64.read
      usdt_amount ← w.u64.read
      pure (Instruction.add_liquidity rng_amount usdt_amount))
    else if kind == 28
    then (do shares ← w.u64.read; pure (Instruction.remove_liquidity shares))
    else if kind == 29
    then (do tournament_id ← w.u64.read; pure (Instruction.casino_end_tournament tournament_id))
    else fail (CodecError.invalid_enum kind)

unfoldable pub read_instruction : Wire → Reader Instruction
read_instruction w = do kind ← w.u8.read; read_instruction_of w kind

unfoldable pub instruction_size : Wire → Instruction → ℕ
instruction_size w (Instruction.casino_register name) = 1 + (4 + length name)
instruction_size w (Instruction.casino_deposit _) = 1 + (8)
instruction_size w (Instruction.casino_start_game _ _ _) = 1 + (1 + 8 + 8)
instruction_size w (Instruction.casino_game_move _ payload) = 1 + (8 + 4 + length payload)
instruction_size w Instruction.casino_toggle_shield = 1
instruction_size w Instruction.casino_toggle_double = 1
instruction_size w Instruction.casino_toggle_super = 1
instruction_size w (Instruction.casino_join_tournament _) = 1 + (8)
instruction_size w (Instruction.casino_start_tournament _ _ _) = 1 + (8 + 8 + 8)
instruction_size w (Instruction.stake amount duration) =
    1 + (w.u64.encode_size amount + w.u64.encode_size duration)
instruction_size w Instruction.unstake = 1
instruction_size w Instruction.claim_rewards = 1
instruction_size w Instruction.process_epoch = 1
instruction_size w Instruction.create_vault = 1
instruction_size w (Instruction.deposit_collateral amount) = 1 + (w.u64.encode_size amount)
instruction_size w (Instruction.borrow_usdt amount) = 1 + (w.u64.encode_size amount)
instruction_size w (Instruction.repay_usdt amount) = 1 + (w.u64.encode_size amount)
instruction_size w (Instruction.swap amount_in min_amount_out is_buying_rng) =
    1
    + (w.u64.encode_size amount_in
        + w.u64.encode_size min_amount_out
        + w.bool.encode_size is_buying_rng)
instruction_size w (Instruction.add_liquidity rng_amount usdt_amount) =
    1 + (w.u64.encode_size rng_amount + w.u64.encode_size usdt_amount)
instruction_size w (Instruction.remove_liquidity shares) = 1 + (w.u64.encode_size shares)
instruction_size w (Instruction.casino_end_tournament tournament_id) =
    1 + (w.u64.encode_size tournament_id)

abbrev pub instruction_format : Wire → Format Instruction
instruction_format w = record {
  write = write_instruction w;
  read = read_instruction w;
  encode_size = instruction_size w;
}

abbrev pub IsPayload : Bytes → Type 0
IsPayload payload = length payload ≤ max_payload_length

Reads-name :
    (w : Wire) → IsWire w → (s : Bytes) → IsName w s → Reads (read_name w) (write_string w s) s
unfolding read_name read_string
Reads-name w l s h = Reads-string w l s h

Reads-payload :
    (w : Wire) → IsWire w → (s : Bytes) → IsPayload s → Reads (read_payload w) (write_string w s) s
unfolding read_payload write_string
Reads-payload w l s h =
    let same : length s % 2 ^ 32 ≡ length s = omega arith in
    rw same (
      Reads-bind _ (l.u32.reads (length s) (omega arith))
        (Reads-refuse _ _ (ground arith) (Reads-bind _ (Reads-take s) (Reads-pure s))))

-- The numbers are words, and the strings are not too long.
abbrev pub FitsInstruction : Wire → Instruction → Type 0
FitsInstruction w (Instruction.casino_register name) = IsName w name
FitsInstruction w (Instruction.casino_deposit amount) = Word 64 amount
FitsInstruction w (Instruction.casino_start_game _ bet session_id) =
    (Word 64 bet) × (Word 64 session_id)
FitsInstruction w (Instruction.casino_game_move session_id payload) =
    (Word 64 session_id) × (IsPayload payload)
FitsInstruction w Instruction.casino_toggle_shield = Unit
FitsInstruction w Instruction.casino_toggle_double = Unit
FitsInstruction w Instruction.casino_toggle_super = Unit
FitsInstruction w (Instruction.casino_join_tournament tournament_id) = Word 64 tournament_id
FitsInstruction w (Instruction.casino_start_tournament tournament_id start_time_ms end_time_ms) =
    (Word 64 tournament_id) × (Word 64 start_time_ms) × (Word 64 end_time_ms)
FitsInstruction w (Instruction.stake amount duration) = (Word 64 amount) × (Word 64 duration)
FitsInstruction w Instruction.unstake = Unit
FitsInstruction w Instruction.claim_rewards = Unit
FitsInstruction w Instruction.process_epoch = Unit
FitsInstruction w Instruction.create_vault = Unit
FitsInstruction w (Instruction.deposit_collateral amount) = Word 64 amount
FitsInstruction w (Instruction.borrow_usdt amount) = Word 64 amount
FitsInstruction w (Instruction.repay_usdt amount) = Word 64 amount
FitsInstruction w (Instruction.swap amount_in min_amount_out _) =
    (Word 64 amount_in) × (Word 64 min_amount_out)
FitsInstruction w (Instruction.add_liquidity rng_amount usdt_amount) =
    (Word 64 rng_amount) × (Word 64 usdt_amount)
FitsInstruction w (Instruction.remove_liquidity shares) = Word 64 shares
FitsInstruction w (Instruction.casino_end_tournament tournament_id) = Word 64 tournament_id

Reads-instruction_of :
    (w : Wire)
    → IsWire w
    → (v : Instruction) → FitsInstruction w v
    → Reads (read_instruction w) (write_instruction w v) v
unfolding read_instruction read_instruction_of write_instruction
Reads-instruction_of w l (Instruction.casino_register name) h =
    Reads-bind _ (l.u8.reads 10 (omega arith)) (Reads-bind _ (Reads-name w l name h) (Reads-pure _))
Reads-instruction_of w l (Instruction.casino_deposit amount) h =
    Reads-bind _ (l.u8.reads 11 (omega arith)) (Reads-bind _ (l.u64.reads amount h) (Reads-pure _))
Reads-instruction_of w l (Instruction.casino_start_game game_type bet session_id) h =
    Reads-bind _ (l.u8.reads 12 (omega arith)) (
      Reads-bind _ ((game_type_format-IsFormat w l).reads game_type tt) (
        Reads-bind _ (l.u64.reads bet h.0)
          (Reads-bind _ (l.u64.reads session_id h.1) (Reads-pure _))))
Reads-instruction_of w l (Instruction.casino_game_move session_id payload) h =
    Reads-bind _ (l.u8.reads 13 (omega arith)) (
      Reads-bind _ (l.u64.reads session_id h.0)
        (Reads-bind _ (Reads-payload w l payload h.1) (Reads-pure _)))
Reads-instruction_of w l Instruction.casino_toggle_shield h =
    Reads-bind _ (l.u8.reads 14 (omega arith)) (Reads-pure _)
Reads-instruction_of w l Instruction.casino_toggle_double h =
    Reads-bind _ (l.u8.reads 15 (omega arith)) (Reads-pure _)
Reads-instruction_of w l Instruction.casino_toggle_super h =
    Reads-bind _ (l.u8.reads 30 (omega arith)) (Reads-pure _)
Reads-instruction_of w l (Instruction.casino_join_tournament tournament_id) h =
    Reads-bind _ (l.u8.reads 16 (omega arith))
      (Reads-bind _ (l.u64.reads tournament_id h) (Reads-pure _))
Reads-instruction_of w l
      (Instruction.casino_start_tournament tournament_id start_time_ms end_time_ms) h =
    Reads-bind _ (l.u8.reads 17 (omega arith)) (
      Reads-bind _ (l.u64.reads tournament_id h.0) (
        Reads-bind _ (l.u64.reads start_time_ms h.1)
          (Reads-bind _ (l.u64.reads end_time_ms h.2) (Reads-pure _))))
Reads-instruction_of w l (Instruction.stake amount duration) h =
    Reads-bind _ (l.u8.reads 18 (omega arith)) (
      Reads-bind _ (l.u64.reads amount h.0)
        (Reads-bind _ (l.u64.reads duration h.1) (Reads-pure _)))
Reads-instruction_of w l Instruction.unstake h =
    Reads-bind _ (l.u8.reads 19 (omega arith)) (Reads-pure _)
Reads-instruction_of w l Instruction.claim_rewards h =
    Reads-bind _ (l.u8.reads 20 (omega arith)) (Reads-pure _)
Reads-instruction_of w l Instruction.process_epoch h =
    Reads-bind _ (l.u8.reads 21 (omega arith)) (Reads-pure _)
Reads-instruction_of w l Instruction.create_vault h =
    Reads-bind _ (l.u8.reads 22 (omega arith)) (Reads-pure _)
Reads-instruction_of w l (Instruction.deposit_collateral amount) h =
    Reads-bind _ (l.u8.reads 23 (omega arith)) (Reads-bind _ (l.u64.reads amount h) (Reads-pure _))
Reads-instruction_of w l (Instruction.borrow_usdt amount) h =
    Reads-bind _ (l.u8.reads 24 (omega arith)) (Reads-bind _ (l.u64.reads amount h) (Reads-pure _))
Reads-instruction_of w l (Instruction.repay_usdt amount) h =
    Reads-bind _ (l.u8.reads 25 (omega arith)) (Reads-bind _ (l.u64.reads amount h) (Reads-pure _))
Reads-instruction_of w l (Instruction.swap amount_in min_amount_out is_buying_rng) h =
    Reads-bind _ (l.u8.reads 26 (omega arith)) (
      Reads-bind _ (l.u64.reads amount_in h.0) (
        Reads-bind _ (l.u64.reads min_amount_out h.1)
          (Reads-bind _ (l.bool.reads is_buying_rng tt) (Reads-pure _))))
Reads-instruction_of w l (Instruction.add_liquidity rng_amount usdt_amount) h =
    Reads-bind _ (l.u8.reads 27 (omega arith)) (
      Reads-bind _ (l.u64.reads rng_amount h.0)
        (Reads-bind _ (l.u64.reads usdt_amount h.1) (Reads-pure _)))
Reads-instruction_of w l (Instruction.remove_liquidity shares) h =
    Reads-bind _ (l.u8.reads 28 (omega arith)) (Reads-bind _ (l.u64.reads shares h) (Reads-pure _))
Reads-instruction_of w l (Instruction.casino_end_tournament tournament_id) h =
    Reads-bind _ (l.u8.reads 29 (omega arith))
      (Reads-bind _ (l.u64.reads tournament_id h) (Reads-pure _))

length-write_instruction :
    (w : Wire)
    → IsWire w
    → (v : Instruction) → length (write_instruction w v) ≡ instruction_size w v
unfolding write_instruction instruction_size string_encode_size
length-write_instruction w l v = grind (
  arith,
  length-append,
  l.u8.sized,
  l.size8,
  l.size64,
  (game_type_format-IsFormat w l).sized,
  l.bool.sized,
  l.u64.sized,
  length-write_string w l,
)

pub instruction_format-IsFormat :
    (w : Wire) → IsWire w → IsFormat (instruction_format w) (FitsInstruction w)
instruction_format-IsFormat w l = record {
  reads = Reads-instruction_of w l;
  sized = length-write_instruction w l;
}
