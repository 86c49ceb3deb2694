-- ===== src/Codec/Values.antt =====
-- `Value` of types/src/execution.rs: the encoding.
use supersociety_battleware.Base.{
  ℕ, ◌+◌, ◌≡◌, ◌==◌, [], ◌∷◌, length, arith, if◌then◌else◌, length-append,
}
use supersociety_battleware.Codec.Reader.{
  Bytes, CodecError, Reader, ◌>>=◌, pure, fail, Reads, Reads-bind, Reads-pure, joined, Format,
  IsFormat,
}
use supersociety_battleware.Codec.Wire.{Wire, IsWire, Word}
use supersociety_battleware.Types.{Value}
use supersociety_battleware.Codec.Keys.{
  account_format, write_account, read_account, account_format-IsFormat, FitsAccount,
}
use supersociety_battleware.Codec.Players.{
  player_format, write_player, read_player, player_format-IsFormat, session_format, write_session,
  read_session, session_format-IsFormat, FitsPlayer, FitsSession,
}
use supersociety_battleware.Codec.Economy.{
  house_format, write_house, read_house, house_format-IsFormat, staker_format, write_staker,
  read_staker, staker_format-IsFormat, vault_format, write_vault, read_vault, vault_format-IsFormat,
  amm_pool_format, write_amm_pool, read_amm_pool, amm_pool_format-IsFormat, FitsHouse, FitsStaker,
  FitsVault, FitsPool,
}
use supersociety_battleware.Codec.Tournaments.{
  leaderboard_format, write_leaderboard, read_leaderboard, leaderboard_format-IsFormat,
  tournament_format, write_tournament, read_tournament, tournament_format-IsFormat, FitsBoard,
  FitsTournament,
}

-- `Value`, with the tags of `tags::value`.
unfoldable pub write_value : Wire → Value → Bytes
write_value w (Value.account v) = joined (w.u8.write 0 ∷ write_account w v ∷ [])
write_value w (Value.commit height start) =
    joined (w.u8.write 3 ∷ w.u64.write height ∷ w.u64.write start ∷ [])
write_value w (Value.casino_player v) = joined (w.u8.write 10 ∷ write_player w v ∷ [])
write_value w (Value.casino_session v) = joined (w.u8.write 11 ∷ write_session w v ∷ [])
write_value w (Value.casino_leaderboard v) = joined (w.u8.write 12 ∷ write_leaderboard w v ∷ [])
write_value w (Value.tournament v) = joined (w.u8.write 13 ∷ write_tournament w v ∷ [])
write_value w (Value.house v) = joined (w.u8.write 14 ∷ write_house w v ∷ [])
write_value w (Value.staker v) = joined (w.u8.write 15 ∷ write_staker w v ∷ [])
write_value w (Value.vault v) = joined (w.u8.write 16 ∷ write_vault w v ∷ [])
write_value w (Value.amm_pool v) = joined (w.u8.write 17 ∷ write_amm_pool w v ∷ [])
write_value w (Value.lp_balance bal) = joined (w.u8.write 18 ∷ w.u64.write bal ∷ [])

-- What follows the tag.
unfoldable pub read_value_of : Wire → ℕ → Reader Value
read_value_of w kind =
    if kind == 0
    then (do v ← read_account w; pure (Value.account v))
    else if kind == 3
    then (do height ← w.u64.read; start ← w.u64.read; pure (Value.commit height start))
    else if kind == 10
    then (do v ← read_player w; pure (Value.casino_player v))
    else if kind == 11
    then (do v ← read_session w; pure (Value.casino_session v))
    else if kind == 12
    then (do v ← read_leaderboard w; pure (Value.casino_leaderboard v))
    else if kind == 13
    then (do v ← read_tournament w; pure (Value.tournament v))
    else if kind == 14
    then (do v ← read_house w; pure (Value.house v))
    else if kind == 15
    then (do v ← read_staker w; pure (Value.staker v))
    else if kind == 16
    then (do v ← read_vault w; pure (Value.vault v))
    else if kind == 17
    then (do v ← read_amm_pool w; pure (Value.amm_pool v))
    else if kind == 18
    then (do bal ← w.u64.read; pure (Value.lp_balance bal))
    else fail (CodecError.invalid_enum kind)

unfoldable pub read_value : Wire → Reader Value
read_value w = do kind ← w.u8.read; read_value_of w kind

unfoldable pub value_size : Wire → Value → ℕ
value_size w (Value.account v) = 1 + ((account_format w).encode_size v)
value_size w (Value.commit height start) = 1 + (w.u64.encode_size height + w.u64.encode_size start)
value_size w (Value.casino_player v) = 1 + ((player_format w).encode_size v)
value_size w (Value.casino_session v) = 1 + ((session_format w).encode_size v)
value_size w (Value.casino_leaderboard v) = 1 + ((leaderboard_format w).encode_size v)
value_size w (Value.tournament v) = 1 + ((tournament_format w).encode_size v)
value_size w (Value.house v) = 1 + ((house_format w).encode_size v)
value_size w (Value.staker v) = 1 + ((staker_format w).encode_size v)
value_size w (Value.vault v) = 1 + ((vault_format w).encode_size v)
value_size w (Value.amm_pool v) = 1 + ((amm_pool_format w).encode_size v)
value_size w (Value.lp_balance bal) = 1 + (w.u64.encode_size bal)

abbrev pub value_format : Wire → Format Value
value_format w = record { write = write_value w; read = read_value w; encode_size = value_size w }

-- The numbers are words, and the strings are not too long.
abbrev pub FitsValue : Wire → Value → Type 0
FitsValue w (Value.account v) = FitsAccount w v
FitsValue w (Value.commit height start) = (Word 64 height) × (Word 64 start)
FitsValue w (Value.casino_player v) = FitsPlayer w v
FitsValue w (Value.casino_session v) = FitsSession w v
FitsValue w (Value.casino_leaderboard v) = FitsBoard w v
FitsValue w (Value.tournament v) = FitsTournament w v
FitsValue w (Value.house v) = FitsHouse w v
FitsValue w (Value.staker v) = FitsStaker w v
FitsValue w (Value.vault v) = FitsVault w v
FitsValue w (Value.amm_pool v) = FitsPool w v
FitsValue w (Value.lp_balance bal) = Word 64 bal

Reads-value_of :
    (w : Wire) → IsWire w → (v : Value) → FitsValue w v → Reads (read_value w) (write_value w v) v
unfolding read_value read_value_of write_value
Reads-value_of w l (Value.account v) h =
    Reads-bind _ (l.u8.reads 0 (omega arith))
      (Reads-bind _ ((account_format-IsFormat w l).reads v h) (Reads-pure _))
Reads-value_of w l (Value.commit height start) h =
    Reads-bind _ (l.u8.reads 3 (omega arith))
      (Reads-bind _ (l.u64.reads height h.0) (Reads-bind _ (l.u64.reads start h.1) (Reads-pure _)))
Reads-value_of w l (Value.casino_player v) h =
    Reads-bind _ (l.u8.reads 10 (omega arith))
      (Reads-bind _ ((player_format-IsFormat w l).reads v h) (Reads-pure _))
Reads-value_of w l (Value.casino_session v) h =
    Reads-bind _ (l.u8.reads 11 (omega arith))
      (Reads-bind _ ((session_format-IsFormat w l).reads v h) (Reads-pure _))
Reads-value_of w l (Value.casino_leaderboard v) h =
    Reads-bind _ (l.u8.reads 12 (omega arith))
      (Reads-bind _ ((leaderboard_format-IsFormat w l).reads v h) (Reads-pure _))
Reads-value_of w l (Value.tournament v) h =
    Reads-bind _ (l.u8.reads 13 (omega arith))
      (Reads-bind _ ((tournament_format-IsFormat w l).reads v h) (Reads-pure _))
Reads-value_of w l (Value.house v) h =
    Reads-bind _ (l.u8.reads 14 (omega arith))
      (Reads-bind _ ((house_format-IsFormat w l).reads v h) (Reads-pure _))
Reads-value_of w l (Value.staker v) h =
    Reads-bind _ (l.u8.reads 15 (omega arith))
      (Reads-bind _ ((staker_format-IsFormat w l).reads v h) (Reads-pure _))
Reads-value_of w l (Value.vault v) h =
    Reads-bind _ (l.u8.reads 16 (omega arith))
      (Reads-bind _ ((vault_format-IsFormat w l).reads v h) (Reads-pure _))
Reads-value_of w l (Value.amm_pool v) h =
    Reads-bind _ (l.u8.reads 17 (omega arith))
      (Reads-bind _ ((amm_pool_format-IsFormat w l).reads v h) (Reads-pure _))
Reads-value_of w l (Value.lp_balance bal) h =
    Reads-bind _ (l.u8.reads 18 (omega arith)) (Reads-bind _ (l.u64.reads bal h) (Reads-pure _))

length-write_value : (w : Wire) → IsWire w → (v : Value) → length (write_value w v) ≡ value_size w v
unfolding write_value value_size
length-write_value w l v = grind (
  arith,
  length-append,
  l.u8.sized,
  l.size8,
  l.size64,
  (account_format-IsFormat w l).sized,
  (amm_pool_format-IsFormat w l).sized,
  (house_format-IsFormat w l).sized,
  (leaderboard_format-IsFormat w l).sized,
  (player_format-IsFormat w l).sized,
  (session_format-IsFormat w l).sized,
  (staker_format-IsFormat w l).sized,
  (tournament_format-IsFormat w l).sized,
  (vault_format-IsFormat w l).sized,
  l.u64.sized,
)

-- A value of the state is read back as it was written, whatever follows it, if its numbers are words
-- and its strings and lists are within the limits; its encoding has the size that is told.
pub value_format-IsFormat : (w : Wire) → IsWire w → IsFormat (value_format w) (FitsValue w)
value_format-IsFormat w l = record { reads = Reads-value_of w l; sized = length-write_value w l }
