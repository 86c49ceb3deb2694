-- ===== src/Codec/Games.antt =====
-- types/src/casino/game.rs: the encodings.
use supersociety_battleware.Base.{
  ℕ, ◌+◌, ◌^◌, ◌<◌, ◌∙◌, ◌==◌, [], ◌∷◌, arith, if◌then◌else◌, length-append,
}
use mathlib.Core.List.{append-nil}
use supersociety_battleware.Codec.Reader.{
  Bytes, CodecError, Reader, ◌>>=◌, pure, fail, Reads, Reads-bind, Reads-pure, joined, Format,
  IsFormat,
}
use supersociety_battleware.Codec.Wire.{Wire, IsWire, Word, Any, UpTo}
use supersociety_battleware.Types.{GameType, SuperType, SuperMultiplier, SuperModeState}

-- `GameType`, by its number.
abbrev pub game_type_number : GameType → ℕ
game_type_number GameType.baccarat = 0
game_type_number GameType.blackjack = 1
game_type_number GameType.casino_war = 2
game_type_number GameType.craps = 3
game_type_number GameType.video_poker = 4
game_type_number GameType.hi_lo = 5
game_type_number GameType.roulette = 6
game_type_number GameType.sic_bo = 7
game_type_number GameType.three_card = 8
game_type_number GameType.ultimate_holdem = 9

unfoldable pub write_game_type : Wire → GameType → Bytes
write_game_type w v = w.u8.write (game_type_number v)

abbrev pub game_type_of : ℕ → Reader GameType
game_type_of kind =
    if kind == 0
    then pure GameType.baccarat
    else if kind == 1
    then pure GameType.blackjack
    else if kind == 2
    then pure GameType.casino_war
    else if kind == 3
    then pure GameType.craps
    else if kind == 4
    then pure GameType.video_poker
    else if kind == 5
    then pure GameType.hi_lo
    else if kind == 6
    then pure GameType.roulette
    else if kind == 7
    then pure GameType.sic_bo
    else if kind == 8
    then pure GameType.three_card
    else if kind == 9
    then pure GameType.ultimate_holdem
    else fail (CodecError.invalid_enum kind)

unfoldable pub read_game_type : Wire → Reader GameType
read_game_type w = do kind ← w.u8.read; game_type_of kind

abbrev pub game_type_format : Wire → Format GameType
game_type_format w = record {
  write = write_game_type w;
  read = read_game_type w;
  encode_size = λ v. 1;
}

-- `SuperType`
abbrev pub super_type_number : SuperType → ℕ
super_type_number SuperType.card = 0
super_type_number SuperType.number = 1
super_type_number SuperType.total = 2
super_type_number SuperType.rank = 3
super_type_number SuperType.suit = 4

unfoldable pub write_super_type : Wire → SuperType → Bytes
write_super_type w v = w.u8.write (super_type_number v)

abbrev pub super_type_of : ℕ → Reader SuperType
super_type_of kind =
    if kind == 0
    then pure SuperType.card
    else if kind == 1
    then pure SuperType.number
    else if kind == 2
    then pure SuperType.total
    else if kind == 3
    then pure SuperType.rank
    else if kind == 4
    then pure SuperType.suit
    else fail (CodecError.invalid_enum kind)

unfoldable pub read_super_type : Wire → Reader SuperType
read_super_type w = do kind ← w.u8.read; super_type_of kind

abbrev pub super_type_format : Wire → Format SuperType
super_type_format w = record {
  write = write_super_type w;
  read = read_super_type w;
  encode_size = λ v. 1;
}

-- `SuperMultiplier`
unfoldable pub write_super_multiplier : Wire → SuperMultiplier → Bytes
write_super_multiplier w v =
    joined (w.u8.write v.id ∷ w.u16.write v.multiplier ∷ write_super_type w v.super_type ∷ [])

unfoldable pub read_super_multiplier : Wire → Reader SuperMultiplier
read_super_multiplier w = do
  id ← w.u8.read
  multiplier ← w.u16.read
  super_type ← read_super_type w
  pure (record { id = id; multiplier = multiplier; super_type = super_type })

unfoldable pub super_multiplier_size : Wire → SuperMultiplier → ℕ
super_multiplier_size w v =
    w.u8.encode_size v.id
    + w.u16.encode_size v.multiplier
    + (super_type_format w).encode_size v.super_type

abbrev pub super_multiplier_format : Wire → Format SuperMultiplier
super_multiplier_format w = record {
  write = write_super_multiplier w;
  read = read_super_multiplier w;
  encode_size = super_multiplier_size w;
}

-- `SuperModeState`
unfoldable pub write_super_mode : Wire → SuperModeState → Bytes
write_super_mode w v = joined (
    w.bool.write v.is_active
    ∷ (w.vec 10 (super_multiplier_format w)).write v.multipliers
    ∷ w.u8.write v.streak_level
    ∷ [])

unfoldable pub read_super_mode : Wire → Reader SuperModeState
read_super_mode w = do
  is_active ← w.bool.read
  multipliers ← (w.vec 10 (super_multiplier_format w)).read
  streak_level ← w.u8.read
  pure (record { is_active = is_active; multipliers = multipliers; streak_level = streak_level })

unfoldable pub super_mode_size : Wire → SuperModeState → ℕ
super_mode_size w v =
    w.bool.encode_size v.is_active
    + (w.vec 10 (super_multiplier_format w)).encode_size v.multipliers
    + w.u8.encode_size v.streak_level

abbrev pub super_mode_format : Wire → Format SuperModeState
super_mode_format w = record {
  write = write_super_mode w;
  read = read_super_mode w;
  encode_size = super_mode_size w;
}

Reads-game_type_of : (v : GameType) → Reads (game_type_of (game_type_number v)) [] v
Reads-game_type_of GameType.baccarat = Reads-pure _
Reads-game_type_of GameType.blackjack = Reads-pure _
Reads-game_type_of GameType.casino_war = Reads-pure _
Reads-game_type_of GameType.craps = Reads-pure _
Reads-game_type_of GameType.video_poker = Reads-pure _
Reads-game_type_of GameType.hi_lo = Reads-pure _
Reads-game_type_of GameType.roulette = Reads-pure _
Reads-game_type_of GameType.sic_bo = Reads-pure _
Reads-game_type_of GameType.three_card = Reads-pure _
Reads-game_type_of GameType.ultimate_holdem = Reads-pure _

game_type_number_small : (v : GameType) → game_type_number v < 2 ^ 8
game_type_number_small v = ground arith

pub game_type_format-IsFormat : (w : Wire) → IsWire w → IsFormat (game_type_format w) Any
unfolding write_game_type read_game_type
game_type_format-IsFormat w l = record {
  reads = λ v h. rw (← append-nil (w.u8.write (game_type_number v))) (
      Reads-bind _ (l.u8.reads (game_type_number v) (game_type_number_small v))
        (Reads-game_type_of v));
  sized = λ v. l.u8.sized (game_type_number v) ∙ l.size8 (game_type_number v);
}

Reads-super_type_of : (v : SuperType) → Reads (super_type_of (super_type_number v)) [] v
Reads-super_type_of SuperType.card = Reads-pure _
Reads-super_type_of SuperType.number = Reads-pure _
Reads-super_type_of SuperType.total = Reads-pure _
Reads-super_type_of SuperType.rank = Reads-pure _
Reads-super_type_of SuperType.suit = Reads-pure _

super_type_number_small : (v : SuperType) → super_type_number v < 2 ^ 8
super_type_number_small v = ground arith

pub super_type_format-IsFormat : (w : Wire) → IsWire w → IsFormat (super_type_format w) Any
unfolding write_super_type read_super_type
super_type_format-IsFormat w l = record {
  reads = λ v h. rw (← append-nil (w.u8.write (super_type_number v))) (
      Reads-bind _ (l.u8.reads (super_type_number v) (super_type_number_small v))
        (Reads-super_type_of v));
  sized = λ v. l.u8.sized (super_type_number v) ∙ l.size8 (super_type_number v);
}

-- The fields are in the ranges of their formats.
pub record FitsMultiplier (w : Wire) (v : SuperMultiplier) : Type 0 where
  pub id : Word 8 v.id
  pub multiplier : Word 16 v.multiplier

pub super_multiplier_format-IsFormat :
    (w : Wire) → IsWire w → IsFormat (super_multiplier_format w) (FitsMultiplier w)
unfolding write_super_multiplier read_super_multiplier super_multiplier_size
super_multiplier_format-IsFormat w l = record {
  reads = λ v h. Reads-bind _ (l.u8.reads v.id h.id) (
      Reads-bind _ (l.u16.reads v.multiplier h.multiplier)
        (Reads-bind _ ((super_type_format-IsFormat w l).reads v.super_type tt) (Reads-pure _)));
  sized = λ v.
      simp (length-append, l.u8.sized, l.u16.sized, (super_type_format-IsFormat w l).sized)
        (omega arith);
}

-- The fields are in the ranges of their formats.
pub record FitsSuperMode (w : Wire) (v : SuperModeState) : Type 0 where
  pub multipliers : UpTo 10 (FitsMultiplier w) v.multipliers
  pub streak_level : Word 8 v.streak_level

pub super_mode_format-IsFormat :
    (w : Wire) → IsWire w → IsFormat (super_mode_format w) (FitsSuperMode w)
unfolding write_super_mode read_super_mode super_mode_size
super_mode_format-IsFormat w l = record {
  reads = λ v h. Reads-bind _ (l.bool.reads v.is_active tt) (
      Reads-bind _
        ((l.vec 10 (super_multiplier_format w) (FitsMultiplier w)
            (super_multiplier_format-IsFormat w l)).reads
          v.multipliers h.multipliers)
        (Reads-bind _ (l.u8.reads v.streak_level h.streak_level) (Reads-pure _)));
  sized = λ v.
      simp
        (
          length-append,
          l.bool.sized,
          (l.vec 10 (super_multiplier_format w) (FitsMultiplier w)
              (super_multiplier_format-IsFormat w l)).sized,
          l.u8.sized,
        )
        (omega arith);
}
