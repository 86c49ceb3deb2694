-- ===== src/Codec/Tournaments.antt =====
-- types/src/casino/leaderboard.rs and types/src/casino/tournament.rs: the encodings.
use supersociety_battleware.Base.{
  ℕ, ◌+◌, ◌^◌, ◌<◌, ◌∙◌, ◌==◌, [], ◌∷◌, arith, if◌then◌else◌, length-append,
}
use mathlib.Core.List.{append-nil}
use supersociety_battleware.Codec.Reader.{
  Bytes, CodecError, Reader, ◌>>=◌, pure, fail, Reads, Reads-bind, Reads-pure, joined, Format,
  IsFormat,
}
use supersociety_battleware.Codec.Wire.{Wire, IsWire, Word, Any, UpTo}
use supersociety_battleware.Codec.Strings.{
  write_string, read_string, string_encode_size, max_name_length, IsName, Reads-string,
  length-write_string,
}
use supersociety_battleware.Types.{LeaderboardEntry, CasinoLeaderboard, TournamentPhase, Tournament}

-- `LeaderboardEntry`
unfoldable pub write_entry : Wire → LeaderboardEntry → Bytes
write_entry w v = joined (
    w.public_key.write v.player
    ∷ write_string w v.name
    ∷ w.u64.write v.chips
    ∷ w.u32.write v.rank
    ∷ [])

unfoldable pub read_entry : Wire → Reader LeaderboardEntry
read_entry w = do
  player ← w.public_key.read
  name ← read_string w max_name_length
  chips ← w.u64.read
  rank ← w.u32.read
  pure (record { player = player; name = name; chips = chips; rank = rank })

unfoldable pub entry_size : Wire → LeaderboardEntry → ℕ
entry_size w v =
    w.public_key.encode_size v.player
    + string_encode_size v.name
    + w.u64.encode_size v.chips
    + w.u32.encode_size v.rank

abbrev pub entry_format : Wire → Format LeaderboardEntry
entry_format w = record { write = write_entry w; read = read_entry w; encode_size = entry_size w }

-- `CasinoLeaderboard`
unfoldable pub write_leaderboard : Wire → CasinoLeaderboard → Bytes
write_leaderboard w v = joined ((w.vec 10 (entry_format w)).write v.entries ∷ [])

unfoldable pub read_leaderboard : Wire → Reader CasinoLeaderboard
read_leaderboard w = do
  entries ← (w.vec 10 (entry_format w)).read
  pure (record { entries = entries })

unfoldable pub leaderboard_size : Wire → CasinoLeaderboard → ℕ
leaderboard_size w v = (w.vec 10 (entry_format w)).encode_size v.entries

abbrev pub leaderboard_format : Wire → Format CasinoLeaderboard
leaderboard_format w = record {
  write = write_leaderboard w;
  read = read_leaderboard w;
  encode_size = leaderboard_size w;
}

-- `TournamentPhase`
abbrev pub phase_number : TournamentPhase → ℕ
phase_number TournamentPhase.registration = 0
phase_number TournamentPhase.active = 1
phase_number TournamentPhase.complete = 2

unfoldable pub write_phase : Wire → TournamentPhase → Bytes
write_phase w v = w.u8.write (phase_number v)

abbrev pub phase_of : ℕ → Reader TournamentPhase
phase_of kind =
    if kind == 0
    then pure TournamentPhase.registration
    else if kind == 1
    then pure TournamentPhase.active
    else if kind == 2
    then pure TournamentPhase.complete
    else fail (CodecError.invalid_enum kind)

unfoldable pub read_phase : Wire → Reader TournamentPhase
read_phase w = do kind ← w.u8.read; phase_of kind

abbrev pub phase_format : Wire → Format TournamentPhase
phase_format w = record { write = write_phase w; read = read_phase w; encode_size = λ v. 1 }

-- `Tournament`
unfoldable pub write_tournament : Wire → Tournament → Bytes
write_tournament w v = joined (
    w.u64.write v.id
    ∷ write_phase w v.phase
    ∷ w.u64.write v.start_block
    ∷ w.u64.write v.start_time_ms
    ∷ w.u64.write v.end_time_ms
    ∷ (w.vec 1000 w.public_key).write v.players
    ∷ w.u64.write v.prize_pool
    ∷ w.u64.write v.starting_chips
    ∷ w.u32.write v.starting_shields
    ∷ w.u32.write v.starting_doubles
    ∷ write_leaderboard w v.leaderboard
    ∷ [])

unfoldable pub read_tournament : Wire → Reader Tournament
read_tournament w = do
  id ← w.u64.read
  phase ← read_phase w
  start_block ← w.u64.read
  start_time_ms ← w.u64.read
  end_time_ms ← w.u64.read
  players ← (w.vec 1000 w.public_key).read
  prize_pool ← w.u64.read
  starting_chips ← w.u64.read
  starting_shields ← w.u32.read
  starting_doubles ← w.u32.read
  leaderboard ← read_leaderboard w
  pure (record {
    id = id;
    phase = phase;
    start_block = start_block;
    start_time_ms = start_time_ms;
    end_time_ms = end_time_ms;
    players = players;
    prize_pool = prize_pool;
    starting_chips = starting_chips;
    starting_shields = starting_shields;
    starting_doubles = starting_doubles;
    leaderboard = leaderboard;
  })

unfoldable pub tournament_size : Wire → Tournament → ℕ
tournament_size w v =
    w.u64.encode_size v.id
    + (phase_format w).encode_size v.phase
    + w.u64.encode_size v.start_block
    + w.u64.encode_size v.start_time_ms
    + w.u64.encode_size v.end_time_ms
    + (w.vec 1000 w.public_key).encode_size v.players
    + w.u64.encode_size v.prize_pool
    + w.u64.encode_size v.starting_chips
    + w.u32.encode_size v.starting_shields
    + w.u32.encode_size v.starting_doubles
    + (leaderboard_format w).encode_size v.leaderboard

abbrev pub tournament_format : Wire → Format Tournament
tournament_format w = record {
  write = write_tournament w;
  read = read_tournament w;
  encode_size = tournament_size w;
}

-- The fields are in the ranges of their formats.
pub record FitsEntry (w : Wire) (v : LeaderboardEntry) : Type 0 where
  pub player : Word 256 v.player
  pub name : IsName w v.name
  pub chips : Word 64 v.chips
  pub rank : Word 32 v.rank

pub entry_format-IsFormat : (w : Wire) → IsWire w → IsFormat (entry_format w) (FitsEntry w)
unfolding write_entry read_entry entry_size
entry_format-IsFormat w l = record {
  reads = λ v h. Reads-bind _ (l.public_key.reads v.player h.player) (
      Reads-bind _ (Reads-string w l v.name h.name) (
        Reads-bind _ (l.u64.reads v.chips h.chips)
          (Reads-bind _ (l.u32.reads v.rank h.rank) (Reads-pure _))));
  sized = λ v.
      simp (length-append, l.public_key.sized, length-write_string w l, l.u64.sized, l.u32.sized)
        (omega arith);
}

-- The fields are in the ranges of their formats.
pub record FitsBoard (w : Wire) (v : CasinoLeaderboard) : Type 0 where
  pub entries : UpTo 10 (FitsEntry w) v.entries

pub leaderboard_format-IsFormat :
    (w : Wire) → IsWire w → IsFormat (leaderboard_format w) (FitsBoard w)
unfolding write_leaderboard read_leaderboard leaderboard_size
leaderboard_format-IsFormat w l = record {
  reads = λ v h.
      Reads-bind _
        ((l.vec 10 (entry_format w) (FitsEntry w) (entry_format-IsFormat w l)).reads v.entries
          h.entries)
        (Reads-pure _);
  sized = λ v.
      simp
        (length-append, (l.vec 10 (entry_format w) (FitsEntry w) (entry_format-IsFormat w l)).sized)
        (omega arith);
}

Reads-phase_of : (v : TournamentPhase) → Reads (phase_of (phase_number v)) [] v
Reads-phase_of TournamentPhase.registration = Reads-pure _
Reads-phase_of TournamentPhase.active = Reads-pure _
Reads-phase_of TournamentPhase.complete = Reads-pure _

phase_number_small : (v : TournamentPhase) → phase_number v < 2 ^ 8
phase_number_small v = ground arith

pub phase_format-IsFormat : (w : Wire) → IsWire w → IsFormat (phase_format w) Any
unfolding write_phase read_phase
phase_format-IsFormat w l = record {
  reads = λ v h.
      rw (← append-nil (w.u8.write (phase_number v)))
        (Reads-bind _ (l.u8.reads (phase_number v) (phase_number_small v)) (Reads-phase_of v));
  sized = λ v. l.u8.sized (phase_number v) ∙ l.size8 (phase_number v);
}

-- The fields are in the ranges of their formats.
pub record FitsTournament (w : Wire) (v : Tournament) : Type 0 where
  pub id : Word 64 v.id
  pub start_block : Word 64 v.start_block
  pub start_time_ms : Word 64 v.start_time_ms
  pub end_time_ms : Word 64 v.end_time_ms
  pub players : UpTo 1000 (Word 256) v.players
  pub prize_pool : Word 64 v.prize_pool
  pub starting_chips : Word 64 v.starting_chips
  pub starting_shields : Word 32 v.starting_shields
  pub starting_doubles : Word 32 v.starting_doubles
  pub leaderboard : FitsBoard w v.leaderboard

pub tournament_format-IsFormat :
    (w : Wire) → IsWire w → IsFormat (tournament_format w) (FitsTournament w)
unfolding write_tournament read_tournament tournament_size
tournament_format-IsFormat w l = record {
  reads = λ v h. Reads-bind _ (l.u64.reads v.id h.id) (
      Reads-bind _ ((phase_format-IsFormat w l).reads v.phase tt) (
        Reads-bind _ (l.u64.reads v.start_block h.start_block) (
          Reads-bind _ (l.u64.reads v.start_time_ms h.start_time_ms) (
            Reads-bind _ (l.u64.reads v.end_time_ms h.end_time_ms) (
              Reads-bind _
                ((l.vec 1000 w.public_key (Word 256) l.public_key).reads v.players h.players)
                (Reads-bind _ (l.u64.reads v.prize_pool h.prize_pool) (
                  Reads-bind _ (l.u64.reads v.starting_chips h.starting_chips) (
                    Reads-bind _ (l.u32.reads v.starting_shields h.starting_shields) (
                      Reads-bind _ (l.u32.reads v.starting_doubles h.starting_doubles) (
                        Reads-bind _
                          ((leaderboard_format-IsFormat w l).reads v.leaderboard h.leaderboard)
                          (Reads-pure _)))))))))));
  sized = λ v.
      simp
        (
          length-append,
          l.u64.sized,
          (phase_format-IsFormat w l).sized,
          (l.vec 1000 w.public_key (Word 256) l.public_key).sized,
          l.u32.sized,
          (leaderboard_format-IsFormat w l).sized,
        )
        (omega arith);
}
