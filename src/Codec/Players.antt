-- ===== src/Codec/Players.antt =====
-- types/src/casino/player.rs: the encodings.
use supersociety_battleware.Base.{ℕ, ◌+◌, [], ◌∷◌, arith, length-append}
use supersociety_battleware.Codec.Reader.{
  Bytes, Reader, ◌>>=◌, pure, Reads-bind, Reads-pure, joined, Format, IsFormat,
}
use supersociety_battleware.Codec.Wire.{Wire, IsWire, Word, OnSome, UpTo}
use supersociety_battleware.Codec.Strings.{
  write_string, read_string, string_encode_size, max_name_length, IsName, Reads-string,
  length-write_string,
}
use supersociety_battleware.Types.{Player, GameSession}
use supersociety_battleware.Codec.Games.{
  game_type_format, super_mode_format, write_game_type, read_game_type, game_type_format-IsFormat,
  FitsSuperMode, write_super_mode, read_super_mode, super_mode_format-IsFormat,
}

-- `Player`
unfoldable pub write_player : Wire → Player → Bytes
write_player w v = joined (
    w.u64.write v.nonce
    ∷ write_string w v.name
    ∷ w.u64.write v.chips
    ∷ w.u64.write v.vusdt_balance
    ∷ w.u32.write v.shields
    ∷ w.u32.write v.doubles
    ∷ w.u64.write v.tournament_chips
    ∷ w.u32.write v.tournament_shields
    ∷ w.u32.write v.tournament_doubles
    ∷ (w.option w.u64).write v.active_tournament
    ∷ w.u32.write v.rank
    ∷ w.bool.write v.active_shield
    ∷ w.bool.write v.active_double
    ∷ w.bool.write v.active_super
    ∷ (w.option w.u64).write v.active_session
    ∷ w.u64.write v.last_deposit_block
    ∷ w.u8.write v.aura_meter
    ∷ w.u8.write v.tournaments_played_today
    ∷ w.u64.write v.last_tournament_ts
    ∷ w.bool.write v.is_kyc_verified
    ∷ [])

unfoldable pub read_player : Wire → Reader Player
read_player w = do
  nonce ← w.u64.read
  name ← read_string w max_name_length
  chips ← w.u64.read
  vusdt_balance ← w.u64.read
  shields ← w.u32.read
  doubles ← w.u32.read
  tournament_chips ← w.u64.read
  tournament_shields ← w.u32.read
  tournament_doubles ← w.u32.read
  active_tournament ← (w.option w.u64).read
  rank ← w.u32.read
  active_shield ← w.bool.read
  active_double ← w.bool.read
  active_super ← w.bool.read
  active_session ← (w.option w.u64).read
  last_deposit_block ← w.u64.read
  aura_meter ← w.u8.read
  tournaments_played_today ← w.u8.read
  last_tournament_ts ← w.u64.read
  is_kyc_verified ← w.bool.read
  pure (record {
    nonce = nonce;
    name = name;
    chips = chips;
    vusdt_balance = vusdt_balance;
    shields = shields;
    doubles = doubles;
    tournament_chips = tournament_chips;
    tournament_shields = tournament_shields;
    tournament_doubles = tournament_doubles;
    active_tournament = active_tournament;
    rank = rank;
    active_shield = active_shield;
    active_double = active_double;
    active_super = active_super;
    active_session = active_session;
    last_deposit_block = last_deposit_block;
    aura_meter = aura_meter;
    tournaments_played_today = tournaments_played_today;
    last_tournament_ts = last_tournament_ts;
    is_kyc_verified = is_kyc_verified;
  })

unfoldable pub player_size : Wire → Player → ℕ
player_size w v =
    w.u64.encode_size v.nonce
    + string_encode_size v.name
    + w.u64.encode_size v.chips
    + w.u64.encode_size v.vusdt_balance
    + w.u32.encode_size v.shields
    + w.u32.encode_size v.doubles
    + w.u64.encode_size v.tournament_chips
    + w.u32.encode_size v.tournament_shields
    + w.u32.encode_size v.tournament_doubles
    + (w.option w.u64).encode_size v.active_tournament
    + w.u32.encode_size v.rank
    + w.bool.encode_size v.active_shield
    + w.bool.encode_size v.active_double
    + w.bool.encode_size v.active_super
    + (w.option w.u64).encode_size v.active_session
    + w.u64.encode_size v.last_deposit_block
    + w.u8.encode_size v.aura_meter
    + w.u8.encode_size v.tournaments_played_today
    + w.u64.encode_size v.last_tournament_ts
    + w.bool.encode_size v.is_kyc_verified

abbrev pub player_format : Wire → Format Player
player_format w = record {
  write = write_player w;
  read = read_player w;
  encode_size = player_size w;
}

-- `GameSession`
unfoldable pub write_session : Wire → GameSession → Bytes
write_session w v = joined (
    w.u64.write v.id
    ∷ w.public_key.write v.player
    ∷ write_game_type w v.game_type
    ∷ w.u64.write v.bet
    ∷ (w.vec 1024 w.u8).write v.state_blob
    ∷ w.u32.write v.move_count
    ∷ w.u64.write v.created_at
    ∷ w.bool.write v.is_complete
    ∷ write_super_mode w v.super_mode
    ∷ w.bool.write v.is_tournament
    ∷ (w.option w.u64).write v.tournament_id
    ∷ [])

unfoldable pub read_session : Wire → Reader GameSession
read_session w = do
  id ← w.u64.read
  player ← w.public_key.read
  game_type ← read_game_type w
  bet ← w.u64.read
  state_blob ← (w.vec 1024 w.u8).read
  move_count ← w.u32.read
  created_at ← w.u64.read
  is_complete ← w.bool.read
  super_mode ← read_super_mode w
  is_tournament ← w.bool.read
  tournament_id ← (w.option w.u64).read
  pure (record {
    id = id;
    player = player;
    game_type = game_type;
    bet = bet;
    state_blob = state_blob;
    move_count = move_count;
    created_at = created_at;
    is_complete = is_complete;
    super_mode = super_mode;
    is_tournament = is_tournament;
    tournament_id = tournament_id;
  })

unfoldable pub session_size : Wire → GameSession → ℕ
session_size w v =
    w.u64.encode_size v.id
    + w.public_key.encode_size v.player
    + (game_type_format w).encode_size v.game_type
    + w.u64.encode_size v.bet
    + (w.vec 1024 w.u8).encode_size v.state_blob
    + w.u32.encode_size v.move_count
    + w.u64.encode_size v.created_at
    + w.bool.encode_size v.is_complete
    + (super_mode_format w).encode_size v.super_mode
    + w.bool.encode_size v.is_tournament
    + (w.option w.u64).encode_size v.tournament_id

abbrev pub session_format : Wire → Format GameSession
session_format w = record {
  write = write_session w;
  read = read_session w;
  encode_size = session_size w;
}

-- The fields are in the ranges of their formats.
pub record FitsPlayer (w : Wire) (v : Player) : Type 0 where
  pub nonce : Word 64 v.nonce
  pub name : IsName w v.name
  pub chips : Word 64 v.chips
  pub vusdt_balance : Word 64 v.vusdt_balance
  pub shields : Word 32 v.shields
  pub doubles : Word 32 v.doubles
  pub tournament_chips : Word 64 v.tournament_chips
  pub tournament_shields : Word 32 v.tournament_shields
  pub tournament_doubles : Word 32 v.tournament_doubles
  pub active_tournament : OnSome (Word 64) v.active_tournament
  pub rank : Word 32 v.rank
  pub active_session : OnSome (Word 64) v.active_session
  pub last_deposit_block : Word 64 v.last_deposit_block
  pub aura_meter : Word 8 v.aura_meter
  pub tournaments_played_today : Word 8 v.tournaments_played_today
  pub last_tournament_ts : Word 64 v.last_tournament_ts

pub player_format-IsFormat : (w : Wire) → IsWire w → IsFormat (player_format w) (FitsPlayer w)
unfolding write_player read_player player_size
player_format-IsFormat w l = record {
  reads = λ v h. Reads-bind _ (l.u64.reads v.nonce h.nonce) (
      Reads-bind _ (Reads-string w l v.name h.name) (
        Reads-bind _ (l.u64.reads v.chips h.chips) (
          Reads-bind _ (l.u64.reads v.vusdt_balance h.vusdt_balance) (
            Reads-bind _ (l.u32.reads v.shields h.shields) (
              Reads-bind _ (l.u32.reads v.doubles h.doubles) (
                Reads-bind _ (l.u64.reads v.tournament_chips h.tournament_chips) (
                  Reads-bind _ (l.u32.reads v.tournament_shields h.tournament_shields) (
                    Reads-bind _ (l.u32.reads v.tournament_doubles h.tournament_doubles) (
                      Reads-bind _
                        ((l.option w.u64 (Word 64) l.u64).reads v.active_tournament
                          h.active_tournament)
                        (Reads-bind _ (l.u32.reads v.rank h.rank) (
                          Reads-bind _ (l.bool.reads v.active_shield tt) (
                            Reads-bind _ (l.bool.reads v.active_double tt) (
                              Reads-bind _ (l.bool.reads v.active_super tt) (
                                Reads-bind _
                                  ((l.option w.u64 (Word 64) l.u64).reads v.active_session
                                    h.active_session)
                                  (Reads-bind _
                                    (l.u64.reads v.last_deposit_block h.last_deposit_block)
                                    (Reads-bind _ (l.u8.reads v.aura_meter h.aura_meter) (
                                      Reads-bind _
                                        (l.u8.reads v.tournaments_played_today
                                          h.tournaments_played_today)
                                        (Reads-bind _
                                          (l.u64.reads v.last_tournament_ts h.last_tournament_ts)
                                          (Reads-bind _ (l.bool.reads v.is_kyc_verified tt)
                                            (Reads-pure _))))))))))))))))))));
  sized = λ v.
      simp
        (
          length-append,
          l.u64.sized,
          length-write_string w l,
          l.u32.sized,
          (l.option w.u64 (Word 64) l.u64).sized,
          l.bool.sized,
          l.u8.sized,
        )
        (omega arith);
}

-- The fields are in the ranges of their formats.
pub record FitsSession (w : Wire) (v : GameSession) : Type 0 where
  pub id : Word 64 v.id
  pub player : Word 256 v.player
  pub bet : Word 64 v.bet
  pub state_blob : UpTo 1024 (Word 8) v.state_blob
  pub move_count : Word 32 v.move_count
  pub created_at : Word 64 v.created_at
  pub super_mode : FitsSuperMode w v.super_mode
  pub tournament_id : OnSome (Word 64) v.tournament_id

pub session_format-IsFormat : (w : Wire) → IsWire w → IsFormat (session_format w) (FitsSession w)
unfolding write_session read_session session_size
session_format-IsFormat w l = record {
  reads = λ v h. Reads-bind _ (l.u64.reads v.id h.id) (
      Reads-bind _ (l.public_key.reads v.player h.player) (
        Reads-bind _ ((game_type_format-IsFormat w l).reads v.game_type tt) (
          Reads-bind _ (l.u64.reads v.bet h.bet) (
            Reads-bind _ ((l.vec 1024 w.u8 (Word 8) l.u8).reads v.state_blob h.state_blob) (
              Reads-bind _ (l.u32.reads v.move_count h.move_count) (
                Reads-bind _ (l.u64.reads v.created_at h.created_at) (
                  Reads-bind _ (l.bool.reads v.is_complete tt) (
                    Reads-bind _ ((super_mode_format-IsFormat w l).reads v.super_mode h.super_mode)
                      (Reads-bind _ (l.bool.reads v.is_tournament tt) (
                        Reads-bind _
                          ((l.option w.u64 (Word 64) l.u64).reads v.tournament_id h.tournament_id)
                          (Reads-pure _)))))))))));
  sized = λ v.
      simp
        (
          length-append,
          l.u64.sized,
          l.public_key.sized,
          (game_type_format-IsFormat w l).sized,
          (l.vec 1024 w.u8 (Word 8) l.u8).sized,
          l.u32.sized,
          l.bool.sized,
          (super_mode_format-IsFormat w l).sized,
          (l.option w.u64 (Word 64) l.u64).sized,
        )
        (omega arith);
}
