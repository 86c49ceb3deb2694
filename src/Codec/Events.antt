-- ===== src/Codec/Events.antt =====
-- `Event` of types/src/execution.rs: the encoding.
pub mod RoundTrip
use supersociety_battleware.Base.{
  ℕ, ℤ, ◌+◌, ◌^◌, ◌≤◌, ◌<◌, ◌≡◌, ◌∙◌, ◌==◌, Bool, true, not, Option, some, none, List, [], ◌∷◌,
  ◌++◌, length, ltb, leb, arith, if◌then◌else◌, length-append, ◌%◌,
}
use mathlib.Core.List.{append-nil}
use supersociety_battleware.Codec.Reader.{
  Bytes, CodecError, Decoded, Reader, ◌>>=◌, ◌>>◌, pure, fail, refuse_if, take_bytes, Reads,
  Reads-bind, Reads-pure, Reads-refuse, Reads-take, joined, Format, IsFormat,
}
use supersociety_battleware.Codec.Wire.{
  Wire, IsWire, Word, SignedWord, Any, OnSome, Each, Both, UpTo, IsFailed,
}
use supersociety_battleware.Codec.Strings.{
  write_string, read_string, string_encode_size, max_name_length, IsName, IsText, Reads-text,
  Reads-string, length-write_string, read_u64_or, Reads-u64_or,
}
use supersociety_battleware.Types.{
  PublicKey, GameType, Account, Key, Value, Instruction, Transaction, Player, GameSession,
  HouseState, Staker, Vault, AmmPool, CasinoLeaderboard, Tournament, TournamentPhase,
}
use supersociety_battleware.Codec.Games.{
  game_type_format, write_game_type, read_game_type, game_type_format-IsFormat,
}
use supersociety_battleware.Codec.Tournaments.{
  leaderboard_format, write_leaderboard, read_leaderboard, leaderboard_format-IsFormat,
  phase_format, write_phase, read_phase, phase_format-IsFormat, FitsBoard,
}

-- The event as it is written, with the text of an error.
pub data Event : Type 0 where
  casino_player_registered : PublicKey → List ℕ → Event
  casino_game_started : ℕ → PublicKey → GameType → ℕ → List ℕ → Event
  casino_game_moved : ℕ → ℕ → List ℕ → Event
  casino_game_completed : ℕ → PublicKey → GameType → ℤ → ℕ → Bool → Bool → Event
  casino_leaderboard_updated : CasinoLeaderboard → Event
  casino_error : PublicKey → Option ℕ → ℕ → List ℕ → Event
  tournament_started : ℕ → ℕ → Event
  player_joined : ℕ → PublicKey → Event
  tournament_phase_changed : ℕ → TournamentPhase → Event
  tournament_ended : ℕ → List (PublicKey × ℕ) → Event
  vault_created : PublicKey → Event
  collateral_deposited : PublicKey → ℕ → ℕ → Event
  vusdt_borrowed : PublicKey → ℕ → ℕ → Event
  vusdt_repaid : PublicKey → ℕ → ℕ → Event
  amm_swapped : PublicKey → Bool → ℕ → ℕ → ℕ → ℕ → ℕ → ℕ → Event
  liquidity_added : PublicKey → ℕ → ℕ → ℕ → ℕ → ℕ → ℕ → ℕ → Event
  liquidity_removed : PublicKey → ℕ → ℕ → ℕ → ℕ → ℕ → ℕ → ℕ → Event
  staked : PublicKey → ℕ → ℕ → ℕ → ℕ → ℕ → Event
  unstaked : PublicKey → ℕ → Event
  epoch_processed : ℕ → Event
  rewards_claimed : PublicKey → ℕ → Event

abbrev pub max_error_message_length : ℕ
max_error_message_length = 256

-- The name of `CasinoPlayerRegistered`.
unfoldable pub read_event_name : Wire → Reader Bytes
read_event_name w = do
  name_len ← w.u32.read
  refuse_if (ltb max_name_length name_len) CodecError.invalid
  name_bytes ← take_bytes name_len
  refuse_if (not (w.is_utf8 name_bytes)) CodecError.invalid
  pure name_bytes

-- The message of `CasinoError`.
unfoldable pub read_message : Wire → Reader Bytes
read_message w = do
  message_len ← w.u32.read
  refuse_if (ltb max_error_message_length message_len) CodecError.invalid
  message_bytes ← take_bytes message_len
  refuse_if (not (w.is_utf8 message_bytes)) CodecError.invalid
  pure message_bytes

-- `Event`, with the tags of `tags::event`.
unfoldable pub write_event : Wire → Event → Bytes
write_event w (Event.casino_player_registered player name) =
    joined (w.u8.write 20 ∷ w.public_key.write player ∷ write_string w name ∷ [])
write_event w (Event.casino_game_started session_id player game_type bet initial_state) = joined (
    w.u8.write 21
    ∷ w.u64.write session_id
    ∷ w.public_key.write player
    ∷ write_game_type w game_type
    ∷ w.u64.write bet
    ∷ (w.vec 1024 w.u8).write initial_state
    ∷ [])
write_event w (Event.casino_game_moved session_id move_number new_state) = joined (
    w.u8.write 22
    ∷ w.u64.write session_id
    ∷ w.u32.write move_number
    ∷ (w.vec 1024 w.u8).write new_state
    ∷ [])
write_event w
      (Event.casino_game_completed session_id player game_type payout final_chips was_shielded
        was_doubled) =
    joined (
      w.u8.write 23
      ∷ w.u64.write session_id
      ∷ w.public_key.write player
      ∷ write_game_type w game_type
      ∷ w.i64.write payout
      ∷ w.u64.write final_chips
      ∷ w.bool.write was_shielded
      ∷ w.bool.write was_doubled
      ∷ [])
write_event w (Event.casino_leaderboard_updated leaderboard) =
    joined (w.u8.write 24 ∷ write_leaderboard w leaderboard ∷ [])
write_event w (Event.casino_error player session_id error_code message) = joined (
    w.u8.write 29
    ∷ w.public_key.write player
    ∷ (w.option w.u64).write session_id
    ∷ w.u8.write error_code
    ∷ write_string w message
    ∷ [])
write_event w (Event.tournament_started id start_block) =
    joined (w.u8.write 25 ∷ w.u64.write id ∷ w.u64.write start_block ∷ [])
write_event w (Event.player_joined tournament_id player) =
    joined (w.u8.write 26 ∷ w.u64.write tournament_id ∷ w.public_key.write player ∷ [])
write_event w (Event.tournament_phase_changed id phase) =
    joined (w.u8.write 27 ∷ w.u64.write id ∷ write_phase w phase ∷ [])
write_event w (Event.tournament_ended id rankings) =
    joined (
      w.u8.write 28 ∷ w.u64.write id ∷ (w.vec 1000 (w.pair w.public_key w.u64)).write rankings ∷ [])
write_event w (Event.vault_created player) = joined (w.u8.write 30 ∷ w.public_key.write player ∷ [])
write_event w (Event.collateral_deposited player amount new_collateral) = joined (
    w.u8.write 31
    ∷ w.public_key.write player
    ∷ w.u64.write amount
    ∷ w.u64.write new_collateral
    ∷ [])
write_event w (Event.vusdt_borrowed player amount new_debt) =
    joined
      (w.u8.write 32 ∷ w.public_key.write player ∷ w.u64.write amount ∷ w.u64.write new_debt ∷ [])
write_event w (Event.vusdt_repaid player amount new_debt) =
    joined
      (w.u8.write 33 ∷ w.public_key.write player ∷ w.u64.write amount ∷ w.u64.write new_debt ∷ [])
write_event w
      (Event.amm_swapped player is_buying_rng amount_in amount_out fee_amount burned_amount
        reserve_rng reserve_vusdt) =
    joined (
      w.u8.write 34
      ∷ w.public_key.write player
      ∷ w.bool.write is_buying_rng
      ∷ w.u64.write amount_in
      ∷ w.u64.write amount_out
      ∷ w.u64.write fee_amount
      ∷ w.u64.write burned_amount
      ∷ w.u64.write reserve_rng
      ∷ w.u64.write reserve_vusdt
      ∷ [])
write_event w
      (Event.liquidity_added player rng_amount vusdt_amount shares_minted total_shares reserve_rng
        reserve_vusdt lp_balance) =
    joined (
      w.u8.write 35
      ∷ w.public_key.write player
      ∷ w.u64.write rng_amount
      ∷ w.u64.write vusdt_amount
      ∷ w.u64.write shares_minted
      ∷ w.u64.write total_shares
      ∷ w.u64.write reserve_rng
      ∷ w.u64.write reserve_vusdt
      ∷ w.u64.write lp_balance
      ∷ [])
write_event w
      (Event.liquidity_removed player rng_amount vusdt_amount shares_burned total_shares reserve_rng
        reserve_vusdt lp_balance) =
    joined (
      w.u8.write 36
      ∷ w.public_key.write player
      ∷ w.u64.write rng_amount
      ∷ w.u64.write vusdt_amount
      ∷ w.u64.write shares_burned
      ∷ w.u64.write total_shares
      ∷ w.u64.write reserve_rng
      ∷ w.u64.write reserve_vusdt
      ∷ w.u64.write lp_balance
      ∷ [])
write_event w (Event.staked player amount duration new_balance unlock_ts voting_power) = joined (
    w.u8.write 37
    ∷ w.public_key.write player
    ∷ w.u64.write amount
    ∷ w.u64.write duration
    ∷ w.u64.write new_balance
    ∷ w.u64.write unlock_ts
    ∷ w.u128.write voting_power
    ∷ [])
write_event w (Event.unstaked player amount) =
    joined (w.u8.write 38 ∷ w.public_key.write player ∷ w.u64.write amount ∷ [])
write_event w (Event.epoch_processed epoch) = joined (w.u8.write 39 ∷ w.u64.write epoch ∷ [])
write_event w (Event.rewards_claimed player amount) =
    joined (w.u8.write 40 ∷ w.public_key.write player ∷ w.u64.write amount ∷ [])

-- What follows the tag.
unfoldable pub read_event_of : Wire → ℕ → Reader Event
read_event_of w kind =
    if kind == 20
    then (do
      player ← w.public_key.read
      name ← read_event_name w
      pure (Event.casino_player_registered player name))
    else if kind == 21
    then (do
      session_id ← w.u64.read
      player ← w.public_key.read
      game_type ← read_game_type w
      bet ← w.u64.read
      initial_state ← (w.vec 1024 w.u8).read
      pure (Event.casino_game_started session_id player game_type bet initial_state))
    else if kind == 22
    then (do
      session_id ← w.u64.read
      move_number ← w.u32.read
      new_state ← (w.vec 1024 w.u8).read
      pure (Event.casino_game_moved session_id move_number new_state))
    else if kind == 23
    then (do
      session_id ← w.u64.read
      player ← w.public_key.read
      game_type ← read_game_type w
      payout ← w.i64.read
      final_chips ← w.u64.read
      was_shielded ← w.bool.read
      was_doubled ← w.bool.read
      pure (
          Event.casino_game_completed session_id player game_type payout final_chips was_shielded
            was_doubled))
    else if kind == 24
    then (do leaderboard ← read_leaderboard w; pure (Event.casino_leaderboard_updated leaderboard))
    else if kind == 29
    then (do
      player ← w.public_key.read
      session_id ← (w.option w.u64).read
      error_code ← w.u8.read
      message ← read_message w
      pure (Event.casino_error player session_id error_code message))
    else if kind == 25
    then (do
      id ← w.u64.read
      start_block ← w.u64.read
      pure (Event.tournament_started id start_block))
    else if kind == 26
    then (do
      tournament_id ← w.u64.read
      player ← w.public_key.read
      pure (Event.player_joined tournament_id player))
    else if kind == 27
    then (do id ← w.u64.read; phase ← read_phase w; pure (Event.tournament_phase_changed id phase))
    else if kind == 28
    then (do
      id ← w.u64.read
      rankings ← (w.vec 1000 (w.pair w.public_key w.u64)).read
      pure (Event.tournament_ended id rankings))
    else if kind == 30
    then (do player ← w.public_key.read; pure (Event.vault_created player))
    else if kind == 31
    then (do
      player ← w.public_key.read
      amount ← w.u64.read
      new_collateral ← w.u64.read
      pure (Event.collateral_deposited player amount new_collateral))
    else if kind == 32
    then (do
      player ← w.public_key.read
      amount ← w.u64.read
      new_debt ← w.u64.read
      pure (Event.vusdt_borrowed player amount new_debt))
    else if kind == 33
    then (do
      player ← w.public_key.read
      amount ← w.u64.read
      new_debt ← w.u64.read
      pure (Event.vusdt_repaid player amount new_debt))
    else if kind == 34
    then (do
      player ← w.public_key.read
      is_buying_rng ← w.bool.read
      amount_in ← w.u64.read
      amount_out ← w.u64.read
      fee_amount ← w.u64.read
      burned_amount ← w.u64.read
      reserve_rng ← w.u64.read
      reserve_vusdt ← w.u64.read
      pure (
          Event.amm_swapped player is_buying_rng amount_in amount_out fee_amount burned_amount
            reserve_rng reserve_vusdt))
    else if kind == 35
    then (do
      player ← w.public_key.read
      rng_amount ← w.u64.read
      vusdt_amount ← w.u64.read
      shares_minted ← w.u64.read
      total_shares ← w.u64.read
      reserve_rng ← w.u64.read
      reserve_vusdt ← w.u64.read
      lp_balance ← w.u64.read
      pure (
          Event.liquidity_added player rng_amount vusdt_amount shares_minted total_shares
            reserve_rng reserve_vusdt lp_balance))
    else if kind == 36
    then (do
      player ← w.public_key.read
      rng_amount ← w.u64.read
      vusdt_amount ← w.u64.read
      shares_burned ← w.u64.read
      total_shares ← w.u64.read
      reserve_rng ← w.u64.read
      reserve_vusdt ← w.u64.read
      lp_balance ← w.u64.read
      pure (
          Event.liquidity_removed player rng_amount vusdt_amount shares_burned total_shares
            reserve_rng reserve_vusdt lp_balance))
    else if kind == 37
    then (do
      player ← w.public_key.read
      amount ← w.u64.read
      duration ← w.u64.read
      new_balance ← w.u64.read
      unlock_ts ← w.u64.read
      voting_power ← w.u128.read
      pure (Event.staked player amount duration new_balance unlock_ts voting_power))
    else if kind == 38
    then (do player ← w.public_key.read; amount ← w.u64.read; pure (Event.unstaked player amount))
    else if kind == 39
    then (do epoch ← w.u64.read; pure (Event.epoch_processed epoch))
    else if kind == 40
    then (do
      player ← w.public_key.read
      amount ← w.u64.read
      pure (Event.rewards_claimed player amount))
    else fail (CodecError.invalid_enum kind)

unfoldable pub read_event : Wire → Reader Event
read_event w = do kind ← w.u8.read; read_event_of w kind

unfoldable pub event_size : Wire → Event → ℕ
event_size w (Event.casino_player_registered player name) =
    1 + (w.public_key.encode_size player + 4 + length name)
event_size w (Event.casino_game_started session_id player game_type bet initial_state) =
    1
    + (w.u64.encode_size session_id
        + w.public_key.encode_size player
        + (game_type_format w).encode_size game_type
        + w.u64.encode_size bet
        + (w.vec 1024 w.u8).encode_size initial_state)
event_size w (Event.casino_game_moved session_id move_number new_state) =
    1
    + (w.u64.encode_size session_id
        + w.u32.encode_size move_number
        + (w.vec 1024 w.u8).encode_size new_state)
event_size w
      (Event.casino_game_completed session_id player game_type payout final_chips was_shielded
        was_doubled) =
    1
    + (w.u64.encode_size session_id
        + w.public_key.encode_size player
        + (game_type_format w).encode_size game_type
        + w.i64.encode_size payout
        + w.u64.encode_size final_chips
        + w.bool.encode_size was_shielded
        + w.bool.encode_size was_doubled)
event_size w (Event.casino_leaderboard_updated leaderboard) =
    1 + ((leaderboard_format w).encode_size leaderboard)
event_size w (Event.casino_error player session_id error_code message) =
    1
    + (w.public_key.encode_size player
        + (w.option w.u64).encode_size session_id
        + w.u8.encode_size error_code
        + 4
        + length message)
event_size w (Event.tournament_started id start_block) =
    1 + (w.u64.encode_size id + w.u64.encode_size start_block)
event_size w (Event.player_joined tournament_id player) =
    1 + (w.u64.encode_size tournament_id + w.public_key.encode_size player)
event_size w (Event.tournament_phase_changed id phase) =
    1 + (w.u64.encode_size id + (phase_format w).encode_size phase)
event_size w (Event.tournament_ended id rankings) =
    1 + (w.u64.encode_size id + (w.vec 1000 (w.pair w.public_key w.u64)).encode_size rankings)
event_size w (Event.vault_created player) = 1 + (w.public_key.encode_size player)
event_size w (Event.collateral_deposited player amount new_collateral) =
    1
    + (w.public_key.encode_size player
        + w.u64.encode_size amount
        + w.u64.encode_size new_collateral)
event_size w (Event.vusdt_borrowed player amount new_debt) =
    1 + (w.public_key.encode_size player + w.u64.encode_size amount + w.u64.encode_size new_debt)
event_size w (Event.vusdt_repaid player amount new_debt) =
    1 + (w.public_key.encode_size player + w.u64.encode_size amount + w.u64.encode_size new_debt)
event_size w
      (Event.amm_swapped player is_buying_rng amount_in amount_out fee_amount burned_amount
        reserve_rng reserve_vusdt) =
    1
    + (w.public_key.encode_size player
        + w.bool.encode_size is_buying_rng
        + w.u64.encode_size amount_in
        + w.u64.encode_size amount_out
        + w.u64.encode_size fee_amount
        + w.u64.encode_size burned_amount
        + w.u64.encode_size reserve_rng
        + w.u64.encode_size reserve_vusdt)
event_size w
      (Event.liquidity_added player rng_amount vusdt_amount shares_minted total_shares reserve_rng
        reserve_vusdt lp_balance) =
    1
    + (w.public_key.encode_size player
        + w.u64.encode_size rng_amount
        + w.u64.encode_size vusdt_amount
        + w.u64.encode_size shares_minted
        + w.u64.encode_size total_shares
        + w.u64.encode_size reserve_rng
        + w.u64.encode_size reserve_vusdt
        + w.u64.encode_size lp_balance)
event_size w
      (Event.liquidity_removed player rng_amount vusdt_amount shares_burned total_shares reserve_rng
        reserve_vusdt lp_balance) =
    1
    + (w.public_key.encode_size player
        + w.u64.encode_size rng_amount
        + w.u64.encode_size vusdt_amount
        + w.u64.encode_size shares_burned
        + w.u64.encode_size total_shares
        + w.u64.encode_size reserve_rng
        + w.u64.encode_size reserve_vusdt
        + w.u64.encode_size lp_balance)
event_size w (Event.staked player amount duration new_balance unlock_ts voting_power) =
    1
    + (w.public_key.encode_size player
        + w.u64.encode_size amount
        + w.u64.encode_size duration
        + w.u64.encode_size new_balance
        + w.u64.encode_size unlock_ts
        + w.u128.encode_size voting_power)
event_size w (Event.unstaked player amount) =
    1 + (w.public_key.encode_size player + w.u64.encode_size amount)
event_size w (Event.epoch_processed epoch) = 1 + (w.u64.encode_size epoch)
event_size w (Event.rewards_claimed player amount) =
    1 + (w.public_key.encode_size player + w.u64.encode_size amount)

abbrev pub event_format : Wire → Format Event
event_format w = record { write = write_event w; read = read_event w; encode_size = event_size w }
