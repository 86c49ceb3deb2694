-- ===== src/Codec/Events/RoundTrip.antt =====
-- An event is read back as it was written.
use supersociety_battleware.Base.{ℕ, ◌≡◌, List, length, arith, length-append}
use supersociety_battleware.Codec.Reader.{Bytes, Reads, Reads-bind, Reads-pure, IsFormat}
use supersociety_battleware.Codec.Wire.{Wire, IsWire, Word, SignedWord, OnSome, Both, UpTo}
use supersociety_battleware.Codec.Strings.{
  write_string, read_string, string_encode_size, IsName, IsText, Reads-text, Reads-string,
  length-write_string,
}
use supersociety_battleware.Types.{PublicKey}
use supersociety_battleware.Codec.Games.{game_type_format-IsFormat}
use supersociety_battleware.Codec.Tournaments.{
  leaderboard_format-IsFormat, phase_format-IsFormat, FitsBoard,
}
use supersociety_battleware.Codec.Events.{
  Event, max_error_message_length, read_event_name, read_message, write_event, read_event_of,
  read_event, event_size, event_format,
}

length-rankings :
    (w : Wire)
    → IsWire w
    → (xs : List (PublicKey × ℕ))
    → length ((w.vec 1000 (w.pair w.public_key w.u64)).write xs)
      ≡ (w.vec 1000 (w.pair w.public_key w.u64)).encode_size xs
length-rankings w l xs =
    (l.vec 1000 (w.pair w.public_key w.u64) (Both (Word 256) (Word 64))
        (l.pair w.public_key w.u64 (Word 256) (Word 64) l.public_key l.u64)).sized
      xs

Reads-event_name :
    (w : Wire)
    → IsWire w
    → (s : Bytes) → IsName w s
    → Reads (read_event_name w) (write_string w s) s
unfolding read_event_name read_string
Reads-event_name w l s h = Reads-string w l s h

Reads-message :
    (w : Wire)
    → IsWire w
    → (s : Bytes) → IsText w max_error_message_length s
    → Reads (read_message w) (write_string w s) s
unfolding read_message read_string
Reads-message w l s h = Reads-text w l max_error_message_length s (omega arith) h

-- The numbers are words, and the strings are not too long.
abbrev pub FitsEvent : Wire → Event → Type 0
FitsEvent w (Event.casino_player_registered player name) = (Word 256 player) × (IsName w name)
FitsEvent w (Event.casino_game_started session_id player _ bet initial_state) =
    (Word 64 session_id) × (Word 256 player) × (Word 64 bet) × (UpTo 1024 (Word 8) initial_state)
FitsEvent w (Event.casino_game_moved session_id move_number new_state) =
    (Word 64 session_id) × (Word 32 move_number) × (UpTo 1024 (Word 8) new_state)
FitsEvent w (Event.casino_game_completed session_id player _ payout final_chips _ _) =
    (Word 64 session_id) × (Word 256 player) × (SignedWord 63 payout) × (Word 64 final_chips)
FitsEvent w (Event.casino_leaderboard_updated leaderboard) = FitsBoard w leaderboard
FitsEvent w (Event.casino_error player session_id error_code message) =
    (Word 256 player)
    × (OnSome (Word 64) session_id)
    × (Word 8 error_code)
    × (IsText w max_error_message_length message)
FitsEvent w (Event.tournament_started id start_block) = (Word 64 id) × (Word 64 start_block)
FitsEvent w (Event.player_joined tournament_id player) = (Word 64 tournament_id) × (Word 256 player)
FitsEvent w (Event.tournament_phase_changed id _) = Word 64 id
FitsEvent w (Event.tournament_ended id rankings) =
    (Word 64 id) × (UpTo 1000 (Both (Word 256) (Word 64)) rankings)
FitsEvent w (Event.vault_created player) = Word 256 player
FitsEvent w (Event.collateral_deposited player amount new_collateral) =
    (Word 256 player) × (Word 64 amount) × (Word 64 new_collateral)
FitsEvent w (Event.vusdt_borrowed player amount new_debt) =
    (Word 256 player) × (Word 64 amount) × (Word 64 new_debt)
FitsEvent w (Event.vusdt_repaid player amount new_debt) =
    (Word 256 player) × (Word 64 amount) × (Word 64 new_debt)
FitsEvent w
      (Event.amm_swapped player _ amount_in amount_out fee_amount burned_amount reserve_rng
        reserve_vusdt) =
    (Word 256 player)
    × (Word 64 amount_in)
    × (Word 64 amount_out)
    × (Word 64 fee_amount)
    × (Word 64 burned_amount)
    × (Word 64 reserve_rng)
    × (Word 64 reserve_vusdt)
FitsEvent w
      (Event.liquidity_added player rng_amount vusdt_amount shares_minted total_shares reserve_rng
        reserve_vusdt lp_balance) =
    (Word 256 player)
    × (Word 64 rng_amount)
    × (Word 64 vusdt_amount)
    × (Word 64 shares_minted)
    × (Word 64 total_shares)
    × (Word 64 reserve_rng)
    × (Word 64 reserve_vusdt)
    × (Word 64 lp_balance)
FitsEvent w
      (Event.liquidity_removed player rng_amount vusdt_amount shares_burned total_shares reserve_rng
        reserve_vusdt lp_balance) =
    (Word 256 player)
    × (Word 64 rng_amount)
    × (Word 64 vusdt_amount)
    × (Word 64 shares_burned)
    × (Word 64 total_shares)
    × (Word 64 reserve_rng)
    × (Word 64 reserve_vusdt)
    × (Word 64 lp_balance)
FitsEvent w (Event.staked player amount duration new_balance unlock_ts voting_power) =
    (Word 256 player)
    × (Word 64 amount)
    × (Word 64 duration)
    × (Word 64 new_balance)
    × (Word 64 unlock_ts)
    × (Word 128 voting_power)
FitsEvent w (Event.unstaked player amount) = (Word 256 player) × (Word 64 amount)
FitsEvent w (Event.epoch_processed epoch) = Word 64 epoch
FitsEvent w (Event.rewards_claimed player amount) = (Word 256 player) × (Word 64 amount)

Reads-event_of :
    (w : Wire) → IsWire w → (v : Event) → FitsEvent w v → Reads (read_event w) (write_event w v) v
unfolding read_event read_event_of write_event
Reads-event_of w l (Event.casino_player_registered player name) h =
    Reads-bind _ (l.u8.reads 20 (omega arith)) (
      Reads-bind _ (l.public_key.reads player h.0)
        (Reads-bind _ (Reads-event_name w l name h.1) (Reads-pure _)))
Reads-event_of w l (Event.casino_game_started session_id player game_type bet initial_state) h =
    Reads-bind _ (l.u8.reads 21 (omega arith)) (
      Reads-bind _ (l.u64.reads session_id h.0) (
        Reads-bind _ (l.public_key.reads player h.1) (
          Reads-bind _ ((game_type_format-IsFormat w l).reads game_type tt) (
            Reads-bind _ (l.u64.reads bet h.2) (
              Reads-bind _ ((l.vec 1024 w.u8 (Word 8) l.u8).reads initial_state h.3)
                (Reads-pure _))))))
Reads-event_of w l (Event.casino_game_moved session_id move_number new_state) h =
    Reads-bind _ (l.u8.reads 22 (omega arith)) (
      Reads-bind _ (l.u64.reads session_id h.0) (
        Reads-bind _ (l.u32.reads move_number h.1)
          (Reads-bind _ ((l.vec 1024 w.u8 (Word 8) l.u8).reads new_state h.2) (Reads-pure _))))
Reads-event_of w l
      (Event.casino_game_completed session_id player game_type payout final_chips was_shielded
        was_doubled)
      h =
    Reads-bind _ (l.u8.reads 23 (omega arith)) (
      Reads-bind _ (l.u64.reads session_id h.0) (
        Reads-bind _ (l.public_key.reads player h.1) (
          Reads-bind _ ((game_type_format-IsFormat w l).reads game_type tt) (
            Reads-bind _ (l.i64.reads payout h.2) (
              Reads-bind _ (l.u64.reads final_chips h.3) (
                Reads-bind _ (l.bool.reads was_shielded tt)
                  (Reads-bind _ (l.bool.reads was_doubled tt) (Reads-pure _))))))))
Reads-event_of w l (Event.casino_leaderboard_updated leaderboard) h =
    Reads-bind _ (l.u8.reads 24 (omega arith))
      (Reads-bind _ ((leaderboard_format-IsFormat w l).reads leaderboard h) (Reads-pure _))
Reads-event_of w l (Event.casino_error player session_id error_code message) h =
    Reads-bind _ (l.u8.reads 29 (omega arith)) (
      Reads-bind _ (l.public_key.reads player h.0) (
        Reads-bind _ ((l.option w.u64 (Word 64) l.u64).reads session_id h.1) (
          Reads-bind _ (l.u8.reads error_code h.2)
            (Reads-bind _ (Reads-message w l message h.3) (Reads-pure _)))))
Reads-event_of w l (Event.tournament_started id start_block) h =
    Reads-bind _ (l.u8.reads 25 (omega arith)) (
      Reads-bind _ (l.u64.reads id h.0) (Reads-bind _ (l.u64.reads start_block h.1) (Reads-pure _)))
Reads-event_of w l (Event.player_joined tournament_id player) h =
    Reads-bind _ (l.u8.reads 26 (omega arith)) (
      Reads-bind _ (l.u64.reads tournament_id h.0)
        (Reads-bind _ (l.public_key.reads player h.1) (Reads-pure _)))
Reads-event_of w l (Event.tournament_phase_changed id phase) h =
    Reads-bind _ (l.u8.reads 27 (omega arith)) (
      Reads-bind _ (l.u64.reads id h)
        (Reads-bind _ ((phase_format-IsFormat w l).reads phase tt) (Reads-pure _)))
Reads-event_of w l (Event.tournament_ended id rankings) h =
    Reads-bind _ (l.u8.reads 28 (omega arith)) (
      Reads-bind _ (l.u64.reads id h.0) (
        Reads-bind _
          ((l.vec 1000 (w.pair w.public_key w.u64) (Both (Word 256) (Word 64))
              (l.pair w.public_key w.u64 (Word 256) (Word 64) l.public_key l.u64)).reads
            rankings h.1)
          (Reads-pure _)))
Reads-event_of w l (Event.vault_created player) h =
    Reads-bind _ (l.u8.reads 30 (omega arith))
      (Reads-bind _ (l.public_key.reads player h) (Reads-pure _))
Reads-event_of w l (Event.collateral_deposited player amount new_collateral) h =
    Reads-bind _ (l.u8.reads 31 (omega arith)) (
      Reads-bind _ (l.public_key.reads player h.0) (
        Reads-bind _ (l.u64.reads amount h.1)
          (Reads-bind _ (l.u64.reads new_collateral h.2) (Reads-pure _))))
Reads-event_of w l (Event.vusdt_borrowed player amount new_debt) h =
    Reads-bind _ (l.u8.reads 32 (omega arith)) (
      Reads-bind _ (l.public_key.reads player h.0) (
        Reads-bind _ (l.u64.reads amount h.1)
          (Reads-bind _ (l.u64.reads new_debt h.2) (Reads-pure _))))
Reads-event_of w l (Event.vusdt_repaid player amount new_debt) h =
    Reads-bind _ (l.u8.reads 33 (omega arith)) (
      Reads-bind _ (l.public_key.reads player h.0) (
        Reads-bind _ (l.u64.reads amount h.1)
          (Reads-bind _ (l.u64.reads new_debt h.2) (Reads-pure _))))
Reads-event_of w l
      (Event.amm_swapped player is_buying_rng amount_in amount_out fee_amount burned_amount
        reserve_rng reserve_vusdt)
      h =
    Reads-bind _ (l.u8.reads 34 (omega arith)) (
      Reads-bind _ (l.public_key.reads player h.0) (
        Reads-bind _ (l.bool.reads is_buying_rng tt) (
          Reads-bind _ (l.u64.reads amount_in h.1) (
            Reads-bind _ (l.u64.reads amount_out h.2) (
              Reads-bind _ (l.u64.reads fee_amount h.3) (
                Reads-bind _ (l.u64.reads burned_amount h.4) (
                  Reads-bind _ (l.u64.reads reserve_rng h.5)
                    (Reads-bind _ (l.u64.reads reserve_vusdt h.6) (Reads-pure _)))))))))
Reads-event_of w l
      (Event.liquidity_added player rng_amount vusdt_amount shares_minted total_shares reserve_rng
        reserve_vusdt lp_balance)
      h =
    Reads-bind _ (l.u8.reads 35 (omega arith)) (
      Reads-bind _ (l.public_key.reads player h.0) (
        Reads-bind _ (l.u64.reads rng_amount h.1) (
          Reads-bind _ (l.u64.reads vusdt_amount h.2) (
            Reads-bind _ (l.u64.reads shares_minted h.3) (
              Reads-bind _ (l.u64.reads total_shares h.4) (
                Reads-bind _ (l.u64.reads reserve_rng h.5) (
                  Reads-bind _ (l.u64.reads reserve_vusdt h.6)
                    (Reads-bind _ (l.u64.reads lp_balance h.7) (Reads-pure _)))))))))
Reads-event_of w l
      (Event.liquidity_removed player rng_amount vusdt_amount shares_burned total_shares reserve_rng
        reserve_vusdt lp_balance)
      h =
    Reads-bind _ (l.u8.reads 36 (omega arith)) (
      Reads-bind _ (l.public_key.reads player h.0) (
        Reads-bind _ (l.u64.reads rng_amount h.1) (
          Reads-bind _ (l.u64.reads vusdt_amount h.2) (
            Reads-bind _ (l.u64.reads shares_burned h.3) (
              Reads-bind _ (l.u64.reads total_shares h.4) (
                Reads-bind _ (l.u64.reads reserve_rng h.5) (
                  Reads-bind _ (l.u64.reads reserve_vusdt h.6)
                    (Reads-bind _ (l.u64.reads lp_balance h.7) (Reads-pure _)))))))))
Reads-event_of w l (Event.staked player amount duration new_balance unlock_ts voting_power) h =
    Reads-bind _ (l.u8.reads 37 (omega arith)) (
      Reads-bind _ (l.public_key.reads player h.0) (
        Reads-bind _ (l.u64.reads amount h.1) (
          Reads-bind _ (l.u64.reads duration h.2) (
            Reads-bind _ (l.u64.reads new_balance h.3) (
              Reads-bind _ (l.u64.reads unlock_ts h.4)
                (Reads-bind _ (l.u128.reads voting_power h.5) (Reads-pure _)))))))
Reads-event_of w l (Event.unstaked player amount) h = Reads-bind _ (l.u8.reads 38 (omega arith)) (
    Reads-bind _ (l.public_key.reads player h.0)
      (Reads-bind _ (l.u64.reads amount h.1) (Reads-pure _)))
Reads-event_of w l (Event.epoch_processed epoch) h =
    Reads-bind _ (l.u8.reads 39 (omega arith)) (Reads-bind _ (l.u64.reads epoch h) (Reads-pure _))
Reads-event_of w l (Event.rewards_claimed player amount) h =
    Reads-bind _ (l.u8.reads 40 (omega arith)) (
      Reads-bind _ (l.public_key.reads player h.0)
        (Reads-bind _ (l.u64.reads amount h.1) (Reads-pure _)))

length-write_event : (w : Wire) → IsWire w → (v : Event) → length (write_event w v) ≡ event_size w v
unfolding write_event event_size string_encode_size
length-write_event w l v = grind (
  arith,
  length-append,
  l.u8.sized,
  l.size8,
  l.size64,
  (game_type_format-IsFormat w l).sized,
  (l.option w.u64 (Word 64) l.u64).sized,
  (l.vec 1024 w.u8 (Word 8) l.u8).sized,
  (leaderboard_format-IsFormat w l).sized,
  (phase_format-IsFormat w l).sized,
  l.bool.sized,
  l.i64.sized,
  l.public_key.sized,
  l.u128.sized,
  l.u32.sized,
  l.u64.sized,
  l.u8.sized,
  length-rankings w l,
  length-write_string w l,
)

pub event_format-IsFormat : (w : Wire) → IsWire w → IsFormat (event_format w) (FitsEvent w)
event_format-IsFormat w l = record { reads = Reads-event_of w l; sized = length-write_event w l }
