-- ===== src/Codec/Limits.antt =====
-- Values at the limits of their encodings: a tournament with too many players, and a house from
-- before the jackpots.
use supersociety_battleware.Base.{◌<◌, ◌≡◌, refl, List, [], ◌∷◌, ◌++◌, length}
use mathlib.Core.List.{append_assoc}
use supersociety_battleware.Types.{
  PublicKey, HouseState, Tournament, three_card_progressive_base_jackpot,
  uth_progressive_base_jackpot,
}
use supersociety_battleware.Codec.Reader.{Bytes, Decoded, Reader, ◌>>=◌, pure, Reads, joined}
use supersociety_battleware.Codec.Wire.{Wire, IsWire, IsFailed}
use supersociety_battleware.Codec.Strings.{read_u64_or}
use supersociety_battleware.Codec.Tournaments.{
  write_tournament, read_tournament, FitsTournament, phase_format-IsFormat,
}
use supersociety_battleware.Codec.Economy.{read_house, FitsHouse}

-- The reader gives an error, whatever follows.
record Fails {A : Type 0} (r : Reader A) (bytes : Bytes) : Type 0 where
  fails : (rest : Bytes) → IsFailed (r (bytes ++ rest))

Fails-bind :
    {A B : Type 0} {m : Reader A} (f : A → Reader B) {front back : Bytes} {a : A}
    → Reads m front a
    → Fails (f a) back
    → Fails (m >>= f) (front ++ back)
unfolding ◌>>=◌
Fails-bind {m = m} f {front = front} {back = back} {a = a} p q = record {
  fails = λ rest. rw (append_assoc front back rest, ◌>>=◌, p.back (back ++ rest)) (q.fails rest);
}

-- An error ends the reader.
failed_bind :
    {A B : Type 0} (d : Decoded A) (f : A → Reader B)
    → IsFailed d
    → IsFailed (elim d [ Decoded.decoded a rest ↦ f a rest | Decoded.failed e ↦ Decoded.failed e ])
failed_bind (Decoded.decoded a rest) f h = absurd h
failed_bind (Decoded.failed e) f h = tt

Fails-here :
    {A B : Type 0} {m : Reader A} (f : A → Reader B) {front : Bytes} (back : Bytes)
    → Fails m front
    → Fails (m >>= f) (front ++ back)
unfolding ◌>>=◌
Fails-here {m = m} f {front = front} back p = record {
  fails = λ rest.
      rw (append_assoc front back rest)
        (failed_bind (m (front ++ (back ++ rest))) f (p.fails (back ++ rest)));
}

-- A tournament of more than 1000 players is written, but not read: the reader gives an error
-- whatever follows. The other fields are in range.
pub read_tournament_crowded :
    (w : Wire) (t : Tournament) (players : List PublicKey) (rest : Bytes)
    → IsWire w
    → FitsTournament w t
    → 1000 < length players
    → IsFailed (read_tournament w (write_tournament w (record t { players = players }) ++ rest))
unfolding read_tournament write_tournament
read_tournament_crowded w t players rest l h many =
    (Fails-bind _ (l.u64.reads t.id h.id) (
        Fails-bind _ ((phase_format-IsFormat w l).reads t.phase tt) (
          Fails-bind _ (l.u64.reads t.start_block h.start_block) (
            Fails-bind _ (l.u64.reads t.start_time_ms h.start_time_ms) (
              Fails-bind _ (l.u64.reads t.end_time_ms h.end_time_ms) (
                Fails-here _ _ (record {
                  fails = λ more. l.too_long 1000 w.public_key players more many;
                }))))))).fails
      rest

-- A house as it was written before it had jackpots.
unfoldable pub write_old_house : Wire → HouseState → Bytes
write_old_house w v = joined (
    w.u64.write v.current_epoch
    ∷ w.u64.write v.epoch_start_ts
    ∷ w.i128.write v.net_pnl
    ∷ w.u64.write v.total_staked_amount
    ∷ w.u128.write v.total_voting_power
    ∷ w.u64.write v.accumulated_fees
    ∷ w.u64.write v.total_burned
    ∷ w.u64.write v.total_issuance
    ∷ [])

Ends_bind :
    {A B : Type 0} {m : Reader A} (f : A → Reader B) {front : Bytes} (back : Bytes) {a : A} (b : B)
    → Reads m front a
    → f a back ≡ Decoded.decoded b []
    → (m >>= f) (front ++ back) ≡ Decoded.decoded b []
unfolding ◌>>=◌
Ends_bind f back b p q = rw (◌>>=◌, p.back back) q

-- A house of the older format is read with the base jackpots, if nothing follows it.
pub read_house_old :
    (w : Wire) (v : HouseState)
    → IsWire w
    → FitsHouse w v
    → read_house w (write_old_house w v)
      ≡ Decoded.decoded
          (record v {
            three_card_progressive_jackpot = three_card_progressive_base_jackpot;
            uth_progressive_jackpot = uth_progressive_base_jackpot;
          })
          []
unfolding read_house write_old_house read_u64_or ◌>>=◌ pure
read_house_old w v l h = Ends_bind _ _ _ (l.u64.reads v.current_epoch h.current_epoch) (
    Ends_bind _ _ _ (l.u64.reads v.epoch_start_ts h.epoch_start_ts) (
      Ends_bind _ _ _ (l.i128.reads v.net_pnl h.net_pnl) (
        Ends_bind _ _ _ (l.u64.reads v.total_staked_amount h.total_staked_amount) (
          Ends_bind _ _ _ (l.u128.reads v.total_voting_power h.total_voting_power) (
            Ends_bind _ _ _ (l.u64.reads v.accumulated_fees h.accumulated_fees) (
              Ends_bind _ _ _ (l.u64.reads v.total_burned h.total_burned)
                (Ends_bind _ _ _ (l.u64.reads v.total_issuance h.total_issuance) refl)))))))
