-- ===== src/Tests/Codec.antt =====
-- The encodings at concrete inputs.
use supersociety_battleware.Base.{ℕ, zero, suc, ◌+◌, ◌≡◌, refl, List, [], ◌∷◌, ◌++◌, length, arith}
use supersociety_battleware.Types.{
  PublicKey, Instruction, TournamentPhase, Tournament, default_leaderboard,
}
use supersociety_battleware.Codec.Reader.{
  Bytes, Decoded, IsFormat, ◌>>=◌, pure, refuse_if, take_bytes,
}
use supersociety_battleware.Codec.Wire.{IsFailed}
use supersociety_battleware.Codec.Values.{value_format, FitsValue, value_format-IsFormat}
use supersociety_battleware.Codec.Outputs.{output_format, FitsOutput, output_format-IsFormat}
use supersociety_battleware.Codec.Tournaments.{FitsTournament, read_tournament, write_tournament}
use supersociety_battleware.Codec.Blocks.{
  Block, Hashes, compute_digest, write_notarized, read_block, write_block, digests, block_format,
  FitsBlock, block_format-IsFormat, payload_injective, read_notarized, read_notarized-IsProven,
}
use supersociety_battleware.Codec.Limits.{read_tournament_crowded}
use supersociety_battleware.Tests.Wire.{
  padded, wire, wire-IsWire, next_number, read_padded, read_vec, read_items,
}
use supersociety_battleware.Casino.Interface.{to_be_bytes}

value_format-IsFormat_example : IsFormat (value_format wire) (FitsValue wire)
value_format-IsFormat_example = value_format-IsFormat wire wire-IsWire

output_format-IsFormat_example : IsFormat (output_format wire) (FitsOutput wire)
output_format-IsFormat_example = output_format-IsFormat wire wire-IsWire

-- A hash that adds the bytes up.
abbrev total : Bytes → ℕ
total [] = 0
total (x ∷ xs) = x + total xs

abbrev hashes : Hashes
hashes = record { sha256 = total; digest_bytes = λ d. d ∷ []; key_bytes = λ k. k ∷ [] }

block_format-IsFormat_example : IsFormat (block_format wire hashes) (FitsBlock wire hashes)
block_format-IsFormat_example = block_format-IsFormat wire hashes wire-IsWire

payload_injective_example :
    (◌≡◌ {A = ℕ} 3 3) × (Instruction.casino_deposit 5 ≡ Instruction.casino_deposit 5)
payload_injective_example =
    payload_injective wire 3 3 (Instruction.casino_deposit 5) (Instruction.casino_deposit 5)
      wire-IsWire (omega arith) (omega arith) (omega arith) (omega arith) refl

-- A block without transactions on the parent 2, of view 3 and height 4; its digest is 9.
abbrev bare : Block
bare = record { parent = 2; view = 3; height = 4; transactions = []; digest = 9 }

abbrev notarized_bytes : Bytes
notarized_bytes =
    write_notarized wire hashes (padded 31) (λ (d : ℕ). d) (record { proof = 9; block = bare })

notarized_bytes_read :
    read_notarized wire hashes (padded 31) (λ (d : ℕ). d) notarized_bytes
    ≡ Decoded.decoded (record { proof = 9; block = bare }) []
unfolding read_notarized write_notarized read_block write_block compute_digest digests to_be_bytes
    ◌>>=◌ pure refuse_if take_bytes next_number read_padded read_vec read_items
notarized_bytes_read = refl

-- The bytes decode to that block, and the theorem gives the equation of its digest.
read_notarized-IsProven_example : 9 ≡ compute_digest wire hashes 2 3 4 []
unfolding read_notarized write_notarized read_block write_block compute_digest digests to_be_bytes
    ◌>>=◌ pure refuse_if take_bytes next_number read_padded read_vec read_items
read_notarized-IsProven_example =
    read_notarized-IsProven wire hashes (padded 31) (λ (d : ℕ). d) notarized_bytes

abbrev small : Tournament
small = record {
  id = 4;
  phase = TournamentPhase.registration;
  start_block = 0;
  start_time_ms = 0;
  end_time_ms = 0;
  players = [];
  prize_pool = 0;
  starting_chips = 1000;
  starting_shields = 3;
  starting_doubles = 3;
  leaderboard = default_leaderboard;
}

small-FitsTournament : FitsTournament wire small
small-FitsTournament = record {
  id = omega arith;
  start_block = omega arith;
  start_time_ms = omega arith;
  end_time_ms = omega arith;
  players = (omega arith, tt);
  prize_pool = omega arith;
  starting_chips = omega arith;
  starting_shields = omega arith;
  starting_doubles = omega arith;
  leaderboard = record { entries = (omega arith, tt) };
}

-- So many players.
crowd : ℕ → List PublicKey
crowd zero = []
crowd (suc n) = n ∷ crowd n

length-crowd : (n : ℕ) → length (crowd n) ≡ n
unfolding crowd
length-crowd zero = refl
length-crowd (suc n) = omega (arith, length-crowd n)

read_tournament_crowded_example :
    IsFailed
      (read_tournament wire (write_tournament wire (record small { players = crowd 1001 }) ++ []))
read_tournament_crowded_example =
    read_tournament_crowded wire small (crowd 1001) [] wire-IsWire small-FitsTournament
      (omega (arith, length-crowd 1001))
