-- ===== src/Tests/Economy.antt =====
-- The layer, the board and the staking at concrete inputs.
use supersociety_battleware.Tests.Data.{alice, seed, empty_layer, player_entry, player_layer}
use supersociety_battleware.Base.{◌≡◌, [], ◌∷◌, arith}
use supersociety_battleware.Layer.{prepare, Status, get, new_layer, commit, apply_changes}
use supersociety_battleware.Types.{default_leaderboard, Key, Instruction, Transaction}
use supersociety_battleware.Layer.Commit.{writes, commit-writes}
use supersociety_battleware.Layer.Replay.{IsAnswer, prepare-IsAnswer}
use supersociety_battleware.Leaderboard.{update_board}
use supersociety_battleware.Leaderboard.Search.{binary_search, IsPlace, binary_search-IsPlace}
use supersociety_battleware.Leaderboard.Entries.{count_entries}
use supersociety_battleware.Leaderboard.Board.{IsBoard, update_board-IsBoard}

abbrev transfer : Transaction
transfer = record {
  nonce = 0;
  instruction = Instruction.casino_deposit 5;
  public_key = alice;
  signature = 0;
}

empty-IsBoard : IsBoard default_leaderboard
unfolding count_entries
empty-IsBoard = record { short = omega arith; sorted = tt; once = λ q. omega arith }

commit-writes_example :
    let l =
      writes (player_entry ∷ (Key.house, Status.delete) ∷ []) (new_layer empty_layer.state seed) in
    (get Key.house l
      ≡ apply_changes (player_entry ∷ (Key.house, Status.delete) ∷ []) empty_layer.state Key.house)
    × (apply_changes (commit l) empty_layer.state Key.house ≡ get Key.house l)
commit-writes_example =
    commit-writes (player_entry ∷ (Key.house, Status.delete) ∷ []) empty_layer.state seed Key.house

prepare-IsAnswer_example : IsAnswer transfer player_layer (prepare transfer player_layer)
prepare-IsAnswer_example = prepare-IsAnswer transfer player_layer

binary_search-IsPlace_example :
    IsPlace 25 (30 ∷ 20 ∷ 10 ∷ []) (binary_search 25 (30 ∷ 20 ∷ 10 ∷ []))
binary_search-IsPlace_example =
    binary_search-IsPlace 25 (30 ∷ 20 ∷ 10 ∷ []) (omega arith, (omega arith, tt))

update_board-IsBoard_example : IsBoard (update_board alice ([]) 500 default_leaderboard)
update_board-IsBoard_example =
    update_board-IsBoard alice ([]) 500 default_leaderboard (empty-IsBoard)
