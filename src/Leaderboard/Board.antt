-- ===== src/Leaderboard/Board.antt =====
-- The board as a whole: what every update keeps.
use supersociety_battleware.Base.{ℕ, ◌≤◌, List, map, length}
use supersociety_battleware.Types.{PublicKey, CasinoLeaderboard}
use supersociety_battleware.Leaderboard.Search.{Descending}
use supersociety_battleware.Leaderboard.Entries.{
  count_entries, length-update_entries, Descending-update_entries, count-update_entries,
}
use supersociety_battleware.Leaderboard.{chips_of, update_board}

-- At most ten entries, in descending order of chips, and at most one for each player.
pub record IsBoard (board : CasinoLeaderboard) : Type 0 where
  pub short : length board.entries ≤ 10
  pub sorted : Descending (map chips_of board.entries)
  pub once : (q : PublicKey) → count_entries q board.entries ≤ 1

-- Every update of a board of at most ten entries, in descending order of chips, with at most one
-- for each player, gives such a board.
pub update_board-IsBoard :
    (p : PublicKey) (name : List ℕ) (chips : ℕ) (board : CasinoLeaderboard)
    → IsBoard board
    → IsBoard (update_board p name chips board)
unfolding update_board
update_board-IsBoard p name chips board b = record {
  short = length-update_entries p name chips board.entries b.short;
  sorted = Descending-update_entries p name chips board.entries b.sorted;
  once = λ q. count-update_entries p q name chips board.entries b.once;
}
