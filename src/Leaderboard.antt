-- ===== src/Leaderboard.antt =====
-- `CasinoLeaderboard::update` of types/src/casino/leaderboard.rs, and the players of a tournament
-- (types/src/casino/tournament.rs).
pub mod Search
pub mod Order
pub mod Entries
pub mod Board
use supersociety_battleware.Base.{
  ℕ, zero, suc, ◌+◌, ◌==◌, ltb, leb, Bool, true, false, ◌&&◌, Option, none, some, List, [], ◌∷◌,
  ◌++◌, map, if◌then◌else◌, length, take,
}
use supersociety_battleware.Types.{PublicKey, LeaderboardEntry, CasinoLeaderboard, Tournament}
use supersociety_battleware.Leaderboard.Search.{binary_search, insert_at}

-- The entries without the first one of this player.
unfoldable pub remove_entry : PublicKey → List LeaderboardEntry → List LeaderboardEntry
remove_entry p [] = []
remove_entry p (e ∷ es) = if e.player == p then es else e ∷ remove_entry p es

-- `entries.last()`, its chips.
unfoldable pub last_chips : List LeaderboardEntry → Option ℕ
last_chips [] = none
last_chips (e ∷ []) = some e.chips
last_chips (e ∷ (f ∷ es)) = last_chips (f ∷ es)

abbrev pub chips_of : LeaderboardEntry → ℕ
chips_of e = e.chips

-- The ranks, from `i + 1` on.
unfoldable pub number_ranks : ℕ → List LeaderboardEntry → List LeaderboardEntry
number_ranks i [] = []
number_ranks i (e ∷ es) = record e { rank = i + 1 } ∷ number_ranks (i + 1) es

-- Is the board full, with nobody below these chips?
abbrev pub misses_board : ℕ → List LeaderboardEntry → Bool
misses_board chips es =
    leb 10 (length es) && elim (last_chips es) [ none ↦ false | some low ↦ leb chips low ]

-- Insert at the place that the search finds, cut to ten, and number the ranks.
unfoldable pub place_entry : LeaderboardEntry → List LeaderboardEntry → List LeaderboardEntry
place_entry entry es =
    number_ranks 0 (take 10 (insert_at (binary_search entry.chips (map chips_of es)) entry es))

unfoldable pub update_entries :
    PublicKey → List ℕ → ℕ → List LeaderboardEntry → List LeaderboardEntry
update_entries player name chips es =
    let kept = remove_entry player es in
    if misses_board chips kept
    then kept
    else place_entry (record { player = player; name = name; chips = chips; rank = 0 }) kept

unfoldable pub update_board : PublicKey → List ℕ → ℕ → CasinoLeaderboard → CasinoLeaderboard
update_board player name chips board = record {
  entries = update_entries player name chips board.entries;
}

-- `Tournament::contains_player` and `Tournament::add_player`
unfoldable pub contains_player : PublicKey → List PublicKey → Bool
contains_player p [] = false
contains_player p (q ∷ qs) = if q == p then true else contains_player p qs

unfoldable pub add_player : PublicKey → Tournament → Option Tournament
add_player p t =
    if contains_player p t.players then none else some (record t { players = t.players ++ p ∷ [] })
