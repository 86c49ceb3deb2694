-- ===== src/Casino/Ending/Prizes.antt =====
-- What the prizes of a tournament pay, and what its standings say.
use supersociety_battleware.Base.{
  ℕ, zero, suc, ◌+◌, ◌≡◌, refl, ◌==◌, ltb, sat_add, Bool, false, ◌&&◌, Bool-cases, inl, inr, Option,
  none, some, List, [], ◌∷◌, length, arith, if◌then◌else◌,
}
use supersociety_battleware.Types.{PublicKey, Player, Tournament}
use supersociety_battleware.Layer.{Layer, player_at, view_laws}
use supersociety_battleware.Casino.Ending.{
  Split, Rankings, with_chips, gather, place, sort_by_chips, pay_winners, distribute, clear_players,
  num_winners,
}
use supersociety_battleware.Casino.Ending.Runs.{Runs}

-- How often a key is in a list of players.
unfoldable pub count_player : PublicKey → List PublicKey → ℕ
count_player q [] = 0
count_player q (p ∷ ps) = (if p == q then 1 else 0) + count_player q ps

-- How often the standings have a player with so many chips.
unfoldable pub count_entry : PublicKey → ℕ → Rankings → ℕ
count_entry q c [] = 0
count_entry q c (x ∷ xs) = (if x.0 == q && x.1 == c then 1 else 0) + count_entry q c xs

-- Does the player exist, with that stack?
abbrev pub has_stack : ℕ → Option Player → Bool
has_stack c none = false
has_stack c (some player) = player.tournament_chips == c

count_entry-with_chips :
    (q p : PublicKey) (c : ℕ) (o : Option Player) (rest : Rankings)
    → count_entry q c (with_chips p o rest)
      ≡ (if p == q && has_stack c o then 1 else 0) + count_entry q c rest
unfolding count_entry
count_entry-with_chips q p c none rest = ground arith
count_entry-with_chips q p c (some player) rest = refl

count_entry-gather :
    (q : PublicKey) (c : ℕ) (players : List PublicKey) (l : Layer)
    → count_entry q c (gather players l)
      ≡ (if has_stack c (player_at q l) then count_player q players else 0)
unfolding count_entry count_player gather
count_entry-gather q c [] l = ground arith
count_entry-gather q c (p ∷ ps) l = elim (Bool-cases (p == q)) [
  | inl same ↦
      let e : p ≡ q = ground arith in
      rw (count_entry-with_chips q p c (player_at p l) (gather ps l), e)
        (ground (arith, count_entry-gather q c ps l))
  | inr other ↦
      rw (count_entry-with_chips q p c (player_at p l) (gather ps l), other)
        (ground (arith, count_entry-gather q c ps l))
]

count_entry-place :
    (q : PublicKey) (c : ℕ) (x : PublicKey × ℕ) (xs : Rankings)
    → count_entry q c (place x xs) ≡ count_entry q c (x ∷ xs)
unfolding count_entry place
count_entry-place q c x [] = refl
count_entry-place q c x (y ∷ ys) = ground (arith, count_entry-place q c x ys)

count_entry-sort_by_chips :
    (q : PublicKey) (c : ℕ) (sorted xs : Rankings)
    → count_entry q c (sort_by_chips sorted xs) ≡ count_entry q c sorted + count_entry q c xs
unfolding count_entry sort_by_chips
count_entry-sort_by_chips q c sorted [] = omega arith
count_entry-sort_by_chips q c sorted (x ∷ xs) =
    omega (arith, count_entry-sort_by_chips q c (place x sorted) xs, count_entry-place q c x sorted)

-- The standings have each player of the tournament, with the player's stack.
pub count_entry-standings :
    (q : PublicKey) (c : ℕ) (players : List PublicKey) (l : Layer)
    → count_entry q c (sort_by_chips [] (gather players l))
      ≡ (if has_stack c (player_at q l) then count_player q players else 0)
unfolding count_entry
count_entry-standings q c players l =
    omega
      (arith, count_entry-sort_by_chips q c [] (gather players l), count_entry-gather q c players l)

-- The chips of a player, outside of tournaments.
abbrev pub chips_of : Option Player → Option ℕ
chips_of none = none
chips_of (some player) = some player.chips

abbrev pub add_prize : ℕ → Option ℕ → Option ℕ
add_prize payout none = none
add_prize payout (some chips) = some (sat_add chips payout)

-- The chips of a player after the prizes of the ranks from `i` on, of which `n` are left.
unfoldable pub with_prizes : (ℕ → ℕ) → ℕ → ℕ → Rankings → PublicKey → Option ℕ → Option ℕ
with_prizes payout zero i rankings q chips = chips
with_prizes payout (suc n) i [] q chips = chips
with_prizes payout (suc n) i (x ∷ rest) q chips =
    with_prizes payout n (i + 1) rest q
      (if x.0 == q && ltb 0 (payout i) then add_prize (payout i) chips else chips)

pay_winners-with_prizes :
    (q : PublicKey) (payout : ℕ → ℕ) (n i : ℕ) (rankings : Rankings) (l : Layer)
    → Runs (pay_winners payout n i rankings l) (λ _ l'.
      chips_of (player_at q l') ≡ with_prizes payout n i rankings q (chips_of (player_at q l)))
unfolding pay_winners with_prizes
pay_winners-with_prizes q payout zero i rankings l = refl
pay_winners-with_prizes q payout (suc n) i [] l = refl
pay_winners-with_prizes q payout (suc n) i (x ∷ rest) l =
    grind (arith, view_laws, pay_winners-with_prizes q payout n (i + 1) rest)

-- The chips of a player after the prizes of a tournament.
abbrev pub paid_out : Split → Tournament → Rankings → PublicKey → Option ℕ → Option ℕ
paid_out split t rankings q chips =
    let winners = num_winners split (length rankings) in
    if ltb 0 winners && ltb 0 t.prize_pool
    then with_prizes (λ i. split.payout winners i t.prize_pool) winners 0 rankings q chips
    else chips

pub distribute-paid_out :
    (q : PublicKey) (split : Split) (t : Tournament) (rankings : Rankings) (l : Layer)
    → Runs
        (distribute split t rankings l)
        (λ _ l'. chips_of (player_at q l') ≡ paid_out split t rankings q (chips_of (player_at q l)))
unfolding distribute
distribute-paid_out q split t rankings l =
    elim (Bool-cases (ltb 0 (num_winners split (length rankings)) && ltb 0 t.prize_pool)) [
      | inl pays ↦ rw pays (
          pay_winners-with_prizes q
            (λ i. split.payout (num_winners split (length rankings)) i t.prize_pool)
            (num_winners split (length rankings)) 0 rankings l)
      | inr keeps ↦ rw keeps refl
    ]

-- Leaving a tournament costs no chips.
pub clear_players-chips_of :
    (q : PublicKey) (id : ℕ) (players : List PublicKey) (l : Layer)
    → Runs
        (clear_players id players l)
        (λ _ l'. chips_of (player_at q l') ≡ chips_of (player_at q l))
unfolding clear_players
clear_players-chips_of q id [] l = refl
clear_players-chips_of q id (p ∷ rest) l =
    grind (arith, view_laws, clear_players-chips_of q id rest)
