-- ===== src/Leaderboard/Entries.antt =====
-- What an update keeps of a leaderboard: at most ten entries, in descending order, one for each
-- player.
use supersociety_battleware.Base.{
  ℕ, zero, suc, ◌+◌, ◌≤◌, ◌≡◌, inl, inr, refl, ap, List, [], ◌∷◌, arith, length, take, map,
  length-take-le, ◌==◌, Bool-cases, if◌then◌else◌,
}
use supersociety_battleware.Types.{PublicKey, LeaderboardEntry}
use supersociety_battleware.Leaderboard.Search.{
  Descending, insert_at, binary_search, binary_search-IsPlace,
}
use supersociety_battleware.Leaderboard.Order.{Descending-insert_at, Descending-take}
use supersociety_battleware.Leaderboard.{
  remove_entry, chips_of, number_ranks, misses_board, place_entry, update_entries,
}

map-number_ranks :
    (i : ℕ) (es : List LeaderboardEntry) → map chips_of (number_ranks i es) ≡ map chips_of es
unfolding number_ranks
map-number_ranks i [] = refl
map-number_ranks i (e ∷ es) = ap (λ r. e.chips ∷ r) (map-number_ranks (i + 1) es)

map-take :
    (n : ℕ) (es : List LeaderboardEntry) → map chips_of (take n es) ≡ take n (map chips_of es)
map-take zero es = refl
map-take (suc n) [] = refl
map-take (suc n) (e ∷ es) = ap (λ r. e.chips ∷ r) (map-take n es)

map-insert_at :
    (n : ℕ) (a : LeaderboardEntry) (es : List LeaderboardEntry)
    → map chips_of (insert_at n a es) ≡ insert_at n a.chips (map chips_of es)
map-insert_at zero a es = refl
map-insert_at (suc n) a [] = refl
map-insert_at (suc n) a (e ∷ es) = ap (λ r. e.chips ∷ r) (map-insert_at n a es)

length-number_ranks : (i : ℕ) (es : List LeaderboardEntry) → length (number_ranks i es) ≡ length es
unfolding number_ranks
length-number_ranks i [] = refl
length-number_ranks i (e ∷ es) = ap suc (length-number_ranks (i + 1) es)

length-remove_entry :
    (p : PublicKey) (es : List LeaderboardEntry) → length (remove_entry p es) ≤ length es
unfolding remove_entry
length-remove_entry p [] = omega arith
length-remove_entry p (e ∷ es) = ground (arith, length-remove_entry p es)

-- An update never leaves more than ten entries.
pub length-update_entries :
    (p : PublicKey) (name : List ℕ) (chips : ℕ) (es : List LeaderboardEntry)
    → length es ≤ 10
    → length (update_entries p name chips es) ≤ 10
length-update_entries p name chips es h =
    elim (Bool-cases (misses_board chips (remove_entry p es))) [
      | inl missed ↦ unfold update_entries in rw missed (omega (arith, length-remove_entry p es))
      | inr placed ↦
          unfold update_entries place_entry in
          rw (placed, length-number_ranks) (length-take-le 10 _)
    ]

Descending-tail : (c : ℕ) (cs : List ℕ) → Descending (c ∷ cs) → Descending cs
Descending-tail c [] d = tt
Descending-tail c (e ∷ cs) d = d.1

Descending-skip : (b c : ℕ) (cs : List ℕ) → c ≤ b → Descending (c ∷ cs) → Descending (b ∷ cs)
Descending-skip b c [] h d = tt
Descending-skip b c (e ∷ cs) h d = (omega (arith, d.0), d.1)

Descending-remove_below :
    (p : PublicKey) (b : ℕ) (es : List LeaderboardEntry)
    → Descending (b ∷ map chips_of es)
    → Descending (b ∷ map chips_of (remove_entry p es))
unfolding remove_entry
Descending-remove_below p b [] d = tt
Descending-remove_below p b (e ∷ es) d = elim (Bool-cases (e.player == p)) [
  | inl same ↦ rw same (Descending-skip b e.chips (map chips_of es) d.0 d.1)
  | inr other ↦ rw other (d.0, Descending-remove_below p e.chips es d.1)
]

Descending-remove_entry :
    (p : PublicKey) (es : List LeaderboardEntry)
    → Descending (map chips_of es)
    → Descending (map chips_of (remove_entry p es))
unfolding remove_entry
Descending-remove_entry p [] d = tt
Descending-remove_entry p (e ∷ es) d = elim (Bool-cases (e.player == p)) [
  | inl same ↦ rw same (Descending-tail e.chips (map chips_of es) d)
  | inr other ↦ rw other (Descending-remove_below p e.chips es d)
]

-- An update keeps the entries in descending order of chips.
pub Descending-update_entries :
    (p : PublicKey) (name : List ℕ) (chips : ℕ) (es : List LeaderboardEntry)
    → Descending (map chips_of es)
    → Descending (map chips_of (update_entries p name chips es))
Descending-update_entries p name chips es d =
    let kept = remove_entry p es in
    let sorted : Descending (map chips_of kept) = Descending-remove_entry p es d in
    elim (Bool-cases (misses_board chips kept)) [
      | inl missed ↦ unfold update_entries in rw missed sorted
      | inr placed ↦
          unfold update_entries place_entry in
          rw (placed, map-number_ranks, map-take, map-insert_at)
            (Descending-take 10 _ (
              Descending-insert_at _ chips (map chips_of kept) sorted
                (binary_search-IsPlace chips (map chips_of kept) sorted)))
    ]

-- How many entries a player has.
unfoldable pub count_entries : PublicKey → List LeaderboardEntry → ℕ
count_entries p [] = 0
count_entries p (e ∷ es) = (if e.player == p then 1 else 0) + count_entries p es

count-number_ranks :
    (q : PublicKey) (i : ℕ) (es : List LeaderboardEntry)
    → count_entries q (number_ranks i es) ≡ count_entries q es
unfolding number_ranks count_entries
count-number_ranks q i [] = refl
count-number_ranks q i (e ∷ es) = rw (count-number_ranks q (i + 1) es)

count-take :
    (q : PublicKey) (n : ℕ) (es : List LeaderboardEntry)
    → count_entries q (take n es) ≤ count_entries q es
unfolding count_entries
count-take q zero es = omega arith
count-take q (suc n) [] = omega arith
count-take q (suc n) (e ∷ es) = omega (arith, count-take q n es)

count-insert_at :
    (q : PublicKey) (n : ℕ) (a : LeaderboardEntry) (es : List LeaderboardEntry)
    → count_entries q (insert_at n a es) ≡ (if a.player == q then 1 else 0) + count_entries q es
unfolding count_entries
count-insert_at q zero a es = refl
count-insert_at q (suc n) a [] = refl
count-insert_at q (suc n) a (e ∷ es) = omega (arith, count-insert_at q n a es)

count-remove_entry :
    (q p : PublicKey) (es : List LeaderboardEntry)
    → count_entries q (remove_entry p es) ≤ count_entries q es
unfolding remove_entry count_entries
count-remove_entry q p [] = omega arith
count-remove_entry q p (e ∷ es) = ground (arith, count-remove_entry q p es)

count-remove_self :
    (p : PublicKey) (es : List LeaderboardEntry)
    → count_entries p es ≤ 1
    → count_entries p (remove_entry p es) ≡ 0
unfolding remove_entry count_entries
count-remove_self p [] h = refl
count-remove_self p (e ∷ es) h = ground (arith, count-remove_self p es)

-- If no player has two entries, none has two after an update.
pub count-update_entries :
    (p q : PublicKey) (name : List ℕ) (chips : ℕ) (es : List LeaderboardEntry)
    → ((r : PublicKey) → count_entries r es ≤ 1)
    → count_entries q (update_entries p name chips es) ≤ 1
count-update_entries p q name chips es h =
    let kept = remove_entry p es in
    elim (Bool-cases (misses_board chips kept)) [
      | inl missed ↦
          unfold update_entries in rw missed (omega (arith, h q, count-remove_entry q p es))
      | inr placed ↦
          unfold update_entries place_entry in
          rw (placed, count-number_ranks)
            (ground (
              arith,
              h q,
              h p,
              count-remove_entry q p es,
              count-remove_self p es,
              count-take q 10 (
                  insert_at (binary_search chips (map chips_of kept))
                    (record { player = p; name = name; chips = chips; rank = 0 }) kept),
              count-insert_at q (binary_search chips (map chips_of kept))
                  (record { player = p; name = name; chips = chips; rank = 0 }) kept,
            ))
    ]
