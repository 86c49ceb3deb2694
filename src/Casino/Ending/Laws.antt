-- ===== src/Casino/Ending/Laws.antt =====
-- What the end of a tournament does.
use supersociety_battleware.Base.{
  if◌then◌else◌, ℕ, zero, suc, ◌+◌, ◌≤◌, ◌≡◌, refl, ◌==◌, ltb, length, Bool-cases, inl, inr, true,
  false, ◌&&◌, Option, none, some, List, [], ◌∷◌, arith,
}
use supersociety_battleware.Base.Assoc.{member}
use supersociety_battleware.Types.{PublicKey, Event, Player, TournamentPhase, Tournament}
use supersociety_battleware.Layer.{Layer, Finishes, player_at, tournament_at, view_laws}
use supersociety_battleware.Casino.Start.{is_active_phase}
use supersociety_battleware.Casino.Ending.Runs.{Runs, then_runs}
use supersociety_battleware.Casino.Ending.Prizes.{
  count_player, count_entry, has_stack, count_entry-standings, chips_of, paid_out,
  distribute-paid_out, clear_players-chips_of,
}
use supersociety_battleware.Casino.Ending.{
  Split, Rankings, gather, place, sort_by_chips, pay_winners, distribute, is_in, clear_player,
  clear_players, num_winners, handle_casino_end_tournament,
}

-- From the most chips to the fewest.
abbrev pub BelowAll : ℕ → Rankings → Type 0
BelowAll n [] = Unit
BelowAll n (y ∷ ys) = (y.1 ≤ n) × BelowAll n ys

abbrev pub IsDescending : Rankings → Type 0
IsDescending [] = Unit
IsDescending (x ∷ xs) = BelowAll x.1 xs × IsDescending xs

BelowAll-trans : (m n : ℕ) (xs : Rankings) → n ≤ m → BelowAll n xs → BelowAll m xs
BelowAll-trans m n [] h k = tt
BelowAll-trans m n (x ∷ xs) h k = (omega (arith, k.0), BelowAll-trans m n xs h k.1)

BelowAll-place :
    (n : ℕ) (x : PublicKey × ℕ) (xs : Rankings) → x.1 ≤ n → BelowAll n xs → BelowAll n (place x xs)
unfolding place
BelowAll-place n x [] h k = (h, tt)
BelowAll-place n x (y ∷ ys) h k = ground (arith, BelowAll-place n x ys h)

IsDescending-place :
    (x : PublicKey × ℕ) (xs : Rankings) → IsDescending xs → IsDescending (place x xs)
unfolding place
IsDescending-place x [] d = (tt, tt)
IsDescending-place x (y ∷ ys) d =
    ground (arith, IsDescending-place x ys, BelowAll-place y.1 x ys, BelowAll-trans x.1 y.1 ys)

IsDescending-sort_by_chips :
    (sorted xs : Rankings) → IsDescending sorted → IsDescending (sort_by_chips sorted xs)
unfolding sort_by_chips
IsDescending-sort_by_chips sorted [] d = d
IsDescending-sort_by_chips sorted (x ∷ xs) d =
    IsDescending-sort_by_chips (place x sorted) xs (IsDescending-place x sorted d)

-- Paying changes no tournament, and the flags of nobody.
abbrev SameSeat : Option Player → Option Player → Type 0
SameSeat none none = Unit
SameSeat (some p) (some p') = p'.active_tournament ≡ p.active_tournament
SameSeat _ _ = ⊥

distribute-tournament_at :
    (id : ℕ) (payout : ℕ → ℕ) (n i : ℕ) (rankings : Rankings) (l : Layer)
    → Runs (pay_winners payout n i rankings l) (λ _ l'. tournament_at id l' ≡ tournament_at id l)
unfolding pay_winners
distribute-tournament_at id payout zero i rankings l = refl
distribute-tournament_at id payout (suc n) i [] l = refl
distribute-tournament_at id payout (suc n) i (x ∷ rest) l =
    grind (arith, view_laws, distribute-tournament_at id payout n (i + 1) rest)

-- The player is not in the tournament.
abbrev pub HasLeft : ℕ → Option Player → Type 0
HasLeft id none = Unit
HasLeft id (some p) = is_in id p.active_tournament ≡ false

clear_players_stays :
    (id : ℕ) (q : PublicKey) (players : List PublicKey) (l : Layer)
    → HasLeft id (player_at q l)
    → Runs (clear_players id players l) (λ _ l'. HasLeft id (player_at q l'))
unfolding clear_players
clear_players_stays id q [] l h = h
clear_players_stays id q (p ∷ rest) l h = grind (arith, view_laws, clear_players_stays id q rest)

clear_player-HasLeft :
    (id : ℕ) (p : PublicKey) (l : Layer)
    → Runs (clear_player id p (player_at p l) l) (λ _ l'. HasLeft id (player_at p l'))
clear_player-HasLeft id p l = grind (arith, view_laws)

clear_players-HasLeft :
    (id : ℕ) (q : PublicKey) (players : List PublicKey) (l : Layer)
    → member q players ≡ true
    → Runs (clear_players id players l) (λ _ l'. HasLeft id (player_at q l'))
unfolding clear_players member
clear_players-HasLeft id q [] l h = ground arith
clear_players-HasLeft id q (p ∷ rest) l h = elim (Bool-cases (p == q)) [
  | inl same ↦
      then_runs (clear_player id p (player_at p l) l) (clear_players id rest)
        (λ l'. HasLeft id (player_at q l')) _ (ground (arith, clear_player-HasLeft id p l))
        (λ l' k. clear_players_stays id q rest l' k)
  | inr other ↦
      then_runs (clear_player id p (player_at p l) l) (clear_players id rest) (λ l'. Unit) _
        (grind arith) (λ l' k. clear_players-HasLeft id q rest l' (ground arith))
]

clear_players-tournament_at :
    (i id : ℕ) (players : List PublicKey) (l : Layer)
    → Runs (clear_players id players l) (λ _ l'. tournament_at i l' ≡ tournament_at i l)
unfolding clear_players
clear_players-tournament_at i id [] l = refl
clear_players-tournament_at i id (p ∷ rest) l =
    grind (arith, view_laws, clear_players-tournament_at i id rest)

-- The standings that the events report.
abbrev pub standings : List Event → Rankings
standings (Event.tournament_ended id rankings ∷ []) = rankings
standings _ = []

-- The end of a tournament, for one of its players.
abbrev pub IsOver : Split → ℕ → Tournament → PublicKey → ℕ → Layer → List Event → Layer → Type 0
IsOver split id t q c l events l' =
    (tournament_at id l' ≡ some (record t { phase = TournamentPhase.complete }))
    × HasLeft id (player_at q l')
    × (events ≡ Event.tournament_ended id (standings events) ∷ [])
    × IsDescending (standings events)
    × (count_entry q c (standings events)
        ≡ (if has_stack c (player_at q l) then count_player q t.players else 0))
    × (chips_of (player_at q l') ≡ paid_out split t (standings events) q (chips_of (player_at q l)))

distribute-tournament_at' :
    (id : ℕ) (split : Split) (t : Tournament) (rankings : Rankings) (l : Layer)
    → Runs (distribute split t rankings l) (λ _ l'. tournament_at id l' ≡ tournament_at id l)
unfolding distribute
distribute-tournament_at' id split t rankings l =
    elim (Bool-cases (ltb 0 (num_winners split (length rankings)) && ltb 0 t.prize_pool)) [
      | inl pays ↦ rw pays (
          distribute-tournament_at id
            (λ i. split.payout (num_winners split (length rankings)) i t.prize_pool)
            (num_winners split (length rankings)) 0 rankings l)
      | inr keeps ↦ rw keeps refl
    ]

-- A tournament that is being played ends, whatever the split of the prize, and the handler does not
-- panic. The tournament is complete, and a player of it is in it no more. Its standings go from the
-- most chips to the fewest; they have the player as often as the tournament does, with the stack that
-- the player had and no other. The player's own chips are those before and the prizes of the player's
-- ranks in the standings.
pub handle_casino_end_tournament-IsOver :
    (split : Split) (p q : PublicKey) (id c : ℕ) (t : Tournament) (l : Layer)
    → tournament_at id l ≡ some t
    → is_active_phase t.phase ≡ true
    → member q t.players ≡ true
    → Finishes (handle_casino_end_tournament split p id l) (IsOver split id t q c l)
unfolding handle_casino_end_tournament
handle_casino_end_tournament-IsOver split p q id c t l at active seated = grind (
  arith,
  view_laws,
  distribute-tournament_at' id split t,
  distribute-paid_out q split t,
  clear_players-HasLeft id q t.players,
  clear_players-chips_of q id t.players,
  count_entry-standings q c t.players l,
  IsDescending-sort_by_chips [] (gather t.players l),
)
