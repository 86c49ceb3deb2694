-- ===== src/Casino/Ending/Frame.antt =====
-- The end of a tournament leaves the accounts alone.
use supersociety_battleware.Base.{
  ℕ, zero, suc, ◌+◌, List, [], ◌∷◌, Bool, true, false, ◌&&◌, ltb, length, refl, arith,
}
use supersociety_battleware.Types.{PublicKey, Tournament}
use supersociety_battleware.Layer.{Layer, M, when, Leaves, Ensures}
use supersociety_battleware.Layer.Frame.{IsSound, Keeps, frame_laws}
use supersociety_battleware.Casino.Ending.{
  Split, Rankings, num_winners, pay_winners, distribute, clear_players,
  handle_casino_end_tournament,
}

pay_winners-Keeps :
    (q : PublicKey) (payout : ℕ → ℕ) (n i : ℕ) (rankings : Rankings) (l : Layer)
    → IsSound l
    → Ensures (pay_winners payout n i rankings l) (λ _ l'. Keeps q l l')
unfolding pay_winners
pay_winners-Keeps q payout zero i rankings l s = (refl, refl, s)
pay_winners-Keeps q payout (suc n) i [] l s = (refl, refl, s)
pay_winners-Keeps q payout (suc n) i (x ∷ rest) l s =
    grind (arith, frame_laws, pay_winners-Keeps q payout n (i + 1) rest)

when-Keeps :
    (q : PublicKey) (b : Bool) (m : M (Unit {0})) (l : Layer)
    → IsSound l
    → Ensures (m l) (λ _ l'. Keeps q l l')
    → Ensures (when b m l) (λ _ l'. Keeps q l l')
when-Keeps q true m l s h = h
when-Keeps q false m l s h = (refl, refl, s)

distribute-Keeps :
    (q : PublicKey) (split : Split) (t : Tournament) (rankings : Rankings) (l : Layer)
    → IsSound l
    → Ensures (distribute split t rankings l) (λ _ l'. Keeps q l l')
unfolding distribute
distribute-Keeps q split t rankings l s =
    let winners : ℕ = num_winners split (length rankings) in
    when-Keeps q (ltb 0 winners && ltb 0 t.prize_pool) _ l s
      (pay_winners-Keeps q (λ i. split.payout winners i t.prize_pool) winners 0 rankings l s)

clear_players-Keeps :
    (q : PublicKey) (id : ℕ) (players : List PublicKey) (l : Layer)
    → IsSound l
    → Ensures (clear_players id players l) (λ _ l'. Keeps q l l')
unfolding clear_players
clear_players-Keeps q id [] l s = (refl, refl, s)
clear_players-Keeps q id (p ∷ rest) l s = grind (arith, frame_laws, clear_players-Keeps q id rest)

pub handle_casino_end_tournament-Keeps :
    (q : PublicKey) (split : Split) (p : PublicKey) (id : ℕ) (l : Layer)
    → IsSound l
    → Leaves (handle_casino_end_tournament split p id l) (Keeps q l)
unfolding handle_casino_end_tournament
handle_casino_end_tournament-Keeps q split p id l s =
    grind (arith, frame_laws, distribute-Keeps q, clear_players-Keeps q)
