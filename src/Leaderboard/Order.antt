-- ===== src/Leaderboard/Order.antt =====
-- The order of the numbers is kept by insertion at a place, by `take` and by removal.
use supersociety_battleware.Base.{
  ℕ, zero, suc, ◌-◌, ◌≤◌, ◌≡◌, ◌⊎◌, List, [], ◌∷◌, arith, get_or, take,
}
use supersociety_battleware.Leaderboard.Search.{Descending, IsPlace, insert_at}

IsPlace-tail :
    (chips c : ℕ) (cs : List ℕ) (p : ℕ)
    → IsPlace chips (c ∷ cs) (suc (suc p))
    → IsPlace chips cs (suc p)
IsPlace-tail chips c cs p h =
    let e : suc (suc p) - 1 ≡ suc p = omega arith in
    let f : suc p - 1 ≡ p = omega arith in
    record {
      inside = omega (arith, h.inside);
      before = rw f (tail_before (rw e at h.before));
      after = ground (arith, h.after);
    }
  where
    tail_before :
        (suc (suc p) ≡ 0) ⊎ (chips ≤ get_or (c ∷ cs) (suc p) 0)
        → (suc p ≡ 0) ⊎ (chips ≤ get_or cs p 0)
    tail_before x = ground arith

pub Descending-insert_at :
    (p chips : ℕ) (cs : List ℕ)
    → Descending cs
    → IsPlace chips cs p
    → Descending (insert_at p chips cs)
Descending-insert_at zero chips [] d h = tt
Descending-insert_at zero chips (c ∷ cs) d h = (ground (arith, h.after), d)
Descending-insert_at (suc p) chips [] d h = tt
Descending-insert_at (suc zero) chips (c ∷ []) d h = (ground (arith, h.before), tt)
Descending-insert_at (suc zero) chips (c ∷ (e ∷ cs)) d h =
    (ground (arith, h.before), (ground (arith, h.after), d.1))
Descending-insert_at (suc (suc p)) chips (c ∷ []) d h = absurd (omega (arith, h.inside))
Descending-insert_at (suc (suc p)) chips (c ∷ (e ∷ cs)) d h =
    (d.0, Descending-insert_at (suc p) chips (e ∷ cs) d.1 (IsPlace-tail chips c (e ∷ cs) p h))

pub Descending-take : (n : ℕ) (cs : List ℕ) → Descending cs → Descending (take n cs)
Descending-take zero cs d = tt
Descending-take (suc n) [] d = tt
Descending-take (suc zero) (c ∷ cs) d = tt
Descending-take (suc (suc n)) (c ∷ []) d = tt
Descending-take (suc (suc n)) (c ∷ (e ∷ cs)) d = (d.0, Descending-take (suc n) (e ∷ cs) d.1)
