-- ===== src/Leaderboard/Search.antt =====
-- `binary_search_by` of the standard library over numbers in descending order, with the comparison
-- `chips.cmp(&e.chips)`, as `unwrap_or_else(|pos| pos)` uses it: the place for a new number.
use supersociety_battleware.Base.{
  ℕ, zero, suc, ◌+◌, ◌-◌, ◌/◌, ◌≤◌, ◌<◌, ◌≡◌, ◌⊎◌, inl, inr, refl, ltb, List, [], ◌∷◌,
  if◌then◌else◌, arith, length, get_or, Bool-cases,
}

-- `while size > 1`: the size falls in each round, so `size` rounds are enough.
search_loop : ℕ → ℕ → List ℕ → ℕ → ℕ → ℕ
search_loop zero chips cs size base = base
search_loop (suc fuel) chips cs size base =
    let half = size / 2 in
    let next = if ltb (get_or cs (base + half) 0) chips then base else base + half in
    let rest = search_loop fuel chips cs (size - half) next in if ltb 1 size then rest else base

-- `Ok(base)`, or `Err` with the place before or after it.
place_after : ℕ → List ℕ → ℕ → ℕ
place_after chips cs base = if ltb chips (get_or cs base 0) then base + 1 else base

pub binary_search : ℕ → List ℕ → ℕ
unfolding search_loop place_after
binary_search chips [] = 0
binary_search chips (c ∷ cs) =
    place_after chips (c ∷ cs) (search_loop (length (c ∷ cs)) chips (c ∷ cs) (length (c ∷ cs)) 0)

-- `Vec::insert`
abbrev pub insert_at {ℓ} : {A : Type ℓ} → ℕ → A → List A → List A
insert_at zero a xs = a ∷ xs
insert_at (suc n) a [] = a ∷ []
insert_at (suc n) a (x ∷ xs) = x ∷ insert_at n a xs

-- Every number is at most the one before it.
abbrev pub Descending : List ℕ → Type 0
Descending [] = Unit
Descending (c ∷ []) = Unit
Descending (c ∷ (d ∷ cs)) = (d ≤ c) × Descending (d ∷ cs)

pub Descending-get_or :
    (cs : List ℕ) (i j : ℕ) → Descending cs → i ≤ j → j < length cs → get_or cs j 0 ≤ get_or cs i 0
Descending-get_or [] i j d h k = absurd (omega arith)
Descending-get_or (c ∷ []) zero zero d h k = omega arith
Descending-get_or (c ∷ []) zero (suc j) d h k = absurd (omega arith)
Descending-get_or (c ∷ []) (suc i) j d h k = absurd (omega arith)
Descending-get_or (c ∷ (e ∷ cs)) zero zero d h k = omega arith
Descending-get_or (c ∷ (e ∷ cs)) zero (suc j) d h k =
    omega (arith, Descending-get_or (e ∷ cs) zero j d.1 (omega arith) (omega arith))
Descending-get_or (c ∷ (e ∷ cs)) (suc i) zero d h k = absurd (omega arith)
Descending-get_or (c ∷ (e ∷ cs)) (suc i) (suc j) d h k =
    Descending-get_or (e ∷ cs) i j d.1 (omega arith) (omega arith)

last_round :
    (chips : ℕ) (cs : List ℕ) (size base : ℕ)
    → size ≡ 1
    → base + size ≤ length cs
    → (base ≡ 0) ⊎ (chips ≤ get_or cs base 0)
    → (base + size ≡ length cs) ⊎ (get_or cs (base + size) 0 < chips)
    → (base < length cs)
      × ((base ≡ 0) ⊎ (chips ≤ get_or cs base 0))
      × ((base + 1 ≡ length cs) ⊎ (get_or cs (base + 1) 0 < chips))
last_round chips cs size base one fits low high = (omega arith, low, rw one at high)

-- Where the loop ends: nothing before `base` is too small, nothing after it too large.
search_loop_lem :
    (fuel chips : ℕ) (cs : List ℕ) (size base : ℕ)
    → Descending cs
    → size ≤ fuel
    → 1 ≤ size
    → base + size ≤ length cs
    → (base ≡ 0) ⊎ (chips ≤ get_or cs base 0)
    → (base + size ≡ length cs) ⊎ (get_or cs (base + size) 0 < chips)
    → let b = search_loop fuel chips cs size base in
      (b < length cs)
      × ((b ≡ 0) ⊎ (chips ≤ get_or cs b 0))
      × ((b + 1 ≡ length cs) ⊎ (get_or cs (b + 1) 0 < chips))
unfolding search_loop
search_loop_lem zero chips cs size base d f p fits low high = absurd (omega arith)
search_loop_lem (suc fuel) chips cs size base d f p fits low high = elim (Bool-cases (ltb 1 size)) [
  | inr last ↦
      let one : size ≡ 1 = ground arith in rw last (last_round chips cs size base one fits low high)
  | inl more ↦ elim (Bool-cases (ltb (get_or cs (base + size / 2) 0) chips)) [
    | inl small ↦
        rw (more, small)
          (search_loop_lem fuel chips cs (size - size / 2) base d (ground arith) (ground arith)
            (omega arith) low
            (inr (
              ground (
                arith,
                Descending-get_or cs (base + size / 2) (base + (size - size / 2)) d (omega arith)
                    (ground arith),
              ))))
    | inr large ↦
        rw (more, large)
          (search_loop_lem fuel chips cs (size - size / 2) (base + size / 2) d (ground arith)
            (ground arith) (omega arith) (inr (ground arith))
            (let e : base + size / 2 + (size - size / 2) ≡ base + size = omega arith in rw e high))
  ]
]

-- A place in a list for `chips`: what stands before it is at least that, and what stands from it on
-- is at most that.
pub record IsPlace (chips : ℕ) (cs : List ℕ) (p : ℕ) : Type 0 where
  pub inside : p ≤ length cs
  pub before : (p ≡ 0) ⊎ (chips ≤ get_or cs (p - 1) 0)
  pub after : (p ≡ length cs) ⊎ (get_or cs p 0 ≤ chips)

place_after-IsPlace :
    (chips : ℕ) (cs : List ℕ) (b : ℕ)
    → Descending cs
    → (b < length cs)
      × ((b ≡ 0) ⊎ (chips ≤ get_or cs b 0))
      × ((b + 1 ≡ length cs) ⊎ (get_or cs (b + 1) 0 < chips))
    → IsPlace chips cs (place_after chips cs b)
unfolding place_after
place_after-IsPlace chips cs b d h = elim (Bool-cases (ltb chips (get_or cs b 0))) [
  | inl over ↦
      let e : b + 1 - 1 ≡ b = omega arith in
      rw over (record {
        inside = omega arith;
        before = inr (rw e (ground arith));
        after = ground (arith, h.2);
      })
  | inr under ↦ rw under (record {
    inside = omega arith;
    before = ground (arith, h.1, Descending-get_or cs (b - 1) b d);
    after = inr (ground arith);
  })
]

-- In numbers that descend, the search ends at a place within the list where the number just before
-- is no less than the new one, and the number there is no more.
pub binary_search-IsPlace :
    (chips : ℕ) (cs : List ℕ) → Descending cs → IsPlace chips cs (binary_search chips cs)
binary_search-IsPlace chips [] d =
    unfold binary_search in record { inside = omega arith; before = inl refl; after = inl refl }
binary_search-IsPlace chips (c ∷ cs) d =
    let n : ℕ = length (c ∷ cs) in
    let found =
      search_loop_lem n chips (c ∷ cs) n 0 d (omega arith) (omega arith) (omega arith) (inl refl)
        (inl (omega arith)) in
    unfold binary_search in
    place_after-IsPlace chips (c ∷ cs) (search_loop n chips (c ∷ cs) n 0) d found
