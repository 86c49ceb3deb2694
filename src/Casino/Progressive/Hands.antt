-- ===== src/Casino/Progressive/Hands.antt =====
-- The hands that win a progressive jackpot, and the state blobs that they are read from
-- (execution/src/layer/mod.rs).
use supersociety_battleware.Base.{
  ℕ, ◌+◌, ◌-◌, ◌*◌, ◌/◌, ◌%◌, leb, ltb, ◌==◌, Bool, true, false, not, ◌&&◌, ◌||◌, Option, none,
  some, List, [], ◌∷◌, if◌then◌else◌, length, take, drop, get_or,
}

-- Big-endian bytes as a number.
unfoldable pub from_be_bytes : ℕ → List ℕ → ℕ
from_be_bytes acc [] = acc
from_be_bytes acc (b ∷ bs) = from_be_bytes (acc * 256 + b) bs

-- `parse_u64_be_at`: none if the blob ends before the eighth byte.
pub parse_u64_be_at : List ℕ → ℕ → Option ℕ
unfolding from_be_bytes
parse_u64_be_at blob offset =
    if leb (offset + 8) (length blob)
    then some (from_be_bytes 0 (take 8 (drop offset blob)))
    else none

abbrev pub or_zero : Option ℕ → ℕ
or_zero none = 0
or_zero (some n) = n

pub record ThreeCardState : Type 0 where
  pub progressive_bet : ℕ
  pub c0 : ℕ
  pub c1 : ℕ
  pub c2 : ℕ

-- The bet is there from version 3 on.
pub parse_three_card_progressive_state : List ℕ → Option ThreeCardState
unfolding parse_u64_be_at
parse_three_card_progressive_state blob =
    if ltb (length blob) 5
    then none
    else some (record {
      progressive_bet = if leb 3 (get_or blob 0 0) then or_zero (parse_u64_be_at blob 24) else 0;
      c0 = get_or blob 2 0;
      c1 = get_or blob 3 0;
      c2 = get_or blob 4 0;
    })

pub record UthState : Type 0 where
  pub progressive_bet : ℕ
  pub h0 : ℕ
  pub h1 : ℕ
  pub f0 : ℕ
  pub f1 : ℕ
  pub f2 : ℕ

pub parse_uth_progressive_state : List ℕ → Option UthState
unfolding parse_u64_be_at
parse_uth_progressive_state blob =
    if ltb (length blob) 7
    then none
    else some (record {
      progressive_bet = if leb 3 (get_or blob 0 0) then or_zero (parse_u64_be_at blob 32) else 0;
      h0 = get_or blob 2 0;
      h1 = get_or blob 3 0;
      f0 = get_or blob 4 0;
      f1 = get_or blob 5 0;
      f2 = get_or blob 6 0;
    })

pub card_rank_ace_high : ℕ → ℕ
card_rank_ace_high card = let r = card % 13 + 1 in if r == 1 then 14 else r

pub card_suit : ℕ → ℕ
card_suit card = card / 13

-- A sort of a list of ranks, in ascending order.
pub insert_sorted : ℕ → List ℕ → List ℕ
insert_sorted a [] = a ∷ []
insert_sorted a (b ∷ bs) = if leb a b then a ∷ (b ∷ bs) else b ∷ insert_sorted a bs

pub sort : List ℕ → List ℕ
unfolding insert_sorted
sort [] = []
sort (a ∷ as') = insert_sorted a (sort as')

pub list_eq : List ℕ → List ℕ → Bool
list_eq [] [] = true
list_eq (a ∷ as') (b ∷ bs) = a == b && list_eq as' bs
list_eq _ _ = false

-- Ace, king and queen of the first suit; the source sorts the ranks in descending order.
pub is_three_card_mini_royal_spades : ℕ → ℕ → ℕ → Bool
unfolding card_suit card_rank_ace_high sort list_eq
is_three_card_mini_royal_spades c0 c1 c2 =
    (ltb c0 52 && ltb c1 52 && ltb c2 52)
    && (card_suit c0 == 0 && card_suit c1 == 0 && card_suit c2 == 0)
    && list_eq (sort (card_rank_ace_high c0 ∷ card_rank_ace_high c1 ∷ card_rank_ace_high c2 ∷ []))
        (12 ∷ 13 ∷ 14 ∷ [])

pub data UthJackpotTier : Type 0 where
  no_tier straight_flush royal_flush : UthJackpotTier

-- Is a sorted hand of five ranks a straight? Without duplicates, and a run or the wheel.
pub is_straight : List ℕ → Bool
unfolding list_eq
is_straight (r0 ∷ r1 ∷ r2 ∷ r3 ∷ r4 ∷ []) =
    not (r0 == r1 || r1 == r2 || r2 == r3 || r3 == r4)
    && (r4 - r0 == 4 || list_eq (r0 ∷ r1 ∷ r2 ∷ r3 ∷ r4 ∷ []) (2 ∷ 3 ∷ 4 ∷ 5 ∷ 14 ∷ []))
is_straight _ = false

pub uth_progressive_jackpot_tier : ℕ → ℕ → ℕ → ℕ → ℕ → UthJackpotTier
unfolding card_suit card_rank_ace_high sort list_eq is_straight
uth_progressive_jackpot_tier h0 h1 f0 f1 f2 =
    let cards_known = ltb h0 52 && ltb h1 52 && ltb f0 52 && ltb f1 52 && ltb f2 52 in
    let is_flush =
      card_suit h0 == card_suit h1
      && card_suit h1 == card_suit f0
      && card_suit f0 == card_suit f1
      && card_suit f1 == card_suit f2 in
    let ranks = sort (
      card_rank_ace_high h0
      ∷ card_rank_ace_high h1
      ∷ card_rank_ace_high f0
      ∷ card_rank_ace_high f1
      ∷ card_rank_ace_high f2
      ∷ []) in
    let is_royal = list_eq ranks (10 ∷ 11 ∷ 12 ∷ 13 ∷ 14 ∷ []) in
    if not cards_known
    then no_tier
    else if is_flush && is_royal
    then royal_flush
    else if is_flush && is_straight ranks
    then straight_flush
    else no_tier
