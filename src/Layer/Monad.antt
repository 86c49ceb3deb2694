-- ===== src/Layer/Monad.antt =====
-- Handlers as state passing. A handler ends with its events, also by an early `return`, or it
-- panics: the release profile of Cargo.toml has overflow checks, so `+`, `-` and `*` out of range
-- panic.
use supersociety_battleware.Base.{
  ℕ, ◌-◌, ◌^◌, ℤ, Bool, true, false, Option, none, some, List, ltb, leb, fits_signed,
}
use supersociety_battleware.Types.{Event, Key, Value}
use supersociety_battleware.Layer.Store.{Layer, insert}

pub data Outcome (A : Type 0) : Type 0 where
  done : A → Layer → Outcome A
  returned : List Event → Layer → Outcome A
  panicked : Outcome A

abbrev pub M : Type 0 → Type 0
M A = Layer → Outcome A

infixl 5 ◌>>=◌ ◌>>◌
abbrev pub ◌>>=◌ : {A B : Type 0} → M A → (A → M B) → M B
◌>>=◌ m f l = elim (m l) [
  | done a l' ↦ f a l'
  | returned events l' ↦ returned events l'
  | panicked ↦ panicked
]

abbrev pub ◌>>◌ : {A B : Type 0} → M A → M B → M B
m >> k = m >>= λ _. k

abbrev pub pure : {A : Type 0} → A → M A
pure a l = done a l

-- `return events`
abbrev pub exit : {A : Type 0} → List Event → M A
exit events l = returned events l

abbrev pub panic : {A : Type 0} → M A
panic l = panicked

abbrev pub return_if : Bool → List Event → M (Unit {0})
return_if true events = exit events
return_if false events = pure tt

-- `if c { m }`
abbrev pub when : Bool → M (Unit {0}) → M (Unit {0})
when true m = m
when false m = pure tt

abbrev pub or_return : {A : Type 0} → Option A → List Event → M A
or_return none events = exit events
or_return (some a) events = pure a

abbrev pub panic_unless : {A : Type 0} → Bool → A → M A
panic_unless true a = pure a
panic_unless false a = panic

-- A checked operation with the result `n`, on `w` bits.
abbrev pub checked : ℕ → ℕ → M ℕ
checked w n = panic_unless (ltb n (2 ^ w)) n

-- `a - b`
abbrev pub checked_sub : ℕ → ℕ → M ℕ
checked_sub a b = panic_unless (leb b a) (a - b)

-- A checked operation with the result `z`, on `w + 1` bits with a sign.
abbrev pub checked_signed : ℕ → ℤ → M ℤ
checked_signed w z = panic_unless (fits_signed w z) z

abbrev pub put : Key → Value → M (Unit {0})
put k v l = done tt (insert k v l)

abbrev pub seed_view : M ℕ
seed_view l = done l.seed.view l

-- The body of a handler, with its early returns.
abbrev pub handler : M (List Event) → M (List Event)
handler m l = elim (m l) [
  | done events l' ↦ done events l'
  | returned events l' ↦ done events l'
  | panicked ↦ panicked
]

-- Reading an aspect of the layer.
abbrev pub look : {A : Type 0} → (Layer → A) → M A
look f l = done (f l) l

-- The handler ends, with events and a layer as `P` says.
abbrev pub Finishes : Outcome (List Event) → (List Event → Layer → Type 0) → Type 0
Finishes (done events l) P = P events l
Finishes (returned events l) P = ⊥
Finishes panicked P = ⊥

-- The action panics, or ends, without an early return, as `P` says.
abbrev pub Ensures : {A : Type 0} → Outcome A → (A → Layer → Type 0) → Type 0
Ensures (done a l) P = P a l
Ensures (returned events l) P = ⊥
Ensures panicked P = Unit

-- However an action ends, short of a panic, its layer is as `P` says.
abbrev pub Leaves : {A : Type 0} → Outcome A → (Layer → Type 0) → Type 0
Leaves (done a l) P = P l
Leaves (returned events l) P = P l
Leaves panicked P = Unit
