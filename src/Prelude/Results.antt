-- ===== src/Prelude/Results.antt =====
-- `none` is a run that the program's own `assert` aborts. `Returns` is total correctness: the run
-- gets through, and its value satisfies the predicate.
use mathlib.Core.Path.{◌≡◌, refl}
use mathlib.Core.Bool.{Bool, true, false}
use mathlib.Core.Option.{Option, none, some}

infixl 5 ◌>>=◌ ◌>>◌
abbrev pub ◌>>=◌ {ℓ κ} : {A : Type ℓ} {B : Type κ} → Option A → (A → Option B) → Option B
none >>= f = none
some a >>= f = f a

abbrev pub ◌>>◌ {ℓ} : {B : Type ℓ} → Option (Unit {0}) → Option B → Option B
m >> k = m >>= λ _. k

abbrev pub assert : Bool → Option (Unit {0})
assert true = some tt
assert false = none

abbrev pub Returns {ℓ} : {A : Type ℓ} → Option A → (A → Type 0) → Type 0
Returns none P = ⊥
Returns (some a) P = P a

module _ {ℓ} {A : Type ℓ} (P : A → Type 0) where
  pub Returns-some : (m : Option A) → Returns m P → (a : A) × (m ≡ some a) × P a
  Returns-some none h = absurd h
  Returns-some (some a) h = (a, refl, h)

  pub Returns_of_eq : (m : Option A) (a : A) → m ≡ some a → P a → Returns m P
  Returns_of_eq m a e h = rw e h

  pub Returns_at : (m : Option A) (a : A) → m ≡ some a → Returns m P → P a
  Returns_at m a e h = rw e at h

  pub Returns_map :
      (Q : A → Type 0) (m : Option A) → ((a : A) → P a → Q a) → Returns m P → Returns m Q
  Returns_map Q none f h = absurd h
  Returns_map Q (some a) f h = f a h

  pub Returns->>= {κ} :
      {B : Type κ} (Q : B → Type 0) (m : Option A) (f : A → Option B)
      → Returns m P
      → ((a : A) → P a → Returns (f a) Q)
      → Returns (m >>= f) Q
  Returns->>= Q none f h k = absurd h
  Returns->>= Q (some a) f h k = k a h

pub assert->> {ℓ} :
    {B : Type ℓ} (Q : B → Type 0) (t : Bool) (k : Option B)
    → t ≡ true
    → Returns k Q
    → Returns (assert t >> k) Q
assert->> Q true k e h = h
assert->> Q false k e h = absurd (cc e)

-- Partial correctness: if the run gets through, its value satisfies the predicate.
abbrev pub Whenever {ℓ} : {A : Type ℓ} → Option A → (A → Type 0) → Type 0
Whenever none P = Unit {0}
Whenever (some a) P = P a

module _ {ℓ} {A : Type ℓ} (P : A → Type 0) where
  pub Whenever_at : (m : Option A) (a : A) → m ≡ some a → Whenever m P → P a
  Whenever_at m a e h = rw e at h

  pub Whenever->>= {κ} :
      {B : Type κ} (m : Option B) (k : B → Option A)
      → ((b : B) → Whenever (k b) P)
      → Whenever (m >>= k) P
  Whenever->>= none k h = tt
  Whenever->>= (some b) k h = h b

  pub Returns-Whenever : (m : Option A) → Returns m P → Whenever m P
  Returns-Whenever none h = tt
  Returns-Whenever (some a) h = h

  pub Returns_and :
      (Q : A → Type 0) (m : Option A) → Returns m P → Whenever m Q → Returns m (λ a. P a × Q a)
  Returns_and Q none h k = absurd h
  Returns_and Q (some a) h k = (h, k)

  pub Whenever_and :
      (Q R : A → Type 0) (m : Option A)
      → Whenever m P
      → Whenever m Q
      → ((a : A) → P a → Q a → R a)
      → Whenever m R
  Whenever_and Q R none h k f = tt
  Whenever_and Q R (some a) h k f = f a h k

  pub Whenever_bind {κ} :
      {B : Type κ} (Q : B → Type 0) (m : Option B) (k : B → Option A)
      → Whenever m Q
      → ((b : B) → Q b → Whenever (k b) P)
      → Whenever (m >>= k) P
  Whenever_bind Q none k q h = tt
  Whenever_bind Q (some b) k q h = h b q

  pub Whenever_map :
      (Q : A → Type 0) (m : Option A) → ((a : A) → P a → Q a) → Whenever m P → Whenever m Q
  Whenever_map Q none f h = tt
  Whenever_map Q (some a) f h = f a h
