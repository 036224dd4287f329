-- ===== src/Prelude/Maps.antt =====
-- Maps as functions of a number, and lists as collections of numbers.
use Prim.Native.Nat.{ℕ, suc, ◌+◌}
use mathlib.Core.List.{List, [], ◌∷◌, ◌++◌}
use mathlib.Core.Path.{◌≡◌, refl}
use mathlib.Core.Logic.{◌≢◌, ◌⊎◌}
use mathlib.Core.Bool.{true, false}
use lute.Prelude.Tests.{◌==◌, if◌then◌else◌, ==_iff}
use native.Mathlib.Omega.{arith}

abbrev pub set_at {ℓ} : {A : Type ℓ} → ℕ → A → (ℕ → A) → ℕ → A
set_at k a f x = if x == k then a else f x

pub ==_refl : (k : ℕ) → (k == k) ≡ true
==_refl k = (==_iff k k).1 refl

pub ==_of_ne : (x k : ℕ) → x ≢ k → (x == k) ≡ false
==_of_ne x k h = ground arith

pub ℕ-cases : (x k : ℕ) → (x ≡ k) ⊎ (x ≢ k)
ℕ-cases x k = ground arith

module _ {ℓ} {A : Type ℓ} where
  pub set_at_same : (k : ℕ) (a : A) (f : ℕ → A) → set_at k a f k ≡ a
  set_at_same k a f = rw (==_refl k)

  pub set_at_other : (k x : ℕ) (a : A) (f : ℕ → A) → x ≢ k → set_at k a f x ≡ f x
  set_at_other k x a f h = rw (==_of_ne x k h)

-- How often a number stands in a list.
abbrev pub count : ℕ → List ℕ → ℕ
count k [] = 0
count k (x ∷ xs) = let rest = count k xs in if x == k then suc rest else rest

pub count-append : (k : ℕ) (xs ys : List ℕ) → count k (xs ++ ys) ≡ count k xs + count k ys
count-append k [] ys = omega arith
count-append k (x ∷ xs) ys = ground (arith, count-append k xs ys)
