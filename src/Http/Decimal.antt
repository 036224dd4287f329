-- ===== src/Http/Decimal.antt =====
-- The decimal digits that `snprintf` prints for `%d` and `%zd` of a number that is not negative.
use mathlib.Core.List.{reverse, reverse-cons, reverse-reverse}
use lute.Prelude.{
  ◌≤◌, lt→ltb, length-append, length, ℕ, zero, suc, ◌+◌, ◌-◌, ◌*◌, ◌/◌, ◌%◌, ◌^◌, ◌<◌, ◌≡◌, ap, ◌∙◌,
  [], ◌∷◌, arith, ltb, if◌then◌else◌, Bool-cases, inl, inr, ltb→lt, refl, subst, ◌++◌, ◌≢◌, sym,
}
use lute.Http.Bytes.{Bytes}

-- The digits, the last one first; `fuel` bounds their number.
digits : ℕ → ℕ → Bytes
digits zero n = []
digits (suc fuel) n =
    let rest = digits fuel (n / 10) in (b'0' + n % 10) ∷ (if ltb n 10 then [] else rest)

-- A `size_t` has at most 20 digits.
unfoldable pub decimal : ℕ → Bytes
unfolding digits
decimal n = reverse (digits 20 n)

-- The number that digits stand for, the last one first.
abbrev pub value_of : Bytes → ℕ
value_of [] = 0
value_of (c ∷ cs) = (c - b'0') + 10 * value_of cs

power : ℕ → ℕ
power zero = 1
power (suc k) = 10 * power k

value_of-digits : (fuel n : ℕ) → n < power fuel → value_of (digits fuel n) ≡ n
unfolding digits power
value_of-digits zero n h = omega arith
value_of-digits (suc fuel) n h = elim (Bool-cases (ltb n 10)) [
  | inl one ↦ rw one (omega (arith, ltb→lt _ _ one))
  | inr more ↦ rw more (omega (arith, value_of-digits fuel (n / 10) (omega arith)))
]

-- The printed number is the number, for all of `size_t`.
pub value_of-decimal : (n : ℕ) → n < 2 ^ 64 → value_of (reverse (decimal n)) ≡ n
unfolding decimal power
value_of-decimal n h =
    ap value_of (reverse-reverse (digits 20 n)) ∙ value_of-digits 20 n (omega arith)

length-digits : (fuel k n : ℕ) → n < power k → 0 < k → length (digits fuel n) ≤ k
unfolding digits power
length-digits zero k n h p = omega arith
length-digits (suc fuel) zero n h p = absurd (omega arith)
length-digits (suc fuel) (suc zero) n h p = rw (lt→ltb n 10 (omega arith)) (omega arith)
length-digits (suc fuel) (suc (suc k)) n h p = elim (Bool-cases (ltb n 10)) [
  | inl one ↦ rw one (omega arith)
  | inr more ↦
      rw more (omega (arith, length-digits fuel (suc k) (n / 10) (omega arith) (omega arith)))
]

length-reverse : (xs : Bytes) → length (reverse xs) ≡ length xs
length-reverse [] = refl
length-reverse (x ∷ xs) =
    omega
      (arith, ap length (reverse-cons x xs), length-append (reverse xs) (x ∷ []), length-reverse xs)

pub length-decimal : (n : ℕ) → n < 10000000000000 → length (decimal n) ≤ 13
unfolding decimal power
length-decimal n h =
    omega (arith, length-reverse (digits 20 n), length-digits 20 13 n (omega arith) (omega arith))

-- None of the bytes is `c`.
abbrev pub Without : ℕ → Bytes → Type 0
Without c [] = Unit {0}
Without c (x ∷ xs) = (x ≢ c) × Without c xs

Without-append : (c : ℕ) (xs ys : Bytes) → Without c xs → Without c ys → Without c (xs ++ ys)
Without-append c [] ys h k = k
Without-append c (x ∷ xs) ys h k = (h.0, Without-append c xs ys h.1 k)

Without-reverse : (c : ℕ) (xs : Bytes) → Without c xs → Without c (reverse xs)
Without-reverse c [] h = tt
Without-reverse c (x ∷ xs) h =
    subst (Without c) (sym (reverse-cons x xs))
      (Without-append c (reverse xs) (x ∷ []) (Without-reverse c xs h.1) (h.0, tt))

Without-digits : (fuel n : ℕ) → Without b':' (digits fuel n)
unfolding digits
Without-digits zero n = tt
Without-digits (suc fuel) n = elim (Bool-cases (ltb n 10)) [
  | inl one ↦ rw one ((λ e. omega arith), tt)
  | inr more ↦ rw more ((λ e. omega arith), Without-digits fuel (n / 10))
]

-- A printed number is digits, none of which is a colon.
pub Without-decimal : (n : ℕ) → Without b':' (decimal n)
unfolding decimal
Without-decimal n = Without-reverse b':' (digits 20 n) (Without-digits 20 n)

pub decimal-injective : (a b : ℕ) → a < 2 ^ 64 → b < 2 ^ 64 → decimal a ≡ decimal b → a ≡ b
decimal-injective a b h k e =
    sym (value_of-decimal a h) ∙ ap (λ d. value_of (reverse d)) e ∙ value_of-decimal b k
