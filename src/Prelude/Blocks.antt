-- ===== src/Prelude/Blocks.antt =====
-- A block copy into a list (`std::copy` to an index), and slices of the list after it.
use Prim.Native.Nat.{ℕ, zero, suc, ◌+◌, ◌≤◌}
use mathlib.Core.Path.{◌≡◌, refl, ap, ◌∙◌}
use mathlib.Core.List.{List, [], ◌∷◌, ◌++◌}
use native.Mathlib.Omega.{arith}
use lute.Prelude.Lists.{
  length, take, drop, length-append, length-take, length-drop, take-append, take-append_left,
  drop-append_left,
}

module _ {ℓ} {A : Type ℓ} where
  -- The list keeps its length where the block fits.
  abbrev pub copy_at : ℕ → List A → List A → List A
  copy_at zero d xs = d ++ drop (length d) xs
  copy_at (suc i) d [] = []
  copy_at (suc i) d (x ∷ xs) = x ∷ copy_at i d xs

  -- The `n` elements from index `i` on.
  abbrev pub slice : ℕ → ℕ → List A → List A
  slice i n xs = take n (drop i xs)

  pub length-copy_at :
      (i : ℕ) (d xs : List A) → i + length d ≤ length xs → length (copy_at i d xs) ≡ length xs
  length-copy_at zero d xs h =
      omega (arith, length-append d (drop (length d) xs), length-drop (length d) xs)
  length-copy_at (suc i) d [] h = absurd (omega arith)
  length-copy_at (suc i) d (x ∷ xs) h = ap suc (length-copy_at i d xs (omega arith))

  pub length-slice : (i n : ℕ) (xs : List A) → i + n ≤ length xs → length (slice i n xs) ≡ n
  length-slice i n xs h = omega (arith, length-take n (drop i xs), length-drop i xs)

  pub slice-slice-drop :
      (i j k n m : ℕ) (xs : List A) → j ≡ i + k → n ≡ m + k → slice j m xs ≡ drop k (slice i n xs)
  slice-slice-drop zero zero zero n m xs e f = rw (let g : n ≡ m = omega arith in g)
  slice-slice-drop zero zero (suc k) n m xs e f = absurd (omega arith)
  slice-slice-drop zero (suc j) zero n m xs e f = absurd (omega arith)
  slice-slice-drop zero (suc j) (suc k) zero m xs e f = absurd (omega arith)
  slice-slice-drop zero (suc j) (suc k) (suc n) zero [] e f = refl
  slice-slice-drop zero (suc j) (suc k) (suc n) (suc m) [] e f = refl
  slice-slice-drop zero (suc j) (suc k) (suc n) m (x ∷ xs) e f =
      slice-slice-drop zero j k n m xs (omega arith) (omega arith)
  slice-slice-drop (suc i) zero k n m xs e f = absurd (omega arith)
  slice-slice-drop (suc i) (suc j) k n m (x ∷ xs) e f =
      slice-slice-drop i j k n m xs (omega arith) f
  slice-slice-drop (suc i) (suc j) zero zero zero [] e f = refl
  slice-slice-drop (suc i) (suc j) zero zero (suc m) [] e f = refl
  slice-slice-drop (suc i) (suc j) zero (suc n) zero [] e f = refl
  slice-slice-drop (suc i) (suc j) zero (suc n) (suc m) [] e f = refl
  slice-slice-drop (suc i) (suc j) (suc k) zero zero [] e f = refl
  slice-slice-drop (suc i) (suc j) (suc k) zero (suc m) [] e f = refl
  slice-slice-drop (suc i) (suc j) (suc k) (suc n) zero [] e f = refl
  slice-slice-drop (suc i) (suc j) (suc k) (suc n) (suc m) [] e f = refl

  pub take-take : (m n : ℕ) (xs : List A) → m ≤ n → take m (take n xs) ≡ take m xs
  take-take zero n xs h = refl
  take-take (suc m) zero xs h = absurd (omega arith)
  take-take (suc m) (suc n) [] h = refl
  take-take (suc m) (suc n) (x ∷ xs) h = ap (◌∷◌ x) (take-take m n xs (omega arith))

  -- A block written at index `w` extends the slice that ends there.
  pub slice-copy_at :
      (r w m n : ℕ) (d xs : List A)
      → w + length d ≤ length xs
      → r + m ≡ w
      → n ≡ m + length d
      → slice r n (copy_at w d xs) ≡ slice r m xs ++ d
  slice-copy_at zero zero zero n d xs h e f = take-append n d _ (omega arith)
  slice-copy_at zero zero (suc m) n d xs h e f = absurd (omega arith)
  slice-copy_at zero (suc w) zero n d xs h e f = absurd (omega arith)
  slice-copy_at zero (suc w) (suc m) n d [] h e f = absurd (omega arith)
  slice-copy_at zero (suc w) (suc m) zero d (x ∷ xs) h e f = absurd (omega arith)
  slice-copy_at zero (suc w) (suc m) (suc n) d (x ∷ xs) h e f =
      ap (◌∷◌ x) (slice-copy_at zero w m n d xs (omega arith) (omega arith) (omega arith))
  slice-copy_at (suc r) zero m n d xs h e f = absurd (omega arith)
  slice-copy_at (suc r) (suc w) m n d [] h e f = absurd (omega arith)
  slice-copy_at (suc r) (suc w) m n d (x ∷ xs) h e f =
      slice-copy_at r w m n d xs (omega arith) (omega arith) f

  -- A block written right before index `r` is prepended to the slice that starts there.
  pub slice-copy_at_before :
      (i r m n : ℕ) (d xs : List A)
      → r ≤ length xs
      → r ≡ i + length d
      → n ≡ length d + m
      → slice i n (copy_at i d xs) ≡ d ++ slice r m xs
  slice-copy_at_before zero r m n d xs h e f =
      rw (let g : r ≡ length d = omega arith in g) (go d n f)
    where
      go :
          (c : List A) (k : ℕ)
          → k ≡ length c + m
          → take k (c ++ drop (length d) xs) ≡ c ++ slice (length d) m xs
      go [] k g = rw (let g' : k ≡ m = omega arith in g')
      go (c ∷ cs) zero g = absurd (omega arith)
      go (c ∷ cs) (suc k) g = ap (◌∷◌ c) (go cs k (omega arith))
  slice-copy_at_before (suc i) zero m n d xs h e f = absurd (omega arith)
  slice-copy_at_before (suc i) (suc r) m n d [] h e f = absurd (omega arith)
  slice-copy_at_before (suc i) (suc r) m n d (x ∷ xs) h e f =
      slice-copy_at_before i r m n d xs (omega arith) (omega arith) f

  -- What is added behind the slice does not show.
  pub slice-append :
      (i n : ℕ) (xs ys : List A) → i + n ≤ length xs → slice i n (xs ++ ys) ≡ slice i n xs
  slice-append i n xs ys h =
      ap (take n) (drop-append_left i xs ys (omega arith))
      ∙ take-append_left n (drop i xs) ys (omega (arith, length-drop i xs))
