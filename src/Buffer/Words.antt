-- ===== src/Buffer/Words.antt =====
-- Integers as bytes in the host's memory and on the wire: the conversions of
-- polaris/include/polaris/Sockets.h and the casts of polaris/include/polaris/Buffer.h.
use mathlib.Core.List.{reverse-cons, reverse-reverse}
use native.Mathlib.Nat.{mod-eq_of_lt}
use lute.Prelude.{
  ℕ, zero, suc, ◌+◌, ◌-◌, ◌*◌, ◌/◌, ◌%◌, ◌<◌, ◌≡◌, refl, ap, ◌∙◌, List, [], ◌∷◌, ◌++◌, reverse,
  arith, ltb, lt→ltb, le→ltb-false, if◌then◌else◌, length, length-append,
}

pub data ByteOrder : Type 0 where
  little big : ByteOrder

-- 2 ^ (8 * k), the number of values of a word of `k` bytes.
unfoldable pub word_limit : ℕ → ℕ
word_limit zero = 1
word_limit (suc k) = 256 * word_limit k

-- The lowest byte first.
unfoldable pub to_le : ℕ → ℕ → List ℕ
to_le zero x = []
to_le (suc k) x = (x % 256) ∷ to_le k (x / 256)

unfoldable pub from_le : List ℕ → ℕ
from_le [] = 0
from_le (b ∷ bs) = b + 256 * from_le bs

-- The bytes of an object of `k` bytes in memory, and the value that such bytes stand for.
unfoldable pub object_bytes : ByteOrder → ℕ → ℕ → List ℕ
unfolding to_le
object_bytes little k x = to_le k x
object_bytes big k x = reverse (to_le k x)

unfoldable pub object_value : ByteOrder → List ℕ → ℕ
unfolding from_le
object_value little bs = from_le bs
object_value big bs = from_le (reverse bs)

byte_swap : ℕ → ℕ → ℕ
unfolding to_le from_le
byte_swap k x = from_le (reverse (to_le k x))

-- `hostToNetwork16/32/64`, which is `htobe16/32/64`; a byte needs none, and gets the identity.
unfoldable pub host_to_network : ByteOrder → ℕ → ℕ → ℕ
unfolding byte_swap
host_to_network little k x = byte_swap k x
host_to_network big k x = x

-- `networkToHost16/32/64`, which is `be16toh` and so on.
unfoldable pub network_to_host : ByteOrder → ℕ → ℕ → ℕ
unfolding byte_swap
network_to_host little k x = byte_swap k x
network_to_host big k x = x

-- `negsuc n` is -(n + 1).
pub data ℤ : Type 0 where
  pos : ℕ → ℤ
  negsuc : ℕ → ℤ

-- `static_cast` from an `intN_t` to the `uintN_t` of `k` bytes, and back.
unfoldable pub to_unsigned : ℕ → ℤ → ℕ
unfolding word_limit
to_unsigned k (pos n) = n % word_limit k
to_unsigned k (negsuc n) = word_limit k - 1 - n % word_limit k

unfoldable pub to_signed : ℕ → ℕ → ℤ
unfolding word_limit
to_signed k u = if ltb u (word_limit k / 2) then pos u else negsuc (word_limit k - 1 - u)

-- The values that `k` bytes hold in two's complement.
abbrev pub InRange : ℕ → ℤ → Type 0
InRange k (pos n) = n < word_limit k / 2
InRange k (negsuc n) = n < word_limit k / 2

-- The highest byte first: what network order means.
abbrev pub network_bytes : ℕ → ℕ → List ℕ
network_bytes k x = reverse (to_le k x)

abbrev AllBytes : List ℕ → Type 0
AllBytes [] = Unit {0}
AllBytes (b ∷ bs) = (b < 256) × AllBytes bs

AllBytes-append : (xs ys : List ℕ) → AllBytes xs → AllBytes ys → AllBytes (xs ++ ys)
AllBytes-append [] ys h g = g
AllBytes-append (x ∷ xs) ys h g = (h.0, AllBytes-append xs ys h.1 g)

AllBytes-reverse : (xs : List ℕ) → AllBytes xs → AllBytes (reverse xs)
AllBytes-reverse [] h = tt
AllBytes-reverse (x ∷ xs) h =
    rw (reverse-cons x xs)
      (AllBytes-append (reverse xs) (x ∷ []) (AllBytes-reverse xs h.1) (h.0, tt))

length-reverse : (xs : List ℕ) → length (reverse xs) ≡ length xs
length-reverse [] = refl
length-reverse (x ∷ xs) =
    omega
      (arith, ap length (reverse-cons x xs), length-append (reverse xs) (x ∷ []), length-reverse xs)

length-to_le : (k x : ℕ) → length (to_le k x) ≡ k
unfolding to_le
length-to_le zero x = refl
length-to_le (suc k) x = ap suc (length-to_le k (x / 256))

to_le-AllBytes : (k x : ℕ) → AllBytes (to_le k x)
unfolding to_le
to_le-AllBytes zero x = tt
to_le-AllBytes (suc k) x = (omega arith, to_le-AllBytes k (x / 256))

from_le-to_le : (k x : ℕ) → x < word_limit k → from_le (to_le k x) ≡ x
unfolding to_le from_le word_limit
from_le-to_le zero x h = omega arith
from_le-to_le (suc k) x h = omega (arith, from_le-to_le k (x / 256) (omega arith))

to_le-from_le : (k : ℕ) (bs : List ℕ) → length bs ≡ k → AllBytes bs → to_le k (from_le bs) ≡ bs
unfolding to_le from_le
to_le-from_le zero [] e h = refl
to_le-from_le zero (b ∷ bs) e h = absurd (omega arith)
to_le-from_le (suc k) [] e h = absurd (omega arith)
to_le-from_le (suc k) (b ∷ bs) e h =
    rw
      (
        (let low : (b + 256 * from_le bs) % 256 ≡ b = omega (arith, h.0) in low),
        (let high : (b + 256 * from_le bs) / 256 ≡ from_le bs = omega (arith, h.0) in high),
      )
      (ap (◌∷◌ b) (to_le-from_le k bs (omega arith) h.1))

pub length-network_bytes : (k x : ℕ) → length (network_bytes k x) ≡ k
length-network_bytes k x = length-reverse (to_le k x) ∙ length-to_le k x

-- Whatever the host's byte order, the converted object lies in memory in network order.
pub object_bytes-host_to_network :
    (o : ByteOrder) (k x : ℕ) → object_bytes o k (host_to_network o k x) ≡ network_bytes k x
unfolding object_bytes host_to_network
object_bytes-host_to_network little k x =
    to_le-from_le k (reverse (to_le k x)) (length-network_bytes k x)
      (AllBytes-reverse (to_le k x) (to_le-AllBytes k x))
object_bytes-host_to_network big k x = refl

pub network_to_host-object_value :
    (o : ByteOrder) (k x : ℕ)
    → x < word_limit k
    → network_to_host o k (object_value o (network_bytes k x)) ≡ x
unfolding object_value network_to_host
network_to_host-object_value little k x h =
    rw
      (
        to_le-from_le k (reverse (to_le k x)) (length-network_bytes k x)
            (AllBytes-reverse (to_le k x) (to_le-AllBytes k x)),
        reverse-reverse (to_le k x),
      )
      (from_le-to_le k x h)
network_to_host-object_value big k x h = rw (reverse-reverse (to_le k x)) (from_le-to_le k x h)

word_limit-pos : (k : ℕ) → 0 < word_limit k
unfolding word_limit
word_limit-pos zero = omega arith
word_limit-pos (suc k) = omega (arith, word_limit-pos k)

pub to_unsigned-lt : (k : ℕ) (z : ℤ) → to_unsigned k z < word_limit k
unfolding to_unsigned
to_unsigned-lt k (pos n) = grind (arith, word_limit-pos k)
to_unsigned-lt k (negsuc n) = omega (arith, word_limit-pos k)

-- Two's complement loses nothing in range.
pub to_signed-to_unsigned :
    (k : ℕ) (z : ℤ) → InRange (suc k) z → to_signed (suc k) (to_unsigned (suc k) z) ≡ z
unfolding to_unsigned to_signed
to_signed-to_unsigned k (pos n) h =
    rw (mod-eq_of_lt (let g : n < word_limit (suc k) = omega arith in g)) (rw (lt→ltb _ _ h))
to_signed-to_unsigned k (negsuc n) h =
    rw
      (
        mod-eq_of_lt (let g : n < word_limit (suc k) = omega arith in g),
        le→ltb-false (word_limit (suc k) - 1 - n) (word_limit (suc k) / 2) (omega arith),
      )
      (ap negsuc (omega arith))
