-- ===== src/Buffer/RoundTrip.antt =====
-- What one side appends, the other side reads: the integers of polaris/include/polaris/Buffer.h.
use mathlib.Core.List.{append-nil}
use lute.Prelude.{
  ℕ, suc, ◌≡◌, refl, sym, ap, ◌∙◌, List, [], ◌++◌, length, drop, drop-append, length-append, ◌>>=◌,
  Returns, Returns->>=, arith,
}
use lute.Buffer.{Buffer, readable_bytes, contents, retrieve}
use lute.Buffer.Words.{
  ByteOrder, ℤ, InRange, to_unsigned, network_bytes, to_unsigned-lt, to_signed-to_unsigned,
}
use lute.Buffer.Integers.{append_int, append_uint-Holds, peek_uint_lem, retrieve-rest, read_int}
use lute.Buffer.Contents.{IsValid, Fits, Holds, length-contents, retrieve-Holds}

read_int_lem :
    (order : ByteOrder) (k : ℕ) (z : ℤ) (rest : List ℕ) (b : Buffer)
    → IsValid b
    → InRange (suc k) z
    → contents b ≡ network_bytes (suc k) (to_unsigned (suc k) z) ++ rest
    → Returns (read_int order (suc k) b) (λ r. (r.0 ≡ z) × Holds rest r.1)
unfolding read_int
read_int_lem order k z rest b v range front =
    let word = to_unsigned (suc k) z in
    let small = to_unsigned-lt (suc k) z in
    rw (peek_uint_lem order (suc k) word rest b v small front, to_signed-to_unsigned k z range)
      (Returns->>= (Holds rest) _ (retrieve (suc k) b) _
        (retrieve-rest order (suc k) word rest b v small front) (λ b' h. (refl, h)))

-- Taking out as many bytes as were there leaves the later ones.
drain_earlier :
    (later : List ℕ) (b filled : Buffer)
    → IsValid b
    → Holds (contents b ++ later) filled
    → Returns (retrieve (readable_bytes b) filled) (Holds later)
drain_earlier later b filled v h =
    let long = length-contents b v in
    rw
      (← (
        ap (drop (readable_bytes b)) h.1
        ∙ drop-append (readable_bytes b) (contents b) later (sym long)))
      (retrieve-Holds (readable_bytes b) filled h.0 (
        omega (
          arith,
          long,
          length-contents filled h.0,
          ap length h.1,
          length-append (contents b) later,
        )))

-- An integer of any width that its type can hold, put behind the bytes of a valid buffer that it
-- fits, is read back, on a host of any byte order, after those bytes have been taken out; nothing
-- is left behind it.
pub read_int-append_int :
    (writer reader : ByteOrder) (k : ℕ) (z : ℤ) (b : Buffer)
    → IsValid b
    → Fits (suc k) b
    → InRange (suc k) z
    → Returns
        (do
          filled ← append_int writer (suc k) z b
          drained ← retrieve (readable_bytes b) filled
          read_int reader (suc k) drained)
        (λ r. (r.0 ≡ z) × Holds [] r.1)
unfolding append_int
read_int-append_int writer reader k z b v f range =
    let word = to_unsigned (suc k) z in
    Returns->>= (Holds (contents b ++ network_bytes (suc k) word)) _ _ _
      (append_uint-Holds writer (suc k) word b v f)
      (λ filled h.
        Returns->>= (Holds (network_bytes (suc k) word)) _ (retrieve (readable_bytes b) filled) _
          (drain_earlier (network_bytes (suc k) word) b filled v h)
          (λ drained g. read_int_lem reader k z [] drained g.0 range (g.1 ∙ sym (append-nil _))))
