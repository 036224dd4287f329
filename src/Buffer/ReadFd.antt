-- ===== src/Buffer/ReadFd.antt =====
-- `Buffer::readFd` of polaris/src/Buffer.cc. The kernel is a parameter: `readv` gives, for the
-- lengths of the iovecs, an error number or the bytes it scattered over them in order.
use mathlib.Core.List.{append-nil, append_assoc}
use lute.Prelude.{
  ℕ, ◌+◌, ◌-◌, ◌≤◌, ◌≡◌, refl, sym, ap, subst, ◌∙◌, List, [], ◌∷◌, ◌++◌, Option, some, arith, ltb,
  leb, if◌then◌else◌, inl, inr, ◌⊎◌, Bool-cases, leb→le, leb-false→lt, length, take, drop, copy_at,
  length-take, length-drop, take-append-drop, take_all, length-copy_at, ◌>>=◌, Returns, Returns->>=,
}
use lute.Buffer.{Buffer, writable_bytes, contents, append}
use lute.Buffer.Contents.{IsValid, Fits, Holds, append-Holds, written-Holds}

pub data ReadOutcome : Type 0 where
  failed : ℕ → ReadOutcome
  received : List ℕ → ReadOutcome

abbrev pub extra_size : ℕ
extra_size = 65536

-- The lengths of the iovecs that are handed over.
unfoldable pub iovecs : Buffer → List ℕ
iovecs b =
    if ltb (writable_bytes b) extra_size
    then writable_bytes b ∷ extra_size ∷ []
    else writable_bytes b ∷ []

-- The storage after the kernel filled it, and the rest of the bytes from `extrabuf`.
store_received : List ℕ → Buffer → Option Buffer
unfolding append
store_received bytes b =
    let writeable = writable_bytes b in
    let filled = record b { buffer = copy_at b.writer_index (take writeable bytes) b.buffer } in
    if leb (length bytes) writeable
    then some (record filled { writer_index = b.writer_index + length bytes })
    else append (drop writeable bytes) (record filled { writer_index = length filled.buffer })

unfoldable pub read_fd : (List ℕ → ReadOutcome) → Buffer → Option (ReadOutcome × Buffer)
unfolding iovecs store_received
read_fd readv b = elim (readv (iovecs b)) [
  | failed errno ↦ some (failed errno, b)
  | received bytes ↦ do b' ← store_received bytes b; some (received bytes, b')
]

abbrev pub sum : List ℕ → ℕ
sum [] = 0
sum (n ∷ ns) = n + sum ns

-- readv(2): no more bytes than the iovecs have room for.
abbrev pub Respects : (List ℕ → ReadOutcome) → List ℕ → Type 0
Respects readv lengths =
    (bytes : List ℕ) → readv lengths ≡ received bytes → length bytes ≤ sum lengths

-- The bytes that a read brought.
abbrev pub bytes_of : ReadOutcome → List ℕ
bytes_of (failed errno) = []
bytes_of (received bytes) = bytes

-- The room is filled up to the end of the storage, and the rest is appended.
spill-Holds :
    (head rest : List ℕ) (b : Buffer)
    → IsValid b
    → b.writer_index + length head ≡ length b.buffer
    → Fits (length rest) b
    → let storage = copy_at b.writer_index head b.buffer in
      Returns
        (append rest (record b { buffer = storage; writer_index = length storage }))
        (Holds ((contents b ++ head) ++ rest))
spill-Holds head rest b v full f =
    let storage = copy_at b.writer_index head b.buffer in
    let filled = record b { buffer = storage; writer_index = b.writer_index + length head } in
    let same = length-copy_at b.writer_index head b.buffer (omega arith) in
    let holds = written-Holds head (contents b) b v (omega arith) refl in
    subst
      (λ n.
        Returns (append rest (record b { buffer = storage; writer_index = n }))
          (Holds ((contents b ++ head) ++ rest)))
      (full ∙ sym same)
      (subst (λ c. Returns (append rest filled) (Holds (c ++ rest))) holds.1
        (append-Holds rest filled holds.0 (omega arith)))

outcome_cases :
    (o : ReadOutcome)
    → ((errno : ℕ) × (o ≡ failed errno)) ⊎ ((bytes : List ℕ) × (o ≡ received bytes))
outcome_cases (failed errno) = inl (errno, refl)
outcome_cases (received bytes) = inr (bytes, refl)

store_received-Holds :
    (bytes : List ℕ) (b : Buffer)
    → IsValid b
    → Fits (length bytes - writable_bytes b) b
    → Returns (store_received bytes b) (Holds (contents b ++ bytes))
unfolding store_received
store_received-Holds bytes b v f = elim (Bool-cases (leb (length bytes) (writable_bytes b))) [
  | inl fits ↦
      let enough = leb→le _ _ fits in
      rw (fits, take_all (writable_bytes b) bytes enough)
        (written-Holds bytes (contents b) b v (omega (arith, v.within)) refl)
  | inr over ↦
      let head = take (writable_bytes b) bytes in
      let full : b.writer_index + length head ≡ length b.buffer =
        omega (arith, v.within, length-take (writable_bytes b) bytes, leb-false→lt _ _ over) in
      let storage = copy_at b.writer_index head b.buffer in
      rw over (
        subst
          (λ c.
            Returns
              (append (drop (writable_bytes b) bytes)
                (record b { buffer = storage; writer_index = length storage }))
              (Holds c))
          (append_assoc (contents b) head _
            ∙ ap (◌++◌ (contents b)) (take-append-drop (writable_bytes b) bytes))
          (spill-Holds head (drop (writable_bytes b) bytes) b v full
            (omega (arith, length-drop (writable_bytes b) bytes))))
]

few_spilt :
    (b : Buffer) (n : ℕ) → Fits extra_size b → n ≤ sum (iovecs b) → Fits (n - writable_bytes b) b
unfolding iovecs
few_spilt b n f h = ground arith

-- A read into a valid buffer keeps what it holds and puts the bytes of the kernel behind it,
-- through the second iovec where the room is too small; after an error the buffer is as before. The
-- kernel gives no more than the iovecs have room for, and `size_t` can measure the storage with
-- 65536 bytes more.
pub read_fd-Holds :
    (readv : List ℕ → ReadOutcome) (b : Buffer)
    → IsValid b
    → Fits extra_size b
    → Respects readv (iovecs b)
    → Returns
        (read_fd readv b)
        (λ r. (r.0 ≡ readv (iovecs b)) × Holds (contents b ++ bytes_of r.0) r.1)
unfolding read_fd
read_fd-Holds readv b v f respects = elim (outcome_cases (readv (iovecs b))) [
  | inl (errno, e) ↦ rw (e, read_fd) (refl, (v, sym (append-nil (contents b))))
  | inr (bytes, e) ↦
      rw (e, read_fd)
        (Returns->>= (Holds (contents b ++ bytes)) _ (store_received bytes b) _
          (store_received-Holds bytes b v
            (let few = respects bytes e in few_spilt b (length bytes) f few))
          (λ b' h. (refl, h)))
]
