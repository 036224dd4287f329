-- ===== src/Buffer/Contents.antt =====
-- The buffer of polaris/include/polaris/Buffer.h seen as the queue of bytes that it holds.
use lute.Prelude.{
  ℕ, ◌+◌, ◌-◌, ◌^◌, ◌≤◌, ◌<◌, ◌≡◌, refl, ap, sym, ◌∙◌, inl, inr, List, [], ◌++◌, some, arith, ltb,
  if◌then◌else◌, Bool-cases, lt→ltb, ltb→lt, ltb-false→le, le→leb, length, take, drop, replicate,
  copy_at, length-append, length-replicate, take_all, length-copy_at, length-slice,
  slice-slice-drop, drop_all, take-take, slice-copy_at, slice-copy_at_before, slice-append, Returns,
  Returns_map, Returns->>=, assert->>,
}
use lute.Buffer.{
  Buffer, cheap_prepend, add_size, init, readable_bytes, writable_bytes, prependable_bytes,
  contents, resize, retrieve_all, retrieve, retrieve_until, retrieve_as_string,
  retrieve_all_as_string, make_space, ensure_writable_bytes, has_written, unwrite, append, prepend,
  shrink,
}

-- 0 <= readerIndex <= writerIndex <= size, and room for the reserved front.
pub record IsValid (b : Buffer) : Type 0 where
  pub ordered : b.reader_index ≤ b.writer_index
  pub within : b.writer_index ≤ length b.buffer
  pub reserved : cheap_prepend ≤ length b.buffer

-- The storage and `len` further bytes can be measured by `size_t`.
abbrev pub Fits : ℕ → Buffer → Type 0
Fits len b = length b.buffer + len + cheap_prepend < 2 ^ 64

abbrev pub Holds : List ℕ → Buffer → Type 0
Holds bytes b = IsValid b × (contents b ≡ bytes)

add_size_lem : (a b : ℕ) → a + b < 2 ^ 64 → add_size a b ≡ a + b
unfolding add_size
add_size_lem a b h = omega arith

pub length-contents : (b : Buffer) → IsValid b → length (contents b) ≡ readable_bytes b
length-contents b v = length-slice b.reader_index _ b.buffer (omega arith)

-- An emptied buffer: the indices meet at the reserved front.
empty-Holds : (b : Buffer) → cheap_prepend ≤ length b.buffer → Holds [] (retrieve_all b)
unfolding retrieve_all
empty-Holds b h = (record { ordered = omega arith; within = h; reserved = h }, refl)

pub init-Holds : (size : ℕ) → Holds [] (init size)
unfolding init
init-Holds size = (
  record {
    ordered = omega arith;
    within = omega (arith, length-replicate {A = ℕ} (cheap_prepend + size) 0);
    reserved = omega (arith, length-replicate {A = ℕ} (cheap_prepend + size) 0);
  },
  refl,
)

pub init-storage : (size : ℕ) → length (init size).buffer ≡ cheap_prepend + size
unfolding init
init-storage size = length-replicate {A = ℕ} (cheap_prepend + size) 0

resize_grow :
    (n : ℕ) (xs : List ℕ)
    → length xs ≤ n
    → (resize n xs ≡ xs ++ replicate (n - length xs) 0) × (length (resize n xs) ≡ n)
unfolding resize
resize_grow n xs h =
    let e : resize n xs ≡ xs ++ replicate (n - length xs) 0 = rw (take_all n xs h) in
    (
      e,
      omega (
        arith,
        ap length e,
        length-append xs (replicate (n - length xs) 0),
        length-replicate {A = ℕ} (n - length xs) 0,
      ),
    )

-- The two ways of `makeSpace`: more storage, or the bytes moved to the front.
abbrev Spacious : ℕ → Buffer → Buffer → Type 0
Spacious len b b' =
    IsValid b'
    × (contents b' ≡ contents b)
    × (len ≤ writable_bytes b')
    × (length b'.buffer ≤ length b.buffer + len)

grown-Spacious :
    (len n : ℕ) (b : Buffer)
    → IsValid b
    → n ≡ b.writer_index + len
    → writable_bytes b < len
    → Spacious len b (record b { buffer = resize n b.buffer })
grown-Spacious len n b v e h =
    let (grows, long) = resize_grow n b.buffer (omega arith) in
    (
      record { ordered = v.ordered; within = omega arith; reserved = omega arith },
      rw grows (slice-append b.reader_index (readable_bytes b) b.buffer _ (omega arith)),
      omega arith,
      omega arith,
    )

moved-Spacious :
    (len : ℕ) (b : Buffer)
    → IsValid b
    → len + cheap_prepend ≤ writable_bytes b + prependable_bytes b
    → Spacious len b (record b {
      buffer = copy_at cheap_prepend (contents b) b.buffer;
      reader_index = cheap_prepend;
      writer_index = cheap_prepend + readable_bytes b;
    })
moved-Spacious len b v h =
    let room : cheap_prepend + length (contents b) ≤ length b.buffer =
      omega (arith, length-contents b v) in
    let same = length-copy_at cheap_prepend (contents b) b.buffer room in
    (
      record { ordered = omega arith; within = omega arith; reserved = omega arith },
      slice-copy_at cheap_prepend cheap_prepend 0 _ (contents b) b.buffer room refl
          (omega (arith, length-contents b v)),
      omega arith,
      omega arith,
    )

make_space-Spacious :
    (len : ℕ) (b : Buffer)
    → IsValid b
    → Fits len b
    → writable_bytes b < len
    → Returns (make_space len b) (Spacious len b)
unfolding make_space
make_space-Spacious len b v f h =
    elim (Bool-cases
      (ltb (add_size (writable_bytes b) (prependable_bytes b)) (add_size len cheap_prepend))) [
        | inl small ↦ rw small (grown-Spacious len _ b v (omega arith) h)
        | inr roomy ↦
            let fits = ltb-false→le _ _ roomy in
            rw (roomy, lt→ltb cheap_prepend b.reader_index (omega arith))
              (moved-Spacious len b v (omega arith))
      ]

ensure_writable_bytes-Spacious :
    (len : ℕ) (b : Buffer)
    → IsValid b
    → Fits len b
    → Returns (ensure_writable_bytes len b) (Spacious len b)
unfolding ensure_writable_bytes
ensure_writable_bytes-Spacious len b v f =
    Returns->>= (Spacious len b) (Spacious len b)
      (if ltb (writable_bytes b) len then make_space len b else some b) _ spacious
      (λ b' s. assert->> _ _ _ (le→leb _ _ s.2) s)
  where
    spacious :
        Returns (if ltb (writable_bytes b) len then make_space len b else some b) (Spacious len b)
    spacious = elim (Bool-cases (ltb (writable_bytes b) len)) [
      | inl small ↦ rw small (make_space-Spacious len b v f (ltb→lt _ _ small))
      | inr large ↦ rw large (v, refl, ltb-false→le _ _ large, omega arith)
    ]

pub written-Holds :
    (bytes held : List ℕ) (b : Buffer)
    → IsValid b
    → b.writer_index + length bytes ≤ length b.buffer
    → contents b ≡ held
    → Holds (held ++ bytes) (record b {
      buffer = copy_at b.writer_index bytes b.buffer;
      writer_index = b.writer_index + length bytes;
    })
written-Holds bytes held b v room e =
    let same = length-copy_at b.writer_index bytes b.buffer room in
    (
      record {
        ordered = omega (arith, v.ordered);
        within = omega arith;
        reserved = omega (arith, v.reserved);
      },
      slice-copy_at b.reader_index b.writer_index (readable_bytes b) _ bytes b.buffer room
            (omega (arith, v.ordered)) (omega (arith, v.ordered))
          ∙ ap (λ c. c ++ bytes) e,
    )

-- The bytes are put behind those that were there, and the storage grows by no more than their number.
abbrev pub Appends : List ℕ → Buffer → Buffer → Type 0
Appends bytes b b' =
    Holds (contents b ++ bytes) b' × (length b'.buffer ≤ length b.buffer + length bytes)

-- `append` puts its bytes behind those that a valid buffer holds, whatever room there was, if
-- `size_t` can measure the storage with them. The storage grows by no more than their number.
pub append-Appends :
    (bytes : List ℕ) (b : Buffer)
    → IsValid b
    → Fits (length bytes) b
    → Returns (append bytes b) (Appends bytes b)
unfolding append
append-Appends bytes b v f =
    Returns->>= (Spacious (length bytes) b) _ (ensure_writable_bytes (length bytes) b) _
      (ensure_writable_bytes-Spacious (length bytes) b v f)
      (λ b' s.
        let room : b'.writer_index + length bytes ≤ length b'.buffer = omega (arith, s.0, s.2) in
        let same = length-copy_at b'.writer_index bytes b'.buffer room in
        assert->> _ _ _
          (le→leb (length bytes)
            (length (copy_at b'.writer_index bytes b'.buffer) - b'.writer_index) (omega arith))
          (written-Holds bytes (contents b) b' s.0 room s.1, omega (arith, s.3)))

pub append-Holds :
    (bytes : List ℕ) (b : Buffer)
    → IsValid b
    → Fits (length bytes) b
    → Returns (append bytes b) (Holds (contents b ++ bytes))
append-Holds bytes b v f =
    Returns_map (Appends bytes b) _ _ (λ b' a. a.0) (append-Appends bytes b v f)

-- `retrieve` takes as many bytes from the front of a valid buffer as it is told to, if it holds so
-- many, and the rest stays, also where the buffer is emptied and its indices go back.
pub retrieve-Holds :
    (len : ℕ) (b : Buffer)
    → IsValid b
    → len ≤ readable_bytes b
    → Returns (retrieve len b) (Holds (drop len (contents b)))
unfolding retrieve
retrieve-Holds len b v h =
    assert->> _ _ _ (le→leb _ _ h) (elim (Bool-cases (ltb len (readable_bytes b))) [
      | inl some_left ↦
          let less = ltb→lt _ _ some_left in
          rw some_left (
            record { ordered = omega arith; within = v.within; reserved = v.reserved },
            slice-slice-drop b.reader_index (b.reader_index + len) len _ _ b.buffer refl
                (omega arith),
          )
      | inr all ↦
          let whole = ltb-false→le _ _ all in
          rw (all, drop_all len (contents b) (omega (arith, length-contents b v)))
            (empty-Holds b v.reserved)
    ])

-- Bytes that fit before the readable ones of a valid buffer are put in front of them.
pub prepend-Holds :
    (bytes : List ℕ) (b : Buffer)
    → IsValid b
    → length bytes ≤ prependable_bytes b
    → Returns (prepend bytes b) (Holds (bytes ++ contents b))
unfolding prepend
prepend-Holds bytes b v h =
    let room : b.reader_index - length bytes + length bytes ≤ length b.buffer = omega arith in
    let same = length-copy_at (b.reader_index - length bytes) bytes b.buffer room in
    assert->> _ _ _ (le→leb _ _ h) (
      record { ordered = omega arith; within = omega arith; reserved = omega arith },
      slice-copy_at_before (b.reader_index - length bytes) b.reader_index (readable_bytes b) _ bytes
          b.buffer (omega arith) (omega arith) (omega arith),
    )

pub unwrite-Holds :
    (len : ℕ) (b : Buffer)
    → IsValid b
    → len ≤ readable_bytes b
    → Returns (unwrite len b) (Holds (take (readable_bytes b - len) (contents b)))
unfolding unwrite
unwrite-Holds len b v h = assert->> _ _ _ (le→leb _ _ h) (
  record { ordered = omega arith; within = omega arith; reserved = v.reserved },
  rw (let e : b.writer_index - len - b.reader_index ≡ readable_bytes b - len = omega arith in e)
      (sym (take-take (readable_bytes b - len) (readable_bytes b) _ (omega arith))),
)

pub ensure_writable_bytes-Holds :
    (len : ℕ) (b : Buffer)
    → IsValid b
    → Fits len b
    → Returns
        (ensure_writable_bytes len b)
        (λ b'. Holds (contents b) b' × (len ≤ writable_bytes b'))
ensure_writable_bytes-Holds len b v f =
    Returns_map (Spacious len b) _ _ (λ b' s. ((s.0, s.1), s.2))
      (ensure_writable_bytes-Spacious len b v f)

-- A write into the room behind the bytes, as `readv` makes it, and then `hasWritten`.
pub has_written-Holds :
    (bytes : List ℕ) (b : Buffer)
    → IsValid b
    → length bytes ≤ writable_bytes b
    → Returns
        (has_written (length bytes) (record b { buffer = copy_at b.writer_index bytes b.buffer }))
        (Holds (contents b ++ bytes))
unfolding has_written
has_written-Holds bytes b v h =
    let room : b.writer_index + length bytes ≤ length b.buffer = omega arith in
    let same = length-copy_at b.writer_index bytes b.buffer room in
    assert->> _ _ _
      (le→leb (length bytes) (length (copy_at b.writer_index bytes b.buffer) - b.writer_index)
        (omega arith))
      (written-Holds bytes (contents b) b v room refl)

pub retrieve_until-Holds :
    (end : ℕ) (b : Buffer)
    → IsValid b
    → b.reader_index ≤ end
    → end ≤ b.writer_index
    → Returns (retrieve_until end b) (Holds (drop (end - b.reader_index) (contents b)))
unfolding retrieve_until
retrieve_until-Holds end b v lo hi =
    assert->> _ _ _ (le→leb _ _ lo)
      (assert->> _ _ _ (le→leb _ _ hi) (retrieve-Holds (end - b.reader_index) b v (omega arith)))

pub retrieve_as_string_lem :
    (len : ℕ) (b : Buffer)
    → IsValid b
    → len ≤ readable_bytes b
    → Returns
        (retrieve_as_string len b)
        (λ r. (r.0 ≡ take len (contents b)) × Holds (drop len (contents b)) r.1)
unfolding retrieve_as_string
retrieve_as_string_lem len b v h = assert->> _ _ _ (le→leb _ _ h) (
    Returns->>= (Holds (drop len (contents b))) _ (retrieve len b) _ (retrieve-Holds len b v h)
      (λ b' holds. (sym (take-take len (readable_bytes b) _ h), holds)))

-- All the bytes of a valid buffer are returned, and it is left empty.
pub retrieve_all_as_string_lem :
    (b : Buffer)
    → IsValid b
    → Returns (retrieve_all_as_string b) (λ r. (r.0 ≡ contents b) × Holds [] r.1)
unfolding retrieve_all_as_string
retrieve_all_as_string_lem b v =
    let long : length (contents b) ≤ readable_bytes b = omega (arith, length-contents b v) in
    Returns_map _ (λ (r : List ℕ × Buffer). (r.0 ≡ contents b) × Holds [] r.1) _
      (λ r h. (
        h.0 ∙ take_all (readable_bytes b) (contents b) long,
        (h.1.0, h.1.1 ∙ drop_all (readable_bytes b) (contents b) long),
      ))
      (retrieve_as_string_lem (readable_bytes b) b v (omega arith))

-- `shrink` never touches the bytes of a valid buffer, and leaves the room asked for, if `size_t`
-- can measure the storage with both.
pub shrink-Holds :
    (reserve : ℕ) (b : Buffer)
    → IsValid b
    → Fits (readable_bytes b + reserve) b
    → Returns
        (shrink reserve b)
        (λ b'. Holds (contents b) b' × (readable_bytes b + reserve ≤ writable_bytes b'))
unfolding shrink
shrink-Holds reserve b v f =
    rw (add_size_lem (readable_bytes b) reserve (omega arith))
      (ensure_writable_bytes-Holds (readable_bytes b + reserve) b v f)

pub retrieve_all-Holds : (b : Buffer) → IsValid b → Holds [] (retrieve_all b)
retrieve_all-Holds b v = empty-Holds b v.reserved
