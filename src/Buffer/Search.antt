-- ===== src/Buffer/Search.antt =====
-- The searches of polaris/include/polaris/Buffer.h. A pointer is an index of the storage, and
-- `none` is the null pointer; `memmem` and `memchr` are written out.
use mathlib.Core.Option
use lute.Prelude.{
  ℕ, suc, ◌+◌, ◌-◌, ◌≤◌, ◌≡◌, ◌≢◌, refl, ap, sym, subst, ◌∙◌, Bool, true, false, ◌&&◌, inl, inr,
  List, [], ◌∷◌, ◌++◌, Option, none, some, arith, leb, ◌==◌, if◌then◌else◌, Bool-cases,
  Option-cases, length, length-append, slice, assert, ◌>>=◌, ◌>>◌,
}
use lute.Buffer.{Buffer, contents}
use lute.Buffer.Contents.{IsValid, length-contents}

abbrev pub cr : ℕ
cr = 13

abbrev pub lf : ℕ
lf = 10

unfoldable pub starts_crlf : List ℕ → Bool
starts_crlf (x ∷ y ∷ rest) = x == cr && y == lf
starts_crlf (x ∷ []) = false
starts_crlf [] = false

-- `memmem` for kCRLF: the offset of its first occurrence.
unfoldable pub crlf_offset : List ℕ → Option ℕ
unfolding starts_crlf
crlf_offset [] = none
crlf_offset (x ∷ xs) = if starts_crlf (x ∷ xs) then some 0 else Option.map suc (crlf_offset xs)

-- `memchr` and `std::find`: the offset of the first `c`.
unfoldable pub index_of : ℕ → List ℕ → Option ℕ
index_of c [] = none
index_of c (x ∷ xs) = if x == c then some 0 else Option.map suc (index_of c xs)

-- `crlf == beginWrite() ? nullptr : crlf`
unfoldable pub find_crlf : Buffer → Option ℕ
unfolding crlf_offset
find_crlf b = do
  offset ← crlf_offset (contents b)
  if b.reader_index + offset == b.writer_index then none else some (b.reader_index + offset)

-- The overload from `start` on; the outer `none` is its failed `assert`.
unfoldable pub find_crlf_from : ℕ → Buffer → Option (Option ℕ)
unfolding crlf_offset
find_crlf_from start b = do
  assert (leb b.reader_index start)
  assert (leb start b.writer_index)
  some (do
    offset ← crlf_offset (slice start (b.writer_index - start) b.buffer)
    if start + offset == b.writer_index then none else some (start + offset))

unfoldable pub find_eol : Buffer → Option ℕ
unfolding index_of
find_eol b = Option.map (λ offset. b.reader_index + offset) (index_of lf (contents b))

unfoldable pub find_eol_from : ℕ → Buffer → Option (Option ℕ)
unfolding index_of
find_eol_from start b = do
  assert (leb b.reader_index start)
  assert (leb start b.writer_index)
  some (
      Option.map (λ offset. start + offset)
        (index_of lf (slice start (b.writer_index - start) b.buffer)))

-- No CRLF stands anywhere in the bytes.
abbrev pub NoCrlf : List ℕ → Type 0
NoCrlf xs = (before after : List ℕ) → xs ≢ before ++ cr ∷ lf ∷ after

-- The first line of the bytes, up to its CRLF, and what follows.
pub record FirstLine (bytes line rest : List ℕ) : Type 0 where
  pub splits : bytes ≡ line ++ cr ∷ lf ∷ rest
  pub first : NoCrlf (line ++ cr ∷ [])

starts_crlf-some : (xs : List ℕ) → starts_crlf xs ≡ true → (rest : List ℕ) × (xs ≡ cr ∷ lf ∷ rest)
unfolding starts_crlf
starts_crlf-some [] h = cc
starts_crlf-some (x ∷ []) h = cc
starts_crlf-some (x ∷ y ∷ rest) h = (rest, ground arith)

starts_crlf-false : (xs rest : List ℕ) → starts_crlf xs ≡ false → xs ≢ cr ∷ lf ∷ rest
unfolding starts_crlf
starts_crlf-false [] rest h e = cc
starts_crlf-false (x ∷ []) rest h e = cc
starts_crlf-false (x ∷ y ∷ xs) rest h e = ground arith

NoCrlf-cons : (x : ℕ) (xs : List ℕ) → starts_crlf (x ∷ xs) ≡ false → NoCrlf xs → NoCrlf (x ∷ xs)
NoCrlf-cons x xs h n [] after e = starts_crlf-false (x ∷ xs) after h e
NoCrlf-cons x xs h n (b ∷ before) after e = n before after (cc)

NoCrlf-nil : NoCrlf []
NoCrlf-nil [] after e = cc
NoCrlf-nil (b ∷ before) after e = cc

pub crlf_offset-none : (xs : List ℕ) → crlf_offset xs ≡ none → NoCrlf xs
unfolding crlf_offset
crlf_offset-none [] h = NoCrlf-nil
crlf_offset-none (x ∷ xs) h = elim (Bool-cases (starts_crlf (x ∷ xs))) [
  | inl starts ↦ absurd (cc (rw starts at h))
  | inr later ↦ NoCrlf-cons x xs later (crlf_offset-none xs (map_none _ (rw later at h)))
]
  where
    map_none : (o : Option ℕ) → Option.map suc o ≡ none → o ≡ none
    map_none none e = refl
    map_none (some n) e = cc

NoCrlf-cr : NoCrlf (cr ∷ [])
NoCrlf-cr [] after e = cc
NoCrlf-cr (b ∷ []) after e = cc
NoCrlf-cr (b ∷ c ∷ before) after e = cc

-- The first two bytes decide, and they are the same with the rest of the line cut off.
starts_crlf-cut :
    (x : ℕ) (line rest : List ℕ)
    → starts_crlf (x ∷ (line ++ cr ∷ lf ∷ rest)) ≡ false
    → starts_crlf (x ∷ (line ++ cr ∷ [])) ≡ false
unfolding starts_crlf
starts_crlf-cut x [] rest h = h
starts_crlf-cut x (y ∷ line) rest h = h

some_eq : {i j : ℕ} → some i ≡ some j → i ≡ j
some_eq e = cc

abbrev pub FoundAt : List ℕ → ℕ → Type 0
FoundAt xs i = (line : List ℕ) × (rest : List ℕ) × (i ≡ length line) × FirstLine xs line rest

FoundAt-cons :
    (x i : ℕ) (xs : List ℕ) → starts_crlf (x ∷ xs) ≡ false → FoundAt xs i → FoundAt (x ∷ xs) (suc i)
FoundAt-cons x i xs h (line, rest, e, f) = (
  x ∷ line,
  rest,
  ap suc e,
  record {
    splits = ap (◌∷◌ x) f.splits;
    first =
        NoCrlf-cons x (line ++ cr ∷ []) (starts_crlf-cut x line rest (rw f.splits at h)) f.first;
  },
)

pub crlf_offset-some : (xs : List ℕ) (i : ℕ) → crlf_offset xs ≡ some i → FoundAt xs i
unfolding crlf_offset
crlf_offset-some [] i h = cc
crlf_offset-some (x ∷ xs) i h = elim (Bool-cases (starts_crlf (x ∷ xs))) [
  | inl starts ↦
      let (rest, e) = starts_crlf-some (x ∷ xs) starts in
      (
        [],
        rest,
        (let same : some 0 ≡ some i = rw starts at h in sym (some_eq same)),
        record { splits = e; first = NoCrlf-cr },
      )
  | inr later ↦ go (crlf_offset xs) (λ j e. crlf_offset-some xs j e) later (rw later at h)
]
  where
    go :
        (o : Option ℕ)
        → ((j : ℕ) → o ≡ some j → FoundAt xs j)
        → starts_crlf (x ∷ xs) ≡ false
        → Option.map suc o ≡ some i
        → FoundAt (x ∷ xs) i
    go none ih later e = cc
    go (some j) ih later e =
        subst (FoundAt (x ∷ xs)) (some_eq e) (FoundAt-cons x j xs later (ih j refl))

-- What `findCRLF` has to answer: the place of the first CRLF, or that there is none.
abbrev pub Answers : Buffer → Option ℕ → Type 0
Answers b none = NoCrlf (contents b)
Answers b (some p) =
    (line : List ℕ) × (rest : List ℕ) × (p ≡ b.reader_index + length line)
    × FirstLine (contents b) line rest

length-FirstLine :
    (line rest : List ℕ) {xs : List ℕ} → FirstLine xs line rest → length line + 2 ≤ length xs
length-FirstLine line rest f =
    omega (arith, ap length f.splits, length-append line (cr ∷ lf ∷ rest))

-- `findCRLF` finds the first CRLF of the readable bytes of a valid buffer, and is null exactly when
-- there is none.
pub find_crlf-Answers : (b : Buffer) → IsValid b → Answers b (find_crlf b)
unfolding find_crlf
find_crlf-Answers b v = elim (Option-cases (crlf_offset (contents b))) [
  | inl e ↦ rw (e, find_crlf) (crlf_offset-none (contents b) e)
  | inr (i, e) ↦
      let (line, rest, at, f) = crlf_offset-some (contents b) i e in
      let inside = length-FirstLine line rest f in
      let short : (b.reader_index + i == b.writer_index) ≡ false =
        ground (arith, length-contents b v, inside) in
      rw (e, find_crlf, short) (line, rest, ap (λ n. b.reader_index + n) at, f)
]

starts_crlf_inside :
    (x : ℕ) (line rest : List ℕ)
    → NoCrlf (x ∷ (line ++ cr ∷ []))
    → starts_crlf (x ∷ (line ++ cr ∷ lf ∷ rest)) ≡ false
unfolding starts_crlf
starts_crlf_inside x [] rest n = ground arith
starts_crlf_inside x (y ∷ line) rest n = elim (Bool-cases (x == cr && y == lf)) [
  | inl both ↦ absurd (n [] (line ++ cr ∷ []) (ground arith))
  | inr e ↦ e
]

pub crlf_offset-line :
    (line rest : List ℕ)
    → NoCrlf (line ++ cr ∷ [])
    → crlf_offset (line ++ cr ∷ lf ∷ rest) ≡ some (length line)
unfolding crlf_offset
crlf_offset-line [] rest n = refl
crlf_offset-line (x ∷ line) rest n = rw (
  starts_crlf_inside x line rest n,
  crlf_offset-line line rest (λ before after e. n (x ∷ before) after (ap (◌∷◌ x) e)),
)

pub find_crlf-line :
    (b : Buffer) (line rest : List ℕ)
    → IsValid b
    → FirstLine (contents b) line rest
    → find_crlf b ≡ some (b.reader_index + length line)
unfolding find_crlf
find_crlf-line b line rest v f =
    let inside = length-FirstLine line rest f in
    let found : crlf_offset (contents b) ≡ some (length line) =
      ap crlf_offset f.splits ∙ crlf_offset-line line rest f.first in
    let short : (b.reader_index + length line == b.writer_index) ≡ false =
      ground (arith, length-contents b v, inside) in
    rw (found, find_crlf, short)
