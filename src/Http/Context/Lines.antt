-- ===== src/Http/Context/Lines.antt =====
-- A line of the buffer, as app/http/src/HttpContext.cc takes it: its bytes, and its removal.
use lute.Prelude.{
  ℕ, ◌+◌, ◌-◌, ◌≤◌, ◌≡◌, refl, sym, ap, ◌∙◌, List, [], ◌∷◌, ◌++◌, arith, length, take, drop,
  length-append, take-append, drop-append, take-take, Returns,
}
use mathlib.Core.List.{append_assoc}
use lute.Buffer.{Buffer, readable_bytes, contents, retrieve_until}
use lute.Buffer.Contents.{IsValid, Holds, length-contents, retrieve_until-Holds}
use lute.Buffer.Search.{FirstLine, cr, lf}
use lute.Http.Context.{line_before}

module _ (b : Buffer) (line rest : List ℕ) (v : IsValid b)
    (f : FirstLine (contents b) line rest) where
  inside : length line + 2 + length rest ≡ readable_bytes b
  inside =
      omega (arith, length-contents b v, ap length f.splits, length-append line (cr ∷ lf ∷ rest))

  pub line_before_lem : line_before (b.reader_index + length line) b ≡ line
  line_before_lem =
      ap (λ n. take n (drop b.reader_index b.buffer))
        (let same : b.reader_index + length line - b.reader_index ≡ length line = omega arith in
          same)
      ∙ sym (take-take (length line) (readable_bytes b) _ (omega (arith, inside)))
      ∙ ap (take (length line)) f.splits
      ∙ take-append (length line) line (cr ∷ lf ∷ rest) refl

  rest_dropped : drop (b.reader_index + length line + 2 - b.reader_index) (contents b) ≡ rest
  rest_dropped =
      ap (drop (b.reader_index + length line + 2 - b.reader_index))
        (f.splits ∙ sym (append_assoc line (cr ∷ lf ∷ []) rest))
      ∙ drop-append _ (line ++ cr ∷ lf ∷ []) rest (omega (arith, length-append line (cr ∷ lf ∷ [])))

  pub retrieve_line : Returns (retrieve_until (b.reader_index + length line + 2) b) (Holds rest)
  retrieve_line = rw (sym rest_dropped) (
      retrieve_until-Holds (b.reader_index + length line + 2) b v (omega arith)
        (omega (arith, inside, v.ordered)))

  pub fewer : (b' : Buffer) → Holds rest b' → readable_bytes b' + 2 ≤ readable_bytes b
  fewer b' h = omega (arith, inside, length-contents b' h.0, ap length h.1)
