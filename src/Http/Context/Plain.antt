-- ===== src/Http/Context/Plain.antt =====
-- The parser of app/http/src/HttpContext.cc on plain bytes, with no buffer and no loop: what one
-- line does to the context, and what is left when no line can be taken.
use lute.Prelude.{
  ℕ, ◌+◌, ◌≡◌, refl, ap, sym, ◌∙◌, Bool, true, false, inl, inr, [], ◌∷◌, ◌++◌, Option, none, some,
  Option-cases, take, drop, take-append, drop-append, ◌>>=◌, length, arith, length-append, subst,
}
use mathlib.Core.Option
use mathlib.Core.List.{append_assoc}
use lute.Buffer.Search.{crlf_offset, crlf_offset-line, crlf_offset-some, NoCrlf, FirstLine, cr, lf}
use lute.Http.Bytes.{Bytes}
use lute.Http.Request.{HttpRequest}
use lute.Http.Context.{ParseState, HttpContext, process_request_line, read_header, set_body}

-- The bytes before the first CRLF and those after it.
pub first_line : Bytes → Option (Bytes × Bytes)
unfolding crlf_offset
first_line bytes = Option.map (λ n. (take n bytes, drop (n + 2) bytes)) (crlf_offset bytes)

pub data Next : Type 0 where
  goes : HttpContext → Bytes → Next
  stops : Bool → HttpContext → Bytes → Next

abbrev pub accepted : ℕ → HttpRequest → HttpContext
accepted receive_time r = record {
  state = ParseState.expect_headers;
  request = record r { receive_time = receive_time };
}

abbrev pub after_request_line : ℕ → HttpContext → Bytes → Bytes → Bool × HttpRequest → Next
after_request_line t c bytes rest (true, r) = goes (accepted t r) rest
after_request_line t c bytes rest (false, r) = stops false (record c { request = r }) bytes

unfoldable pub request_line_next : ℕ → HttpContext → Bytes → Option (Bytes × Bytes) → Option Next
unfolding process_request_line
request_line_next t c bytes none = some (stops true c bytes)
request_line_next t c bytes (some (line, rest)) = do
  verdict ← process_request_line line c.request
  some (after_request_line t c bytes rest verdict)

unfoldable pub headers_next : HttpContext → Bytes → Option (Bytes × Bytes) → Next
unfolding read_header
headers_next c bytes none = stops true c bytes
headers_next c bytes (some (line, rest)) = goes (read_header line c) rest

-- A complete request is outside what the parser promises.
unfoldable pub advance_in : ParseState → ℕ → HttpContext → Bytes → Option Next
unfolding first_line request_line_next headers_next set_body
advance_in ParseState.expect_request_line t c bytes = request_line_next t c bytes (first_line bytes)
advance_in ParseState.expect_headers t c bytes = some (headers_next c bytes (first_line bytes))
advance_in ParseState.expect_body t c bytes =
    some (stops true (record { state = ParseState.got_all; request = set_body bytes c.request }) [])
advance_in ParseState.got_all t c bytes = none

abbrev pub advance : ℕ → HttpContext → Bytes → Option Next
advance t c bytes = advance_in c.state t c bytes

-- What a caller sees of a call: its answer, the context, and the bytes it leaves unread.
pub record Outcome : Type 0 where
  pub ok : Bool
  pub context : HttpContext
  pub rest : Bytes

-- Line after line, until one stops the parser.
pub data Reads (t : ℕ) (o : Outcome) : HttpContext → Bytes → Type 0 where
  last :
      (c : HttpContext) (bytes : Bytes)
      → advance t c bytes ≡ some (stops o.ok o.context o.rest)
      → Reads t o c bytes
  more :
      (c : HttpContext) (bytes : Bytes) (c' : HttpContext) (rest : Bytes)
      → advance t c bytes ≡ some (goes c' rest)
      → Reads t o c' rest
      → Reads t o c bytes

first_line_split :
    (line rest : Bytes)
    → NoCrlf (line ++ cr ∷ [])
    → first_line (line ++ cr ∷ lf ∷ rest) ≡ some (line, rest)
unfolding first_line
first_line_split line rest n =
    rw (crlf_offset-line line rest n)
      (rw (take-append (length line) line (cr ∷ lf ∷ rest) refl, after) refl)
  where
    after : drop (length line + 2) (line ++ cr ∷ lf ∷ rest) ≡ rest
    after =
        ap (drop (length line + 2)) (sym (append_assoc line (cr ∷ lf ∷ []) rest))
        ∙ drop-append _ (line ++ cr ∷ lf ∷ []) rest
            (omega (arith, length-append line (cr ∷ lf ∷ [])))

pub first_line-FirstLine :
    (bytes line rest : Bytes) → FirstLine bytes line rest → first_line bytes ≡ some (line, rest)
first_line-FirstLine bytes line rest f = ap first_line f.splits ∙ first_line_split line rest f.first

pub first_line-NoCrlf : (bytes : Bytes) → NoCrlf bytes → first_line bytes ≡ none
unfolding first_line
first_line-NoCrlf bytes n = elim (Option-cases (crlf_offset bytes)) [
  | inl missing ↦ rw missing refl
  | inr (i, found) ↦
      let (line, rest, at, f) = crlf_offset-some bytes i found in absurd (n line rest f.splits)
]

some_pair : {p q : Bytes × Bytes} → some p ≡ some q → p ≡ q
some_pair e = cc

-- What `first_line` can find.
pub FirstLine-first_line :
    (bytes line rest : Bytes) → first_line bytes ≡ some (line, rest) → FirstLine bytes line rest
unfolding first_line
FirstLine-first_line bytes line rest e = elim (Option-cases (crlf_offset bytes)) [
  | inl missing ↦ absurd (cc (rw missing at e))
  | inr (i, found) ↦
      let (line', rest', at, f) = crlf_offset-some bytes i found in
      let same : some (line', rest') ≡ some (line, rest) =
        sym (first_line-FirstLine bytes line' rest' f) ∙ e in
      subst (λ (p : Bytes × Bytes). FirstLine bytes p.0 p.1) (some_pair same) f
]
