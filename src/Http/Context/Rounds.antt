-- ===== src/Http/Context/Rounds.antt =====
-- One round of the loop of `parseRequest`, app/http/src/HttpContext.cc: it gets through, and what it
-- does with the bytes.
use lute.Http.Context.Plain.{
  after_request_line, Next, advance_in, headers_next, request_line_next, goes, stops,
  first_line-NoCrlf, first_line-FirstLine,
}
use lute.Prelude.{
  none, ℕ, ◌+◌, ◌<◌, ◌≡◌, ◌≢◌, refl, Bool, true, false, inl, inr, List, [], Option, some, arith,
  length, Option-cases, Returns, Returns->>=, ◌>>=◌,
}
use lute.Buffer.{Buffer, readable_bytes, contents}
use lute.Buffer.Contents.{IsValid, Holds, retrieve_all_as_string_lem}
use lute.Buffer.Search.{index_of, NoCrlf, FirstLine, find_crlf, find_crlf-Answers}
use lute.Http.Request.{Method, HttpRequest, set_method}
use lute.Http.Context.{
  ParseState, HttpContext, Round, Parsed, out_of_fuel, parsed, line_before, accept_line,
  read_header, request_line_round, headers_round, body_round, process_request_line, parse_round,
}
use lute.Http.Context.Lines.{retrieve_line, fewer, line_before_lem}

-- `parseRequest` may be called: a request is not complete, and none has been refused.
abbrev pub Ready : HttpContext → Type 0
Ready c =
    (c.state ≢ ParseState.got_all)
    × (c.state ≡ ParseState.expect_request_line → c.request.method ≡ Method.invalid)

-- How the parser can leave its context and the buffer.
pub data Verdict (ok : Bool) (c : HttpContext) (b : Buffer) : Type 0 where
  complete : ok ≡ true → c.state ≡ ParseState.got_all → contents b ≡ [] → Verdict ok c b
  waiting :
      ok ≡ true → Ready c → c.state ≢ ParseState.expect_body → NoCrlf (contents b) → Verdict ok c b
  refused : ok ≡ false → c.state ≡ ParseState.expect_request_line → Verdict ok c b

abbrev pub Settled : Parsed → Type 0
Settled out_of_fuel = ⊥
Settled (parsed ok c b) = IsValid b × Verdict ok c b

-- A round either goes on with fewer bytes in the buffer, or the loop is settled.
abbrev pub Goes : Bool → ℕ → Round → Type 0
Goes true n r = Ready r.context × (r.ok ≡ true) × IsValid r.buffer × (readable_bytes r.buffer < n)
Goes false n r = Settled (parsed r.ok r.context r.buffer)

abbrev pub next_of : Bool → Round → Next
next_of true r = goes r.context (contents r.buffer)
next_of false r = stops r.ok r.context (contents r.buffer)

-- A round does what the parser on plain bytes does with the bytes in the buffer.
abbrev pub Progress : Option Next → ℕ → Round → Type 0
Progress next n r = Goes r.has_more n r × (next ≡ some (next_of r.has_more r))

read_header-Ready :
    (line : List ℕ) (c : HttpContext)
    → c.state ≡ ParseState.expect_headers
    → Ready (read_header line c)
unfolding read_header
read_header-Ready line c e = elim (Option-cases (index_of b':' line)) [
  | inl missing ↦ rw (missing, read_header) ((λ h. cc), (λ h. cc))
  | inr (colon, found) ↦ rw (found, read_header) ((λ h. cc), (λ h. cc))
]

-- The `assert` on the method is the only way for the request line to abort.
process_request_line-some :
    (line : List ℕ) (r : HttpRequest)
    → r.method ≡ Method.invalid
    → Returns (process_request_line line r) (λ _. Unit {0})
unfolding process_request_line set_method
process_request_line-some line r e = elim (Option-cases (index_of b' ' line)) [
  | inl missing ↦ rw (missing, process_request_line) tt
  | inr (space, found) ↦ rw (found, process_request_line, e) tt
]

module _ (receive_time : ℕ) (c : HttpContext) (b : Buffer) (v : IsValid b) (ready : Ready c) where
  settles : c.state ≢ ParseState.expect_body → NoCrlf (contents b) → Settled (parsed true c b)
  settles before n = (v, waiting refl ready before n)

  headers_round-Progress :
      c.state ≡ ParseState.expect_headers
      → Returns (headers_round true c b) (
          Progress
            (advance_in ParseState.expect_headers receive_time c (contents b))
            (readable_bytes b))
  unfolding headers_round advance_in headers_next
  headers_round-Progress e = elim (Option-cases (find_crlf b)) [
    | inl missing ↦
        let n : NoCrlf (contents b) = rw missing at (find_crlf-Answers b v) in
        rw (missing, headers_round)
          (settles (λ s. cc) n, rw (first_line-NoCrlf (contents b) n, headers_next) refl)
    | inr (crlf, found) ↦
        let (line, rest, at, f) = rw found at (find_crlf-Answers b v) in
        rw (found, headers_round, at)
          (Returns->>= (Holds rest) _ _ _ (retrieve_line b line rest v f) (λ b' h. (
            (
              read_header-Ready (line_before (b.reader_index + length line) b) c e,
              refl,
              h.0,
              omega (arith, fewer b line rest v f b' h),
            ),
            rw
                (
                  first_line-FirstLine (contents b) line rest f,
                  headers_next,
                  line_before_lem b line rest v f,
                  h.1,
                )
                refl,
          )))
  ]

  body_round-Progress :
      c.state ≡ ParseState.expect_body
      → Returns (body_round true c b) (
          Progress
            (advance_in ParseState.expect_body receive_time c (contents b))
            (readable_bytes b))
  unfolding body_round advance_in
  body_round-Progress e =
      Returns->>= (λ (r : List ℕ × Buffer). (r.0 ≡ contents b) × Holds [] r.1) _ _ _
        (retrieve_all_as_string_lem b v)
        (λ r h. ((h.1.0, complete refl refl h.1.1), rw (h.0, h.1.1) refl))

  accept_line-Progress :
      (ok : Bool) (r : HttpRequest) (line rest : List ℕ)
      → c.state ≡ ParseState.expect_request_line
      → FirstLine (contents b) line rest
      → Returns (accept_line ok receive_time (b.reader_index + length line) r c b) (
          Progress
            (some (after_request_line receive_time c (contents b) rest (ok, r)))
            (readable_bytes b))
  unfolding accept_line
  accept_line-Progress false r line rest e f = ((v, refused refl e), refl)
  accept_line-Progress true r line rest e f =
      Returns->>= (Holds rest) _ _ _ (retrieve_line b line rest v f) (λ b' h. (
        (((λ s. cc), (λ s. cc)), refl, h.0, omega (arith, fewer b line rest v f b' h)),
        rw h.1 refl,
      ))

  verdict-Progress :
      (m : Option (Bool × HttpRequest)) (line rest : List ℕ)
      → Returns m (λ _. Unit {0})
      → c.state ≡ ParseState.expect_request_line
      → FirstLine (contents b) line rest
      → Returns
          (m >>= λ (ok, r). accept_line ok receive_time (b.reader_index + length line) r c b)
          (Progress
            (m >>= λ verdict. some (after_request_line receive_time c (contents b) rest verdict))
            (readable_bytes b))
  unfolding accept_line
  verdict-Progress none line rest h e f = absurd h
  verdict-Progress (some p) line rest h e f = accept_line-Progress p.0 p.1 line rest e f

  request_line_round-Progress :
      c.state ≡ ParseState.expect_request_line
      → Returns (request_line_round receive_time true c b) (
          Progress
            (advance_in ParseState.expect_request_line receive_time c (contents b))
            (readable_bytes b))
  unfolding request_line_round advance_in request_line_next
  request_line_round-Progress e = elim (Option-cases (find_crlf b)) [
    | inl missing ↦
        let n : NoCrlf (contents b) = rw missing at (find_crlf-Answers b v) in
        rw (missing, request_line_round)
          (settles (λ s. cc) n, rw (first_line-NoCrlf (contents b) n, request_line_next) refl)
    | inr (crlf, found) ↦
        let (line, rest, at, f) = rw found at (find_crlf-Answers b v) in
        rw (found, request_line_round, at) rw
          (first_line-FirstLine (contents b) line rest f, request_line_next)
          (rw (line_before_lem b line rest v f) (
            verdict-Progress (process_request_line line c.request) line rest
              (process_request_line-some line c.request (ready.1 e)) e f))
  ]

pub parse_round-Progress :
    (s : ParseState) (receive_time : ℕ) (c : HttpContext) (b : Buffer)
    → c.state ≡ s
    → IsValid b
    → Ready c
    → Returns
        (parse_round s receive_time true c b)
        (Progress (advance_in s receive_time c (contents b)) (readable_bytes b))
unfolding parse_round
parse_round-Progress ParseState.expect_request_line t c b e v ready =
    request_line_round-Progress t c b v ready e
parse_round-Progress ParseState.expect_headers t c b e v ready =
    headers_round-Progress t c b v ready e
parse_round-Progress ParseState.expect_body t c b e v ready = body_round-Progress t c b v ready e
parse_round-Progress ParseState.got_all t c b e v ready = absurd (ready.0 e)
