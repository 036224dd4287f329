-- ===== src/Http/Context/Refused.antt =====
-- A refused request line in app/http/src/HttpContext.cc: what the next call does with it.
use lute.Http.Context.Rounds.{Ready}
use lute.Http.Context.Lines.{line_before_lem}
use lute.Buffer.Search.{index_of, FirstLine, find_crlf-line}
use lute.Buffer.Contents.{IsValid}
use lute.Prelude.{ℕ, ◌≡◌, some, false, none, true, Option-cases, refl, ap, inl, inr, sym, ◌∙◌}
use lute.Http.Request.{HttpRequest, set_method, is_invalid, Method}
use lute.Http.Bytes.{Bytes}
use lute.Buffer.{Buffer, contents}
use lute.Http.Context.{
  HttpContext, parsed, parse_request, parse_round, request_line_round, process_request_line,
  ParseState,
}

first_round :
    (receive_time : ℕ) (c : HttpContext) (b : Buffer)
    → c.state ≡ ParseState.expect_request_line
    → parse_round c.state receive_time true c b ≡ request_line_round receive_time true c b
unfolding parse_round
first_round t c b e = ap (λ s. parse_round s t true c b) e

-- A line that `processRequestLine` refuses stays in the buffer.
refused_once :
    (receive_time : ℕ) (c : HttpContext) (b : Buffer) (line rest : Bytes) (r : HttpRequest)
    → IsValid b
    → c.state ≡ ParseState.expect_request_line
    → process_request_line line c.request ≡ some (false, r)
    → FirstLine (contents b) line rest
    → parse_request receive_time c b ≡ some (parsed false (record c { request = r }) b)
unfolding parse_request
refused_once t c b line rest r v e refuse f = rw (first_round t c b e) (
    rw (find_crlf-line b line rest v f, request_line_round)
      (rw (line_before_lem b line rest v f, refuse) refl))

-- With a method already there, the line aborts on the `assert` of `setMethod`.
aborts :
    (receive_time : ℕ) (c : HttpContext) (b : Buffer) (line rest : Bytes) (space : ℕ)
    → IsValid b
    → c.state ≡ ParseState.expect_request_line
    → is_invalid c.request.method ≡ false
    → index_of b' ' line ≡ some space
    → FirstLine (contents b) line rest
    → parse_request receive_time c b ≡ none
unfolding parse_request
aborts t c b line rest space v e known has_space f = rw (first_round t c b e) (
    rw (find_crlf-line b line rest v f, request_line_round)
      (rw (line_before_lem b line rest v f)
        (rw (has_space, process_request_line) (rw (known, set_method) refl))))

named_line-space :
    (line : Bytes) (req r : HttpRequest)
    → req.method ≡ Method.invalid
    → process_request_line line req ≡ some (false, r)
    → is_invalid r.method ≡ false
    → (space : ℕ) × (index_of b' ' line ≡ some space)
unfolding process_request_line
named_line-space line req r fresh refuse known = elim (Option-cases (index_of b' ' line)) [
  | inl missing ↦
      let same : some (false, req) ≡ some (false, r) =
        rw (missing, process_request_line) at refuse in
      let equal : req ≡ r = cc in
      let none_named : is_invalid r.method ≡ true =
        ap (λ (q : HttpRequest). is_invalid q.method) (sym equal) ∙ ap is_invalid fresh in
      cc
  | inr found ↦ found
]

-- A request line with a known method that is refused for what follows it, such as its version,
-- leaves its method in the context and itself in the buffer: the next bytes that arrive on the
-- connection abort a build that has its asserts.
pub parse_request_refused_twice :
    (receive_time later : ℕ) (c : HttpContext) (b b' : Buffer) (line rest rest' : Bytes)
    (r : HttpRequest)
    → IsValid b
    → IsValid b'
    → Ready c
    → c.state ≡ ParseState.expect_request_line
    → process_request_line line c.request ≡ some (false, r)
    → is_invalid r.method ≡ false
    → FirstLine (contents b) line rest
    → FirstLine (contents b') line rest'
    → (parse_request receive_time c b ≡ some (parsed false (record c { request = r }) b))
      × (parse_request later (record c { request = r }) b' ≡ none)
parse_request_refused_twice t t' c b b' line rest rest' r v v' ready e refuse known f f' =
    let (space, found) = named_line-space line c.request r (ready.1 e) refuse known in
    (
      refused_once t c b line rest r v e refuse f,
      aborts t' (record c { request = r }) b' line rest' space v' e known found f',
    )
