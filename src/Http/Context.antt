-- ===== src/Http/Context.antt =====
-- app/http/src/HttpContext.cc and app/http/include/http/HttpContext.h: the request parser.
pub mod Lines
pub mod Rounds
pub mod Total
pub mod Chunks
pub mod Plain
pub mod Refused
use lute.Prelude.{
  ℕ, zero, suc, ◌+◌, ◌-◌, Bool, true, false, ◌&&◌, [], ◌∷◌, Option, none, some, ◌==◌, if◌then◌else◌,
  length, get_elem?, take, drop, slice, ◌>>=◌,
}
use lute.Buffer.{Buffer, readable_bytes, retrieve_until, retrieve_all_as_string}
use lute.Buffer.Search.{index_of, find_crlf}
use lute.Http.Bytes.{Bytes, codes, equal}
use lute.Http.Request.{HttpRequest, Version, set_method, add_header}
use lute.Http.Request

pub data ParseState : Type 0 where
  expect_request_line expect_headers expect_body got_all : ParseState

pub record HttpContext : Type 0 where
  pub state : ParseState
  pub request : HttpRequest

abbrev pub init : HttpContext
init = record { state = ParseState.expect_request_line; request = Request.init }

-- `reset` swaps in a new request.
unfoldable pub reset : HttpContext → HttpContext
reset c = record { state = ParseState.expect_request_line; request = Request.init }

abbrev pub is_got_all : ParseState → Bool
is_got_all ParseState.got_all = true
is_got_all ParseState.expect_request_line = false
is_got_all ParseState.expect_headers = false
is_got_all ParseState.expect_body = false

-- The third word of the request line.
process_version : Bytes → HttpRequest → Bool × HttpRequest
unfolding equal
process_version word r =
    if length word == 8 && equal (take 7 word) (codes "HTTP/1.")
    then elim (get_elem? word 7) [
      | none ↦ (false, r)
      | some c ↦
          if c == b'1'
          then (true, record r { version = Version.http11 })
          else if c == b'0'
          then (true, record r { version = Version.http10 })
          else (false, r)
    ]
    else (false, r)

-- `setPath` and `setQuery`: the query keeps its question mark.
set_target : Bytes → HttpRequest → HttpRequest
unfolding index_of
set_target target r = elim (index_of b'?' target) [
  | some question ↦ record r { path = take question target; query = drop question target }
  | none ↦ record r { path = target }
]

-- What follows the method.
process_target : Bytes → HttpRequest → Bool × HttpRequest
unfolding index_of process_version set_target
process_target rest r = elim (index_of b' ' rest) [
  | none ↦ (false, r)
  | some space ↦ process_version (drop (space + 1) rest) (set_target (take space rest) r)
]

-- `processRequestLine`, on the bytes from `begin` to `end`.
unfoldable pub process_request_line : Bytes → HttpRequest → Option (Bool × HttpRequest)
unfolding index_of set_method process_target
process_request_line line r = elim (index_of b' ' line) [
  | none ↦ some (false, r)
  | some space ↦ do
    (known, named) ← set_method (take space line) r
    some (if known then process_target (drop (space + 1) line) named else (false, named))
]

-- The variables of the loop after one round.
pub record Round : Type 0 where
  pub ok : Bool
  pub has_more : Bool
  pub context : HttpContext
  pub buffer : Buffer

-- From `peek()` to `crlf`.
abbrev pub line_before : ℕ → Buffer → Bytes
line_before crlf b = slice b.reader_index (crlf - b.reader_index) b.buffer

-- After `processRequestLine` returned `ok`.
accept_line : Bool → ℕ → ℕ → HttpRequest → HttpContext → Buffer → Option Round
unfolding retrieve_until
accept_line false receive_time crlf r c b =
    some (record { ok = false; has_more = false; context = record c { request = r }; buffer = b })
accept_line true receive_time crlf r c b = do
  b' ← retrieve_until (crlf + 2) b
  some (record {
    ok = true;
    has_more = true;
    context = record {
      state = ParseState.expect_headers;
      request = record r { receive_time = receive_time };
    };
    buffer = b';
  })

request_line_round : ℕ → Bool → HttpContext → Buffer → Option Round
unfolding find_crlf process_request_line accept_line
request_line_round receive_time ok c b = elim (find_crlf b) [
  | none ↦ some (record { ok = ok; has_more = false; context = c; buffer = b })
  | some crlf ↦ do
    (ok', r) ← process_request_line (line_before crlf b) c.request
    accept_line ok' receive_time crlf r c b
]

-- A line with no colon ends the headers.
read_header : Bytes → HttpContext → HttpContext
unfolding index_of add_header
read_header line c = elim (index_of b':' line) [
  | some colon ↦ record c { request = add_header line colon c.request }
  | none ↦ record c { state = ParseState.expect_body }
]

headers_round : Bool → HttpContext → Buffer → Option Round
unfolding find_crlf read_header retrieve_until
headers_round ok c b = elim (find_crlf b) [
  | none ↦ some (record { ok = ok; has_more = false; context = c; buffer = b })
  | some crlf ↦ do
    let c' = read_header (line_before crlf b) c
    b' ← retrieve_until (crlf + 2) b
    some (record { ok = ok; has_more = true; context = c'; buffer = b' })
]

-- `if (!body.empty()) request_.setBody(body);`
set_body : Bytes → HttpRequest → HttpRequest
set_body [] r = r
set_body (c ∷ cs) r = record r { body = c ∷ cs }

body_round : Bool → HttpContext → Buffer → Option Round
unfolding retrieve_all_as_string set_body
body_round ok c b = do
  (body, b') ← retrieve_all_as_string b
  some (record {
    ok = ok;
    has_more = false;
    context = record { state = ParseState.got_all; request = set_body body c.request };
    buffer = b';
  })

-- The body of the `while`. In `got_all` no branch is taken, and `hasMore` stays true.
pub parse_round : ParseState → ℕ → Bool → HttpContext → Buffer → Option Round
unfolding request_line_round headers_round body_round
parse_round ParseState.expect_request_line receive_time ok c b =
    request_line_round receive_time ok c b
parse_round ParseState.expect_headers receive_time ok c b = headers_round ok c b
parse_round ParseState.expect_body receive_time ok c b = body_round ok c b
parse_round ParseState.got_all receive_time ok c b =
    some (record { ok = ok; has_more = true; context = c; buffer = b })

pub data Parsed : Type 0 where
  out_of_fuel : Parsed
  parsed : Bool → HttpContext → Buffer → Parsed

unfoldable pub parse_loop : ℕ → ℕ → Bool → HttpContext → Buffer → Option Parsed
unfolding parse_round
parse_loop zero receive_time ok c b = some out_of_fuel
parse_loop (suc fuel) receive_time ok c b = do
  round ← parse_round c.state receive_time ok c b
  elim round.has_more [
    | true ↦ parse_loop fuel receive_time round.ok round.context round.buffer
    | false ↦ some (parsed round.ok round.context round.buffer)
  ]

-- A round that goes on takes a line out of the buffer, so the bytes it holds bound the rounds.
unfoldable pub parse_request : ℕ → HttpContext → Buffer → Option Parsed
unfolding parse_loop
parse_request receive_time c b = parse_loop (suc (readable_bytes b)) receive_time true c b
