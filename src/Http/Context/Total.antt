-- ===== src/Http/Context/Total.antt =====
-- `parseRequest` of app/http/src/HttpContext.cc comes to an end, how it leaves its context, and that
-- the layout of the buffer does not matter to it.
use lute.Http.Context.Rounds.{Settled, Ready, Goes, next_of, Progress, parse_round-Progress}
use lute.Http.Context.Plain.{advance, Reads, goes, more, last}
use lute.Buffer.Contents.{IsValid}
use lute.Buffer.{Buffer, readable_bytes, contents}
use lute.Http.Bytes.{Bytes}
use lute.Http.Context.{
  parse_request, parse_loop, HttpContext, Parsed, parsed, ParseState, Round, out_of_fuel,
  parse_round,
}
use lute.Prelude.{
  zero, suc, true, false, ℕ, Bool, ◌≡◌, Option, ◌<◌, some, Returns, true, Returns_map, arith, suc,
  Returns->>=, refl,
}

abbrev pub Agrees : ℕ → HttpContext → Bytes → Parsed → Type 0
Agrees t c bytes out_of_fuel = ⊥
Agrees t c bytes (parsed ok c' b') =
    Reads t (record { ok = ok; context = c'; rest = contents b' }) c bytes

abbrev Ends : ℕ → HttpContext → Bytes → Parsed → Type 0
Ends t c bytes p = Settled p × Agrees t c bytes p

Ends-more :
    (t : ℕ) (c : HttpContext) (bytes : Bytes) (c' : HttpContext) (rest : Bytes) (p : Parsed)
    → advance t c bytes ≡ some (goes c' rest)
    → Ends t c' rest p
    → Ends t c bytes p
Ends-more t c bytes c' rest out_of_fuel e h = absurd h.0
Ends-more t c bytes c' rest (parsed ok c'' b) e h = (h.0, more c bytes c' rest e h.1)

go_on :
    (t : ℕ) (c : HttpContext) (bytes : Bytes) (again : Bool → HttpContext → Buffer → Option Parsed)
    (has_more : Bool) (round : Round) {n : ℕ}
    → Goes has_more n round
    → advance t c bytes ≡ some (next_of has_more round)
    → (round.ok ≡ true
        → readable_bytes round.buffer < n
        → IsValid round.buffer
        → Ready round.context
        → Returns
            (again round.ok round.context round.buffer)
            (Ends t round.context (contents round.buffer)))
    → Returns
        (elim has_more [
          | true ↦ again round.ok round.context round.buffer
          | false ↦ some (parsed round.ok round.context round.buffer)
        ])
        (Ends t c bytes)
go_on t c bytes again true round p e k =
    Returns_map (Ends t round.context (contents round.buffer)) _ _
      (λ q ends. Ends-more t c bytes round.context (contents round.buffer) q e ends)
      (k p.1 p.3 p.2 p.0)
go_on t c bytes again false round p e k = (p, last c bytes e)

parse_loop-Ends :
    (fuel receive_time : ℕ) (c : HttpContext) (b : Buffer)
    → readable_bytes b < fuel
    → IsValid b
    → Ready c
    → Returns (parse_loop fuel receive_time true c b) (Ends receive_time c (contents b))
unfolding parse_loop
parse_loop-Ends zero t c b h v ready = absurd (omega arith)
parse_loop-Ends (suc fuel) t c b h v ready =
    Returns->>= (Progress (advance t c (contents b)) (readable_bytes b)) _ _ _
      (parse_round-Progress c.state t c b refl v ready)
      (λ round p.
        go_on t c (contents b) (parse_loop fuel t) round.has_more round p.0 p.1
          (λ ok-true less v' ready'.
            rw ok-true (parse_loop-Ends fuel t round.context round.buffer (omega arith) v' ready')))

-- With a valid buffer, a request not yet complete and none refused, `parseRequest` ends, no
-- `assert` fails, and it leaves either a complete request and no bytes, or a refused request line,
-- or bytes with no CRLF among them and a context with which it may be called again.
pub parse_request-Settled :
    (receive_time : ℕ) (c : HttpContext) (b : Buffer)
    → IsValid b
    → Ready c
    → Returns (parse_request receive_time c b) Settled
unfolding parse_request
parse_request-Settled receive_time c b v ready =
    Returns_map (Ends receive_time c (contents b)) _ _ (λ p ends. ends.0)
      (parse_loop-Ends (suc (readable_bytes b)) receive_time c b (omega arith) v ready)

-- With a valid buffer, a request not yet complete and none refused, `parseRequest` answers, leaves
-- the context and leaves the bytes as the parser on plain bytes does on the bytes in the buffer:
-- where they stand in the storage, and what else it holds, does not matter.
pub parse_request-Agrees :
    (receive_time : ℕ) (c : HttpContext) (b : Buffer)
    → IsValid b
    → Ready c
    → Returns (parse_request receive_time c b) (Agrees receive_time c (contents b))
unfolding parse_request
parse_request-Agrees receive_time c b v ready =
    Returns_map (Ends receive_time c (contents b)) _ _ (λ p ends. ends.1)
      (parse_loop-Ends (suc (readable_bytes b)) receive_time c b (omega arith) v ready)

-- A complete request that is not reset is never parsed past: the loop makes no progress.
pub parse_loop-got_all :
    (fuel receive_time : ℕ) (ok : Bool) (c : HttpContext) (b : Buffer)
    → c.state ≡ ParseState.got_all
    → parse_loop fuel receive_time ok c b ≡ some out_of_fuel
unfolding parse_loop
parse_loop-got_all zero t ok c b e = refl
parse_loop-got_all (suc fuel) t ok c b e =
    rw (e, parse_round)
      (parse_loop-got_all fuel t ok (record c { state = ParseState.got_all }) b refl)
