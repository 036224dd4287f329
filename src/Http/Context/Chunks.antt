-- ===== src/Http/Context/Chunks.antt =====
-- app/http/src/HttpContext.cc on a request that arrives in pieces: where the bytes are cut between
-- two calls of `parseRequest` does not matter.
use lute.Http.Context.Total.{Agrees, parse_request-Settled, parse_request-Agrees}
use lute.Http.Context.Rounds.{Ready, Verdict, Settled}
use lute.Buffer.Contents.{IsValid, Holds, append-Holds}
use lute.Buffer.{Buffer, append, contents}
use lute.Http.Request.{HttpRequest}
use mathlib.Core.List.{append_assoc}
use lute.Buffer.Search.{FirstLine, cr, lf}
use lute.Http.Context.Plain.{
  first_line, Outcome, advance_in, Reads, first_line-FirstLine, request_line_next, last,
  FirstLine-first_line, headers_next, more, after_request_line, goes, stops,
}
use lute.Http.Context.{
  HttpContext, ParseState, process_request_line, read_header, Parsed, parsed, parse_request,
}
use lute.Http.Bytes.{Bytes}
use lute.Buffer.Contents.{Fits}
use lute.Http.Context.{out_of_fuel}
use lute.Http.Context.Rounds.{complete, waiting, refused}
use lute.Prelude.{
  none, some, true, false, inl, inr, ◌≢◌, ◌++◌, ◌>>=◌, ℕ, ◌≡◌, ap, Option, ◌∙◌, Bool, subst,
  Option-cases, ◌∷◌, sym, length, Returns, Returns_at, Returns->>=, Returns-some,
}

-- A line that ends before the cut is the same line with more bytes behind it.
FirstLine-append :
    (bytes line rest extra : Bytes)
    → FirstLine bytes line rest
    → FirstLine (bytes ++ extra) line (rest ++ extra)
FirstLine-append bytes line rest extra f = record {
  splits = ap (λ xs. xs ++ extra) f.splits ∙ append_assoc line (cr ∷ lf ∷ rest) extra;
  first = f.first;
}

first_line-append :
    (bytes line rest extra : Bytes)
    → first_line bytes ≡ some (line, rest)
    → first_line (bytes ++ extra) ≡ some (line, rest ++ extra)
first_line-append bytes line rest extra e =
    first_line-FirstLine (bytes ++ extra) line (rest ++ extra)
      (FirstLine-append bytes line rest extra (FirstLine-first_line bytes line rest e))

module _ (t : ℕ) (c : HttpContext) (bytes extra : Bytes) (c' : HttpContext) (rest : Bytes) where
  after_request_line-append :
      (m : Option (Bool × HttpRequest)) (left : Bytes)
      → (m >>= λ v. some (after_request_line t c bytes left v)) ≡ some (goes c' rest)
      → (m >>= λ v. some (after_request_line t c (bytes ++ extra) (left ++ extra) v))
        ≡ some (goes c' (rest ++ extra))
  after_request_line-append none left e = cc
  after_request_line-append (some (true, r)) left e = cc
  after_request_line-append (some (false, r)) left e = cc

  advance-append :
      (s : ParseState)
      → advance_in s t c bytes ≡ some (goes c' rest)
      → advance_in s t c (bytes ++ extra) ≡ some (goes c' (rest ++ extra))
  unfolding advance_in request_line_next headers_next
  advance-append ParseState.expect_request_line e = elim (Option-cases (first_line bytes)) [
    | inl missing ↦ absurd (cc (rw (missing, request_line_next) at e))
    | inr ((line, left), found) ↦
        rw (first_line-append bytes line left extra found, request_line_next)
          (after_request_line-append (process_request_line line c.request) left
            (rw (found, request_line_next) at e))
  ]
  advance-append ParseState.expect_headers e = elim (Option-cases (first_line bytes)) [
    | inl missing ↦ absurd (cc (rw (missing, headers_next) at e))
    | inr ((line, left), found) ↦
        let e' : some (goes (read_header line c) left) ≡ some (goes c' rest) =
          rw (found, headers_next) at e in
        rw (first_line-append bytes line left extra found, headers_next) (cc)
  ]
  advance-append ParseState.expect_body e = cc
  advance-append ParseState.got_all e = cc

-- A parser that waits has changed nothing in its last round.
module _ (t : ℕ) (c : HttpContext) (bytes : Bytes) (c' : HttpContext) (rest : Bytes) where
  after_request_line-waits :
      (m : Option (Bool × HttpRequest)) (left : Bytes)
      → (m >>= λ v. some (after_request_line t c bytes left v)) ≢ some (stops true c' rest)
  after_request_line-waits none left e = cc
  after_request_line-waits (some (true, r)) left e = cc
  after_request_line-waits (some (false, r)) left e = cc

  advance-waits :
      (s : ParseState)
      → c'.state ≢ ParseState.got_all
      → advance_in s t c bytes ≡ some (stops true c' rest)
      → (c' ≡ c) × (rest ≡ bytes)
  unfolding advance_in request_line_next headers_next
  advance-waits ParseState.expect_request_line n e = elim (Option-cases (first_line bytes)) [
    | inl missing ↦
        let e' : some (stops true c bytes) ≡ some (stops true c' rest) =
          rw (missing, request_line_next) at e in
        ((cc), (cc))
    | inr ((line, left), found) ↦ absurd (
        after_request_line-waits (process_request_line line c.request) left
          (rw (found, request_line_next) at e))
  ]
  advance-waits ParseState.expect_headers n e = elim (Option-cases (first_line bytes)) [
    | inl missing ↦
        let e' : some (stops true c bytes) ≡ some (stops true c' rest) =
          rw (missing, headers_next) at e in
        ((cc), (cc))
    | inr ((line, left), found) ↦ absurd (cc (rw (found, headers_next) at e))
  ]
  advance-waits ParseState.expect_body n e = absurd (n (cc))
  advance-waits ParseState.got_all n e = cc

-- Reading on, with more bytes, from where a first part left off.
Reads-append :
    (t : ℕ) (c' : HttpContext) (rest extra : Bytes) (o : Outcome) (c : HttpContext) (bytes : Bytes)
    → c'.state ≢ ParseState.got_all
    → Reads t (record { ok = true; context = c'; rest = rest }) c bytes
    → Reads t o c' (rest ++ extra)
    → Reads t o c (bytes ++ extra)
Reads-append t c' rest extra o c bytes n (last _ _ e) later =
    let (same, left) = advance-waits t c bytes c' rest c.state n e in
    subst (λ (p : HttpContext × Bytes). Reads t o p.0 (p.1 ++ extra)) (pair same left) later
  where
    pair : c' ≡ c → rest ≡ bytes → ◌≡◌ {A = HttpContext × Bytes} (c', rest) (c, bytes)
    pair same left = cc
Reads-append t c' rest extra o c bytes n (more _ _ c₁ rest₁ e r) later =
    more c (bytes ++ extra) c₁ (rest₁ ++ extra) (advance-append t c bytes extra c₁ rest₁ c.state e)
      (Reads-append t c' rest extra o c₁ rest₁ n r later)

-- Bytes in a context have one outcome.
Reads-unique :
    (t : ℕ) (o o' : Outcome) (c : HttpContext) (bytes : Bytes)
    → Reads t o c bytes
    → Reads t o' c bytes
    → o ≡ o'
Reads-unique t o o' c bytes (last _ _ e) (last _ _ e') = cc
Reads-unique t o o' c bytes (last _ _ e) (more _ _ c₁ rest e' r) = cc
Reads-unique t o o' c bytes (more _ _ c₁ rest e r) (last _ _ e') = cc
Reads-unique t o o' c bytes (more _ _ c₁ rest e r) (more _ _ c₂ rest' e' r') =
    Reads-unique t o o' c₁ rest r
      (subst (λ (p : HttpContext × Bytes). Reads t o' p.0 p.1) (pair (sym e' ∙ e)) r')
  where
    pair :
        some (goes c₂ rest') ≡ some (goes c₁ rest)
        → ◌≡◌ {A = HttpContext × Bytes} (c₂, rest') (c₁, rest)
    pair e = cc

abbrev pub outcome : Parsed → Option Outcome
outcome out_of_fuel = none
outcome (parsed ok c b) = some (record { ok = ok; context = c; rest = contents b })

-- More bytes arrive, and the parser is called.
abbrev pub arrive : ℕ → Bytes → HttpContext → Buffer → Option Outcome
arrive t bytes c b = do b' ← append bytes b; p ← parse_request t c b'; outcome p

arrive-Reads :
    (t : ℕ) (bytes : Bytes) (c : HttpContext) (b : Buffer)
    → IsValid b
    → Fits (length bytes) b
    → Ready c
    → Returns (arrive t bytes c b) (λ o. Reads t o c (contents b ++ bytes))
arrive-Reads t bytes c b v f ready =
    Returns->>= (Holds (contents b ++ bytes)) _ _ _ (append-Holds bytes b v f) (λ b' h.
      Returns->>= (Agrees t c (contents b')) _ _ _ (parse_request-Agrees t c b' h.0 ready)
        (λ p agrees. go p (subst (λ xs. Agrees t c xs p) h.1 agrees)))
  where
    go :
        (p : Parsed)
        → Agrees t c (contents b ++ bytes) p
        → Returns (outcome p) (λ o. Reads t o c (contents b ++ bytes))
    go out_of_fuel a = absurd a
    go (parsed ok c' b') a = a

-- Where a first call of `parseRequest` leaves a request that is not complete and not refused, the
-- bytes that arrive next, if both buffers can hold them, have with the second call the same
-- outcome as if they had been there before the first: the same answer, context and unread bytes.
-- Both calls are given the same receive time.
pub arrive_in_chunks :
    (t : ℕ) (bytes : Bytes) (c c' : HttpContext) (b b' : Buffer)
    → IsValid b
    → Ready c
    → parse_request t c b ≡ some (parsed true c' b')
    → c'.state ≢ ParseState.got_all
    → Fits (length bytes) b
    → Fits (length bytes) b'
    → (o : Outcome) × (arrive t bytes c' b' ≡ some o) × (arrive t bytes c b ≡ some o)
arrive_in_chunks t bytes c c' b b' v ready e n f f' =
    let (v', verdict) =
      Returns_at Settled (parse_request t c b) _ e (parse_request-Settled t c b v ready) in
    let first =
      Returns_at (Agrees t c (contents b)) (parse_request t c b) _ e
        (parse_request-Agrees t c b v ready) in
    let (o, at, r) =
      Returns-some _ (arrive t bytes c' b') (arrive-Reads t bytes c' b' v' f' (waits verdict)) in
    let (o', at', r') = Returns-some _ (arrive t bytes c b) (arrive-Reads t bytes c b v f ready) in
    (
      o,
      at,
      at'
          ∙ ap some (
              Reads-unique t o' o c (contents b ++ bytes) r'
                (Reads-append t c' (contents b') bytes o c (contents b) n first r)),
    )
  where
    waits : Verdict true c' b' → Ready c'
    waits (complete ok done empty) = absurd (n done)
    waits (waiting ok again before none_left) = again
    waits (refused ok at) = cc
