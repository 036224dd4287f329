-- ===== src/Http/Server/Outcome.antt =====
-- What `HttpServer::onMessage` of app/http/src/HttpServer.cc does, in all cases.
use lute.Buffer.Search.{NoCrlf}
use lute.Http.Bytes.{codes}
use lute.Http.Context.Rounds.{Ready, Verdict, complete, waiting, refused, Settled}
use lute.Http.Context.Total.{parse_request-Settled}
use lute.Http.Response.Render.{message, append_to_buffer-Holds}
use lute.Buffer.Contents.{IsValid, init-Holds, init-storage, Holds}
use lute.Http.Server.{respond, on_message, wants_close, on_request, Action, send, shutdown}
use lute.Prelude.{
  List, ℕ, length, ◌<◌, Bool, ◌≡◌, some, true, ◌^◌, Returns, [], ◌∷◌, ◌≢◌, ◌∙◌, none, ap, refl,
  Returns-some, false, ◌++◌, arith, if◌then◌else◌,
}
use lute.Http.Request.{HttpRequest}
use lute.Buffer.{Buffer, contents}
use lute.Buffer
use lute.Http.Context.{
  HttpContext, Parsed, parsed, out_of_fuel, parse_request, ParseState, reset, is_got_all,
}
use lute.Http.Context
use lute.Http.Response.{HttpResponse}
use lute.Http.Response

reset_lem : (c : HttpContext) → reset c ≡ Context.init
unfolding reset
reset_lem c = refl

not_got_all : (s : ParseState) → s ≢ ParseState.got_all → is_got_all s ≡ false
not_got_all ParseState.got_all h = absurd (h refl)
not_got_all _ h = refl

module _ (http_callback : HttpRequest → HttpResponse → HttpResponse) where
  abbrev response_to : HttpRequest → HttpResponse
  response_to req = http_callback req (Response.init (wants_close req))

  -- The responses of the application can be held in memory.
  abbrev pub AreSmall : Type 0
  AreSmall =
      (req : HttpRequest)
      → (length (response_to req).body < 10000000000000)
        × (length (message (response_to req)) < 2 ^ 63)

  abbrev pub answer : HttpRequest → List Action
  answer req =
      let response = response_to req in
      send (message response) ∷ (if response.close_connection then shutdown ∷ [] else [])

  on_request_lem : AreSmall → (req : HttpRequest) → on_request http_callback req ≡ some (answer req)
  unfolding on_request
  on_request_lem small req =
      let response = response_to req in
      let (empty, start) = init-Holds Buffer.initial_size in
      let fresh = init-storage Buffer.initial_size in
      let (out, e, holds) =
        Returns-some (Holds (contents (Buffer.init Buffer.initial_size) ++ message response)) _ (
          append_to_buffer-Holds response (Buffer.init Buffer.initial_size) empty
            (omega (arith, (small req).1, fresh)) (small req).0) in
      rw (e, holds.1, start, on_request)

  abbrev refusal : List Action
  refusal = send (codes "HTTP/1.1 400 Bad Request\r\n\r\n") ∷ shutdown ∷ []

  -- What the connection has been told, and what is kept for the next bytes.
  pub data Reaction (receive_time : ℕ) (c : HttpContext) (b : Buffer) (actions : List Action)
      (c' : HttpContext) (b' : Buffer) : Type 0 where
    answers :
        (complete : HttpContext)
        → parse_request receive_time c b ≡ some (parsed true complete b')
        → actions ≡ answer complete.request
        → c' ≡ Context.init
        → contents b' ≡ []
        → Reaction receive_time c b actions c' b'
    waits : actions ≡ [] → Ready c' → NoCrlf (contents b') → Reaction receive_time c b actions c' b'
    refuses :
        actions ≡ refusal
        → c'.state ≡ ParseState.expect_request_line
        → Reaction receive_time c b actions c' b'

  respond-Reaction :
      (receive_time : ℕ) (c c' : HttpContext) (b b' : Buffer) (ok : Bool)
      → AreSmall
      → parse_request receive_time c b ≡ some (parsed ok c' b')
      → IsValid b'
      → Verdict ok c' b'
      → Returns
          (respond http_callback ok c' b')
          (λ r. IsValid r.2 × Reaction receive_time c b r.0 r.1 r.2)
  unfolding respond
  respond-Reaction t c c' b b' ok small e v (complete h s n) =
      rw (h, ap is_got_all s, on_request_lem small c'.request)
        (v, answers c' (e ∙ ap (λ k. some (parsed k c' b')) h) refl (reset_lem c') n)
  respond-Reaction t c c' b b' ok small e v (waiting h r s n) =
      rw (h, not_got_all c'.state r.0) (v, waits refl r n)
  respond-Reaction t c c' b b' ok small e v (refused h s) =
      rw (h, ap is_got_all s) (v, refuses refl s)

  -- For a valid buffer and a context that may be parsed, and a callback whose responses can be held
  -- in memory, each delivery of bytes has one of three outcomes: the answer of the application to
  -- the request that is now complete, and a fresh context; nothing, and a context that the next
  -- bytes find ready; or the 400 message and a shutdown.
  pub on_message-Reaction :
      (receive_time : ℕ) (c : HttpContext) (b : Buffer)
      → AreSmall
      → IsValid b
      → Ready c
      → Returns
          (on_message http_callback receive_time c b)
          (λ r. IsValid r.2 × Reaction receive_time c b r.0 r.1 r.2)
  unfolding on_message
  on_message-Reaction t c b small v ready =
      let (p, e, settled) =
        Returns-some Settled (parse_request t c b) (parse_request-Settled t c b v ready) in
      rw e (go p e settled)
    where
      go :
          (p : Parsed)
          → parse_request t c b ≡ some p
          → Settled p
          → Returns
              (elim p [ out_of_fuel ↦ none | parsed ok c' b' ↦ respond http_callback ok c' b' ])
              (λ r. IsValid r.2 × Reaction t c b r.0 r.1 r.2)
      go out_of_fuel e s = absurd s
      go (parsed ok c' b') e s = respond-Reaction t c c' b b' ok small e s.0 s.1
