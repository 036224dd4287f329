-- ===== src/Http/Server.antt =====
-- app/http/src/HttpServer.cc: what the server does with its connection when bytes arrive. The
-- application's callback is a parameter.
pub mod Outcome
use lute.Http.Bytes.{Bytes, codes, equal}
use lute.Prelude.{
  Option, ℕ, Bool, List, ◌||◌, false, if◌then◌else◌, true, ◌&&◌, some, [], ◌>>=◌, none, ◌∷◌, not,
  ◌++◌,
}
use lute.Buffer.{Buffer, contents}
use lute.Buffer
use lute.Http.Request.{HttpRequest, Version, get_header}
use lute.Http.Response.{HttpResponse, HttpStatusCode, append_to_buffer}
use lute.Http.Response
use lute.Http.Context.{HttpContext, Parsed, out_of_fuel, parsed, parse_request, reset, is_got_all}
use lute.Http.Context

-- The calls of the connection.
pub data Action : Type 0 where
  send : Bytes → Action
  shutdown : Action

-- The callback before `setHttpCallback` is called.
unfoldable pub default_http_callback : HttpRequest → HttpResponse → HttpResponse
default_http_callback req resp = record resp {
  status_code = HttpStatusCode.not_found;
  status_message = codes "Not Found";
  close_connection = true;
}

is_http10 : Version → Bool
is_http10 Version.unknown = false
is_http10 Version.http10 = true
is_http10 Version.http11 = false

-- Whether the client asks for the connection to be closed.
unfoldable pub wants_close : HttpRequest → Bool
unfolding get_header equal is_http10
wants_close req =
    let connection = get_header (codes "Connection") req in
    equal connection (codes "close")
    || (is_http10 req.version && not (equal connection (codes "Keep-Alive")))

-- `onConnection`: the context of a connection that is up.
unfoldable pub on_connection : Bool → Option HttpContext → Option HttpContext
on_connection connected context = if connected then some Context.init else context

module _ (http_callback : HttpRequest → HttpResponse → HttpResponse) where
  unfoldable pub on_request : HttpRequest → Option (List Action)
  on_request req = do
    let response = http_callback req (Response.init (wants_close req))
    buf ← append_to_buffer response (Buffer.init Buffer.initial_size)
    some (send (contents buf) ∷ (if response.close_connection then shutdown ∷ [] else []))

  -- After `parseRequest` returned.
  pub respond : Bool → HttpContext → Buffer → Option (List Action × HttpContext × Buffer)
  respond ok c b =
      let refusal =
        if ok then [] else send (codes "HTTP/1.1 400 Bad Request\r\n\r\n") ∷ shutdown ∷ [] in
      if is_got_all c.state
      then (on_request c.request >>= λ answer. some (refusal ++ answer, reset c, b))
      else some (refusal, c, b)

  -- `none` is an aborted process; a parser that does not come to an end has no result either.
  unfoldable pub on_message : ℕ → HttpContext → Buffer → Option (List Action × HttpContext × Buffer)
  on_message receive_time c b =
      parse_request receive_time c b
      >>= elim [ out_of_fuel ↦ none | parsed ok c' b' ↦ respond ok c' b' ]
