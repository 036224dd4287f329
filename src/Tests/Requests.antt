-- ===== src/Tests/Requests.antt =====
-- The theorems on app/http/src/HttpContext.cc, HttpServer.cc and HttpResponse.cc at concrete inputs.
use lute.Http.Context.Chunks.{arrive, arrive_in_chunks}
use lute.Http.Context.Plain.{Outcome}
use lute.Prelude.{
  [], ◌∷◌, true, false, none, some, ◌≡◌, refl, Returns, reverse, ◌++◌, arith, length,
}
use lute.Http.Bytes.{Bytes, codes}
use lute.Http.Decimal.{decimal, value_of, value_of-decimal}
use lute.Http.Request.{HttpRequest, Method, method_string, name_of, is_invalid, method_string_iff}
use lute.Http.Request
use lute.Http.Response.{HttpResponse, HttpStatusCode, append_to_buffer}
use lute.Http.Response
use lute.Http.Response.Render.{message, append_to_buffer-Holds}
use lute.Http.Context.{
  HttpContext, ParseState, Parsed, parsed, out_of_fuel, parse_loop, parse_request,
  process_request_line,
}
use lute.Http.Context
use lute.Http.Context.Rounds.{Ready, Settled}
use lute.Http.Context.Total.{
  parse_request-Settled, parse_loop-got_all, Agrees, parse_request-Agrees,
}
use lute.Http.Context.Refused.{parse_request_refused_twice}
use lute.Http.Server.{on_message, default_http_callback}
use lute.Http.Server.Outcome.{AreSmall, Reaction, on_message-Reaction}
use lute.Buffer.{contents}
use lute.Buffer.Contents.{Fits, IsValid, Holds}
use lute.Buffer.Search.{FirstLine, crlf_offset, starts_crlf, crlf_offset-none, cr}
use lute.Tests.Buffers.{holding, holding-IsValid}

fresh-Ready : Ready Context.init
fresh-Ready = (λ e. absurd (cc e), λ e. refl)

abbrev get_text : Bytes
get_text = codes "GET / HTTP/1.1\r\nHost: a\r\n\r\n"

parse_request-Settled_example : Returns (parse_request 1 Context.init (holding get_text)) Settled
parse_request-Settled_example =
    parse_request-Settled 1 Context.init (holding get_text) (holding-IsValid get_text) fresh-Ready

abbrev whole_request : HttpContext
whole_request = record Context.init { state = ParseState.got_all }

parse_loop-got_all_example : parse_loop 3 1 true whole_request (holding get_text) ≡ some out_of_fuel
parse_loop-got_all_example = parse_loop-got_all 3 1 true whole_request (holding get_text) refl

-- The version is not one that the server speaks.
abbrev new_version : Bytes
new_version = codes "GET / HTTP/2.0"

abbrev half_read : HttpRequest
half_read = record Request.init { method = Method.get; path = codes "/" }

new_version-refused : process_request_line new_version Request.init ≡ some (false, half_read)
unfolding process_request_line
new_version-refused = refl

abbrev refused_bytes : Bytes
refused_bytes = codes "GET / HTTP/2.0\r\n"

refused_bytes-FirstLine : FirstLine refused_bytes new_version []
unfolding crlf_offset starts_crlf
refused_bytes-FirstLine = record {
  splits = refl;
  first = crlf_offset-none (new_version ++ (cr ∷ [])) refl;
}

parse_request_refused_twice_example :
    (parse_request 1 Context.init (holding refused_bytes)
      ≡ some (parsed false (record Context.init { request = half_read }) (holding refused_bytes)))
    × (parse_request 2 (record Context.init { request = half_read }) (holding refused_bytes) ≡ none)
parse_request_refused_twice_example =
    parse_request_refused_twice 1 2 Context.init (holding refused_bytes) (holding refused_bytes)
      new_version [] [] half_read (holding-IsValid refused_bytes) (holding-IsValid refused_bytes)
      fresh-Ready refl new_version-refused refl refused_bytes-FirstLine refused_bytes-FirstLine

abbrev small_page : HttpResponse
small_page = record (Response.init false) {
  headers = (codes "Server", codes "Lux") ∷ [];
  status_code = HttpStatusCode.ok;
  status_message = codes "OK";
  body = codes "hi";
}

small_page-short : Fits (length (message small_page)) (holding [])
unfolding message decimal Response.status_number
small_page-short = omega arith

append_to_buffer-Holds_example :
    Returns
      (append_to_buffer small_page (holding []))
      (Holds (contents (holding []) ++ message small_page))
append_to_buffer-Holds_example =
    append_to_buffer-Holds small_page (holding []) (holding-IsValid []) small_page-short
      (omega arith)

default-AreSmall : AreSmall default_http_callback
unfolding default_http_callback message decimal Response.status_number
default-AreSmall req = (omega arith, omega arith)

on_message-Reaction_example :
    Returns (on_message default_http_callback 1 Context.init (holding get_text)) (λ r.
      IsValid r.2 × Reaction default_http_callback 1 Context.init (holding get_text) r.0 r.1 r.2)
on_message-Reaction_example =
    on_message-Reaction default_http_callback 1 Context.init (holding get_text) default-AreSmall
      (holding-IsValid get_text) fresh-Ready

value_of-decimal_example : value_of (reverse (decimal 307)) ≡ 307
value_of-decimal_example = value_of-decimal 307 (omega arith)

parse_request-Agrees_example :
    Returns (parse_request 1 Context.init (holding get_text)) (Agrees 1 Context.init get_text)
parse_request-Agrees_example =
    parse_request-Agrees 1 Context.init (holding get_text) (holding-IsValid get_text) fresh-Ready

-- The cut stands between the carriage return and the line feed of the first line.
abbrev first_chunk : Bytes
first_chunk = codes "GET / HTTP/1.1\r"

abbrev second_chunk : Bytes
second_chunk = codes "\nHost: a\r\n\r\n"

arrive_in_chunks_example :
    (o : Outcome) × (arrive 1 second_chunk Context.init (holding first_chunk) ≡ some o)
    × (arrive 1 second_chunk Context.init (holding first_chunk) ≡ some o)
unfolding parse_request
arrive_in_chunks_example =
    arrive_in_chunks 1 second_chunk Context.init Context.init (holding first_chunk)
      (holding first_chunk) (holding-IsValid first_chunk) fresh-Ready refl (λ e. cc) (ground arith)
      (ground arith)
