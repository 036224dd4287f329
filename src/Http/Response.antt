-- ===== src/Http/Response.antt =====
-- app/http/include/http/HttpResponse.h and app/http/src/HttpResponse.cc.
pub mod Render
use lute.Prelude.{
  ℕ, Bool, true, false, List, [], ◌∷◌, ◌++◌, Option, some, if◌then◌else◌, take, length, ◌>>=◌,
}
use lute.Buffer.{Buffer, append}
use lute.Http.Bytes.{Bytes, codes}
use lute.Http.Decimal.{decimal}
use lute.Http.Headers.{HeaderMap, set}

pub data HttpStatusCode : Type 0 where
  unknown ok moved_permanently bad_request not_found : HttpStatusCode

-- `static_cast<int>`
unfoldable pub status_number : HttpStatusCode → ℕ
status_number HttpStatusCode.unknown = 0
status_number HttpStatusCode.ok = 200
status_number HttpStatusCode.moved_permanently = 301
status_number HttpStatusCode.bad_request = 400
status_number HttpStatusCode.not_found = 404

pub record HttpResponse : Type 0 where
  pub headers : HeaderMap
  pub status_code : HttpStatusCode
  pub status_message : Bytes
  pub close_connection : Bool
  pub body : Bytes

abbrev pub init : Bool → HttpResponse
init close = record {
  headers = [];
  status_code = HttpStatusCode.unknown;
  status_message = [];
  close_connection = close;
  body = [];
}

unfoldable pub add_header : Bytes → Bytes → HttpResponse → HttpResponse
unfolding set
add_header key value r = record r { headers = set key value r.headers }

unfoldable pub set_content_type : Bytes → HttpResponse → HttpResponse
unfolding add_header
set_content_type content_type = add_header (codes "Content-Type") content_type

-- `snprintf(buf, 32, …)`: 31 bytes at most, and the terminator.
abbrev pub printed : Bytes → Bytes
printed text = take 31 text

abbrev pub crlf : Bytes
crlf = 13 ∷ 10 ∷ []

header_chunks : HeaderMap → List Bytes
header_chunks [] = []
header_chunks ((key, value) ∷ rest) = key ∷ codes ": " ∷ value ∷ crlf ∷ header_chunks rest

unfoldable pub status_chunk : HttpStatusCode → Bytes
unfolding status_number decimal
status_chunk code = printed (codes "HTTP/1.1 " ++ (decimal (status_number code) ++ codes " "))

unfoldable pub length_chunk : ℕ → Bytes
unfolding decimal
length_chunk size = printed (codes "Content-Length: " ++ (decimal size ++ crlf))

connection_chunks : Bool → ℕ → List Bytes
connection_chunks true size = (codes "Connection: close" ++ crlf) ∷ []
connection_chunks false size = length_chunk size ∷ (codes "Connection: Keep-Alive" ++ crlf) ∷ []

-- What `appendToBuffer` hands to `append`, call by call.
chunks : HttpResponse → List Bytes
unfolding connection_chunks header_chunks
chunks r =
    status_chunk r.status_code
    ∷ r.status_message
    ∷ crlf
    ∷ (connection_chunks r.close_connection (length r.body)
        ++ (header_chunks r.headers ++ (crlf ∷ r.body ∷ [])))

append_all : List Bytes → Buffer → Option Buffer
unfolding append
append_all [] b = some b
append_all (c ∷ cs) b = do b' ← append c b; append_all cs b'

unfoldable pub append_to_buffer : HttpResponse → Buffer → Option Buffer
unfolding append_all chunks
append_to_buffer r output = append_all (chunks r) output
