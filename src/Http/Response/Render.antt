-- ===== src/Http/Response/Render.antt =====
-- The message that `appendToBuffer` of app/http/src/HttpResponse.cc writes.
use lute.Http.Decimal.{decimal, length-decimal}
use lute.Http.Headers.{HeaderMap}
use mathlib.Core.List.{append-nil, append_assoc}
use lute.Prelude.{
  take_all, true, false, Bool, ◌<◌, sym, ap, ◌∙◌, List, [], ◌∷◌, ◌++◌, arith, length, length-append,
  Returns, Returns->>=, subst, ℕ, ◌≡◌, refl,
}
use lute.Buffer.{Buffer, contents, append}
use lute.Buffer.Contents.{IsValid, Fits, Holds, Appends, append-Appends}
use lute.Http.Bytes.{Bytes, codes}
use lute.Http.Response.{
  append_all, status_number, append_to_buffer, HttpResponse, crlf, HttpStatusCode, header_chunks,
  chunks, connection_chunks, length_chunk, status_chunk,
}

abbrev concat : List Bytes → Bytes
concat [] = []
concat (c ∷ cs) = c ++ concat cs

append_all-Holds :
    (cs : List Bytes) (b : Buffer)
    → IsValid b
    → Fits (length (concat cs)) b
    → Returns (append_all cs b) (Holds (contents b ++ concat cs))
unfolding append_all
append_all-Holds [] b v f = (v, sym (append-nil (contents b)))
append_all-Holds (c ∷ cs) b v f =
    let long = length-append c (concat cs) in
    Returns->>= (Appends c b) _ (append c b) _ (append-Appends c b v (omega arith)) (λ b' a.
      subst (λ xs. Returns (append_all cs b') (Holds xs))
        (ap (λ xs. xs ++ concat cs) a.0.1 ∙ append_assoc (contents b) c (concat cs))
        (append_all-Holds cs b' a.0.0 (omega (arith, a.1))))

-- The parts of a response message.
status_line : HttpResponse → Bytes
status_line r =
    codes "HTTP/1.1 "
    ++ (decimal (status_number r.status_code) ++ (codes " " ++ (r.status_message ++ crlf)))

framing : Bool → Bytes → Bytes
framing true body = codes "Connection: close" ++ crlf
framing false body =
    codes "Content-Length: "
    ++ (decimal (length body) ++ (crlf ++ (codes "Connection: Keep-Alive" ++ crlf)))

fields : HeaderMap → Bytes
fields [] = []
fields ((key, value) ∷ rest) = key ++ (codes ": " ++ (value ++ (crlf ++ fields rest)))

unfoldable pub message : HttpResponse → Bytes
unfolding status_line framing fields
message r =
    status_line r ++ (framing r.close_connection r.body ++ (fields r.headers ++ (crlf ++ r.body)))

concat-header_chunks :
    (m : HeaderMap) (rest : List Bytes) → concat (header_chunks m ++ rest) ≡ fields m ++ concat rest
unfolding header_chunks fields
concat-header_chunks [] rest = refl
concat-header_chunks ((key, value) ∷ m) rest = simp (concat-header_chunks m rest, append_assoc)

status_chunk_lem :
    (code : HttpStatusCode)
    → status_chunk code ≡ codes "HTTP/1.1 " ++ (decimal (status_number code) ++ codes " ")
unfolding status_chunk
status_chunk_lem HttpStatusCode.unknown = refl
status_chunk_lem _ = refl

length_chunk_lem :
    (n : ℕ) → n < 10000000000000 → length_chunk n ≡ codes "Content-Length: " ++ (decimal n ++ crlf)
unfolding length_chunk
length_chunk_lem n h = take_all 31 _ (
    omega (
      arith,
      length-append (codes "Content-Length: ") (decimal n ++ crlf),
      length-append (decimal n) crlf,
      length-decimal n h,
    ))

concat-connection_chunks :
    (close : Bool) (body : Bytes) (rest : List Bytes)
    → length body < 10000000000000
    → concat (connection_chunks close (length body) ++ rest) ≡ framing close body ++ concat rest
unfolding connection_chunks framing
concat-connection_chunks true body rest h = refl
concat-connection_chunks false body rest h =
    rw (length_chunk_lem (length body) h) (simp append_assoc)

concat-chunks : (r : HttpResponse) → length r.body < 10000000000000 → concat (chunks r) ≡ message r
unfolding chunks message
concat-chunks r h =
    rw
      (
        status_chunk_lem r.status_code,
        concat-connection_chunks r.close_connection r.body _ h,
        concat-header_chunks r.headers (crlf ∷ r.body ∷ []),
      )
      (simp (append_assoc, append-nil))

-- For a body of less than 10 ^ 13 bytes and a valid buffer that the message fits, `appendToBuffer`
-- adds the whole message behind what the buffer holds: neither of its two `snprintf` calls is cut
-- short by the 32 bytes.
pub append_to_buffer-Holds :
    (r : HttpResponse) (b : Buffer)
    → IsValid b
    → Fits (length (message r)) b
    → length r.body < 10000000000000
    → Returns (append_to_buffer r b) (Holds (contents b ++ message r))
unfolding append_to_buffer
append_to_buffer-Holds r b v f h =
    subst (λ m. Fits (length m) b → Returns (append_all (chunks r) b) (Holds (contents b ++ m)))
      (concat-chunks r h) (append_all-Holds (chunks r) b v) f
