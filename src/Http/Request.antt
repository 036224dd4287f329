-- ===== src/Http/Request.antt =====
-- app/http/include/http/HttpRequest.h. A range of the input is the list of its bytes.
use lute.Prelude.{
  ℕ, ◌+◌, ◌≡◌, ◌↔◌, ◌⊎◌, refl, Bool, true, false, not, [], ◌∷◌, Option, none, some, reverse, arith,
  if◌then◌else◌, take, drop, assert, ◌>>◌,
}
use lute.Http.Bytes.{Bytes, codes, equal, is_space}
use lute.Http.Headers.{HeaderMap, set, find}

pub data Method : Type 0 where
  invalid get post head put delete : Method

pub data Version : Type 0 where
  unknown http10 http11 : Version

pub record HttpRequest : Type 0 where
  pub method : Method
  pub version : Version
  pub path : Bytes
  pub query : Bytes
  pub receive_time : ℕ
  pub headers : HeaderMap
  pub body : Bytes

abbrev pub init : HttpRequest
init = record {
  method = Method.invalid;
  version = Version.unknown;
  path = [];
  query = [];
  receive_time = 0;
  headers = [];
  body = [];
}

abbrev pub is_invalid : Method → Bool
is_invalid Method.invalid = true
is_invalid Method.get = false
is_invalid Method.post = false
is_invalid Method.head = false
is_invalid Method.put = false
is_invalid Method.delete = false

-- The method that a name stands for.
unfoldable pub method_of : Bytes → Method
unfolding equal
method_of m =
    if equal m (codes "GET")
    then Method.get
    else if equal m (codes "POST")
    then Method.post
    else if equal m (codes "HEAD")
    then Method.head
    else if equal m (codes "PUT")
    then Method.put
    else if equal m (codes "DELETE")
    then Method.delete
    else Method.invalid

-- With the `assert` that a build without NDEBUG has. The flag is the value returned.
unfoldable pub set_method : Bytes → HttpRequest → Option (Bool × HttpRequest)
unfolding method_of
set_method m r = do
  assert (is_invalid r.method)
  let known = method_of m
  some (not (is_invalid known), record r { method = known })

abbrev pub name_of : Method → Bytes
name_of Method.invalid = codes "UNKNOWN"
name_of Method.get = codes "GET"
name_of Method.post = codes "POST"
name_of Method.head = codes "HEAD"
name_of Method.put = codes "PUT"
name_of Method.delete = codes "DELETE"

unfoldable pub method_string : HttpRequest → Bytes
method_string r = elim r.method [
  | Method.invalid ↦ codes "UNKNOWN"
  | Method.get ↦ codes "GET"
  | Method.post ↦ codes "GET"
  | Method.head ↦ codes "GET"
  | Method.put ↦ codes "GET"
  | Method.delete ↦ codes "GET"
]

-- `while (colon < end && isspace(*colon)) ++colon;`
unfoldable pub skip_spaces : Bytes → Bytes
unfolding is_space
skip_spaces [] = []
skip_spaces (c ∷ cs) = if is_space c then skip_spaces cs else c ∷ cs

-- The loop that takes spaces off the end, which is the head of the reversed bytes.
unfoldable pub trim_end : Bytes → Bytes
unfolding skip_spaces
trim_end value = reverse (skip_spaces (reverse value))

-- `colon` is the offset of the colon in the line.
unfoldable pub add_header : Bytes → ℕ → HttpRequest → HttpRequest
unfolding set trim_end
add_header line colon r =
    let field = take colon line in
    let value = trim_end (skip_spaces (drop (colon + 1) line)) in
    record r { headers = set field value r.headers }

unfoldable pub get_header : Bytes → HttpRequest → Bytes
unfolding find
get_header field r = elim (find field r.headers) [ none ↦ [] | some value ↦ value ]

method_string_cases :
    (r : HttpRequest) (m : Method)
    → r.method ≡ m
    → (method_string r ≡ name_of r.method) ↔ ((r.method ≡ Method.get) ⊎ (r.method ≡ Method.invalid))
unfolding method_string
method_string_cases r Method.invalid e = ground arith
method_string_cases r _ e = ground arith

-- The name that is logged is right for GET and for no method, and wrong for every other one.
pub method_string_iff :
    (r : HttpRequest)
    → (method_string r ≡ name_of r.method) ↔ ((r.method ≡ Method.get) ⊎ (r.method ≡ Method.invalid))
unfolding method_string
method_string_iff r = method_string_cases r r.method refl
