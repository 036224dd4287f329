-- ===== src/Client/Names.antt =====
-- The names of the connections of polaris/src/TCPClient.cc.
use lute.Server.Names.{append_cancel}
use lute.Http.Decimal.{decimal, decimal-injective}
use lute.Prelude.{
  ℕ, length, ◌≤◌, ◌≡◌, ◌+◌, ap, ◌<◌, ◌++◌, ◌∷◌, ◌^◌, take, take-append_left, ◌∙◌, take_all, arith,
  sym, length-append, [],
}
use lute.Http.Bytes.{Bytes}
use lute.Client.{client_connection_name}

-- Where the text behind the client's name fits into 31 characters, different counters give
-- different names.
pub client_connection_name-injective :
    (name ip_port : Bytes) (a b : ℕ)
    → length ip_port + length (decimal a) ≤ 29
    → length ip_port + length (decimal b) ≤ 29
    → a < 2 ^ 31
    → b < 2 ^ 31
    → client_connection_name name ip_port a ≡ client_connection_name name ip_port b
    → a ≡ b
unfolding client_connection_name
client_connection_name-injective name ip_port a b h k ha hb e =
    decimal-injective a b (omega arith) (omega arith) (
      append_cancel (b'#' ∷ []) _ _ (
        append_cancel ip_port _ _
          (append_cancel (b':' ∷ []) _ _ (sym (whole a h) ∙ append_cancel name _ _ e ∙ whole b k))))
  where
    text : ℕ → Bytes
    text id = b':' ∷ (ip_port ++ (b'#' ∷ decimal id))

    whole : (id : ℕ) → length ip_port + length (decimal id) ≤ 29 → take 31 (text id) ≡ text id
    whole id s = take_all 31 (text id) (omega (arith, s, length-append ip_port (b'#' ∷ decimal id)))

-- With a peer whose address takes 30 characters or more, as those of IPv6 do, the counter is cut off,
-- and all connections of the client to it have one name.
pub client_connection_name-same :
    (name ip_port : Bytes) (a b : ℕ)
    → 30 ≤ length ip_port
    → client_connection_name name ip_port a ≡ client_connection_name name ip_port b
unfolding client_connection_name
client_connection_name-same name ip_port a b h =
    ap (λ text. name ++ b':' ∷ text)
      (take-append_left 30 ip_port (b'#' ∷ decimal a) h
        ∙ sym (take-append_left 30 ip_port (b'#' ∷ decimal b) h))
