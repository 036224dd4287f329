-- ===== src/Tests/Addresses.antt =====
-- The theorems on polaris/src/InetAddress.cc at concrete inputs.
use lute.Http.Decimal.{decimal}
use lute.InetAddress.Printed.{HasPort, is_self_connect_iff, to_ip_port-from_text}
use lute.Http.Bytes.{Bytes, codes}
use lute.Buffer.Words.{word_limit, to_le, ByteOrder}
use lute.InetAddress.{
  is_self_connect, SockAddr, to_ip, zeroed, af_inet, from_text, to_ip_port, to_port,
}
use lute.InetAddress.Printed.{IsPrinter}
use lute.Prelude.{
  some, true, false, inl, [], ◌∷◌, ℕ, ◌≡◌, ◌↔◌, take, Option, arith, if◌then◌else◌, refl, ◌==◌,
  ◌++◌, length-take, sym, take_all, ◌∙◌,
}

-- A printer that shows the bytes of an address, as many as there is room for.
abbrev print_bytes : ℕ → Bytes → Bytes
print_bytes family address = take (if family == af_inet then 15 else 45) address

abbrev read_bytes : ℕ → Bytes → Option Bytes
read_bytes family text = some text

print_bytes-IsPrinter : IsPrinter ByteOrder.little print_bytes
print_bytes-IsPrinter = record {
  short4 = λ a. omega (arith, length-take 15 a);
  short6 = λ a. omega (arith, length-take 45 a);
  apart4 =
      λ a b h e. sym (take_all 15 a (omega (arith, h.0))) ∙ e ∙ take_all 15 b (omega (arith, h.1));
  apart6 =
      λ a b h e. sym (take_all 45 a (omega (arith, h.0))) ∙ e ∙ take_all 45 b (omega (arith, h.1));
}

abbrev local_end : SockAddr
local_end = record zeroed {
  family = af_inet;
  port = 31 ∷ 144 ∷ [];
  sin_addr = 127 ∷ 0 ∷ 0 ∷ 1 ∷ [];
}

local_end-HasPort : HasPort local_end 8080
unfolding word_limit to_le
local_end-HasPort = (omega arith, refl)

is_self_connect_example : (is_self_connect local_end local_end ≡ true) ↔ (
    to_ip_port ByteOrder.little print_bytes local_end
    ≡ to_ip_port ByteOrder.little print_bytes local_end)
is_self_connect_example =
    is_self_connect_iff ByteOrder.little print_bytes local_end local_end 8080 8080
      print_bytes-IsPrinter local_end-HasPort local_end-HasPort (refl, refl) (refl, refl) refl
      (inl refl)

to_ip_port-from_text_example :
    (to_ip ByteOrder.little print_bytes
        (from_text ByteOrder.little read_bytes (codes "1234") 80 false)
      ≡ some (codes "1234"))
    × (to_ip_port ByteOrder.little print_bytes
          (from_text ByteOrder.little read_bytes (codes "1234") 80 false)
        ≡ some (codes "1234" ++ b':' ∷ decimal 80))
    × (to_port ByteOrder.little (from_text ByteOrder.little read_bytes (codes "1234") 80 false)
        ≡ 80)
unfolding word_limit
to_ip_port-from_text_example =
    to_ip_port-from_text ByteOrder.little print_bytes read_bytes (codes "1234") (codes "1234") 80
      false refl refl (omega arith) (omega arith)
