-- ===== src/Tests/Buffers.antt =====
-- The theorems on polaris/include/polaris/Buffer.h and polaris/src/TCPConnection.cc at concrete inputs.
use lute.Prelude.{◌>>=◌, [], ◌∷◌, true, ◌≡◌, Returns, List, arith, ◌++◌, ℕ, ◌+◌, length, refl, ap}
use lute.Buffer.{Buffer, contents, retrieve, readable_bytes}
use lute.Buffer.Contents.{IsValid, Holds}
use lute.Buffer.ReadFd.{ReadOutcome, received, read_fd, iovecs, bytes_of, Respects, read_fd-Holds}
use lute.Buffer.Search.{find_crlf, Answers, find_crlf-Answers}
use lute.Buffer.Words.{InRange, word_limit, ByteOrder, negsuc}
use lute.Buffer.Integers.{append_int, read_int}
use lute.Buffer.RoundTrip.{read_int-append_int}
use lute.Connection.{
  Connection, StateE, WriteOutcome, wrote, write_failed, send_in_loop, handle_write,
  is_disconnected,
}
use lute.Connection
use lute.Connection.Stream.{Inv, Extends, send_in_loop-Extends}
use lute.Connection.Drained.{Moved, handle_write-Moved}
use lute.Http.Bytes.{codes}

-- A buffer that holds these bytes, behind the reserved front.
abbrev pub holding : List ℕ → Buffer
holding bytes = record {
  buffer = 0 ∷ 0 ∷ 0 ∷ 0 ∷ 0 ∷ 0 ∷ 0 ∷ 0 ∷ bytes;
  reader_index = 8;
  writer_index = 8 + length bytes;
}

pub holding-IsValid : (bytes : List ℕ) → IsValid (holding bytes)
holding-IsValid bytes = record {
  ordered = omega arith;
  within = omega arith;
  reserved = omega arith;
}

abbrev hello : Buffer
hello = holding (codes "hello")

abbrev two_bytes : List ℕ → ReadOutcome
two_bytes lengths = received (codes "!?")

two_bytes-Respects : Respects two_bytes (iovecs hello)
unfolding iovecs
two_bytes-Respects bytes e = omega (arith, ap (λ o. length (bytes_of o)) e)

read_fd-Holds_example :
    Returns
      (read_fd two_bytes hello)
      (λ r. (r.0 ≡ two_bytes (iovecs hello)) × Holds (contents hello ++ bytes_of r.0) r.1)
read_fd-Holds_example =
    read_fd-Holds two_bytes hello (holding-IsValid (codes "hello")) (omega arith) two_bytes-Respects

abbrev one_line : Buffer
one_line = holding (codes "a\r\nb")

find_crlf-Answers_example : Answers one_line (find_crlf one_line)
find_crlf-Answers_example = find_crlf-Answers one_line (holding-IsValid (codes "a\r\nb"))

forty_two-InRange : InRange 4 (negsuc 41)
unfolding word_limit
forty_two-InRange = omega arith

read_int-append_int_example :
    Returns
      (do
        filled ← append_int ByteOrder.little 4 (negsuc 41) hello
        drained ← retrieve (readable_bytes hello) filled
        read_int ByteOrder.big 4 drained)
      (λ r. (r.0 ≡ negsuc 41) × Holds [] r.1)
read_int-append_int_example =
    read_int-append_int ByteOrder.little ByteOrder.big 3 (negsuc 41) hello
      (holding-IsValid (codes "hello")) (omega arith) forty_two-InRange

-- A connection that is up and has nothing to send.
abbrev idle : Connection
idle = record (Connection.init (holding []) (holding []) true true) {
  state = StateE.connected;
  channel_reading = true;
  registered = true;
}

idle-Inv : Inv idle
unfolding Connection.init
idle-Inv = record {
  output_valid = holding-IsValid [];
  interest = λ up. refl;
  fin = λ shut. absurd (cc shut);
}

send_in_loop-Extends_example :
    Returns (send_in_loop (codes "hello") (wrote 2) idle) (Extends (codes "hello") idle)
unfolding Connection.init
send_in_loop-Extends_example =
    send_in_loop-Extends (codes "hello") (wrote 2) idle idle-Inv refl (omega arith) (omega arith)

-- A connection that is closing, with three bytes left for the kernel.
abbrev busy : Connection
busy = record (Connection.init (holding []) (holding (codes "llo")) true true) {
  state = StateE.disconnecting;
  channel_writing = true;
  registered = true;
}

busy-Inv : Inv busy
unfolding Connection.init
busy-Inv = record {
  output_valid = holding-IsValid (codes "llo");
  interest = λ up. refl;
  fin = λ shut. absurd (cc shut);
}

handle_write-Moved_example : Returns (handle_write (wrote 3) busy) (Moved 3 busy)
unfolding Connection.init
handle_write-Moved_example = handle_write-Moved (wrote 3) busy busy-Inv (omega arith)
