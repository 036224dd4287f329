-- ===== src/Buffer.antt =====
-- polaris/include/polaris/Buffer.h and polaris/src/Buffer.cc: the byte buffer of a connection.
-- A pointer into the storage is an index of it; the bytes given to `append` and `prepend` are a
-- list, whose length is the `len` of the source. `none` is a failed `assert`.
pub mod Words
pub mod Contents
pub mod Integers
pub mod RoundTrip
pub mod Queue
pub mod ReadFd
pub mod Search
use lute.Prelude.{
  ℕ, ◌+◌, ◌-◌, ◌%◌, ◌^◌, Option, none, some, List, ◌++◌, ltb, leb, if◌then◌else◌, length, take,
  replicate, copy_at, slice, assert, ◌>>=◌, ◌>>◌,
}

pub record Buffer : Type 0 where
  pub buffer : List ℕ
  pub reader_index : ℕ
  pub writer_index : ℕ

abbrev pub cheap_prepend : ℕ
cheap_prepend = 8

abbrev pub initial_size : ℕ
initial_size = 1024

-- `a + b` on `size_t`.
pub add_size : ℕ → ℕ → ℕ
add_size a b = (a + b) % 2 ^ 64

unfoldable pub init : ℕ → Buffer
init size = record {
  buffer = replicate (cheap_prepend + size) 0;
  reader_index = cheap_prepend;
  writer_index = cheap_prepend;
}

abbrev pub readable_bytes : Buffer → ℕ
readable_bytes b = b.writer_index - b.reader_index

abbrev pub writable_bytes : Buffer → ℕ
writable_bytes b = length b.buffer - b.writer_index

abbrev pub prependable_bytes : Buffer → ℕ
prependable_bytes b = b.reader_index

-- `toStringPiece`: the bytes from `peek()` to `beginWrite()`.
abbrev pub contents : Buffer → List ℕ
contents b = slice b.reader_index (readable_bytes b) b.buffer

-- `std::vector::resize`, which fills up with zeros.
resize : ℕ → List ℕ → List ℕ
resize n xs = take n xs ++ replicate (n - length xs) 0

unfoldable pub retrieve_all : Buffer → Buffer
retrieve_all b = record b { reader_index = cheap_prepend; writer_index = cheap_prepend }

unfoldable pub retrieve : ℕ → Buffer → Option Buffer
unfolding retrieve_all
retrieve len b = do
  assert (leb len (readable_bytes b))
  some (
      if ltb len (readable_bytes b)
      then record b { reader_index = b.reader_index + len }
      else retrieve_all b)

-- `end` is an index of the storage.
unfoldable pub retrieve_until : ℕ → Buffer → Option Buffer
unfolding retrieve
retrieve_until end b = do
  assert (leb b.reader_index end)
  assert (leb end b.writer_index)
  retrieve (end - b.reader_index) b

unfoldable pub retrieve_as_string : ℕ → Buffer → Option (List ℕ × Buffer)
unfolding retrieve
retrieve_as_string len b = do
  assert (leb len (readable_bytes b))
  let result = slice b.reader_index len b.buffer
  b' ← retrieve len b
  some (result, b')

unfoldable pub retrieve_all_as_string : Buffer → Option (List ℕ × Buffer)
unfolding retrieve_as_string
retrieve_all_as_string b = retrieve_as_string (readable_bytes b) b

make_space : ℕ → Buffer → Option Buffer
unfolding resize add_size
make_space len b =
    if ltb (add_size (writable_bytes b) (prependable_bytes b)) (add_size len cheap_prepend)
    then some (record b { buffer = resize (add_size b.writer_index len) b.buffer })
    else (do
      assert (ltb cheap_prepend b.reader_index)
      let readable = readable_bytes b
      let moved = record b {
        buffer = copy_at cheap_prepend (contents b) b.buffer;
        reader_index = cheap_prepend;
        writer_index = cheap_prepend + readable;
      }
      some moved)

pub ensure_writable_bytes : ℕ → Buffer → Option Buffer
unfolding make_space
ensure_writable_bytes len b = do
  b' ← (if ltb (writable_bytes b) len then make_space len b else some b)
  assert (leb len (writable_bytes b'))
  some b'

pub has_written : ℕ → Buffer → Option Buffer
has_written len b = do
  assert (leb len (writable_bytes b))
  some (record b { writer_index = b.writer_index + len })

unfoldable pub unwrite : ℕ → Buffer → Option Buffer
unwrite len b = do
  assert (leb len (readable_bytes b))
  some (record b { writer_index = b.writer_index - len })

unfoldable pub append : List ℕ → Buffer → Option Buffer
unfolding ensure_writable_bytes has_written
append bytes b = do
  b' ← ensure_writable_bytes (length bytes) b
  has_written (length bytes) (record b' { buffer = copy_at b'.writer_index bytes b'.buffer })

unfoldable pub prepend : List ℕ → Buffer → Option Buffer
prepend bytes b = do
  assert (leb (length bytes) (prependable_bytes b))
  let start = b.reader_index - length bytes
  some (record b { reader_index = start; buffer = copy_at start bytes b.buffer })

-- `shrink_to_fit` is a request about capacity, which no other operation reads.
unfoldable pub shrink : ℕ → Buffer → Option Buffer
unfolding ensure_writable_bytes add_size
shrink reserve b = ensure_writable_bytes (add_size (readable_bytes b) reserve) b

-- Both buffers after `a.swap(b)`.
pub swap : Buffer → Buffer → Buffer × Buffer
swap a b = (
  record { buffer = b.buffer; reader_index = b.reader_index; writer_index = b.writer_index },
  record { buffer = a.buffer; reader_index = a.reader_index; writer_index = a.writer_index },
)
