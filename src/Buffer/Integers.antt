-- ===== src/Buffer/Integers.antt =====
-- The integer operations of polaris/include/polaris/Buffer.h, one function for each family:
-- `k` is the `sizeof` of the type, 1, 2, 4 or 8.
use lute.Prelude.{
  ℕ, ◌≤◌, ◌<◌, ◌≡◌, refl, sym, ap, ◌∙◌, List, ◌++◌, Option, some, arith, leb, le→leb, length, take,
  drop, slice, length-append, take-append, drop-append, take-take, assert, ◌>>=◌, ◌>>◌, Returns,
  Returns->>=,
}
use lute.Buffer.{Buffer, readable_bytes, prependable_bytes, contents, append, prepend, retrieve}
use lute.Buffer.Words.{
  ByteOrder, word_limit, object_bytes, object_value, host_to_network, network_to_host, ℤ,
  to_unsigned, to_signed, network_bytes, length-network_bytes, object_bytes-host_to_network,
  network_to_host-object_value,
}
use lute.Buffer.Contents.{
  IsValid, Fits, Holds, length-contents, append-Holds, prepend-Holds, retrieve-Holds,
}

module _ (order : ByteOrder) (k : ℕ) where
  unfoldable pub append_uint : ℕ → Buffer → Option Buffer
  unfolding object_bytes host_to_network append
  append_uint x = append (object_bytes order k (host_to_network order k x))

  unfoldable pub prepend_uint : ℕ → Buffer → Option Buffer
  unfolding object_bytes host_to_network prepend
  prepend_uint x = prepend (object_bytes order k (host_to_network order k x))

  unfoldable pub peek_uint : Buffer → Option ℕ
  unfolding object_value network_to_host
  peek_uint b = do
    assert (leb k (readable_bytes b))
    some (network_to_host order k (object_value order (slice b.reader_index k b.buffer)))

  unfoldable pub read_uint : Buffer → Option (ℕ × Buffer)
  unfolding peek_uint retrieve
  read_uint b = do result ← peek_uint b; b' ← retrieve k b; some (result, b')

  unfoldable pub append_int : ℤ → Buffer → Option Buffer
  unfolding append_uint to_unsigned
  append_int x = append_uint (to_unsigned k x)

  unfoldable pub prepend_int : ℤ → Buffer → Option Buffer
  unfolding prepend_uint to_unsigned
  prepend_int x = prepend_uint (to_unsigned k x)

  unfoldable pub peek_int : Buffer → Option ℤ
  unfolding peek_uint to_signed
  peek_int b = do u ← peek_uint b; some (to_signed k u)

  unfoldable pub read_int : Buffer → Option (ℤ × Buffer)
  unfolding peek_int retrieve
  read_int b = do result ← peek_int b; b' ← retrieve k b; some (result, b')

  -- On every host, what is appended to a valid buffer that it fits is the word in network byte
  -- order.
  pub append_uint-Holds :
      (x : ℕ) (b : Buffer)
      → IsValid b
      → Fits k b
      → Returns (append_uint x b) (Holds (contents b ++ network_bytes k x))
  unfolding append_uint
  append_uint-Holds x b v f =
      rw (object_bytes-host_to_network order k x)
        (append-Holds (network_bytes k x) b v (rw (length-network_bytes k x) f))

  pub prepend_uint-Holds :
      (x : ℕ) (b : Buffer)
      → IsValid b
      → k ≤ prependable_bytes b
      → Returns (prepend_uint x b) (Holds (network_bytes k x ++ contents b))
  unfolding prepend_uint
  prepend_uint-Holds x b v h =
      rw (object_bytes-host_to_network order k x)
        (prepend-Holds (network_bytes k x) b v (rw (length-network_bytes k x) h))

  module _ (x : ℕ) (rest : List ℕ) (b : Buffer) (v : IsValid b) (small : x < word_limit k)
      (front : contents b ≡ network_bytes k x ++ rest) where
    enough : k ≤ readable_bytes b
    enough = omega (
      arith,
      length-contents b v,
      ap length front,
      length-append (network_bytes k x) rest,
      length-network_bytes k x,
    )

    pub peek_uint_lem : peek_uint b ≡ some x
    unfolding peek_uint
    peek_uint_lem = rw (
      le→leb _ _ enough,
      sym (take-take k (readable_bytes b) _ enough)
          ∙ ap (take k) front
          ∙ take-append k (network_bytes k x) rest (sym (length-network_bytes k x)),
      network_to_host-object_value order k x small,
    )

    pub retrieve-rest : Returns (retrieve k b) (Holds rest)
    retrieve-rest =
        rw
          (sym (drop-append k (network_bytes k x) rest (sym (length-network_bytes k x)))
            ∙ ap (drop k) (sym front))
          (retrieve-Holds k b v enough)

    pub read_uint_lem : Returns (read_uint b) (λ r. (r.0 ≡ x) × Holds rest r.1)
    unfolding read_uint
    read_uint_lem =
        rw peek_uint_lem
          (Returns->>= (Holds rest) _ (retrieve k b) _ retrieve-rest (λ b' h. (refl, h)))
