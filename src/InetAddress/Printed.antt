-- ===== src/InetAddress/Printed.antt =====
-- The addresses of polaris/src/InetAddress.cc as polaris/src/Sockets.cc prints and compares them.
use lute.Http.Decimal.{Without, decimal, Without-decimal, decimal-injective, length-decimal}
use lute.Http.Bytes.{Bytes, equal, equal_iff}
use lute.InetAddress.{
  SockAddr, to_port, to_ip_port, port_net_endian, to_ip, sockets_to_ip_port, af_inet, sockets_to_ip,
  is_self_connect, af_inet6, from_text, from_ip_port, from_ip_port6, network_object,
}
use lute.Buffer.Words.{
  ByteOrder, word_limit, network_bytes, network_to_host, object_value, network_to_host-object_value,
  object_bytes-host_to_network,
}
use lute.Prelude.{
  false, some, [], ◌∷◌, inl, inr, ◌>>=◌, ◌>>◌, ℕ, ◌<◌, ◌++◌, ◌≡◌, refl, ap, drop, length, ◌≤◌,
  subst, sym, ◌∙◌, assert, ltb, take, ◌-◌, lt→ltb, true, arith, ◌&&◌, ◌⊎◌, take_all, ◌↔◌, if_false,
  if_true, Bool, ◌==◌, ==_iff, ==_of_ne, Option, if◌then◌else◌, Option-cases,
}

-- The bytes after the last colon and those before it can be told from the whole.
Without-inside : (c : ℕ) (xs ys : Bytes) → Without c (xs ++ c ∷ ys) → ⊥
Without-inside c [] ys h = h.0 refl
Without-inside c (x ∷ xs) ys h = Without-inside c xs ys h.1

last_colon :
    (c : ℕ) (xs ys d e : Bytes)
    → Without c d
    → Without c e
    → xs ++ c ∷ d ≡ ys ++ c ∷ e
    → (xs ≡ ys) × (d ≡ e)
last_colon c [] [] d e h k s = (refl, ap (drop 1) s)
last_colon c [] (y ∷ ys) d e h k s =
    absurd (Without-inside c ys e (subst (Without c) (ap (drop 1) s) h))
last_colon c (x ∷ xs) [] d e h k s =
    absurd (Without-inside c xs d (subst (Without c) (sym (ap (drop 1) s)) k))
last_colon c (x ∷ xs) (y ∷ ys) d e h k s =
    let (same, rest) = last_colon c xs ys d e h k (ap (drop 1) s) in (cc, rest)

-- The port lies in memory as `hostToNetwork16` stores it.
abbrev pub HasPort : SockAddr → ℕ → Type 0
HasPort a n = (n < word_limit 2) × (a.port ≡ network_bytes 2 n)

abbrev pub HasLengths : SockAddr → Type 0
HasLengths a = (length a.sin_addr ≡ 4) × (length a.sin6_addr ≡ 16)

some_eq : {x y : Bytes} → some x ≡ some y → x ≡ y
some_eq e = cc

both_iff : (a b c d : Bytes) → (equal a b && equal c d ≡ true) ↔ ((a ≡ b) × (c ≡ d))
both_iff a b c d = (
  (λ e. ((equal_iff a b).0 (left _ _ e), (equal_iff c d).0 (right _ _ e))),
  (λ h. rw ((equal_iff a b).1 h.0, (equal_iff c d).1 h.1) refl),
)
  where
    left : (s t : Bool) → (s && t) ≡ true → s ≡ true
    left true t e = refl
    left false t e = cc

    right : (s t : Bool) → (s && t) ≡ true → t ≡ true
    right true t e = e
    right false t e = cc

self4 :
    (a b : SockAddr)
    → a.family ≡ af_inet
    → (is_self_connect a b ≡ true) ↔ ((a.port ≡ b.port) × (a.sin_addr ≡ b.sin_addr))
unfolding is_self_connect
self4 a b e =
    if_true (λ t. (t ≡ true) ↔ ((a.port ≡ b.port) × (a.sin_addr ≡ b.sin_addr)))
      (a.family == af_inet) _ _ ((==_iff _ _).1 e) (both_iff a.port b.port a.sin_addr b.sin_addr)

self6 :
    (a b : SockAddr)
    → a.family ≡ af_inet6
    → (is_self_connect a b ≡ true) ↔ ((a.port ≡ b.port) × (a.sin6_addr ≡ b.sin6_addr))
unfolding is_self_connect
self6 a b e =
    if_false (λ t. (t ≡ true) ↔ ((a.port ≡ b.port) × (a.sin6_addr ≡ b.sin6_addr)))
      (a.family == af_inet) _ _ (==_of_ne _ _ (omega arith))
      (if_true (λ t. (t ≡ true) ↔ ((a.port ≡ b.port) × (a.sin6_addr ≡ b.sin6_addr)))
        (a.family == af_inet6) _ _ ((==_iff _ _).1 e)
        (both_iff a.port b.port a.sin6_addr b.sin6_addr))

module _ (order : ByteOrder) where
  to_port_lem : (a : SockAddr) (n : ℕ) → HasPort a n → to_port order a ≡ n
  unfolding to_port port_net_endian
  to_port_lem a n h =
      ap (λ bytes. network_to_host order 2 (object_value order bytes)) h.1
      ∙ network_to_host-object_value order 2 n h.0

  module _ (inet_ntop : ℕ → Bytes → Bytes) where
    printed :
        (a : SockAddr) (ip : Bytes) (n : ℕ)
        → to_ip order inet_ntop a ≡ some ip
        → length ip ≤ 45
        → HasPort a n
        → to_ip_port order inet_ntop a ≡ some (ip ++ b':' ∷ decimal n)
    unfolding to_ip_port to_ip sockets_to_ip_port word_limit
    printed a ip n e short h =
        ap
          (λ m. m >>= λ ip.
            (assert (ltb (length ip) 64)
              >> some (ip ++ take (64 - length ip - 1) (b':' ∷ decimal (to_port order a)))))
          e
        ∙ rw (lt→ltb (length ip) 64 (omega arith), to_port_lem a n h)
            (rw
              (take_all (64 - length ip - 1) (b':' ∷ decimal n)
                (omega (arith, length-decimal n (omega (arith, h.0)))))
              refl)

    -- What inet_ntop is documented to do: its text fits the buffers that are given to it, and tells
    -- addresses of one family apart.
    pub record IsPrinter : Type 0 where
      pub short4 : (a : Bytes) → length (inet_ntop af_inet a) ≤ 15
      pub short6 : (a : Bytes) → length (inet_ntop af_inet6 a) ≤ 45
      pub apart4 :
          (a b : Bytes)
          → (length a ≡ 4) × (length b ≡ 4)
          → inet_ntop af_inet a ≡ inet_ntop af_inet b
          → a ≡ b
      pub apart6 :
          (a b : Bytes)
          → (length a ≡ 16) × (length b ≡ 16)
          → inet_ntop af_inet6 a ≡ inet_ntop af_inet6 b
          → a ≡ b

    to_ip4 :
        (a : SockAddr)
        → a.family ≡ af_inet
        → to_ip order inet_ntop a ≡ some (inet_ntop af_inet a.sin_addr)
    unfolding to_ip sockets_to_ip
    to_ip4 a e = ground arith

    to_ip6 :
        (a : SockAddr)
        → a.family ≡ af_inet6
        → to_ip order inet_ntop a ≡ some (inet_ntop af_inet6 a.sin6_addr)
    unfolding to_ip sockets_to_ip
    to_ip6 a e = ground arith

    from_text-port :
        (inet_pton : ℕ → Bytes → Option Bytes) (ip : Bytes) (port : ℕ) (ipv6 : Bool)
        → (from_text order inet_pton ip port ipv6).port ≡ network_bytes 2 port
    unfolding from_text from_ip_port from_ip_port6 network_object
    from_text-port inet_pton ip port true = elim (Option-cases (inet_pton af_inet6 ip)) [
      | inl refused ↦ rw (refused, from_ip_port6) (object_bytes-host_to_network order 2 port)
      | inr (address, read) ↦ rw (read, from_ip_port6) (object_bytes-host_to_network order 2 port)
    ]
    from_text-port inet_pton ip port false = elim (Option-cases (inet_pton af_inet ip)) [
      | inl refused ↦ rw (refused, from_ip_port) (object_bytes-host_to_network order 2 port)
      | inr (address, read) ↦ rw (read, from_ip_port) (object_bytes-host_to_network order 2 port)
    ]

    to_ip-from_text :
        (inet_pton : ℕ → Bytes → Option Bytes) (ip address : Bytes) (port : ℕ) (ipv6 : Bool)
        → inet_pton (if ipv6 then af_inet6 else af_inet) ip ≡ some address
        → inet_ntop (if ipv6 then af_inet6 else af_inet) address ≡ ip
        → to_ip order inet_ntop (from_text order inet_pton ip port ipv6) ≡ some ip
    unfolding from_text from_ip_port from_ip_port6 to_ip sockets_to_ip
    to_ip-from_text inet_pton ip address port true reads prints =
        rw (reads, from_ip_port6) (ap some prints)
    to_ip-from_text inet_pton ip address port false reads prints =
        rw (reads, from_ip_port) (ap some prints)

    alike :
        (a b : SockAddr) (ip : Bytes) (m : ℕ)
        → to_ip order inet_ntop a ≡ some ip
        → to_ip order inet_ntop b ≡ some ip
        → length ip ≤ 45
        → HasPort a m
        → a.port ≡ b.port
        → to_ip_port order inet_ntop a ≡ to_ip_port order inet_ntop b
    alike a b ip m e f short h ports =
        printed a ip m e short h ∙ sym (printed b ip m f short (h.0, sym ports ∙ h.1))

    same_text :
        (a b : SockAddr) (ip jp : Bytes) (m n : ℕ)
        → (to_ip order inet_ntop a ≡ some ip) × (to_ip order inet_ntop b ≡ some jp)
        → (length ip ≤ 45) × (length jp ≤ 45)
        → HasPort a m
        → HasPort b n
        → to_ip_port order inet_ntop a ≡ to_ip_port order inet_ntop b
        → (ip ≡ jp) × (m ≡ n)
    unfolding word_limit
    same_text a b ip jp m n at short h k e =
        let (left, right) =
          last_colon b':' ip jp (decimal m) (decimal n) (Without-decimal m) (Without-decimal n)
            (some_eq (sym (printed a ip m at.0 short.0 h) ∙ e ∙ printed b jp n at.1 short.1 k)) in
        (left, decimal-injective m n (omega (arith, h.0)) (omega (arith, k.0)) right)

    -- Two addresses of the same family, IPv4 or IPv6, whose ports are stored in network order, are
    -- one connection with itself for `isSelfConnect` exactly when `toIpPort` prints them alike, if
    -- inet_ntop prints short texts that tell addresses apart.
    pub is_self_connect_iff :
        (a b : SockAddr) (m n : ℕ)
        → IsPrinter
        → HasPort a m
        → HasPort b n
        → HasLengths a
        → HasLengths b
        → a.family ≡ b.family
        → (a.family ≡ af_inet) ⊎ (a.family ≡ af_inet6)
        → (is_self_connect a b ≡ true)
          ↔ (to_ip_port order inet_ntop a ≡ to_ip_port order inet_ntop b)
    is_self_connect_iff a b m n p h k v w f (inl four) = (
      (λ self.
          let (ports, ips) = (self4 a b four).0 self in
          alike a b (inet_ntop af_inet a.sin_addr) m (to_ip4 a four)
            (to_ip4 b (sym f ∙ four) ∙ ap (λ x. some (inet_ntop af_inet x)) (sym ips))
            (omega (arith, p.short4 a.sin_addr)) h ports),
      (λ e.
          let (ips, ports) =
            same_text a b _ _ m n (to_ip4 a four, to_ip4 b (sym f ∙ four))
              (omega (arith, p.short4 a.sin_addr), omega (arith, p.short4 b.sin_addr)) h k e in
          (self4 a b four).1 (
            h.1 ∙ ap (network_bytes 2) ports ∙ sym k.1,
            p.apart4 a.sin_addr b.sin_addr (v.0, w.0) ips,
          )),
    )
    is_self_connect_iff a b m n p h k v w f (inr six) = (
      (λ self.
          let (ports, ips) = (self6 a b six).0 self in
          alike a b (inet_ntop af_inet6 a.sin6_addr) m (to_ip6 a six)
            (to_ip6 b (sym f ∙ six) ∙ ap (λ x. some (inet_ntop af_inet6 x)) (sym ips))
            (p.short6 a.sin6_addr) h ports),
      (λ e.
          let (ips, ports) =
            same_text a b _ _ m n (to_ip6 a six, to_ip6 b (sym f ∙ six))
              (p.short6 a.sin6_addr, p.short6 b.sin6_addr) h k e in
          (self6 a b six).1 (
            h.1 ∙ ap (network_bytes 2) ports ∙ sym k.1,
            p.apart6 a.sin6_addr b.sin6_addr (v.1, w.1) ips,
          )),
    )

    -- An address made of a text that inet_pton reads and inet_ntop prints back, of at most 45
    -- characters, and of a port is printed by `toIp` as that text, by `toIpPort` as the text, a colon
    -- and the port, and has that port, for IPv4 and for IPv6.
    pub to_ip_port-from_text :
        (inet_pton : ℕ → Bytes → Option Bytes) (ip address : Bytes) (port : ℕ) (ipv6 : Bool)
        → inet_pton (if ipv6 then af_inet6 else af_inet) ip ≡ some address
        → inet_ntop (if ipv6 then af_inet6 else af_inet) address ≡ ip
        → length ip ≤ 45
        → port < word_limit 2
        → (to_ip order inet_ntop (from_text order inet_pton ip port ipv6) ≡ some ip)
          × (to_ip_port order inet_ntop (from_text order inet_pton ip port ipv6)
              ≡ some (ip ++ b':' ∷ decimal port))
          × (to_port order (from_text order inet_pton ip port ipv6) ≡ port)
    unfolding from_text
    to_ip_port-from_text inet_pton ip address port ipv6 reads prints short small =
        let text = to_ip-from_text inet_pton ip address port ipv6 reads prints in
        let stored = from_text-port inet_pton ip port ipv6 in
        (text, printed _ ip port text short (small, stored), to_port_lem _ port (small, stored))
