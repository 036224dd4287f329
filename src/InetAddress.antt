-- ===== src/InetAddress.antt =====
-- polaris/src/InetAddress.cc, its header, and the functions on addresses of polaris/src/Sockets.cc.
-- The byte order of the host, inet_ntop, inet_pton and gethostbyname_r are parameters.
pub mod Printed
use lute.Prelude.{
  ℕ, suc, ◌+◌, ◌-◌, ◌≡◌, Bool, true, false, Option, none, some, ◌∷◌, [], ◌++◌, ◌==◌, ◌&&◌, leb, ltb,
  length, take, drop, replicate, assert, ◌>>=◌, ◌>>◌, if◌then◌else◌,
}
use lute.Buffer.Words.{ByteOrder, object_bytes, object_value, host_to_network, network_to_host}
use lute.Http.Bytes.{Bytes, equal}
use lute.Http.Decimal.{decimal}

abbrev pub af_inet : ℕ
af_inet = 2

abbrev pub af_inet6 : ℕ
af_inet6 = 10

-- The 28 bytes of the union of `sockaddr_in` and `sockaddr_in6`, by offset: the family, the port at
-- 2, at 4 `sin_addr` or the flow label, at 8 the IPv6 address and at 24 its scope.
pub record SockAddr : Type 0 where
  pub family : ℕ
  pub port : Bytes
  pub sin_addr : Bytes
  pub sin6_addr : Bytes
  pub scope_id : Bytes

-- `memZero` of all 28 bytes, and of the 16 of a `sockaddr_in`.
abbrev pub zeroed : SockAddr
zeroed = record {
  family = 0;
  port = replicate 2 0;
  sin_addr = replicate 4 0;
  sin6_addr = replicate 16 0;
  scope_id = replicate 4 0;
}

unfoldable pub zero_in : SockAddr → SockAddr
zero_in a = record zeroed { sin6_addr = replicate 8 0 ++ drop 8 a.sin6_addr; scope_id = a.scope_id }

abbrev inaddr_loopback : ℕ
inaddr_loopback = 2130706433

abbrev in6addr_loopback : Bytes
in6addr_loopback = replicate 15 0 ++ 1 ∷ []

module _ (order : ByteOrder) where
  -- A word of `k` bytes as `hostToNetwork16` or `hostToNetwork32` stores it.
  unfoldable pub network_object : ℕ → ℕ → Bytes
  unfolding object_bytes host_to_network
  network_object k n = object_bytes order k (host_to_network order k n)

  -- `InetAddress(port, loopbackOnly, ipv6)`, in memory that held `a`.
  unfoldable pub listening : ℕ → Bool → Bool → SockAddr → SockAddr
  unfolding network_object zero_in
  listening port loopback_only true a = record zeroed {
    family = af_inet6;
    sin6_addr = if loopback_only then in6addr_loopback else replicate 16 0;
    port = network_object 2 port;
  }
  listening port loopback_only false a = record (zero_in a) {
    family = af_inet;
    sin_addr = network_object 4 (if loopback_only then inaddr_loopback else 0);
    port = network_object 2 port;
  }

  -- `portNetEndian` and `toPort`.
  unfoldable pub port_net_endian : SockAddr → ℕ
  unfolding object_value
  port_net_endian a = object_value order a.port

  unfoldable pub to_port : SockAddr → ℕ
  unfolding port_net_endian network_to_host
  to_port a = network_to_host order 2 (port_net_endian a)

  unfoldable pub ip_net_endian : SockAddr → Option ℕ
  unfolding object_value
  ip_net_endian a = assert (a.family == af_inet) >> some (object_value order a.sin_addr)

  unfoldable pub set_scope_id : ℕ → SockAddr → SockAddr
  unfolding object_bytes
  set_scope_id scope a =
      if a.family == af_inet6 then record a { scope_id = object_bytes order 4 scope } else a

  module _ (inet_pton : ℕ → Bytes → Option Bytes) where
    -- The two `fromIpPort`: an address that inet_pton refuses is logged and left as it was.
    unfoldable pub from_ip_port : Bytes → ℕ → SockAddr → SockAddr
    unfolding network_object
    from_ip_port ip port a =
        let named = record a { family = af_inet; port = network_object 2 port } in
        elim (inet_pton af_inet ip) [
          | some address ↦ record named { sin_addr = address }
          | none ↦ named
        ]

    unfoldable pub from_ip_port6 : Bytes → ℕ → SockAddr → SockAddr
    unfolding network_object
    from_ip_port6 ip port a =
        let named = record a { family = af_inet6; port = network_object 2 port } in
        elim (inet_pton af_inet6 ip) [
          | some address ↦ record named { sin6_addr = address }
          | none ↦ named
        ]

    -- `InetAddress(ip, port, ipv6)`
    unfoldable pub from_text : Bytes → ℕ → Bool → SockAddr
    unfolding from_ip_port from_ip_port6
    from_text ip port true = from_ip_port6 ip port zeroed
    from_text ip port false = from_ip_port ip port zeroed

  module _ (inet_ntop : ℕ → Bytes → Bytes) where
    -- `sockets::toIp` into a buffer of `size` bytes that holds the empty string.
    unfoldable pub sockets_to_ip : ℕ → SockAddr → Option Bytes
    sockets_to_ip size a =
        if a.family == af_inet
        then assert (leb 16 size) >> some (inet_ntop af_inet a.sin_addr)
        else if a.family == af_inet6
        then assert (leb 46 size) >> some (inet_ntop af_inet6 a.sin6_addr)
        else some []

    -- `snprintf` has room for `size - end - 1` characters.
    unfoldable pub sockets_to_ip_port : ℕ → SockAddr → Option Bytes
    unfolding sockets_to_ip to_port decimal
    sockets_to_ip_port size a = do
      ip ← sockets_to_ip size a
      assert (ltb (length ip) size)
      some (ip ++ take (size - length ip - 1) (b':' ∷ decimal (to_port a)))

    unfoldable pub to_ip : SockAddr → Option Bytes
    unfolding sockets_to_ip
    to_ip a = sockets_to_ip 64 a

    unfoldable pub to_ip_port : SockAddr → Option Bytes
    unfolding sockets_to_ip_port
    to_ip_port a = sockets_to_ip_port 64 a

-- `isSelfConnect`, on what `getLocalAddr` and `getPeerAddr` answer.
unfoldable pub is_self_connect : SockAddr → SockAddr → Bool
unfolding equal
is_self_connect local peer =
    if local.family == af_inet
    then equal local.port peer.port && equal local.sin_addr peer.sin_addr
    else if local.family == af_inet6
    then equal local.port peer.port && equal local.sin6_addr peer.sin6_addr
    else false

-- What gethostbyname_r found: its return value is 0 and the entry is not null, with the type and the
-- length of the address; or the return value, with no entry.
pub data HostEntry : Type 0 where
  host : ℕ → ℕ → Bytes → HostEntry
  no_host : ℕ → HostEntry

-- The flag, and the address, of which nothing but `sin_addr` changes.
unfoldable pub resolve : HostEntry → SockAddr → Option (Bool × SockAddr)
resolve (host kind len address) out =
    assert (kind == af_inet && len == 4) >> some (true, record out { sin_addr = take 4 address })
resolve (no_host ret) out = some (false, out)
