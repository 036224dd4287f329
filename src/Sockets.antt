-- ===== src/Sockets.antt =====
-- polaris/src/Sockets.cc and its header: the calls on a socket. What the kernel answers is an argument;
-- the calls that change a socket are recorded on it. A message at level FATAL ends the program.
use lute.Prelude.{
  ℕ, Bool, Option, none, some, List, [], ◌∷◌, ◌++◌, ◌==◌, ◌||◌, ◌>>=◌, ◌>>◌, assert, if◌then◌else◌,
}
use lute.InetAddress.{SockAddr, zeroed, is_self_connect}

-- setsockopt(2), bind(2), listen(2), shutdown(2) of the writing half, and close(2).
pub data Call : Type 0 where
  set_option : ℕ → ℕ → ℕ → Call
  bind_to : SockAddr → Call
  listen_on : ℕ → Call
  shut_write : Call
  closes : Call

pub record Socket : Type 0 where
  pub sockfd : ℕ
  -- Oldest first.
  pub calls : List Call

abbrev pub made : Call → Socket → Socket
made call s = record s { calls = s.calls ++ call ∷ [] }

abbrev pub sol_socket : ℕ
sol_socket = 1

abbrev pub ipproto_tcp : ℕ
ipproto_tcp = 6

abbrev pub tcp_nodelay : ℕ
tcp_nodelay = 1

abbrev pub so_reuseaddr : ℕ
so_reuseaddr = 2

abbrev pub so_keepalive : ℕ
so_keepalive = 9

abbrev pub so_reuseport : ℕ
so_reuseport = 15

abbrev pub somaxconn : ℕ
somaxconn = 4096

-- `on ? 1 : 0`
abbrev optval : Bool → ℕ
optval on = if on then 1 else 0

pub set_tcp_no_delay : Bool → Socket → Socket
set_tcp_no_delay on s = made (set_option ipproto_tcp tcp_nodelay (optval on)) s

unfoldable pub set_reuse_addr : Bool → Socket → Socket
set_reuse_addr on s = made (set_option sol_socket so_reuseaddr (optval on)) s

unfoldable pub set_reuse_port : Bool → Socket → Socket
set_reuse_port on s = made (set_option sol_socket so_reuseport (optval on)) s

unfoldable pub set_keep_alive : Bool → Socket → Socket
set_keep_alive on s = made (set_option sol_socket so_keepalive (optval on)) s

-- The functions that die take whether the call went well.
unfoldable pub create_nonblocking_or_die : Option ℕ → Option Socket
create_nonblocking_or_die none = none
create_nonblocking_or_die (some sockfd) = some (record { sockfd = sockfd; calls = [] })

unfoldable pub bind_or_die : Bool → SockAddr → Socket → Option Socket
bind_or_die well addr s = assert well >> some (made (bind_to addr) s)

unfoldable pub listen_or_die : Bool → Socket → Option Socket
listen_or_die well s = assert well >> some (made (listen_on somaxconn) s)

pub shutdown_write : Socket → Socket
shutdown_write s = made shut_write s

-- The destructor.
unfoldable pub close : Socket → Socket
close s = made closes s

pub data AcceptOutcome : Type 0 where
  accepted : ℕ → SockAddr → AcceptOutcome
  accept_failed : ℕ → AcceptOutcome

abbrev pub emfile : ℕ
emfile = 24

-- EAGAIN, ECONNABORTED, EINTR, EPROTO, EPERM and EMFILE.
unfoldable pub expected_error : ℕ → Bool
expected_error errno =
    errno == 11
    || (errno == 103 || (errno == 4 || (errno == 71 || (errno == 1 || errno == emfile))))

-- Any other error of accept4 is fatal, known to accept(2) or not.
unfoldable pub accept : AcceptOutcome → Option AcceptOutcome
unfolding expected_error
accept (accepted connfd addr) = some (accepted connfd addr)
accept (accept_failed errno) = assert (expected_error errno) >> some (accept_failed errno)

-- `Socket::accept`: what it returns, and the caller's `peeraddr`, which an error leaves as it was.
unfoldable pub socket_accept : AcceptOutcome → SockAddr → Option (AcceptOutcome × SockAddr)
unfolding accept
socket_accept outcome peer = accept outcome >>= λ answer. (elim answer [
  | accepted connfd addr ↦ some (accepted connfd addr, addr)
  | accept_failed errno ↦ some (accept_failed errno, peer)
])

-- `getSocketError`: SO_ERROR, or the errno of a getsockopt that failed.
pub data OptionOutcome : Type 0 where
  option_value : ℕ → OptionOutcome
  option_failed : ℕ → OptionOutcome

pub get_socket_error : OptionOutcome → ℕ
get_socket_error (option_value value) = value
get_socket_error (option_failed errno) = errno

-- `getLocalAddr` and `getPeerAddr`: zeros, where the kernel has no answer.
unfoldable pub get_addr : Option SockAddr → SockAddr
get_addr none = zeroed
get_addr (some addr) = addr

-- `isSelfConnect` with its two calls.
unfoldable pub socket_is_self_connect : Option SockAddr → Option SockAddr → Bool
unfolding get_addr is_self_connect
socket_is_self_connect local peer = is_self_connect (get_addr local) (get_addr peer)
