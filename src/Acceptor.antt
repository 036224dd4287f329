-- ===== src/Acceptor.antt =====
-- polaris/src/Acceptor.cc and its header: the listening socket of a server. The kernel's answers are
-- arguments, -1 for a descriptor being `none`.
pub mod Descriptors
use lute.Prelude.{
  ℕ, ◌+◌, Bool, true, false, Option, none, some, List, [], ◌∷◌, ◌++◌, ◌==◌, ◌>>=◌, ◌>>◌, map,
  assert, if◌then◌else◌,
}
use lute.InetAddress.{SockAddr, zeroed}
use lute.Sockets.{
  Socket, AcceptOutcome, accepted, accept_failed, emfile, create_nonblocking_or_die, set_reuse_addr,
  set_reuse_port, bind_or_die, listen_or_die, socket_accept,
}
use lute.Sockets

pub record Acceptor : Type 0 where
  pub accept_socket : Socket
  -- The channel: whether it reads, and whether the poller has it.
  pub channel_reading : Bool
  pub registered : Bool
  pub has_callback : Bool
  pub listenning : Bool
  pub idle_fd : Option ℕ
  -- The descriptors that the kernel gave out, those closed, and those handed to
  -- `newConnectionCallback_` with their peer, oldest first.
  pub given : List ℕ
  pub closed : List ℕ
  pub handed : List (ℕ × SockAddr)

abbrev pub fds : Option ℕ → List ℕ
fds none = []
fds (some fd) = fd ∷ []

abbrev pub is_some : Option ℕ → Bool
is_some none = false
is_some (some fd) = true

-- close(2) of -1 does nothing.
unfoldable pub close_fd : Option ℕ → Acceptor → Acceptor
close_fd fd a = record a { closed = a.closed ++ fds fd }

-- open(2) or accept(2) into `idleFd_`.
unfoldable pub take_idle : Option ℕ → Acceptor → Acceptor
take_idle fd a = record a { idle_fd = fd; given = a.given ++ fds fd }

-- The constructor, on what socket(2), open(2) and bind(2) answer.
unfoldable pub construct : Option ℕ → Option ℕ → Bool → SockAddr → Bool → Option Acceptor
unfolding create_nonblocking_or_die set_reuse_addr set_reuse_port bind_or_die
construct sockfd idle bound listen_addr reuse_port = do
  socket ← create_nonblocking_or_die sockfd
  assert (is_some idle)
  ready ← bind_or_die bound listen_addr (set_reuse_port reuse_port (set_reuse_addr true socket))
  some (record {
    accept_socket = ready;
    channel_reading = false;
    registered = false;
    has_callback = false;
    listenning = false;
    idle_fd = idle;
    given = socket.sockfd ∷ fds idle;
    closed = [];
    handed = [];
  })

unfoldable pub set_new_connection_callback : Acceptor → Acceptor
set_new_connection_callback a = record a { has_callback = true }

unfoldable pub listen : Bool → Acceptor → Option Acceptor
unfolding listen_or_die
listen well a = do
  socket ← listen_or_die well a.accept_socket
  some (record a {
    listenning = true;
    accept_socket = socket;
    channel_reading = true;
    registered = true;
  })

-- The connection goes to the callback, or is closed.
unfoldable pub accepted_one : ℕ → SockAddr → Acceptor → Acceptor
unfolding close_fd
accepted_one connfd peer a =
    let told = record a { given = a.given ++ connfd ∷ [] } in
    if a.has_callback
    then record told { handed = a.handed ++ (connfd, peer) ∷ [] }
    else close_fd (some connfd) told

-- With no descriptor left, the spare one makes room to accept the connection and close it.
unfoldable pub refuse_one : Option ℕ → Option ℕ → Acceptor → Acceptor
unfolding close_fd take_idle
refuse_one again reopened a =
    let room = take_idle again (close_fd a.idle_fd a) in take_idle reopened (close_fd again room)

-- `handleRead`, on what the accept4 of the socket answers, then the accept(2) and the open(2) that
-- follow an EMFILE.
unfoldable pub handle_read : AcceptOutcome → Option ℕ → Option ℕ → Acceptor → Option Acceptor
unfolding socket_accept accepted_one refuse_one
handle_read outcome again reopened a = socket_accept outcome zeroed >>= λ r. (elim r.0 [
  | accepted connfd addr ↦ some (accepted_one connfd r.1 a)
  | accept_failed errno ↦ some (if errno == emfile then refuse_one again reopened a else a)
])

-- The destructor, with that of the socket. `disableAll` leaves no events for the `assert` of
-- `remove`, and gives the channel to a poller that did not have it.
unfoldable pub destroy : Acceptor → Acceptor
unfolding close_fd Sockets.close
destroy a =
    let off = record a { channel_reading = false; registered = false } in
    let closed = close_fd off.idle_fd off in
    record (close_fd (some a.accept_socket.sockfd) closed) {
      accept_socket = Sockets.close a.accept_socket;
      idle_fd = none;
    }
