-- ===== src/Acceptor/Descriptors.antt =====
-- The descriptors that pass through polaris/src/Acceptor.cc: none is lost, and when it aborts.
use lute.InetAddress.{SockAddr, zeroed}
use lute.Sockets.{
  AcceptOutcome, accept_failed, listen_or_die, create_nonblocking_or_die, set_reuse_addr, emfile,
  set_reuse_port, bind_or_die, socket_accept,
}
use lute.Acceptor.{
  handle_read, listen, destroy, Acceptor, set_new_connection_callback, accepted_one, refuse_one,
  close_fd, take_idle, fds, construct, is_some,
}
use lute.Sockets.{accepted}
use lute.Prelude.{
  none, some, true, false, [], ◌∷◌, ◌++◌, List, ℕ, count, Bool, ◌≡◌, Option, ◌+◌, if_lem, ap,
  Whenever, Whenever_at, arith, refl, count-append, if◌then◌else◌, ◌==◌, Whenever->>=, assert,
}

abbrev pub handed_fds : List (ℕ × SockAddr) → List ℕ
handed_fds [] = []
handed_fds ((fd, peer) ∷ rest) = fd ∷ handed_fds rest

handed_fds-append :
    (fd : ℕ) (peer : SockAddr) (xs : List (ℕ × SockAddr))
    → handed_fds (xs ++ (fd, peer) ∷ []) ≡ handed_fds xs ++ fd ∷ []
handed_fds-append fd peer [] = refl
handed_fds-append fd peer ((x, p) ∷ xs) = ap (◌∷◌ x) (handed_fds-append fd peer xs)

-- Calls on an acceptor that is not destroyed.
pub data Step (a a' : Acceptor) : Type 0 where
  sets_callback : a' ≡ set_new_connection_callback a → Step a a'
  listens : (well : Bool) → listen well a ≡ some a' → Step a a'
  reads :
      (outcome : AcceptOutcome) (again reopened : Option ℕ)
      → handle_read outcome again reopened a ≡ some a'
      → Step a a'

pub data Reach (first : Acceptor) : Acceptor → Type 0 where
  start : Reach first first
  after_step : (a a' : Acceptor) → Reach first a → Step a a' → Reach first a'

-- The descriptors that the acceptor owns.
abbrev pub owned : Acceptor → List ℕ
owned a = a.accept_socket.sockfd ∷ fds a.idle_fd

-- Each descriptor the kernel gave is closed, handed on or owned, and as often as it was given.
abbrev pub Balanced : Acceptor → Type 0
Balanced a =
    (fd : ℕ)
    → count fd a.given ≡ count fd a.closed + count fd (handed_fds a.handed) + count fd (owned a)

accepted_one-Balanced :
    (connfd : ℕ) (peer : SockAddr) (a : Acceptor)
    → Balanced a
    → Balanced (accepted_one connfd peer a)
unfolding accepted_one close_fd
accepted_one-Balanced connfd peer a h =
    if_lem Balanced a.has_callback _ _
      (λ fd. omega (
        arith,
        h fd,
        count-append fd a.given (connfd ∷ []),
        ap (count fd) (handed_fds-append connfd peer a.handed),
        count-append fd (handed_fds a.handed) (connfd ∷ []),
      ))
      (λ fd. omega (
        arith,
        h fd,
        count-append fd a.given (connfd ∷ []),
        count-append fd a.closed (connfd ∷ []),
      ))

refuse_one-Balanced :
    (again reopened : Option ℕ) (a : Acceptor) → Balanced a → Balanced (refuse_one again reopened a)
unfolding refuse_one take_idle close_fd
refuse_one-Balanced again reopened a h fd = omega (
  arith,
  h fd,
  count-append fd (a.given ++ fds again) (fds reopened),
  count-append fd a.given (fds again),
  count-append fd (a.closed ++ fds a.idle_fd) (fds again),
  count-append fd a.closed (fds a.idle_fd),
  owned_count fd a.accept_socket.sockfd a.idle_fd,
  owned_count fd a.accept_socket.sockfd reopened,
)
  where
    owned_count :
        (fd sockfd : ℕ) (idle : Option ℕ)
        → count fd (sockfd ∷ fds idle) ≡ count fd (sockfd ∷ []) + count fd (fds idle)
    owned_count fd sockfd idle = count-append fd (sockfd ∷ []) (fds idle)

handle_read-Balanced :
    (outcome : AcceptOutcome) (again reopened : Option ℕ) (a : Acceptor)
    → Balanced a
    → Whenever (handle_read outcome again reopened a) Balanced
unfolding handle_read
handle_read-Balanced outcome again reopened a h =
    Whenever->>= Balanced (socket_accept outcome zeroed) _ (λ r. go r.0 r.1)
  where
    go :
        (answer : AcceptOutcome) (peer : SockAddr)
        → Whenever
            (elim answer [
              | accepted connfd addr ↦ some (accepted_one connfd peer a)
              | accept_failed errno ↦
                  some (if errno == emfile then refuse_one again reopened a else a)
            ])
            Balanced
    go (accepted connfd addr) peer = accepted_one-Balanced connfd peer a h
    go (accept_failed errno) peer =
        if_lem Balanced (errno == emfile) _ _ (refuse_one-Balanced again reopened a h) h

listen-Balanced : (well : Bool) (a : Acceptor) → Balanced a → Whenever (listen well a) Balanced
unfolding listen listen_or_die
listen-Balanced true a h = h
listen-Balanced false a h = tt

Step-Balanced : (a a' : Acceptor) → Step a a' → Balanced a → Balanced a'
unfolding set_new_connection_callback
Step-Balanced a a' (sets_callback e) h = rw e h
Step-Balanced a a' (listens well e) h = Whenever_at Balanced _ a' e (listen-Balanced well a h)
Step-Balanced a a' (reads outcome again reopened e) h =
    Whenever_at Balanced _ a' e (handle_read-Balanced outcome again reopened a h)

construct-Balanced :
    (sockfd idle : Option ℕ) (bound : Bool) (addr : SockAddr) (reuse_port : Bool)
    → Whenever (construct sockfd idle bound addr reuse_port) Balanced
unfolding construct create_nonblocking_or_die set_reuse_addr set_reuse_port bind_or_die
construct-Balanced none idle bound addr reuse_port = tt
construct-Balanced (some sockfd) idle false addr reuse_port =
    Whenever->>= Balanced (assert (is_some idle)) _ (λ _. tt)
construct-Balanced (some sockfd) idle true addr reuse_port =
    Whenever->>= Balanced (assert (is_some idle)) _ (λ _ fd. omega arith)

Reach-keeps : (first a : Acceptor) → Balanced first → Reach first a → Balanced a
Reach-keeps first a h start = h
Reach-keeps first a h (after_step b _ r step) = Step-Balanced b a step (Reach-keeps first b h r)

destroy-Balanced :
    (a : Acceptor)
    → Balanced a
    → (fd : ℕ)
    → count fd (destroy a).given
      ≡ count fd (destroy a).closed + count fd (handed_fds (destroy a).handed)
unfolding destroy close_fd
destroy-Balanced a h fd = omega (
  arith,
  h fd,
  count-append fd (a.closed ++ fds a.idle_fd) (a.accept_socket.sockfd ∷ []),
  count-append fd a.closed (fds a.idle_fd),
  count-append fd (a.accept_socket.sockfd ∷ []) (fds a.idle_fd),
)

-- Whatever accept and open answer to an acceptor, also where descriptors run out: each descriptor
-- that the kernel has given it is closed, handed to the callback, or still its own, exactly as often
-- as it was given; after the destructor each is closed or handed on.
pub Reach-Balanced :
    (sockfd idle : Option ℕ) (bound : Bool) (addr : SockAddr) (reuse_port : Bool)
    (first a : Acceptor)
    → construct sockfd idle bound addr reuse_port ≡ some first
    → Reach first a
    → Balanced a
      × ((fd : ℕ)
          → count fd (destroy a).given
            ≡ count fd (destroy a).closed + count fd (handed_fds (destroy a).handed))
Reach-Balanced sockfd idle bound addr reuse_port first a e r =
    let h =
      Reach-keeps first a
        (Whenever_at Balanced _ first e (construct-Balanced sockfd idle bound addr reuse_port)) r in
    (h, destroy-Balanced a h)
