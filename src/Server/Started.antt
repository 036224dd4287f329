-- ===== src/Server/Started.antt =====
-- polaris/src/TCPServer.cc: what holds before and after `start`, and that starting keeps it.
use native.Mathlib.Nat.{mod-eq_of_lt}
use lute.Prelude.{
  some, suc, [], ◌∷◌, true, false, ℕ, List, Bool, Option, ◌≡◌, refl, ◌<◌, if_true, if_false, sym,
  ◌∙◌, subst, length, arith, Whenever, Whenever->>=, if_lem, not, assert, if◌then◌else◌, ◌==◌,
  Whenever_bind, Bool-cases, inl, inr,
}
use lute.Http.Bytes.{Bytes}
use lute.InetAddress.{SockAddr, zeroed}
use lute.Sockets.{
  AcceptOutcome, accepted, accept_failed, create_nonblocking_or_die, emfile, socket_accept,
  listen_or_die, bind_or_die,
}
use lute.LoopPool
use lute.LoopPool.{EventLoopThreadPool, get_next_loop}
use lute.LoopPool.Turns.{Handed, all_loops}
use lute.Acceptor.{Acceptor}
use lute.Acceptor
use lute.Server.{TcpServer, set_threads, run_listen, construct}
use lute.Server.{start, listen_in_loop}
use lute.Server.Names.{Named, Named-later}

-- Before and after `start`: a server that was not started does not listen; in one that was, the
-- loops have been handed out once for each connection.
abbrev pub InState : Bool → TcpServer → Type 0
InState false s =
    (s.thread_pool.started ≡ false)
    × (s.thread_pool.next ≡ 0)
    × (s.next_conn_id ≡ 1)
    × (s.acceptor.listenning ≡ false)
    × (s.acceptor.channel_reading ≡ false)
    × (s.listen_queued ≡ false)
InState true s = (count : ℕ) × (s.next_conn_id ≡ suc count) × Handed count s.thread_pool

abbrev pub Inv : TcpServer → Type 0
Inv s = InState s.started s × (s.acceptor.has_callback ≡ true) × Named s s.connections

pub same_names :
    (s s' : TcpServer)
    → s'.name ≡ s.name
    → s'.ip_port ≡ s.ip_port
    → s'.next_conn_id ≡ s.next_conn_id
    → Named s s.connections
    → Named s' s.connections
same_names s s' n i c named = Named-later s s' s.connections n i (omega (arith, c)) named

pub started_at : (s : TcpServer) (b : Bool) → s.started ≡ b → InState s.started s → InState b s
started_at s b at i = subst (λ b. InState b s) at i

-- What the acceptor's operations leave as it was.
abbrev pub Same : Acceptor → Acceptor → Type 0
Same a a' =
    (a'.listenning ≡ a.listenning)
    × (a'.channel_reading ≡ a.channel_reading)
    × (a'.has_callback ≡ a.has_callback)

pub accepted_one-Same :
    (connfd : ℕ) (peer : SockAddr) (a : Acceptor) → Same a (Acceptor.accepted_one connfd peer a)
unfolding Acceptor.accepted_one Acceptor.close_fd
accepted_one-Same connfd peer a =
    if_lem (Same a) a.has_callback _ _ (refl, refl, refl) (refl, refl, refl)

pub handle_read-Same :
    (outcome : AcceptOutcome) (again reopened : Option ℕ) (a : Acceptor)
    → Whenever (Acceptor.handle_read outcome again reopened a) (Same a)
unfolding Acceptor.handle_read Acceptor.refuse_one Acceptor.close_fd Acceptor.take_idle
handle_read-Same outcome again reopened a =
    Whenever->>= (Same a) (socket_accept outcome zeroed) _ (λ r. go r.0 r.1)
  where
    go :
        (answer : AcceptOutcome) (peer : SockAddr)
        → Whenever
            (elim answer [
              | accepted connfd addr ↦ some (Acceptor.accepted_one connfd peer a)
              | accept_failed errno ↦
                  some (if errno == emfile then Acceptor.refuse_one again reopened a else a)
            ])
            (Same a)
    go (accepted connfd addr) peer = accepted_one-Same connfd peer a
    go (accept_failed errno) peer =
        if_lem (Same a) (errno == emfile) _ _ (refl, refl, refl) (refl, refl, refl)

-- The constructor.
pub construct-Inv :
    (sockfd idle : Option ℕ) (bound : Bool) (listen_addr : SockAddr) (reuse_port : Bool)
    (ip_port name : Bytes) (loop : ℕ)
    → Whenever (construct sockfd idle bound listen_addr reuse_port ip_port name loop) Inv
unfolding construct Acceptor.construct LoopPool.init Acceptor.set_new_connection_callback
construct-Inv sockfd idle bound listen_addr reuse_port ip_port name loop =
    Whenever_bind Inv (λ a. (a.listenning ≡ false) × (a.channel_reading ≡ false))
      (Acceptor.construct sockfd idle bound listen_addr reuse_port) _ quiet
      (λ a q. ((refl, refl, refl, q.0, q.1, refl), refl, tt))
  where
    quiet :
        Whenever
          (Acceptor.construct sockfd idle bound listen_addr reuse_port)
          (λ a. (a.listenning ≡ false) × (a.channel_reading ≡ false))
    quiet = Whenever->>= _ (create_nonblocking_or_die sockfd) _ (λ socket.
        Whenever->>= _ (assert (Acceptor.is_some idle)) _
          (λ _. Whenever->>= _ (bind_or_die bound listen_addr _) _ (λ ready. (refl, refl))))

pub set_threads-Inv : (n : ℕ) (s : TcpServer) → Inv s → Inv (set_threads n s)
unfolding set_threads LoopPool.set_thread_num
set_threads-Inv n s (i, callback, named) =
    (go s.started i, callback, same_names s (set_threads n s) refl refl refl named)
  where
    go : (b : Bool) → InState b s → InState b (set_threads n s)
    go false i = i
    go true (count, next, h) = (count, next, record { started = h.started; turn = h.turn })

all_loops_pos :
    (base_loop num_threads next : ℕ) (started : Bool) (loops : List ℕ)
    → let pool : EventLoopThreadPool = record {
      base_loop = base_loop;
      started = started;
      num_threads = num_threads;
      next = next;
      loops = loops;
    } in
      0 < length (all_loops pool)
all_loops_pos base_loop num_threads next started [] = omega arith
all_loops_pos base_loop num_threads next started (x ∷ xs) = omega arith

-- A pool that has just been started.
first-Handed : (pool : EventLoopThreadPool) → pool.started ≡ true → pool.next ≡ 0 → Handed 0 pool
first-Handed pool s n = record {
  started = s;
  turn =
      n
      ∙ sym (
          mod-eq_of_lt
            (all_loops_pos pool.base_loop pool.num_threads pool.next pool.started pool.loops));
}

listen_keeps :
    (well : Bool) (a : Acceptor)
    → Whenever (Acceptor.listen well a) (λ a'. a'.has_callback ≡ a.has_callback)
unfolding Acceptor.listen
listen_keeps well a = Whenever->>= _ (listen_or_die well a.accept_socket) _ (λ socket. refl)

pub run_listen-Inv :
    (well : Bool) (s : TcpServer) → s.started ≡ true → Inv s → Whenever (run_listen well s) Inv
unfolding run_listen
run_listen-Inv well s on (i, callback, named) =
    Whenever_bind Inv _ (Acceptor.listen well s.acceptor) _ (listen_keeps well s.acceptor)
      (λ a keeps.
        let s' : TcpServer = record s { acceptor = a; listen_queued = false } in
        (
          subst (λ b. InState b s') (sym on) (started_at s true on i),
          keeps ∙ callback,
          same_names s s' refl refl refl named,
        ))

listen_in_loop-Inv :
    (in_loop_thread well : Bool) (s : TcpServer)
    → s.started ≡ true
    → Inv s
    → Whenever (listen_in_loop in_loop_thread well s) Inv
unfolding listen_in_loop
listen_in_loop-Inv true well s on h = run_listen-Inv well s on h
listen_in_loop-Inv false well s on (i, callback, named) =
    let s' : TcpServer = record s { listen_queued = true } in
    (
      subst (λ b. InState b s') (sym on) (started_at s true on i),
      callback,
      same_names s s' refl refl refl named,
    )

started_pool :
    (in_loop_thread : Bool) (start_loop : ℕ → ℕ) (has_callback : Bool) (pool : EventLoopThreadPool)
    → pool.next ≡ 0
    → Whenever {A = EventLoopThreadPool × Bool}
        (LoopPool.start in_loop_thread start_loop has_callback pool)
        (λ r. Handed 0 r.0)
unfolding LoopPool.start
started_pool in_loop_thread start_loop has_callback pool n =
    Whenever->>= _ (assert (not pool.started)) _
      (λ _. Whenever->>= _ (assert in_loop_thread) _ (λ _. first-Handed _ refl n))

pub start-Inv :
    (in_loop_thread well : Bool) (start_loop : ℕ → ℕ) (has_callback : Bool) (s : TcpServer)
    → Inv s
    → Whenever (start in_loop_thread well start_loop has_callback s) Inv
unfolding start
start-Inv in_loop_thread well start_loop has_callback s h = elim (Bool-cases s.started) [
  | inl on ↦ if_true (λ m. Whenever m Inv) s.started _ _ on h
  | inr off ↦
      let i = started_at s false off h.0 in
      if_false (λ m. Whenever m Inv) s.started _ _ off
        (Whenever_bind Inv {B = EventLoopThreadPool × Bool} (λ r. Handed 0 r.0) _ _
          (started_pool in_loop_thread start_loop has_callback s.thread_pool i.1)
          (λ r handed. Whenever->>= Inv (assert (not s.acceptor.listenning)) _ (λ _.
            listen_in_loop-Inv in_loop_thread well (record s { started = true; thread_pool = r.0 })
              refl
              (
                (0, i.2, handed),
                h.1,
                same_names s (record s { started = true; thread_pool = r.0 }) refl refl refl h.2,
              ))))
]
