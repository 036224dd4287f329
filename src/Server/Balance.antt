-- ===== src/Server/Balance.antt =====
-- polaris/src/TCPServer.cc: what is established is destroyed.
use lute.InetAddress.{SockAddr}
use lute.Server.{construct, destroy}
use lute.Server.Kept.{Reach-Inv, reading-started, accepting-Inv}
use lute.Server.Started.{Inv, Same, handle_read-Same, started_at}
use lute.LoopPool.{EventLoopThreadPool}
use lute.Sockets.{AcceptOutcome, accept_failed}
use lute.Server.Names.{Grown, IsShort, new_connection-Grown}
use lute.Http.Bytes.{Bytes}
use lute.Prelude.{
  ℕ, Bool, Whenever, ◌≡◌, ◌+◌, ◌∷◌, true, false, arith, [], refl, sym, assert, Whenever_bind,
  if_lem, Whenever->>=, Whenever_at, Option, not, subst, if_true, Returns-Whenever, Returns_map,
}
use lute.Server.Serving.{
  Step, Reach, sets_threads, starts, listens, accepts, removes, at_first, after_step,
}
use lute.Server.{
  start, TcpServer, destroyed_tasks, remove_connection_in_loop, has, connect_established_task,
  connection_name, connect_destroyed_task, listen_in_loop, set_threads, run_listen,
  accept_connection, after_accept,
}
use lute.LoopPool
use lute.Acceptor
use lute.Sockets.{accepted}
use lute.Server.Tally.{
  tally, tally-append, establishes, destroys, is_called, tally-erase, destroyed_tasks-destroys,
  destroyed_tasks-establishes,
}

-- A connection that was established is in the map or was told that it is destroyed.
abbrev Balanced : TcpServer → Type 0
Balanced s =
    (name : Bytes)
    → tally (establishes name) s.sent_tasks
      ≡ tally (destroys name) s.sent_tasks + tally (is_called name) s.connections

Grown-Balanced : (count : ℕ) (s s' : TcpServer) → Grown count s s' → Balanced s → Balanced s'
Grown-Balanced count s s' g h name =
    rw (g.told, g.added)
      (omega (
        arith,
        h name,
        tally-append (establishes name) s.sent_tasks ((g.loop, connect_established_task made) ∷ []),
        tally-append (destroys name) s.sent_tasks ((g.loop, connect_established_task made) ∷ []),
        tally-append (is_called name) s.connections ((made, g.loop) ∷ []),
      ))
  where
    made : Bytes
    made = connection_name s.name s.ip_port s.next_conn_id

assert_holds : (b : Bool) → Whenever (assert b) (λ u. b ≡ true)
assert_holds true = refl
assert_holds false = tt

removes-Balanced :
    (conn_name : Bytes) (loop : ℕ) (s : TcpServer)
    → Balanced s
    → Whenever (remove_connection_in_loop conn_name loop s) Balanced
unfolding remove_connection_in_loop
removes-Balanced conn_name loop s h =
    Whenever_bind Balanced (λ u. has conn_name s.connections ≡ true) _ _
      (assert_holds (has conn_name s.connections))
      (λ u there name. omega (
        arith,
        h name,
        tally-append (establishes name) s.sent_tasks
            ((loop, connect_destroyed_task conn_name) ∷ []),
        tally-append (destroys name) s.sent_tasks ((loop, connect_destroyed_task conn_name) ∷ []),
        tally-erase name conn_name s.connections there,
      ))

-- What a call leaves of the connections and the tasks.
abbrev Quiet : TcpServer → TcpServer → Type 0
Quiet s s' = (s'.sent_tasks ≡ s.sent_tasks) × (s'.connections ≡ s.connections)

Quiet-Balanced : (s s' : TcpServer) → Balanced s → Quiet s s' → Balanced s'
Quiet-Balanced s s' h (tasks, connections) name = rw (tasks, connections) (h name)

run_listen-Quiet : (well : Bool) (s : TcpServer) → Whenever (run_listen well s) (Quiet s)
unfolding run_listen
run_listen-Quiet well s = Whenever->>= _ (Acceptor.listen well s.acceptor) _ (λ a. (refl, refl))

listen_in_loop-Quiet :
    (in_loop_thread well : Bool) (s : TcpServer)
    → Whenever (listen_in_loop in_loop_thread well s) (Quiet s)
unfolding listen_in_loop
listen_in_loop-Quiet true well s = run_listen-Quiet well s
listen_in_loop-Quiet false well s = (refl, refl)

start-Quiet :
    (in_loop_thread well : Bool) (start_loop : ℕ → ℕ) (has_callback : Bool) (s : TcpServer)
    → Whenever (start in_loop_thread well start_loop has_callback s) (Quiet s)
unfolding start
start-Quiet in_loop_thread well start_loop has_callback s =
    if_lem (λ m. Whenever {A = TcpServer} m (Quiet s)) s.started _ _ (refl, refl)
      (Whenever->>= (Quiet s) {B = EventLoopThreadPool × Bool}
        (LoopPool.start in_loop_thread start_loop has_callback s.thread_pool) _
        (λ r. Whenever->>= (Quiet s) (assert (not s.acceptor.listenning)) _ (λ u.
          listen_in_loop-Quiet in_loop_thread well
            (record s { started = true; thread_pool = r.0 }))))

construct-Balanced :
    (sockfd idle : Option ℕ) (bound : Bool) (listen_addr : SockAddr) (reuse_port : Bool)
    (ip_port name : Bytes) (loop : ℕ)
    → Whenever (construct sockfd idle bound listen_addr reuse_port ip_port name loop) Balanced
unfolding construct
construct-Balanced sockfd idle bound listen_addr reuse_port ip_port name loop =
    Whenever->>= Balanced (Acceptor.construct sockfd idle bound listen_addr reuse_port) _
      (λ a n. refl)

after_accept-Balanced :
    (outcome : AcceptOutcome) (s : TcpServer)
    → s.started ≡ true
    → IsShort s.ip_port s.next_conn_id
    → Inv s
    → Balanced s
    → Whenever (after_accept outcome s.acceptor.has_callback s) Balanced
unfolding after_accept
after_accept-Balanced (accept_failed errno) s on short inv h = h
after_accept-Balanced (accepted connfd peer) s on short inv h =
    let (count, next, handed) = started_at s true on inv.0 in
    if_true (λ m. Whenever m Balanced) s.acceptor.has_callback _ _ inv.1
      (Returns-Whenever Balanced _ (
        Returns_map (Grown count s) Balanced _ (λ s' g. Grown-Balanced count s s' g h)
          (new_connection-Grown count s short inv.2 handed)))

accept_connection-Balanced :
    (outcome : AcceptOutcome) (again reopened : Option ℕ) (s : TcpServer)
    → s.acceptor.channel_reading ≡ true
    → IsShort s.ip_port s.next_conn_id
    → Inv s
    → Balanced s
    → Whenever (accept_connection outcome again reopened s) Balanced
unfolding accept_connection
accept_connection-Balanced outcome again reopened s reads short inv h =
    Whenever_bind Balanced (Same s.acceptor) _ _
      (handle_read-Same outcome again reopened s.acceptor)
      (λ a same.
        subst (λ c. Whenever (after_accept outcome c (record s { acceptor = a })) Balanced) same.2
          (after_accept-Balanced outcome (record s { acceptor = a }) on short
            (accepting-Inv s a on same inv) h))
  where
    on : s.started ≡ true
    on = reading-started s s.started reads refl inv.0

Step-Balanced : (s s' : TcpServer) → Inv s → Balanced s → Step s s' → Balanced s'
unfolding set_threads
Step-Balanced s s' inv h (sets_threads n e) = subst Balanced (sym e) h
Step-Balanced s s' inv h (starts in_loop_thread well start_loop has_callback e) =
    Quiet-Balanced s s' h
      (Whenever_at (Quiet s) _ s' e (start-Quiet in_loop_thread well start_loop has_callback s))
Step-Balanced s s' inv h (listens well queued e) =
    Quiet-Balanced s s' h (Whenever_at (Quiet s) _ s' e (run_listen-Quiet well s))
Step-Balanced s s' inv h (accepts outcome again reopened reads short e) =
    Whenever_at Balanced _ s' e
      (accept_connection-Balanced outcome again reopened s reads short inv h)
Step-Balanced s s' inv h (removes conn_name loop e) =
    Whenever_at Balanced _ s' e (removes-Balanced conn_name loop s h)

kept_balance : (s : TcpServer) → Reach s → Balanced s
kept_balance s (at_first sockfd idle bound listen_addr reuse_port ip_port name loop _ e) =
    Whenever_at Balanced _ s e
      (construct-Balanced sockfd idle bound listen_addr reuse_port ip_port name loop)
kept_balance s' (after_step s _ reached step) =
    Step-Balanced s s' (Reach-Inv s reached) (kept_balance s reached) step

-- When a server is destroyed, in whatever state it comes to from its constructor with a counter
-- within `int` and a printed address of at most 47 characters: for every name, `connectDestroyed` has
-- been sent just as often as `connectEstablished`. No connection is left without its end, and none
-- is ended twice.
pub destroy-Balanced :
    (s : TcpServer)
    → Reach s
    → (name : Bytes)
    → tally (establishes name) (destroy s).sent_tasks ≡ tally (destroys name) (destroy s).sent_tasks
unfolding destroy
destroy-Balanced s reached name = omega (
  arith,
  kept_balance s reached name,
  tally-append (establishes name) s.sent_tasks (destroyed_tasks s.connections),
  tally-append (destroys name) s.sent_tasks (destroyed_tasks s.connections),
  destroyed_tasks-establishes name s.connections,
  destroyed_tasks-destroys name s.connections,
)
