-- ===== src/Server/Served.antt =====
-- polaris/src/TCPServer.cc: a connection that is accepted is served, and starting again is harmless.
use lute.Prelude.{
  some, suc, [], ◌∷◌, true, false, ℕ, Bool, Option, ◌≡◌, refl, ◌++◌, Returns, ◌%◌, Returns->>=,
  assert->>, if_true, if_false, ◌∙◌, ap, subst, length, arith, not, Bool-cases, inl, inr,
  Returns_of_eq, get_elem?, ◌-◌, Returns_map, if◌then◌else◌, none, assert, ◌>>◌, ◌>>=◌,
}
use lute.InetAddress.{SockAddr}
use lute.Sockets.{accepted, socket_accept, listen_or_die, accept}
use lute.LoopPool
use lute.LoopPool.{EventLoopThreadPool, get_next_loop}
use lute.LoopPool.Turns.{Handed, all_loops}
use lute.Acceptor.{Acceptor}
use lute.Acceptor
use lute.Server.{
  TcpServer, run_listen, accept_connection, after_accept, connection_name, has,
  connect_established_task,
}
use lute.Server.{start, listen_in_loop}
use lute.Server.Names.{IsShort, Grown}
use lute.Server.Serving.{Reach}
use lute.Server.Started.{InState, Inv, same_names, started_at, accepted_one-Same}
use lute.Server.Kept.{new_connection-Inv, reading-started, Reach-Inv}

-- What comes of a connection that accept(2) has given: the callback gets it, and the loop whose turn
-- it is, of those in use, is told to establish it under a name of its own.
abbrev pub Served : ℕ → SockAddr → TcpServer → TcpServer → Type 0
Served connfd peer s s' =
    let loops = all_loops s.thread_pool in
    let conn_name = connection_name s.name s.ip_port s.next_conn_id in
    (s'.acceptor.handed ≡ s.acceptor.handed ++ ((connfd, peer) ∷ []))
    × (has conn_name s.connections ≡ false)
    × ((loop : ℕ) × (get_elem? loops ((s.next_conn_id - 1) % length loops) ≡ some loop)
        × (s'.connections ≡ s.connections ++ ((conn_name, loop) ∷ []))
        × (s'.sent_tasks ≡ s.sent_tasks ++ ((loop, connect_established_task conn_name) ∷ [])))

handed_on :
    (connfd : ℕ) (peer : SockAddr) (a : Acceptor)
    → a.has_callback ≡ true
    → (Acceptor.accepted_one connfd peer a).handed ≡ a.handed ++ ((connfd, peer) ∷ [])
unfolding Acceptor.accepted_one
handed_on connfd peer a callback =
    if_true (λ (r : Acceptor). r.handed ≡ a.handed ++ ((connfd, peer) ∷ [])) a.has_callback _ _
      callback refl

-- In every state that a server comes to from its constructor, while its acceptor reads, the counter is
-- within `int` and the printed address within 47 characters: a connection that accept(2) gives is
-- always served. No assert fails on the way, whatever the number of threads; its name is not
-- in use, and it goes to the loop whose turn it is, counting from the first connection.
pub accept_connection-Served :
    (connfd : ℕ) (peer : SockAddr) (again reopened : Option ℕ) (s : TcpServer)
    → Reach s
    → s.acceptor.channel_reading ≡ true
    → IsShort s.ip_port s.next_conn_id
    → Returns (accept_connection (accepted connfd peer) again reopened s) (Served connfd peer s)
unfolding accept_connection after_accept Acceptor.handle_read socket_accept accept
accept_connection-Served connfd peer again reopened s reached reads short =
    if_true (λ m. Returns m (Served connfd peer s)) s.acceptor.has_callback _ _ callback
      (Returns_map _ (Served connfd peer s) _ served (
        new_connection-Inv count r on next handed short
          ((accepted_one-Same connfd peer s.acceptor).2 ∙ callback)
          (same_names s r refl refl refl (Reach-Inv s reached).2)))
  where
    callback : s.acceptor.has_callback ≡ true
    callback = (Reach-Inv s reached).1

    on : s.started ≡ true
    on = reading-started s s.started reads refl (Reach-Inv s reached).0

    running : InState true s
    running = started_at s true on (Reach-Inv s reached).0

    count : ℕ
    count = running.0

    next : s.next_conn_id ≡ suc count
    next = running.1

    handed : Handed count s.thread_pool
    handed = running.2

    r : TcpServer
    r = record s { acceptor = Acceptor.accepted_one connfd peer s.acceptor }

    before : count ≡ s.next_conn_id - 1
    before = omega (arith, next)

    served :
        (s' : TcpServer)
        → Grown count r s' × Inv s' × (s'.acceptor ≡ r.acceptor)
        → Served connfd peer s s'
    served s' (g, inv, a) = (
      ap (λ a. a.handed) a ∙ handed_on connfd peer s.acceptor callback,
      g.fresh,
      (
        g.loop,
        subst
            (λ k.
              get_elem? (all_loops s.thread_pool) (k % length (all_loops s.thread_pool))
              ≡ some g.loop)
            before g.turn,
        g.added,
        g.told,
      ),
    )

started_again :
    (in_loop_thread well : Bool) (start_loop : ℕ → ℕ) (has_callback : Bool) (s : TcpServer)
    → s.started ≡ true
    → start in_loop_thread well start_loop has_callback s ≡ some s
unfolding start
started_again in_loop_thread well start_loop has_callback s on =
    if_true (λ m. m ≡ some s) s.started _ _ on refl

-- The pool and the acceptor of a server that was not started are ready for it.
first_start :
    (start_loop : ℕ → ℕ) (has_callback : Bool) (s : TcpServer)
    → s.started ≡ false
    → InState false s
    → Returns
        (start true true start_loop has_callback s)
        (λ s'. (s'.started ≡ true) × (s'.acceptor.listenning ≡ true))
unfolding start listen_in_loop run_listen LoopPool.start Acceptor.listen listen_or_die
first_start start_loop has_callback s off i =
    if_false
      (λ m. Returns {A = TcpServer} m (λ s'. (s'.started ≡ true) × (s'.acceptor.listenning ≡ true)))
      s.started _ _ off
      (Returns->>= {A = EventLoopThreadPool × Bool} (λ r. Unit {0}) _
        (LoopPool.start true start_loop has_callback s.thread_pool) _
        (assert->> {B = EventLoopThreadPool × Bool} (λ r. Unit {0}) (not s.thread_pool.started) _
          (ap not i.0) tt)
        (λ r u. assert->> _ (not s.acceptor.listenning) _ (ap not i.3) (refl, refl)))

fails : {A : Type 0} (b : Bool) → ◌>>◌ {B = A} (assert b) none ≡ none
fails true = refl
fails false = refl

-- `assertInLoopThread` of the pool's base loop.
pool_elsewhere :
    (start_loop : ℕ → ℕ) (has_callback : Bool) (pool : EventLoopThreadPool)
    → LoopPool.start false start_loop has_callback pool ≡ none
unfolding LoopPool.start
pool_elsewhere start_loop has_callback pool = fails (not pool.started)

start_elsewhere :
    (well : Bool) (start_loop : ℕ → ℕ) (has_callback : Bool) (s : TcpServer)
    → start false well start_loop has_callback s ≡ (if s.started then some s else none)
unfolding start
start_elsewhere well start_loop has_callback s =
    ap {B = Option TcpServer} (λ m. if s.started then some s else m)
      (ap
        (λ (m : Option (EventLoopThreadPool × Bool)). m >>= λ r.
          assert (not s.acceptor.listenning)
          >> listen_in_loop false well (record s { started = true; thread_pool = r.0 }))
        (pool_elsewhere start_loop has_callback s.thread_pool))

-- In every state that a server comes to from its constructor: in its loop's thread, `start` gets
-- through where listen(2) succeeds, no assert failing, and leaves it started; calling it again, from
-- any thread, changes nothing. From another thread, the first `start` ends the program, whatever
-- the kernel answers, and any later one changes nothing.
pub start-Harmless :
    (again_in_loop again_well : Bool) (start_loop again_loop : ℕ → ℕ)
    (has_callback again_callback : Bool) (s : TcpServer)
    → Reach s
    → Returns (start true true start_loop has_callback s) (λ s'.
      (s'.started ≡ true) × (start again_in_loop again_well again_loop again_callback s' ≡ some s'))
      × (start false again_well start_loop has_callback s ≡ (if s.started then some s else none))
start-Harmless again_in_loop again_well start_loop again_loop has_callback again_callback s
      reached =
    (
      Returns_map (λ s'. s'.started ≡ true) _ _ (λ s' on. (on, again s' on)) first,
      start_elsewhere again_well start_loop has_callback s,
    )
  where
    again :
        (s' : TcpServer)
        → s'.started ≡ true
        → start again_in_loop again_well again_loop again_callback s' ≡ some s'
    again s' on = started_again again_in_loop again_well again_loop again_callback s' on

    first : Returns (start true true start_loop has_callback s) (λ s'. s'.started ≡ true)
    first = elim (Bool-cases s.started) [
      | inl on ↦ Returns_of_eq _ _ s (started_again true true start_loop has_callback s on) on
      | inr off ↦
          Returns_map (λ s'. (s'.started ≡ true) × (s'.acceptor.listenning ≡ true)) _ _
            (λ s' r. r.0)
            (first_start start_loop has_callback s off
              (started_at s false off (Reach-Inv s reached).0))
    ]
