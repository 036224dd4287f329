-- ===== src/Server/Kept.antt =====
-- polaris/src/TCPServer.cc: connections and their removal keep what holds of a server.
use lute.Acceptor.{Acceptor}
use lute.Prelude.{
  suc, [], ◌∷◌, true, false, ℕ, List, Bool, Option, ◌≡◌, refl, ◌++◌, Returns, ◌+◌, if_true, sym,
  ◌∙◌, ap, subst, arith, Whenever, Whenever->>=, if_lem, assert, Whenever_bind, Returns-some,
  Whenever_at, Returns_of_eq, Returns-Whenever, Returns_map,
}
use lute.Http.Bytes.{Bytes, equal}
use lute.Sockets.{AcceptOutcome, accepted, accept_failed}
use lute.LoopPool.{EventLoopThreadPool, get_next_loop}
use lute.LoopPool.Turns.{Handed}
use lute.Server.{
  TcpServer, new_connection, remove_connection_in_loop, accept_connection, after_accept, erase,
  connect_destroyed_task, has,
}
use lute.Server.Names.{IsShort, Named, Grown, new_connection-Grown, Named-later}
use lute.Server.Serving.{
  Step, Reach, sets_threads, starts, listens, accepts, removes, at_first, after_step,
}
use lute.Server.Started.{
  InState, Inv, same_names, started_at, Same, handle_read-Same, construct-Inv, set_threads-Inv,
  run_listen-Inv, start-Inv,
}

new_connection_keeps :
    (s : TcpServer)
    → Whenever (new_connection s) (λ s'.
      (s'.started ≡ s.started)
      × (s'.acceptor ≡ s.acceptor)
      × (s'.next_conn_id ≡ s.next_conn_id + 1))
unfolding new_connection
new_connection_keeps s =
    Whenever->>= _ {B = ℕ × EventLoopThreadPool} (get_next_loop s.thread_pool) _
      (λ r. (refl, refl, refl))

-- A new connection, of a server that was started, which is given a loop.
pub new_connection-Inv :
    (count : ℕ) (s : TcpServer)
    → s.started ≡ true
    → s.next_conn_id ≡ suc count
    → Handed count s.thread_pool
    → IsShort s.ip_port s.next_conn_id
    → s.acceptor.has_callback ≡ true
    → Named s s.connections
    → Returns (new_connection s) (λ s'. Grown count s s' × Inv s' × (s'.acceptor ≡ s.acceptor))
new_connection-Inv count s on next handed short callback named =
    let (s', e, grown) =
      Returns-some (Grown count s) (new_connection s)
        (new_connection-Grown count s short named handed) in
    let kept = Whenever_at _ (new_connection s) s' e (new_connection_keeps s) in
    Returns_of_eq _ (new_connection s) s' e (
      grown,
      (
        subst (λ b. InState b s') (sym (kept.0 ∙ on))
            (suc count, omega (arith, kept.2, next), grown.handed),
        ap (λ a. a.has_callback) kept.1 ∙ callback,
        grown.named,
      ),
      kept.1,
    )

-- A server whose acceptor reads was started.
pub reading-started :
    (s : TcpServer) (b : Bool)
    → s.acceptor.channel_reading ≡ true
    → s.started ≡ b
    → InState b s
    → s.started ≡ true
reading-started s true reads at i = at
reading-started s false reads at (_, _, _, _, quiet, _) = absurd (cc (sym quiet ∙ reads))

queued-started :
    (s : TcpServer) (b : Bool)
    → s.listen_queued ≡ true
    → s.started ≡ b
    → InState b s
    → s.started ≡ true
queued-started s true queued at i = at
queued-started s false queued at (_, _, _, _, _, none_queued) =
    absurd (cc (sym none_queued ∙ queued))

after_accept-Inv :
    (outcome : AcceptOutcome) (s : TcpServer)
    → s.started ≡ true
    → IsShort s.ip_port s.next_conn_id
    → Inv s
    → Whenever (after_accept outcome s.acceptor.has_callback s) Inv
unfolding after_accept
after_accept-Inv (accept_failed errno) s on short h = h
after_accept-Inv (accepted connfd peer) s on short h =
    let (count, next, handed) = started_at s true on h.0 in
    if_true (λ m. Whenever m Inv) s.acceptor.has_callback _ _ h.1
      (Returns-Whenever Inv _ (
        Returns_map _ Inv _ (λ s' r. r.1)
          (new_connection-Inv count s on next handed short h.1 h.2)))

-- The server while the acceptor handles what it accepted.
pub accepting-Inv :
    (s : TcpServer) (a : Acceptor)
    → s.started ≡ true
    → Same s.acceptor a
    → Inv s
    → Inv (record s { acceptor = a })
accepting-Inv s a on same (i, callback, named) =
    let r : TcpServer = record s { acceptor = a } in
    (
      subst (λ b. InState b r) (sym on) (started_at s true on i),
      same.2 ∙ callback,
      same_names s r refl refl refl named,
    )

accept_connection-Inv :
    (outcome : AcceptOutcome) (again reopened : Option ℕ) (s : TcpServer)
    → s.acceptor.channel_reading ≡ true
    → IsShort s.ip_port s.next_conn_id
    → Inv s
    → Whenever (accept_connection outcome again reopened s) Inv
unfolding accept_connection
accept_connection-Inv outcome again reopened s reads short h =
    Whenever_bind Inv (Same s.acceptor) _ _ (handle_read-Same outcome again reopened s.acceptor)
      (λ a same.
        subst (λ c. Whenever (after_accept outcome c (record s { acceptor = a })) Inv) same.2
          (after_accept-Inv outcome (record s { acceptor = a }) on short
            (accepting-Inv s a on same h)))
  where
    on : s.started ≡ true
    on = reading-started s s.started reads refl h.0

Named-erase :
    (s : TcpServer) (name : Bytes) (cs : List (Bytes × ℕ)) → Named s cs → Named s (erase name cs)
unfolding erase
Named-erase s name [] h = tt
Named-erase s name ((n, loop) ∷ rest) (h, hs) =
    if_lem (Named s) (equal name n) rest _ hs (h, Named-erase s name rest hs)

removes-Inv :
    (conn_name : Bytes) (loop : ℕ) (s : TcpServer)
    → Inv s
    → Whenever (remove_connection_in_loop conn_name loop s) Inv
unfolding remove_connection_in_loop
removes-Inv conn_name loop s (i, callback, named) =
    Whenever->>= Inv (assert (has conn_name s.connections)) _ (λ _. (
      go s.started i,
      callback,
      Named-later s (removed s) _ refl refl (omega arith)
          (Named-erase s conn_name s.connections named),
    ))
  where
    removed : TcpServer → TcpServer
    removed s = record s {
      connections = erase conn_name s.connections;
      sent_tasks = s.sent_tasks ++ (loop, connect_destroyed_task conn_name) ∷ [];
    }

    go : (b : Bool) → InState b s → InState b (removed s)
    go true i = i
    go false i = i

Step-Inv : (s s' : TcpServer) → Inv s → Step s s' → Inv s'
Step-Inv s s' h (sets_threads n e) = subst Inv (sym e) (set_threads-Inv n s h)
Step-Inv s s' h (starts in_loop_thread well start_loop has_callback e) =
    Whenever_at Inv _ s' e (start-Inv in_loop_thread well start_loop has_callback s h)
Step-Inv s s' h (listens well queued e) =
    Whenever_at Inv _ s' e (run_listen-Inv well s (queued-started s s.started queued refl h.0) h)
Step-Inv s s' h (accepts outcome again reopened reads short e) =
    Whenever_at Inv _ s' e (accept_connection-Inv outcome again reopened s reads short h)
Step-Inv s s' h (removes conn_name loop e) = Whenever_at Inv _ s' e (removes-Inv conn_name loop s h)

pub Reach-Inv : (s : TcpServer) → Reach s → Inv s
Reach-Inv s (at_first sockfd idle bound listen_addr reuse_port ip_port name loop _ e) =
    Whenever_at Inv _ s e (construct-Inv sockfd idle bound listen_addr reuse_port ip_port name loop)
Reach-Inv s' (after_step s _ reached step) = Step-Inv s s' (Reach-Inv s reached) step
