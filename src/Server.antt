-- ===== src/Server.antt =====
-- polaris/src/TCPServer.cc: a server, in the thread of the accepting loop. A connection is the number of its loop; what is passed on to that loop stands in `sent_tasks`.
pub mod Names
pub mod Serving
pub mod Started
pub mod Kept
pub mod Served
pub mod Tally
pub mod Balance
use lute.Http.Bytes.{Bytes, equal}
use lute.Http.Decimal.{decimal}
use lute.Prelude.{
  ◌>>=◌, none, some, ◌>>◌, zero, suc, [], Option, List, ℕ, ◌++◌, ◌∷◌, Bool, assert, false, take,
  if◌then◌else◌, ◌||◌, ◌+◌, true, not,
}
use lute.LoopPool.{EventLoopThreadPool, get_next_loop, set_thread_num}
use lute.LoopPool
use lute.InetAddress.{SockAddr}
use lute.Sockets.{AcceptOutcome, accepted, accept_failed}
use lute.Acceptor.{Acceptor, set_new_connection_callback}
use lute.Acceptor

-- What `runInLoop` and `queueInLoop` of a connection's loop are given.
pub data ConnectionTask : Type 0 where
  connect_established_task connect_destroyed_task : Bytes → ConnectionTask

pub record TcpServer : Type 0 where
  pub ip_port : Bytes
  pub name : Bytes
  pub thread_pool : EventLoopThreadPool
  pub next_conn_id : ℕ
  -- `connections_`: the name of each connection and the loop that it lives in.
  pub connections : List (Bytes × ℕ)
  pub sent_tasks : List (ℕ × ConnectionTask)
  pub acceptor : Acceptor
  pub started : Bool
  -- `Acceptor::listen` waits in the loop's queue.
  pub listen_queued : Bool

unfoldable pub has : Bytes → List (Bytes × ℕ) → Bool
unfolding equal
has name [] = false
has name ((n, loop) ∷ rest) = equal name n || has name rest

-- `connections_[connName] = conn`
unfoldable pub store : Bytes → ℕ → List (Bytes × ℕ) → List (Bytes × ℕ)
unfolding equal
store name loop [] = (name, loop) ∷ []
store name loop ((n, l) ∷ rest) =
    let later = (n, l) ∷ store name loop rest in if equal name n then (n, loop) ∷ rest else later

-- `connections_.erase(name)`
unfoldable pub erase : Bytes → List (Bytes × ℕ) → List (Bytes × ℕ)
unfolding equal
erase name [] = []
erase name ((n, l) ∷ rest) =
    let later = (n, l) ∷ erase name rest in if equal name n then rest else later

-- `snprintf(buf, 64, "-%s#%d", …)` keeps 63 bytes; the name of the server stands before it.
unfoldable pub connection_name : Bytes → Bytes → ℕ → Bytes
unfolding decimal
connection_name name ip_port id = name ++ take 63 (b'-' ∷ (ip_port ++ (b'#' ∷ decimal id)))

unfoldable pub new_connection : TcpServer → Option TcpServer
unfolding connection_name store get_next_loop
new_connection s = do
  (loop, thread_pool) ← get_next_loop s.thread_pool
  let conn_name = connection_name s.name s.ip_port s.next_conn_id
  some (record s {
    thread_pool = thread_pool;
    next_conn_id = s.next_conn_id + 1;
    connections = store conn_name loop s.connections;
    sent_tasks = s.sent_tasks ++ (loop, connect_established_task conn_name) ∷ [];
  })

-- `loop` is the connection's own.
unfoldable pub remove_connection_in_loop : Bytes → ℕ → TcpServer → Option TcpServer
unfolding has erase
remove_connection_in_loop conn_name loop s = do
  assert (has conn_name s.connections)
  some (record s {
    connections = erase conn_name s.connections;
    sent_tasks = s.sent_tasks ++ (loop, connect_destroyed_task conn_name) ∷ [];
  })

-- The destructor: every connection is told in its own loop.
unfoldable pub destroyed_tasks : List (Bytes × ℕ) → List (ℕ × ConnectionTask)
destroyed_tasks [] = []
destroyed_tasks ((name, loop) ∷ rest) = (loop, connect_destroyed_task name) ∷ destroyed_tasks rest

-- The constructor, on what the kernel answers to that of the acceptor; `ip_port` is the text of
-- `listen_addr`.
unfoldable pub construct :
    Option ℕ → Option ℕ → Bool → SockAddr → Bool → Bytes → Bytes → ℕ → Option TcpServer
unfolding Acceptor.construct LoopPool.init set_new_connection_callback
construct sockfd idle bound listen_addr reuse_port ip_port name loop = do
  acceptor ← Acceptor.construct sockfd idle bound listen_addr reuse_port
  some (record {
    ip_port = ip_port;
    name = name;
    thread_pool = LoopPool.init loop;
    next_conn_id = 1;
    connections = [];
    sent_tasks = [];
    acceptor = set_new_connection_callback acceptor;
    started = false;
    listen_queued = false;
  })

unfoldable pub set_threads : ℕ → TcpServer → TcpServer
unfolding set_thread_num
set_threads n s = record s { thread_pool = set_thread_num n s.thread_pool }

-- `Acceptor::listen`, called by the loop.
unfoldable pub run_listen : Bool → TcpServer → Option TcpServer
unfolding Acceptor.listen
run_listen well s = do
  acceptor ← Acceptor.listen well s.acceptor
  some (record s { acceptor = acceptor; listen_queued = false })

-- `loop_->runInLoop(…)` of it, the flag being `isInLoopThread()`.
unfoldable pub listen_in_loop : Bool → Bool → TcpServer → Option TcpServer
unfolding run_listen
listen_in_loop in_loop_thread well s =
    let at_once = run_listen well s in
    if in_loop_thread then at_once else some (record s { listen_queued = true })

unfoldable pub start : Bool → Bool → (ℕ → ℕ) → Bool → TcpServer → Option TcpServer
unfolding listen_in_loop LoopPool.start
start in_loop_thread well start_loop has_callback s =
    if s.started
    then some s
    else (LoopPool.start in_loop_thread start_loop has_callback s.thread_pool >>= λ r.
        assert (not s.acceptor.listenning)
        >> listen_in_loop in_loop_thread well (record s { started = true; thread_pool = r.0 }))

-- What the acceptor does with a connection that it has: its callback is `newConnection`.
unfoldable pub after_accept : AcceptOutcome → Bool → TcpServer → Option TcpServer
unfolding new_connection
after_accept (accepted connfd peer) has_callback s =
    if has_callback then new_connection s else some s
after_accept (accept_failed errno) has_callback s = some s

-- `Acceptor::handleRead`, with the callback.
unfoldable pub accept_connection :
    AcceptOutcome → Option ℕ → Option ℕ → TcpServer → Option TcpServer
unfolding Acceptor.handle_read after_accept
accept_connection outcome again reopened s = do
  acceptor ← Acceptor.handle_read outcome again reopened s.acceptor
  after_accept outcome s.acceptor.has_callback (record s { acceptor = acceptor })

-- The destructor, with that of the acceptor.
unfoldable pub destroy : TcpServer → TcpServer
unfolding destroyed_tasks Acceptor.destroy
destroy s = record s {
  connections = [];
  sent_tasks = s.sent_tasks ++ destroyed_tasks s.connections;
  acceptor = Acceptor.destroy s.acceptor;
}
