-- ===== src/Tests/Servers.antt =====
-- The theorems on starting a server and accepting, polaris/src/TCPServer.cc, at a concrete input.
use lute.Prelude.{some, none, true, false, ◌≡◌, refl, ◌+◌, ◌∷◌, [], Returns, arith, if◌then◌else◌}
use lute.Acceptor
use lute.Sockets
use lute.LoopPool
use lute.Server.{TcpServer, construct, accept_connection, set_threads}
use lute.Server.{start}
use lute.Server
use lute.Server.Serving.{Reach, at_first, after_step, sets_threads, starts}
use lute.Server.Served.{Served, accept_connection-Served, start-Harmless}
use lute.Sockets.{accepted}
use lute.Server.Balance.{destroy-Balanced}
use lute.Server.Tally.{tally, establishes, destroys}
use lute.Http.Bytes.{Bytes}
use lute.Server.Serving.{accepts}
use lute.Server.{connect_established_task}
use lute.LoopPool.{get_next_loop}
use lute.Tests.Lives.{opened, listen_addr}
use lute.Http.Bytes.{codes}

-- A server with three threads, before and after its `start`.
abbrev built : TcpServer
built = record {
  ip_port = codes "127.0.0.1:8080";
  name = codes "echo";
  thread_pool = LoopPool.init 1;
  next_conn_id = 1;
  connections = [];
  sent_tasks = [];
  acceptor = Acceptor.set_new_connection_callback opened;
  started = false;
  listen_queued = false;
}

abbrev serving : TcpServer
serving = record built {
  thread_pool = record {
    base_loop = 1;
    started = true;
    num_threads = 3;
    next = 0;
    loops = 10 ∷ 11 ∷ 12 ∷ [];
  };
  acceptor = record opened {
    has_callback = true;
    listenning = true;
    channel_reading = true;
    registered = true;
    accept_socket = Sockets.made (Sockets.listen_on Sockets.somaxconn) opened.accept_socket;
  };
  started = true;
}

built-Reach : Reach built
unfolding construct Acceptor.construct Sockets.create_nonblocking_or_die Sockets.set_reuse_addr
    Sockets.set_reuse_port Sockets.bind_or_die
built-Reach =
    at_first (some 3) (some 4) true listen_addr false (codes "127.0.0.1:8080") (codes "echo") 1
      built refl

serving-Reach : Reach serving
unfolding set_threads LoopPool.set_thread_num start Server.listen_in_loop Server.run_listen
    Acceptor.listen Sockets.listen_or_die LoopPool.start LoopPool.init LoopPool.start_loops
    Acceptor.set_new_connection_callback
serving-Reach =
    after_step (set_threads 3 built) serving (after_step built _ built-Reach (sets_threads 3 refl))
      (starts true true (λ i. 10 + i) false refl)

accept_connection-Served_example :
    Returns
      (accept_connection (accepted 7 listen_addr) none none serving)
      (Served 7 listen_addr serving)
accept_connection-Served_example =
    accept_connection-Served 7 listen_addr none none serving serving-Reach refl
      (omega arith, omega arith)

start-Harmless_example :
    Returns
      (start true true (λ i. 10 + i) false built)
      (λ s'. (s'.started ≡ true) × (start false true (λ i. 10 + i) false s' ≡ some s'))
    × (start false true (λ i. 10 + i) false built ≡ (if built.started then some built else none))
start-Harmless_example =
    start-Harmless false true (λ i. 10 + i) (λ i. 10 + i) false false built built-Reach

-- The server with its first connection.
abbrev first_name : Bytes
first_name = codes "echo-127.0.0.1:8080#1"

abbrev busy : TcpServer
busy = record serving {
  thread_pool = record serving.thread_pool { next = 1 };
  next_conn_id = 2;
  connections = (first_name, 10) ∷ [];
  sent_tasks = (10, connect_established_task first_name) ∷ [];
  acceptor = record serving.acceptor { given = 3 ∷ 4 ∷ 7 ∷ []; handed = (7, listen_addr) ∷ [] };
}

busy-Reach : Reach busy
unfolding accept_connection Server.after_accept Server.new_connection Server.connection_name
    Server.store get_next_loop Acceptor.handle_read Acceptor.accepted_one Sockets.socket_accept
    Sockets.accept
busy-Reach =
    after_step serving busy serving-Reach
      (accepts (accepted 7 listen_addr) none none refl (omega arith, omega arith) refl)

destroy-Balanced_example :
    tally (establishes first_name) (Server.destroy busy).sent_tasks
    ≡ tally (destroys first_name) (Server.destroy busy).sent_tasks
destroy-Balanced_example = destroy-Balanced busy busy-Reach first_name
