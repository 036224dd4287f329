-- ===== src/Server/Serving.antt =====
-- polaris/src/TCPServer.cc: all that a server goes through, as steps.
use lute.Prelude.{some, true, ℕ, Bool, Option, ◌≡◌}
use lute.Http.Bytes.{Bytes}
use lute.InetAddress.{SockAddr}
use lute.Sockets.{AcceptOutcome}
use lute.Server.{
  TcpServer, remove_connection_in_loop, set_threads, run_listen, accept_connection, construct,
}
use lute.Server.{start}
use lute.Server.Names.{IsShort}

-- One call by the user, the loop or a connection. The poller calls a channel that reads; the counter
-- stays within `int` and the printed address within its 47 characters.
pub data Step (s s' : TcpServer) : Type 0 where
  sets_threads : (n : ℕ) → s' ≡ set_threads n s → Step s s'
  starts :
      (in_loop_thread well : Bool) (start_loop : ℕ → ℕ) (has_callback : Bool)
      → start in_loop_thread well start_loop has_callback s ≡ some s'
      → Step s s'
  listens : (well : Bool) → s.listen_queued ≡ true → run_listen well s ≡ some s' → Step s s'
  accepts :
      (outcome : AcceptOutcome) (again reopened : Option ℕ)
      → s.acceptor.channel_reading ≡ true
      → IsShort s.ip_port s.next_conn_id
      → accept_connection outcome again reopened s ≡ some s'
      → Step s s'
  removes :
      (conn_name : Bytes) (loop : ℕ)
      → remove_connection_in_loop conn_name loop s ≡ some s'
      → Step s s'

-- From the constructor on.
pub data Reach : TcpServer → Type 0 where
  at_first :
      (sockfd idle : Option ℕ) (bound : Bool) (listen_addr : SockAddr) (reuse_port : Bool)
      (ip_port name : Bytes) (loop : ℕ) (s : TcpServer)
      → construct sockfd idle bound listen_addr reuse_port ip_port name loop ≡ some s
      → Reach s
  after_step : (s s' : TcpServer) → Reach s → Step s s' → Reach s'
