-- ===== src/Client.antt =====
-- polaris/src/TCPClient.cc and its header: a client in the thread of its loop, with its connector and
-- its one connection. The kernel's answers are arguments.
pub mod Rests
pub mod Life
pub mod Again
pub mod Names
use lute.Prelude.{
  ℕ, ◌+◌, Bool, true, false, Option, none, some, List, [], ◌∷◌, ◌++◌, ◌&&◌, take, assert, ◌>>=◌,
  ◌>>◌, ltb, length, if◌then◌else◌,
}
use lute.Http.Bytes.{Bytes, equal}
use lute.Http.Decimal.{decimal}
use lute.Connector.{Connector}
use lute.Connector
use lute.Connection.{Connection, shutdown, connect_established, force_close}

-- `connection_`: the connection of the client, with its name.
pub record Current : Type 0 where
  pub conn_name : Bytes
  pub connection : Connection

pub record TcpClient : Type 0 where
  pub name : Bytes
  pub connector : Connector
  pub retry : Bool
  pub connect_wanted : Bool
  -- An `int`: `Client.Life` counts only while it is below `2 ^ 31`.
  pub next_conn_id : ℕ
  pub current : Option Current
  -- The names of the connections whose `connectDestroyed` is queued, oldest first, and of all made.
  pub destroying : List Bytes
  pub names : List Bytes

unfoldable pub construct : Bytes → TcpClient
unfolding Connector.init
construct name = record {
  name = name;
  connector = Connector.init;
  retry = false;
  connect_wanted = true;
  next_conn_id = 1;
  current = none;
  destroying = [];
  names = [];
}

unfoldable pub enable_retry : TcpClient → TcpClient
enable_retry c = record c { retry = true }

-- `sockfd` and `errno` are what the connector's attempt meets, if it makes one.
unfoldable pub connect : ℕ → ℕ → TcpClient → Option TcpClient
unfolding Connector.start
connect sockfd errno c = do
  connector ← Connector.start sockfd errno c.connector
  some (record c { connect_wanted = true; connector = connector })

-- `if (connection_) connection_->shutdown();`
abbrev pub shut_current : Option Current → Option Current
unfolding shutdown
shut_current none = none
shut_current (some current) =
    some (record current { connection = shutdown true current.connection })

unfoldable pub disconnect : TcpClient → TcpClient
unfolding shutdown
disconnect c = record c { connect_wanted = false; current = shut_current c.current }

unfoldable pub stop : TcpClient → TcpClient
unfolding Connector.stop
stop c = record c { connect_wanted = false; connector = Connector.stop c.connector }

-- `snprintf(buf, 32, ":%s#%d", …)` keeps 31 bytes; the name of the client stands before it.
unfoldable pub client_connection_name : Bytes → Bytes → ℕ → Bytes
unfolding decimal
client_connection_name name ip_port id = name ++ take 31 (b':' ∷ (ip_port ++ b'#' ∷ decimal id))

-- `ip_port` is the peer's; `fresh` is the `TCPConnection` as it is constructed.
unfoldable pub new_connection : Bytes → Connection → TcpClient → Option TcpClient
unfolding client_connection_name connect_established
new_connection ip_port fresh c =
    let conn_name = client_connection_name c.name ip_port c.next_conn_id in
    connect_established fresh >>= λ connection. some (record c {
      next_conn_id = c.next_conn_id + 1;
      current = some (record { conn_name = conn_name; connection = connection });
      names = c.names ++ conn_name ∷ [];
    })

-- `assert(connection_ == conn)`; a connection is known by its name.
abbrev pub is_current : Bytes → Option Current → Bool
unfolding equal
is_current conn_name none = false
is_current conn_name (some current) = equal conn_name current.conn_name

unfoldable pub remove_connection : Bytes → ℕ → ℕ → TcpClient → Option TcpClient
unfolding equal Connector.restart
remove_connection conn_name sockfd errno c = do
  assert (is_current conn_name c.current)
  let gone = record c { current = none; destroying = c.destroying ++ conn_name ∷ [] }
  (if c.retry && c.connect_wanted
      then (Connector.restart sockfd errno c.connector >>= λ connector.
          some (record gone { connector = connector }))
      else some gone)

-- `newConnectionCallback_` was called.
abbrev pub handed_one : Connector → Connector → Bool
handed_one k k' = ltb (length k.handed) (length k'.handed)

-- `Connector::handleWrite`, with the callback that the constructor gave the connector.
unfoldable pub connector_writes : ℕ → Bool → Bytes → Connection → TcpClient → Option TcpClient
unfolding Connector.handle_write new_connection
connector_writes error self_connect ip_port fresh c =
    Connector.handle_write error self_connect c.connector >>= λ connector.
    (let c' = record c { connector = connector } in
      if handed_one c.connector connector then new_connection ip_port fresh c' else some c')

-- The destructor: `unique` tells that nobody else holds the connection, whose close callback is then
-- `detail::removeConnection`, so it outlives the client and is destroyed by its loop. With no
-- connection the connector is told to stop.
unfoldable pub destroy : Bool → TcpClient → Option Connection × Connector
unfolding force_close Connector.stop
destroy unique c = elim c.current [
  | some current ↦
      (some (if unique then force_close current.connection else current.connection), c.connector)
  | none ↦ (none, Connector.stop c.connector)
]
