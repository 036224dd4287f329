-- ===== src/Tests/Lives.antt =====
-- The theorems on the lives of connections, connectors, acceptors and clients, and on addresses, at
-- concrete inputs: polaris/src/TCPConnection.cc, polaris/src/Connector.cc, polaris/src/Acceptor.cc,
-- polaris/src/TCPClient.cc and polaris/src/InetAddress.cc.
use lute.Client.Names.{client_connection_name-same}
use lute.Client.{TcpClient}
use lute.Acceptor.{Acceptor}
use lute.InetAddress.{SockAddr, zeroed, af_inet}
use lute.Prelude.{
  none, some, true, false, inr, [], ◌∷◌, ◌*◌, ◌≡◌, refl, ℕ, List, Returns, count, ◌++◌, ◌+◌, arith,
}
use lute.Client.Rests
use lute.Http.Decimal.{decimal}
use lute.Sockets
use lute.Connection
use lute.Connection.{Connection, StateE, connect_established, force_close, shutdown}
use lute.Connection.Calls
use lute.Connection.Calls.{Life, interested}
use lute.Connector
use lute.Connector.{Connector, States}
use lute.Connector.Attempts
use lute.Connector.Attempts.{Reach-places}
use lute.Connector.Sockets as Places
use lute.Acceptor
use lute.Acceptor.Descriptors
use lute.Client
use lute.Client.Life as Clients
use lute.Client.Again.{remove_connection-Trying, remove_connection-connect, Trying}
use lute.Tests.Buffers.{holding}
use lute.Http.Bytes.{codes, equal}

-- A connection that is established, and then told to shut down.
abbrev fresh : Connection
fresh = record {
  state = StateE.connecting;
  reading = false;
  channel_reading = false;
  channel_writing = false;
  registered = false;
  input = holding [];
  output = holding [];
  high_water_mark = 64 * 1024 * 1024;
  has_write_complete = false;
  has_high_water = false;
  pending = [];
  sent = [];
  shut = false;
  ups = 0;
  downs = 0;
  closes = 0;
}

abbrev established : Connection
established = record fresh {
  state = StateE.connected;
  channel_reading = true;
  registered = true;
  ups = 1;
}

abbrev leaving : Connection
leaving = record established { state = StateE.disconnecting; shut = true }

fresh-init : fresh ≡ Connection.init (holding []) (holding []) false false
unfolding Connection.init
fresh-init = refl

leaving-Reach : Calls.Reach (Connection.init (holding []) (holding []) false false) false leaving
unfolding Connection.init connect_established shutdown Connection.shutdown_in_loop
leaving-Reach =
    Calls.after_step false established leaving
      (Calls.after_step false fresh established Calls.start (Calls.establishes refl))
      (Calls.shuts true refl)

-- Its server is destroyed while it is up, and the user starts to read all the same.
abbrev destroyed : Connection
destroyed = record established {
  state = StateE.disconnected;
  channel_reading = false;
  registered = false;
  downs = 1;
}

abbrev reopened : Connection
reopened = record destroyed { channel_reading = true; reading = true; registered = true }

-- A connector that starts, and whose attempt on socket 9 is refused.
abbrev refused : Connector
refused = record {
  connect_wanted = true;
  state = States.disconnected;
  channel = none;
  retry_delay_ms = 1000;
  pending = [];
  retries = 500 ∷ [];
  closed = 9 ∷ [];
  handed = [];
}

refused-Reach : Attempts.Reach (9 ∷ []) refused
unfolding Connector.init Connector.start Connector.start_in_loop Connector.connect
    Connector.under_way Connector.worth_retrying Connector.retry Connector.close
refused-Reach =
    Attempts.after_step [] Connector.init refused Attempts.unused (Attempts.starts 9 111 refl)

Reach-places_example :
    Places.Inv refused × ((s : ℕ) → Places.places s refused ≡ Places.occurs s (9 ∷ []))
Reach-places_example = Reach-places (9 ∷ []) refused refused-Reach

-- An acceptor on descriptor 3 with the spare one 4: it takes 7, which nobody wants, and then, out of
-- descriptors, refuses one on 4 and opens 4 again.
abbrev pub listen_addr : SockAddr
listen_addr = record zeroed { family = af_inet }

abbrev pub opened : Acceptor
opened = record {
  accept_socket = record {
    sockfd = 3;
    calls = Sockets.set_option 1 2 1 ∷ Sockets.set_option 1 15 0 ∷ Sockets.bind_to listen_addr ∷ [];
  };
  channel_reading = false;
  registered = false;
  has_callback = false;
  listenning = false;
  idle_fd = some 4;
  given = 3 ∷ 4 ∷ [];
  closed = [];
  handed = [];
}

abbrev closed_one : Acceptor
closed_one = record opened { given = 3 ∷ 4 ∷ 7 ∷ []; closed = 7 ∷ [] }

abbrev refused_one : Acceptor
refused_one = record opened { given = 3 ∷ 4 ∷ 7 ∷ 4 ∷ 4 ∷ []; closed = 7 ∷ 4 ∷ 4 ∷ [] }

refused_one-Reach : Descriptors.Reach opened refused_one
unfolding Acceptor.handle_read Acceptor.accepted_one Acceptor.refuse_one Acceptor.close_fd
    Acceptor.take_idle Sockets.socket_accept Sockets.accept Sockets.expected_error
refused_one-Reach =
    Descriptors.after_step closed_one refused_one
      (Descriptors.after_step opened closed_one Descriptors.start
        (Descriptors.reads (Sockets.accepted 7 listen_addr) none none refl))
      (Descriptors.reads (Sockets.accept_failed 24) (some 4) (some 4) refl)

pub opened-construct : Acceptor.construct (some 3) (some 4) true listen_addr false ≡ some opened
unfolding Acceptor.construct Sockets.create_nonblocking_or_die Sockets.set_reuse_addr
    Sockets.set_reuse_port Sockets.bind_or_die
opened-construct = refl

Reach-Balanced_example :
    Descriptors.Balanced refused_one
    × ((fd : ℕ)
        → count fd (Acceptor.destroy refused_one).given
          ≡ count fd (Acceptor.destroy refused_one).closed
            + count fd (Descriptors.handed_fds (Acceptor.destroy refused_one).handed))
Reach-Balanced_example =
    Descriptors.Reach-Balanced (some 3) (some 4) true listen_addr false opened refused_one
      opened-construct refused_one-Reach

-- A client whose connector connects on socket 9 at once.
abbrev connecting_client : TcpClient
connecting_client = record {
  name = codes "c";
  connector = record {
    connect_wanted = true;
    state = States.connecting;
    channel = some (record { fd = 9; registered = true });
    retry_delay_ms = 500;
    pending = [];
    retries = [];
    closed = [];
    handed = [];
  };
  retry = false;
  connect_wanted = true;
  next_conn_id = 1;
  current = none;
  destroying = [];
  names = [];
}

abbrev first_name : List ℕ
first_name = codes "c:1.2.3.4:5#1"

abbrev connected_client : TcpClient
connected_client = record connecting_client {
  connector = record (connecting_client.connector) {
    state = States.connected;
    channel = some (record { fd = 9; registered = false });
    pending = Connector.reset_channel_task ∷ [];
    handed = 9 ∷ [];
  };
  next_conn_id = 2;
  current = some (record { conn_name = first_name; connection = established });
  names = first_name ∷ [];
}

-- The queued reset of the channel has run.
abbrev resting_client : TcpClient
resting_client = record connected_client {
  connector = record (connected_client.connector) { channel = none };
}

resting_client-Reach : Clients.Reach (codes "c") resting_client
unfolding Client.construct Client.connect Client.connector_writes Client.new_connection
    Client.client_connection_name Connector.init Connector.start Connector.start_in_loop
    Connector.connect Connector.under_way Connector.await_connection Connector.handle_write
    Connector.remove_and_reset_channel Connector.reset_channel connect_established decimal
resting_client-Reach =
    Clients.after_step connected_client resting_client
      (Clients.after_step connecting_client connected_client
        (Clients.after_step (Client.construct (codes "c")) connecting_client Clients.start
          (Clients.connects 9 115 refl))
        (Clients.writes 0 false (codes "1.2.3.4:5") fresh (omega arith) refl))
      (Clients.connector_steps resting_client.connector (Rests.resets refl) refl)

Reach-Inv_example : Clients.Inv resting_client
Reach-Inv_example = Clients.Reach-Inv (codes "c") resting_client resting_client-Reach

remove_connection-connect_example :
    Returns (Client.remove_connection first_name 10 0 resting_client) (λ c'.
      (c'.current ≡ none)
      × (c'.destroying ≡ first_name ∷ [])
      × (c'.connector.state ≡ States.connected)
      × (Client.connect 11 0 c' ≡ none))
unfolding equal
remove_connection-connect_example =
    remove_connection-connect first_name 10 0 11 0 (codes "c") resting_client resting_client-Reach
      refl refl

abbrev retrying_client : TcpClient
retrying_client = record resting_client { retry = true }

remove_connection-Trying_example :
    Returns (Client.remove_connection first_name 10 111 retrying_client) (λ c'.
      (c'.current ≡ none)
      × (c'.destroying ≡ retrying_client.destroying ++ first_name ∷ [])
      × Trying 10 retrying_client.connector c'.connector)
unfolding equal Connector.under_way Connector.worth_retrying
remove_connection-Trying_example =
    remove_connection-Trying first_name 10 111 retrying_client refl refl refl refl (inr refl)

client_connection_name-same_example :
    Client.client_connection_name (codes "c") (codes "2001:db8:0:0:1:2222:3333:4444:443") 1
    ≡ Client.client_connection_name (codes "c") (codes "2001:db8:0:0:1:2222:3333:4444:443") 2
client_connection_name-same_example =
    client_connection_name-same (codes "c") (codes "2001:db8:0:0:1:2222:3333:4444:443") 1 2
      (omega arith)
