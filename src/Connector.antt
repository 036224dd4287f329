-- ===== src/Connector.antt =====
-- polaris/src/Connector.cc and its header: connecting to a server, in the thread of the loop. The
-- kernel's answers are arguments; what is queued, timed and called stands in the state.
pub mod Sockets
pub mod Attempts
use lute.Prelude.{
  none, some, ◌>>◌, zero, suc, Bool, ℕ, false, Option, [], ◌*◌, if◌then◌else◌, ◌++◌, assert, true,
  List, ◌==◌, ◌∷◌, ◌||◌, ◌>>=◌, not, min,
}

pub data States : Type 0 where
  disconnected connecting connected : States

-- Functors that `queueInLoop` keeps.
pub data Task : Type 0 where
  stop_in_loop_task reset_channel_task : Task

-- The channel: its socket, and whether the poller still has it.
pub record ConnectorChannel : Type 0 where
  pub fd : ℕ
  pub registered : Bool

pub record Connector : Type 0 where
  pub connect_wanted : Bool
  pub state : States
  pub channel : Option ConnectorChannel
  pub retry_delay_ms : ℕ
  pub pending : List Task
  -- The delays of the timers that call `startInLoop`, oldest first.
  pub retries : List ℕ
  -- The sockets that were closed, and those handed to `newConnectionCallback_`.
  pub closed : List ℕ
  pub handed : List ℕ

abbrev pub max_retry_delay_ms : ℕ
max_retry_delay_ms = 30 * 1000

abbrev pub init_retry_delay_ms : ℕ
init_retry_delay_ms = 500

unfoldable pub init : Connector
init = record {
  connect_wanted = false;
  state = States.disconnected;
  channel = none;
  retry_delay_ms = init_retry_delay_ms;
  pending = [];
  retries = [];
  closed = [];
  handed = [];
}

abbrev pub is_disconnected : States → Bool
is_disconnected States.disconnected = true
is_disconnected States.connecting = false
is_disconnected States.connected = false

abbrev pub is_connecting : States → Bool
is_connecting States.connecting = true
is_connecting States.disconnected = false
is_connecting States.connected = false

unfoldable pub close : ℕ → Connector → Connector
close sockfd c = record c { closed = c.closed ++ sockfd ∷ [] }

unfoldable pub retry : ℕ → Connector → Connector
unfolding close
retry sockfd c =
    let idle = record (close sockfd c) { state = States.disconnected } in
    if c.connect_wanted
    then record idle {
      retries = c.retries ++ c.retry_delay_ms ∷ [];
      retry_delay_ms = min (c.retry_delay_ms * 2) max_retry_delay_ms;
    }
    else idle

abbrev no_channel : Option ConnectorChannel → Bool
no_channel none = true
no_channel (some channel) = false

unfoldable pub await_connection : ℕ → Connector → Option Connector
await_connection sockfd c =
    assert (no_channel c.channel)
    >> some (record c {
      state = States.connecting;
      channel = some (record { fd = sockfd; registered = true });
    })

-- The three groups of `errno` after connect(2): 0, EINPROGRESS, EINTR and EISCONN; EAGAIN,
-- EADDRINUSE, EADDRNOTAVAIL, ECONNREFUSED and ENETUNREACH; all else.
unfoldable pub under_way : ℕ → Bool
under_way errno = errno == 0 || (errno == 115 || (errno == 4 || errno == 106))

unfoldable pub worth_retrying : ℕ → Bool
worth_retrying errno =
    errno == 11 || (errno == 98 || (errno == 99 || (errno == 111 || errno == 101)))

unfoldable pub connect : ℕ → ℕ → Connector → Option Connector
unfolding await_connection retry close under_way worth_retrying
connect sockfd errno c =
    if under_way errno
    then await_connection sockfd c
    else if worth_retrying errno
    then some (retry sockfd c)
    else some (close sockfd c)

unfoldable pub start_in_loop : ℕ → ℕ → Connector → Option Connector
unfolding connect
start_in_loop sockfd errno c =
    assert (is_disconnected c.state)
    >> (if c.connect_wanted then connect sockfd errno c else some c)

unfoldable pub start : ℕ → ℕ → Connector → Option Connector
unfolding start_in_loop
start sockfd errno c = start_in_loop sockfd errno (record c { connect_wanted = true })

unfoldable pub restart : ℕ → ℕ → Connector → Option Connector
unfolding start_in_loop
restart sockfd errno c = start_in_loop sockfd errno (record c {
  state = States.disconnected;
  retry_delay_ms = init_retry_delay_ms;
  connect_wanted = true;
})

unfoldable pub stop : Connector → Connector
stop c = record c { connect_wanted = false; pending = c.pending ++ stop_in_loop_task ∷ [] }

-- `disableAll`, `remove` and the queued reset; the channel's socket is returned.
unfoldable pub remove_and_reset_channel : Connector → Option (ℕ × Connector)
remove_and_reset_channel c = elim c.channel [
  | none ↦ none
  | some channel ↦ some (
    channel.fd,
    record c {
      channel = some (record channel { registered = false });
      pending = c.pending ++ reset_channel_task ∷ [];
    },
  )
]

-- `channel_.reset()`: the destructor asserts that the poller no longer has the channel.
unfoldable pub reset_channel : Connector → Option Connector
reset_channel c = elim c.channel [
  | none ↦ some c
  | some channel ↦ assert (not channel.registered) >> some (record c { channel = none })
]

unfoldable pub stop_in_loop : Connector → Option Connector
unfolding remove_and_reset_channel retry
stop_in_loop c =
    if is_connecting c.state
    then (remove_and_reset_channel (record c { state = States.disconnected }) >>= λ (sockfd, c').
        some (retry sockfd c'))
    else some c

-- `error` is SO_ERROR of the socket, and `self_connect` what `isSelfConnect` found.
unfoldable pub handle_write : ℕ → Bool → Connector → Option Connector
unfolding remove_and_reset_channel retry close
handle_write error self_connect c =
    if is_connecting c.state
    then (remove_and_reset_channel c >>= λ (sockfd, c'). some (
        if not (error == 0)
        then retry sockfd c'
        else if self_connect
        then retry sockfd c'
        else if c.connect_wanted
        then record c' { state = States.connected; handed = c'.handed ++ sockfd ∷ [] }
        else close sockfd (record c' { state = States.connected })))
    else assert (is_disconnected c.state) >> some c

unfoldable pub handle_error : Connector → Option Connector
unfolding remove_and_reset_channel retry
handle_error c =
    if is_connecting c.state
    then (remove_and_reset_channel c >>= λ (sockfd, c'). some (retry sockfd c'))
    else some c
