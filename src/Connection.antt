-- ===== src/Connection.antt =====
-- polaris/src/TCPConnection.cc: a connection in the thread of its loop. The kernel's answers are
-- arguments; what is queued for the loop stands in `pending`, oldest first, and the user's
-- callbacks are counted.
pub mod Stream
pub mod Drained
pub mod Calls
pub mod Told
pub mod Life
use lute.Prelude.{
  Option, if◌then◌else◌, ℕ, ◌++◌, Bool, List, false, ◌+◌, ◌>>=◌, ◌||◌, ltb, some, ◌*◌, not, ◌∷◌,
  take, true, ◌&&◌, [], length, ◌==◌, ◌%◌, ◌-◌, ◌^◌, drop, leb, assert,
}
use lute.Buffer.{Buffer, contents, append, retrieve, readable_bytes, retrieve_all}
use lute.Prelude.{◌>>◌}
use lute.Buffer.ReadFd.{ReadOutcome, failed, received, read_fd}

pub data StateE : Type 0 where
  disconnected connecting connected disconnecting : StateE

-- What `queueInLoop` and `runInLoop` bind to a connection.
pub data Task : Type 0 where
  send_task : List ℕ → Task
  shutdown_task : Task
  force_close_task : Task
  write_complete_task : Task
  high_water_task : ℕ → Task

pub record Connection : Type 0 where
  pub state : StateE
  pub reading : Bool
  -- The two bits of the channel's `events_`, and whether the poller has the channel.
  pub channel_reading : Bool
  pub channel_writing : Bool
  pub registered : Bool
  pub input : Buffer
  pub output : Buffer
  pub high_water_mark : ℕ
  pub has_write_complete : Bool
  pub has_high_water : Bool
  pub pending : List Task
  -- The bytes the kernel has taken, and whether the writing half is shut.
  pub sent : List ℕ
  pub shut : Bool
  -- How often the connection went up and down by its callback, and the close callback was called.
  pub ups : ℕ
  pub downs : ℕ
  pub closes : ℕ

-- write(2): the number of bytes taken, or errno.
pub data WriteOutcome : Type 0 where
  wrote : ℕ → WriteOutcome
  write_failed : ℕ → WriteOutcome

abbrev pub ewouldblock : ℕ
ewouldblock = 11

abbrev pub epipe : ℕ
epipe = 32

abbrev pub econnreset : ℕ
econnreset = 104

unfoldable pub init : Buffer → Buffer → Bool → Bool → Connection
init input output has_write_complete has_high_water = record {
  state = StateE.connecting;
  reading = false;
  channel_reading = false;
  channel_writing = false;
  registered = false;
  input = input;
  output = output;
  high_water_mark = 64 * 1024 * 1024;
  has_write_complete = has_write_complete;
  has_high_water = has_high_water;
  pending = [];
  sent = [];
  shut = false;
  ups = 0;
  downs = 0;
  closes = 0;
}

abbrev pub is_disconnected : StateE → Bool
is_disconnected StateE.disconnected = true
is_disconnected StateE.connecting = false
is_disconnected StateE.connected = false
is_disconnected StateE.disconnecting = false

abbrev pub is_connecting : StateE → Bool
is_connecting StateE.disconnected = false
is_connecting StateE.connecting = true
is_connecting StateE.connected = false
is_connecting StateE.disconnecting = false

abbrev pub is_connected : StateE → Bool
is_connected StateE.disconnected = false
is_connected StateE.connecting = false
is_connected StateE.connected = true
is_connected StateE.disconnecting = false

abbrev pub is_disconnecting : StateE → Bool
is_disconnecting StateE.disconnected = false
is_disconnecting StateE.connecting = false
is_disconnecting StateE.connected = false
is_disconnecting StateE.disconnecting = true

-- `queueInLoop`
abbrev pub queue : Task → Connection → Connection
queue t c = record c { pending = c.pending ++ t ∷ [] }

-- `if (writeCompleteCallback_) loop_->queueInLoop(…)`
abbrev write_completed : Connection → Connection
write_completed c = if c.has_write_complete then queue write_complete_task c else c

-- The second half of `sendInLoop`: what the kernel did not take goes to the output buffer.
unfoldable pub buffer_rest : List ℕ → Connection → Option Connection
buffer_rest rest c = do
  let old_len = readable_bytes c.output
  let total = (old_len + length rest) % 2 ^ 64
  let marked =
      if leb c.high_water_mark total && (ltb old_len c.high_water_mark && c.has_high_water)
      then queue (high_water_task total) c
      else c
  output ← append rest c.output
  some (record marked {
    output = output;
    channel_writing = true;
    registered = if c.channel_writing then c.registered else true;
  })

-- `write` on an idle channel: the connection after it, the bytes that remain, and `faultError`.
unfoldable pub direct_write : List ℕ → WriteOutcome → Connection → Connection × List ℕ × Bool
direct_write message (wrote n) c =
    let taken = record c { sent = c.sent ++ take n message } in
    let remaining = length message - n in
    (if remaining == 0 then write_completed taken else taken, drop n message, false)
direct_write message (write_failed errno) c =
    (c, message, not (errno == ewouldblock) && (errno == epipe || errno == econnreset))

-- `if (!faultError && remaining > 0)`, after `assert(remaining <= len)`.
unfoldable pub after_write : List ℕ → Connection → List ℕ → Bool → Option Connection
unfolding buffer_rest
after_write message c rest fault = do
  assert (leb (length rest) (length message))
  if not fault && ltb 0 (length rest) then buffer_rest rest c else some c

unfoldable pub send_in_loop : List ℕ → WriteOutcome → Connection → Option Connection
unfolding direct_write after_write
send_in_loop message outcome c =
    if is_disconnected c.state
    then some c
    else if not c.channel_writing && readable_bytes c.output == 0
    then (let (c', rest, fault) = direct_write message outcome c in
        after_write message c' rest fault)
    else after_write message c message false

-- `send`; the flag is `isInLoopThread()`.
unfoldable pub send : Bool → List ℕ → WriteOutcome → Connection → Option Connection
unfolding send_in_loop
send in_loop message outcome c =
    if is_connected c.state
    then (if in_loop then send_in_loop message outcome c else some (queue (send_task message) c))
    else some c

-- `shutdownWrite` once nothing is waiting to be written.
unfoldable pub shutdown_in_loop : Connection → Connection
shutdown_in_loop c = if c.channel_writing then c else record c { shut = true }

unfoldable pub shutdown : Bool → Connection → Connection
unfolding shutdown_in_loop
shutdown in_loop c =
    if is_connected c.state
    then (let leaving = record c { state = StateE.disconnecting } in
        if in_loop then shutdown_in_loop leaving else queue shutdown_task leaving)
    else c

unfoldable pub force_close : Connection → Connection
force_close c =
    if is_connected c.state || is_disconnecting c.state
    then queue force_close_task (record c { state = StateE.disconnecting })
    else c

-- `disableAll`, which also tells the poller.
abbrev pub disable_all : Connection → Connection
disable_all c = record c { channel_reading = false; channel_writing = false; registered = true }

unfoldable pub handle_close : Connection → Option Connection
handle_close c = do
  assert (is_connected c.state || is_disconnecting c.state)
  some (record (disable_all c) {
    state = StateE.disconnected;
    downs = c.downs + 1;
    closes = c.closes + 1;
  })

unfoldable pub force_close_in_loop : Connection → Option Connection
unfolding handle_close
force_close_in_loop c =
    if is_connected c.state || is_disconnecting c.state then handle_close c else some c

unfoldable pub connect_established : Connection → Option Connection
connect_established c = do
  assert (is_connecting c.state)
  some (record c {
    state = StateE.connected;
    channel_reading = true;
    registered = true;
    ups = c.ups + 1;
  })

-- `channel_->remove()`, with its `assert(isNoneEvent())`.
abbrev remove_channel : Connection → Option Connection
remove_channel c = do
  assert (not (c.channel_reading || c.channel_writing))
  some (record c { registered = false })

unfoldable pub connect_destroyed : Connection → Option Connection
connect_destroyed c = remove_channel (
    if is_connected c.state
    then record (disable_all c) { state = StateE.disconnected; downs = c.downs + 1 }
    else c)

unfoldable pub start_read_in_loop : Connection → Connection
start_read_in_loop c =
    if not c.reading || not c.channel_reading
    then record c { channel_reading = true; reading = true; registered = true }
    else c

unfoldable pub stop_read_in_loop : Connection → Connection
stop_read_in_loop c =
    if c.reading || c.channel_reading
    then record c { channel_reading = false; reading = false; registered = true }
    else c

-- After `write` took `n` bytes of the output buffer, `n > 0`.
unfoldable pub drained : ℕ → Connection → Option Connection
unfolding shutdown_in_loop
drained n c = do
  output ← retrieve n c.output
  let taken = record c { sent = c.sent ++ take n (contents c.output); output = output }
  some (
      if readable_bytes output == 0
      then (let idle = write_completed (record taken { channel_writing = false }) in
          if is_disconnecting c.state then shutdown_in_loop idle else idle)
      else taken)

unfoldable pub handle_write : WriteOutcome → Connection → Option Connection
unfolding drained
handle_write outcome c =
    if c.channel_writing
    then elim outcome [
      | wrote n ↦ if ltb 0 n then drained n c else some c
      | write_failed errno ↦ some c
    ]
    else some c

-- `handleRead`; the message callback is what it makes of the input buffer.
unfoldable pub handle_read :
    (Buffer → Buffer) → (List ℕ → ReadOutcome) → Connection → Option Connection
unfolding handle_close
handle_read message_callback readv c = read_fd readv c.input >>= λ r. (elim r.0 [
  | failed errno ↦ some c
  | received bytes ↦
      if ltb 0 (length bytes)
      then some (record c { input = message_callback r.1 })
      else handle_close (record c { input = r.1 })
])

-- The oldest pending functor is taken off and run.
unfoldable pub run_task : Task → WriteOutcome → Connection → Option Connection
unfolding send_in_loop shutdown_in_loop force_close_in_loop
run_task (send_task message) outcome c = send_in_loop message outcome c
run_task shutdown_task outcome c = some (shutdown_in_loop c)
run_task force_close_task outcome c = force_close_in_loop c
run_task write_complete_task outcome c = some c
run_task (high_water_task n) outcome c = some c
