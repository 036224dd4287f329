-- ===== src/Connection/Calls.antt =====
-- polaris/src/TCPConnection.cc: the calls in the life of a connection, from `connectEstablished` over
-- its closing to `connectDestroyed`, and which of them leave its state alone.
use lute.Buffer.ReadFd.{ReadOutcome}
use lute.Buffer.{Buffer, append, readable_bytes, contents, retrieve}
use lute.Connection.{
  buffer_rest, send_in_loop, Connection, drained, after_write, StateE, direct_write,
  connect_established, write_completed, shutdown_in_loop, WriteOutcome, is_disconnected, wrote,
  queue, high_water_task, write_failed, is_disconnecting, force_close, start_read_in_loop,
  stop_read_in_loop, handle_close, run_task, connect_destroyed,
}
use lute.Connection.{send, shutdown, handle_read, handle_write, Task, high_water_task}
use lute.Prelude.{
  some, true, false, ◌||◌, [], ◌∷◌, ℕ, Bool, ◌≡◌, ◌∙◌, List, refl, ap, assert, leb, not, ◌++◌,
  length, ◌&&◌, take, ◌-◌, ltb, ◌==◌, Whenever, if_lem, Whenever->>=, Whenever_map, ◌⊎◌, ◌≤◌,
}

abbrev pub is_live : StateE → Bool
is_live StateE.disconnected = false
is_live StateE.connecting = false
is_live StateE.connected = true
is_live StateE.disconnecting = true

-- The channel's `events_` are not empty.
abbrev pub interested : Connection → Bool
interested c = c.channel_reading || c.channel_writing

-- One call, by the user, the poller, the loop's queue or the owner, in any state. The poller calls back
-- a channel that has events.
pub data Step (c c' : Connection) : Type 0 where
  establishes : connect_established c ≡ some c' → Step c c'
  sends :
      (in_loop : Bool) (message : List ℕ) (outcome : WriteOutcome)
      → send in_loop message outcome c ≡ some c'
      → Step c c'
  shuts : (in_loop : Bool) → c' ≡ shutdown in_loop c → Step c c'
  forces : c' ≡ force_close c → Step c c'
  starts_reading : c' ≡ start_read_in_loop c → Step c c'
  stops_reading : c' ≡ stop_read_in_loop c → Step c c'
  reads :
      (message_callback : Buffer → Buffer) (readv : List ℕ → ReadOutcome)
      → c.channel_reading ≡ true
      → handle_read message_callback readv c ≡ some c'
      → Step c c'
  writes :
      (outcome : WriteOutcome)
      → c.channel_writing ≡ true
      → handle_write outcome c ≡ some c'
      → Step c c'
  hangs_up : interested c ≡ true → handle_close c ≡ some c' → Step c c'
  runs :
      (task : Task) (rest : List Task) (outcome : WriteOutcome)
      → c.pending ≡ task ∷ rest
      → run_task task outcome (record c { pending = rest }) ≡ some c'
      → Step c c'
  destroys : connect_destroyed c ≡ some c' → Step c c'

-- Reading is started on a connection that is not up.
abbrev pub reads_late : (c c' : Connection) → Step c c' → Bool
reads_late c c' (starts_reading e) = not (is_live c.state)
reads_late c c' (establishes e) = false
reads_late c c' (sends in_loop message outcome e) = false
reads_late c c' (shuts in_loop e) = false
reads_late c c' (forces e) = false
reads_late c c' (stops_reading e) = false
reads_late c c' (reads message_callback readv on e) = false
reads_late c c' (writes outcome on e) = false
reads_late c c' (hangs_up on e) = false
reads_late c c' (runs task rest outcome p e) = false
reads_late c c' (destroys e) = false

-- What a new connection can come to, and whether reading was ever started while it was not up.
pub data Reach (first : Connection) : Bool → Connection → Type 0 where
  start : Reach first false first
  after_step :
      (late : Bool) (c c' : Connection)
      → Reach first late c
      → (step : Step c c') → Reach first (reads_late c c' step || late) c'

-- How often the connection callback told the user of an up and of a down, and the close callback
-- was called.
abbrev pub Told : ℕ → ℕ → ℕ → Connection → Type 0
Told ups downs closes c = (c.ups ≡ ups) × (c.downs ≡ downs) × (c.closes ≡ closes)

-- The channel has no events, but for reading that was started while the connection was not up.
abbrev pub Calm : Bool → Connection → Type 0
Calm late c = (interested c ≡ false) ⊎ (late ≡ true)

-- What the user and the owner have been told in each state, and what is left for the poller and the
-- queue. The owner is not asked to remove a connection that it destroys itself.
abbrev pub LifeIn : StateE → Bool → Connection → Type 0
LifeIn StateE.connecting late c =
    Told 0 0 0 c × Calm late c × (c.channel_writing ≡ false) × (c.pending ≡ [])
LifeIn StateE.connected late c = Told 1 0 0 c
LifeIn StateE.disconnecting late c = Told 1 0 0 c
LifeIn StateE.disconnected late c =
    (c.ups ≡ 1) × (c.downs ≡ 1) × (c.closes ≤ 1) × Calm late c × (c.channel_writing ≡ false)

abbrev pub Life : Bool → Connection → Type 0
Life late c = LifeIn c.state late c

module _ (late : Bool) where
  pub Life-Told : (s : StateE) (c : Connection) → is_live s ≡ true → Told 1 0 0 c → LifeIn s late c
  Life-Told StateE.connecting c e told = cc
  Life-Told StateE.connected c e told = told
  Life-Told StateE.disconnecting c e told = told
  Life-Told StateE.disconnected c e told = cc

  pub Told-Life : (s : StateE) (c : Connection) → is_live s ≡ true → LifeIn s late c → Told 1 0 0 c
  Told-Life StateE.connecting c e l = cc
  Told-Life StateE.connected c e l = l
  Told-Life StateE.disconnecting c e l = l
  Told-Life StateE.disconnected c e l = cc

-- The state and the counts stay.
abbrev pub Keeps : Connection → Connection → Type 0
Keeps c c' = (c'.state ≡ c.state) × (c'.ups ≡ c.ups) × (c'.downs ≡ c.downs) × (c'.closes ≡ c.closes)

pub kept : (c : Connection) → Keeps c c
kept c = (refl, refl, refl, refl)

pub Keeps-Keeps : (a b c : Connection) → Keeps a b → Keeps b c → Keeps a c
Keeps-Keeps a b c k l = (l.0 ∙ k.0, l.1 ∙ k.1, l.2 ∙ k.2, l.3 ∙ k.3)

pub Told-Keeps : (c c' : Connection) → Keeps c c' → Told 1 0 0 c → Told 1 0 0 c'
Told-Keeps c c' k told = (k.1 ∙ told.0, k.2 ∙ told.1, k.3 ∙ told.2)

-- A call in a live state that changes no state.
pub Life-Keeps :
    (late : Bool) (c c' : Connection)
    → is_live c.state ≡ true
    → Keeps c c'
    → Life late c
    → Life late c'
Life-Keeps late c c' live k l =
    Life-Told late c'.state c' (ap is_live k.0 ∙ live)
      (Told-Keeps c c' k (Told-Life late c.state c live l))

write_completed-Keeps : (c : Connection) → Keeps c (write_completed c)
write_completed-Keeps c = if_lem (Keeps c) c.has_write_complete _ _ (kept c) (kept c)

buffer_rest-Keeps : (rest : List ℕ) (c : Connection) → Whenever (buffer_rest rest c) (Keeps c)
unfolding buffer_rest
buffer_rest-Keeps rest c =
    Whenever->>= (Keeps c) (append rest c.output) _
      (λ output. if_lem (Keeps c) _ (queue (high_water_task _) c) c (kept c) (kept c))

after_write-Keeps :
    (message : List ℕ) (c : Connection) (rest : List ℕ) (fault : Bool)
    → Whenever (after_write message c rest fault) (Keeps c)
unfolding after_write
after_write-Keeps message c rest fault =
    Whenever->>= (Keeps c) (assert (leb (length rest) (length message))) _ (λ _.
      if_lem (λ m. Whenever m (Keeps c)) (not fault && ltb 0 (length rest)) _ _
        (buffer_rest-Keeps rest c) (kept c))

direct_write-Keeps :
    (message : List ℕ) (outcome : WriteOutcome) (c : Connection)
    → Keeps c (direct_write message outcome c).0
unfolding direct_write
direct_write-Keeps message (wrote n) c =
    if_lem (Keeps c) (length message - n == 0) _ _
      (write_completed-Keeps (record c { sent = c.sent ++ take n message })) (kept c)
direct_write-Keeps message (write_failed errno) c = kept c

pub send_in_loop-Keeps :
    (message : List ℕ) (outcome : WriteOutcome) (c : Connection)
    → Whenever (send_in_loop message outcome c) (Keeps c)
unfolding send_in_loop
send_in_loop-Keeps message outcome c =
    if_lem (λ m. Whenever m (Keeps c)) (is_disconnected c.state) _ _ (kept c)
      (if_lem (λ m. Whenever m (Keeps c)) (not c.channel_writing && readable_bytes c.output == 0) _
        _
        (Whenever_map (Keeps w) (Keeps c) _ (λ c' k. Keeps-Keeps c w c' first k)
          (after_write-Keeps message w rest fault))
        (after_write-Keeps message c message false))
  where
    w : Connection
    w = (direct_write message outcome c).0

    rest : List ℕ
    rest = (direct_write message outcome c).1

    fault : Bool
    fault = (direct_write message outcome c).2

    first : Keeps c w
    first = direct_write-Keeps message outcome c

pub drained-Keeps : (n : ℕ) (c : Connection) → Whenever (drained n c) (Keeps c)
unfolding drained shutdown_in_loop
drained-Keeps n c = Whenever->>= (Keeps c) (retrieve n c.output) _ (λ output.
    if_lem (Keeps c) (readable_bytes output == 0) _ _
      (if_lem (Keeps c) (is_disconnecting c.state) _ _
        (if_lem (Keeps c) _ _ _ (idle output) (idle output)) (idle output))
      (kept c))
  where
    idle :
        (output : Buffer)
        → Keeps c (
            write_completed (record c {
              sent = c.sent ++ take n (contents c.output);
              output = output;
              channel_writing = false;
            }))
    idle output = if_lem (Keeps c) c.has_write_complete _ _ (kept c) (kept c)
