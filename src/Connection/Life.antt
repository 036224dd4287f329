-- ===== src/Connection/Life.antt =====
-- polaris/src/TCPConnection.cc: the life of a connection, from `connectEstablished` over its closing
-- to `connectDestroyed`, with everything that may be called in between.
use lute.Buffer.{Buffer}
use lute.Connection.{Connection, StateE, is_connected, start_read_in_loop, connect_destroyed}
use lute.Connection.{remove_channel}
use lute.Prelude.{
  none, some, true, false, ◌||◌, ◌>>=◌, Bool, ◌≡◌, ◌∙◌, refl, ap, assert, not, arith, ◌↔◌, if_false,
  if_lem,
}
use lute.Connection.Calls.{
  establishes, sends, shuts, forces, starts_reading, stops_reading, interested, establishes, sends,
  shuts, forces, starts_reading, stops_reading,
}

-- `isNoneEvent` decides whether `remove` gets past its `assert`.
remove_channel-none : (c : Connection) → (remove_channel c ≡ none) ↔ (interested c ≡ true)
remove_channel-none c = go (interested c)
  where
    go :
        (t : Bool)
        → ((assert (not t) >>= λ _. some (record c { registered = false })) ≡ none) ↔ (t ≡ true)
    go true = ((λ e. refl), (λ e. refl))
    go false = ((λ e. cc), (λ e. cc))

start_read_in_loop-state : (c : Connection) → (start_read_in_loop c).state ≡ c.state
unfolding start_read_in_loop
start_read_in_loop-state c =
    if_lem (λ (d : Connection). d.state ≡ c.state) (not c.reading || not c.channel_reading) _ _ refl
      refl

start_read_in_loop-interested : (c : Connection) → interested (start_read_in_loop c) ≡ true
unfolding start_read_in_loop
start_read_in_loop-interested c = ground arith

abbrev pub Closing : Connection → Type 0
Closing c = (c.state ≡ StateE.disconnecting) × (interested c ≡ true)

-- `startRead` has no guard on the state: called on a connection that is closed, it makes the
-- `connectDestroyed` that is still queued abort.
pub connect_destroyed_after_start_read :
    (c : Connection)
    → c.state ≡ StateE.disconnected
    → connect_destroyed (start_read_in_loop c) ≡ none
unfolding connect_destroyed start_read_in_loop
connect_destroyed_after_start_read c e =
    if_false (λ d. remove_channel d ≡ none) (is_connected (start_read_in_loop c).state) _ _
      (ap is_connected (start_read_in_loop-state c ∙ e))
      ((remove_channel-none (start_read_in_loop c)).1 (start_read_in_loop-interested c))
