-- ===== src/Connector/Attempts.antt =====
-- The attempts of polaris/src/Connector.cc, one after the other: no socket is lost.
use lute.Connector.{
  is_disconnected, is_connecting, connect, close, start, restart, stop, start_in_loop, stop_in_loop,
  init, handle_write, handle_error, await_connection, Connector, States, init_retry_delay_ms,
  reset_channel, under_way, no_channel, worth_retrying, ConnectorChannel,
}
use lute.Connector.Sockets.{
  Inv, Moves, occurs, held, Wired, retry-Moves, occurs-snoc, places, handle_write-Moves,
  occurs-append, stop_in_loop-Moves, handle_error-Moves,
}
use lute.Prelude.{
  none, some, true, false, inl, inr, [], ◌∷◌, ◌++◌, ◌>>◌, ℕ, List, Option, ◌≡◌, Whenever, refl,
  Returns, Bool-cases, Whenever->>=, Whenever_map, assert, Bool, arith, ap, subst, Whenever_at,
  if_false, ◌||◌, if_true, not, sym, ◌∙◌,
}

-- A call of the client, a timer, a functor of the queue, or an event of the channel. The client
-- restarts a connector that is connected; a timer opens a socket only where one is wanted.
pub data Step (k k' : Connector) : Type 0 where
  starts : (sockfd errno : ℕ) → start sockfd errno k ≡ some k' → Step k k'
  restarts :
      (sockfd errno : ℕ) → k.state ≡ States.connected → restart sockfd errno k ≡ some k' → Step k k'
  fires :
      (sockfd errno : ℕ)
      → k.connect_wanted ≡ true
      → start_in_loop sockfd errno k ≡ some k'
      → Step k k'
  idles :
      (sockfd errno : ℕ)
      → k.connect_wanted ≡ false
      → start_in_loop sockfd errno k ≡ some k'
      → Step k k'
  stops : k' ≡ stop k → Step k k'
  stops_in_loop : stop_in_loop k ≡ some k' → Step k k'
  resets : reset_channel k ≡ some k' → Step k k'
  writes :
      (error : ℕ) (self_connect : Bool) → handle_write error self_connect k ≡ some k' → Step k k'
  errs : handle_error k ≡ some k' → Step k k'

-- The sockets that a step opens.
abbrev pub opened : (k k' : Connector) → Step k k' → List ℕ
opened k k' (starts sockfd errno e) = sockfd ∷ []
opened k k' (restarts sockfd errno at e) = sockfd ∷ []
opened k k' (fires sockfd errno wanted e) = sockfd ∷ []
opened k k' (idles sockfd errno wanted e) = []
opened k k' (stops e) = []
opened k k' (stops_in_loop e) = []
opened k k' (resets e) = []
opened k k' (writes error self_connect e) = []
opened k k' (errs e) = []

-- The connectors that steps lead to, with the sockets opened until then.
pub data Reach : List ℕ → Connector → Type 0 where
  unused : Reach [] init
  after_step :
      (log : List ℕ) (k k' : Connector)
      → Reach log k
      → (step : Step k k') → Reach (log ++ opened k k' step) k'

Whenever_of_Returns : (P : Connector → Type 0) (m : Option Connector) → Returns m P → Whenever m P
Whenever_of_Returns P none h = tt
Whenever_of_Returns P (some k) h = h

connect-Moved :
    (sockfd errno : ℕ) (k : Connector)
    → Inv k
    → k.state ≡ States.disconnected
    → Whenever (connect sockfd errno k) (Moves (sockfd ∷ []) k)
unfolding connect await_connection close
connect-Moved sockfd errno k inv down = elim (Bool-cases (under_way errno)) [
  | inl going ↦ rw going (
      Whenever->>= (Moves (sockfd ∷ []) k) (assert (no_channel k.channel)) _ (λ _. (
        record { wired = refl; delay = inv.delay; delays = inv.delays },
        λ s. omega (arith, unheld s),
      )))
  | inr refused ↦ elim (Bool-cases (worth_retrying errno)) [
    | inl again ↦
        let (kept, moves) =
          retry-Moves sockfd k (subst (λ st. Wired st k.channel) down inv.wired) inv.delay
            inv.delays in
        rw (refused, again) (kept, λ s. omega (arith, moves s, unheld s))
    | inr fatal ↦
        rw (refused, fatal)
          (
            record { wired = inv.wired; delay = inv.delay; delays = inv.delays },
            λ s. omega (arith, occurs-snoc s sockfd k.closed),
          )
  ]
]
  where
    unheld : (s : ℕ) → occurs s (held k.state k.channel) ≡ 0
    unheld s = ap (λ st. occurs s (held st k.channel)) down

disconnected_lem : (st : States) → is_disconnected st ≡ true → st ≡ States.disconnected
disconnected_lem States.disconnected h = refl
disconnected_lem States.connecting h = cc
disconnected_lem States.connected h = cc

start_in_loop-wanted :
    (sockfd errno : ℕ) (k : Connector)
    → Inv k
    → k.connect_wanted ≡ true
    → Whenever (start_in_loop sockfd errno k) (Moves (sockfd ∷ []) k)
unfolding start_in_loop
start_in_loop-wanted sockfd errno k inv wanted = elim (Bool-cases (is_disconnected k.state)) [
  | inl down ↦ rw down (
      if_true (λ m. Whenever m (Moves (sockfd ∷ []) k)) k.connect_wanted _ _ wanted
        (connect-Moved sockfd errno k inv (disconnected_lem k.state down)))
  | inr busy ↦ rw busy tt
]

start_in_loop-idle :
    (sockfd errno : ℕ) (k : Connector)
    → Inv k
    → k.connect_wanted ≡ false
    → Whenever (start_in_loop sockfd errno k) (Moves [] k)
unfolding start_in_loop
start_in_loop-idle sockfd errno k inv wanted =
    Whenever->>= (Moves [] k) (assert (is_disconnected k.state)) _ (λ _.
      if_false (λ m. Whenever m (Moves [] k)) k.connect_wanted _ _ wanted (inv, λ s. omega arith))

start-Moved :
    (sockfd errno : ℕ) (k : Connector)
    → Inv k
    → Whenever (start sockfd errno k) (Moves (sockfd ∷ []) k)
unfolding start
start-Moved sockfd errno k inv =
    start_in_loop-wanted sockfd errno (record k { connect_wanted = true })
      (record { wired = inv.wired; delay = inv.delay; delays = inv.delays }) refl

-- A connected connector holds no socket.
restart-Moved :
    (sockfd errno : ℕ) (k : Connector)
    → Inv k
    → k.state ≡ States.connected
    → Whenever (restart sockfd errno k) (Moves (sockfd ∷ []) k)
unfolding restart
restart-Moved sockfd errno k inv at =
    Whenever_map (Moves (sockfd ∷ []) again) (Moves (sockfd ∷ []) k) _
      (λ k' m. (m.0, λ s. omega (arith, m.1 s, ap (λ st. occurs s (held st k.channel)) at)))
      (start_in_loop-wanted sockfd errno again
        (record {
          wired = subst (λ st. Wired st k.channel) at inv.wired;
          delay = (omega arith, omega arith);
          delays = inv.delays;
        })
        refl)
  where
    again : Connector
    again = record k {
      state = States.disconnected;
      retry_delay_ms = init_retry_delay_ms;
      connect_wanted = true;
    }

-- The poller still has the channel of an attempt under way, so it is not reset.
reset_channel-Moved : (k : Connector) → Inv k → Whenever (reset_channel k) (Moves [] k)
unfolding reset_channel
reset_channel-Moved k inv = go k.state k.channel refl refl
  where
    parked :
        (st : States) (channel : ConnectorChannel)
        → k.state ≡ st
        → k.channel ≡ some channel
        → Wired st (some channel)
        → Whenever
            (assert (not channel.registered) >> some (record k { channel = none }))
            (Moves [] k)
    parked States.connecting channel s c w = rw w tt
    parked States.disconnected channel s c w = rw w (
      record {
        wired = subst (λ st. Wired st none) (sym s) tt;
        delay = inv.delay;
        delays = inv.delays;
      },
      λ x.
          omega (
            arith,
            ap (λ st. occurs x (held st k.channel)) s,
            ap (λ st. occurs x (held st none)) s,
          ),
    )
    parked States.connected channel s c w = rw w (
      record {
        wired = subst (λ st. Wired st none) (sym s) tt;
        delay = inv.delay;
        delays = inv.delays;
      },
      λ x.
          omega (
            arith,
            ap (λ st. occurs x (held st k.channel)) s,
            ap (λ st. occurs x (held st none)) s,
          ),
    )

    go :
        (st : States) (o : Option ConnectorChannel)
        → k.state ≡ st
        → k.channel ≡ o
        → Whenever
            (elim o [
              | none ↦ some k
              | some channel ↦ assert (not channel.registered) >> some (record k { channel = none })
            ])
            (Moves [] k)
    go st none s c = (inv, λ x. omega arith)
    go st (some channel) s c =
        parked st channel s c
          (subst (λ st. Wired st (some channel)) s (subst (Wired k.state) c inv.wired))

handle_write-Moved :
    (error : ℕ) (self_connect : Bool) (k : Connector)
    → Inv k
    → Whenever (handle_write error self_connect k) (Moves [] k)
unfolding handle_write
handle_write-Moved error self_connect k inv =
    elim (Bool-cases (is_disconnected k.state || is_connecting k.state)) [
      | inl busy ↦ Whenever_of_Returns (Moves [] k) _ (
          handle_write-Moves error self_connect k inv
            (λ at. cc (sym busy ∙ ap (λ st. is_disconnected st || is_connecting st) at)))
      | inr resting ↦
          if_false (λ m. Whenever m (Moves [] k)) (is_connecting k.state) _ _ (right _ _ resting)
            (rw (left (is_disconnected k.state) (is_connecting k.state) resting) tt)
    ]
  where
    left : (s t : Bool) → (s || t) ≡ false → s ≡ false
    left true t e = cc
    left false t e = refl

    right : (s t : Bool) → (s || t) ≡ false → t ≡ false
    right true t e = cc
    right false t e = e

Step-Moves : (k k' : Connector) (step : Step k k') → Inv k → Moves (opened k k' step) k k'
unfolding stop
Step-Moves k k' (starts sockfd errno e) inv =
    Whenever_at (Moves (sockfd ∷ []) k) _ k' e (start-Moved sockfd errno k inv)
Step-Moves k k' (restarts sockfd errno at e) inv =
    Whenever_at (Moves (sockfd ∷ []) k) _ k' e (restart-Moved sockfd errno k inv at)
Step-Moves k k' (fires sockfd errno wanted e) inv =
    Whenever_at (Moves (sockfd ∷ []) k) _ k' e (start_in_loop-wanted sockfd errno k inv wanted)
Step-Moves k k' (idles sockfd errno wanted e) inv =
    Whenever_at (Moves [] k) _ k' e (start_in_loop-idle sockfd errno k inv wanted)
Step-Moves k k' (stops e) inv =
    rw e (record { wired = inv.wired; delay = inv.delay; delays = inv.delays }, λ s. omega arith)
Step-Moves k k' (stops_in_loop e) inv =
    Whenever_at (Moves [] k) _ k' e (Whenever_of_Returns (Moves [] k) _ (stop_in_loop-Moves k inv))
Step-Moves k k' (resets e) inv = Whenever_at (Moves [] k) _ k' e (reset_channel-Moved k inv)
Step-Moves k k' (writes error self_connect e) inv =
    Whenever_at (Moves [] k) _ k' e (handle_write-Moved error self_connect k inv)
Step-Moves k k' (errs e) inv =
    Whenever_at (Moves [] k) _ k' e (Whenever_of_Returns (Moves [] k) _ (handle_error-Moves k inv))

-- Whatever a connector meets, and in whatever order: each socket that it opened is in one place, held
-- for the attempt under way, closed, or handed to the callback, exactly as often as it was opened;
-- the poller has the channel exactly while an attempt is under way; and each delay is between half
-- a second and half a minute.
pub Reach-places :
    (log : List ℕ) (k : Connector) → Reach log k → Inv k × ((s : ℕ) → places s k ≡ occurs s log)
unfolding init
Reach-places log k unused =
    (record { wired = tt; delay = (omega arith, omega arith); delays = tt }, λ s. omega arith)
Reach-places log k (after_step log' j _ r step) =
    let (inv, before) = Reach-places log' j r in
    let (kept, moved) = Step-Moves j k step inv in
    (kept, λ s. omega (arith, before s, moved s, occurs-append s log' (opened j k step)))
