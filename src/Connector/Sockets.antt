-- ===== src/Connector/Sockets.antt =====
-- Where the sockets of polaris/src/Connector.cc are, and the delays between its attempts.
use lute.Prelude.{
  none, some, [], ◌∷◌, true, false, Option, ℕ, List, ◌++◌, ◌≡◌, if◌then◌else◌, ◌+◌, ◌≤◌, ◌==◌,
  Returns, arith, Bool-cases, inl, inr, refl, ap, subst, sym, ◌∙◌, Returns->>=, Bool, ◌≢◌, not,
  assert->>,
}
use lute.Connector.{
  is_connecting, is_disconnected, handle_write, States, Connector, ConnectorChannel, connect, retry,
  close, await_connection, under_way, worth_retrying, remove_and_reset_channel, reset_channel_task,
  no_channel, handle_error, stop_in_loop,
}

abbrev pub occurs : ℕ → List ℕ → ℕ
occurs s [] = 0
occurs s (x ∷ xs) = (if s == x then 1 else 0) + occurs s xs

pub occurs-append : (s : ℕ) (xs ys : List ℕ) → occurs s (xs ++ ys) ≡ occurs s xs + occurs s ys
occurs-append s [] ys = omega arith
occurs-append s (x ∷ xs) ys = omega (arith, occurs-append s xs ys)

pub occurs-snoc :
    (s x : ℕ) (xs : List ℕ) → occurs s (xs ++ (x ∷ [])) ≡ occurs s xs + occurs s (x ∷ [])
occurs-snoc s x xs = occurs-append s xs (x ∷ [])

-- The socket of an attempt that is under way.
abbrev pub held : States → Option ConnectorChannel → List ℕ
held States.connecting (some channel) = channel.fd ∷ []
held States.connecting none = []
held States.disconnected channel = []
held States.connected channel = []

-- How often a socket is held, closed or handed over.
abbrev pub places : ℕ → Connector → ℕ
places s c = occurs s (held c.state c.channel) + (occurs s c.closed + occurs s c.handed)

-- A channel that the poller no longer has.
abbrev pub Parked : Option ConnectorChannel → Type 0
Parked none = Unit {0}
Parked (some channel) = channel.registered ≡ false

abbrev pub Wired : States → Option ConnectorChannel → Type 0
Wired States.connecting none = ⊥
Wired States.connecting (some channel) = channel.registered ≡ true
Wired States.disconnected channel = Parked channel
Wired States.connected channel = Parked channel

abbrev pub IsDelay : ℕ → Type 0
IsDelay d = (500 ≤ d) × (d ≤ 30000)

abbrev pub AreDelays : List ℕ → Type 0
AreDelays [] = Unit {0}
AreDelays (d ∷ ds) = IsDelay d × AreDelays ds

AreDelays-snoc : (ds : List ℕ) (d : ℕ) → AreDelays ds → IsDelay d → AreDelays (ds ++ (d ∷ []))
AreDelays-snoc [] d h k = (k, tt)
AreDelays-snoc (x ∷ ds) d h k = (h.0, AreDelays-snoc ds d h.1 k)

-- The channel is with the poller exactly while an attempt is under way, and each delay is between
-- half a second and half a minute.
pub record Inv (c : Connector) : Type 0 where
  pub wired : Wired c.state c.channel
  pub delay : IsDelay c.retry_delay_ms
  pub delays : AreDelays c.retries

-- A step that opened these sockets: each is now in one place more, and every other where it was or
-- moved on.
abbrev pub Moves : List ℕ → Connector → Connector → Type 0
Moves opened c c' = Inv c' × ((s : ℕ) → places s c' ≡ places s c + occurs s opened)

pub retry-Moves :
    (sockfd : ℕ) (c : Connector)
    → Parked c.channel
    → IsDelay c.retry_delay_ms
    → AreDelays c.retries
    → Inv (retry sockfd c)
      × ((s : ℕ)
          → places s (retry sockfd c)
            ≡ (occurs s c.closed + occurs s c.handed) + occurs s (sockfd ∷ []))
unfolding retry close
retry-Moves sockfd c parked delay delays = elim (Bool-cases c.connect_wanted) [
  | inl wanted ↦ rw wanted (
    record {
      wired = parked;
      delay = (omega arith, omega arith);
      delays = AreDelays-snoc c.retries c.retry_delay_ms delays delay;
    },
    λ s. omega (arith, occurs-snoc s sockfd c.closed),
  )
  | inr stopped ↦ rw stopped (
    record { wired = parked; delay = delay; delays = delays },
    λ s. omega (arith, occurs-snoc s sockfd c.closed),
  )
]

-- From the invariant, the state `kDisconnected` and no channel, an attempt opens one socket, which
-- is then held, or closed: on a connect(2) that fails for now, with the next attempt timed where
-- one is wanted. The invariant is kept.
pub connect-Moves :
    (sockfd errno : ℕ) (c : Connector)
    → Inv c
    → c.state ≡ States.disconnected
    → c.channel ≡ none
    → Returns (connect sockfd errno c) (Moves (sockfd ∷ []) c)
unfolding connect await_connection close
connect-Moves sockfd errno c inv down empty = elim (Bool-cases (under_way errno)) [
  | inl going ↦
      rw (going, ap no_channel empty)
        (
          record { wired = refl; delay = inv.delay; delays = inv.delays },
          λ s. omega (arith, unheld s),
        )
  | inr refused ↦ elim (Bool-cases (worth_retrying errno)) [
    | inl again ↦
        let (kept, moves) =
          retry-Moves sockfd c (subst Parked (sym empty) tt) inv.delay inv.delays in
        rw (refused, again) (kept, λ s. omega (arith, moves s, unheld s))
    | inr fatal ↦
        rw (refused, fatal)
          (
            record { wired = inv.wired; delay = inv.delay; delays = inv.delays },
            λ s. omega (arith, occurs-snoc s sockfd c.closed),
          )
  ]
]
  where
    unheld : (s : ℕ) → occurs s (held c.state c.channel) ≡ 0
    unheld s = ap (λ st. occurs s (held st c.channel)) down

-- What `removeAndResetChannel` gives.
abbrev Freed : Connector → ℕ × Connector → Type 0
Freed c r =
    Parked r.1.channel
    × (r.1.retry_delay_ms ≡ c.retry_delay_ms)
    × (r.1.retries ≡ c.retries)
    × ((s : ℕ) → places s c ≡ (occurs s r.1.closed + occurs s r.1.handed) + occurs s (r.0 ∷ []))

removed_lem :
    (c : Connector) (st : States)
    → Inv c
    → c.state ≡ States.connecting
    → Returns {A = ℕ × Connector} (remove_and_reset_channel (record c { state = st })) (Freed c)
unfolding remove_and_reset_channel
removed_lem c st inv up = go c.channel refl
  where
    released : ConnectorChannel → Connector
    released channel = record c {
      state = st;
      channel = some (record channel { registered = false });
      pending = c.pending ++ reset_channel_task ∷ [];
    }

    go :
        (o : Option ConnectorChannel)
        → c.channel ≡ o
        → Returns {A = ℕ × Connector}
            (elim o [ none ↦ none | some channel ↦ some (channel.fd, released channel) ])
            (Freed c)
    go none e = subst (λ st. Wired st none) up (subst (Wired c.state) e inv.wired)
    go (some channel) e = (
      refl,
      refl,
      refl,
      λ s.
          omega (
            arith,
            ap (occurs s) (ap (λ st. held st c.channel) up ∙ ap (held States.connecting) e),
          ),
    )

retried : (c : Connector) (r : ℕ × Connector) → Inv c → Freed c r → Moves [] c (retry r.0 r.1)
retried c r inv (parked, delay, delays, places) =
    let (kept, moves) =
      retry-Moves r.0 r.1 parked (subst IsDelay (sym delay) inv.delay)
        (subst AreDelays (sym delays) inv.delays) in
    (kept, λ s. omega (arith, moves s, places s))

connecting_lem : (st : States) → is_connecting st ≡ true → st ≡ States.connecting
connecting_lem States.connecting h = refl
connecting_lem States.disconnected h = absurd (cc h)
connecting_lem States.connected h = absurd (cc h)

-- From the invariant, an error on the socket of an attempt closes it, once, and times the next
-- attempt where one is wanted; no other socket moves, and the invariant is kept.
pub handle_error-Moves : (c : Connector) → Inv c → Returns (handle_error c) (Moves [] c)
unfolding handle_error
handle_error-Moves c inv = elim (Bool-cases (is_connecting c.state)) [
  | inl up ↦ rw up (
      Returns->>= {A = ℕ × Connector} (Freed c) (Moves [] c) (remove_and_reset_channel c) _
        (removed_lem c c.state inv (connecting_lem c.state up)) (λ r f. retried c r inv f))
  | inr down ↦ rw down (inv, λ s. omega arith)
]

-- From the invariant, stopping an attempt that is under way closes its socket, once; no other
-- socket moves, and the invariant is kept.
pub stop_in_loop-Moves : (c : Connector) → Inv c → Returns (stop_in_loop c) (Moves [] c)
unfolding stop_in_loop
stop_in_loop-Moves c inv = elim (Bool-cases (is_connecting c.state)) [
  | inl up ↦ rw up (
      Returns->>= {A = ℕ × Connector} (Freed c) (Moves [] c)
        (remove_and_reset_channel (record c { state = States.disconnected })) _
        (removed_lem c States.disconnected inv (connecting_lem c.state up))
        (λ r f. retried c r inv f))
  | inr down ↦ rw down (inv, λ s. omega arith)
]

concluded :
    (c : Connector) (r : ℕ × Connector) (failed self_connect wanted : Bool)
    → Inv c
    → Freed c r
    → Moves [] c (
        if failed
        then retry r.0 r.1
        else if self_connect
        then retry r.0 r.1
        else if wanted
        then record (r.1) { state = States.connected; handed = r.1.handed ++ r.0 ∷ [] }
        else close r.0 (record (r.1) { state = States.connected }))
unfolding close
concluded c r true self_connect wanted inv f = retried c r inv f
concluded c r false true wanted inv f = retried c r inv f
concluded c r false false true inv (parked, delay, delays, places) = (
  record {
    wired = parked;
    delay = subst IsDelay (sym delay) inv.delay;
    delays = subst AreDelays (sym delays) inv.delays;
  },
  λ s. omega (arith, places s, occurs-snoc s r.0 r.1.handed),
)
concluded c r false false false inv (parked, delay, delays, places) = (
  record {
    wired = parked;
    delay = subst IsDelay (sym delay) inv.delay;
    delays = subst AreDelays (sym delays) inv.delays;
  },
  λ s. omega (arith, places s, occurs-snoc s r.0 r.1.closed),
)

-- From the invariant and any state but `kConnected`, `handleWrite` gets through. The socket of an
-- attempt moves to exactly one place: to the callback, or to the closed ones where the attempt
-- failed, met itself or is no longer wanted; while no attempt is under way, nothing moves. The
-- invariant is kept.
pub handle_write-Moves :
    (error : ℕ) (self_connect : Bool) (c : Connector)
    → Inv c
    → c.state ≢ States.connected
    → Returns (handle_write error self_connect c) (Moves [] c)
unfolding handle_write
handle_write-Moves error self_connect c inv open_ = elim (Bool-cases (is_connecting c.state)) [
  | inl up ↦ rw up (
      Returns->>= {A = ℕ × Connector} (Freed c) (Moves [] c) (remove_and_reset_channel c) _
        (removed_lem c c.state inv (connecting_lem c.state up))
        (λ r f. concluded c r (not (error == 0)) self_connect c.connect_wanted inv f))
  | inr down ↦
      rw down (assert->> (Moves [] c) _ _ (idle_lem c.state down open_) (inv, λ s. omega arith))
]
  where
    idle_lem :
        (st : States) → is_connecting st ≡ false → st ≢ States.connected → is_disconnected st ≡ true
    idle_lem States.connecting h n = absurd (cc h)
    idle_lem States.connected h n = absurd (n refl)
    idle_lem States.disconnected h n = refl
