-- ===== src/Client/Life.antt =====
-- The connections of polaris/src/TCPClient.cc over the life of a client.
use lute.Client.Rests.{
  Rests, ConnectorStep-Rests, Hands, ConnectorStep, handle_write-Hands, start_in_loop_aborts,
  not_disconnected,
}
use mathlib.Core.List.{append-nil}
use lute.Connection.{Connection, connect_established}
use lute.Http.Bytes.{Bytes, equal, equal_iff}
use lute.Connector.{Connector}
use lute.Client.{
  new_connection, connect, stop, disconnect, construct, TcpClient, Current, enable_retry,
  connector_writes, remove_connection, handed_one, is_current, client_connection_name, shut_current,
}
use lute.Connector
use lute.Prelude.{
  none, some, true, false, inl, inr, [], ◌∷◌, ◌++◌, ◌>>=◌, ℕ, Option, Whenever_at, ◌≡◌, List, suc,
  if_false, length, Whenever, Bool, ap, assert, sym, if◌then◌else◌, ◌∙◌, Whenever->>=, if_lem,
  arith, Bool-cases, if_true, refl, Option-cases, subst, ◌&&◌, length-append, ◌<◌, ◌+◌, ◌^◌,
}

-- A call of the user, of the connector, or of the connection when it closes. Where `newConnection` may
-- be called, `++nextConnId_` stays within `int`.
pub data Step (c c' : TcpClient) : Type 0 where
  enables : c' ≡ enable_retry c → Step c c'
  connects : (sockfd errno : ℕ) → connect sockfd errno c ≡ some c' → Step c c'
  disconnects : c' ≡ disconnect c → Step c c'
  stops : c' ≡ stop c → Step c c'
  connector_steps :
      (k : Connector) → ConnectorStep c.connector k → c' ≡ record c { connector = k } → Step c c'
  writes :
      (error : ℕ) (self_connect : Bool) (ip_port : Bytes) (fresh : Connection)
      → c.next_conn_id + 1 < 2 ^ 31
      → connector_writes error self_connect ip_port fresh c ≡ some c'
      → Step c c'
  removes :
      (conn_name : Bytes) (sockfd errno : ℕ)
      → remove_connection conn_name sockfd errno c ≡ some c'
      → Step c c'

pub data Reach (name : Bytes) : TcpClient → Type 0 where
  start : Reach name (construct name)
  after_step : (c c' : TcpClient) → Reach name c → Step c c' → Reach name c'

abbrev pub current_names : Option Current → List Bytes
current_names none = []
current_names (some current) = current.conn_name ∷ []

abbrev pub Connected : Option Current → Connector → Type 0
Connected none k = Unit {0}
Connected (some current) k = k.state ≡ Connector.States.connected

-- The client has a connection only while the connector rests; each connection it made is the present
-- one or is being destroyed, once and in the order of their making, and the counter counts them
-- and is an `int`.
pub record Inv (c : TcpClient) : Type 0 where
  pub rests : Connected c.current c.connector
  pub accounted : c.names ≡ c.destroying ++ current_names c.current
  pub counted : c.next_conn_id ≡ suc (length c.names)
  pub in_range : c.next_conn_id < 2 ^ 31

Connected-map :
    (o : Option Current) (k k' : Connector) → (Rests k → Rests k') → Connected o k → Connected o k'
Connected-map none k k' f h = tt
Connected-map (some current) k k' f h = f h

new_connection-Inv :
    (ip_port : Bytes) (fresh : Connection) (c : TcpClient)
    → Rests c.connector
    → c.current ≡ none
    → c.next_conn_id + 1 < 2 ^ 31
    → Inv c
    → Whenever (new_connection ip_port fresh c) Inv
unfolding new_connection
new_connection-Inv ip_port fresh c rests empty small inv =
    Whenever->>= Inv (connect_established fresh) _ (λ connection. record {
      rests = rests;
      accounted =
          ap (λ ns. ns ++ client_connection_name c.name ip_port c.next_conn_id ∷ [])
            (inv.accounted
              ∙ ap (λ o. c.destroying ++ current_names o) empty
              ∙ append-nil c.destroying);
      counted = omega (
        arith,
        inv.counted,
        length-append c.names (client_connection_name c.name ip_port c.next_conn_id ∷ []),
      );
      in_range = small;
    })

connector_writes-Inv :
    (error : ℕ) (self_connect : Bool) (ip_port : Bytes) (fresh : Connection) (c : TcpClient)
    → c.next_conn_id + 1 < 2 ^ 31
    → Inv c
    → Whenever (connector_writes error self_connect ip_port fresh c) Inv
unfolding connector_writes
connector_writes-Inv error self_connect ip_port fresh c small inv =
    go (Connector.handle_write error self_connect c.connector)
      (handle_write-Hands error self_connect c.connector)
  where
    after : Connector → TcpClient
    after k = record c { connector = k }

    go :
        (m : Option Connector)
        → Whenever m (Hands c.connector)
        → Whenever
            (m >>= λ k.
              (if handed_one c.connector k
                then new_connection ip_port fresh (after k)
                else some (after k)))
            Inv
    go none h = tt
    go (some k) (hands, busy) = elim (Option-cases c.current) [
      | inr (current, there) ↦ absurd (busy (subst (λ o. Connected o c.connector) there inv.rests))
      | inl empty ↦
          let kept : Inv (after k) = record {
            rests = subst (λ o. Connected o k) (sym empty) tt;
            accounted = inv.accounted;
            counted = inv.counted;
            in_range = inv.in_range;
          } in
          elim (Bool-cases (handed_one c.connector k)) [
            | inl called ↦
                if_true (λ m. Whenever m Inv) (handed_one c.connector k) _ _ called
                  (new_connection-Inv ip_port fresh (after k) (hands called) empty small kept)
            | inr not_called ↦
                if_false (λ m. Whenever m Inv) (handed_one c.connector k) _ _ not_called kept
          ]
    ]

is_current-names :
    (conn_name : Bytes) (o : Option Current)
    → is_current conn_name o ≡ true
    → current_names o ≡ conn_name ∷ []
unfolding equal
is_current-names conn_name none e = cc
is_current-names conn_name (some current) e =
    ap (λ n. n ∷ []) (sym ((equal_iff conn_name current.conn_name).0 e))

remove_connection-Inv :
    (conn_name : Bytes) (sockfd errno : ℕ) (c : TcpClient)
    → Inv c
    → Whenever (remove_connection conn_name sockfd errno c) Inv
unfolding remove_connection
remove_connection-Inv conn_name sockfd errno c inv = go (is_current conn_name c.current) refl
  where
    gone : Connector → TcpClient
    gone k = record c { current = none; destroying = c.destroying ++ conn_name ∷ []; connector = k }

    gone-Inv : (k : Connector) → is_current conn_name c.current ≡ true → Inv (gone k)
    gone-Inv k e = record {
      rests = tt;
      accounted =
          inv.accounted
          ∙ ap (λ ns. c.destroying ++ ns) (is_current-names conn_name c.current e)
          ∙ sym (append-nil (c.destroying ++ conn_name ∷ []));
      counted = inv.counted;
      in_range = inv.in_range;
    }

    go :
        (t : Bool)
        → is_current conn_name c.current ≡ t
        → Whenever
            (assert t >>= λ _.
              (if c.retry && c.connect_wanted
                then (Connector.restart sockfd errno c.connector >>= λ k. some (gone k))
                else some (gone c.connector)))
            Inv
    go false e = tt
    go true e =
        if_lem (λ m. Whenever m Inv) (c.retry && c.connect_wanted) _ _
          (Whenever->>= Inv (Connector.restart sockfd errno c.connector) _ (λ k. gone-Inv k e))
          (gone-Inv c.connector e)

disconnect-Inv : (c : TcpClient) → Inv c → Inv (disconnect c)
unfolding disconnect
disconnect-Inv c inv = record {
  rests = go c.current inv.rests;
  accounted = inv.accounted ∙ ap (λ ns. c.destroying ++ ns) (names c.current);
  counted = inv.counted;
  in_range = inv.in_range;
}
  where
    go : (o : Option Current) → Connected o c.connector → Connected (shut_current o) c.connector
    go none h = tt
    go (some current) h = h

    names : (o : Option Current) → current_names o ≡ current_names (shut_current o)
    names none = refl
    names (some current) = refl

pub connect-aborts :
    (sockfd errno : ℕ) (c : TcpClient) → Rests c.connector → connect sockfd errno c ≡ none
unfolding connect Connector.start
connect-aborts sockfd errno c h =
    ap (λ m. m >>= λ k. some (record c { connect_wanted = true; connector = k }))
      (start_in_loop_aborts sockfd errno (record (c.connector) { connect_wanted = true })
        (not_disconnected c.connector h))

connect-Inv : (sockfd errno : ℕ) (c : TcpClient) → Inv c → Whenever (connect sockfd errno c) Inv
unfolding connect
connect-Inv sockfd errno c inv = elim (Option-cases c.current) [
  | inr (current, there) ↦
      rw (connect-aborts sockfd errno c (subst (λ o. Connected o c.connector) there inv.rests)) tt
  | inl empty ↦ Whenever->>= Inv (Connector.start sockfd errno c.connector) _ (λ k. record {
    rests = subst (λ o. Connected o k) (sym empty) tt;
    accounted = inv.accounted;
    counted = inv.counted;
    in_range = inv.in_range;
  })
]

Step-Inv : (c c' : TcpClient) → Step c c' → Inv c → Inv c'
unfolding enable_retry stop Connector.stop
Step-Inv c c' (enables e) inv = rw e (record {
  rests = inv.rests;
  accounted = inv.accounted;
  counted = inv.counted;
  in_range = inv.in_range;
})
Step-Inv c c' (connects sockfd errno e) inv =
    Whenever_at Inv _ c' e (connect-Inv sockfd errno c inv)
Step-Inv c c' (disconnects e) inv = rw e (disconnect-Inv c inv)
Step-Inv c c' (stops e) inv = rw e (record {
  rests = Connected-map c.current c.connector (Connector.stop c.connector) (λ h. h) inv.rests;
  accounted = inv.accounted;
  counted = inv.counted;
  in_range = inv.in_range;
})
Step-Inv c c' (connector_steps k step e) inv = rw e (record {
  rests = Connected-map c.current c.connector k (ConnectorStep-Rests c.connector k step) inv.rests;
  accounted = inv.accounted;
  counted = inv.counted;
  in_range = inv.in_range;
})
Step-Inv c c' (writes error self_connect ip_port fresh small e) inv =
    Whenever_at Inv _ c' e (connector_writes-Inv error self_connect ip_port fresh c small inv)
Step-Inv c c' (removes conn_name sockfd errno e) inv =
    Whenever_at Inv _ c' e (remove_connection-Inv conn_name sockfd errno c inv)

-- However the user, the connector and the connections act on a client, as long as it makes fewer than
-- `2 ^ 31 - 1` connections, so that `nextConnId_` stays an `int`: it has a connection only while its
-- connector rests, so none is overwritten; each connection that it made is the present one, or is
-- queued to be destroyed, once and in order; and `nextConnId_` counts them.
pub Reach-Inv : (name : Bytes) (c : TcpClient) → Reach name c → Inv c
unfolding construct
Reach-Inv name c start = record {
  rests = tt;
  accounted = refl;
  counted = refl;
  in_range = omega arith;
}
Reach-Inv name c (after_step b _ r step) = Step-Inv b c step (Reach-Inv name b r)
