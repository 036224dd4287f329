-- ===== src/Client/Again.antt =====
-- polaris/src/TCPClient.cc after a connection has gone: when it connects again.
use lute.Client.Rests.{Rests}
use lute.Http.Bytes.{Bytes}
use lute.Connector.{Connector}
use lute.Client.{connect, remove_connection, TcpClient, is_current, Current}
use lute.Connector
use lute.Client.Life.{Reach, Connected, connect-aborts, Reach-Inv}
use lute.Prelude.{
  none, some, true, false, inl, inr, [], ◌∷◌, ℕ, ◌≡◌, ◌⊎◌, ◌++◌, Returns, Bool-cases, Returns->>=,
  refl, ◌&&◌, Option,
}

-- An attempt is under way on the socket, or the next one is timed, half a second from now.
abbrev pub Trying : ℕ → Connector → Connector → Type 0
Trying sockfd k k' =
    ((k'.state ≡ Connector.States.connecting)
      × (k'.channel ≡ some (record { fd = sockfd; registered = true })))
    ⊎ ((k'.state ≡ Connector.States.disconnected) × (k'.retries ≡ k.retries ++ 500 ∷ []))

restart-Trying :
    (sockfd errno : ℕ) (k : Connector)
    → k.channel ≡ none
    → (Connector.under_way errno ≡ true) ⊎ (Connector.worth_retrying errno ≡ true)
    → Returns (Connector.restart sockfd errno k) (Trying sockfd k)
unfolding Connector.restart Connector.start_in_loop Connector.connect Connector.await_connection
    Connector.retry Connector.close
restart-Trying sockfd errno k empty h = elim (Bool-cases (Connector.under_way errno)) [
  | inl going ↦ rw (going, empty) (inl (refl, refl))
  | inr refused ↦ rw (refused, again h refused) (inr (refl, refl))
]
  where
    again :
        (Connector.under_way errno ≡ true) ⊎ (Connector.worth_retrying errno ≡ true)
        → Connector.under_way errno ≡ false
        → Connector.worth_retrying errno ≡ true
    again (inl going) refused = cc
    again (inr worth) refused = worth

-- When the connection of a client that retries, and was not told to disconnect or stop, is closed,
-- and the reset of the channel of its last attempt has run, the client is left without connection,
-- the closed one is to be destroyed, and it connects again: an attempt is under way, or, where
-- connect(2) failed for now, the next is timed with the first delay.
pub remove_connection-Trying :
    (conn_name : Bytes) (sockfd errno : ℕ) (c : TcpClient)
    → is_current conn_name c.current ≡ true
    → c.retry ≡ true
    → c.connect_wanted ≡ true
    → c.connector.channel ≡ none
    → (Connector.under_way errno ≡ true) ⊎ (Connector.worth_retrying errno ≡ true)
    → Returns (remove_connection conn_name sockfd errno c) (λ c'.
      (c'.current ≡ none)
      × (c'.destroying ≡ c.destroying ++ conn_name ∷ [])
      × Trying sockfd c.connector c'.connector)
unfolding remove_connection
remove_connection-Trying conn_name sockfd errno c there retry wanted empty h =
    rw (there, retry, wanted)
      (Returns->>= (Trying sockfd c.connector) _ (Connector.restart sockfd errno c.connector) _
        (restart-Trying sockfd errno c.connector empty h) (λ k trying. (refl, refl, trying)))

-- When the connection of a client that does not retry, or was told to disconnect or stop, is closed,
-- in a state that the client comes to: it is left without connection and the closed one is to be
-- destroyed, its connector stays in kConnected, and the next `connect` of the client aborts.
pub remove_connection-connect :
    (conn_name : Bytes) (sockfd errno sockfd' errno' : ℕ) (name : Bytes) (c : TcpClient)
    → Reach name c
    → is_current conn_name c.current ≡ true
    → (c.retry && c.connect_wanted) ≡ false
    → Returns (remove_connection conn_name sockfd errno c) (λ c'.
      (c'.current ≡ none)
      × (c'.destroying ≡ c.destroying ++ conn_name ∷ [])
      × (c'.connector.state ≡ Connector.States.connected)
      × (connect sockfd' errno' c' ≡ none))
unfolding remove_connection
remove_connection-connect conn_name sockfd errno sockfd' errno' name c r there stays =
    rw (there, stays)
      (
        refl,
        refl,
        rests,
        connect-aborts sockfd' errno'
            (record c { current = none; destroying = c.destroying ++ conn_name ∷ [] }) rests,
      )
  where
    resting :
        (o : Option Current)
        → is_current conn_name o ≡ true
        → Connected o c.connector
        → Rests c.connector
    resting none e h = cc
    resting (some current) e h = h

    rests : Rests c.connector
    rests = resting c.current there (Reach-Inv name c r).rests
