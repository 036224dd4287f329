-- ===== src/Client/Rests.antt =====
-- The connector of polaris/src/TCPClient.cc while the client has a connection: it rests in kConnected.
use lute.Connector.{Connector}
use lute.Client.{handed_one}
use lute.Connector
use lute.Prelude.{
  ◌>>◌, none, some, true, false, inl, inr, [], ◌∷◌, ◌++◌, ◌>>=◌, ℕ, Option, Whenever_at, ◌≡◌,
  if_false, length, Whenever, Bool, ap, assert, sym, not, if◌then◌else◌, ◌∙◌, Whenever->>=, ◌==◌,
  ltb, if_lem, arith, ltb→lt, le→ltb-false, Bool-cases, if_true, refl,
}

-- What the connector does on its own: a functor of its queue or a timer, or an error on its channel.
pub data ConnectorStep (k k' : Connector) : Type 0 where
  stops_in_loop : Connector.stop_in_loop k ≡ some k' → ConnectorStep k k'
  resets : Connector.reset_channel k ≡ some k' → ConnectorStep k k'
  starts_again :
      (sockfd errno : ℕ) → Connector.start_in_loop sockfd errno k ≡ some k' → ConnectorStep k k'
  errs : Connector.handle_error k ≡ some k' → ConnectorStep k k'

abbrev pub Rests : Connector → Type 0
Rests k = k.state ≡ Connector.States.connected

not_connecting : (k : Connector) → Rests k → Connector.is_connecting k.state ≡ false
not_connecting k e = ap Connector.is_connecting e

pub not_disconnected : (k : Connector) → Rests k → Connector.is_disconnected k.state ≡ false
not_disconnected k e = ap Connector.is_disconnected e

-- `startInLoop` aborts a connector that is connected.
pub start_in_loop_aborts :
    (sockfd errno : ℕ) (k : Connector)
    → Connector.is_disconnected k.state ≡ false
    → Connector.start_in_loop sockfd errno k ≡ none
unfolding Connector.start_in_loop
start_in_loop_aborts sockfd errno k e =
    ap
      (λ t.
        assert t >>= λ _. (if k.connect_wanted then Connector.connect sockfd errno k else some k))
      e

reset_channel-Rests : (k : Connector) → Rests k → Whenever (Connector.reset_channel k) Rests
unfolding Connector.reset_channel
reset_channel-Rests k h = go k.channel
  where
    go :
        (o : Option Connector.ConnectorChannel)
        → Whenever
            (elim o [
              | none ↦ some k
              | some channel ↦ assert (not channel.registered) >> some (record k { channel = none })
            ])
            Rests
    go none = h
    go (some channel) = Whenever->>= Rests (assert (not channel.registered)) _ (λ _. h)

pub ConnectorStep-Rests : (k k' : Connector) → ConnectorStep k k' → Rests k → Rests k'
unfolding Connector.stop_in_loop Connector.handle_error
ConnectorStep-Rests k k' (stops_in_loop e) h =
    Whenever_at Rests _ k' e (
      if_false (λ m. Whenever m Rests) (Connector.is_connecting k.state) _ _ (not_connecting k h) h)
ConnectorStep-Rests k k' (errs e) h =
    Whenever_at Rests _ k' e (
      if_false (λ m. Whenever m Rests) (Connector.is_connecting k.state) _ _ (not_connecting k h) h)
ConnectorStep-Rests k k' (resets e) h = Whenever_at Rests _ k' e (reset_channel-Rests k h)
ConnectorStep-Rests k k' (starts_again sockfd errno e) h =
    absurd (cc (sym (start_in_loop_aborts sockfd errno k (not_disconnected k h)) ∙ e))

no_hand : (n : ℕ) → ltb n n ≡ true → ⊥
no_hand n e = omega (arith, ltb→lt n n e)

-- The callback of the connector comes only from an attempt under way, which it ends.
abbrev pub Hands : Connector → Connector → Type 0
Hands k k' = (handed_one k k' ≡ true → Rests k') × (Rests k → ⊥)

retry-Hands :
    (k k' : Connector) (sockfd : ℕ)
    → ltb (length k.handed) (length k'.handed) ≡ false
    → (Rests k → ⊥)
    → Hands k (Connector.retry sockfd k')
unfolding Connector.retry Connector.close
retry-Hands k k' sockfd same busy =
    if_lem (Hands k) k'.connect_wanted _ _ ((λ e. cc), busy) ((λ e. cc), busy)

pub handle_write-Hands :
    (error : ℕ) (self_connect : Bool) (k : Connector)
    → Whenever (Connector.handle_write error self_connect k) (Hands k)
unfolding Connector.handle_write Connector.remove_and_reset_channel Connector.close
handle_write-Hands error self_connect k = elim (Bool-cases (Connector.is_connecting k.state)) [
  | inl up ↦
      if_true (λ m. Whenever m (Hands k)) (Connector.is_connecting k.state) _ _ up
        (go k.channel (λ h. cc (sym up ∙ not_connecting k h)))
  | inr down ↦
      if_false (λ m. Whenever m (Hands k)) (Connector.is_connecting k.state) _ _ down
        (idle (Connector.is_disconnected k.state) refl)
]
  where
    idle :
        (t : Bool) → Connector.is_disconnected k.state ≡ t → Whenever (assert t >> some k) (Hands k)
    idle true e =
        ((λ h. absurd (no_hand (length k.handed) h)), (λ h. cc (sym e ∙ not_disconnected k h)))
    idle false e = tt

    freed : Connector.ConnectorChannel → Connector
    freed channel = record k {
      channel = some (record channel { registered = false });
      pending = k.pending ++ Connector.reset_channel_task ∷ [];
    }

    go :
        (o : Option Connector.ConnectorChannel)
        → (Rests k → ⊥)
        → Whenever
            ((elim o [ none ↦ none | some channel ↦ some (channel.fd, freed channel) ])
              >>= λ (sockfd, c'). some (
                  if not (error == 0)
                  then Connector.retry sockfd c'
                  else if self_connect
                  then Connector.retry sockfd c'
                  else if k.connect_wanted
                  then record c' {
                    state = Connector.States.connected;
                    handed = c'.handed ++ sockfd ∷ [];
                  }
                  else Connector.close sockfd (record c' { state = Connector.States.connected })))
            (Hands k)
    go none busy = tt
    go (some channel) busy =
        if_lem (Hands k) (not (error == 0)) _ _
          (retry-Hands k (freed channel) channel.fd (le→ltb-false _ _ (omega arith)) busy)
          (if_lem (Hands k) self_connect _ _
            (retry-Hands k (freed channel) channel.fd (le→ltb-false _ _ (omega arith)) busy)
            (if_lem (Hands k) k.connect_wanted _ _ ((λ e. refl), busy) ((λ e. refl), busy)))
