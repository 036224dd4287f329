-- ===== src/Connection/Told.antt =====
-- polaris/src/TCPConnection.cc: what each call leaves of what the user and the owner have been told.
use lute.Buffer.ReadFd.{ReadOutcome, failed, received, read_fd}
use lute.Buffer.{Buffer}
use lute.Connection.{
  send_in_loop, Connection, drained, StateE, connect_established, shutdown_in_loop, WriteOutcome,
  is_disconnected, wrote, queue, high_water_task, write_failed, is_disconnecting, is_connected,
  force_close, start_read_in_loop, stop_read_in_loop, handle_close, run_task, connect_destroyed,
  force_close_in_loop, send_task, is_connecting,
}
use lute.Connection.{
  send, shutdown, handle_read, handle_write, Task, shutdown_task, force_close_task,
  write_complete_task, send_task, high_water_task, remove_channel,
}
use lute.Prelude.{
  some, true, false, inl, inr, ◌||◌, ◌∷◌, ℕ, Bool, ◌≡◌, ◌∙◌, List, refl, ap, if◌then◌else◌, assert,
  not, length, ltb, ◌+◌, Bool-cases, subst, arith, sym, Whenever, if_true, if_false, if_lem,
  Whenever->>=, Whenever_map,
}
use lute.Connection.Calls.{
  Keeps, Told, LifeIn, Life, is_live, drained-Keeps, Told-Life, kept, Life-Keeps,
  send_in_loop-Keeps,
}

module _ (late : Bool) where
  pub established-Life :
      (s : StateE) (c : Connection)
      → c.state ≡ s
      → LifeIn s late c
      → Whenever (connect_established c) (Life late)
  unfolding connect_established
  established-Life StateE.connecting c e l =
      rw (e, connect_established) (ap (λ n. n + 1) l.0.0, l.0.1, l.0.2)
  established-Life StateE.connected c e l = rw (e, connect_established) tt
  established-Life StateE.disconnecting c e l = rw (e, connect_established) tt
  established-Life StateE.disconnected c e l = rw (e, connect_established) tt

  is_live_of_connected : (s : StateE) → is_connected s ≡ true → is_live s ≡ true
  is_live_of_connected StateE.disconnected e = cc
  is_live_of_connected StateE.connecting e = cc
  is_live_of_connected StateE.connected e = refl
  is_live_of_connected StateE.disconnecting e = cc

  is_live_lem : (s : StateE) → (is_connected s || is_disconnecting s) ≡ is_live s
  is_live_lem StateE.disconnected = refl
  is_live_lem StateE.connecting = refl
  is_live_lem StateE.connected = refl
  is_live_lem StateE.disconnecting = refl

  pub send-Life :
      (in_loop : Bool) (message : List ℕ) (outcome : WriteOutcome) (c : Connection)
      → Life late c
      → Whenever (send in_loop message outcome c) (Life late)
  unfolding send
  send-Life in_loop message outcome c l = elim (Bool-cases (is_connected c.state)) [
    | inl up ↦
        Whenever_map (Keeps c) (Life late) _
          (λ c' k. Life-Keeps late c c' (is_live_of_connected c.state up) k l)
          (if_true (λ m. Whenever m (Keeps c)) (is_connected c.state) _ _ up
            (if_lem (λ m. Whenever m (Keeps c)) in_loop _ _ (send_in_loop-Keeps message outcome c)
              (kept c)))
    | inr not_yet ↦ if_false (λ m. Whenever m (Life late)) (is_connected c.state) _ _ not_yet l
  ]

  Told-is_live : (c : Connection) → is_live c.state ≡ true → Life late c → Told 1 0 0 c
  Told-is_live c live l = Told-Life late c.state c live l

  shutdown_in_loop-Keeps : (c : Connection) → Keeps c (shutdown_in_loop c)
  unfolding shutdown_in_loop
  shutdown_in_loop-Keeps c = if_lem (Keeps c) c.channel_writing _ _ (kept c) (kept c)

  pub shutdown-Life :
      (in_loop : Bool) (c : Connection) → Life late c → Life late (shutdown in_loop c)
  unfolding shutdown
  shutdown-Life in_loop c l = elim (Bool-cases (is_connected c.state)) [
    | inl up ↦
        let told = Told-is_live c (is_live_of_connected c.state up) l in
        if_true (Life late) (is_connected c.state) _ _ up (
          if_lem (Life late) in_loop (shutdown_in_loop leaving) (queue shutdown_task leaving)
            (Life-Keeps late leaving (shutdown_in_loop leaving) refl
              (shutdown_in_loop-Keeps leaving) told)
            told)
    | inr not_yet ↦ if_false (Life late) (is_connected c.state) _ _ not_yet l
  ]
    where
      leaving : Connection
      leaving = record c { state = StateE.disconnecting }

  pub force_close-Life : (c : Connection) → Life late c → Life late (force_close c)
  unfolding force_close
  force_close-Life c l = elim (Bool-cases (is_live c.state)) [
    | inl live ↦
        let told = Told-is_live c live l in
        if_true (Life late) (is_connected c.state || is_disconnecting c.state) _ _
          (is_live_lem c.state ∙ live) told
    | inr gone ↦
        if_false (Life late) (is_connected c.state || is_disconnecting c.state) _ _
          (is_live_lem c.state ∙ gone) l
  ]

  -- A change of the channel's reading, or of the input, is no matter to the rest.
  pub start_read-Life :
      (c : Connection) → Life late c → Life (not (is_live c.state) || late) (start_read_in_loop c)
  unfolding start_read_in_loop
  start_read-Life c l =
      if_lem (Life (not (is_live c.state) || late)) (not c.reading || not c.channel_reading) _ _
        (started c.state l) (same c.state l)
    where
      started :
          (s : StateE)
          → LifeIn s late c
          → LifeIn s
              (not (is_live s) || late)
              (record c { channel_reading = true; reading = true; registered = true })
      started StateE.connecting l = (l.0, inr refl, l.2, l.3)
      started StateE.connected l = l
      started StateE.disconnecting l = l
      started StateE.disconnected l = (l.0, l.1, l.2, inr refl, l.4)

      same : (s : StateE) → LifeIn s late c → LifeIn s (not (is_live s) || late) c
      same StateE.connecting l = (l.0, inr refl, l.2, l.3)
      same StateE.connected l = l
      same StateE.disconnecting l = l
      same StateE.disconnected l = (l.0, l.1, l.2, inr refl, l.4)

  pub stop_read-Life : (c : Connection) → Life late c → Life late (stop_read_in_loop c)
  unfolding stop_read_in_loop
  stop_read-Life c l = if_lem (Life late) (c.reading || c.channel_reading) _ _ (stopped c.state l) l
    where
      stopped :
          (s : StateE)
          → LifeIn s late c
          → LifeIn s late (record c { channel_reading = false; reading = false; registered = true })
      stopped StateE.connecting l = (l.0, inl l.2, l.2, l.3)
      stopped StateE.connected l = l
      stopped StateE.disconnecting l = l
      stopped StateE.disconnected l = (l.0, l.1, l.2, inl l.4, l.4)

  handle_close-Life : (c : Connection) → Told 1 0 0 c → Whenever (handle_close c) (Life late)
  unfolding handle_close
  handle_close-Life c told =
      Whenever->>= (Life late) (assert (is_connected c.state || is_disconnecting c.state)) _
        (λ _. (told.0, ap (λ n. n + 1) told.1, omega (arith, told.2), inl refl, refl))

  pub handle_close-any : (c : Connection) → Life late c → Whenever (handle_close c) (Life late)
  unfolding handle_close
  handle_close-any c l = elim (Bool-cases (is_live c.state)) [
    | inl live ↦ handle_close-Life c (Told-is_live c live l)
    | inr gone ↦ rw (is_live_lem c.state ∙ gone) tt
  ]

  given-Life :
      (s : StateE) (c : Connection) (input : Buffer)
      → LifeIn s late c
      → LifeIn s late (record c { input = input })
  given-Life StateE.connecting c input l = l
  given-Life StateE.connected c input l = l
  given-Life StateE.disconnecting c input l = l
  given-Life StateE.disconnected c input l = l

  pub handle_read-Life :
      (message_callback : Buffer → Buffer) (readv : List ℕ → ReadOutcome) (c : Connection)
      → Life late c
      → Whenever (handle_read message_callback readv c) (Life late)
  unfolding handle_read
  handle_read-Life message_callback readv c l =
      Whenever->>= (Life late) (read_fd readv c.input) _ (λ r. go r.0 r.1)
    where
      go :
          (outcome : ReadOutcome) (input : Buffer)
          → Whenever
              (elim outcome [
                | failed errno ↦ some c
                | received bytes ↦
                    if ltb 0 (length bytes)
                    then some (record c { input = message_callback input })
                    else handle_close (record c { input = input })
              ])
              (Life late)
      go (failed errno) input = l
      go (received bytes) input =
          if_lem (λ m. Whenever m (Life late)) (ltb 0 (length bytes)) _ _
            (given-Life c.state c (message_callback input) l)
            (handle_close-any (record c { input = input }) (given-Life c.state c input l))

  pub handle_write-Keeps :
      (outcome : WriteOutcome) (c : Connection) → Whenever (handle_write outcome c) (Keeps c)
  unfolding handle_write
  handle_write-Keeps outcome c =
      if_lem (λ m. Whenever m (Keeps c)) c.channel_writing _ _ (go outcome) (kept c)
    where
      go :
          (outcome : WriteOutcome)
          → Whenever
              (elim outcome [
                | wrote n ↦ if ltb 0 n then drained n c else some c
                | write_failed errno ↦ some c
              ])
              (Keeps c)
      go (wrote n) = if_lem (λ m. Whenever m (Keeps c)) (ltb 0 n) _ _ (drained-Keeps n c) (kept c)
      go (write_failed errno) = kept c

  run_task-live :
      (task : Task) (outcome : WriteOutcome) (c : Connection)
      → is_live c.state ≡ true
      → Life late c
      → Whenever (run_task task outcome c) (Life late)
  unfolding run_task force_close_in_loop
  run_task-live (send_task message) outcome c live l =
      Whenever_map (Keeps c) (Life late) _ (λ c' k. Life-Keeps late c c' live k l)
        (send_in_loop-Keeps message outcome c)
  run_task-live shutdown_task outcome c live l =
      Life-Keeps late c (shutdown_in_loop c) live (shutdown_in_loop-Keeps c) l
  run_task-live force_close_task outcome c live l =
      if_lem (λ m. Whenever m (Life late)) (is_connected c.state || is_disconnecting c.state) _ _
        (handle_close-Life c (Told-is_live c live l)) l
  run_task-live write_complete_task outcome c live l = l
  run_task-live (high_water_task n) outcome c live l = l

  shut-Life :
      (s : StateE) (c : Connection) → LifeIn s late c → LifeIn s late (record c { shut = true })
  shut-Life StateE.connecting c l = l
  shut-Life StateE.connected c l = l
  shut-Life StateE.disconnecting c l = l
  shut-Life StateE.disconnected c l = l

  -- A functor that runs after the close finds nothing to do.
  run_task-gone :
      (task : Task) (outcome : WriteOutcome) (c : Connection)
      → c.state ≡ StateE.disconnected
      → Life late c
      → Whenever (run_task task outcome c) (Life late)
  unfolding run_task shutdown_in_loop force_close_in_loop send_in_loop
  run_task-gone (send_task message) outcome c e l =
      if_true (λ m. Whenever m (Life late)) (is_disconnected c.state) _ _ (ap is_disconnected e) l
  run_task-gone shutdown_task outcome c e l =
      if_lem (Life late) c.channel_writing _ _ l (shut-Life c.state c l)
  run_task-gone force_close_task outcome c e l =
      if_false (λ m. Whenever m (Life late)) (is_connected c.state || is_disconnecting c.state) _ _
        (is_live_lem c.state ∙ ap is_live e) l
  run_task-gone write_complete_task outcome c e l = l
  run_task-gone (high_water_task n) outcome c e l = l

  popped-Life :
      (s : StateE) (rest : List Task) (c : Connection)
      → is_connecting s ≡ false
      → LifeIn s late c
      → LifeIn s late (record c { pending = rest })
  popped-Life StateE.connecting rest c e l = cc
  popped-Life StateE.connected rest c e l = l
  popped-Life StateE.disconnecting rest c e l = l
  popped-Life StateE.disconnected rest c e l = l

  pub run_task-Life :
      (s : StateE) (task : Task) (rest : List Task) (outcome : WriteOutcome) (c : Connection)
      → c.state ≡ s
      → c.pending ≡ task ∷ rest
      → LifeIn s late c
      → Whenever (run_task task outcome (record c { pending = rest })) (Life late)
  run_task-Life StateE.connecting task rest outcome c e p l = cc
  run_task-Life StateE.connected task rest outcome c e p l =
      run_task-live task outcome (record c { pending = rest }) (ap is_live e)
        (subst (λ s. LifeIn s late (record c { pending = rest })) (sym e) l)
  run_task-Life StateE.disconnecting task rest outcome c e p l =
      run_task-live task outcome (record c { pending = rest }) (ap is_live e)
        (subst (λ s. LifeIn s late (record c { pending = rest })) (sym e) l)
  run_task-Life StateE.disconnected task rest outcome c e p l =
      run_task-gone task outcome (record c { pending = rest }) e
        (subst (λ s. LifeIn s late (record c { pending = rest })) (sym e) l)

  removed-Life :
      (s : StateE) (c : Connection)
      → LifeIn s late c
      → LifeIn s late (record c { registered = false })
  removed-Life StateE.connecting c l = l
  removed-Life StateE.connected c l = l
  removed-Life StateE.disconnecting c l = l
  removed-Life StateE.disconnected c l = l

  pub connect_destroyed-Life :
      (c : Connection) → Life late c → Whenever (connect_destroyed c) (Life late)
  unfolding connect_destroyed
  connect_destroyed-Life c l = elim (Bool-cases (is_connected c.state)) [
    | inl up ↦
        let told = Told-is_live c (is_live_of_connected c.state up) l in
        if_true (λ d. Whenever (remove_channel d) (Life late)) (is_connected c.state) _ _ up
          (told.0, ap (λ n. n + 1) told.1, omega (arith, told.2), inl refl, refl)
    | inr down ↦
        if_false (λ d. Whenever (remove_channel d) (Life late)) (is_connected c.state) _ _ down
          (Whenever->>= (Life late) (assert (not (c.channel_reading || c.channel_writing))) _
            (λ _. removed-Life c.state c l))
  ]

  pub writing-is_live :
      (s : StateE) (c : Connection) → LifeIn s late c → c.channel_writing ≡ true → is_live s ≡ true
  writing-is_live StateE.connecting c l e = absurd (cc (sym l.2 ∙ e))
  writing-is_live StateE.connected c l e = refl
  writing-is_live StateE.disconnecting c l e = refl
  writing-is_live StateE.disconnected c l e = absurd (cc (sym l.4 ∙ e))
