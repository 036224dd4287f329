-- ===== src/Connection/Stream.antt =====
-- The bytes of a connection of polaris/src/TCPConnection.cc: those that the kernel has taken,
-- followed by those that wait in the output buffer.
use mathlib.Core.Path.{ap₂}
use mathlib.Core.List.{append-nil, append_assoc}
use lute.Buffer.Contents.{IsValid, Fits, Holds, append-Holds, length-contents}
use lute.Prelude.{
  ◌≡◌, ℕ, List, Bool, ◌++◌, false, ◌≤◌, Bool-cases, ltb, not, inl, length, true, inr, Returns, refl,
  Returns->>=, arith, ◌||◌, ◌∷◌, ◌&&◌, ◌==◌, if◌then◌else◌, sym, lt→ltb, [], assert->>, le→leb, ap,
  length-append, ◌∙◌, suc, Returns_map, take, take-append-drop, ◌-◌, ==_iff, subst,
}
use lute.Buffer.{Buffer, contents, readable_bytes}
use lute.Connection.{
  Connection, WriteOutcome, wrote, write_failed, buffer_rest, write_completed, is_disconnected,
  is_disconnecting, after_write, ewouldblock, epipe, econnreset, direct_write, send_in_loop, queue,
  write_complete_task,
}

abbrev pub stream : Connection → List ℕ
stream c = c.sent ++ contents c.output

-- The output buffer is in order, and the channel waits for the socket exactly while it holds bytes.
pub record Inv (c : Connection) : Type 0 where
  pub output_valid : IsValid c.output
  pub interest :
      is_disconnected c.state ≡ false → c.channel_writing ≡ ltb 0 (readable_bytes c.output)
  pub fin : c.shut ≡ true → (is_disconnecting c.state || is_disconnected c.state) ≡ true

-- write(2): no more bytes than it was given.
abbrev pub Respects : WriteOutcome → ℕ → Type 0
Respects (wrote n) len = n ≤ len
Respects (write_failed errno) len = Unit {0}

-- A direct write that fails because the peer is gone.
abbrev pub loses : WriteOutcome → Connection → Bool
loses (wrote n) c = false
loses (write_failed errno) c =
    (not c.channel_writing && readable_bytes c.output == 0)
    && (not (errno == ewouldblock) && (errno == epipe || errno == econnreset))

-- What the steps of a send leave alone.
record Frame (c c' : Connection) : Type 0 where
  same_state : c'.state ≡ c.state
  same_shut : c'.shut ≡ c.shut
  same_writing : c'.channel_writing ≡ c.channel_writing
  same_output : c'.output ≡ c.output

Frame-refl : (c : Connection) → Frame c c
Frame-refl c = record {
  same_state = refl;
  same_shut = refl;
  same_writing = refl;
  same_output = refl;
}

-- `if (remaining == 0 && writeCompleteCallback_)`
completing_lem :
    (c : Connection) (all cb : Bool)
    → Frame c (if all then (if cb then queue write_complete_task c else c) else c)
      × ((if all then (if cb then queue write_complete_task c else c) else c).sent ≡ c.sent)
completing_lem c true true =
    (record { same_state = refl; same_shut = refl; same_writing = refl; same_output = refl }, refl)
completing_lem c true false = (Frame-refl c, refl)
completing_lem c false cb = (Frame-refl c, refl)

-- What `buffer_rest` gives.
abbrev Buffered : List ℕ → Connection → Connection → Type 0
Buffered rest c c' =
    Holds (contents c.output ++ rest) c'.output
    × (c'.channel_writing ≡ true)
    × (c'.sent ≡ c.sent)
    × (c'.state ≡ c.state)
    × (c'.shut ≡ c.shut)

buffer_rest_lem :
    (rest : List ℕ) (c : Connection)
    → IsValid c.output
    → Fits (length rest) c.output
    → Returns (buffer_rest rest c) (Buffered rest c)
unfolding buffer_rest
buffer_rest_lem rest c v f =
    Returns->>= (Holds (contents c.output ++ rest)) _ _ _ (append-Holds rest c.output v f)
      (λ output h. (h, refl, ground arith, ground arith, ground arith))

Buffered-Inv :
    (c c' : Connection) (x : ℕ) (rest : List ℕ) → Inv c → Buffered (x ∷ rest) c c' → Inv c'
Buffered-Inv c c' x rest inv (holds, writing, taken, same, shut) = record {
  output_valid = holds.0;
  interest = λ up. rw writing (
      sym (
        lt→ltb _ _ (
          omega (
            arith,
            length-contents c'.output holds.0,
            ap length holds.1,
            length-append (contents c.output) (x ∷ rest),
          ))));
  fin = λ s. rw same (inv.fin (sym shut ∙ s));
}

-- A send that puts `bytes` at the end of the stream.
abbrev pub Extends : List ℕ → Connection → Connection → Type 0
Extends bytes c c' = Inv c' × (c'.state ≡ c.state) × (stream c' ≡ stream c ++ bytes)

Extends-refl : (c : Connection) → Inv c → Extends [] c c
Extends-refl c inv = (inv, refl, sym (append-nil (stream c)))

Buffered-Extends :
    (c c' : Connection) (x : ℕ) (rest : List ℕ)
    → Inv c
    → Buffered (x ∷ rest) c c'
    → Extends (x ∷ rest) c c'
Buffered-Extends c c' x rest inv r = (
  Buffered-Inv c c' x rest inv r,
  r.3,
  ap₂ (λ s o. s ++ o) r.2 r.0.1 ∙ sym (append_assoc c.sent (contents c.output) (x ∷ rest)),
)

after_write_lem :
    (message : List ℕ) (c : Connection) (rest : List ℕ) (fault : Bool)
    → Inv c
    → length rest ≤ length message
    → Fits (length rest) c.output
    → Returns (after_write message c rest fault) (Extends (if fault then [] else rest) c)
unfolding after_write
after_write_lem message c rest true inv short f =
    assert->> _ _ _ (le→leb _ _ short) (Extends-refl c inv)
after_write_lem message c [] false inv short f =
    assert->> _ _ _ (le→leb _ _ short) (Extends-refl c inv)
after_write_lem message c (x ∷ rest) false inv short f = assert->> _ _ _ (le→leb _ _ short) (
    rw (lt→ltb 0 (suc (length rest)) (omega arith)) (
      Returns_map (Buffered (x ∷ rest) c) (Extends (x ∷ rest) c) _
        (λ c' r. Buffered-Extends c c' x rest inv r)
        (buffer_rest_lem (x ∷ rest) c inv.output_valid f)))

-- A connection with nothing in its output buffer, after the kernel took the first bytes.
taken_lem :
    (c c' : Connection) (bytes : List ℕ)
    → Inv c
    → Frame c c'
    → c'.sent ≡ c.sent ++ bytes
    → contents c.output ≡ []
    → Extends bytes c c'
taken_lem c c' bytes inv same e empty = (
  record {
    output_valid = rw same.same_output inv.output_valid;
    interest = λ up.
        rw (same.same_writing, same.same_output)
          (inv.interest (ap is_disconnected (sym same.same_state) ∙ up));
    fin = λ s. rw same.same_state (inv.fin (sym same.same_shut ∙ s));
  },
  same.same_state,
  rw (e, same.same_output, empty, append-nil, append-nil),
)

direct_write_lem :
    (message : List ℕ) (outcome : WriteOutcome) (c : Connection)
    → Inv c
    → contents c.output ≡ []
    → Respects outcome (length message)
    → let w = direct_write message outcome c in
      (bytes : List ℕ) × Extends bytes c w.0 × (bytes ++ w.1 ≡ message) × (w.0.output ≡ c.output)
unfolding direct_write
direct_write_lem message (wrote n) c inv empty h = (
  take n message,
  taken_lem c _ (take n message) inv (frame n).0 (frame n).1 empty,
  take-append-drop n message,
  (frame n).0.same_output,
)
  where
    frame :
        (k : ℕ)
        → let taken = record c { sent = c.sent ++ take k message } in
          Frame c (if length message - k == 0 then write_completed taken else taken)
          × ((if length message - k == 0 then write_completed taken else taken).sent
              ≡ c.sent ++ take k message)
    frame k =
        let (f, e) =
          completing_lem (record c { sent = c.sent ++ take k message }) (length message - k == 0)
            c.has_write_complete in
        (
          record {
            same_state = f.same_state;
            same_shut = f.same_shut;
            same_writing = f.same_writing;
            same_output = f.same_output;
          },
          e,
        )
direct_write_lem message (write_failed errno) c inv empty h = ([], Extends-refl c inv, refl, refl)

-- What `sendInLoop` adds to the stream: the whole message, or nothing where the peer is gone.
abbrev pub delivered : List ℕ → WriteOutcome → Connection → List ℕ
delivered message outcome c = if loses outcome c then [] else message

readable-nil : (b : Buffer) → IsValid b → (readable_bytes b == 0) ≡ true → contents b ≡ []
readable-nil b v e = length-nil (contents b) (length-contents b v ∙ (==_iff _ _).0 e)
  where
    length-nil : (xs : List ℕ) → length xs ≡ 0 → xs ≡ []
    length-nil [] h = refl
    length-nil (x ∷ xs) h = absurd (omega arith)

Extends-trans :
    (first later : List ℕ) (c c₁ c₂ : Connection)
    → Extends first c c₁
    → Extends later c₁ c₂
    → Extends (first ++ later) c c₂
Extends-trans first later c c₁ c₂ (i, s, e) (i', s', e') =
    (i', s' ∙ s, e' ∙ ap (λ x. x ++ later) e ∙ append_assoc (stream c) first later)

&&-right : (a b : Bool) → (a && b) ≡ true → b ≡ true
&&-right true b h = h
&&-right false b h = cc

busy_delivered :
    (message : List ℕ) (outcome : WriteOutcome) (c : Connection)
    → (not c.channel_writing && readable_bytes c.output == 0) ≡ false
    → delivered message outcome c ≡ message
busy_delivered message (wrote n) c busy = refl
busy_delivered message (write_failed errno) c busy = rw busy

idle_send :
    (message : List ℕ) (outcome : WriteOutcome) (c : Connection)
    → Inv c
    → (not c.channel_writing && readable_bytes c.output == 0) ≡ true
    → contents c.output ≡ []
    → Respects outcome (length message)
    → Fits (length message) c.output
    → Returns
        (let (c', rest, fault) = direct_write message outcome c in
          after_write message c' rest fault)
        (Extends (delivered message outcome c) c)
unfolding direct_write
idle_send message (wrote n) c inv idle empty h f =
    let (bytes, e, whole, same) = direct_write_lem message (wrote n) c inv empty h in
    let w = direct_write message (wrote n) c in
    let short : length w.1 ≤ length message =
      omega (arith, ap length whole, length-append bytes w.1) in
    let room : Fits (length w.1) c.output = omega arith in
    Returns_map (Extends w.1 w.0) (Extends message c) (after_write message w.0 w.1 false)
      (λ c' x. subst (λ m. Extends m c c') whole (Extends-trans bytes w.1 c w.0 c' e x))
      (after_write_lem message w.0 w.1 false e.0 short (subst (Fits (length w.1)) (sym same) room))
idle_send message (write_failed errno) c inv idle empty h f = rw idle (
    after_write_lem message c message
      (not (errno == ewouldblock) && (errno == epipe || errno == econnreset)) inv (omega arith) f)

-- On a connection that is not down and satisfies its invariant, where the kernel takes no more than
-- it is given and the message fits the output buffer, `sendInLoop` puts its message behind all that
-- was sent before, whether the kernel takes all of it, a part or nothing; only a direct write that
-- meets EPIPE or ECONNRESET drops it. The connection stays in its state and keeps its invariant.
pub send_in_loop-Extends :
    (message : List ℕ) (outcome : WriteOutcome) (c : Connection)
    → Inv c
    → is_disconnected c.state ≡ false
    → Respects outcome (length message)
    → Fits (length message) c.output
    → Returns (send_in_loop message outcome c) (Extends (delivered message outcome c) c)
unfolding send_in_loop
send_in_loop-Extends message outcome c inv up h f =
    elim (Bool-cases (not c.channel_writing && readable_bytes c.output == 0)) [
      | inl idle ↦
          rw (up, idle)
            (idle_send message outcome c inv idle
              (readable-nil c.output inv.output_valid (&&-right _ _ idle)) h f)
      | inr busy ↦
          rw (up, busy)
            (subst (λ m. Returns (after_write message c message false) (Extends m c))
              (sym (busy_delivered message outcome c busy))
              (after_write_lem message c message false inv (omega arith) f))
    ]
