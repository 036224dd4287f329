-- ===== src/Connection/Drained.antt =====
-- `handleWrite` of polaris/src/TCPConnection.cc: the output buffer goes to the kernel.
use mathlib.Core.List.{append-nil}
use lute.Buffer.Contents.{IsValid, Holds, retrieve-Holds}
use lute.Prelude.{
  ◌≡◌, ℕ, Bool, ◌++◌, false, ◌≤◌, Bool-cases, ltb, inl, true, inr, Returns, refl, Returns->>=,
  arith, ◌||◌, ◌&&◌, ◌==◌, if◌then◌else◌, sym, lt→ltb, ap, ◌∙◌, suc, take, ==_iff, drop, some, ◌<◌,
  if_lem, if_true, zero,
}
use lute.Buffer.{contents, retrieve, readable_bytes}
use lute.Connection.{
  Connection, WriteOutcome, wrote, write_failed, is_disconnected, is_disconnecting, queue,
  write_complete_task, handle_write, drained, shutdown_in_loop,
}
use lute.Connection.Stream.{Inv, Respects}

-- The last byte has gone: the write half is shut where the connection was waiting for that.
emptied_lem :
    (c : Connection) (cb leaving : Bool)
    → IsValid c.output
    → readable_bytes c.output ≡ 0
    → c.channel_writing ≡ false
    → (c.shut ≡ true → (is_disconnecting c.state || is_disconnected c.state) ≡ true)
    → is_disconnecting c.state ≡ leaving
    → let idle = if cb then queue write_complete_task c else c in
      let r = if leaving then shutdown_in_loop idle else idle in
      Inv r
      × (r.state ≡ c.state)
      × (r.sent ≡ c.sent)
      × (r.output ≡ c.output)
      × (r.shut ≡ (if leaving then true else c.shut))
unfolding shutdown_in_loop
emptied_lem c true true v none_left w fin e = rw w (
  record { output_valid = v; interest = λ up. rw none_left; fin = λ s. rw e },
  refl,
  refl,
  refl,
  refl,
)
emptied_lem c false true v none_left w fin e = rw w (
  record { output_valid = v; interest = λ up. rw none_left; fin = λ s. rw e },
  refl,
  refl,
  refl,
  refl,
)
emptied_lem c true false v none_left w fin e = (
  record { output_valid = v; interest = λ up. rw (w, none_left); fin = fin },
  refl,
  refl,
  refl,
  refl,
)
emptied_lem c false false v none_left w fin e = (
  record { output_valid = v; interest = λ up. rw (w, none_left); fin = fin },
  refl,
  refl,
  refl,
  refl,
)

-- The first `n` bytes of the output buffer have gone to the kernel; with the last of them, where the
-- connection is closing, the write half is shut.
abbrev pub Moved : ℕ → Connection → Connection → Type 0
Moved n c c' =
    Inv c'
    × (c'.state ≡ c.state)
    × (c'.sent ≡ c.sent ++ take n (contents c.output))
    × (contents c'.output ≡ drop n (contents c.output))
    × (c'.shut ≡ (
        if ltb 0 n && (readable_bytes c'.output == 0 && is_disconnecting c.state)
        then true
        else c.shut))

-- How much that is: what write(2) took, where the channel waits for the socket.
abbrev pub moved : WriteOutcome → Connection → ℕ
moved (wrote n) c = if c.channel_writing then n else 0
moved (write_failed errno) c = 0

both : (a b l : Bool) → a ≡ true → b ≡ true → (a && (b && l)) ≡ l
both a b l e f = rw (e, f) refl

neither : (a b l : Bool) → b ≡ false → (a && (b && l)) ≡ false
neither true b l e = rw e refl
neither false b l e = refl

none-Moved : (c : Connection) → Inv c → Moved 0 c c
none-Moved c inv = (inv, refl, sym (append-nil c.sent), refl, refl)

drained-Moved :
    (n : ℕ) (c : Connection)
    → Inv c
    → c.channel_writing ≡ true
    → ltb 0 n ≡ true
    → n ≤ readable_bytes c.output
    → Returns (drained n c) (Moved n c)
unfolding drained
drained-Moved n c inv writing pos h =
    Returns->>= (Holds (drop n (contents c.output))) _ (retrieve n c.output) _
      (retrieve-Holds n c.output inv.output_valid h)
      (λ output g. elim (Bool-cases (readable_bytes output == 0)) [
        | inl last ↦
            let taken = record c {
              sent = c.sent ++ take n (contents c.output);
              output = output;
              channel_writing = false;
            } in
            let (i, st, se, ou, shut) =
              emptied_lem taken c.has_write_complete (is_disconnecting c.state) g.0
                ((==_iff _ _).0 last) refl inv.fin refl in
            rw last (
              i,
              st,
              se,
              ap contents ou ∙ g.1,
              shut
                  ∙ sym (
                      ap {B = Bool} (λ t. if t then true else c.shut)
                        (both _ _ _ pos (ap (λ o. readable_bytes o == 0) ou ∙ last))),
            )
        | inr more ↦ rw more (
          record {
            output_valid = g.0;
            interest = λ up. writing ∙ sym (lt→ltb _ _ (not_zero (readable_bytes output) more));
            fin = inv.fin;
          },
          refl,
          refl,
          g.1,
          sym (
              ap {B = Bool} (λ t. if t then true else c.shut)
                (neither (ltb 0 n) _ (is_disconnecting c.state) more)),
        )
      ])
  where
    not_zero : (k : ℕ) → (k == 0) ≡ false → 0 < k
    not_zero k e = ground arith

-- On a connection that satisfies its invariant, where the kernel takes no more than the output
-- buffer holds: `handleWrite` moves just the bytes that the kernel took from the front of that buffer
-- behind those sent before, and none where the channel does not wait for the socket or write(2)
-- fails. The invariant is kept, so the channel stops waiting when the last byte has gone; a
-- connection that is closing then shuts its write half, which otherwise stays as it was.
pub handle_write-Moved :
    (outcome : WriteOutcome) (c : Connection)
    → Inv c
    → Respects outcome (readable_bytes c.output)
    → Returns (handle_write outcome c) (Moved (moved outcome c) c)
unfolding handle_write
handle_write-Moved (write_failed errno) c inv h =
    if_lem (λ m. Returns m (Moved 0 c)) c.channel_writing _ _ (none-Moved c inv) (none-Moved c inv)
handle_write-Moved (wrote n) c inv h = go n h c.channel_writing refl
  where
    go :
        (n : ℕ)
        → n ≤ readable_bytes c.output
        → (w : Bool) → c.channel_writing ≡ w
        → Returns
            (if w then (if ltb 0 n then drained n c else some c) else some c)
            (Moved (if w then n else 0) c)
    go n h false waits = none-Moved c inv
    go zero h true waits = none-Moved c inv
    go (suc n) h true waits =
        let pos : ltb 0 (suc n) ≡ true = lt→ltb _ _ (omega arith) in
        if_true (λ m. Returns m (Moved (suc n) c)) (ltb 0 (suc n)) _ _ pos
          (drained-Moved (suc n) c inv waits pos h)
