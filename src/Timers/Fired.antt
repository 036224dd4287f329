-- ===== src/Timers/Fired.antt =====
-- `handleRead` of polaris/src/TimerQueue.cc: the expired timers, their callbacks, and `reset`.
use lute.Timers.{
  TimerQueue, Entry, reset, handle_read, run_callbacks, get_expired, max_address, split_due,
  sizes_agree, starts_later, erase_active,
}
use lute.Timers.Sets.{Each, Distinct, Apart, copies, Distinct-append, Each-append}
use lute.Timers.Expired.{Objects, keys, Splits, get_expired-Splits}
use lute.Timers.Matched.{Matched, Expires, keys-append}
use lute.Prelude.{
  [], ◌∷◌, true, false, ℕ, ◌≡◌, List, Returns, sym, Bool, ap, refl, Returns->>=, Option, subst,
  arith, ◌<◌, Whenever, Returns_and, Whenever->>=, assert,
}
use lute.Timers.Restarted.{reset_timers-Matched, arm_next-Matched}

module _ (Seconds : Type 0) (add_time : ℕ → Seconds → ℕ) where
  -- The callbacks leave the two sets matched, and the timers that are being called in neither, as
  -- adding and cancelling do.
  abbrev pub Behaves :
      List Entry → (ℕ → TimerQueue Seconds add_time → Option (TimerQueue Seconds add_time)) → Type 0
  Behaves expired run =
      (callback : ℕ) (q : TimerQueue Seconds add_time)
      → Expires Seconds add_time expired q
      → Returns (run callback q) (Expires Seconds add_time expired)

  run_callbacks-Expires :
      (run : ℕ → TimerQueue Seconds add_time → Option (TimerQueue Seconds add_time))
      (expired todo : List Entry) (q : TimerQueue Seconds add_time)
      → Behaves expired run
      → Expires Seconds add_time expired q
      → Returns (run_callbacks Seconds add_time run todo q) (Expires Seconds add_time expired)
  unfolding run_callbacks
  run_callbacks-Expires run expired [] q b x = x
  run_callbacks-Expires run expired ((time, p) ∷ todo) q b x =
      Returns->>= (Expires Seconds add_time expired) (Expires Seconds add_time expired)
        (run (q.objects p).callback q) _ (b (q.objects p).callback q x)
        (λ q' x'. run_callbacks-Expires run expired todo q' b x')

  -- The flags of the calls do not matter to the two sets.
  Expires-flags :
      (expired : List Entry) (q : TimerQueue Seconds add_time) (calling : Bool)
      (canceling : List Entry)
      → Expires Seconds add_time expired q
      → Expires Seconds add_time expired (record q { calling = calling; canceling = canceling })
  Expires-flags expired q calling canceling x = record {
    matching = record {
      in_step = record {
        sizes = x.matching.in_step.sizes;
        known = x.matching.in_step.known;
        distinct = x.matching.in_step.distinct;
        ordered = x.matching.in_step.ordered;
        addressed = x.matching.in_step.addressed;
      };
      timed = x.matching.timed;
      matched = x.matching.matched;
    };
    apart = x.apart;
    distinct = x.distinct;
    addressed = x.addressed;
  }

  pub Expires-alarm :
      (expired : List Entry) (q : TimerQueue Seconds add_time) (alarm : Option ℕ)
      → Expires Seconds add_time expired q
      → Expires Seconds add_time expired (record q { alarm = alarm })
  Expires-alarm expired q alarm x = record {
    matching = record {
      in_step = record {
        sizes = x.matching.in_step.sizes;
        known = x.matching.in_step.known;
        distinct = x.matching.in_step.distinct;
        ordered = x.matching.in_step.ordered;
        addressed = x.matching.in_step.addressed;
      };
      timed = x.matching.timed;
      matched = x.matching.matched;
    };
    apart = x.apart;
    distinct = x.distinct;
    addressed = x.addressed;
  }

  Splits-Expires :
      (now : ℕ) (q : TimerQueue Seconds add_time) (r : List Entry × TimerQueue Seconds add_time)
      → Matched Seconds add_time q
      → Splits Seconds add_time now q r
      → Expires Seconds add_time r.0 r.1
  Splits-Expires now q r m (whole, due, later, step, objects, counted) =
      let (distinct, others, apart) =
        Distinct-append r.0 r.1.timers (subst Distinct (sym whole) m.in_step.distinct) in
      let timed =
        Each-append (λ x. x.0 ≡ (q.objects x.1).expiration) r.0 r.1.timers
          (subst (Each (λ x. x.0 ≡ (q.objects x.1).expiration)) (sym whole) m.timed) in
      record {
        matching = record {
          in_step = step;
          timed =
              subst
                (λ (o : Objects Seconds add_time). Each (λ x. x.0 ≡ (o x.1).expiration) r.1.timers)
                (sym objects) timed.1;
          matched = λ f. omega (
            arith,
            m.matched f,
            counted f,
            keys-append Seconds add_time q.objects f r.0 r.1.timers,
            ap (λ xs. copies f (keys Seconds add_time q.objects xs)) whole,
            ap (λ o. copies f (keys Seconds add_time o r.1.timers)) objects,
          );
        };
        apart = swapped r.0 r.1.timers apart;
        distinct = distinct;
        addressed =
            (Each-append (λ x. x.1 < max_address) r.0 r.1.timers
              (subst (Each (λ x. x.1 < max_address)) (sym whole) m.in_step.addressed)).0;
      }
    where
      first_apart :
          (x : Entry) (xs ys : List Entry) → Each (λ y. Apart y.1 (x ∷ xs)) ys → Apart x.1 ys
      first_apart x xs [] h = tt
      first_apart x xs (y ∷ ys) (h, hs) = ((λ e. h.0 (sym e)), first_apart x xs ys hs)

      rest_apart :
          (x : Entry) (xs ys : List Entry)
          → Each (λ y. Apart y.1 (x ∷ xs)) ys
          → Each (λ y. Apart y.1 xs) ys
      rest_apart x xs [] h = tt
      rest_apart x xs (y ∷ ys) (h, hs) = (h.1, rest_apart x xs ys hs)

      swapped : (xs ys : List Entry) → Each (λ y. Apart y.1 xs) ys → Each (λ x. Apart x.1 ys) xs
      swapped [] ys h = tt
      swapped (x ∷ xs) ys h = (first_apart x xs ys h, swapped xs ys (rest_apart x xs ys h))

  -- The timers that are due now, first in the set.
  abbrev pub due : ℕ → TimerQueue Seconds add_time → List Entry
  due now q = (split_due now q.timers).0

  get_expired-due :
      (now : ℕ) (q : TimerQueue Seconds add_time)
      → Whenever {A = List Entry × TimerQueue Seconds add_time}
          (get_expired Seconds add_time now q)
          (λ r. r.0 ≡ due now q)
  unfolding get_expired
  get_expired-due now q = Whenever->>= _ (assert (sizes_agree Seconds add_time q)) _ (λ _.
      Whenever->>= _ (assert (starts_later now (split_due now q.timers).1)) _ (λ _.
        Whenever->>= _ (erase_active Seconds add_time q.objects (split_due now q.timers).0 q.active)
          _
          (λ active.
            Whenever->>= {A = List Entry × TimerQueue Seconds add_time} (λ r. r.0 ≡ due now q)
              (assert (
                sizes_agree Seconds add_time
                  (record q { timers = (split_due now q.timers).1; active = active })))
              _ (λ _. refl))))

  -- From two sets that hold the same timers, `handleRead` gets through, with every assert on the way,
  -- and they still do, if the callbacks leave them so, and the timers that were due in neither set: a
  -- callback may add a timer wherever no other lies.
  pub handle_read-Matched :
      (run : ℕ → TimerQueue Seconds add_time → Option (TimerQueue Seconds add_time)) (now : ℕ)
      (q : TimerQueue Seconds add_time)
      → Behaves (due now q) run
      → Matched Seconds add_time q
      → Returns (handle_read Seconds add_time run now q) (Matched Seconds add_time)
  unfolding handle_read reset
  handle_read-Matched run now q b m =
      Returns->>= {A = List Entry × TimerQueue Seconds add_time}
        (λ r. Splits Seconds add_time now q r × (r.0 ≡ due now q)) (Matched Seconds add_time)
        (get_expired Seconds add_time now q) _
        (Returns_and (Splits Seconds add_time now q) (λ r. r.0 ≡ due now q)
          (get_expired Seconds add_time now q) (get_expired-Splits Seconds add_time now q m.in_step)
          (get_expired-due now q))
        (λ r (s, same).
          Returns->>= (Expires Seconds add_time r.0) (Matched Seconds add_time) _ _
            (run_callbacks-Expires run r.0 r.0 (record (r.1) { calling = true; canceling = [] })
              (subst (λ e. Behaves e run) (sym same) b)
              (Expires-flags r.0 r.1 true [] (Splits-Expires now q r m s)))
            (λ called x.
              Returns->>= (Matched Seconds add_time) (Matched Seconds add_time) _ _
                (reset_timers-Matched Seconds add_time r.0 now (record called { calling = false })
                  (Expires-flags r.0 called false called.canceling x))
                (λ q' m'. arm_next-Matched Seconds add_time q' m')))
