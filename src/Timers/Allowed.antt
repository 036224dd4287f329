-- ===== src/Timers/Allowed.antt =====
-- What a callback of polaris/src/TimerQueue.cc may do while the expired timers are called: add and cancel.
use lute.Timers.{
  TimerQueue, Entry, Timer, insert, max_address, add_timer_in_loop, sizes_agree, cancel_in_loop,
  set_erase, same, set_has,
}
use lute.Timers.Sets.{Each, Apart}
use lute.Timers.Insert.{Inserted}
use lute.Timers.Matched.{Matched, Expires, insert-Matched}
use lute.Prelude.{
  none, some, [], ◌∷◌, ℕ, ◌≡◌, set_at, List, Returns, Bool, Returns->>=, Option, if_lem, ◌<◌,
  Whenever, Returns_and, Whenever->>=, assert, Whenever_and, Whenever_bind, Returns_map,
}
use lute.Timers.Restarted.{Matched-set_at, Apart-Inserted}
use lute.Timers.Fired.{Expires-alarm}
use lute.Timers.Cancel.{Cancels, cancel_in_loop-Cancels}

module _ (Seconds : Type 0) (add_time : ℕ → Seconds → ℕ) where
  -- Adding a new timer, which `new` sets up at an address where none is.
  pub add_timer_in_loop-Expires :
      (expired : List Entry) (p : ℕ) (timer : Timer Seconds add_time)
      (q : TimerQueue Seconds add_time)
      → Expires Seconds add_time expired q
      → p < max_address
      → Apart p q.timers
      → Apart p expired
      → Returns
          (add_timer_in_loop Seconds add_time p (record q { objects = set_at p timer q.objects }))
          (Expires Seconds add_time expired)
  unfolding add_timer_in_loop
  add_timer_in_loop-Expires expired p timer q x low apart away =
      Returns->>= {A = Bool × TimerQueue Seconds add_time}
        (λ r.
          Matched Seconds add_time r.1
          × (r.1.objects ≡ fresh.objects)
          × Inserted ((fresh.objects p).expiration, p) q.timers r.1.timers)
        (Expires Seconds add_time expired) (insert Seconds add_time p fresh) _
        (insert-Matched Seconds add_time p fresh
          (Matched-set_at Seconds add_time p timer q x.matching apart) low apart)
        (λ r (m, o, i).
          let y : Expires Seconds add_time expired r.1 = record {
            matching = m;
            apart =
                Apart-Inserted Seconds add_time ((fresh.objects p).expiration, p) expired q.timers
                  r.1.timers i away x.apart;
            distinct = x.distinct;
            addressed = x.addressed;
          } in
          if_lem (Expires Seconds add_time expired) r.0 _ _
            (Expires-alarm Seconds add_time expired r.1 (some (fresh.objects p).expiration) y) y)
    where
      fresh : TimerQueue Seconds add_time
      fresh = record q { objects = set_at p timer q.objects }

  set_erase-Apart :
      (a : ℕ) (e : Entry) (xs : List Entry)
      → Whenever (set_erase e xs) (λ ys. Apart a xs → Apart a ys)
  unfolding set_erase
  set_erase-Apart a e [] = tt
  set_erase-Apart a e (x ∷ xs) =
      if_lem (λ m. Whenever m (λ ys. Apart a (x ∷ xs) → Apart a ys)) (same e x) _ _ (λ h. h.1)
        (Whenever_bind (λ ys. Apart a (x ∷ xs) → Apart a ys) (λ ys. Apart a xs → Apart a ys)
          (set_erase e xs) _ (set_erase-Apart a e xs) (λ ys k h. (h.0, k h.1)))

  -- Cancelling brings no timer into the set.
  cancel_in_loop-Apart :
      (a p sequence : ℕ) (q : TimerQueue Seconds add_time)
      → Whenever
          (cancel_in_loop Seconds add_time (p, sequence) q)
          (λ q'. Apart a q.timers → Apart a q'.timers)
  unfolding cancel_in_loop
  cancel_in_loop-Apart a p sequence q =
      Whenever->>= Fewer (assert (sizes_agree Seconds add_time q)) _ (λ _.
        Whenever_bind Fewer Fewer _ _
          (if_lem (λ m. Whenever m Fewer) (set_has (p, sequence) q.active) _ _
            (Whenever_bind Fewer (λ ys. Apart a q.timers → Apart a ys) _ _
              (set_erase-Apart a ((q.objects p).expiration, p) q.timers)
              (λ timers k. Whenever->>= Fewer (set_erase (p, sequence) q.active) _ (λ active. k)))
            (if_lem Fewer q.calling _ _ (λ h. h) (λ h. h)))
          (λ q' k. Whenever->>= Fewer (assert (sizes_agree Seconds add_time q')) _ (λ _. k)))
    where
      Fewer : TimerQueue Seconds add_time → Type 0
      Fewer q' = Apart a q.timers → Apart a q'.timers

  -- So does cancelling any timer, one that is being called included.
  pub cancel_in_loop-Expires :
      (expired : List Entry) (p sequence : ℕ) (q : TimerQueue Seconds add_time)
      → Expires Seconds add_time expired q
      → Returns (cancel_in_loop Seconds add_time (p, sequence) q) (Expires Seconds add_time expired)
  cancel_in_loop-Expires expired p sequence q x =
      Returns_map (λ q'. Cancels Seconds add_time p sequence q q' × All expired q')
        (Expires Seconds add_time expired) _
        (λ q' (c, still). record {
          matching = c.0;
          apart = still x.apart;
          distinct = x.distinct;
          addressed = x.addressed;
        })
        (Returns_and (Cancels Seconds add_time p sequence q) (All expired) _
          (cancel_in_loop-Cancels Seconds add_time p sequence q x.matching) (all expired))
    where
      All : List Entry → TimerQueue Seconds add_time → Type 0
      All es q' = Each (λ y. Apart y.1 q.timers) es → Each (λ y. Apart y.1 q'.timers) es

      all : (es : List Entry) → Whenever (cancel_in_loop Seconds add_time (p, sequence) q) (All es)
      all [] = go (cancel_in_loop Seconds add_time (p, sequence) q)
        where
          go : (m : Option (TimerQueue Seconds add_time)) → Whenever m (All [])
          go none = tt
          go (some q') = λ h. tt
      all (e ∷ es) =
          Whenever_and (λ q'. Apart e.1 q.timers → Apart e.1 q'.timers) (All es) (All (e ∷ es)) _
            (cancel_in_loop-Apart e.1 p sequence q) (all es) (λ q' k h t. (k t.0, h t.1))
