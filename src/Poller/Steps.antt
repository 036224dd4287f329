-- ===== src/Poller/Steps.antt =====
-- The operations of polaris/src/Channel.cc and polaris/src/EPollPoller.cc on the interest list.
use lute.Prelude.{
  true, false, some, none, ◌≡◌, ℕ, set_at, Option, Bool-cases, ℕ-cases, ==_refl, inl, ◌==◌, inr,
  sym, set_at_other, Returns, ◌≢◌, ap, ◌∙◌, set_at_same, refl, assert->>, Returns_of_eq, ◌>>=◌,
}
use lute.Poller.Interest.{Laws, Sync, Placed, Free, Placed-Sync, slot, watched, expected}
use lute.Poller.{
  Poller, Channel, Epoll, Events, Index, is_at, set_events, update_channel, update, set_index,
  is_none_event, CtlOp, ctl_add, is_absent, ctl_del, ctl_mod,
}

module _ {ℓ} {A : Type ℓ} where
  pub set_over : (p q : ℕ) (a b : A) (f : ℕ → A) → set_at p a (set_at p b f) q ≡ set_at p a f q
  set_over p q a b f = elim (Bool-cases (q == p)) [ inl h ↦ rw h refl | inr h ↦ rw h refl ]

  pub set_present : (k x : ℕ) (a : A) (f : ℕ → A) → f k ≡ a → f x ≡ set_at k a f x
  set_present k x a f e = elim (ℕ-cases x k) [
    | inl here ↦ rw (here, ==_refl k, e)
    | inr there ↦ sym (set_at_other k x a f there)
  ]

pub is_at_lem : (p : ℕ) (o : Option ℕ) → o ≡ some p → is_at o p ≡ true
unfolding is_at
is_at_lem p o e = rw (e, ==_refl p)

is_absent_lem : (o : Option ℕ) → o ≡ none → is_absent o ≡ true
unfolding is_absent
is_absent_lem o e = rw e refl

module _ (epoll : Epoll) (laws : Laws epoll) where
  open epoll use {Kernel, ctl, interest}

  -- The channel is in the poller with these events, the kernel watches its descriptor for them
  -- unless they are none, and no other channel has changed.
  pub record Registered (s : Poller epoll) (p : ℕ) (e : Events) (s' : Poller epoll) : Type 0 where
    pub sync : Sync epoll s'
    pub events : (s'.objects p).events ≡ e
    pub found : s'.channels (s.objects p).fd ≡ some p
    pub watches : is_none_event e ≡ false → interest s'.kernel (s.objects p).fd ≡ some (e, p)
    pub others : (q : ℕ) → q ≢ p → s'.objects q ≡ s.objects q

  Placed-Registered :
      (s s' : Poller epoll) (p : ℕ) (i : Index) (e : Events)
      → Sync epoll s
      → Free epoll s p
      → (i ≡ Index.deleted → is_none_event e ≡ true)
      → i ≢ Index.new
      → Placed epoll s p (record (s.objects p) { events = e; index = i }) s'
      → Registered s p e s'
  Placed-Registered s s' p i e sync free rest kept placed = record {
    sync = Placed-Sync epoll s s' p _ sync refl free rest placed;
    events = ap (λ x. x.events) (placed.objects p ∙ set_at_same p _ s.objects);
    found = placed.channels _ ∙ set_at_same _ _ s.channels ∙ taken i kept;
    watches = λ some_events.
        placed.kernel _ ∙ set_at_same _ _ (interest s.kernel) ∙ asks i kept rest some_events;
    others = λ q h. placed.objects q ∙ set_at_other p q _ s.objects h;
  }
    where
      taken : (i : Index) → i ≢ Index.new → slot i p ≡ some p
      taken Index.new h = absurd (h refl)
      taken Index.added h = refl
      taken Index.deleted h = refl

      asks :
          (i : Index)
          → i ≢ Index.new
          → (i ≡ Index.deleted → is_none_event e ≡ true)
          → is_none_event e ≡ false
          → watched i e p ≡ some (e, p)
      asks Index.new h r n = absurd (h refl)
      asks Index.added h r n = refl
      asks Index.deleted h r n = absurd (cc (r refl, n))

  pub update_lem :
      (op : CtlOp) (p : ℕ) (c : Channel) (s : Poller epoll) (k' : Kernel)
      → s.objects p ≡ c
      → ctl op c.fd (c.events, p) s.kernel ≡ some k'
      → update epoll op p s ≡ some (record s { kernel = k' })
  unfolding update
  update_lem op p c s k' e h = rw (update, e, h) refl

  -- No channel of the poller stands at a descriptor that the kernel does not watch.
  pub unwatched :
      (s : Poller epoll) (p : ℕ)
      → Sync epoll s
      → (s.objects p).index ≡ Index.deleted
      → interest s.kernel (s.objects p).fd ≡ none
  unwatched s p sync h =
      sync.agrees _
      ∙ ap (expected s.objects) (sync.listed p (λ k. absurd (cc (sym h ∙ k))))
      ∙ ap (λ i. watched i (s.objects p).events p) h

  pub is_watched :
      (s : Poller epoll) (p : ℕ)
      → Sync epoll s
      → (s.objects p).index ≡ Index.added
      → interest s.kernel (s.objects p).fd ≡ some ((s.objects p).events, p)
  is_watched s p sync h =
      sync.agrees _
      ∙ ap (expected s.objects) (sync.listed p (λ k. absurd (cc (sym h ∙ k))))
      ∙ ap (λ i. watched i (s.objects p).events p) h

  -- From a poller in step with the kernel, each change of a channel's events keeps them in step:
  -- all asserts of `updateChannel` hold and epoll_ctl never fails, whichever of EPOLL_CTL_ADD,
  -- EPOLL_CTL_MOD and EPOLL_CTL_DEL it comes to. A channel that the poller does not know must find
  -- its descriptor free; epoll_ctl obeys its laws.
  pub set_events-Registered :
      (e : Events) (p : ℕ) (s : Poller epoll)
      → Sync epoll s
      → ((s.objects p).index ≡ Index.new → s.channels (s.objects p).fd ≡ none)
      → Returns (set_events epoll e p s) (Registered s p e)
  unfolding set_events update_channel update set_index is_none_event
  set_events-Registered e p s sync fresh = go (s.objects p).index refl
    where
      asked : Poller epoll
      asked = record s { objects = set_at p (record (s.objects p) { events = e }) s.objects }

      became : Index → Channel
      became i = record (s.objects p) { events = e; index = i }

      go :
          (i : Index)
          → (s.objects p).index ≡ i
          → Returns (set_events epoll e p s) (Registered s p e)
      go Index.new h =
          let (k, done, sets) =
            laws.adds (s.objects p).fd (e, p) s.kernel
              (sync.agrees _ ∙ ap (expected s.objects) (fresh h)) in
          rw (==_refl p, h, set_events, update_channel, ==_refl p, set_index)
            (assert->> _ _ _ (is_absent_lem _ (fresh h)) (
              Returns_of_eq (Registered s p e) _ _
                (update_lem ctl_add p (became Index.added) _ k
                  (set_at_same p (became Index.added) asked.objects) done)
                (Placed-Registered s _ p Index.added e sync (inl (fresh h)) (λ x. absurd (cc x))
                  (λ x. absurd (cc x))
                  (record {
                    channels = λ f. refl;
                    objects = λ q.
                        set_over p q (became Index.added) (record (s.objects p) { events = e })
                          s.objects;
                    kernel = sets;
                  }))))
      go Index.added h =
          let found = sync.listed p (λ x. absurd (cc (sym h ∙ x))) in
          elim (Bool-cases (is_none_event e)) [
            | inl nothing ↦
                let (k, done, sets) =
                  laws.deletes (s.objects p).fd (e, p) _ s.kernel (is_watched s p sync h) in
                rw (==_refl p, h, set_events, update_channel, ==_refl p, nothing)
                  (assert->> _ _ _ (is_at_lem p _ found) (
                    Returns_of_eq (Registered s p e) _ _
                      (ap (λ m. m >>= λ s'. some (set_index epoll p Index.deleted s'))
                        (update_lem ctl_del p (record (s.objects p) { events = e }) asked k
                          (set_at_same p (record (s.objects p) { events = e }) s.objects) done))
                      (Placed-Registered s _ p Index.deleted e sync (inr found) (λ x. nothing)
                        (λ x. absurd (cc x))
                        (record {
                          channels = λ f. set_present (s.objects p).fd f (some p) s.channels found;
                          objects = λ q.
                              set_over p q (record (asked.objects p) { index = Index.deleted })
                                (record (s.objects p) { events = e }) s.objects
                              ∙ ap (λ x. set_at p (record x { index = Index.deleted }) s.objects q)
                                  (set_at_same p _ s.objects);
                          kernel = sets;
                        }))))
            | inr some_events ↦
                let (k, done, sets) =
                  laws.modifies (s.objects p).fd (e, p) _ s.kernel (is_watched s p sync h) in
                rw (==_refl p, h, set_events, update_channel, ==_refl p, some_events)
                  (assert->> _ _ _ (is_at_lem p _ found) (
                    Returns_of_eq (Registered s p e) _ _
                      (update_lem ctl_mod p (record (s.objects p) { events = e }) asked k
                        (set_at_same p (record (s.objects p) { events = e }) s.objects) done)
                      (Placed-Registered s _ p Index.added e sync (inr found) (λ x. absurd (cc x))
                        (λ x. absurd (cc x))
                        (record {
                          channels = λ f. set_present (s.objects p).fd f (some p) s.channels found;
                          objects = λ q. ap (λ i. set_at p (became i) s.objects q) h;
                          kernel = sets;
                        }))))
          ]
      go Index.deleted h =
          let (k, done, sets) = laws.adds (s.objects p).fd (e, p) s.kernel (unwatched s p sync h) in
          let found = sync.listed p (λ x. absurd (cc (sym h ∙ x))) in
          rw (==_refl p, h, set_events, update_channel, ==_refl p, set_index)
            (assert->> _ _ _ (is_at_lem p _ found) (
              Returns_of_eq (Registered s p e) _ _
                (update_lem ctl_add p (became Index.added) _ k
                  (set_at_same p (became Index.added) asked.objects) done)
                (Placed-Registered s _ p Index.added e sync (inr found) (λ x. absurd (cc x))
                  (λ x. absurd (cc x))
                  (record {
                    channels = λ f. set_present (s.objects p).fd f (some p) s.channels found;
                    objects = λ q.
                        set_over p q (became Index.added) (record (s.objects p) { events = e })
                          s.objects;
                    kernel = sets;
                  }))))
