-- ===== src/Poller/Removal.antt =====
-- `removeChannel` and `fillActiveChannels` of polaris/src/EPollPoller.cc.
use mathlib.Core.List.{append-nil, append_assoc}
use lute.Prelude.{
  ◌∷◌, [], true, some, none, ◌≡◌, ℕ, List, inr, ◌≢◌, ap, Returns, ◌∙◌, set_at, set_at_same,
  assert->>, set_at_other, Returns_of_eq, refl, ◌>>=◌, Option, ℕ-cases, inl, ==_refl, ==_of_ne, sym,
  ◌++◌, Returns_map,
}
use lute.Poller.Interest.{Laws, Sync, Placed, Placed-Sync, expected, watched, slot}
use lute.Poller.Steps.{update_lem, unwatched, is_watched, is_at_lem, set_present}
use lute.Poller.{
  Poller, Epoll, Events, Index, remove_channel, Revents, set_index, is_none_event, ctl_del,
  fill_active_channels,
}

module _ (epoll : Epoll) (laws : Laws epoll) where
  open epoll use {Kernel, ctl, interest}

  -- Neither the poller nor the kernel knows the descriptor, and no other channel has changed.
  pub record Removed (s : Poller epoll) (p : ℕ) (s' : Poller epoll) : Type 0 where
    pub sync : Sync epoll s'
    pub index : (s'.objects p).index ≡ Index.new
    pub forgotten : s'.channels (s.objects p).fd ≡ none
    pub silent : interest s'.kernel (s.objects p).fd ≡ none
    pub others : (q : ℕ) → q ≢ p → s'.objects q ≡ s.objects q

  Placed-Removed :
      (s s' : Poller epoll) (p : ℕ)
      → Sync epoll s
      → s.channels (s.objects p).fd ≡ some p
      → Placed epoll s p (record (s.objects p) { index = Index.new }) s'
      → Removed s p s'
  Placed-Removed s s' p sync found placed = record {
    sync = Placed-Sync epoll s s' p _ sync refl (inr found) (λ x. absurd (cc x)) placed;
    index = ap (λ x. x.index) (placed.objects p ∙ set_at_same p _ s.objects);
    forgotten = placed.channels _ ∙ set_at_same _ _ s.channels;
    silent = placed.kernel _ ∙ set_at_same _ _ (interest s.kernel);
    others = λ q h. placed.objects q ∙ set_at_other p q _ s.objects h;
  }

  -- From a poller in step with the kernel, a channel that it knows and that asks for no events can
  -- be removed: every assert of `removeChannel` holds, the kernel watches the descriptor no longer,
  -- and the two stay in step. epoll_ctl obeys its laws.
  pub remove_channel-Removed :
      (p : ℕ) (s : Poller epoll)
      → Sync epoll s
      → (s.objects p).index ≢ Index.new
      → is_none_event (s.objects p).events ≡ true
      → Returns (remove_channel epoll p s) (Removed s p)
  unfolding remove_channel set_index
  remove_channel-Removed p s sync known nothing = go (s.objects p).index refl
    where
      found : s.channels (s.objects p).fd ≡ some p
      found = sync.listed p known

      erased : Poller epoll
      erased = record s { channels = set_at (s.objects p).fd none s.channels }

      go : (i : Index) → (s.objects p).index ≡ i → Returns (remove_channel epoll p s) (Removed s p)
      go Index.new h = absurd (known h)
      go Index.added h =
          let (k, done, sets) =
            laws.deletes (s.objects p).fd ((s.objects p).events, p) _ s.kernel
              (is_watched epoll laws s p sync h) in
          rw (remove_channel, h)
            (assert->> _ _ _ (is_at_lem p _ found) (
              assert->> _ _ _ nothing (
                Returns_of_eq (Removed s p) _ _
                  (ap (λ m. m >>= λ s'. some (set_index epoll p Index.new s'))
                    (update_lem epoll laws ctl_del p (s.objects p) erased k refl done))
                  (Placed-Removed s _ p sync found
                    (record { channels = λ f. refl; objects = λ q. refl; kernel = sets })))))
      go Index.deleted h =
          rw (remove_channel, h)
            (assert->> _ _ _ (is_at_lem p _ found) (
              assert->> _ _ _ nothing (
                Placed-Removed s _ p sync found (record {
                  channels = λ f. refl;
                  objects = λ q. refl;
                  kernel = λ f.
                      set_present (s.objects p).fd f none (interest s.kernel)
                        (unwatched epoll laws s p sync h);
                }))))

  -- The channel of each event is one that the kernel was told of.
  abbrev pub Reported : List (Revents × ℕ) → Poller epoll → Type 0
  Reported [] s = Unit {0}
  Reported ((revents, p) ∷ rest) s =
      ((e : Events) × (interest s.kernel (s.objects p).fd ≡ some (e, p))) × Reported rest s

  abbrev pub addresses : List (Revents × ℕ) → List ℕ
  addresses [] = []
  addresses ((revents, p) ∷ rest) = p ∷ addresses rest

  reported_at :
      (s : Poller epoll) (q f : ℕ) (e : Events)
      → Sync epoll s
      → interest s.kernel f ≡ some (e, q)
      → s.channels f ≡ some q
  reported_at s q f e sync h = go (s.channels f) refl
    where
      go : (o : Option ℕ) → s.channels f ≡ o → s.channels f ≡ some q
      go none k = absurd (cc (h, sync.agrees f ∙ ap (expected s.objects) k))
      go (some r) k =
          k
          ∙ ap some (same (s.objects r).index (sym (sync.agrees f ∙ ap (expected s.objects) k) ∙ h))
        where
          same : (i : Index) → watched i (s.objects r).events r ≡ some (e, q) → r ≡ q
          same Index.new w = absurd (cc w)
          same Index.added w = cc w
          same Index.deleted w = absurd (cc w)

  set_revents : Revents → ℕ → Poller epoll → Poller epoll
  set_revents revents p s = record s {
    objects = set_at p (record (s.objects p) { revents = revents }) s.objects;
  }

  set_revents_lem :
      (revents : Revents) (p q : ℕ) (s : Poller epoll)
      → ((set_revents revents p s).objects q).fd ≡ (s.objects q).fd
  unfolding set_revents
  set_revents_lem revents p q s = elim (ℕ-cases q p) [
    | inl here ↦ rw (here, ==_refl p) refl
    | inr there ↦ rw (==_of_ne q p there) refl
  ]

  set_revents-Sync :
      (revents : Revents) (p : ℕ) (s : Poller epoll) (e : Events)
      → Sync epoll s
      → interest s.kernel (s.objects p).fd ≡ some (e, p)
      → Sync epoll (set_revents revents p s)
  unfolding set_revents
  set_revents-Sync revents p s e sync h =
      Placed-Sync epoll s _ p (record (s.objects p) { revents = revents }) sync refl (inr found)
        (sync.idle p)
        (record {
          channels = λ f.
              set_present (s.objects p).fd f _ s.channels
                (found ∙ sym (ap (λ i. slot i p) is_added));
          objects = λ q. refl;
          kernel = λ f.
              set_present (s.objects p).fd f _ (interest s.kernel)
                (sync.agrees _ ∙ ap (expected s.objects) found);
        })
    where
      found : s.channels (s.objects p).fd ≡ some p
      found = reported_at s p (s.objects p).fd e sync h

      added_lem : (i : Index) (o : Events) → watched i o p ≡ some (e, p) → i ≡ Index.added
      added_lem Index.new o w = absurd (cc w)
      added_lem Index.added o w = refl
      added_lem Index.deleted o w = absurd (cc w)

      is_added : (s.objects p).index ≡ Index.added
      is_added =
          added_lem (s.objects p).index (s.objects p).events
            (sym (sync.agrees _ ∙ ap (expected s.objects) found) ∙ h)

  Reported-set_revents :
      (events : List (Revents × ℕ)) (revents : Revents) (p : ℕ) (s : Poller epoll)
      → Reported events s
      → Reported events (set_revents revents p s)
  unfolding set_revents
  Reported-set_revents [] revents p s h = tt
  Reported-set_revents ((r, q) ∷ rest) revents p s ((e, h), t) = (
    (e, ap (interest s.kernel) (set_revents_lem revents p q s) ∙ h),
    Reported-set_revents rest revents p s t,
  )

  -- From a poller in step with the kernel, `fillActiveChannels` gets through events that the kernel
  -- was asked for: it lists the channels in the order of the events, behind those already listed,
  -- and the two stay in step.
  pub fill_active_channels_lem :
      (events : List (Revents × ℕ)) (active : List ℕ) (s : Poller epoll)
      → Sync epoll s
      → Reported events s
      → Returns
          (fill_active_channels epoll events active s)
          (λ r. (r.0 ≡ active ++ addresses events) × Sync epoll r.1)
  unfolding fill_active_channels set_revents
  fill_active_channels_lem [] active s sync h = (sym (append-nil active), sync)
  fill_active_channels_lem ((revents, p) ∷ rest) active s sync ((e, h), t) =
      assert->> _ _ _ (is_at_lem p _ (reported_at s p (s.objects p).fd e sync h)) (
        Returns_map (λ r. (r.0 ≡ (active ++ (p ∷ [])) ++ addresses rest) × Sync epoll r.1) _ _
          (λ r g. (g.0 ∙ append_assoc active (p ∷ []) (addresses rest), g.1))
          (fill_active_channels_lem rest (active ++ (p ∷ [])) (set_revents revents p s)
            (set_revents-Sync revents p s e sync h) (Reported-set_revents rest revents p s t)))
