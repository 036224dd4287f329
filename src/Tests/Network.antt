-- ===== src/Tests/Network.antt =====
-- The theorems on polaris/src/EPollPoller.cc, polaris/src/Connector.cc,
-- polaris/src/EventLoopThreadPool.cc and polaris/src/TCPServer.cc at concrete inputs.
use lute.Prelude.{
  [], ◌∷◌, true, false, none, some, ◌≡◌, set_at, Returns, Option, ℕ, if◌then◌else◌, refl, ap, ◌==◌,
  get_elem?, ◌≢◌, ◌%◌, length, Bool, subst, ◌∙◌, sym, ==_iff,
}
use lute.Poller.{
  Poller, Channel, Epoll, Events, Revents, Index, CtlOp, ctl_add, ctl_mod, ctl_del, set_events,
  remove_channel, is_none_event,
}
use lute.Poller.Interest.{Laws, Sync, expected}
use lute.Poller.Steps.{Registered, set_events-Registered}
use lute.Poller.Removal.{Removed, remove_channel-Removed}
use lute.LoopPool.{EventLoopThreadPool, get_next_loop}
use lute.LoopPool.Turns.{Handed, all_loops, get_next_loop-Handed}

-- An epoll instance as its list of interests.
abbrev Interests : Type 0
Interests = ℕ → Option (Events × ℕ)

abbrev controlled : CtlOp → ℕ → Events × ℕ → Interests → Option (Events × ℕ) → Option Interests
controlled ctl_add fd e k none = some (set_at fd (some e) k)
controlled ctl_add fd e k (some x) = none
controlled ctl_mod fd e k (some x) = some (set_at fd (some e) k)
controlled ctl_mod fd e k none = none
controlled ctl_del fd e k (some x) = some (set_at fd none k)
controlled ctl_del fd e k none = none

abbrev listed_epoll : Epoll
listed_epoll = record {
  Kernel = Interests;
  ctl = λ op fd e k. controlled op fd e k (k fd);
  interest = λ k. k;
}

listed_epoll-Laws : Laws listed_epoll
listed_epoll-Laws = record {
  adds = λ fd e k h. (set_at fd (some e) k, ap (controlled ctl_add fd e k) h, λ f. refl);
  modifies = λ fd e x k h. (set_at fd (some e) k, ap (controlled ctl_mod fd e k) h, λ f. refl);
  deletes = λ fd e x k h. (set_at fd none k, ap (controlled ctl_del fd e k) h, λ f. refl);
}

abbrev reading_only : Events
reading_only = record { reading = true; writing = false }

-- Channel 5 at descriptor 7, and a poller that knows no channel.
abbrev unknown_channel : Channel
unknown_channel = record {
  fd = 7;
  events = record { reading = false; writing = false };
  revents = record {
    in_ = false;
    pri = false;
    out = false;
    hup = false;
    rdhup = false;
    err = false;
    nval = false;
  };
  index = Index.new;
  tied = false;
}

abbrev empty_poller : Poller listed_epoll
empty_poller = record { channels = λ fd. none; objects = λ p. unknown_channel; kernel = λ fd. none }

empty_poller-Sync : Sync listed_epoll empty_poller
empty_poller-Sync = record {
  agrees = λ f. refl;
  at_its_fd = λ f p e. absurd (cc e);
  listed = λ p h. absurd (h refl);
  idle = λ p e. absurd (cc e);
}

set_events-Registered_example :
    Returns
      (set_events listed_epoll reading_only 5 empty_poller)
      (Registered listed_epoll listed_epoll-Laws empty_poller 5 reading_only)
set_events-Registered_example =
    set_events-Registered listed_epoll listed_epoll-Laws reading_only 5 empty_poller
      empty_poller-Sync (λ h. refl)

-- The poller that has the channel in its map, with no events.
abbrev deleted_channel : Channel
deleted_channel = record unknown_channel { index = Index.deleted }

abbrev watching_channel : Channel
watching_channel = record unknown_channel { index = Index.added; events = reading_only }

abbrev objects_with : Channel → ℕ → Channel
objects_with c p = if p == 5 then c else record unknown_channel { fd = 8 }

abbrev poller_with : Channel → Option (Events × ℕ) → Poller listed_epoll
poller_with c watched = record {
  channels = λ fd. if fd == 7 then some 5 else none;
  objects = objects_with c;
  kernel = λ fd. if fd == 7 then watched else none;
}

-- It is in step with the kernel where the kernel watches just what the channel asks for.
poller_with-Sync :
    (c : Channel) (watched : Option (Events × ℕ))
    → c.fd ≡ 7
    → c.index ≢ Index.new
    → (c.index ≡ Index.deleted → is_none_event c.events ≡ true)
    → watched ≡ expected (objects_with c) (some 5)
    → Sync listed_epoll (poller_with c watched)
poller_with-Sync c watched at known rest same = record {
  agrees = λ f. agrees (f == 7);
  at_its_fd = λ f p. at_its_fd f p (f == 7) refl;
  listed = λ p. listed p (p == 5) refl;
  idle = λ p. idle (p == 5);
}
  where
    agrees :
        (b : Bool)
        → (if b then watched else none) ≡ expected (objects_with c) (if b then some 5 else none)
    agrees true = same
    agrees false = refl

    at_its_fd :
        (f p : ℕ) (b : Bool)
        → (f == 7) ≡ b
        → (if b then some 5 else none) ≡ some p
        → (objects_with c p).fd ≡ f
    at_its_fd f p true h e =
        let five : 5 ≡ p = cc e in
        subst (λ q. (objects_with c q).fd ≡ f) five (at ∙ sym ((==_iff f 7).0 h))
    at_its_fd f p false h e = absurd (cc e)

    listed :
        (p : ℕ) (b : Bool)
        → (p == 5) ≡ b
        → let o = if b then c else record unknown_channel { fd = 8 } in
          o.index ≢ Index.new → (if o.fd == 7 then some 5 else none) ≡ some p
    listed p true h n = rw at (ap some (sym ((==_iff p 5).0 h)))
    listed p false h n = absurd (n refl)

    idle :
        (b : Bool)
        → let o = if b then c else record unknown_channel { fd = 8 } in
          o.index ≡ Index.deleted → is_none_event o.events ≡ true
    idle true e = rest e
    idle false e = absurd (cc e)

remove_channel-Removed_example :
    Returns
      (remove_channel listed_epoll 5 (poller_with deleted_channel none))
      (Removed listed_epoll listed_epoll-Laws (poller_with deleted_channel none) 5)
unfolding is_none_event
remove_channel-Removed_example =
    remove_channel-Removed listed_epoll listed_epoll-Laws 5 (poller_with deleted_channel none)
      (poller_with-Sync deleted_channel none refl (λ e. absurd (cc e)) (λ e. refl) refl)
      (λ e. absurd (cc e)) refl

abbrev readable : Revents
readable = record unknown_channel.revents { in_ = true }

-- Three loops, and the base loop 1.
abbrev three_loops : EventLoopThreadPool
three_loops = record {
  base_loop = 1;
  started = true;
  num_threads = 3;
  next = 2;
  loops = 10 ∷ 11 ∷ 12 ∷ [];
}

three_loops-Handed : Handed 5 three_loops
three_loops-Handed = record { started = refl; turn = refl }

get_next_loop-Handed_example :
    Returns {A = ℕ × EventLoopThreadPool} (get_next_loop three_loops) (λ r.
      (get_elem? (all_loops three_loops) (5 % length (all_loops three_loops)) ≡ some r.0)
      × Handed 6 r.1
      × (all_loops r.1 ≡ all_loops three_loops))
get_next_loop-Handed_example = get_next_loop-Handed 5 three_loops three_loops-Handed
