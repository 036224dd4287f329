-- ===== src/Poller.antt =====
-- polaris/src/EPollPoller.cc, polaris/src/Poller.cc and polaris/src/Channel.cc with their headers.
-- The kernel's epoll instance is a parameter; `none` is a failed `assert` or LOG_SYSFATAL.
pub mod Interest
pub mod Steps
pub mod Removal
use lute.Prelude.{
  none, some, ◌>>◌, ℕ, set_at, Bool, List, Option, false, ◌==◌, true, not, ◌∷◌, ◌&&◌, if◌then◌else◌,
  assert, [], ◌>>=◌, ◌++◌, ◌||◌,
}

-- `events_`: kReadEvent and kWriteEvent are the only bits that the code sets.
pub record Events : Type 0 where
  pub reading : Bool
  pub writing : Bool

-- `revents_`
pub record Revents : Type 0 where
  pub in_ : Bool
  pub pri : Bool
  pub out : Bool
  pub hup : Bool
  pub rdhup : Bool
  pub err : Bool
  pub nval : Bool

pub data Index : Type 0 where
  new added deleted : Index

pub record Channel : Type 0 where
  pub fd : ℕ
  pub events : Events
  pub revents : Revents
  pub index : Index
  pub tied : Bool

abbrev pub none_event : Events
none_event = record { reading = false; writing = false }

unfoldable pub is_none_event : Events → Bool
is_none_event e = not e.reading && not e.writing

pub data CtlOp : Type 0 where
  ctl_add ctl_mod ctl_del : CtlOp

-- An epoll instance: epoll_ctl(2), which may fail, and the interest that it keeps for a descriptor.
pub record Epoll : Type 1 where
  pub Kernel : Type 0
  pub ctl : CtlOp → ℕ → Events × ℕ → Kernel → Option Kernel
  pub interest : Kernel → ℕ → Option (Events × ℕ)

pub is_at : Option ℕ → ℕ → Bool
is_at none p = false
is_at (some q) p = q == p

pub is_absent : Option ℕ → Bool
is_absent none = true
is_absent (some q) = false

is_del : CtlOp → Bool
is_del ctl_del = true
is_del ctl_add = false
is_del ctl_mod = false

module _ (epoll : Epoll) where
  open epoll use {Kernel, ctl}

  -- The channels stand at their addresses, and `channels_` takes a descriptor to an address.
  pub record Poller : Type 0 where
    pub channels : ℕ → Option ℕ
    pub objects : ℕ → Channel
    pub kernel : Kernel

  pub has_channel : ℕ → Poller → Bool
  unfolding is_at
  has_channel p s = is_at (s.channels (s.objects p).fd) p

  unfoldable pub set_index : ℕ → Index → Poller → Poller
  set_index p i s = record s { objects = set_at p (record (s.objects p) { index = i }) s.objects }

  -- `EPollPoller::update`: a failure is fatal but for EPOLL_CTL_DEL.
  unfoldable pub update : CtlOp → ℕ → Poller → Option Poller
  unfolding is_del
  update op p s = elim (ctl op (s.objects p).fd ((s.objects p).events, p) s.kernel) [
    | some kernel ↦ some (record s { kernel = kernel })
    | none ↦ if is_del op then some s else none
  ]

  unfoldable pub update_channel : ℕ → Poller → Option Poller
  unfolding update set_index is_at is_absent is_none_event
  update_channel p s =
      let fd = (s.objects p).fd in
      elim (s.objects p).index [
        | Index.new ↦
            assert (is_absent (s.channels fd))
            >> update ctl_add p
                (set_index p Index.added (record s { channels = set_at fd (some p) s.channels }))
        | Index.deleted ↦
            assert (is_at (s.channels fd) p) >> update ctl_add p (set_index p Index.added s)
        | Index.added ↦
            assert (is_at (s.channels fd) p)
            >> (if is_none_event (s.objects p).events
                then (update ctl_del p s >>= λ s'. some (set_index p Index.deleted s'))
                else update ctl_mod p s)
      ]

  unfoldable pub remove_channel : ℕ → Poller → Option Poller
  unfolding update set_index is_at is_none_event
  remove_channel p s =
      let fd = (s.objects p).fd in
      let erased = record s { channels = set_at fd none s.channels } in
      assert (is_at (s.channels fd) p)
      >> (assert (is_none_event (s.objects p).events) >> elim (s.objects p).index [
        | Index.new ↦ none
        | Index.added ↦ (update ctl_del p erased >>= λ s'. some (set_index p Index.new s'))
        | Index.deleted ↦ some (set_index p Index.new erased)
      ])

  -- What each of `enableReading` … `disableAll` assigns, followed by `Channel::update`.
  unfoldable pub set_events : Events → ℕ → Poller → Option Poller
  unfolding update_channel
  set_events e p s =
      update_channel p
        (record s { objects = set_at p (record (s.objects p) { events = e }) s.objects })

  unfoldable pub enable_reading : ℕ → Poller → Option Poller
  enable_reading p s = set_events (record (s.objects p).events { reading = true }) p s

  unfoldable pub disable_reading : ℕ → Poller → Option Poller
  disable_reading p s = set_events (record (s.objects p).events { reading = false }) p s

  unfoldable pub enable_writing : ℕ → Poller → Option Poller
  enable_writing p s = set_events (record (s.objects p).events { writing = true }) p s

  unfoldable pub disable_writing : ℕ → Poller → Option Poller
  disable_writing p s = set_events (record (s.objects p).events { writing = false }) p s

  unfoldable pub disable_all : ℕ → Poller → Option Poller
  disable_all p s = set_events none_event p s

  -- `fillActiveChannels`, over what epoll_wait(2) gave, in order.
  unfoldable pub fill_active_channels :
      List (Revents × ℕ) → List ℕ → Poller → Option (List ℕ × Poller)
  unfolding is_at
  fill_active_channels [] active s = some (active, s)
  fill_active_channels ((revents, p) ∷ rest) active s =
      assert (is_at (s.channels (s.objects p).fd) p)
      >> fill_active_channels rest (active ++ p ∷ [])
          (record s { objects = set_at p (record (s.objects p) { revents = revents }) s.objects })

pub data EventCallback : Type 0 where
  close_callback error_callback read_callback write_callback : EventCallback

call_if : Bool → EventCallback → List EventCallback
call_if true c = c ∷ []
call_if false c = []

-- `handleEventWithGuard`, with all four callbacks set.
unfoldable pub handle_event_with_guard : Channel → List EventCallback
unfolding call_if
handle_event_with_guard c =
    let r = c.revents in
    call_if (r.hup && not r.in_) close_callback
    ++ (call_if (r.err || r.nval) error_callback
        ++ (call_if (r.in_ || (r.pri || r.rdhup)) read_callback ++ call_if r.out write_callback))

-- `handleEvent`: a tied channel whose owner is gone calls nothing.
unfoldable pub handle_event : Bool → Channel → List EventCallback
unfolding handle_event_with_guard
handle_event owner_alive c =
    if c.tied
    then (if owner_alive then handle_event_with_guard c else [])
    else handle_event_with_guard c
