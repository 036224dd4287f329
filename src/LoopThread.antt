-- ===== src/LoopThread.antt =====
-- polaris/src/EventLoopThread.cc: a thread with a loop in it, as steps of the thread and of the one that
-- owns the object. `loop_` points at the loop on the thread's stack; the two can be caught between any
-- two of their accesses of what they share.
pub mod Joined
pub mod Lost
use lute.Prelude.{true, false, Bool, if◌then◌else◌, ◌≡◌}

-- Where `threadFunc` stands: in the constructor of its loop or in `callback_`; before `loop.loop()`;
-- in it, after `looping_ = true`, and after `quit_ = false`; past it; past `loop_ = nullptr`, with the
-- lock still to be given back and the loop to be destroyed; and at its end.
pub data ThreadAt : Type 0 where
  not_started initializing published entering in_loop left cleared finished : ThreadAt

-- Where the owner stands: before `startLoop`, in its wait, past it; in the destructor before `quit`, in
-- `quit` with what it read of `looping_`, and before its `wakeup`; in `join`; and past it all. In
-- `dangling` it has called a loop that is gone.
pub data OwnerAt : Type 0 where
  idle waiting started seen waking joining destroyed dangling : OwnerAt
  telling : Bool → OwnerAt

pub record LoopThread : Type 0 where
  pub thread : ThreadAt
  pub owner : OwnerAt
  pub exiting : Bool
  -- `loop_` is not null.
  pub loop_set : Bool
  -- Of the loop: `looping_` and `quit_`.
  pub looping : Bool
  pub quit : Bool

unfoldable pub init : LoopThread
init = record {
  thread = ThreadAt.not_started;
  owner = OwnerAt.idle;
  exiting = false;
  loop_set = false;
  looping = false;
  quit = false;
}

-- `startLoop`, to its wait, and from it.
unfoldable pub start_loop : LoopThread → LoopThread
start_loop s = record s { thread = ThreadAt.initializing; owner = OwnerAt.waiting }

unfoldable pub return_loop : LoopThread → LoopThread
return_loop s = record s { owner = OwnerAt.started }

-- `loop_ = &loop`
unfoldable pub publish : LoopThread → LoopThread
publish s = record s { thread = ThreadAt.published; loop_set = true }

-- `EventLoop::loop`: `looping_ = true`, `quit_ = false`, and, past `while (!quit_)`, its end.
unfoldable pub begin_loop : LoopThread → LoopThread
begin_loop s = record s { thread = ThreadAt.entering; looping = true }

unfoldable pub reset_quit : LoopThread → LoopThread
reset_quit s = record s { thread = ThreadAt.in_loop; quit = false }

unfoldable pub end_loop : LoopThread → LoopThread
end_loop s = record s { thread = ThreadAt.left; looping = false }

-- `loop_ = nullptr`, and then the unlocking and the loop's destructor.
unfoldable pub clear_loop : LoopThread → LoopThread
clear_loop s = record s { thread = ThreadAt.cleared; loop_set = false }

unfoldable pub end_thread : LoopThread → LoopThread
end_thread s = record s { thread = ThreadAt.finished }

-- `EventLoop::quit` stores what it read of `looping_`.
unfoldable pub quit_stores : Bool → LoopThread → LoopThread
quit_stores told s = record s { quit = told }

-- The loop on the thread's stack is there, and initialized.
abbrev pub is_alive : ThreadAt → Bool
is_alive ThreadAt.not_started = false
is_alive ThreadAt.initializing = false
is_alive ThreadAt.published = true
is_alive ThreadAt.entering = true
is_alive ThreadAt.in_loop = true
is_alive ThreadAt.left = true
is_alive ThreadAt.cleared = true
is_alive ThreadAt.finished = false

-- The destructor reads `loop_`.
unfoldable pub begin_destroy : LoopThread → LoopThread
begin_destroy s = record s {
  exiting = true;
  owner = if s.loop_set then OwnerAt.seen else OwnerAt.destroyed;
}

-- It calls `quit` of what it read: the test of `looping_`, the store, and `wakeup`, which the call
-- that found the loop not looping leaves out.
unfoldable pub destroy_tests : LoopThread → LoopThread
destroy_tests s = record s {
  owner = if is_alive s.thread then OwnerAt.telling s.looping else OwnerAt.dangling;
}

unfoldable pub destroy_stores : Bool → LoopThread → LoopThread
unfolding quit_stores
destroy_stores told s =
    if is_alive s.thread
    then record (quit_stores told s) { owner = if told then OwnerAt.waking else OwnerAt.joining }
    else record s { owner = OwnerAt.dangling }

unfoldable pub destroy_wakes : LoopThread → LoopThread
destroy_wakes s = record s {
  owner = if is_alive s.thread then OwnerAt.joining else OwnerAt.dangling;
}

abbrev pub may_destroy : OwnerAt → Bool
may_destroy OwnerAt.idle = true
may_destroy OwnerAt.waiting = false
may_destroy OwnerAt.started = true
may_destroy OwnerAt.seen = false
may_destroy (OwnerAt.telling told) = false
may_destroy OwnerAt.waking = false
may_destroy OwnerAt.joining = false
may_destroy OwnerAt.destroyed = false
may_destroy OwnerAt.dangling = false

-- One step of the thread or of the owner. `join` returns when the thread has finished.
pub data Move (s s' : LoopThread) : Type 0 where
  starts : s.owner ≡ OwnerAt.idle → s' ≡ start_loop s → Move s s'
  returns : s.owner ≡ OwnerAt.waiting → s.loop_set ≡ true → s' ≡ return_loop s → Move s s'
  publishes : s.thread ≡ ThreadAt.initializing → s' ≡ publish s → Move s s'
  enters : s.thread ≡ ThreadAt.published → s' ≡ begin_loop s → Move s s'
  resets : s.thread ≡ ThreadAt.entering → s' ≡ reset_quit s → Move s s'
  leaves : s.thread ≡ ThreadAt.in_loop → s.quit ≡ true → s' ≡ end_loop s → Move s s'
  clears : s.thread ≡ ThreadAt.left → s' ≡ clear_loop s → Move s s'
  ends : s.thread ≡ ThreadAt.cleared → s' ≡ end_thread s → Move s s'
  destructs : may_destroy s.owner ≡ true → s' ≡ begin_destroy s → Move s s'
  tests : s.owner ≡ OwnerAt.seen → s' ≡ destroy_tests s → Move s s'
  stores : (told : Bool) → s.owner ≡ OwnerAt.telling told → s' ≡ destroy_stores told s → Move s s'
  wakes : s.owner ≡ OwnerAt.waking → s' ≡ destroy_wakes s → Move s s'
  joins :
      s.owner ≡ OwnerAt.joining
      → s.thread ≡ ThreadAt.finished
      → s' ≡ record s { owner = OwnerAt.destroyed }
      → Move s s'

-- What the two can come to between them, from a state.
pub data Run (first : LoopThread) : LoopThread → Type 0 where
  here : Run first first
  after_move : (s s' : LoopThread) → Run first s → Move s s' → Run first s'

-- What they can come to from the start, where others may also call `quit` of the loop: such a call
-- stores what it read of `looping_` at some time before.
pub data Reach : LoopThread → Type 0 where
  at_first : Reach init
  after_own : (s s' : LoopThread) → Reach s → Move s s' → Reach s'
  after_quit :
      (told : Bool) (s : LoopThread)
      → Reach s
      → is_alive s.thread ≡ true
      → Reach (quit_stores told s)
