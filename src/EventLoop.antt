-- ===== src/EventLoop.antt =====
-- polaris/src/EventLoop.cc: what a loop has been asked to call, and how it is woken. A functor is a
-- number; the other threads' calls of `queueInLoop` and `quit` may be caught between their two halves.
pub mod Wakeup
use lute.Prelude.{
  none, some, zero, suc, [], ◌∷◌, true, false, List, if◌then◌else◌, Bool, ◌+◌, ◌-◌, ◌≡◌, ℕ, ◌<◌,
  ◌++◌, not, ◌||◌,
}

-- Where `loop()` stands: in `poll`, among the active channels, in `doPendingFunctors` before and after
-- it has taken the functors, or past the end.
pub data Phase : Type 0 where
  polling handling calling stopped : Phase
  draining : List ℕ → Phase

pub record EventLoop : Type 0 where
  pub phase : Phase
  pub quit : Bool
  pub calling_pending_functors : Bool
  pub pending_functors : List ℕ
  -- The counter of the eventfd.
  pub wakeups : ℕ
  -- Other threads that are about to call `wakeup`.
  pub waking : ℕ
  pub called : List ℕ

-- `loop()` as it comes to its first `poll`.
unfoldable pub init : EventLoop
init = record {
  phase = Phase.polling;
  quit = false;
  calling_pending_functors = false;
  pending_functors = [];
  wakeups = 0;
  waking = 0;
  called = [];
}

unfoldable pub wakeup : EventLoop → EventLoop
wakeup s = record s { wakeups = s.wakeups + 1 }

-- read(2) of an eventfd gives its counter and sets it to 0.
unfoldable pub handle_read : EventLoop → EventLoop
handle_read s = record s { wakeups = 0 }

unfoldable pub push_back : ℕ → EventLoop → EventLoop
push_back functor s = record s { pending_functors = s.pending_functors ++ functor ∷ [] }

-- `queueInLoop`, the flag being `isInLoopThread()`.
unfoldable pub queue_in_loop : Bool → ℕ → EventLoop → EventLoop
unfolding push_back wakeup
queue_in_loop in_loop_thread functor s =
    let pushed = push_back functor s in
    if not in_loop_thread || pushed.calling_pending_functors then wakeup pushed else pushed

-- `queueInLoop` of another thread, before its test: it will call `wakeup`.
unfoldable pub begin_queue : ℕ → EventLoop → EventLoop
unfolding push_back
begin_queue functor s = record (push_back functor s) { waking = s.waking + 1 }

-- `quit` while the loop runs, in the loop's thread or before the other thread's `wakeup`.
unfoldable pub set_quit : Bool → EventLoop → EventLoop
set_quit in_loop_thread s = record s {
  quit = true;
  waking = if in_loop_thread then s.waking else s.waking + 1;
}

unfoldable pub end_wakeup : EventLoop → EventLoop
unfolding wakeup
end_wakeup s = record (wakeup s) { waking = s.waking - 1 }

-- `doPendingFunctors`: the flag, the swap, and one call after the other.
unfoldable pub begin_calling : EventLoop → EventLoop
begin_calling s = record s { phase = Phase.calling; calling_pending_functors = true }

unfoldable pub swap_functors : EventLoop → EventLoop
swap_functors s = record s { phase = Phase.draining s.pending_functors; pending_functors = [] }

unfoldable pub call_functor : ℕ → List ℕ → EventLoop → EventLoop
call_functor functor rest s = record s {
  phase = Phase.draining rest;
  called = s.called ++ functor ∷ [];
}

-- The end of `doPendingFunctors`, and `while (!quit_)`.
unfoldable pub next_iteration : EventLoop → EventLoop
next_iteration s = record s {
  phase = if s.quit then Phase.stopped else Phase.polling;
  calling_pending_functors = false;
}

-- In the loop's thread, in a callback of a channel or in a functor.
abbrev pub in_callback : Phase → Bool
in_callback Phase.handling = true
in_callback (Phase.draining rest) = true
in_callback Phase.polling = false
in_callback Phase.calling = false
in_callback Phase.stopped = false

-- One step of the loop or of another thread.
pub data Step (s s' : EventLoop) : Type 0 where
  other_queues : (functor : ℕ) → s' ≡ begin_queue functor s → Step s s'
  other_quits : s' ≡ set_quit false s → Step s s'
  other_wakes : 0 < s.waking → s' ≡ end_wakeup s → Step s s'
  own_queues :
      (functor : ℕ) → in_callback s.phase ≡ true → s' ≡ queue_in_loop true functor s → Step s s'
  own_quits : in_callback s.phase ≡ true → s' ≡ set_quit true s → Step s s'
  poll_returns : s.phase ≡ Phase.polling → s' ≡ record s { phase = Phase.handling } → Step s s'
  reads : s.phase ≡ Phase.handling → s' ≡ handle_read s → Step s s'
  begins : s.phase ≡ Phase.handling → s' ≡ begin_calling s → Step s s'
  takes : s.phase ≡ Phase.calling → s' ≡ swap_functors s → Step s s'
  calls :
      (functor : ℕ) (rest : List ℕ)
      → s.phase ≡ Phase.draining (functor ∷ rest)
      → s' ≡ call_functor functor rest s
      → Step s s'
  iterates : s.phase ≡ Phase.draining [] → s' ≡ next_iteration s → Step s s'

-- The functors that a step queues.
abbrev pub queued : (s s' : EventLoop) → Step s s' → List ℕ
queued s s' (other_queues functor e) = functor ∷ []
queued s s' (own_queues functor at e) = functor ∷ []
queued s s' (other_quits e) = []
queued s s' (other_wakes h e) = []
queued s s' (own_quits at e) = []
queued s s' (poll_returns at e) = []
queued s s' (reads at e) = []
queued s s' (begins at e) = []
queued s s' (takes at e) = []
queued s s' (calls functor rest at e) = []
queued s s' (iterates at e) = []

-- The states that a loop can come to, with all functors queued until then, oldest first.
pub data Reach : List ℕ → EventLoop → Type 0 where
  start : Reach [] init
  after_step :
      (log : List ℕ) (r s : EventLoop)
      → Reach log r
      → (step : Step r s) → Reach (log ++ queued r s step) s
