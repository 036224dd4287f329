-- ===== src/Tests/Loops.antt =====
-- The theorems on polaris/src/EventLoop.cc and polaris/src/EventLoopThread.cc at concrete inputs.
use lute.Prelude.{[], ◌∷◌, ◌≡◌, refl, ◌++◌, true, false, ◌↔◌}
use lute.EventLoop.{EventLoop, Phase, Step, Reach, start, after_step, other_queues, begin_queue}
use lute.EventLoop
use lute.LoopThread.{
  LoopThread, ThreadAt, OwnerAt, after_own, at_first, starts, publishes, returns, destructs,
  start_loop, publish, return_loop, begin_destroy, destroy_tests, destroy_stores, tests,
}
use lute.LoopThread
use lute.LoopThread.Joined.{Joined, Reach-Joined}
use lute.LoopThread.Lost.{Ends, is_deaf, destroy_stores-Ends_iff}
use lute.EventLoop.Wakeup.{taken, Reach-log}

-- Another thread has queued functor 7 while the loop sleeps.
abbrev asked : EventLoop
asked = begin_queue 7 EventLoop.init

asked-Reach : Reach (7 ∷ []) asked
asked-Reach = after_step [] EventLoop.init asked start (other_queues 7 refl)

Reach-log_example : asked.called ++ (taken asked.phase ++ asked.pending_functors) ≡ 7 ∷ []
Reach-log_example = Reach-log (7 ∷ []) asked asked-Reach

-- `startLoop` has returned and the destructor has tested `looping_`, before the thread enters `loop()`.
abbrev hasty : LoopThread
hasty = record {
  thread = ThreadAt.published;
  owner = OwnerAt.telling false;
  exiting = true;
  loop_set = true;
  looping = false;
  quit = false;
}

hasty-Reach : LoopThread.Reach hasty
unfolding LoopThread.init start_loop publish return_loop begin_destroy destroy_tests
hasty-Reach =
    after_own (begin_destroy (return_loop waited)) hasty
      (after_own (return_loop waited) _
        (after_own waited _
          (after_own (start_loop LoopThread.init) _
            (after_own LoopThread.init _ at_first (starts refl refl)) (publishes refl refl))
          (returns refl refl refl))
        (destructs refl refl))
      (tests refl refl)
  where
    waited : LoopThread
    waited = publish (start_loop LoopThread.init)

Reach-Joined_example : Joined hasty
Reach-Joined_example = Reach-Joined hasty hasty-Reach

destroy_stores-Ends_example :
    Ends (destroy_stores false hasty) ↔ (is_deaf hasty.thread false ≡ false)
destroy_stores-Ends_example = destroy_stores-Ends_iff false hasty refl
