-- ===== src/Tests/Queues.antt =====
-- The theorems on sequences of calls at concrete inputs: polaris/include/polaris/Buffer.h and
-- polaris/src/TimerQueue.cc.
use lute.Timers.Fired.{handle_read-Matched, Behaves, due}
use lute.Timers.Allowed.{add_timer_in_loop-Expires, cancel_in_loop-Expires}
use lute.Timers.{Timer, Entry, split_due, add_timer_in_loop}
use lute.Timers.Sets.{Apart}
use lute.Timers.Matched.{Expires}
use lute.Buffer.Contents.{Holds}
use lute.Timers.Cancel.{Cancels, cancel_in_loop-Cancels}
use lute.Http.Bytes.{codes}
use lute.Tests.Buffers.{holding, holding-IsValid}
use lute.Timers.{cancel_in_loop}
use lute.Tests.Alarms.{MicrosecondQueue, two_timers, two_timers-InStep}
use lute.Buffer.{
  Buffer, append, retrieve, retrieve_as_string, retrieve_all_as_string, prepend, shrink, unwrite,
}
use lute.Buffer.Queue.{
  run, AllowedRun, Op, append_op, retrieve_op, prepend_op, queue_run, shrink_op, run_refines,
  retrieve_as_string_op, unwrite_op, retrieve_all_as_string_op, apply,
}
use lute.Timers.{handle_read}
use lute.Timers.Matched.{Matched}
use lute.Prelude.{
  some, [], ◌∷◌, ◌+◌, Returns, ℕ, List, Option, ◌≡◌, refl, arith, Bool, if◌then◌else◌, Bool-cases,
  false, set_at, ◌==◌, inl, ◌||◌, if_true, inr, if_false, ◌>>=◌, Returns->>=,
}

-- Bytes come in, some go out, some are put in front, and all go out.
abbrev calls : List Op
calls =
    append_op (codes "lo!")
    ∷ retrieve_op 1
    ∷ prepend_op (codes "he")
    ∷ shrink_op 20
    ∷ retrieve_as_string_op 2
    ∷ unwrite_op 1
    ∷ retrieve_all_as_string_op
    ∷ []

calls-AllowedRun : AllowedRun calls (holding (codes "hel"))
unfolding apply append retrieve retrieve_as_string retrieve_all_as_string prepend shrink unwrite
calls-AllowedRun = (
  omega arith,
  (omega arith, (omega arith, (omega arith, (omega arith, (omega arith, (tt, tt)))))),
)

run_refines_example :
    Returns {A = List (List ℕ) × Buffer}
      (run calls (holding (codes "hel")))
      (λ r. (r.0 ≡ (queue_run calls (codes "hel")).0) × Holds (queue_run calls (codes "hel")).1 r.1)
run_refines_example =
    run_refines calls (holding (codes "hel")) (holding-IsValid (codes "hel")) calls-AllowedRun

two_timers-Matched : Matched ℕ (λ now interval. now + interval) two_timers
two_timers-Matched = record {
  in_step = two_timers-InStep;
  timed = (refl, (refl, tt));
  matched = λ f. refl;
}

cancel_in_loop-Cancels_example :
    Returns
      (cancel_in_loop ℕ (λ now interval. now + interval) (2, 3) two_timers)
      (Cancels ℕ (λ now interval. now + interval) 2 3 two_timers)
cancel_in_loop-Cancels_example =
    cancel_in_loop-Cancels ℕ (λ now interval. now + interval) 2 3 two_timers two_timers-Matched

-- A callback that cancels the timer at address 5, and sets one up at address 9, unless one is there.
abbrev next_timer : Timer ℕ (λ now interval. now + interval)
next_timer = record { callback = 1; expiration = 70; interval = 0; repeat = false; sequence = 12 }

abbrev taken : ℕ → List Entry → Bool
taken p [] = false
taken p ((time, a) ∷ xs) = p == a || taken p xs

taken-Apart : (p : ℕ) (xs : List Entry) → taken p xs ≡ false → Apart p xs
taken-Apart p [] e = tt
taken-Apart p ((time, a) ∷ xs) e = ((λ same. ground arith), taken-Apart p xs (ground arith))

adds_one : MicrosecondQueue → Option MicrosecondQueue
adds_one q =
    if taken 9 q.timers
    then some q
    else add_timer_in_loop ℕ (λ now interval. now + interval) 9
        (record q { objects = set_at 9 next_timer q.objects })

adds_one-Expires :
    (q : MicrosecondQueue)
    → Expires ℕ (λ now interval. now + interval) ((20, 2) ∷ []) q
    → Returns (adds_one q) (Expires ℕ (λ now interval. now + interval) ((20, 2) ∷ []))
unfolding adds_one
adds_one-Expires q x = elim (Bool-cases (taken 9 q.timers)) [
  | inl there ↦
      if_true (λ m. Returns m (Expires ℕ (λ now interval. now + interval) ((20, 2) ∷ [])))
        (taken 9 q.timers) _ _ there x
  | inr free ↦
      if_false (λ m. Returns m (Expires ℕ (λ now interval. now + interval) ((20, 2) ∷ [])))
        (taken 9 q.timers) _ _ free
        (add_timer_in_loop-Expires ℕ (λ now interval. now + interval) ((20, 2) ∷ []) 9 next_timer q
          x (omega arith) (taken-Apart 9 q.timers free) (taken-Apart 9 ((20, 2) ∷ []) refl))
]

cancels_and_adds : ℕ → MicrosecondQueue → Option MicrosecondQueue
cancels_and_adds callback q =
    cancel_in_loop ℕ (λ now interval. now + interval) (5, 6) q >>= adds_one

cancels_and_adds-Behaves :
    Behaves ℕ
      (λ now interval. now + interval)
      (due ℕ (λ now interval. now + interval) 30 two_timers)
      cancels_and_adds
unfolding cancels_and_adds split_due
cancels_and_adds-Behaves callback q x =
    Returns->>= (Expires ℕ (λ now interval. now + interval) ((20, 2) ∷ [])) _
      (cancel_in_loop ℕ (λ now interval. now + interval) (5, 6) q) adds_one
      (cancel_in_loop-Expires ℕ (λ now interval. now + interval) ((20, 2) ∷ []) 5 6 q x)
      (λ q' x'. adds_one-Expires q' x')

handle_read-Matched_example :
    Returns
      (handle_read ℕ (λ now interval. now + interval) cancels_and_adds 30 two_timers)
      (Matched ℕ (λ now interval. now + interval))
handle_read-Matched_example =
    handle_read-Matched ℕ (λ now interval. now + interval) cancels_and_adds 30 two_timers
      cancels_and_adds-Behaves two_timers-Matched
