-- ===== src/EventLoop/Wakeup.antt =====
-- No functor of polaris/src/EventLoop.cc is lost, and no sleeping loop misses one.
use mathlib.Core.List.{append_assoc, append-nil}
use lute.Prelude.{
  [], ◌∷◌, true, false, ◌≡◌, List, inr, ◌⊎◌, ◌<◌, ◌+◌, ◌∙◌, ℕ, ◌++◌, ap, subst, sym, Bool, inl,
  if◌then◌else◌, refl, arith, ◌-◌,
}
use lute.EventLoop.{
  start, after_step, init, handle_read, EventLoop, Phase, Step, Reach, begin_queue, set_quit,
  end_wakeup, in_callback, queue_in_loop, push_back, next_iteration, begin_calling, wakeup,
  swap_functors, call_functor, queued, other_queues, other_quits, other_wakes, own_queues,
  own_quits, poll_returns, reads, begins, takes, calls, iterates, after_step,
}

-- The loop has been woken, or another thread is about to wake it.
abbrev pub Awake : EventLoop → Type 0
Awake s = 0 < s.wakeups + s.waking

-- Functors that are taken and not yet called.
abbrev pub taken : Phase → List ℕ
taken (Phase.draining rest) = rest
taken Phase.polling = []
taken Phase.handling = []
taken Phase.calling = []
taken Phase.stopped = []

abbrev Woken : Phase → EventLoop → Type 0
Woken Phase.polling s = ((s.pending_functors ≡ []) × (s.quit ≡ false)) ⊎ Awake s
Woken (Phase.draining rest) s =
    ((s.pending_functors ≡ []) ⊎ Awake s) × (s.calling_pending_functors ≡ true)
Woken Phase.handling s = Unit {0}
Woken Phase.calling s = s.calling_pending_functors ≡ true
Woken Phase.stopped s = Unit {0}

abbrev Kept : List ℕ → EventLoop → Type 0
Kept log s = Woken s.phase s × (s.called ++ (taken s.phase ++ s.pending_functors) ≡ log)

-- A step of another thread that leaves a wake-up behind it.
Awake-Woken :
    (phase : Phase) (s s' : EventLoop)
    → s'.calling_pending_functors ≡ s.calling_pending_functors
    → Awake s'
    → Woken phase s
    → Woken phase s'
Awake-Woken Phase.polling s s' e a w = inr a
Awake-Woken (Phase.draining rest) s s' e a w = (inr a, e ∙ w.1)
Awake-Woken Phase.handling s s' e a w = tt
Awake-Woken Phase.calling s s' e a w = e ∙ w
Awake-Woken Phase.stopped s s' e a w = tt

pushed_lem :
    (log : List ℕ) (s : EventLoop) (functor : ℕ)
    → s.called ++ (taken s.phase ++ s.pending_functors) ≡ log
    → s.called ++ (taken s.phase ++ (s.pending_functors ++ (functor ∷ []))) ≡ log ++ (functor ∷ [])
pushed_lem log s functor e =
    ap (◌++◌ s.called) (sym (append_assoc (taken s.phase) s.pending_functors (functor ∷ [])))
    ∙ sym (append_assoc s.called (taken s.phase ++ s.pending_functors) (functor ∷ []))
    ∙ ap (λ l. l ++ (functor ∷ [])) e

same_log : (log : List ℕ) (s : EventLoop) → Kept log s → Kept (log ++ []) s
same_log log s k = subst (λ l. Kept l s) (sym (append-nil log)) k

-- `queueInLoop` of another thread is its two halves.
queue_in_loop_lem :
    (functor : ℕ) (s : EventLoop)
    → queue_in_loop false functor s ≡ end_wakeup (begin_queue functor s)
unfolding queue_in_loop begin_queue end_wakeup
queue_in_loop_lem functor s =
    let back : s.waking ≡ s.waking + 1 - 1 = omega arith in
    ap (λ n. record (wakeup (push_back functor s)) { waking = n }) back

unwoken_push :
    (phase : Phase) (s : EventLoop) (functor : ℕ)
    → in_callback phase ≡ true
    → s.calling_pending_functors ≡ false
    → Woken phase s
    → Woken phase (push_back functor s)
unwoken_push Phase.polling s functor at idle w = absurd (cc at)
unwoken_push (Phase.draining rest) s functor at idle w = absurd (cc (sym idle ∙ w.1))
unwoken_push Phase.handling s functor at idle w = tt
unwoken_push Phase.calling s functor at idle w = absurd (cc at)
unwoken_push Phase.stopped s functor at idle w = absurd (cc at)

own_queues-Kept :
    (log : List ℕ) (s : EventLoop) (functor : ℕ)
    → in_callback s.phase ≡ true
    → Kept log s
    → Kept (log ++ (functor ∷ [])) (queue_in_loop true functor s)
unfolding queue_in_loop push_back wakeup
own_queues-Kept log s functor at (w, e) = go s.calling_pending_functors refl
  where
    go :
        (b : Bool)
        → s.calling_pending_functors ≡ b
        → Kept
            (log ++ (functor ∷ []))
            (if b then wakeup (push_back functor s) else push_back functor s)
    go true h = (
      Awake-Woken s.phase s (wakeup (push_back functor s)) refl (omega arith) w,
      pushed_lem log s functor e,
    )
    go false h = (unwoken_push s.phase s functor at h w, pushed_lem log s functor e)

own_quits-Woken :
    (phase : Phase) (s : EventLoop)
    → in_callback phase ≡ true
    → Woken phase s
    → Woken phase (set_quit true s)
unfolding set_quit
own_quits-Woken Phase.polling s at w = absurd (cc at)
own_quits-Woken (Phase.draining rest) s at w = w
own_quits-Woken Phase.handling s at w = tt
own_quits-Woken Phase.calling s at w = absurd (cc at)
own_quits-Woken Phase.stopped s at w = absurd (cc at)

iterates-Kept :
    (log : List ℕ) (s : EventLoop)
    → (s.pending_functors ≡ []) ⊎ Awake s
    → s.called ++ s.pending_functors ≡ log
    → Kept log (next_iteration s)
unfolding next_iteration
iterates-Kept log s w e = go s.quit refl
  where
    go :
        (b : Bool)
        → s.quit ≡ b
        → Kept log (record s {
          phase = if b then Phase.stopped else Phase.polling;
          calling_pending_functors = false;
        })
    go true h = (tt, e)
    go false h = (elim w [ inl none_left ↦ inl (none_left, h) | inr awake ↦ inr awake ], e)

Step-Kept :
    (log : List ℕ) (s s' : EventLoop)
    → Kept log s
    → (step : Step s s') → Kept (log ++ queued s s' step) s'
unfolding begin_queue set_quit end_wakeup handle_read begin_calling swap_functors call_functor
Step-Kept log s s' (w, e) (other_queues functor h) =
    subst (Kept (log ++ (functor ∷ []))) (sym h)
      (Awake-Woken s.phase s _ refl (omega arith) w, pushed_lem log s functor e)
Step-Kept log s s' (w, e) (other_quits h) =
    subst (Kept (log ++ [])) (sym h)
      (same_log log _ (Awake-Woken s.phase s _ refl (omega arith) w, e))
Step-Kept log s s' (w, e) (other_wakes some_waking h) =
    subst (Kept (log ++ [])) (sym h)
      (same_log log _ (Awake-Woken s.phase s _ refl (omega arith) w, e))
Step-Kept log s s' k (own_queues functor at h) =
    subst (Kept (log ++ (functor ∷ []))) (sym h) (own_queues-Kept log s functor at k)
Step-Kept log s s' (w, e) (own_quits at h) =
    subst (Kept (log ++ [])) (sym h)
      (same_log log (set_quit true s) (own_quits-Woken s.phase s at w, e))
Step-Kept log s s' (w, e) (poll_returns at h) = subst (Kept (log ++ [])) (sym h) (
    same_log log (record s { phase = Phase.handling })
      (tt, ap (λ p. s.called ++ (taken p ++ s.pending_functors)) (sym at) ∙ e))
Step-Kept log s s' (w, e) (reads at h) =
    subst (Kept (log ++ [])) (sym h)
      (same_log log (handle_read s) (subst (λ p. Woken p (handle_read s)) (sym at) tt, e))
Step-Kept log s s' (w, e) (begins at h) = subst (Kept (log ++ [])) (sym h) (
    same_log log (begin_calling s)
      (refl, ap (λ p. s.called ++ (taken p ++ s.pending_functors)) (sym at) ∙ e))
Step-Kept log s s' (w, e) (takes at h) = subst (Kept (log ++ [])) (sym h) (
    same_log log (swap_functors s) (
      (inl refl, subst (λ p. Woken p s) at w),
      ap (◌++◌ s.called) (append-nil s.pending_functors)
          ∙ ap (λ p. s.called ++ (taken p ++ s.pending_functors)) (sym at)
          ∙ e,
    ))
Step-Kept log s s' (w, e) (calls functor rest at h) = subst (Kept (log ++ [])) (sym h) (
    same_log log (call_functor functor rest s) (
      subst (λ p. Woken p s) at w,
      append_assoc s.called (functor ∷ []) (rest ++ s.pending_functors)
          ∙ ap (λ p. s.called ++ (taken p ++ s.pending_functors)) (sym at)
          ∙ e,
    ))
Step-Kept log s s' (w, e) (iterates at h) = subst (Kept (log ++ [])) (sym h) (
    same_log log (next_iteration s) (
      iterates-Kept log s (subst (λ p. Woken p s) at w).0
        (ap (λ p. s.called ++ (taken p ++ s.pending_functors)) (sym at) ∙ e)))

Reach-Kept : (log : List ℕ) (s : EventLoop) → Reach log s → Kept log s
unfolding init
Reach-Kept _ _ start = (inl (refl, refl), refl)
Reach-Kept _ _ (after_step log r s reached step) = Step-Kept log r s (Reach-Kept log r reached) step

-- In every state that a loop can come to, whatever other threads do in between, the functors called,
-- those taken and those pending are all that were queued, in the order in which they were: none is
-- lost, called twice or overtaken.
pub Reach-log :
    (log : List ℕ) (s : EventLoop)
    → Reach log s
    → s.called ++ (taken s.phase ++ s.pending_functors) ≡ log
Reach-log log s reached = (Reach-Kept log s reached).1
