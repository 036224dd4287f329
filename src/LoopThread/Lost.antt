-- ===== src/LoopThread/Lost.antt =====
-- polaris/src/EventLoopThread.cc: which calls of the destructor end.
use lute.LoopThread.{
  ThreadAt, OwnerAt, LoopThread, begin_loop, reset_quit, end_loop, clear_loop, end_thread,
  quit_stores, destroy_stores, destroy_wakes, is_alive, may_destroy, Move, Run, starts, returns,
  publishes, enters, resets, leaves, clears, ends, destructs, tests, stores, wakes, joins, here,
  after_move,
}
use lute.Prelude.{
  true, false, Bool, not, ◌≡◌, inl, inr, refl, subst, sym, ◌∙◌, ap, ◌↔◌, if◌then◌else◌, if_true,
  Bool-cases,
}

-- The thread does not hear the flag: it has `quit_ = false` before it, or finds `quit_` unset.
abbrev pub is_deaf : ThreadAt → Bool → Bool
is_deaf ThreadAt.not_started told = false
is_deaf ThreadAt.initializing told = false
is_deaf ThreadAt.published told = true
is_deaf ThreadAt.entering told = true
is_deaf ThreadAt.in_loop told = not told
is_deaf ThreadAt.left told = false
is_deaf ThreadAt.cleared told = false
is_deaf ThreadAt.finished told = false

abbrev waits : OwnerAt → Bool
waits OwnerAt.idle = false
waits OwnerAt.waiting = false
waits OwnerAt.started = false
waits OwnerAt.seen = false
waits (OwnerAt.telling told) = false
waits OwnerAt.waking = true
waits OwnerAt.joining = true
waits OwnerAt.destroyed = false
waits OwnerAt.dangling = false

-- The owner waits for a thread that does not hear it.
abbrev Stuck : LoopThread → Type 0
Stuck s = (waits s.owner ≡ true) × (is_deaf s.thread s.quit ≡ true)

deaf-is_alive : (t : ThreadAt) (told : Bool) → is_deaf t told ≡ true → is_alive t ≡ true
deaf-is_alive ThreadAt.not_started told e = absurd (cc e)
deaf-is_alive ThreadAt.initializing told e = absurd (cc e)
deaf-is_alive ThreadAt.published told e = refl
deaf-is_alive ThreadAt.entering told e = refl
deaf-is_alive ThreadAt.in_loop told e = refl
deaf-is_alive ThreadAt.left told e = absurd (cc e)
deaf-is_alive ThreadAt.cleared told e = absurd (cc e)
deaf-is_alive ThreadAt.finished told e = absurd (cc e)

-- The steps that a stuck pair cannot take.
module _ (s : LoopThread) (k : Stuck s) where
  owner_elsewhere {ℓ} : {A : Type ℓ} (o : OwnerAt) → s.owner ≡ o → waits o ≡ false → A
  owner_elsewhere o at e = absurd (cc (sym k.0 ∙ ap waits at ∙ e))

  thread_elsewhere {ℓ} : {A : Type ℓ} (t : ThreadAt) → s.thread ≡ t → is_deaf t s.quit ≡ false → A
  thread_elsewhere t at e = absurd (cc (sym k.1 ∙ ap (λ t. is_deaf t s.quit) at ∙ e))

Move-Stuck : (s s' : LoopThread) → Stuck s → Move s s' → Stuck s'
unfolding begin_loop reset_quit destroy_wakes
Move-Stuck s s' k (starts at e) = owner_elsewhere s k OwnerAt.idle at refl
Move-Stuck s s' k (returns at there e) = owner_elsewhere s k OwnerAt.waiting at refl
Move-Stuck s s' k (publishes at e) = thread_elsewhere s k ThreadAt.initializing at refl
Move-Stuck s s' k (enters at e) = subst Stuck (sym e) (k.0, refl)
Move-Stuck s s' k (resets at e) = subst Stuck (sym e) (k.0, refl)
Move-Stuck s s' k (leaves at told e) = thread_elsewhere s k ThreadAt.in_loop at (ap not told)
Move-Stuck s s' k (clears at e) = thread_elsewhere s k ThreadAt.left at refl
Move-Stuck s s' k (ends at e) = thread_elsewhere s k ThreadAt.cleared at refl
Move-Stuck s s' k (destructs may e) = absurd (no_destructor s.owner may k.0)
  where
    no_destructor : (o : OwnerAt) → may_destroy o ≡ true → waits o ≡ true → ⊥
    no_destructor OwnerAt.idle m w = cc
    no_destructor OwnerAt.waiting m w = cc
    no_destructor OwnerAt.started m w = cc
    no_destructor OwnerAt.seen m w = cc
    no_destructor (OwnerAt.telling told) m w = cc
    no_destructor OwnerAt.waking m w = cc
    no_destructor OwnerAt.joining m w = cc
    no_destructor OwnerAt.destroyed m w = cc
    no_destructor OwnerAt.dangling m w = cc
Move-Stuck s s' k (tests at e) = owner_elsewhere s k OwnerAt.seen at refl
Move-Stuck s s' k (stores told at e) = owner_elsewhere s k (OwnerAt.telling told) at refl
Move-Stuck s s' k (wakes at e) = subst Stuck (sym e) (
  if_true (λ o. waits o ≡ true) (is_alive s.thread) _ _ (deaf-is_alive s.thread s.quit k.1) refl,
  k.1,
)
Move-Stuck s s' k (joins at over e) = thread_elsewhere s k ThreadAt.finished over refl

Run-Stuck : (s s' : LoopThread) → Stuck s → Run s s' → Stuck s'
Run-Stuck s _ k here = k
Run-Stuck s s' k (after_move r _ run move) = Move-Stuck r s' (Run-Stuck s r k run) move

-- The destructor can get to its end without another call of `quit`.
abbrev pub Ends : LoopThread → Type 0
Ends s = (s' : LoopThread) × Run s s' × (s'.owner ≡ OwnerAt.destroyed)

-- One step more in front.
Run-first : (s s₁ s' : LoopThread) → Move s s₁ → Run s₁ s' → Run s s'
Run-first s s₁ _ m here = after_move s s₁ here m
Run-first s s₁ s' m (after_move r _ run move) = after_move r s' (Run-first s s₁ r m run) move

Ends-first : (s s₁ : LoopThread) → Move s s₁ → Ends s₁ → Ends s
Ends-first s s₁ m (s', run, over) = (s', Run-first s s₁ s' m run, over)

cleared-Ends : (s : LoopThread) → s.thread ≡ ThreadAt.cleared → s.owner ≡ OwnerAt.joining → Ends s
unfolding end_thread
cleared-Ends s at waits = Ends-first s (end_thread s) (ends at refl) (
  record (end_thread s) { owner = OwnerAt.destroyed },
  after_move (end_thread s) _ here (joins waits refl refl),
  refl,
)

-- The owner is in `join`, and the thread has left `loop()` or hears it.
joining-Ends :
    (s : LoopThread) (t : ThreadAt)
    → s.thread ≡ t
    → is_alive t ≡ true
    → s.owner ≡ OwnerAt.joining
    → is_deaf t s.quit ≡ false
    → Ends s
unfolding end_loop clear_loop end_thread
joining-Ends s ThreadAt.not_started at there waits hears = absurd (cc there)
joining-Ends s ThreadAt.initializing at there waits hears = absurd (cc there)
joining-Ends s ThreadAt.published at there waits hears = absurd (cc hears)
joining-Ends s ThreadAt.entering at there waits hears = absurd (cc hears)
joining-Ends s ThreadAt.in_loop at there waits hears =
    Ends-first s (end_loop s) (leaves at (told s.quit hears) refl) (
      Ends-first (end_loop s) (clear_loop (end_loop s)) (clears refl refl)
        (cleared-Ends (clear_loop (end_loop s)) refl waits))
  where
    told : (q : Bool) → not q ≡ false → q ≡ true
    told true e = refl
    told false e = cc
joining-Ends s ThreadAt.left at there waits hears =
    Ends-first s (clear_loop s) (clears at refl) (cleared-Ends (clear_loop s) refl waits)
joining-Ends s ThreadAt.cleared at there waits hears = cleared-Ends s at waits
joining-Ends s ThreadAt.finished at there waits hears = absurd (cc there)

-- `quit` has stored its flag, while the loop is there.
stored : Bool → LoopThread → LoopThread
unfolding quit_stores
stored told s = record (quit_stores told s) {
  owner = if told then OwnerAt.waking else OwnerAt.joining;
}

stored-Ends :
    (told : Bool) (s : LoopThread)
    → is_alive s.thread ≡ true
    → is_deaf s.thread told ≡ false
    → Ends (stored told s)
unfolding stored quit_stores destroy_wakes
stored-Ends false s there hears = joining-Ends (stored false s) s.thread refl there refl hears
stored-Ends true s there hears =
    Ends-first (stored true s) (destroy_wakes (stored true s)) (wakes refl refl) (
      joining-Ends (destroy_wakes (stored true s)) s.thread refl there
        (if_true (λ o. o ≡ OwnerAt.joining) (is_alive s.thread) _ _ there refl) hears)

stored-Stuck : (told : Bool) (s : LoopThread) → is_deaf s.thread told ≡ true → Stuck (stored told s)
unfolding stored quit_stores
stored-Stuck true s e = (refl, e)
stored-Stuck false s e = (refl, e)

Ends-hears : (told : Bool) (s : LoopThread) → Ends (stored told s) → is_deaf s.thread told ≡ false
Ends-hears told s (s', run, over) = elim (Bool-cases (is_deaf s.thread told)) [
  | inl deaf ↦
      let k = Run-Stuck (stored told s) s' (stored-Stuck told s deaf) run in
      absurd (cc (sym k.0 ∙ ap waits over))
  | inr hears ↦ hears
]

-- When the destructor of an `EventLoopThread` stores in `quit_` what its `quit` has read of `looping_`,
-- while the loop is there: it can get to its end without another call of `quit` if and only if the
-- thread hears it, that is, has left `loop()`, or is past its `quit_ = false` and the flag is set.
-- Between publishing `loop_` and `quit_ = false`, and inside `loop()` with a flag read before
-- `looping_ = true`, the call is lost, and `join` waits for ever.
pub destroy_stores-Ends_iff :
    (told : Bool) (s : LoopThread)
    → is_alive s.thread ≡ true
    → Ends (destroy_stores told s) ↔ (is_deaf s.thread told ≡ false)
unfolding destroy_stores stored
destroy_stores-Ends_iff told s there =
    if_true (λ d. Ends d ↔ (is_deaf s.thread told ≡ false)) (is_alive s.thread) _ _ there
      (Ends-hears told s, stored-Ends told s there)
