-- ===== src/LoopThread/Joined.antt =====
-- polaris/src/EventLoopThread.cc: the pointer to the loop, and what is left of the thread when the object
-- is gone.
use lute.LoopThread.{
  ThreadAt, OwnerAt, LoopThread, init, start_loop, return_loop, publish, begin_loop, reset_quit,
  end_loop, clear_loop, end_thread, quit_stores, begin_destroy, destroy_tests, destroy_stores,
  destroy_wakes, is_alive, may_destroy, Move, Reach, starts, returns, publishes, enters, resets,
  leaves, clears, ends, destructs, tests, stores, wakes, joins, at_first, after_own, after_quit,
}
use lute.Prelude.{true, false, Bool, not, ◌≡◌, refl, subst, sym, ◌∙◌, ap, if◌then◌else◌}

-- Where `loop_` is not null, and where `looping_` holds.
abbrev pub has_loop : ThreadAt → Bool
has_loop ThreadAt.not_started = false
has_loop ThreadAt.initializing = false
has_loop ThreadAt.published = true
has_loop ThreadAt.entering = true
has_loop ThreadAt.in_loop = true
has_loop ThreadAt.left = true
has_loop ThreadAt.cleared = false
has_loop ThreadAt.finished = false

abbrev pub is_looping : ThreadAt → Bool
is_looping ThreadAt.not_started = false
is_looping ThreadAt.initializing = false
is_looping ThreadAt.published = false
is_looping ThreadAt.entering = true
is_looping ThreadAt.in_loop = true
is_looping ThreadAt.left = false
is_looping ThreadAt.cleared = false
is_looping ThreadAt.finished = false

abbrev pub has_begun : ThreadAt → Bool
has_begun ThreadAt.not_started = false
has_begun ThreadAt.initializing = true
has_begun ThreadAt.published = true
has_begun ThreadAt.entering = true
has_begun ThreadAt.in_loop = true
has_begun ThreadAt.left = true
has_begun ThreadAt.cleared = true
has_begun ThreadAt.finished = true

abbrev pub has_published : ThreadAt → Bool
has_published ThreadAt.not_started = false
has_published ThreadAt.initializing = false
has_published ThreadAt.published = true
has_published ThreadAt.entering = true
has_published ThreadAt.in_loop = true
has_published ThreadAt.left = true
has_published ThreadAt.cleared = true
has_published ThreadAt.finished = true

-- Never started, or past `loop_ = nullptr`.
abbrev pub is_over : ThreadAt → Bool
is_over ThreadAt.not_started = true
is_over ThreadAt.initializing = false
is_over ThreadAt.published = false
is_over ThreadAt.entering = false
is_over ThreadAt.in_loop = false
is_over ThreadAt.left = false
is_over ThreadAt.cleared = true
is_over ThreadAt.finished = true

abbrev pub has_finished : ThreadAt → Bool
has_finished ThreadAt.not_started = false
has_finished ThreadAt.initializing = false
has_finished ThreadAt.published = false
has_finished ThreadAt.entering = false
has_finished ThreadAt.in_loop = false
has_finished ThreadAt.left = false
has_finished ThreadAt.cleared = false
has_finished ThreadAt.finished = true

-- Where the thread can be, given where the owner is.
abbrev pub fits : OwnerAt → ThreadAt → Bool
fits OwnerAt.idle t = not (has_begun t)
fits OwnerAt.waiting t = has_begun t
fits OwnerAt.started t = has_published t
fits OwnerAt.seen t = has_published t
fits (OwnerAt.telling told) t = has_published t
fits OwnerAt.waking t = has_published t
fits OwnerAt.joining t = has_published t
fits OwnerAt.destroyed t = is_over t
fits OwnerAt.dangling t = has_finished t

abbrev pub Joined : LoopThread → Type 0
Joined s =
    (s.loop_set ≡ has_loop s.thread)
    × (s.looping ≡ is_looping s.thread)
    × (fits s.owner s.thread ≡ true)

-- The thread runs on, and the facts about the place it leaves hold of the one it comes to.
abbrev Later : ThreadAt → ThreadAt → Type 0
Later t t' =
    (has_begun t ≡ true)
    × (has_begun t' ≡ true)
    × (has_published t ≡ true → has_published t' ≡ true)
    × (is_over t ≡ true → is_over t' ≡ true)
    × (has_finished t ≡ false)

runs_on : (o : OwnerAt) (t t' : ThreadAt) → Later t t' → fits o t ≡ true → fits o t' ≡ true
runs_on OwnerAt.idle t t' l h = absurd (cc (sym h ∙ ap not l.0))
runs_on OwnerAt.waiting t t' l h = l.1
runs_on OwnerAt.started t t' l h = l.2 h
runs_on OwnerAt.seen t t' l h = l.2 h
runs_on (OwnerAt.telling told) t t' l h = l.2 h
runs_on OwnerAt.waking t t' l h = l.2 h
runs_on OwnerAt.joining t t' l h = l.2 h
runs_on OwnerAt.destroyed t t' l h = l.3 h
runs_on OwnerAt.dangling t t' l h = absurd (cc (sym h ∙ l.4))

-- A loop that is there has been published.
has_loop-published : (t : ThreadAt) → has_loop t ≡ true → has_published t ≡ true
has_loop-published ThreadAt.not_started e = absurd (cc e)
has_loop-published ThreadAt.initializing e = absurd (cc e)
has_loop-published ThreadAt.published e = refl
has_loop-published ThreadAt.entering e = refl
has_loop-published ThreadAt.in_loop e = refl
has_loop-published ThreadAt.left e = refl
has_loop-published ThreadAt.cleared e = absurd (cc e)
has_loop-published ThreadAt.finished e = absurd (cc e)

-- A thread that was published and has not set `loop_` now is over.
over : (t : ThreadAt) → has_published t ≡ true → has_loop t ≡ false → is_over t ≡ true
over ThreadAt.not_started p e = absurd (cc p)
over ThreadAt.initializing p e = absurd (cc p)
over ThreadAt.published p e = absurd (cc e)
over ThreadAt.entering p e = absurd (cc e)
over ThreadAt.in_loop p e = absurd (cc e)
over ThreadAt.left p e = absurd (cc e)
over ThreadAt.cleared p e = refl
over ThreadAt.finished p e = refl

gone : (t : ThreadAt) → has_published t ≡ true → is_alive t ≡ false → has_finished t ≡ true
gone ThreadAt.not_started p e = absurd (cc p)
gone ThreadAt.initializing p e = absurd (cc p)
gone ThreadAt.published p e = absurd (cc e)
gone ThreadAt.entering p e = absurd (cc e)
gone ThreadAt.in_loop p e = absurd (cc e)
gone ThreadAt.left p e = absurd (cc e)
gone ThreadAt.cleared p e = absurd (cc e)
gone ThreadAt.finished p e = refl

not_begun : (t : ThreadAt) → not (has_begun t) ≡ true → t ≡ ThreadAt.not_started
not_begun ThreadAt.not_started e = refl
not_begun ThreadAt.initializing e = absurd (cc e)
not_begun ThreadAt.published e = absurd (cc e)
not_begun ThreadAt.entering e = absurd (cc e)
not_begun ThreadAt.in_loop e = absurd (cc e)
not_begun ThreadAt.left e = absurd (cc e)
not_begun ThreadAt.cleared e = absurd (cc e)
not_begun ThreadAt.finished e = absurd (cc e)

-- Where the owner is when it has read `loop_`.
destructs-fits :
    (o : OwnerAt) (t : ThreadAt) (b : Bool)
    → may_destroy o ≡ true
    → b ≡ has_loop t
    → fits o t ≡ true
    → fits (if b then OwnerAt.seen else OwnerAt.destroyed) t ≡ true
destructs-fits OwnerAt.idle t true m e h = absurd (cc (e ∙ ap has_loop (not_begun t h)))
destructs-fits OwnerAt.idle t false m e h = ap is_over (not_begun t h)
destructs-fits OwnerAt.started t true m e h = h
destructs-fits OwnerAt.started t false m e h = over t h (sym e)
destructs-fits OwnerAt.waiting t b m e h = absurd (cc m)
destructs-fits OwnerAt.seen t b m e h = absurd (cc m)
destructs-fits (OwnerAt.telling told) t b m e h = absurd (cc m)
destructs-fits OwnerAt.waking t b m e h = absurd (cc m)
destructs-fits OwnerAt.joining t b m e h = absurd (cc m)
destructs-fits OwnerAt.destroyed t b m e h = absurd (cc m)
destructs-fits OwnerAt.dangling t b m e h = absurd (cc m)

quit_stores-Joined : (told : Bool) (s : LoopThread) → Joined s → Joined (quit_stores told s)
unfolding quit_stores
quit_stores-Joined told s i = i

-- The owner finds the loop there, or gone.
found-fits :
    (o : OwnerAt) (t : ThreadAt) (b : Bool)
    → (has_published t ≡ true → fits o t ≡ true)
    → is_alive t ≡ b
    → has_published t ≡ true
    → fits (if b then o else OwnerAt.dangling) t ≡ true
found-fits o t true h e p = h p
found-fits o t false h e p = gone t p e

told-fits :
    (told : Bool) (t : ThreadAt)
    → has_published t ≡ true
    → fits (if told then OwnerAt.waking else OwnerAt.joining) t ≡ true
told-fits true t p = p
told-fits false t p = p

destroy_stores-Joined :
    (told : Bool) (s : LoopThread)
    → has_published s.thread ≡ true
    → Joined s
    → Joined (destroy_stores told s)
unfolding destroy_stores quit_stores
destroy_stores-Joined told s p (set, looping, h) = go (is_alive s.thread) refl
  where
    go :
        (b : Bool)
        → is_alive s.thread ≡ b
        → Joined (
            if b
            then record (quit_stores told s) {
              owner = if told then OwnerAt.waking else OwnerAt.joining;
            }
            else record s { owner = OwnerAt.dangling })
    go true e = (set, looping, told-fits told s.thread p)
    go false e = (set, looping, gone s.thread p e)

thread_moves :
    (s : LoopThread) (t t' : ThreadAt)
    → s.thread ≡ t
    → Later t t'
    → Joined s
    → fits s.owner t' ≡ true
thread_moves s t t' at l (set, looping, h) =
    runs_on s.owner t t' l (subst (λ t. fits s.owner t ≡ true) at h)

Move-Joined : (s s' : LoopThread) → Joined s → Move s s' → Joined s'
unfolding start_loop return_loop publish begin_loop reset_quit end_loop clear_loop end_thread
    begin_destroy destroy_tests destroy_wakes
Move-Joined s s' (set, looping, h) (starts at e) = subst Joined (sym e) (
    let fresh = not_begun s.thread (subst (λ o. fits o s.thread ≡ true) at h) in
    (set ∙ ap has_loop fresh, looping ∙ ap is_looping fresh, refl))
Move-Joined s s' (set, looping, h) (returns at there e) =
    subst Joined (sym e) (set, looping, has_loop-published s.thread (sym set ∙ there))
Move-Joined s s' i (publishes at e) = subst Joined (sym e) (
  refl,
  i.1 ∙ ap is_looping at,
  thread_moves s ThreadAt.initializing ThreadAt.published at
      (refl, refl, (λ p. refl), (λ p. absurd (cc p)), refl) i,
)
Move-Joined s s' i (enters at e) = subst Joined (sym e) (
  i.0 ∙ ap has_loop at,
  refl,
  thread_moves s ThreadAt.published ThreadAt.entering at
      (refl, refl, (λ p. refl), (λ p. absurd (cc p)), refl) i,
)
Move-Joined s s' i (resets at e) = subst Joined (sym e) (
  i.0 ∙ ap has_loop at,
  i.1 ∙ ap is_looping at,
  thread_moves s ThreadAt.entering ThreadAt.in_loop at
      (refl, refl, (λ p. refl), (λ p. absurd (cc p)), refl) i,
)
Move-Joined s s' i (leaves at told e) = subst Joined (sym e) (
  i.0 ∙ ap has_loop at,
  refl,
  thread_moves s ThreadAt.in_loop ThreadAt.left at
      (refl, refl, (λ p. refl), (λ p. absurd (cc p)), refl) i,
)
Move-Joined s s' i (clears at e) = subst Joined (sym e) (
  refl,
  i.1 ∙ ap is_looping at,
  thread_moves s ThreadAt.left ThreadAt.cleared at (refl, refl, (λ p. refl), (λ p. refl), refl) i,
)
Move-Joined s s' i (ends at e) = subst Joined (sym e) (
  i.0 ∙ ap has_loop at,
  i.1 ∙ ap is_looping at,
  thread_moves s ThreadAt.cleared ThreadAt.finished at (refl, refl, (λ p. refl), (λ p. refl), refl)
      i,
)
Move-Joined s s' (set, looping, h) (destructs may e) =
    subst Joined (sym e) (set, looping, destructs-fits s.owner s.thread s.loop_set may set h)
Move-Joined s s' (set, looping, h) (tests at e) = subst Joined (sym e) (
  set,
  looping,
  found-fits (OwnerAt.telling s.looping) s.thread (is_alive s.thread) (λ p. p) refl
      (subst (λ o. fits o s.thread ≡ true) at h),
)
Move-Joined s s' i (stores told at e) =
    subst Joined (sym e)
      (destroy_stores-Joined told s (subst (λ o. fits o s.thread ≡ true) at i.2) i)
Move-Joined s s' (set, looping, h) (wakes at e) = subst Joined (sym e) (
  set,
  looping,
  found-fits OwnerAt.joining s.thread (is_alive s.thread) (λ p. p) refl
      (subst (λ o. fits o s.thread ≡ true) at h),
)
Move-Joined s s' (set, looping, h) (joins at over e) =
    subst Joined (sym e) (set, looping, ap is_over over)

-- In every state that the thread and the owner of an `EventLoopThread` can come to, whatever the order
-- of their accesses and whoever else calls `quit`: `loop_` is not null just from where it is published
-- to where it is cleared, and `looping_` holds just inside `loop()`; when `startLoop` has returned, the
-- loop was published; when the destructor is over, the thread was never started, or is past
-- `loop_ = nullptr`, with at most the lock to give back and the loop to destroy; and when the
-- destructor has called a loop that is gone, the thread has finished.
pub Reach-Joined : (s : LoopThread) → Reach s → Joined s
unfolding init
Reach-Joined _ at_first = (refl, refl, refl)
Reach-Joined s' (after_own s _ reached move) = Move-Joined s s' (Reach-Joined s reached) move
Reach-Joined _ (after_quit told s reached there) =
    quit_stores-Joined told s (Reach-Joined s reached)
