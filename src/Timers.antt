-- ===== src/Timers.antt =====
-- polaris/src/TimerQueue.cc and polaris/src/Timer.cc with their headers: the timers of a loop, in the
-- loop's thread. A time is a number of microseconds, 0 the invalid one; a timer is at its address.
pub mod Sets
pub mod Expired
pub mod Insert
pub mod Matched
pub mod Cancel
pub mod Restarted
pub mod Fired
pub mod Allowed
pub mod Alarm
use lute.Prelude.{
  ◌>>=◌, none, some, ◌>>◌, zero, suc, [], List, Bool, ℕ, ◌∷◌, false, Option, ◌==◌, true, length,
  if◌then◌else◌, ◌^◌, ltb, ◌-◌, assert, ◌||◌, ◌&&◌, ◌++◌, not, ◌/◌, set_at, ◌%◌, ◌*◌,
}

-- `std::pair`'s order: of an entry's times and addresses, or addresses and sequence numbers.
abbrev pub Entry : Type 0
Entry = ℕ × ℕ

abbrev pub before : Entry → Entry → Bool
before (a, b) (c, d) = ltb a c || (a == c && ltb b d)

abbrev pub same : Entry → Entry → Bool
same (a, b) (c, d) = a == c && b == d

-- `std::set::insert`; `none` where the entry is there already.
unfoldable pub set_insert : Entry → List Entry → Option (List Entry)
set_insert e [] = some (e ∷ [])
set_insert e (x ∷ xs) =
    let later = set_insert e xs >>= λ ys. some (x ∷ ys) in
    if before e x then some (e ∷ x ∷ xs) else if before x e then later else none

-- `std::set::erase`; `none` where there is no such entry.
unfoldable pub set_erase : Entry → List Entry → Option (List Entry)
set_erase e [] = none
set_erase e (x ∷ xs) =
    let later = set_erase e xs >>= λ ys. some (x ∷ ys) in if same e x then some xs else later

unfoldable pub set_has : Entry → List Entry → Bool
set_has e [] = false
set_has e (x ∷ xs) = same e x || set_has e xs

-- `UINTPTR_MAX`
abbrev pub max_address : ℕ
max_address = 2 ^ 64 - 1

-- `lower_bound` of the sentry: the entries that are due, and the others.
unfoldable pub split_due : ℕ → List Entry → List Entry × List Entry
split_due now [] = ([], [])
split_due now (x ∷ xs) =
    let (due, others) = split_due now xs in
    if before x (now, max_address) then (x ∷ due, others) else ([], x ∷ xs)

-- `assert(end == timers_.end() || now < end->first)`
unfoldable pub starts_later : ℕ → List Entry → Bool
starts_later now [] = true
starts_later now ((time, p) ∷ xs) = ltb now time

module _ (Seconds : Type 0) (add_time : ℕ → Seconds → ℕ) where
  pub record Timer : Type 0 where
    pub callback : ℕ
    pub expiration : ℕ
    pub interval : Seconds
    pub repeat : Bool
    pub sequence : ℕ

  unfoldable pub restart : ℕ → Timer → Timer
  restart now timer = record timer {
    expiration = if timer.repeat then add_time now timer.interval else 0;
  }

  pub record TimerQueue : Type 0 where
    pub objects : ℕ → Timer
    pub timers : List Entry
    pub active : List Entry
    pub calling : Bool
    pub canceling : List Entry
    -- What the timer descriptor was last set to.
    pub alarm : Option ℕ
    pub deleted : List ℕ

  pub sizes_agree : TimerQueue → Bool
  sizes_agree q = length q.timers == length q.active

  -- `insert`, and whether the timer is the earliest now.
  unfoldable pub insert : ℕ → TimerQueue → Option (Bool × TimerQueue)
  unfolding set_insert sizes_agree
  insert p q = do
    assert (sizes_agree q)
    let when = (q.objects p).expiration
    timers ← set_insert (when, p) q.timers
    active ← set_insert (p, (q.objects p).sequence) q.active
    let q' = record q { timers = timers; active = active }
    assert (sizes_agree q')
    some (elim q.timers [ [] ↦ true | first ∷ rest ↦ ltb when first.0 ], q')

  unfoldable pub add_timer_in_loop : ℕ → TimerQueue → Option TimerQueue
  unfolding insert
  add_timer_in_loop p q = do
    (earliest, q') ← insert p q
    some (if earliest then record q' { alarm = some (q.objects p).expiration } else q')

  -- `cancelingTimers_.insert`: an entry that is there already stays.
  note_canceling : Entry → List Entry → List Entry
  unfolding set_insert
  note_canceling e es = elim (set_insert e es) [ none ↦ es | some es' ↦ es' ]

  unfoldable pub cancel_in_loop : Entry → TimerQueue → Option TimerQueue
  unfolding set_has set_erase note_canceling sizes_agree
  cancel_in_loop (p, sequence) q = do
    assert (sizes_agree q)
    q' ←
        (if set_has (p, sequence) q.active
          then (set_erase ((q.objects p).expiration, p) q.timers >>= λ timers.
              set_erase (p, sequence) q.active >>= λ active.
              some (record q { timers = timers; active = active; deleted = q.deleted ++ p ∷ [] }))
          else some (
              if q.calling
              then record q { canceling = note_canceling (p, sequence) q.canceling }
              else q))
    assert (sizes_agree q')
    some q'

  -- The expired timers leave `activeTimers_` one by one.
  unfoldable pub erase_active : (ℕ → Timer) → List Entry → List Entry → Option (List Entry)
  unfolding set_erase
  erase_active objects [] active = some active
  erase_active objects ((time, p) ∷ rest) active =
      set_erase (p, (objects p).sequence) active >>= λ active'. erase_active objects rest active'

  unfoldable pub get_expired : ℕ → TimerQueue → Option (List Entry × TimerQueue)
  unfolding split_due starts_later erase_active sizes_agree
  get_expired now q = do
    assert (sizes_agree q)
    let (expired, others) = split_due now q.timers
    assert (starts_later now others)
    active ← erase_active q.objects expired q.active
    let q' = record q { timers = others; active = active }
    assert (sizes_agree q')
    some (expired, q')

  -- The loop of `reset`: a timer that repeats and was not cancelled starts again.
  unfoldable pub reset_timers : List Entry → ℕ → TimerQueue → Option TimerQueue
  unfolding insert restart set_has
  reset_timers [] now q = some q
  reset_timers ((time, p) ∷ rest) now q = do
    q' ←
        (if (q.objects p).repeat && not (set_has (p, (q.objects p).sequence) q.canceling)
          then (insert p (record q { objects = set_at p (restart now (q.objects p)) q.objects })
              >>= λ r. some (r.1))
          else some (record q { deleted = q.deleted ++ p ∷ [] }))
    reset_timers rest now q'

  -- `nextExpire` is armed where it is valid.
  unfoldable pub arm_next : TimerQueue → TimerQueue
  arm_next q = elim q.timers [
    | [] ↦ q
    | first ∷ rest ↦
        if ltb 0 (q.objects first.1).expiration
        then record q { alarm = some (q.objects first.1).expiration }
        else q
  ]

  unfoldable pub reset : List Entry → ℕ → TimerQueue → Option TimerQueue
  unfolding reset_timers arm_next
  reset expired now q = do q' ← reset_timers expired now q; some (arm_next q')

  -- The callbacks run in order; each may add and cancel timers.
  run_callbacks : (ℕ → TimerQueue → Option TimerQueue) → List Entry → TimerQueue → Option TimerQueue
  run_callbacks run [] q = some q
  run_callbacks run ((time, p) ∷ rest) q =
      run (q.objects p).callback q >>= λ q'. run_callbacks run rest q'

  unfoldable pub handle_read :
      (ℕ → TimerQueue → Option TimerQueue) → ℕ → TimerQueue → Option TimerQueue
  unfolding get_expired run_callbacks reset
  handle_read run now q = do
    (expired, q') ← get_expired now q
    called ← run_callbacks run expired (record q' { calling = true; canceling = [] })
    reset expired now (record called { calling = false })

-- `howMuchTimeFromNow`: seconds and nanoseconds, a tenth of a millisecond at least.
unfoldable pub how_much_time_from_now : ℕ → ℕ → ℕ × ℕ
how_much_time_from_now when now =
    let microseconds = if ltb (when - now) 100 then 100 else when - now in
    (microseconds / 1000000, microseconds % 1000000 * 1000)
