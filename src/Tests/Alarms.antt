-- ===== src/Tests/Alarms.antt =====
-- The theorems on polaris/src/TimerQueue.cc at concrete inputs.
use lute.Prelude.{[], ◌∷◌, false, some, ◌≡◌, ℕ, ◌<◌, Returns, ◌+◌, ◌*◌, max, arith, ◌-◌, refl}
use lute.Timers.{TimerQueue, Timer, get_expired, insert, how_much_time_from_now, set_has}
use lute.Timers.Expired.{InStep, Splits, get_expired-Splits}
use lute.Timers.Insert.{Adds, insert-Adds}
use lute.Timers.Alarm.{how_much_time_from_now_lem}

-- Intervals in microseconds.
abbrev pub MicrosecondQueue : Type 0
MicrosecondQueue = TimerQueue ℕ (λ now interval. now + interval)

-- The timer at address p is due at 10 · p.
abbrev pub timer_at : ℕ → Timer ℕ (λ now interval. now + interval)
timer_at p = record {
  callback = p;
  expiration = 10 * p;
  interval = 0;
  repeat = false;
  sequence = p + 1;
}

abbrev pub two_timers : MicrosecondQueue
two_timers = record {
  objects = timer_at;
  timers = (20, 2) ∷ (50, 5) ∷ [];
  active = (2, 3) ∷ (5, 6) ∷ [];
  calling = false;
  canceling = [];
  alarm = some 20;
  deleted = [];
}

pub two_timers-InStep : InStep ℕ (λ now interval. now + interval) two_timers
unfolding set_has
two_timers-InStep = record {
  sizes = refl;
  known = (refl, (refl, tt));
  distinct = ((ground arith, tt), (tt, tt));
  ordered = ((omega arith, tt), (tt, tt));
  addressed = (omega arith, (omega arith, tt));
}

get_expired-Splits_example :
    Returns
      (get_expired ℕ (λ now interval. now + interval) 30 two_timers)
      (Splits ℕ (λ now interval. now + interval) 30 two_timers)
get_expired-Splits_example =
    get_expired-Splits ℕ (λ now interval. now + interval) 30 two_timers two_timers-InStep

insert-Adds_example :
    Returns
      (insert ℕ (λ now interval. now + interval) 3 two_timers)
      (Adds ℕ (λ now interval. now + interval) 3 two_timers)
unfolding set_has
insert-Adds_example =
    insert-Adds ℕ (λ now interval. now + interval) 3 two_timers two_timers-InStep (omega arith)
      (ground arith, (ground arith, tt)) refl

how_much_time_from_now_example :
    let r = how_much_time_from_now 5000000 1500000 in
    (r.1 < 1000000000)
    × (r.0 * 1000000000 + r.1 ≡ max 100 (5000000 - 1500000) * 1000)
    × (0 < r.0 + r.1)
how_much_time_from_now_example = how_much_time_from_now_lem 5000000 1500000
