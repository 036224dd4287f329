-- ===== src/Timers/Alarm.antt =====
-- `howMuchTimeFromNow` of polaris/src/TimerQueue.cc.
use lute.Prelude.{◌≡◌, ℕ, ◌<◌, ◌*◌, ◌+◌, max, ◌-◌, arith}
use lute.Timers.{how_much_time_from_now}

-- The seconds and nanoseconds are a `timespec`, they stand for the time that is left or for a tenth
-- of a millisecond, whichever is more, and are never both 0, which would disarm the descriptor.
pub how_much_time_from_now_lem :
    (when now : ℕ)
    → let r = how_much_time_from_now when now in
      (r.1 < 1000000000) × (r.0 * 1000000000 + r.1 ≡ max 100 (when - now) * 1000) × (0 < r.0 + r.1)
unfolding how_much_time_from_now
how_much_time_from_now_lem when now = ground arith
