-- ===== src/Timer/Clock.antt =====
-- zysoft/zysoft/timer/timer.h, class `clock_timer`: what `now()` reads, in nanoseconds, is an argument; the clock
-- does not go back.
use zysoft.Prelude.{ℕ, ◌+◌, ◌-◌, ◌*◌, ◌/◌, ◌≤◌, ◌<◌, ◌≡◌, arith}

pub record ClockTimer : Type 0 where
  pub start : ℕ
  pub end : ℕ

unfoldable pub reset : ℕ → ClockTimer
reset now = record { start = now; end = now }

unfoldable pub stop : ℕ → ClockTimer → ClockTimer
stop now t = record t { end = now }

-- `cost<D>`, for a `D` of so many nanoseconds
unfoldable pub cost : ℕ → ClockTimer → ℕ
cost unit t = (t.end - t.start) / unit

unfoldable pub microseconds : ClockTimer → ℕ
unfolding cost
microseconds t = cost 1000 t

unfoldable pub milliseconds : ClockTimer → ℕ
unfolding cost
milliseconds t = cost 1000000 t

unfoldable pub seconds : ClockTimer → ℕ
unfolding cost
seconds t = cost 1000000000 t

-- A timer that was reset and stopped `d` nanoseconds later shows the whole microseconds, milliseconds and seconds
-- of `d`, and each is what the finer one has of whole units.
pub reset-stop :
    (now later : ℕ)
    → now ≤ later
    → let t = stop later (reset now) in
      let d = later - now in
      (microseconds t * 1000 ≤ d)
      × (d < (microseconds t) * 1000 + 1000)
      × (milliseconds t ≡ microseconds t / 1000)
      × (seconds t ≡ milliseconds t / 1000)
unfolding reset stop microseconds milliseconds seconds cost
reset-stop now later h = (omega arith, omega arith, omega arith, omega arith)
