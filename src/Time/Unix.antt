-- ===== src/Time/Unix.antt =====
-- zysoft/zysoft/utility/detail/utility.cpp: `unix_time_milliseconds` and `unix_time_microseconds`, with
-- `MicrosecondTimer` of utility.h and `utc_milliseconds` and `utc_microseconds` of zysoft/zysoft/time/time.h. What
-- `gettimeofday` reads is an argument, `now`; times are not negative and fit 64 bits.
use zysoft.Prelude.{ℕ, ◌+◌, ◌-◌, ◌*◌, ◌/◌, ◌%◌, ◌≤◌, ◌≡◌, refl, Option, none, some, arith, ◌==◌}
use zysoft.Time.{Timeval, timeval_to_milliseconds, timeval_to_microseconds}

-- The `timeval` given, or what the clock shows.
abbrev pub given_or : Timeval → Option Timeval → Timeval
given_or now none = now
given_or now (some tv) = tv

unfoldable pub unix_time_milliseconds : Timeval → Option Timeval → ℕ
unix_time_milliseconds now tv = let t = given_or now tv in t.tv_sec * 1000 + t.tv_usec / 1000

unfoldable pub unix_time_microseconds : Timeval → Option Timeval → ℕ
unix_time_microseconds now tv = let t = given_or now tv in t.tv_sec * 1000000 + t.tv_usec

unfoldable pub utc_milliseconds : Timeval → ℕ
utc_milliseconds now = timeval_to_milliseconds now

unfoldable pub utc_microseconds : Timeval → ℕ
utc_microseconds now = timeval_to_microseconds now

pub record MicrosecondTimer : Type 0 where
  pub tb : ℕ
  pub te : ℕ

unfoldable pub start : Timeval → MicrosecondTimer
start now = record { tb = unix_time_microseconds now none; te = 0 }

unfoldable pub stop : Timeval → MicrosecondTimer → MicrosecondTimer
stop now t = record t { te = unix_time_microseconds now none }

-- A timer that was stopped at a later time.
unfoldable pub delta : MicrosecondTimer → ℕ
delta t = t.te - t.tb

-- At one time, the microseconds of the two headers are the same, and the milliseconds of time.h are those of
-- utility.h rounded up: the same exactly if the microseconds are whole milliseconds, and else one more.
pub clocks_agree :
    (now : Timeval)
    → (unix_time_microseconds now none ≡ utc_microseconds now)
      × (unix_time_milliseconds now none ≤ utc_milliseconds now)
      × (utc_milliseconds now ≤ unix_time_milliseconds now none + 1)
      × ((unix_time_milliseconds now none == utc_milliseconds now) ≡ (now.tv_usec % 1000 == 0))
unfolding unix_time_microseconds unix_time_milliseconds utc_microseconds utc_milliseconds
    timeval_to_milliseconds timeval_to_microseconds
clocks_agree now = (refl, omega arith, omega arith, ground arith)

-- A timer that is stopped at `later` shows the microseconds from `now` to then.
pub delta-stop :
    (now later : Timeval)
    → timeval_to_microseconds now ≤ timeval_to_microseconds later
    → delta (stop later (start now)) + timeval_to_microseconds now ≡ timeval_to_microseconds later
unfolding delta stop start unix_time_microseconds timeval_to_microseconds
delta-stop now later h = omega arith
