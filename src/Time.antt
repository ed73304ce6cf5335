-- ===== src/Time.antt =====
-- zysoft/zysoft/time/time.h: the conversions between a `timeval` and milliseconds or microseconds,
-- for times that are not negative and fit 64 bits.
pub mod Unix
pub mod Windows
use zysoft.Prelude.{ℕ, ◌+◌, ◌*◌, ◌/◌, ◌%◌, ◌≤◌, ◌<◌, ◌≡◌, arith}

pub record Timeval : Type 0 where
  pub tv_sec : ℕ
  pub tv_usec : ℕ

unfoldable pub timeval_to_milliseconds : Timeval → ℕ
timeval_to_milliseconds tv = tv.tv_sec * 1000 + (tv.tv_usec + 999) / 1000

unfoldable pub timeval_to_microseconds : Timeval → ℕ
timeval_to_microseconds tv = tv.tv_sec * 1000000 + tv.tv_usec

unfoldable pub milliseconds_to_timeval : ℕ → Timeval
milliseconds_to_timeval milliseconds = record {
  tv_sec = milliseconds / 1000;
  tv_usec = milliseconds % 1000 * 1000;
}

unfoldable pub microseconds_to_timeval : ℕ → Timeval
microseconds_to_timeval microseconds = record {
  tv_sec = microseconds / 1000000;
  tv_usec = microseconds % 1000000;
}

-- Milliseconds and microseconds survive the way to a `timeval` and back, and that `timeval`'s
-- microseconds are less than a second.
pub timeval_roundtrip :
    (t : ℕ)
    → (timeval_to_milliseconds (milliseconds_to_timeval t) ≡ t)
      × (timeval_to_microseconds (microseconds_to_timeval t) ≡ t)
      × (timeval_to_microseconds (milliseconds_to_timeval t) ≡ t * 1000)
      × ((milliseconds_to_timeval t).tv_usec < 1000000)
      × ((microseconds_to_timeval t).tv_usec < 1000000)
unfolding timeval_to_milliseconds timeval_to_microseconds milliseconds_to_timeval
    microseconds_to_timeval
timeval_roundtrip t = (omega arith, omega arith, omega arith, omega arith, omega arith)

-- A `timeval`'s milliseconds are its microseconds divided by 1000, rounded up.
pub milliseconds_round_up :
    (tv : Timeval)
    → let ms = timeval_to_milliseconds tv in
      let us = timeval_to_microseconds tv in (us ≤ ms * 1000) × (ms * 1000 < us + 1000)
unfolding timeval_to_milliseconds timeval_to_microseconds
milliseconds_round_up tv = (omega arith, omega arith)
