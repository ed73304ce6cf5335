-- ===== src/Time/Windows.antt =====
-- zysoft/zysoft/time/time.h: `gettimeofday` as it is compiled on Windows, from the two halves of a file time, which are
-- below 2 ^ 32. `long` has 32 bits there, and its values are those that are not negative.
use zysoft.Prelude.{ℕ, ◌+◌, ◌-◌, ◌*◌, ◌/◌, ◌%◌, ◌^◌, ◌≤◌, ◌<◌, ◌≡◌, ap, ◌∙◌, arith}
use zysoft.Time.{Timeval, timeval_to_microseconds}

-- The file time of January 1, 1970.
abbrev pub epoch : ℕ
epoch = 116444736000000000

-- `(high << 32) | low`, less the epoch.
unfoldable pub intervals : ℕ → ℕ → ℕ
intervals high low = (high * 2 ^ 32 + low + 2 ^ 64 - epoch) % 2 ^ 64

unfoldable pub gettimeofday : ℕ → ℕ → Timeval
unfolding intervals
gettimeofday high low = record {
  tv_sec = intervals high low / 10000000 % 2 ^ 32;
  tv_usec = intervals high low % 10000000 / 10;
}

intervals_lem :
    (high low : ℕ)
    → high < 2 ^ 32
    → low < 2 ^ 32
    → epoch ≤ high * 2 ^ 32 + low
    → intervals high low ≡ high * 2 ^ 32 + low - epoch
unfolding intervals
intervals_lem high low h l e = omega arith

parts :
    (n : ℕ)
    → n < 2 ^ 31 * 10000000
    → (n / 10000000 % 2 ^ 32 ≡ n / 10000000) × (n / 10000000 < 2 ^ 31)
parts n h = (omega arith, omega arith)

joined :
    (n : ℕ) → (n / 10000000 * 1000000 + n % 10000000 / 10 ≡ n / 10) × (n % 10000000 / 10 < 1000000)
joined n = (omega arith, omega arith)

-- From 1970 on, until the seconds pass 2 ^ 31, the clock's microseconds are the file time since the epoch, in units of
-- 100 nanoseconds, divided by ten, and those beyond the seconds are less than a second.
pub gettimeofday_lem :
    (high low : ℕ)
    → high < 2 ^ 32
    → low < 2 ^ 32
    → epoch ≤ high * 2 ^ 32 + low
    → high * 2 ^ 32 + low < epoch + 2 ^ 31 * 10000000
    → let tv = gettimeofday high low in
      (timeval_to_microseconds tv ≡ (high * 2 ^ 32 + low - epoch) / 10)
      × (tv.tv_usec < 1000000)
      × (tv.tv_sec < 2 ^ 31)
unfolding gettimeofday timeval_to_microseconds
gettimeofday_lem high low h l e b =
    let same = intervals_lem high low h l e in
    let small : intervals high low < 2 ^ 31 * 10000000 = rw same (omega arith) in
    let (whole, bound) = parts (intervals high low) small in
    let (sum, usec) = joined (intervals high low) in
    (rw whole (sum ∙ ap (λ n. n / 10) same), usec, rw whole bound)
