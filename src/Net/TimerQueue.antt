-- ===== src/Net/TimerQueue.antt =====
-- zysoft/net/timer_queue.h, class `timer_queue`. `callback` gives the calls of the queue that a callback makes
-- when it is called with a duration, up to the first that throws; a callback is a number.
--
-- A `timer_handle` does not change once `add_timer` has set its `hdl_`, so that the wheel holds its
-- fields. `fired` has the handles whose callbacks were called, with what they were given, newest first; `waits` is how often the asio
-- timer was set. `fault` is a failed assertion of the wheel.
pub mod Alarms
pub mod Refine
pub mod Turns
pub mod Runs
mod Tests
use zysoft.Prelude.{
  ℕ, ◌+◌, ◌*◌, ◌%◌, List, [], ◌∷◌, Option, none, some, Bool, true, false, size_mod,
}
use zysoft.Net.Types.{ErrorCode}
use zysoft.Timer.Wheel
use zysoft.Timer.Wheel.{Wheel}
use zysoft.Timer.Wheel.Turn.{turn}

pub record TimerHandle : Type 0 where
  pub cb : ℕ
  pub hdl : ℕ

pub record TimerQueue : Type 0 where
  pub wheel : Wheel TimerHandle
  pub fired : List (ℕ × ℕ)
  pub waits : ℕ
  pub fault : Bool

abbrev pub queue_size : ℕ
queue_size = 10

-- `async_wait` for 1000 / `tick_HZ` milliseconds.
abbrev pub reg_timer : TimerQueue → TimerQueue
reg_timer q = record q { waits = q.waits + 1 }

unfoldable pub create : TimerQueue
create =
    reg_timer (record { wheel = Wheel.create queue_size; fired = []; waits = 0; fault = false })

unfoldable pub add_timer : ℕ → ℕ → TimerQueue → TimerQueue × ℕ
add_timer cb sec q =
    let p : TimerHandle = record { cb = cb; hdl = q.wheel.next } in
    let (w, hdl) = Wheel.add queue_size p (sec * 1000 % size_mod) q.wheel in
    (record q { wheel = w }, hdl)

abbrev pub with_wheel : Option (Wheel TimerHandle) → TimerQueue → TimerQueue
with_wheel none q = record q { fault = true }
with_wheel (some w) q = record q { wheel = w }

unfoldable pub reset_timer : ℕ → TimerQueue → TimerQueue
reset_timer hdl q = with_wheel (Wheel.reset queue_size hdl q.wheel) q

unfoldable pub cancel_timer : ℕ → TimerQueue → TimerQueue
cancel_timer hdl q = with_wheel (Wheel.cancel queue_size hdl q.wheel) q

pub data QueueCall : Type 0 where
  adds : ℕ → ℕ → QueueCall
  resets : ℕ → QueueCall
  cancels : ℕ → QueueCall

unfoldable pub perform : QueueCall → TimerQueue → TimerQueue
perform (adds cb sec) q = (add_timer cb sec q).0
perform (resets hdl) q = reset_timer hdl q
perform (cancels hdl) q = cancel_timer hdl q

unfoldable pub perform_all : List QueueCall → TimerQueue → TimerQueue
perform_all [] q = q
perform_all (x ∷ xs) q = perform_all xs (perform x q)

pub data QueueEvent : Type 0 where
  calls : QueueCall → QueueEvent
  -- the asio timer completes, perhaps with an error
  expires : Option ErrorCode → QueueEvent

module _ (callback : ℕ → ℕ → List QueueCall) where
  -- The loop of `turn_wheel`.
  unfoldable pub fire : List (TimerHandle × ℕ) → TimerQueue → TimerQueue
  fire [] q = q
  fire ((p, duration) ∷ ps) q =
      fire ps
        (perform_all (callback p.cb duration) (record q { fired = (p.hdl, duration) ∷ q.fired }))

  unfoldable pub turn_wheel : TimerQueue → TimerQueue
  turn_wheel q = let (w, expired) = turn queue_size q.wheel in fire expired (record q { wheel = w })

  unfoldable pub handle_on_timer : Option ErrorCode → TimerQueue → TimerQueue
  handle_on_timer (some ec) q = reg_timer q
  handle_on_timer none q = reg_timer (turn_wheel q)

  unfoldable pub step : QueueEvent → TimerQueue → TimerQueue
  step (calls x) q = perform x q
  step (expires ec) q = handle_on_timer ec q

  unfoldable pub run : List QueueEvent → TimerQueue → TimerQueue
  run [] q = q
  run (e ∷ es) q = run es (step e q)
