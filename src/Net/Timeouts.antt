-- ===== src/Net/Timeouts.antt =====
-- zysoft/net/tcp_connection.h with zysoft/net/timer_queue.h: a connection whose read timer stands in a queue.
--
-- The queue is the map from handles to alarms that Net/TimerQueue shows it to be; the read timer has the handle 0. A
-- handler of the connection adds or resets its read timer, if it does, before it drops it. The other timer, and what
-- else happens on the connection, comes from outside; the read timer fires when its alarm rings.
pub mod Quiet
pub mod Idle
pub mod Ends
mod Tests
use zysoft.Prelude.{
  ℕ, suc, ◌+◌, ◌*◌, ◌<◌, ◌≡◌, List, [], ◌∷◌, Option, none, some, Bool, true, false, if◌then◌else◌,
  ltb,
}
use zysoft.Prelude.Int.{ℤ, pos, is_positive, to_ℕ}
use zysoft.Net.Types
use zysoft.Net.Types.{
  Effect, start_read, cancel_socket, shutdown_socket, close_socket, start_write, add_timer,
  reset_timer, queued, dequeued, call_connection, call_message, call_write_complete, call_cleanup,
  no_cleanup_cb, post_send, post_shutdown, post_force_close, TimeoutType, read, write, Callbacks,
}
use zysoft.Net.Connection.{Conn}
use zysoft.Net.Connection.Handlers
use zysoft.Net.Connection.Handlers.{Event, read_done, timed_out, opened, handle_timeout}
use zysoft.Net.Connection.Quiet.{read_sets}
use zysoft.Net.TimerQueue.{adds, resets, cancels}
use zysoft.Net.TimerQueue.Alarms.{Alarm, Alarms, no_alarms, call_alarms, pass, rings}

abbrev pub is_read : TimeoutType → Bool
is_read read = true
is_read write = false

pub record Timed : Type 0 where
  pub conn : Conn
  pub alarms : Alarms
  -- the tick at which the connection was opened, or last read
  pub last_read : ℕ

-- What a handler that took `c` to `d` did to the read timer in the queue.
unfoldable pub follow : Conn → Conn → Alarms → Alarms
follow c d a =
    let b = if ltb (read_sets c.log) (read_sets d.log) then call_alarms (resets 0) a else a in
    if d.read_timer then b else call_alarms (cancels 0) b

pub data TimedEvent : Type 0 where
  ticks : TimedEvent
  happens : Event → TimedEvent

abbrev pub is_read_done : Event → Bool
is_read_done (read_done none bytes) = true
is_read_done _ = false

abbrev pub is_read_timeout : Event → Bool
is_read_timeout (timed_out t sec) = is_read t
is_read_timeout _ = false

-- The callback of the read timer, given what it was added with.
abbrev pub call_timer : Option Alarm → Conn → Conn
call_timer none c = c
call_timer (some x) c = handle_timeout read x.every c

-- What the next tick does to the connection by its read timer. The write timer, if there is one, rings by an event of
-- its own, before the tick or after it.
unfoldable pub ring_read : Alarms → Conn → Conn
ring_read a c = if rings (a.due 0) (a.now + 1) then call_timer (a.due 0) c else c

module _ (cb : Callbacks) where
  -- A connection opened at the tick `now`, with the read timeout `sec`.
  unfoldable pub begin : Bool → Bool → ℕ → ℤ → Bool → ℕ → Timed
  begin has_cleanup has_write sec write_timeout accepted now =
      let c = opened cb has_cleanup has_write (pos sec) write_timeout accepted in
      let a = call_alarms (adds 0 sec) (record no_alarms { now = now }) in
      record {
        conn = c;
        alarms = if c.read_timer then a else call_alarms (cancels 0) a;
        last_read = now;
      }

  unfoldable pub step : TimedEvent → Timed → Timed
  step ticks t =
      let d = ring_read t.alarms t.conn in
      record t { conn = d; alarms = follow t.conn d (pass t.alarms) }
  step (happens e) t =
      let d = Handlers.step cb e t.conn in
      record {
        conn = d;
        alarms = follow t.conn d t.alarms;
        last_read = if is_read_done e then t.alarms.now else t.last_read;
      }

  unfoldable pub run : List TimedEvent → Timed → Timed
  run [] t = t
  run (e ∷ es) t = run es (step e t)

  -- What the environment brings, but for the read timer, which the queue fires.
  abbrev pub Enabled : TimedEvent → Timed → Type 0
  Enabled ticks t = Unit {0}
  Enabled (happens e) t = Handlers.Enabled e t.conn × (is_read_timeout e ≡ false)

  abbrev pub AllEnabled : List TimedEvent → Timed → Type 0
  AllEnabled [] t = Unit {0}
  AllEnabled (e ∷ es) t = Enabled e t × AllEnabled es (step e t)
