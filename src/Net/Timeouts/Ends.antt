-- ===== src/Net/Timeouts/Ends.antt =====
-- zysoft/net/tcp_connection.h with zysoft/net/timer_queue.h: a silence of the peer ends a connection, and what its
-- cleanup callback is told.
use zysoft.Prelude.{
  ℕ, ◌+◌, ◌*◌, ◌<◌, ◌≡◌, refl, ◌∙◌, List, [], ◌∷◌, Option, none, some, Bool, true, false, arith,
  Bool-cases, inl, inr, not, ◌&&◌, ◌≤◌, suc,
}
use zysoft.Prelude.Int.{is_positive, ℤ}
use zysoft.Net.Types.{call_cleanup, CleanupContext, Callbacks, Effect}
use zysoft.Net.Connection.{Conn}
use zysoft.Net.Connection.Handlers
use zysoft.Net.Connection.Handlers.{
  read_done, write_done, destroys, calls_send, calls_shutdown, calls_force_close, runs_send,
  runs_shutdown, runs_force_close, handle_read,
}
use zysoft.Net.TimerQueue.Alarms.{Alarms, pass}
use zysoft.Net.Timeouts.{
  is_read_done, Timed, TimedEvent, ticks, happens, follow, ring_read, begin, step, run, AllEnabled,
}
use zysoft.Net.Timeouts.Idle.{begin-Waits, run-Waits}

begin_past :
    (cb : Callbacks) (has_cleanup has_write : Bool) (s : ℕ) (write_timeout : ℤ) (accepted : Bool)
    (now : ℕ)
    → let t = begin cb has_cleanup has_write s write_timeout accepted now in
      t.last_read ≤ t.alarms.now
unfolding begin
begin_past cb has_cleanup has_write s write_timeout accepted now = ground arith

follow_now : (c d : Conn) (a : Alarms) → (follow c d a).now ≡ a.now
unfolding follow
follow_now c d a = ground arith

-- The events of a silence: the ticks among them, and whether none is a read.
abbrev pub ticks_of : List TimedEvent → ℕ
ticks_of [] = 0
ticks_of (ticks ∷ es) = suc (ticks_of es)
ticks_of (happens e ∷ es) = ticks_of es

abbrev pub is_silent : List TimedEvent → Bool
is_silent [] = true
is_silent (ticks ∷ es) = is_silent es
is_silent (happens e ∷ es) = not (is_read_done e) && is_silent es

step_past :
    (cb : Callbacks) (e : TimedEvent) (t : Timed)
    → t.last_read ≤ t.alarms.now
    → (step cb e t).last_read ≤ (step cb e t).alarms.now
unfolding step
step_past cb ticks t h =
    rw (follow_now t.conn (ring_read t.alarms t.conn) (pass t.alarms)) (ground arith)
step_past cb (happens e) t h =
    rw (follow_now t.conn (Handlers.step cb e t.conn) t.alarms) (ground arith)

run_past :
    (cb : Callbacks) (es : List TimedEvent) (t : Timed)
    → t.last_read ≤ t.alarms.now
    → (run cb es t).last_read ≤ (run cb es t).alarms.now
unfolding run
run_past cb [] t h = h
run_past cb (e ∷ es) t h = run_past cb es (step cb e t) (step_past cb e t h)

silent_rest : (a b : Bool) → (not a && b) ≡ true → (a ≡ false) × (b ≡ true)
silent_rest a b h = ground arith

silence_lem :
    (cb : Callbacks) (es : List TimedEvent) (t : Timed)
    → is_silent es ≡ true
    → ((run cb es t).last_read ≡ t.last_read)
      × ((run cb es t).alarms.now ≡ t.alarms.now + ticks_of es)
unfolding run step
silence_lem cb [] t h = ground arith
silence_lem cb (ticks ∷ es) t h =
    let f = follow_now t.conn (ring_read t.alarms t.conn) (pass t.alarms) in
    let r = silence_lem cb es (step cb ticks t) h in (r.0, rw (r.1, f) (ground arith))
silence_lem cb (happens e ∷ es) t h =
    let f = follow_now t.conn (Handlers.step cb e t.conn) t.alarms in
    let (quiet, rest) = silent_rest (is_read_done e) (is_silent es) h in
    let r = silence_lem cb es (step cb (happens e) t) rest in
    (r.0 ∙ rw quiet refl, rw (r.1, f) refl)

-- Let a connection be opened with a read timeout of `s` seconds, `s` above zero, and let anything happen on it that can.
-- Once `s * 1000` ticks pass without a successful read, whatever else happens in between, it is cleaned up.
pub silence_ends :
    (cb : Callbacks) (has_cleanup has_write : Bool) (s : ℕ) (write_timeout : ℤ) (accepted : Bool)
    (now : ℕ) (es silence : List TimedEvent)
    → 0 < s
    → AllEnabled cb es (begin cb has_cleanup has_write s write_timeout accepted now)
    → AllEnabled cb silence
        (run cb es (begin cb has_cleanup has_write s write_timeout accepted now))
    → is_silent silence ≡ true
    → s * 1000 ≤ ticks_of silence
    → (run cb silence
        (run cb es (begin cb has_cleanup has_write s write_timeout accepted now))).conn.is_cleaned
      ≡ true
silence_ends cb has_cleanup has_write s write_timeout accepted now es silence p h k q n =
    let t = begin cb has_cleanup has_write s write_timeout accepted now in
    let w = begin-Waits cb has_cleanup has_write s write_timeout accepted now p in
    let m = run-Waits cb es s t p h w in
    let last = run-Waits cb silence s (run cb es t) p k m in
    let past =
      run_past cb es t (begin_past cb has_cleanup has_write s write_timeout accepted now) in
    let (l, r) = silence_lem cb silence (run cb es t) q in
    elim (Bool-cases (run cb silence (run cb es t)).conn.is_cleaned) [
      | inl e ↦ e
      | inr e ↦ let early = last.early e in ground arith
    ]

-- The last call of the cleanup callback.
abbrev pub last_cleanup : List Effect → Option CleanupContext
last_cleanup [] = none
last_cleanup (call_cleanup ctx ∷ es) = some ctx
last_cleanup (e ∷ es) = last_cleanup es

-- What a connection keeps that has a cleanup callback and no write timeout.
record Alone (c : Conn) : Type 0 where
  has_cb : c.has_cleanup_cb ≡ true
  no_write : is_positive c.write_timeout_sec ≡ false
  no_timer : c.write_timer ≡ false
