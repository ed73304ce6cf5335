-- ===== src/Net/Timeouts/Idle.antt =====
-- zysoft/net/tcp_connection.h with zysoft/net/timer_queue.h: a connection that reads nothing is cleaned up when its
-- read timer rings.
use zysoft.Prelude.{
  ℕ, ◌+◌, ◌*◌, ◌<◌, ◌≡◌, refl, ap, ◌∙◌, List, [], ◌∷◌, Option, none, some, Bool, true, false, arith,
  if◌then◌else◌, ◌==◌, Bool-cases, inl, inr,
}
use zysoft.Prelude.Int.{ℤ, pos}
use zysoft.Net.Types.{established, read, Callbacks, Message}
use zysoft.Net.Connection.{
  Conn, is_closed, create, connect_cleanup, cleanup_once, invoke_cleanup_cb, cancel_timer,
}
use zysoft.Net.Connection.Handlers
use zysoft.Net.Connection.Handlers.{
  Event, read_done, write_done, timed_out, destroys, calls_send, calls_shutdown, calls_force_close,
  runs_send, runs_shutdown, runs_force_close, opened, handle_timeout, timeout_context,
  connect_establised, start_read_timer, handle_read,
}
use zysoft.Net.Connection.Kept.{Kept, begin-Kept, step-Kept, is_destroy}
use zysoft.Net.Connection.Quiet.{read_sets}
use zysoft.Net.TimerQueue.{resets}
use zysoft.Net.TimerQueue.Alarms.{Alarm, Alarms, call_alarms, pass, rings}
use zysoft.Net.Timeouts.{
  is_read_done, Timed, TimedEvent, ticks, happens, follow, call_timer, ring_read, begin, step, run,
  AllEnabled,
}
use zysoft.Net.Timeouts.Quiet.{step_quiet, read_sets_once}

-- Until it is cleaned up, a connection is open, and its read timer is to ring `s` seconds of ticks after the last read.
pub record Waits (s : ℕ) (c : Conn) (a : Alarms) (l : ℕ) : Type 0 where
  pub timer : c.is_cleaned ≡ false → c.read_timer ≡ true
  pub open_state : c.is_cleaned ≡ false → is_closed c.state ≡ false
  pub due :
      c.is_cleaned ≡ false → a.due 0 ≡ some (record { at = l + s * 1000; every = s * 1000; cb = 0 })
  pub early : c.is_cleaned ≡ false → a.now < l + s * 1000

cleaned-Waits : (s : ℕ) (c : Conn) (a : Alarms) (l : ℕ) → c.is_cleaned ≡ true → Waits s c a l
cleaned-Waits s c a l h = ground arith

follow_quiet :
    (c d : Conn) (a : Alarms)
    → read_sets d.log ≡ read_sets c.log
    → d.read_timer ≡ true
    → follow c d a ≡ a
unfolding follow
follow_quiet c d a p q = ground arith

follow_read :
    (c d : Conn) (a : Alarms)
    → read_sets d.log ≡ read_sets c.log + (if d.read_timer then 1 else 0)
    → d.read_timer ≡ true
    → follow c d a ≡ call_alarms (resets 0) a
unfolding follow
follow_read c d a p q = ground arith

quiet-Waits :
    (s : ℕ) (c d : Conn) (a : Alarms) (l : ℕ)
    → Kept c d
    → read_sets d.log ≡ read_sets c.log
    → Waits s c a l
    → d.is_cleaned ≡ false
    → Waits s d (follow c d a) l
quiet-Waits s c d a l k q w h = let f = follow_quiet c d a q (ground arith) in rw f (ground arith)

read-Waits :
    (cb : Callbacks) (bytes : Message) (s : ℕ) (c : Conn) (a : Alarms) (l : ℕ)
    → 0 < s
    → Waits s c a l
    → (handle_read cb none bytes c).is_cleaned ≡ false
    → Waits s (handle_read cb none bytes c) (follow c (handle_read cb none bytes c) a) a.now
unfolding Handlers.step
read-Waits cb bytes s c a l p w h =
    let k = step-Kept cb (read_done none bytes) c refl in
    let f =
      follow_read c (handle_read cb none bytes c) a (read_sets_once cb bytes c) (ground arith) in
    rw f (ground arith)

kept-Waits :
    (cb : Callbacks) (e : Event) (s : ℕ) (c : Conn) (a : Alarms) (l : ℕ)
    → is_destroy e ≡ false
    → is_read_done e ≡ false
    → Waits s c a l
    → Waits s (Handlers.step cb e c) (follow c (Handlers.step cb e c) a) l
kept-Waits cb e s c a l p q w = elim (Bool-cases (Handlers.step cb e c).is_cleaned) [
  | inl h ↦ cleaned-Waits s _ _ l h
  | inr h ↦ quiet-Waits s c _ a l (step-Kept cb e c p) (step_quiet cb e c p q) w h
]

destroy_cleaned :
    (cb : Callbacks) (c : Conn)
    → c.is_cleaned ≡ true
    → (Handlers.step cb destroys c).is_cleaned ≡ true
unfolding Handlers.connect_destroy Handlers.step
destroy_cleaned cb c h = ground arith

happens-Waits :
    (cb : Callbacks) (e : Event) (s : ℕ) (t : Timed)
    → 0 < s
    → Handlers.Enabled e t.conn
    → Waits s t.conn t.alarms t.last_read
    → let n = step cb (happens e) t in Waits s n.conn n.alarms n.last_read
unfolding step Handlers.step
happens-Waits cb (read_done none bytes) s t p h w =
    elim (Bool-cases (Handlers.step cb (read_done none bytes) t.conn).is_cleaned) [
      | inl d ↦ cleaned-Waits s _ _ _ d
      | inr d ↦ read-Waits cb bytes s t.conn t.alarms t.last_read p w d
    ]
happens-Waits cb (read_done (some ec) bytes) s t p h w =
    kept-Waits cb (read_done (some ec) bytes) s t.conn t.alarms t.last_read refl refl w
happens-Waits cb destroys s t p h w = cleaned-Waits s _ _ _ (destroy_cleaned cb t.conn h)
happens-Waits cb (write_done ec len) s t p h w =
    kept-Waits cb (write_done ec len) s t.conn t.alarms t.last_read refl refl w
happens-Waits cb (timed_out x sec) s t p h w =
    kept-Waits cb (timed_out x sec) s t.conn t.alarms t.last_read refl refl w
happens-Waits cb (calls_send b m) s t p h w =
    kept-Waits cb (calls_send b m) s t.conn t.alarms t.last_read refl refl w
happens-Waits cb (calls_shutdown b k) s t p h w =
    kept-Waits cb (calls_shutdown b k) s t.conn t.alarms t.last_read refl refl w
happens-Waits cb (calls_force_close b) s t p h w =
    kept-Waits cb (calls_force_close b) s t.conn t.alarms t.last_read refl refl w
happens-Waits cb (runs_send m) s t p h w =
    kept-Waits cb (runs_send m) s t.conn t.alarms t.last_read refl refl w
happens-Waits cb runs_shutdown s t p h w =
    kept-Waits cb runs_shutdown s t.conn t.alarms t.last_read refl refl w
happens-Waits cb runs_force_close s t p h w =
    kept-Waits cb runs_force_close s t.conn t.alarms t.last_read refl refl w

pub timeout_cleans :
    (sec : ℕ) (c : Conn) → is_closed c.state ≡ false → (handle_timeout read sec c).is_cleaned ≡ true
unfolding handle_timeout connect_cleanup cleanup_once invoke_cleanup_cb cancel_timer
timeout_cleans sec c h = ground arith

-- The next tick of a connection that waits.
pub rings_lem :
    (s : ℕ) (c : Conn) (a : Alarms) (l : ℕ)
    → Waits s c a l
    → c.is_cleaned ≡ false
    → ring_read a c ≡ (if l + s * 1000 == a.now + 1 then handle_timeout read (s * 1000) c else c)
unfolding ring_read
rings_lem s c a l w h = rw (w.due h) refl

call_cleaned :
    (x : Option Alarm) (c : Conn) → c.is_cleaned ≡ true → (call_timer x c).is_cleaned ≡ true
unfolding handle_timeout connect_cleanup cleanup_once invoke_cleanup_cb cancel_timer
call_cleaned none c h = h
call_cleaned (some x) c h = ground arith

ring_cleaned : (a : Alarms) (c : Conn) → c.is_cleaned ≡ true → (ring_read a c).is_cleaned ≡ true
unfolding ring_read
ring_cleaned a c h = elim (Bool-cases (rings (a.due 0) (a.now + 1))) [
  | inl e ↦ rw e (call_cleaned (a.due 0) c h)
  | inr e ↦ rw e h
]

pass-Waits :
    (s : ℕ) (c : Conn) (a : Alarms) (l : ℕ)
    → Waits s c a l
    → c.is_cleaned ≡ false
    → (l + s * 1000 == a.now + 1) ≡ false
    → Waits s c (follow c c (pass a)) l
pass-Waits s c a l w h e = rw (follow_quiet c c (pass a) refl (w.timer h)) (ground arith)

tick-Waits :
    (cb : Callbacks) (s : ℕ) (t : Timed)
    → Waits s t.conn t.alarms t.last_read
    → let n = step cb ticks t in Waits s n.conn n.alarms n.last_read
unfolding step
tick-Waits cb s t w = elim (Bool-cases t.conn.is_cleaned) [
  | inl h ↦ cleaned-Waits s _ _ _ (ring_cleaned t.alarms t.conn h)
  | inr h ↦ elim (Bool-cases (t.last_read + s * 1000 == t.alarms.now + 1)) [
    | inl e ↦
        cleaned-Waits s _ _ _ (rw (rings_lem s _ _ _ w h, e) (timeout_cleans _ _ (w.open_state h)))
    | inr e ↦ rw (rings_lem s _ _ _ w h, e) (pass-Waits s t.conn t.alarms t.last_read w h e)
  ]
]

start_sets :
    (s : ℕ) (c : Conn)
    → 0 < s
    → c.read_timeout_sec ≡ pos s
    → let d = start_read_timer c in
      (d.read_timer ≡ true) × (d.state ≡ c.state) × (d.has_cleanup_cb ≡ c.has_cleanup_cb)
unfolding start_read_timer
start_sets s c p q = rw q (ground arith)

pub opened_lem :
    (cb : Callbacks) (has_cleanup has_write : Bool) (s : ℕ) (write_timeout : ℤ) (accepted : Bool)
    → 0 < s
    → let c = opened cb has_cleanup has_write (pos s) write_timeout accepted in
      (c.is_cleaned ≡ false → c.read_timer ≡ true)
      × (is_closed c.state ≡ false)
      × (c.has_cleanup_cb ≡ has_cleanup)
unfolding opened connect_establised create
opened_lem cb has_cleanup has_write s write_timeout accepted p =
    let c : Conn = record (create has_cleanup has_write (pos s) write_timeout) {
      state = established;
    } in
    let (timer, same_state, same_cb) = start_sets s c p refl in
    let k = begin-Kept cb (start_read_timer c) in
    (λ h. k.keeps_timer h timer, k.same_closed ∙ ap is_closed same_state, k.same_cb ∙ same_cb)

pub begin-Waits :
    (cb : Callbacks) (has_cleanup has_write : Bool) (s : ℕ) (write_timeout : ℤ) (accepted : Bool)
    (now : ℕ)
    → 0 < s
    → let t = begin cb has_cleanup has_write s write_timeout accepted now in
      Waits s t.conn t.alarms t.last_read
unfolding begin
begin-Waits cb has_cleanup has_write s write_timeout accepted now p =
    let (timer, open_state, same_cb) =
      opened_lem cb has_cleanup has_write s write_timeout accepted p in
    ground arith

pub run-Waits :
    (cb : Callbacks) (es : List TimedEvent) (s : ℕ) (t : Timed)
    → 0 < s
    → AllEnabled cb es t
    → Waits s t.conn t.alarms t.last_read
    → let n = run cb es t in Waits s n.conn n.alarms n.last_read
unfolding run
run-Waits cb [] s t p h w = w
run-Waits cb (ticks ∷ es) s t p h w =
    run-Waits cb es s (step cb ticks t) p h.1 (tick-Waits cb s t w)
run-Waits cb (happens e ∷ es) s t p h w =
    run-Waits cb es s (step cb (happens e) t) p h.1 (happens-Waits cb e s t p h.0.0 w)
