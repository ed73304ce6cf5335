-- ===== src/Net/Connection/Life.antt =====
-- zysoft/net/tcp_connection.h: how a connection ends. The cleanup runs once, its timers and its
-- socket are given up, and what was closed stays closed.
use zysoft.Prelude.{
  ℕ, suc, ◌-◌, ◌≡◌, refl, List, [], ◌∷◌, ◌++◌, Option, none, some, Bool, true, false, not, ◌&&◌,
  ◌||◌, arith, if◌then◌else◌, Bool-cases, inl, inr,
}
use zysoft.Prelude.Int.{ℤ}
use zysoft.Net.Types.{
  wait_close, Effect, call_cleanup, no_cleanup_cb, close_socket, CleanupContext, ErrorCode, Message,
  Call, sends, shuts_down, force_closes, Callbacks, TimeoutType, read, write,
}
use zysoft.Net.Connection.{
  Conn, is_waiting, is_closed, activity_context, connect_cleanup, cleanup_once, cancel_timer,
  create, handle_read_write_error, async_read, async_write, send_in_loop, shutdown_in_loop,
  force_close_in_loop, send, shutdown, force_close, perform, perform_all,
}
use zysoft.Net.Connection.Flow.{is_open}
use zysoft.Net.Connection.Handlers.{
  timeout_context, connect_establised, connect_destroy, handle_read, deliver, pop_front,
  write_complete, write_next, handle_write, handle_timeout, Event, read_done, write_done, timed_out,
  destroys, calls_send, calls_shutdown, calls_force_close, runs_send, runs_shutdown,
  runs_force_close, step, run, opened, Enabled, AllEnabled,
}

-- The calls of the cleanup callback, and those that found none.
abbrev pub cleanup_calls : List Effect → ℕ
cleanup_calls [] = 0
cleanup_calls (call_cleanup ctx ∷ es) = suc (cleanup_calls es)
cleanup_calls (e ∷ es) = cleanup_calls es

abbrev pub cleanup_misses : List Effect → ℕ
cleanup_misses [] = 0
cleanup_misses (no_cleanup_cb ∷ es) = suc (cleanup_misses es)
cleanup_misses (e ∷ es) = cleanup_misses es

-- Both together, and how often the socket was closed.
abbrev pub cleanups : List Effect → ℕ
cleanups [] = 0
cleanups (call_cleanup ctx ∷ es) = suc (cleanups es)
cleanups (no_cleanup_cb ∷ es) = suc (cleanups es)
cleanups (e ∷ es) = cleanups es

abbrev pub closes : List Effect → ℕ
closes [] = 0
closes (close_socket ∷ es) = suc (closes es)
closes (e ∷ es) = closes es

pub record Life (c : Conn) : Type 0 where
  pub cleaned_once : cleanups c.log ≡ (if c.is_cleaned then 1 else 0)
  pub called_back : cleanup_calls c.log ≡ (if c.is_cleaned && c.has_cleanup_cb then 1 else 0)
  pub missed : cleanup_misses c.log ≡ (if c.is_cleaned && not c.has_cleanup_cb then 1 else 0)
  pub closed_once : closes c.log ≡ (if is_closed c.state then 1 else 0)
  pub cleaned_shut : c.is_cleaned ≡ true → is_open c ≡ false
  pub closed_cleaned : is_closed c.state ≡ true → c.is_cleaned ≡ true
  pub read_timer_given_up : c.is_cleaned ≡ true → c.read_timer ≡ false
  pub forced_silent : c.opt_force_close ≡ true → c.opt_no_message ≡ true

connect_cleanup-Life : (ctx : CleanupContext) (c : Conn) → Life c → Life (connect_cleanup ctx c).0
unfolding connect_cleanup cleanup_once
connect_cleanup-Life ctx c f = ground arith

cancel_timer-Life : (t : TimeoutType) (c : Conn) → Life c → Life (cancel_timer t c)
unfolding cancel_timer
cancel_timer-Life read c f = ground arith
cancel_timer-Life write c f = ground arith

async_read-Life : (c : Conn) → Life c → Life (async_read c)
unfolding async_read
async_read-Life c f = ground arith

async_write-Life : (c : Conn) → Life c → Life (async_write c)
unfolding async_write
async_write-Life c f = ground arith

send_in_loop-Life : (m : Message) (c : Conn) → Life c → Life (send_in_loop m c)
unfolding send_in_loop async_write
send_in_loop-Life m c f = ground arith

shutdown_in_loop-Life : (c : Conn) → Life c → Life (shutdown_in_loop c).0
unfolding shutdown_in_loop
shutdown_in_loop-Life c f = elim (Bool-cases (is_closed c.state || is_waiting c.state)) [
  | inl e ↦ rw e f
  | inr e ↦ rw e (
      ground (
        arith,
        connect_cleanup-Life activity_context (record c { state = wait_close }) (ground arith),
      ))
]

force_close_in_loop-Life : (c : Conn) → Life c → Life (force_close_in_loop c).0
unfolding force_close_in_loop
force_close_in_loop-Life c f = ground (arith, connect_cleanup-Life activity_context c f)

send-Life : (b : Bool) (m : Message) (c : Conn) → Life c → Life (send b m c)
unfolding send
send-Life b m c f = ground (arith, send_in_loop-Life m c f)

shutdown-Life : (b k : Bool) (c : Conn) → Life c → Life (shutdown b k c).0
unfolding shutdown
shutdown-Life b k c f = ground (
  arith,
  shutdown_in_loop-Life
      (record c { opt_shutdown = true; opt_no_message = c.opt_no_message || not k }) (ground arith),
)

force_close-Life : (b : Bool) (c : Conn) → Life c → Life (force_close b c).0
unfolding force_close
force_close-Life b c f = ground (
  arith,
  force_close_in_loop-Life (record c { opt_force_close = true; opt_no_message = true })
      (ground arith),
)

perform-Life : (x : Call) (c : Conn) → Life c → Life (perform x c).0
unfolding perform
perform-Life (sends m) c f = send-Life true m c f
perform-Life (shuts_down k) c f = shutdown-Life true k c f
perform-Life force_closes c f = force_close-Life true c f

perform_all-Life : (xs : List Call) (c : Conn) → Life c → Life (perform_all xs c)
unfolding perform_all
perform_all-Life [] c f = f
perform_all-Life (x ∷ xs) c f = elim (Bool-cases (perform x c).1) [
  | inl e ↦ rw e (perform-Life x c f)
  | inr e ↦ rw e (perform_all-Life xs (perform x c).0 (perform-Life x c f))
]

deliver-Life : (cb : Callbacks) (c : Conn) → Life c → Life (deliver cb c)
unfolding deliver
deliver-Life cb c f = elim (Bool-cases c.opt_no_message) [
  | inl e ↦ simp e (ground arith)
  | inr e ↦ simp e (perform_all-Life _ _ (ground arith))
]

handle_read-Life :
    (cb : Callbacks) (ec : Option ErrorCode) (bytes : Message) (c : Conn)
    → Life c
    → Life (handle_read cb ec bytes c)
unfolding handle_read handle_read_write_error
handle_read-Life cb none bytes c f = async_read-Life _ (
    deliver-Life cb (record c { pending_reads = c.pending_reads - 1; input = c.input ++ bytes })
      (ground arith))
handle_read-Life cb (some ec) bytes c f =
    connect_cleanup-Life _ (record c { pending_reads = c.pending_reads - 1 }) (ground arith)

pop_front-Life : (xs : List Message) (c : Conn) → Life c → Life (pop_front xs c)
unfolding pop_front
pop_front-Life [] c f = ground arith
pop_front-Life (x ∷ xs) c f = ground arith

write_complete-Life :
    (cb : Callbacks) (len : ℕ) (c : Conn) → Life c → Life (write_complete cb len c)
unfolding write_complete
write_complete-Life cb len c f = elim (Bool-cases c.has_write_complete_cb) [
  | inl e ↦ simp e (perform_all-Life _ _ (ground arith))
  | inr e ↦ simp e f
]

write_next-Life : (c : Conn) → Life c → Life (write_next c)
unfolding write_next
write_next-Life c f = ground (
  arith,
  cancel_timer-Life write c f,
  async_write-Life c f,
  connect_cleanup-Life activity_context c f,
)

handle_write-Life :
    (cb : Callbacks) (ec : Option ErrorCode) (len : ℕ) (c : Conn)
    → Life c
    → Life (handle_write cb ec len c)
unfolding handle_write handle_read_write_error
handle_write-Life cb none len c f = write_next-Life _ (
    write_complete-Life cb len _
      (pop_front-Life c.output (record c { pending_writes = c.pending_writes - 1 }) (ground arith)))
handle_write-Life cb (some ec) len c f =
    connect_cleanup-Life _ _
      (pop_front-Life c.output (record c { pending_writes = c.pending_writes - 1 }) (ground arith))

handle_timeout-Life :
    (t : TimeoutType) (sec : ℕ) (c : Conn) → Life c → Life (handle_timeout t sec c)
unfolding handle_timeout
handle_timeout-Life t sec c f = ground (
  arith,
  connect_cleanup-Life (timeout_context t sec) c f,
  connect_cleanup-Life (timeout_context t sec) (record c { fault = true }) (ground arith),
)

connect_destroy-Life : (c : Conn) → c.is_cleaned ≡ true → Life c → Life (connect_destroy c)
unfolding connect_destroy
connect_destroy-Life c h f = ground arith

pub step-Life : (cb : Callbacks) (e : Event) (c : Conn) → Enabled e c → Life c → Life (step cb e c)
unfolding step
step-Life cb (read_done ec bytes) c h f = handle_read-Life cb ec bytes c f
step-Life cb (write_done ec len) c h f = handle_write-Life cb ec len c f
step-Life cb (timed_out t sec) c h f = handle_timeout-Life t sec c f
step-Life cb destroys c h f = connect_destroy-Life c h f
step-Life cb (calls_send b m) c h f = send-Life b m c f
step-Life cb (calls_shutdown b k) c h f = shutdown-Life b k c f
step-Life cb (calls_force_close b) c h f = force_close-Life b c f
step-Life cb (runs_send m) c h f = send_in_loop-Life m c f
step-Life cb runs_shutdown c h f = shutdown_in_loop-Life c f
step-Life cb runs_force_close c h f = force_close_in_loop-Life c f

pub run-Life :
    (cb : Callbacks) (es : List Event) (c : Conn) → AllEnabled cb es c → Life c → Life (run cb es c)
unfolding run
run-Life cb [] c h f = f
run-Life cb (e ∷ es) c h f = run-Life cb es (step cb e c) h.1 (step-Life cb e c h.0 f)

-- A connection before it is opened.
abbrev Unused : Conn → Type 0
Unused c = (c.log ≡ []) × (c.is_cleaned ≡ false) × (c.opt_force_close ≡ false)

connect_establised-Life : (cb : Callbacks) (c : Conn) → Unused c → Life (connect_establised cb c)
unfolding connect_establised async_read
connect_establised-Life cb c u = perform_all-Life cb.on_connection _ (ground arith)

pub opened-Life :
    (cb : Callbacks) (hc hw : Bool) (rt wt : ℤ) (accepted : Bool)
    → Life (opened cb hc hw rt wt accepted)
unfolding opened create
opened-Life cb hc hw rt wt accepted = connect_establised-Life cb _ (refl, refl, refl)

-- How often a connection was cleaned up and closed, by its log. The cleanup calls the callback, or throws if there is
-- none.
abbrev pub EndsOnce : Conn → Type 0
EndsOnce c =
    (cleanup_calls c.log ≡ (if c.is_cleaned && c.has_cleanup_cb then 1 else 0))
    × (cleanup_misses c.log ≡ (if c.is_cleaned && not c.has_cleanup_cb then 1 else 0))
    × (closes c.log ≡ (if is_closed c.state then 1 else 0))
    × ((c.is_cleaned && is_open c) ≡ false)
    × ((c.is_cleaned && c.read_timer) ≡ false)

pub Life-EndsOnce : (c : Conn) → Life c → EndsOnce c
Life-EndsOnce c f = ground arith

-- From the moment that a connection is opened, whatever events come in whatever order, each when it is enabled, so that
-- it is not destroyed before it is cleaned up: if the connection has been cleaned up, its cleanup callback was called
-- exactly once, or, where it has none, the call of it threw exactly once, and otherwise neither; the socket was closed
-- once if the connection is closed and never otherwise; and a cleaned connection is not open and has no read timer.
pub cleanup_runs_once :
    (cb : Callbacks) (hc hw : Bool) (rt wt : ℤ) (accepted : Bool) (es : List Event)
    → AllEnabled cb es (opened cb hc hw rt wt accepted)
    → EndsOnce (run cb es (opened cb hc hw rt wt accepted))
cleanup_runs_once cb hc hw rt wt accepted es h =
    Life-EndsOnce _ (run-Life cb es _ h (opened-Life cb hc hw rt wt accepted))
