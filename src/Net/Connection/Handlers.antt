-- ===== src/Net/Connection/Handlers.antt =====
-- zysoft/net/tcp_connection.h: the entry points that the event loop calls (asio completions, timers,
-- posted work), and `step`, which takes each to its handler.
use zysoft.Prelude.{
  ℕ, ◌-◌, ◌<◌, ◌≡◌, List, [], ◌∷◌, ◌++◌, Option, none, some, Bool, true, false, not, ◌⊎◌, ◌&&◌,
  ◌||◌, if◌then◌else◌,
}
use zysoft.Prelude.Int.{ℤ, is_positive, to_ℕ}
use zysoft.Net.Types.{
  closed, connecting, established, TimeoutType, read, write, timeout, ErrorCode, CleanupContext,
  default_context, Message, shutdown_socket, close_socket, add_timer, dequeued, call_connection,
  call_message, call_write_complete, Callbacks,
}
use zysoft.Net.Connection.{
  Conn, create, is_closed, is_waiting, is_empty, emit, set_state, need_message_callback,
  cancel_timer, connect_cleanup, activity_context, handle_read_write_error, async_read, async_write,
  send_in_loop, shutdown_in_loop, force_close_in_loop, send, shutdown, force_close, perform_all,
}

-- `assert(ok)`
abbrev assert : Bool → Conn → Conn
assert ok c = if ok then c else record c { fault = true }

unfoldable pub start_read_timer : Conn → Conn
start_read_timer c =
    if is_positive c.read_timeout_sec
    then emit (add_timer read (to_ℕ c.read_timeout_sec)) (record c { read_timer = true })
    else c

unfoldable pub connect_establised : Callbacks → Conn → Conn
unfolding start_read_timer
connect_establised cb c =
    let d = start_read_timer (assert (not c.read_timer) (set_state established c)) in
    perform_all cb.on_connection (emit call_connection (async_read d))

unfoldable pub connect_destroy : Conn → Conn
connect_destroy c =
    if is_closed c.state then c else emit close_socket (emit shutdown_socket (set_state closed c))

unfoldable pub deliver : Callbacks → Conn → Conn
deliver cb c =
    if need_message_callback c
    then (let (rest, calls) = cb.on_message c.input in
        perform_all calls (emit (call_message c.input) (record c { input = rest })))
    else record c { input = [] }

unfoldable pub handle_read : Callbacks → Option ErrorCode → Message → Conn → Conn
unfolding deliver
handle_read cb (some ec) bytes c =
    handle_read_write_error ec (record c { pending_reads = c.pending_reads - 1 })
handle_read cb none bytes c =
    async_read
      (deliver cb (record c { pending_reads = c.pending_reads - 1; input = c.input ++ bytes }))

-- `msg = std::move(front()); pop_front()`
unfoldable pub pop_front : List Message → Conn → Conn
pop_front [] c = record c { fault = true }
pop_front (m ∷ rest) c = emit (dequeued m) (record c { output = rest })

unfoldable pub write_complete : Callbacks → ℕ → Conn → Conn
write_complete cb len c =
    if c.has_write_complete_cb
    then perform_all (cb.on_write_complete len) (emit (call_write_complete len) c)
    else c

-- `handle_write` from its test of the state on.
unfoldable pub write_next : Conn → Conn
write_next c =
    if is_waiting c.state
    then if c.opt_force_close
      then cancel_timer write c
      else if c.opt_shutdown
      then if is_empty c.output then (connect_cleanup activity_context c).0 else async_write c
      else c
    else if is_empty c.output
    then cancel_timer write c
    else async_write c

unfoldable pub handle_write : Callbacks → Option ErrorCode → ℕ → Conn → Conn
unfolding pop_front write_complete
handle_write cb (some ec) len c =
    handle_read_write_error ec
      (pop_front c.output (record c { pending_writes = c.pending_writes - 1 }))
handle_write cb none len c = write_next (
    write_complete cb len (pop_front c.output (record c { pending_writes = c.pending_writes - 1 })))

abbrev pub has_timer : TimeoutType → Conn → Bool
has_timer read c = c.read_timer
has_timer write c = c.write_timer

abbrev pub timeout_context : TimeoutType → ℕ → CleanupContext
timeout_context t sec = record default_context {
  type = timeout;
  timeout_type = t;
  timeout_sec = sec;
}

unfoldable pub handle_timeout : TimeoutType → ℕ → Conn → Conn
handle_timeout t sec c =
    if is_closed c.state
    then c
    else (connect_cleanup (timeout_context t sec) (assert (has_timer t c) c)).0

-- What the loop's thread runs on a connection, and the calls of the public functions, where the
-- first argument says whether the caller is on that thread.
pub data Event : Type 0 where
  read_done : Option ErrorCode → Message → Event
  write_done : Option ErrorCode → ℕ → Event
  timed_out : TimeoutType → ℕ → Event
  destroys : Event
  calls_send : Bool → Message → Event
  calls_shutdown : Bool → Bool → Event
  calls_force_close : Bool → Event
  runs_send : Message → Event
  runs_shutdown runs_force_close : Event

unfoldable pub step : Callbacks → Event → Conn → Conn
step cb (read_done ec bytes) c = handle_read cb ec bytes c
step cb (write_done ec len) c = handle_write cb ec len c
step cb (timed_out t sec) c = handle_timeout t sec c
step cb destroys c = connect_destroy c
step cb (calls_send in_loop msg) c = send in_loop msg c
step cb (calls_shutdown in_loop callback) c = (shutdown in_loop callback c).0
step cb (calls_force_close in_loop) c = (force_close in_loop c).0
step cb (runs_send msg) c = send_in_loop msg c
step cb runs_shutdown c = (shutdown_in_loop c).0
step cb runs_force_close c = (force_close_in_loop c).0

unfoldable pub run : Callbacks → List Event → Conn → Conn
run cb [] c = c
run cb (e ∷ es) c = run cb es (step cb e c)

-- A connection just opened, with its options: the constructor's state, which `handle_new_connection` sets to
-- `connecting` and the connector leaves as it is, and then `connect_establised`.
unfoldable pub opened : Callbacks → Bool → Bool → ℤ → ℤ → Bool → Conn
opened cb has_cleanup has_write rt wt accepted =
    connect_establised cb
      (set_state (if accepted then connecting else closed) (create has_cleanup has_write rt wt))

-- When the environment produces an event: asio completes what is under way; the queue fires a timer that is set, or
-- that a cleanup dropped while `turn_wheel` had it among the expired ones; the connection is destroyed once it has been
-- cleaned up, as it is while the server or the application holds it; and work is run that was posted.
abbrev pub Enabled : Event → Conn → Type 0
Enabled (read_done ec bytes) c = 0 < c.pending_reads
Enabled (write_done ec len) c = 0 < c.pending_writes
Enabled (timed_out t sec) c = (has_timer t c ≡ true) ⊎ (c.is_cleaned ≡ true)
Enabled destroys c = c.is_cleaned ≡ true
Enabled (calls_send in_loop msg) c = Unit {0}
Enabled (calls_shutdown in_loop callback) c = Unit {0}
Enabled (calls_force_close in_loop) c = Unit {0}
Enabled (runs_send msg) c = Unit {0}
Enabled runs_shutdown c = c.opt_shutdown ≡ true
Enabled runs_force_close c = c.opt_force_close ≡ true

-- A timer's callback on a connection that has dropped the timer and is not closed.
abbrev pub is_late : Event → Conn → Bool
is_late (timed_out t sec) c = not (is_closed c.state) && not (has_timer t c)
is_late e c = false

-- Some event of a run is one.
abbrev pub late_among : Callbacks → List Event → Conn → Bool
late_among cb [] c = false
late_among cb (e ∷ es) c = let rest = late_among cb es (step cb e c) in is_late e c || rest

-- Each event of the list is enabled when its turn comes.
abbrev pub AllEnabled : Callbacks → List Event → Conn → Type 0
AllEnabled cb [] c = Unit {0}
AllEnabled cb (e ∷ es) c = Enabled e c × AllEnabled cb es (step cb e c)
