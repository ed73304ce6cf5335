-- ===== src/Net/Connection.antt =====
-- zysoft/net/tcp_connection.h, class `tcp_connection`: one connection as a record, its handlers as
-- functions of it.
--
-- All handlers run on the thread of the connection's event loop. The asio operations that are under
-- way are counted in `pending_reads` and `pending_writes`; every call that leaves the class (to the
-- socket, the timer queue, the application, another loop) is written to `log`, newest first. A
-- failed `assert`, or `front()` of an empty list, sets `fault`; the handler goes on as it does
-- under NDEBUG.
--
-- An application callback is a function of what it is given to the calls it makes of the
-- connection. Those run at the place of the callback, up to the first that throws, since
-- `util::invoke_no_except` ends a callback there. The cleanup callback is called in tail position
-- on every path, so what it calls comes as later events.
pub mod Handlers
pub mod Flow
pub mod Ordered
pub mod Life
pub mod Quiet
pub mod Kept
pub mod Closing
pub mod Drain
pub mod Hazards
mod Tests
use zysoft.Prelude.{
  ℕ, ◌+◌, ◌-◌, List, [], ◌∷◌, ◌++◌, Option, none, some, Bool, true, false, not, ◌&&◌, ◌||◌,
  if◌then◌else◌,
}
use zysoft.Prelude.Int.{ℤ, is_positive, to_ℕ}
use zysoft.Net.Types.{
  State, closed, established, wait_close, TimeoutType, read, write, socket_err, timeout, activity,
  ErrorCode, eof, CleanupContext, default_context, Message, Effect, start_read, cancel_socket,
  shutdown_socket, close_socket, start_write, add_timer, reset_timer, queued, dequeued,
  call_connection, call_message, call_write_complete, call_cleanup, no_cleanup_cb, post_send,
  post_shutdown, post_force_close, Call, sends, shuts_down, force_closes, Callbacks,
}
use zysoft.Net.Types

-- `input_buffer_` stands for its readable bytes, `output_buffer_` for those of its buffers.
-- `flag_` is its three bits.
pub record Conn : Type 0 where
  pub state : State
  pub opt_shutdown : Bool
  pub opt_force_close : Bool
  pub opt_no_message : Bool
  pub input : Message
  pub output : List Message
  pub is_cleaned : Bool
  pub has_cleanup_cb : Bool
  pub has_write_complete_cb : Bool
  pub read_timer : Bool
  pub write_timer : Bool
  pub read_timeout_sec : ℤ
  pub write_timeout_sec : ℤ
  pub pending_reads : ℕ
  pub pending_writes : ℕ
  pub log : List Effect
  pub fault : Bool

abbrev pub is_closed : State → Bool
is_closed closed = true
is_closed _ = false

abbrev pub is_waiting : State → Bool
is_waiting wait_close = true
is_waiting _ = false

abbrev pub is_empty {ℓ} : {A : Type ℓ} → List A → Bool
is_empty [] = true
is_empty (x ∷ xs) = false

abbrev pub emit : Effect → Conn → Conn
emit e c = record c { log = e ∷ c.log }

-- The private constructor, with what the `set_` functions of `start_accept` give.
unfoldable pub create : Bool → Bool → ℤ → ℤ → Conn
create has_cleanup_cb has_write_complete_cb read_timeout_sec write_timeout_sec = record {
  state = closed;
  opt_shutdown = false;
  opt_force_close = false;
  opt_no_message = false;
  input = [];
  output = [];
  is_cleaned = false;
  has_cleanup_cb = has_cleanup_cb;
  has_write_complete_cb = has_write_complete_cb;
  read_timer = false;
  write_timer = false;
  read_timeout_sec = read_timeout_sec;
  write_timeout_sec = write_timeout_sec;
  pending_reads = 0;
  pending_writes = 0;
  log = [];
  fault = false;
}

abbrev pub set_state : State → Conn → Conn
set_state s c = record c { state = s }

abbrev pub need_message_callback : Conn → Bool
need_message_callback c = not c.opt_no_message

unfoldable pub cancel_timer : TimeoutType → Conn → Conn
cancel_timer read c =
    if c.read_timer then emit (Types.cancel_timer read) (record c { read_timer = false }) else c
cancel_timer write c =
    if c.write_timer then emit (Types.cancel_timer write) (record c { write_timer = false }) else c

-- The call of `cleanup_cb_`; the result says whether it throws.
unfoldable pub invoke_cleanup_cb : CleanupContext → Conn → Conn × Bool
invoke_cleanup_cb ctx c =
    if c.has_cleanup_cb then (emit (call_cleanup ctx) c, false) else (emit no_cleanup_cb c, true)

-- `connect_cleanup` past its first two tests.
unfoldable pub cleanup_once : CleanupContext → Conn → Conn × Bool
unfolding cancel_timer invoke_cleanup_cb
cleanup_once ctx c =
    let d = cancel_timer write (cancel_timer read (record c { is_cleaned = true })) in
    invoke_cleanup_cb (record ctx { call_error_cb = need_message_callback d })
      (emit cancel_socket d)

unfoldable pub connect_cleanup : CleanupContext → Conn → Conn × Bool
connect_cleanup ctx c =
    if is_closed c.state
    then (c, false)
    else if c.is_cleaned
    then (set_state wait_close c, false)
    else cleanup_once ctx (set_state wait_close c)

abbrev pub activity_context : CleanupContext
activity_context = record default_context { type = activity; err_code = some eof }

unfoldable pub handle_read_write_error : ErrorCode → Conn → Conn
handle_read_write_error ec c = (connect_cleanup (record default_context { err_code = some ec }) c).0

unfoldable pub async_read : Conn → Conn
async_read c =
    let d = if c.read_timer then emit (reset_timer read) c else c in
    emit start_read (record d { pending_reads = d.pending_reads + 1 })

write_deadline : Conn → Conn
write_deadline c =
    if is_positive c.write_timeout_sec
    then if c.write_timer
      then emit (reset_timer write) c
      else emit (add_timer write (to_ℕ c.write_timeout_sec)) (record c { write_timer = true })
    else c

write_front : List Message → Conn → Conn
write_front [] c = record c { fault = true }
write_front (m ∷ _) c = emit (start_write m) (record c { pending_writes = c.pending_writes + 1 })

unfoldable pub async_write : Conn → Conn
unfolding write_deadline write_front
async_write c = write_front c.output (write_deadline c)

unfoldable pub send_in_loop : Message → Conn → Conn
send_in_loop msg c =
    if is_waiting c.state || is_closed c.state
    then c
    else let d = emit (queued msg) (record c { output = c.output ++ msg ∷ [] }) in
      if is_empty c.output then async_write d else d

unfoldable pub shutdown_in_loop : Conn → Conn × Bool
shutdown_in_loop c =
    if is_closed c.state || is_waiting c.state
    then (c, false)
    else let d = set_state wait_close c in
      if is_empty d.output then connect_cleanup activity_context d else (d, false)

unfoldable pub force_close_in_loop : Conn → Conn × Bool
force_close_in_loop c = if is_closed c.state then (c, false) else connect_cleanup activity_context c

-- The public functions; the first argument is `is_in_loop_thread()`.
unfoldable pub send : Bool → Message → Conn → Conn
send in_loop msg c = if in_loop then send_in_loop msg c else emit (post_send msg) c

unfoldable pub shutdown : Bool → Bool → Conn → Conn × Bool
shutdown in_loop callback c =
    if c.opt_shutdown
    then (c, false)
    else if c.opt_force_close
    then (c, false)
    else let d = record c {
      opt_shutdown = true;
      opt_no_message = c.opt_no_message || not callback;
    } in
      if in_loop then shutdown_in_loop d else (emit post_shutdown d, false)

unfoldable pub force_close : Bool → Conn → Conn × Bool
force_close in_loop c =
    if c.opt_force_close
    then (c, false)
    else let d = record c { opt_force_close = true; opt_no_message = true } in
      if in_loop then force_close_in_loop d else (emit post_force_close d, false)

unfoldable pub perform : Call → Conn → Conn × Bool
perform (sends m) c = (send true m c, false)
perform (shuts_down callback) c = shutdown true callback c
perform force_closes c = force_close true c

-- The calls of a callback, under `invoke_no_except`.
unfoldable pub perform_all : List Call → Conn → Conn
perform_all [] c = c
perform_all (x ∷ xs) c = let (d, threw) = perform x c in if threw then d else perform_all xs d
