-- ===== src/Net/Connection/Kept.antt =====
-- zysoft/net/tcp_connection.h: what the steps of a connection keep, but for its destruction.
use zysoft.Prelude.{
  ◌+◌, ◌-◌, ◌≡◌, refl, List, [], ◌∷◌, ◌++◌, Option, none, some, Bool, true, false, not, arith,
  if◌then◌else◌, Bool-cases, inl, inr,
}
use zysoft.Net.Types
use zysoft.Net.Types.{
  start_read, cancel_socket, shutdown_socket, close_socket, start_write, add_timer, reset_timer,
  queued, dequeued, call_connection, post_send, established, post_shutdown, post_force_close,
  wait_close, Effect, call_cleanup, no_cleanup_cb, call_message, call_write_complete,
  CleanupContext, default_context, ErrorCode, Message, Call, sends, shuts_down, force_closes,
  Callbacks, TimeoutType, read, write,
}
use zysoft.Net.Connection.{Conn, is_closed, emit, handle_read_write_error, async_read, perform_all}
use zysoft.Net.Connection.Life.{cleanups}
use zysoft.Net.Connection.Handlers.{
  connect_establised, start_read_timer, handle_read, deliver, Event, read_done, write_done,
  timed_out, destroys, calls_send, calls_shutdown, calls_force_close, runs_send, runs_shutdown,
  runs_force_close, step,
}
pub use zysoft.Net.Connection.Quiet.{Kept, Kept-trans, cleanup_calls, cleanup_misses}
use zysoft.Net.Connection.Quiet.{
  connect_cleanup-Quiet, deliver-Quiet, perform_all-Quiet, handle_write-Quiet, handle_timeout-Quiet,
  send-Quiet, shutdown-Quiet, force_close-Quiet, send_in_loop-Quiet, shutdown_in_loop-Quiet,
  force_close_in_loop-Quiet,
}

async_read-Kept : (c : Conn) → Kept c (async_read c)
unfolding async_read
async_read-Kept c = ground arith

handle_read-Kept :
    (cb : Callbacks) (ec : Option ErrorCode) (bytes : Message) (c : Conn)
    → Kept c (handle_read cb ec bytes c)
unfolding handle_read handle_read_write_error
handle_read-Kept cb none bytes c =
    let d : Conn = record c { pending_reads = c.pending_reads - 1; input = c.input ++ bytes } in
    Kept-trans c d _ (ground arith)
      (Kept-trans d (deliver cb d) _ (deliver-Quiet cb d).kept (async_read-Kept (deliver cb d)))
handle_read-Kept cb (some ec) bytes c =
    let d : Conn = record c { pending_reads = c.pending_reads - 1 } in
    Kept-trans c d _ (ground arith) (connect_cleanup-Quiet _ d).kept

-- `connect_destroy` is the one that closes.
abbrev pub is_destroy : Event → Bool
is_destroy destroys = true
is_destroy _ = false

pub step-Kept :
    (cb : Callbacks) (e : Event) (c : Conn) → is_destroy e ≡ false → Kept c (step cb e c)
unfolding step
step-Kept cb (read_done ec bytes) c h = handle_read-Kept cb ec bytes c
step-Kept cb (write_done ec len) c h = (handle_write-Quiet cb ec len c).kept
step-Kept cb (timed_out t sec) c h = (handle_timeout-Quiet t sec c).kept
step-Kept cb destroys c h = cc
step-Kept cb (calls_send b m) c h = (send-Quiet b m c).kept
step-Kept cb (calls_shutdown b k) c h = (shutdown-Quiet b k c).kept
step-Kept cb (calls_force_close b) c h = (force_close-Quiet b c).kept
step-Kept cb (runs_send m) c h = (send_in_loop-Quiet m c).kept
step-Kept cb runs_shutdown c h = (shutdown_in_loop-Quiet c).kept
step-Kept cb runs_force_close c h = (force_close_in_loop-Quiet c).kept

pub cleanups-split : (es : List Effect) → cleanups es ≡ cleanup_calls es + cleanup_misses es
cleanups-split [] = refl
cleanups-split (start_read ∷ es) = cleanups-split es
cleanups-split (cancel_socket ∷ es) = cleanups-split es
cleanups-split (shutdown_socket ∷ es) = cleanups-split es
cleanups-split (close_socket ∷ es) = cleanups-split es
cleanups-split ((start_write m) ∷ es) = cleanups-split es
cleanups-split ((add_timer t n) ∷ es) = cleanups-split es
cleanups-split ((reset_timer t) ∷ es) = cleanups-split es
cleanups-split ((Types.cancel_timer t) ∷ es) = cleanups-split es
cleanups-split ((queued m) ∷ es) = cleanups-split es
cleanups-split ((dequeued m) ∷ es) = cleanups-split es
cleanups-split (call_connection ∷ es) = cleanups-split es
cleanups-split ((call_message m) ∷ es) = cleanups-split es
cleanups-split ((call_write_complete n) ∷ es) = cleanups-split es
cleanups-split ((post_send m) ∷ es) = cleanups-split es
cleanups-split (post_shutdown ∷ es) = cleanups-split es
cleanups-split (post_force_close ∷ es) = cleanups-split es
cleanups-split (call_cleanup ctx ∷ es) = omega (arith, cleanups-split es)
cleanups-split (no_cleanup_cb ∷ es) = omega (arith, cleanups-split es)

pub start_read_timer-Kept : (c : Conn) → Kept c (start_read_timer c)
unfolding start_read_timer
start_read_timer-Kept c = ground arith

pub begin-Kept :
    (cb : Callbacks) (c : Conn)
    → Kept c (perform_all cb.on_connection (emit call_connection (async_read c)))
unfolding async_read
begin-Kept cb c = Kept-trans c _ _ (ground arith) (perform_all-Quiet cb.on_connection _).kept

pub connect_establised-Kept :
    (cb : Callbacks) (c : Conn) → is_closed c.state ≡ false → Kept c (connect_establised cb c)
unfolding connect_establised
connect_establised-Kept cb c h =
    let d : Conn =
      if not c.read_timer
      then record c { state = established }
      else record c { state = established; fault = true } in
    Kept-trans c d _
      (elim (Bool-cases c.read_timer) [
        | inl e ↦ simp e (ground arith)
        | inr e ↦ simp e (ground arith)
      ])
      (Kept-trans d (start_read_timer d) _ (start_read_timer-Kept d)
        (begin-Kept cb (start_read_timer d)))
