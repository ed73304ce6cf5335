-- ===== src/Net/Timeouts/Quiet.antt =====
-- zysoft/net/tcp_connection.h: only a read adds or resets the read timer.
use zysoft.Prelude.{◌+◌, ◌-◌, ◌≡◌, ap, ◌∙◌, ◌++◌, none, some, false, arith, if◌then◌else◌}
use zysoft.Net.Types.{ErrorCode, Message, Callbacks}
use zysoft.Net.Connection.{Conn, handle_read_write_error, async_read}
use zysoft.Net.Connection.Handlers.{
  handle_read, deliver, Event, read_done, write_done, timed_out, destroys, calls_send,
  calls_shutdown, calls_force_close, runs_send, runs_shutdown, runs_force_close, step,
}
use zysoft.Net.Timeouts.{is_read_done}
use zysoft.Net.Connection.Kept.{is_destroy}
use zysoft.Net.Connection.Quiet.{
  read_sets, Quiet, Quiet-trans, connect_cleanup-Quiet, deliver-Quiet, handle_write-Quiet,
  handle_timeout-Quiet, send-Quiet, shutdown-Quiet, force_close-Quiet, send_in_loop-Quiet,
  shutdown_in_loop-Quiet, force_close_in_loop-Quiet,
}

handle_error-Quiet :
    (cb : Callbacks) (ec : ErrorCode) (bytes : Message) (c : Conn)
    → Quiet c (handle_read cb (some ec) bytes c)
unfolding handle_read handle_read_write_error
handle_error-Quiet cb ec bytes c =
    let d : Conn = record c { pending_reads = c.pending_reads - 1 } in
    Quiet-trans c d _ (ground arith) (connect_cleanup-Quiet _ d)

event-Quiet :
    (cb : Callbacks) (e : Event) (c : Conn)
    → is_destroy e ≡ false
    → is_read_done e ≡ false
    → Quiet c (step cb e c)
unfolding step
event-Quiet cb (read_done none bytes) c p h = cc
event-Quiet cb (read_done (some ec) bytes) c p h = handle_error-Quiet cb ec bytes c
event-Quiet cb (write_done ec len) c p h = handle_write-Quiet cb ec len c
event-Quiet cb (timed_out t sec) c p h = handle_timeout-Quiet t sec c
event-Quiet cb destroys c p h = cc
event-Quiet cb (calls_send b m) c p h = send-Quiet b m c
event-Quiet cb (calls_shutdown b k) c p h = shutdown-Quiet b k c
event-Quiet cb (calls_force_close b) c p h = force_close-Quiet b c
event-Quiet cb (runs_send m) c p h = send_in_loop-Quiet m c
event-Quiet cb runs_shutdown c p h = shutdown_in_loop-Quiet c
event-Quiet cb runs_force_close c p h = force_close_in_loop-Quiet c

-- An event that is no read, and not the destruction, leaves the read timer as it is set.
pub step_quiet :
    (cb : Callbacks) (e : Event) (c : Conn)
    → is_destroy e ≡ false
    → is_read_done e ≡ false
    → read_sets (step cb e c).log ≡ read_sets c.log
step_quiet cb e c p h = (event-Quiet cb e c p h).sets

async_read_sets :
    (c : Conn)
    → ((async_read c).read_timer ≡ c.read_timer)
      × (read_sets (async_read c).log ≡ read_sets c.log + (if c.read_timer then 1 else 0))
unfolding async_read
async_read_sets c = ground arith

-- A read resets the read timer, if it is still set behind it.
pub read_sets_once :
    (cb : Callbacks) (bytes : Message) (c : Conn)
    → let d = handle_read cb none bytes c in
      read_sets d.log ≡ read_sets c.log + (if d.read_timer then 1 else 0)
unfolding handle_read
read_sets_once cb bytes c =
    let m : Conn = record c { pending_reads = c.pending_reads - 1; input = c.input ++ bytes } in
    let (p, q) = async_read_sets (deliver cb m) in
    let same = (deliver-Quiet cb m).sets in
    rw p (q ∙ ap (λ n. n + (if (deliver cb m).read_timer then 1 else 0)) same)
