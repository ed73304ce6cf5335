-- ===== src/Net/Connection/Closing.antt =====
-- zysoft/net/tcp_connection.h: what an application can rely on once it has asked to close.
use zysoft.Prelude.{
  ℕ, ◌-◌, ◌≡◌, List, [], ◌∷◌, ◌++◌, Option, none, some, Bool, true, false, not, ◌||◌, arith,
  Bool-cases, inl, inr,
}
use zysoft.Net.Types.{
  wait_close, Effect, call_message, call_write_complete, CleanupContext, ErrorCode, Message, Call,
  sends, shuts_down, force_closes, Callbacks, TimeoutType, read, write,
}
use zysoft.Net.Connection.{
  Conn, connect_cleanup, cleanup_once, cancel_timer, activity_context, handle_read_write_error,
  async_read, async_write, send_in_loop, shutdown_in_loop, force_close_in_loop, send, shutdown,
  force_close, perform, perform_all,
}
use zysoft.Net.Connection.Flow.{queued_of, is_open}
use zysoft.Net.Connection.Handlers.{
  timeout_context, connect_destroy, handle_read, deliver, pop_front, write_complete, write_next,
  handle_write, handle_timeout, Event, read_done, write_done, timed_out, destroys, calls_send,
  calls_shutdown, calls_force_close, runs_send, runs_shutdown, runs_force_close, step, run,
}

abbrev pub delivered : List Effect → List Message
delivered [] = []
delivered (call_message m ∷ es) = delivered es ++ m ∷ []
delivered (e ∷ es) = delivered es

-- `d` comes after `c`: what was silent or shut in `c` is so in `d`, and nothing was delivered or
-- accepted in between.
record Quiet (c d : Conn) : Type 0 where
  silent : c.opt_no_message ≡ true → (d.opt_no_message ≡ true) × (delivered d.log ≡ delivered c.log)
  shut : is_open c ≡ false → (is_open d ≡ false) × (queued_of d.log ≡ queued_of c.log)

Quiet-trans : (c d e : Conn) → Quiet c d → Quiet d e → Quiet c e
Quiet-trans c d e p q = ground arith

connect_cleanup-Quiet : (ctx : CleanupContext) (c : Conn) → Quiet c (connect_cleanup ctx c).0
unfolding connect_cleanup cleanup_once
connect_cleanup-Quiet ctx c = ground arith

cancel_timer-Quiet : (t : TimeoutType) (c : Conn) → Quiet c (cancel_timer t c)
unfolding cancel_timer
cancel_timer-Quiet read c = ground arith
cancel_timer-Quiet write c = ground arith

async_read-Quiet : (c : Conn) → Quiet c (async_read c)
unfolding async_read
async_read-Quiet c = ground arith

async_write-Quiet : (c : Conn) → Quiet c (async_write c)
unfolding async_write
async_write-Quiet c = ground arith

send_in_loop-Quiet : (m : Message) (c : Conn) → Quiet c (send_in_loop m c)
unfolding send_in_loop async_write
send_in_loop-Quiet m c = ground arith

send-Quiet : (b : Bool) (m : Message) (c : Conn) → Quiet c (send b m c)
unfolding send
send-Quiet b m c = ground (arith, send_in_loop-Quiet m c)

shutdown_in_loop-Quiet : (c : Conn) → Quiet c (shutdown_in_loop c).0
unfolding shutdown_in_loop
shutdown_in_loop-Quiet c =
    ground (arith, connect_cleanup-Quiet activity_context (record c { state = wait_close }))

force_close_in_loop-Quiet : (c : Conn) → Quiet c (force_close_in_loop c).0
unfolding force_close_in_loop
force_close_in_loop-Quiet c = ground (arith, connect_cleanup-Quiet activity_context c)

shutdown-Quiet : (b k : Bool) (c : Conn) → Quiet c (shutdown b k c).0
unfolding shutdown
shutdown-Quiet b k c = ground (
  arith,
  shutdown_in_loop-Quiet
      (record c { opt_shutdown = true; opt_no_message = c.opt_no_message || not k }),
)

force_close-Quiet : (b : Bool) (c : Conn) → Quiet c (force_close b c).0
unfolding force_close
force_close-Quiet b c =
    ground (
      arith,
      force_close_in_loop-Quiet (record c { opt_force_close = true; opt_no_message = true }),
    )

perform-Quiet : (x : Call) (c : Conn) → Quiet c (perform x c).0
unfolding perform
perform-Quiet (sends m) c = send-Quiet true m c
perform-Quiet (shuts_down k) c = shutdown-Quiet true k c
perform-Quiet force_closes c = force_close-Quiet true c

perform_all-Quiet : (xs : List Call) (c : Conn) → Quiet c (perform_all xs c)
unfolding perform_all
perform_all-Quiet [] c = ground arith
perform_all-Quiet (x ∷ xs) c = elim (Bool-cases (perform x c).1) [
  | inl e ↦ rw e (perform-Quiet x c)
  | inr e ↦
      rw e
        (Quiet-trans c (perform x c).0 _ (perform-Quiet x c) (perform_all-Quiet xs (perform x c).0))
]

deliver-Quiet : (cb : Callbacks) (c : Conn) → Quiet c (deliver cb c)
unfolding deliver
deliver-Quiet cb c = ground (
  arith,
  perform_all-Quiet (cb.on_message c.input).1
      (record c { input = (cb.on_message c.input).0; log = call_message c.input ∷ c.log }),
)

handle_read-Quiet :
    (cb : Callbacks) (ec : Option ErrorCode) (bytes : Message) (c : Conn)
    → Quiet c (handle_read cb ec bytes c)
unfolding handle_read handle_read_write_error
handle_read-Quiet cb none bytes c =
    let d : Conn = record c { pending_reads = c.pending_reads - 1; input = c.input ++ bytes } in
    Quiet-trans c d _ (ground arith)
      (Quiet-trans d (deliver cb d) _ (deliver-Quiet cb d) (async_read-Quiet (deliver cb d)))
handle_read-Quiet cb (some ec) bytes c =
    let d : Conn = record c { pending_reads = c.pending_reads - 1 } in
    Quiet-trans c d _ (ground arith) (connect_cleanup-Quiet _ d)

pop_front-Quiet :
    (xs : List Message) (c : Conn)
    → Quiet c (pop_front xs (record c { pending_writes = c.pending_writes - 1 }))
unfolding pop_front
pop_front-Quiet [] c = ground arith
pop_front-Quiet (x ∷ xs) c = ground arith

write_complete-Quiet : (cb : Callbacks) (len : ℕ) (c : Conn) → Quiet c (write_complete cb len c)
unfolding write_complete
write_complete-Quiet cb len c = ground (
  arith,
  perform_all-Quiet (cb.on_write_complete len) (record c { log = call_write_complete len ∷ c.log }),
)

write_next-Quiet : (c : Conn) → Quiet c (write_next c)
unfolding write_next
write_next-Quiet c = ground (
  arith,
  cancel_timer-Quiet write c,
  async_write-Quiet c,
  connect_cleanup-Quiet activity_context c,
)

handle_write-Quiet :
    (cb : Callbacks) (ec : Option ErrorCode) (len : ℕ) (c : Conn)
    → Quiet c (handle_write cb ec len c)
unfolding handle_write handle_read_write_error
handle_write-Quiet cb none len c =
    Quiet-trans c _ _ (pop_front-Quiet c.output c)
      (Quiet-trans _ _ _ (write_complete-Quiet cb len _) (write_next-Quiet _))
handle_write-Quiet cb (some ec) len c =
    Quiet-trans c _ _ (pop_front-Quiet c.output c) (connect_cleanup-Quiet _ _)

handle_timeout-Quiet : (t : TimeoutType) (sec : ℕ) (c : Conn) → Quiet c (handle_timeout t sec c)
unfolding handle_timeout
handle_timeout-Quiet t sec c = ground (
  arith,
  connect_cleanup-Quiet (timeout_context t sec) c,
  connect_cleanup-Quiet (timeout_context t sec) (record c { fault = true }),
)

connect_destroy-Quiet : (c : Conn) → Quiet c (connect_destroy c)
unfolding connect_destroy
connect_destroy-Quiet c = ground arith

step-Quiet : (cb : Callbacks) (e : Event) (c : Conn) → Quiet c (step cb e c)
unfolding step
step-Quiet cb (read_done ec bytes) c = handle_read-Quiet cb ec bytes c
step-Quiet cb (write_done ec len) c = handle_write-Quiet cb ec len c
step-Quiet cb (timed_out t sec) c = handle_timeout-Quiet t sec c
step-Quiet cb destroys c = connect_destroy-Quiet c
step-Quiet cb (calls_send b m) c = send-Quiet b m c
step-Quiet cb (calls_shutdown b k) c = shutdown-Quiet b k c
step-Quiet cb (calls_force_close b) c = force_close-Quiet b c
step-Quiet cb (runs_send m) c = send_in_loop-Quiet m c
step-Quiet cb runs_shutdown c = shutdown_in_loop-Quiet c
step-Quiet cb runs_force_close c = force_close_in_loop-Quiet c

run-Quiet : (cb : Callbacks) (es : List Event) (c : Conn) → Quiet c (run cb es c)
unfolding run
run-Quiet cb [] c = ground arith
run-Quiet cb (e ∷ es) c =
    Quiet-trans c (step cb e c) _ (step-Quiet cb e c) (run-Quiet cb es (step cb e c))

-- On a connection of which no close was asked: after `shutdown(false)`, and likewise after
-- `force_close()`, called on any thread, the message callback is never called again, whatever events
-- follow.
pub no_message_after_close :
    (cb : Callbacks) (es : List Event) (in_loop : Bool) (c : Conn)
    → c.opt_shutdown ≡ false
    → c.opt_force_close ≡ false
    → (delivered (run cb es (shutdown in_loop false c).0).log ≡ delivered c.log)
      × (delivered (run cb es (force_close in_loop c).0).log ≡ delivered c.log)
unfolding shutdown force_close shutdown_in_loop force_close_in_loop connect_cleanup cleanup_once
no_message_after_close cb es in_loop c hs hf = (
  ground (arith, run-Quiet cb es (shutdown in_loop false c).0),
  ground (arith, run-Quiet cb es (force_close in_loop c).0),
)

-- On a connection of which no close was asked: after a `shutdown` on the loop's thread, and likewise
-- after the cleanup that an error or a timeout brings, no message is put in the queue any more,
-- whatever events follow.
pub nothing_accepted_after_close :
    (cb : Callbacks) (es : List Event) (callback : Bool) (ctx : CleanupContext) (c : Conn)
    → c.opt_shutdown ≡ false
    → c.opt_force_close ≡ false
    → (queued_of (run cb es (shutdown true callback c).0).log ≡ queued_of c.log)
      × (queued_of (run cb es (connect_cleanup ctx c).0).log ≡ queued_of c.log)
unfolding shutdown shutdown_in_loop connect_cleanup cleanup_once
nothing_accepted_after_close cb es callback ctx c hs hf = (
  ground (arith, run-Quiet cb es (shutdown true callback c).0),
  ground (arith, run-Quiet cb es (connect_cleanup ctx c).0),
)
