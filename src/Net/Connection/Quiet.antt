-- ===== src/Net/Connection/Quiet.antt =====
-- zysoft/net/tcp_connection.h: a connection stays cleaned up and keeps its cleanup callback, and what is no read sets no
-- read timer.
use zysoft.Prelude.{
  ℕ, suc, ◌-◌, ◌≡◌, ◌∙◌, List, [], ◌∷◌, Option, none, some, Bool, true, false, not, ◌||◌, arith,
  Bool-cases, inl, inr,
}
use zysoft.Prelude.Int.{is_positive}
use zysoft.Net.Types.{
  add_timer, reset_timer, wait_close, Effect, call_message, call_write_complete, CleanupContext,
  ErrorCode, Message, Call, sends, shuts_down, force_closes, Callbacks, TimeoutType, read, write,
}
use zysoft.Net.Connection.{
  Conn, is_closed, connect_cleanup, cleanup_once, invoke_cleanup_cb, cancel_timer, activity_context,
  handle_read_write_error, async_write, send_in_loop, shutdown_in_loop, force_close_in_loop, send,
  shutdown, force_close, perform, perform_all,
}
pub use zysoft.Net.Connection.Life.{cleanup_calls, cleanup_misses}
use zysoft.Net.Connection.Life.{closes}
use zysoft.Net.Connection.Handlers.{
  timeout_context, deliver, pop_front, write_complete, write_next, handle_write, handle_timeout,
}

-- How often the read timer was added or reset.
abbrev pub read_sets : List Effect → ℕ
read_sets [] = 0
read_sets (add_timer read n ∷ es) = suc (read_sets es)
read_sets (reset_timer read ∷ es) = suc (read_sets es)
read_sets (e ∷ es) = read_sets es

-- What every step of a connection keeps but its destruction.
pub record Kept (c d : Conn) : Type 0 where
  pub cleaned : c.is_cleaned ≡ true → d.is_cleaned ≡ true
  pub keeps_timer : d.is_cleaned ≡ false → c.read_timer ≡ true → d.read_timer ≡ true
  pub same_cb : d.has_cleanup_cb ≡ c.has_cleanup_cb
  pub no_calls : c.has_cleanup_cb ≡ false → cleanup_calls d.log ≡ cleanup_calls c.log
  pub same_closes : closes d.log ≡ closes c.log
  pub same_closed : is_closed d.state ≡ is_closed c.state
  pub keeps_shutdown : c.opt_shutdown ≡ true → d.opt_shutdown ≡ true
  pub same_write : d.write_timeout_sec ≡ c.write_timeout_sec
  pub no_write_timer :
      is_positive c.write_timeout_sec ≡ false → c.write_timer ≡ false → d.write_timer ≡ false
  pub misses : c.has_cleanup_cb ≡ true → cleanup_misses d.log ≡ cleanup_misses c.log

-- A step that neither adds nor resets the read timer.
pub record Quiet (c d : Conn) : Type 0 where
  pub kept : Kept c d
  pub sets : read_sets d.log ≡ read_sets c.log

pub Kept-trans : (c d e : Conn) → Kept c d → Kept d e → Kept c e
Kept-trans c d e p q = ground arith

pub Quiet-trans : (c d e : Conn) → Quiet c d → Quiet d e → Quiet c e
Quiet-trans c d e p q = record { kept = Kept-trans c d e p.kept q.kept; sets = q.sets ∙ p.sets }

cancel_timer-Quiet : (c : Conn) → Quiet c (cancel_timer write c)
unfolding cancel_timer
cancel_timer-Quiet c = ground arith

pub connect_cleanup-Quiet : (ctx : CleanupContext) (c : Conn) → Quiet c (connect_cleanup ctx c).0
unfolding connect_cleanup cleanup_once invoke_cleanup_cb
connect_cleanup-Quiet ctx c = ground arith

async_write-Quiet : (c : Conn) → Quiet c (async_write c)
unfolding async_write
async_write-Quiet c = ground arith

pub send_in_loop-Quiet : (m : Message) (c : Conn) → Quiet c (send_in_loop m c)
unfolding send_in_loop async_write
send_in_loop-Quiet m c = ground arith

pub send-Quiet : (b : Bool) (m : Message) (c : Conn) → Quiet c (send b m c)
unfolding send
send-Quiet b m c = ground (arith, send_in_loop-Quiet m c)

pub shutdown_in_loop-Quiet : (c : Conn) → Quiet c (shutdown_in_loop c).0
unfolding shutdown_in_loop
shutdown_in_loop-Quiet c =
    ground (arith, connect_cleanup-Quiet activity_context (record c { state = wait_close }))

pub force_close_in_loop-Quiet : (c : Conn) → Quiet c (force_close_in_loop c).0
unfolding force_close_in_loop
force_close_in_loop-Quiet c = ground (arith, connect_cleanup-Quiet activity_context c)

pub shutdown-Quiet : (b k : Bool) (c : Conn) → Quiet c (shutdown b k c).0
unfolding shutdown
shutdown-Quiet b k c = ground (
  arith,
  shutdown_in_loop-Quiet
      (record c { opt_shutdown = true; opt_no_message = c.opt_no_message || not k }),
)

pub force_close-Quiet : (b : Bool) (c : Conn) → Quiet c (force_close b c).0
unfolding force_close
force_close-Quiet b c =
    ground (
      arith,
      force_close_in_loop-Quiet (record c { opt_force_close = true; opt_no_message = true }),
    )

perform-Quiet : (x : Call) (c : Conn) → Quiet c (perform x c).0
unfolding perform
perform-Quiet (sends m) c = send-Quiet true m c
perform-Quiet (shuts_down k) c = shutdown-Quiet true k c
perform-Quiet force_closes c = force_close-Quiet true c

pub perform_all-Quiet : (xs : List Call) (c : Conn) → Quiet c (perform_all xs c)
unfolding perform_all
perform_all-Quiet [] c = ground arith
perform_all-Quiet (x ∷ xs) c = elim (Bool-cases (perform x c).1) [
  | inl e ↦ rw e (perform-Quiet x c)
  | inr e ↦
      rw e
        (Quiet-trans c (perform x c).0 _ (perform-Quiet x c) (perform_all-Quiet xs (perform x c).0))
]

pub deliver-Quiet : (cb : Callbacks) (c : Conn) → Quiet c (deliver cb c)
unfolding deliver
deliver-Quiet cb c = ground (
  arith,
  perform_all-Quiet (cb.on_message c.input).1
      (record c { input = (cb.on_message c.input).0; log = call_message c.input ∷ c.log }),
)

pop_front-Quiet :
    (xs : List Message) (c : Conn)
    → Quiet c (pop_front xs (record c { pending_writes = c.pending_writes - 1 }))
unfolding pop_front
pop_front-Quiet [] c = ground arith
pop_front-Quiet (x ∷ xs) c = ground arith

write_complete-Quiet : (cb : Callbacks) (len : ℕ) (c : Conn) → Quiet c (write_complete cb len c)
unfolding write_complete
write_complete-Quiet cb len c = ground (
  arith,
  perform_all-Quiet (cb.on_write_complete len) (record c { log = call_write_complete len ∷ c.log }),
)

write_next-Quiet : (c : Conn) → Quiet c (write_next c)
unfolding write_next
write_next-Quiet c =
    ground
      (arith, cancel_timer-Quiet c, async_write-Quiet c, connect_cleanup-Quiet activity_context c)

pub handle_write-Quiet :
    (cb : Callbacks) (ec : Option ErrorCode) (len : ℕ) (c : Conn)
    → Quiet c (handle_write cb ec len c)
unfolding handle_write handle_read_write_error
handle_write-Quiet cb none len c =
    Quiet-trans c _ _ (pop_front-Quiet c.output c)
      (Quiet-trans _ _ _ (write_complete-Quiet cb len _) (write_next-Quiet _))
handle_write-Quiet cb (some ec) len c =
    Quiet-trans c _ _ (pop_front-Quiet c.output c) (connect_cleanup-Quiet _ _)

pub handle_timeout-Quiet : (t : TimeoutType) (sec : ℕ) (c : Conn) → Quiet c (handle_timeout t sec c)
unfolding handle_timeout
handle_timeout-Quiet t sec c = ground (
  arith,
  connect_cleanup-Quiet (timeout_context t sec) c,
  connect_cleanup-Quiet (timeout_context t sec) (record c { fault = true }),
)
