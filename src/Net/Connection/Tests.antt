-- ===== src/Net/Connection/Tests.antt =====
-- zysoft/net/tcp_connection.h: runs of the model, and the theorems at concrete connections.
use zysoft.Prelude.{◌≡◌, refl, inl, List, [], ◌∷◌, ◌++◌, none, some, Bool, true, false, arith}
use zysoft.Prelude.Int.{ℤ, pos, negsuc}
use zysoft.Net.Types.{code, Callbacks, sends, read, write}
use zysoft.Net.Connection.{
  Conn, create, connect_cleanup, cleanup_once, shutdown, force_close, send, send_in_loop,
  async_read, async_write, perform, perform_all, handle_read_write_error,
}
use zysoft.Net.Connection.Handlers.{
  Event, read_done, write_done, timed_out, destroys, calls_send, run, step, opened,
  connect_establised, connect_destroy, handle_read, handle_write, handle_timeout, deliver,
  pop_front, write_complete, write_next, AllEnabled, late_among,
}
use zysoft.Net.Connection.Flow.{Flow, send-Flow, queued_of, dequeued_of, started_of, is_open}
use zysoft.Net.Connection.Ordered.{InOrder, messages_keep_order, opened-Flow}
use zysoft.Net.Connection.Life.{EndsOnce, cleanup_runs_once}
use zysoft.Net.Connection.Closing.{delivered, no_message_after_close}
use zysoft.Net.Connection.Drain.{writes, shutdown_drains}
use zysoft.Net.Connection.Hazards.{
  send_on_write_complete_doubles, both_timeouts_fail, early_shutdown_lost,
}

-- It sends back what it reads.
abbrev echo : Callbacks
echo = record {
  on_connection = [];
  on_message = λ m. ([], sends m ∷ []);
  on_write_complete = λ len. [];
}

-- It answers a finished write of two bytes with one more.
abbrev chatty : Callbacks
chatty = record {
  on_connection = [];
  on_message = λ m. (m, []);
  on_write_complete = λ len. sends (9 ∷ []) ∷ [];
}

abbrev start : Conn
unfolding opened
start = opened echo true true (pos 5) (negsuc 0) true

abbrev script : List Event
script =
    calls_send true (1 ∷ 2 ∷ [])
    ∷ calls_send true (3 ∷ [])
    ∷ write_done none 2
    ∷ read_done none (7 ∷ [])
    ∷ write_done none 1
    ∷ timed_out read 5
    ∷ write_done (some (code 9)) 0
    ∷ destroys
    ∷ []

script-AllEnabled : AllEnabled echo script (opened echo true true (pos 5) (negsuc 0) true)
unfolding opened create connect_establised step run handle_read handle_write handle_timeout
    connect_destroy send send_in_loop async_write async_read write_next write_complete pop_front
    deliver perform perform_all connect_cleanup cleanup_once handle_read_write_error
script-AllEnabled =
    (tt, (tt, (omega arith, (omega arith, (omega arith, (inl refl, (omega arith, (refl, tt))))))))

messages_keep_order_example :
    InOrder
      (late_among echo script (opened echo true true (pos 5) (negsuc 0) true))
      (run echo script (opened echo true true (pos 5) (negsuc 0) true))
messages_keep_order_example =
    messages_keep_order echo true true (pos 5) (negsuc 0) true script (λ len. tt) script-AllEnabled

cleanup_runs_once_example :
    EndsOnce (run echo script (opened echo true true (pos 5) (negsuc 0) true))
cleanup_runs_once_example =
    cleanup_runs_once echo true true (pos 5) (negsuc 0) true script script-AllEnabled

-- An open connection at which the one message, or the first of two, is being written.
unfoldable busy : Callbacks → Bool → ℤ → Conn
busy cb hw wt = send true (1 ∷ 2 ∷ []) (opened cb true hw (pos 5) wt true)

unfoldable busier : Callbacks → Bool → ℤ → Conn
unfolding busy
busier cb hw wt = send true (3 ∷ []) (busy cb hw wt)

busy-Flow : (cb : Callbacks) (hw : Bool) (wt : ℤ) → Flow false (busy cb hw wt)
unfolding busy
busy-Flow cb hw wt = send-Flow true (1 ∷ 2 ∷ []) _ (opened-Flow cb true hw (pos 5) wt true)

busier-Flow : (cb : Callbacks) (hw : Bool) (wt : ℤ) → Flow false (busier cb hw wt)
unfolding busier
busier-Flow cb hw wt = send-Flow true (3 ∷ []) _ (busy-Flow cb hw wt)

no_message_after_close_example :
    let c = busier echo true (pos 3) in
    (delivered (run echo script (shutdown true false c).0).log ≡ delivered c.log)
    × (delivered (run echo script (force_close true c).0).log ≡ delivered c.log)
unfolding busier busy opened create connect_establised send send_in_loop async_write async_read
    perform_all
no_message_after_close_example =
    no_message_after_close echo script true (busier echo true (pos 3)) refl refl

shutdown_drains_example :
    let c = busier echo true (pos 3) in
    let d = (shutdown true true c).0 in
    let e = run echo (writes (2 ∷ 1 ∷ [])) d in
    AllEnabled echo (writes (2 ∷ 1 ∷ [])) d
    × (e.output ≡ [])
    × (e.is_cleaned ≡ true)
    × (dequeued_of e.log ≡ queued_of c.log)
unfolding busier busy opened create connect_establised send send_in_loop async_write async_read
    perform_all
shutdown_drains_example =
    shutdown_drains echo true (2 ∷ 1 ∷ []) (busier echo true (pos 3)) (λ len. tt)
      (busier-Flow echo true (pos 3)) refl refl refl refl refl

send_on_write_complete_doubles_example :
    let c = busy chatty true (pos 3) in
    let d = step chatty (write_done none 2) c in
    (d.pending_writes ≡ 2)
    × (d.output ≡ (9 ∷ []) ∷ [])
    × (started_of d.log ≡ (queued_of c.log ++ (9 ∷ []) ∷ []) ++ (9 ∷ []) ∷ [])
unfolding busy opened create connect_establised send send_in_loop async_write async_read perform_all
send_on_write_complete_doubles_example =
    send_on_write_complete_doubles chatty 2 (1 ∷ 2 ∷ []) (9 ∷ []) (busy chatty true (pos 3))
      (busy-Flow chatty true (pos 3)) refl refl refl refl refl

both_timeouts_fail_example :
    let c = busy echo true (pos 3) in
    ((handle_timeout write 3 (handle_timeout read 5 c)).fault ≡ true)
    × ((handle_timeout read 5 (handle_timeout write 3 c)).fault ≡ true)
unfolding busy opened create connect_establised send send_in_loop async_write async_read perform_all
both_timeouts_fail_example = both_timeouts_fail 5 3 (busy echo true (pos 3)) refl refl

early_shutdown_lost_example :
    let c = connect_establised echo (shutdown true true (create true true (pos 5) (pos 3))).0 in
    (is_open c ≡ true) × (shutdown true false (run echo script c) ≡ (run echo script c, false))
early_shutdown_lost_example =
    early_shutdown_lost echo true true true false true (pos 5) (pos 3) script refl
