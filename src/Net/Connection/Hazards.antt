-- ===== src/Net/Connection/Hazards.antt =====
-- zysoft/net/tcp_connection.h: orders of calls and completions that the class does not allow for.
use zysoft.Prelude.{
  Bool-cases, inl, inr, ℕ, suc, ◌-◌, ◌≡◌, refl, List, [], ◌∷◌, ◌++◌, none, some, Bool, true, false,
  not, ◌&&◌, arith,
}
use zysoft.Prelude.Int.{ℤ, pos}
use zysoft.Net.Types.{
  CleanupContext, ErrorCode, call_write_complete, dequeued, Message, sends, Callbacks, read, write,
}
use zysoft.Net.Connection.{
  Conn, is_closed, is_waiting, connect_cleanup, cleanup_once, cancel_timer, async_read, async_write,
  create, send_in_loop, handle_read_write_error, shutdown_in_loop, send, shutdown, perform,
  perform_all,
}
use zysoft.Net.Connection.Flow.{queued_of, started_of, is_open, Flow}
use zysoft.Net.Connection.Kept.{step-Kept, is_destroy}
use zysoft.Net.Connection.Handlers.{
  Event, connect_destroy, connect_establised, write_next, handle_read, handle_write, handle_timeout,
  read_done, write_done, step, run,
}

-- `handle_write` past its callback, when that has sent `x` on an empty queue.
sent_again :
    (x : Message) (d : Conn)
    → is_open d ≡ true
    → d.pending_writes ≡ 0
    → d.output ≡ []
    → let e = write_next (perform_all (sends x ∷ []) d) in
      (e.pending_writes ≡ 2)
      × (e.output ≡ x ∷ [])
      × (started_of e.log ≡ (started_of d.log ++ x ∷ []) ++ x ∷ [])
unfolding write_next perform_all perform send send_in_loop async_write
sent_again x d o p e = ground arith

-- The connection when the callback is called.
popped : ℕ → Message → Conn → Conn
popped len m c = record c {
  output = [];
  pending_writes = c.pending_writes - 1;
  log = call_write_complete len ∷ dequeued m ∷ c.log;
}

step-popped :
    (cb : Callbacks) (len : ℕ) (m x : Message) (c : Conn)
    → c.has_write_complete_cb ≡ true
    → c.output ≡ m ∷ []
    → cb.on_write_complete len ≡ sends x ∷ []
    → step cb (write_done none len) c ≡ write_next (perform_all (sends x ∷ []) (popped len m c))
unfolding step handle_write popped
step-popped cb len m x c h e q = rw e (ground arith)

-- On an open connection, a message that the write-complete callback sends when the queue has just
-- become empty, and which is all it does, is handed to the socket twice: `send_in_loop` starts the write of it and `handle_write` does so again.
pub send_on_write_complete_doubles :
    (cb : Callbacks) (len : ℕ) (m x : Message) (c : Conn)
    → Flow false c
    → is_open c ≡ true
    → c.has_write_complete_cb ≡ true
    → c.pending_writes ≡ 1
    → c.output ≡ m ∷ []
    → cb.on_write_complete len ≡ sends x ∷ []
    → let d = step cb (write_done none len) c in
      (d.pending_writes ≡ 2)
      × (d.output ≡ x ∷ [])
      × (started_of d.log ≡ (queued_of c.log ++ x ∷ []) ++ x ∷ [])
unfolding popped
send_on_write_complete_doubles cb len m x c f o h p e q =
    rw (step-popped cb len m x c h e q)
      (ground (arith, sent_again x (popped len m c) o (omega arith) refl))

-- When both timers of an open connection are due in one turn of the wheel, the second callback fails
-- its assertion, whichever comes first: the cleanup of the first has dropped both timers.
pub both_timeouts_fail :
    (r w : ℕ) (c : Conn)
    → is_open c ≡ true
    → c.is_cleaned ≡ false
    → ((handle_timeout write w (handle_timeout read r c)).fault ≡ true)
      × ((handle_timeout read r (handle_timeout write w c)).fault ≡ true)
unfolding handle_timeout connect_cleanup cleanup_once
both_timeouts_fail r w c o n = ground arith

-- A shutdown is under way, the messages `ms` wait and the first is at the socket.
record Stage (cleaned : Bool) (n : ℕ) (ms : List Message) (c : Conn) : Type 0 where
  waiting : is_waiting c.state ≡ true
  asked : c.opt_shutdown ≡ true
  not_forced : c.opt_force_close ≡ false
  clean : c.is_cleaned ≡ cleaned
  no_callback : c.has_write_complete_cb ≡ false
  deadline : c.write_timeout_sec ≡ pos (suc n)
  writing : c.pending_writes ≡ 1
  left : c.output ≡ ms

read_fails-Stage :
    (cb : Callbacks) (ec : ErrorCode) (bytes : Message) (n : ℕ) (ms : List Message) (c : Conn)
    → Stage false n ms c
    → Stage true n ms (step cb (read_done (some ec) bytes) c)
unfolding step handle_read handle_read_write_error connect_cleanup cleanup_once
read_fails-Stage cb ec bytes n ms c s = ground arith

shutdown-Stage :
    (k : Bool) (n : ℕ) (m : Message) (ms : List Message) (c : Conn)
    → is_open c ≡ true
    → c.is_cleaned ≡ false
    → c.opt_shutdown ≡ false
    → c.opt_force_close ≡ false
    → c.has_write_complete_cb ≡ false
    → c.write_timeout_sec ≡ pos (suc n)
    → c.pending_writes ≡ 1
    → c.output ≡ m ∷ ms
    → Stage false n (m ∷ ms) (shutdown true k c).0
unfolding shutdown shutdown_in_loop
shutdown-Stage k n m ms c o cl s f h t p e = ground arith

next_written :
    (len n : ℕ) (m m' : Message) (ms : List Message) (c : Conn)
    → Stage true n (m ∷ m' ∷ ms) c
    → let d = write_next (record c {
      output = m' ∷ ms;
      pending_writes = c.pending_writes - 1;
      log = dequeued m ∷ c.log;
    }) in
      (d.is_cleaned ≡ true) × (d.write_timer ≡ true) × (d.pending_writes ≡ 1)
unfolding write_next async_write
next_written len n m m' ms c s = ground arith

step_written :
    (cb : Callbacks) (len : ℕ) (m : Message) (ms : List Message) (c : Conn)
    → c.has_write_complete_cb ≡ false
    → c.output ≡ m ∷ ms
    → step cb (write_done none len) c
      ≡ write_next (record c {
        output = ms;
        pending_writes = c.pending_writes - 1;
        log = dequeued m ∷ c.log;
      })
unfolding step handle_write
step_written cb len m ms c h e = rw e (ground arith)

write_completes :
    (cb : Callbacks) (len n : ℕ) (m m' : Message) (ms : List Message) (c : Conn)
    → Stage true n (m ∷ m' ∷ ms) c
    → let d = step cb (write_done none len) c in
      (d.is_cleaned ≡ true) × (d.write_timer ≡ true) × (d.pending_writes ≡ 1)
write_completes cb len n m m' ms c s =
    rw (step_written cb len m (m' ∷ ms) c s.no_callback s.left) (next_written len n m m' ms c s)

-- A connection with a write timeout is shut down while two messages or more wait, a read fails, and
-- then the write that was under way completes: the connection is cleaned up, and yet the next
-- message is at the socket and a write timer is set.
pub late_write_timer :
    (cb : Callbacks) (k : Bool) (ec : ErrorCode) (bytes m m' : Message) (ms : List Message)
    (len n : ℕ) (c : Conn)
    → is_open c ≡ true
    → c.is_cleaned ≡ false
    → c.opt_shutdown ≡ false
    → c.opt_force_close ≡ false
    → c.has_write_complete_cb ≡ false
    → c.write_timeout_sec ≡ pos (suc n)
    → c.pending_writes ≡ 1
    → c.output ≡ m ∷ m' ∷ ms
    → let d = run cb (read_done (some ec) bytes ∷ write_done none len ∷ []) (shutdown true k c).0 in
      (d.is_cleaned ≡ true) × (d.write_timer ≡ true) × (d.pending_writes ≡ 1)
unfolding run
late_write_timer cb k ec bytes m m' ms len n c o cl s f h t p e =
    write_completes cb len n m m' ms _ (read_fails-Stage cb ec bytes n (m ∷ m' ∷ ms) _ begun)
  where
    begun : Stage false n (m ∷ m' ∷ ms) (shutdown true k c).0
    begun = shutdown-Stage k n m (m' ∷ ms) c o cl s f h t p e

destroy_asked :
    (cb : Callbacks) (e : Event) (c : Conn)
    → is_destroy e ≡ true
    → c.opt_shutdown ≡ true
    → (step cb e c).opt_shutdown ≡ true
unfolding step connect_destroy
destroy_asked cb e c p h = ground arith

stays_asked :
    (cb : Callbacks) (es : List Event) (c : Conn)
    → c.opt_shutdown ≡ true
    → (run cb es c).opt_shutdown ≡ true
unfolding run
stays_asked cb [] c h = h
stays_asked cb (e ∷ es) c h = stays_asked cb es (step cb e c) (elim (Bool-cases (is_destroy e)) [
  | inl p ↦ destroy_asked cb e c p h
  | inr p ↦ (step-Kept cb e c p).keeps_shutdown h
])

shutdown_again :
    (in_loop k : Bool) (c : Conn) → c.opt_shutdown ≡ true → shutdown in_loop k c ≡ (c, false)
unfolding shutdown
shutdown_again in_loop k c h = rw h refl

opens_asked :
    (cb : Callbacks) (hc hw k : Bool) (rt wt : ℤ)
    → cb.on_connection ≡ []
    → let c = connect_establised cb (shutdown true k (create hc hw rt wt)).0 in
      (is_open c ≡ true) × (c.opt_shutdown ≡ true)
unfolding connect_establised shutdown shutdown_in_loop create async_read perform_all
opens_asked cb hc hw k rt wt e = ground arith

-- A `shutdown` before the connection is opened does not close it and uses the request up: if the connection callback
-- makes no call, the connection opens, and whatever events come, a later `shutdown` of it does nothing.
pub early_shutdown_lost :
    (cb : Callbacks) (hc hw k k' in_loop : Bool) (rt wt : ℤ) (es : List Event)
    → cb.on_connection ≡ []
    → let c = connect_establised cb (shutdown true k (create hc hw rt wt)).0 in
      (is_open c ≡ true) × (shutdown in_loop k' (run cb es c) ≡ (run cb es c, false))
early_shutdown_lost cb hc hw k k' in_loop rt wt es e =
    let (open_now, asked) = opens_asked cb hc hw k rt wt e in
    (open_now, shutdown_again in_loop k' _ (stays_asked cb es _ asked))

-- The cleanup throws exactly when it is the first one of a connection that is not closed and no
-- cleanup callback was set.
pub cleanup_throws_iff :
    (ctx : CleanupContext) (c : Conn)
    → (connect_cleanup ctx c).1
      ≡ (not (is_closed c.state) && (not c.is_cleaned && not c.has_cleanup_cb))
unfolding connect_cleanup cleanup_once cancel_timer
cleanup_throws_iff ctx c = ground arith
