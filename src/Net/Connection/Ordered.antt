-- ===== src/Net/Connection/Ordered.antt =====
-- zysoft/net/tcp_connection.h: every event keeps the order of the messages.
use zysoft.Prelude.{
  ℕ, ◌+◌, ◌-◌, ◌≤◌, ◌<◌, ◌≡◌, refl, List, [], ◌∷◌, ◌++◌, append_assoc, Option, none, some, Bool,
  true, false, ◌||◌, subst, arith, length, take, Bool-cases, inl, inr, take-append-drop, drop,
  length-append, length-take,
}
use zysoft.Prelude.Int.{ℤ}
use zysoft.Net.Types.{Message, ErrorCode, Callbacks, TimeoutType, write}
use zysoft.Net.Connection.{
  Conn, is_closed, activity_context, handle_read_write_error, async_read, create,
}
use zysoft.Net.Connection.Flow.{
  shutdown_in_loop-Same, force_close_in_loop-Same, queued_of, dequeued_of, started_of, Same, Flow,
  Popped, Same-Flow, Same-Popped, Popped-Flow, async_write-Flow, send_in_loop-Flow, send-Flow,
  connect_cleanup-Same, shutdown-Same, force_close-Same, cancel_timer-Same, cleanup-closes, NoSends,
  perform_all-Flow, perform_all-Popped,
}
use zysoft.Net.Connection.Handlers.{
  connect_establised, connect_destroy, handle_read, handle_write, pop_front, write_complete,
  write_next, handle_timeout, timeout_context, Event, read_done, write_done, timed_out, destroys,
  calls_send, calls_shutdown, calls_force_close, runs_send, runs_shutdown, runs_force_close, step,
  run, opened, Enabled, AllEnabled, is_late, late_among, has_timer,
}

async_read-Same : (c : Conn) → Same c (async_read c)
unfolding async_read
async_read-Same c = ground arith

destroy-Same : (c : Conn) → Same c (connect_destroy c)
unfolding connect_destroy
destroy-Same c = ground arith

take_one : (n : ℕ) (m : Message) (ms : List Message) → n ≡ 1 → take n (m ∷ ms) ≡ m ∷ []
take_one n m ms e = rw e

unlate : (b : Bool) (c : Conn) → Flow b c → Flow (b || false) c
unlate true c f = f
unlate false c f = f

faulted : (b : Bool) (c : Conn) → Flow b c → Flow (b || true) (record c { fault = true })
faulted true c f = ground arith
faulted false c f = ground arith

module _ {b : Bool} where
  read_error-Flow : (ec : ErrorCode) (c : Conn) → Flow b c → Flow b (handle_read_write_error ec c)
  unfolding handle_read_write_error
  read_error-Flow ec c f = Same-Flow c _ (connect_cleanup-Same _ c) f

  write_error-Flow :
      (ec : ErrorCode) (c : Conn) → Popped b c → Flow b (handle_read_write_error ec c)
  unfolding handle_read_write_error
  write_error-Flow ec c p =
      Popped-Flow _ (Same-Popped c _ (connect_cleanup-Same _ c) p) (inl (cleanup-closes _ c))

  write_next-Flow : (c : Conn) → Popped b c → Flow b (write_next c)
  unfolding write_next
  write_next-Flow c p = ground (
    arith,
    Popped-Flow c p,
    async_write-Flow c p,
    Popped-Flow _ (Same-Popped c _ (cancel_timer-Same write c) p),
    cancel_timer-Same write c,
    Popped-Flow _ (Same-Popped c _ (connect_cleanup-Same activity_context c) p),
    cleanup-closes activity_context c,
  )

  handle_read-Flow :
      (cb : Callbacks) (ec : Option ErrorCode) (bytes : Message) (c : Conn)
      → Flow b c
      → Flow b (handle_read cb ec bytes c)
  unfolding handle_read
  handle_read-Flow cb none bytes c f =
      Same-Flow _ _ (async_read-Same _) (elim (Bool-cases c.opt_no_message) [
        | inl e ↦ rw e (ground arith)
        | inr e ↦ rw e (perform_all-Flow _ _ (ground arith))
      ])
  handle_read-Flow cb (some ec) bytes c f = read_error-Flow ec _ (ground arith)

  pop_front-Popped :
      (xs : List Message) (c : Conn)
      → c.output ≡ xs
      → 0 < c.pending_writes
      → Flow b c
      → Popped b (pop_front xs (record c { pending_writes = c.pending_writes - 1 }))
  unfolding pop_front
  pop_front-Popped [] c e w f = absurd (ground arith)
  pop_front-Popped (m ∷ ms) c e w f =
      ground (arith, take_one c.pending_writes m ms, append_assoc (dequeued_of c.log) (m ∷ []) ms)

  write_complete-Popped :
      (cb : Callbacks) (len : ℕ) (c : Conn)
      → NoSends (cb.on_write_complete len)
      → Popped b c
      → Popped b (write_complete cb len c)
  unfolding write_complete
  write_complete-Popped cb len c q p = elim (Bool-cases c.has_write_complete_cb) [
    | inl e ↦ simp e (perform_all-Popped _ _ q (ground arith))
    | inr e ↦ simp e p
  ]

  handle_write-Flow :
      (cb : Callbacks) (ec : Option ErrorCode) (len : ℕ) (c : Conn)
      → NoSends (cb.on_write_complete len)
      → 0 < c.pending_writes
      → Flow b c
      → Flow b (handle_write cb ec len c)
  unfolding handle_write
  handle_write-Flow cb none len c q w f =
      write_next-Flow _ (write_complete-Popped cb len _ q (pop_front-Popped c.output c refl w f))
  handle_write-Flow cb (some ec) len c q w f =
      write_error-Flow ec _ (pop_front-Popped c.output c refl w f)

  handle_timeout-Flow :
      (t : TimeoutType) (sec : ℕ) (c : Conn)
      → Flow b c
      → Flow (b || is_late (timed_out t sec) c) (handle_timeout t sec c)
  unfolding handle_timeout
  handle_timeout-Flow t sec c f = elim (Bool-cases (is_closed c.state)) [
    | inl e ↦ rw e (unlate b c f)
    | inr e ↦ elim (Bool-cases (has_timer t c)) [
      | inl g ↦
          rw (e, g) (unlate b _ (Same-Flow c _ (connect_cleanup-Same (timeout_context t sec) c) f))
      | inr g ↦
          let d : Conn = record c { fault = true } in
          rw (e, g) (Same-Flow d _ (connect_cleanup-Same (timeout_context t sec) d) (faulted b c f))
    ]
  ]

-- The application sends nothing from its write-complete callback.
abbrev pub QuietOnWrite : Callbacks → Type 0
QuietOnWrite cb = (len : ℕ) → NoSends (cb.on_write_complete len)

pub step-Flow :
    (b : Bool) (cb : Callbacks) (e : Event) (c : Conn)
    → QuietOnWrite cb
    → Enabled e c
    → Flow b c
    → Flow (b || is_late e c) (step cb e c)
unfolding step
step-Flow b cb (read_done ec bytes) c q h f = unlate b _ (handle_read-Flow cb ec bytes c f)
step-Flow b cb (write_done ec len) c q h f = unlate b _ (handle_write-Flow cb ec len c (q len) h f)
step-Flow b cb (timed_out t sec) c q h f = handle_timeout-Flow t sec c f
step-Flow b cb destroys c q h f = unlate b _ (Same-Flow c _ (destroy-Same c) f)
step-Flow b cb (calls_send k m) c q h f = unlate b _ (send-Flow k m c f)
step-Flow b cb (calls_shutdown i k) c q h f = unlate b _ (Same-Flow c _ (shutdown-Same i k c) f)
step-Flow b cb (calls_force_close i) c q h f = unlate b _ (Same-Flow c _ (force_close-Same i c) f)
step-Flow b cb (runs_send m) c q h f = unlate b _ (send_in_loop-Flow m c f)
step-Flow b cb runs_shutdown c q h f = unlate b _ (Same-Flow c _ (shutdown_in_loop-Same c) f)
step-Flow b cb runs_force_close c q h f = unlate b _ (Same-Flow c _ (force_close_in_loop-Same c) f)

or_assoc : (a b c : Bool) → ((a || b) || c) ≡ (a || (b || c))
or_assoc a b c = ground arith

pub run-Flow :
    (b : Bool) (cb : Callbacks) (es : List Event) (c : Conn)
    → QuietOnWrite cb
    → AllEnabled cb es c
    → Flow b c
    → Flow (b || late_among cb es c) (run cb es c)
unfolding run
run-Flow b cb [] c q h f = unlate b c f
run-Flow b cb (e ∷ es) c q h f =
    subst (λ x. Flow x (run cb es (step cb e c)))
      (or_assoc b (is_late e c) (late_among cb es (step cb e c)))
      (run-Flow (b || is_late e c) cb es (step cb e c) q h.1 (step-Flow b cb e c q h.0 f))

-- A connection before it is opened.
abbrev Unused : Conn → Type 0
Unused c =
    (c.output ≡ [])
    × (c.pending_writes ≡ 0)
    × (c.log ≡ [])
    × (c.fault ≡ false)
    × (c.read_timer ≡ false)

connect_establised-Flow :
    (cb : Callbacks) (c : Conn) → Unused c → Flow false (connect_establised cb c)
unfolding connect_establised async_read
connect_establised-Flow cb c u = perform_all-Flow cb.on_connection _ (ground arith)

pub opened-Flow :
    (cb : Callbacks) (hc hw : Bool) (rt wt : ℤ) (accepted : Bool)
    → Flow false (opened cb hc hw rt wt accepted)
unfolding opened create
opened-Flow cb hc hw rt wt accepted = connect_establised-Flow cb _ (refl, refl, refl, refl, refl)

length-append_take {ℓ} :
    {A : Type ℓ} (xs ys : List A) (n : ℕ) → n ≤ length ys → length (xs ++ take n ys) ≡ length xs + n
length-append_take xs ys n h = omega (arith, length-append xs (take n ys), length-take n ys)

-- What `Flow` says of a connection, in the words of its log; `b` says whether an assertion has failed.
abbrev pub InOrder : Bool → Conn → Type 0
InOrder b c =
    (c.fault ≡ b)
    × (c.pending_writes ≤ 1)
    × (length (started_of c.log) ≡ length (dequeued_of c.log) + c.pending_writes)
    × ((rest : List Message) × (queued_of c.log ≡ started_of c.log ++ rest))

Flow-InOrder : (b : Bool) (c : Conn) → Flow b c → InOrder b c
Flow-InOrder b c f = (
  f.same_fault,
  f.one,
  rw f.begun (length-append_take (dequeued_of c.log) c.output c.pending_writes f.front),
  (
    drop c.pending_writes c.output,
    ground (
      arith,
      append_assoc (dequeued_of c.log) (take c.pending_writes c.output)
          (drop c.pending_writes c.output),
      take-append-drop c.pending_writes c.output,
    ),
  ),
)

-- From the moment that a connection is opened, whatever events come in whatever order, each when it is enabled, if the
-- write-complete callback sends nothing: an assertion fails exactly if the callback of a timer that was dropped still
-- comes, before the connection is closed, as it may when both timers ring in one turn; the messages handed to the socket
-- are, in order, the first of those that were accepted, at most one of them at a time, and all but the one being written
-- are finished.
pub messages_keep_order :
    (cb : Callbacks) (hc hw : Bool) (rt wt : ℤ) (accepted : Bool) (es : List Event)
    → QuietOnWrite cb
    → AllEnabled cb es (opened cb hc hw rt wt accepted)
    → InOrder
        (late_among cb es (opened cb hc hw rt wt accepted))
        (run cb es (opened cb hc hw rt wt accepted))
messages_keep_order cb hc hw rt wt accepted es q h =
    Flow-InOrder _ _ (run-Flow false cb es _ q h (opened-Flow cb hc hw rt wt accepted))
