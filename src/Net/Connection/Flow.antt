-- ===== src/Net/Connection/Flow.antt =====
-- zysoft/net/tcp_connection.h: the messages that a connection takes from the application, hands to
-- the socket and forgets, as its log shows them.
use zysoft.Prelude.{
  suc, ◌≤◌, ◌≡◌, ◌⊎◌, refl, List, [], ◌∷◌, ◌++◌, append-nil, append_assoc, Bool, true, false, not,
  ◌||◌, arith, length, take, take-append_of_le, Bool-cases, inl, inr,
}
use zysoft.Net.Types.{
  wait_close, Effect, queued, dequeued, start_write, Message, CleanupContext, Call, sends,
  shuts_down, force_closes, TimeoutType, read, write,
}
use zysoft.Net.Connection.{
  Conn, is_closed, is_waiting, is_empty, connect_cleanup, cleanup_once, activity_context,
  cancel_timer, async_write, send_in_loop, shutdown_in_loop, force_close_in_loop, send, shutdown,
  force_close, perform, perform_all,
}

-- The messages accepted, finished and handed to the socket, oldest first.
abbrev pub queued_of : List Effect → List Message
queued_of [] = []
queued_of (queued m ∷ es) = queued_of es ++ m ∷ []
queued_of (e ∷ es) = queued_of es

abbrev pub dequeued_of : List Effect → List Message
dequeued_of [] = []
dequeued_of (dequeued m ∷ es) = dequeued_of es ++ m ∷ []
dequeued_of (e ∷ es) = dequeued_of es

abbrev pub started_of : List Effect → List Message
started_of [] = []
started_of (start_write m ∷ es) = started_of es ++ m ∷ []
started_of (e ∷ es) = started_of es

-- The connection takes messages.
abbrev pub is_open : Conn → Bool
is_open c = elim (is_waiting c.state) [
  | true ↦ false
  | false ↦ elim (is_closed c.state) [ true ↦ false | false ↦ true ]
]

-- What a handler leaves alone that moves no message.
pub record Same (c d : Conn) : Type 0 where
  pub output : d.output ≡ c.output
  pub pending : d.pending_writes ≡ c.pending_writes
  pub queued : queued_of d.log ≡ queued_of c.log
  pub dequeued : dequeued_of d.log ≡ dequeued_of c.log
  pub started : started_of d.log ≡ started_of c.log
  pub fault : d.fault ≡ c.fault
  pub opened : is_open d ≡ true → is_open c ≡ true

pub cancel_timer-Same : (t : TimeoutType) (c : Conn) → Same c (cancel_timer t c)
unfolding cancel_timer
cancel_timer-Same read c = ground arith
cancel_timer-Same write c = ground arith

pub connect_cleanup-Same : (ctx : CleanupContext) (c : Conn) → Same c (connect_cleanup ctx c).0
unfolding connect_cleanup cleanup_once
connect_cleanup-Same ctx c = ground arith

pub shutdown_in_loop-Same : (c : Conn) → Same c (shutdown_in_loop c).0
unfolding shutdown_in_loop
shutdown_in_loop-Same c =
    ground (arith, connect_cleanup-Same activity_context (record c { state = wait_close }))

pub force_close_in_loop-Same : (c : Conn) → Same c (force_close_in_loop c).0
unfolding force_close_in_loop
force_close_in_loop-Same c = ground (arith, connect_cleanup-Same activity_context c)

pub shutdown-Same : (b cb : Bool) (c : Conn) → Same c (shutdown b cb c).0
unfolding shutdown
shutdown-Same b cb c = ground (
  arith,
  shutdown_in_loop-Same
      (record c { opt_shutdown = true; opt_no_message = c.opt_no_message || not cb }),
)

pub force_close-Same : (b : Bool) (c : Conn) → Same c (force_close b c).0
unfolding force_close
force_close-Same b c =
    ground
      (arith, force_close_in_loop-Same (record c { opt_force_close = true; opt_no_message = true }))

pub cleanup-closes : (ctx : CleanupContext) (c : Conn) → is_open (connect_cleanup ctx c).0 ≡ false
unfolding connect_cleanup cleanup_once cancel_timer
cleanup-closes ctx c = ground arith

length-snoc {ℓ} : {A : Type ℓ} (xs : List A) (y : A) → length (xs ++ y ∷ []) ≡ suc (length xs)
length-snoc [] y = refl
length-snoc (x ∷ xs) y = rw (length-snoc xs y)

-- A callback that sends nothing.
abbrev pub NoSends : List Call → Type 0
NoSends [] = Unit {0}
NoSends (sends m ∷ xs) = ⊥
NoSends (x ∷ xs) = NoSends xs

-- What was accepted is what was finished and what still waits, in the order of the calls; what the
-- socket was given is what was finished and, while a write is under way, the front of the queue. `b` says
-- whether an assertion has failed.
pub record Flow (b : Bool) (c : Conn) : Type 0 where
  pub fifo : queued_of c.log ≡ dequeued_of c.log ++ c.output
  pub begun : started_of c.log ≡ dequeued_of c.log ++ take c.pending_writes c.output
  pub one : c.pending_writes ≤ 1
  pub front : c.pending_writes ≤ length c.output
  pub busy : is_open c ≡ true → is_empty c.output ≡ false → c.pending_writes ≡ 1
  pub same_fault : c.fault ≡ b

-- The state of `handle_write` between `pop_front` and its end.
pub record Popped (b : Bool) (c : Conn) : Type 0 where
  pub fifo : queued_of c.log ≡ dequeued_of c.log ++ c.output
  pub begun : started_of c.log ≡ dequeued_of c.log
  pub none_left : c.pending_writes ≡ 0
  pub same_fault : c.fault ≡ b

module _ {b : Bool} where
  pub Same-Flow : (c d : Conn) → Same c d → Flow b c → Flow b d
  Same-Flow c d s f = ground arith

  pub Same-Popped : (c d : Conn) → Same c d → Popped b c → Popped b d
  Same-Popped c d s f = ground arith

  pub Popped-Flow :
      (c : Conn) → Popped b c → (is_open c ≡ false) ⊎ (is_empty c.output ≡ true) → Flow b c
  Popped-Flow c p h = ground (arith, append-nil (dequeued_of c.log))

  pub async_write-Flow :
      (c : Conn) → Popped b c → is_empty c.output ≡ false → Flow b (async_write c)
  unfolding async_write
  async_write-Flow c p h = ground arith

  pub send_in_loop-Flow : (m : Message) (c : Conn) → Flow b c → Flow b (send_in_loop m c)
  unfolding send_in_loop async_write
  send_in_loop-Flow m c f = ground (
    arith,
    take-append_of_le c.pending_writes c.output (m ∷ []),
    length-snoc c.output m,
    append-nil (dequeued_of c.log),
    append_assoc (dequeued_of c.log) c.output (m ∷ []),
  )

  pub send-Flow : (k : Bool) (m : Message) (c : Conn) → Flow b c → Flow b (send k m c)
  unfolding send
  send-Flow k m c f = ground (arith, send_in_loop-Flow m c f)

  perform-Flow : (x : Call) (c : Conn) → Flow b c → Flow b (perform x c).0
  unfolding perform
  perform-Flow (sends m) c f = send-Flow true m c f
  perform-Flow (shuts_down cb) c f = Same-Flow c _ (shutdown-Same true cb c) f
  perform-Flow force_closes c f = Same-Flow c _ (force_close-Same true c) f

  pub perform_all-Flow : (xs : List Call) (c : Conn) → Flow b c → Flow b (perform_all xs c)
  unfolding perform_all
  perform_all-Flow [] c f = f
  perform_all-Flow (x ∷ xs) c f = elim (Bool-cases (perform x c).1) [
    | inl e ↦ rw e (perform-Flow x c f)
    | inr e ↦ rw e (perform_all-Flow xs (perform x c).0 (perform-Flow x c f))
  ]

  pub perform_all-Popped :
      (xs : List Call) (c : Conn) → NoSends xs → Popped b c → Popped b (perform_all xs c)
  unfolding perform_all perform
  perform_all-Popped [] c q p = p
  perform_all-Popped (sends m ∷ xs) c q p = absurd q
  perform_all-Popped (shuts_down cb ∷ xs) c q p =
      let p' = Same-Popped c _ (shutdown-Same true cb c) p in
      ground (arith, p', perform_all-Popped xs (shutdown true cb c).0 q p')
  perform_all-Popped (force_closes ∷ xs) c q p =
      let p' = Same-Popped c _ (force_close-Same true c) p in
      ground (arith, p', perform_all-Popped xs (force_close true c).0 q p')
