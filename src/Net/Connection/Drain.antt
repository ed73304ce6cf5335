-- ===== src/Net/Connection/Drain.antt =====
-- zysoft/net/tcp_connection.h: `shutdown` lets the messages that wait be written, then cleans up.
use zysoft.Prelude.{
  ℕ, suc, ◌-◌, ◌≡◌, refl, ◌∙◌, ap, sym, List, [], ◌∷◌, ◌++◌, append-nil, append_assoc, none, Bool,
  true, false, arith, length, map,
}
use zysoft.Net.Types.{
  call_write_complete, dequeued, Message, Call, sends, shuts_down, force_closes, Callbacks,
}
use zysoft.Net.Connection.{
  Conn, is_waiting, connect_cleanup, cleanup_once, async_write, send_in_loop, shutdown_in_loop,
  send, shutdown, perform, perform_all,
}
use zysoft.Net.Connection.Flow.{queued_of, dequeued_of, is_open, Flow}
use zysoft.Net.Connection.Handlers.{
  pop_front, write_complete, write_next, handle_write, Event, write_done, step, run, AllEnabled,
}

-- A callback that does not call `force_close`.
abbrev pub NoForce : List Call → Type 0
NoForce [] = Unit {0}
NoForce (force_closes ∷ xs) = ⊥
NoForce (x ∷ xs) = NoForce xs

-- A shutdown is under way and `ms` wait to be written, the first of them at the socket.
record Draining (ms : List Message) (c : Conn) : Type 0 where
  waiting : is_waiting c.state ≡ true
  asked : c.opt_shutdown ≡ true
  not_forced : c.opt_force_close ≡ false
  not_cleaned : c.is_cleaned ≡ false
  writing : c.pending_writes ≡ 1
  left : c.output ≡ ms

perform_all_waiting :
    (xs : List Call) (c : Conn)
    → NoForce xs
    → is_waiting c.state ≡ true
    → c.opt_shutdown ≡ true
    → perform_all xs c ≡ c
unfolding perform_all perform send send_in_loop shutdown
perform_all_waiting [] c q w s = refl
perform_all_waiting (sends m ∷ xs) c q w s = ground (arith, perform_all_waiting xs c q w s)
perform_all_waiting (shuts_down k ∷ xs) c q w s = ground (arith, perform_all_waiting xs c q w s)
perform_all_waiting (force_closes ∷ xs) c q w s = absurd q

-- What `handle_write` hands to `write_next` when the shutdown is under way.
popped : Callbacks → ℕ → Message → List Message → Conn → Conn
unfolding pop_front write_complete
popped cb len m ms c =
    write_complete cb len (pop_front (m ∷ ms) (record c { pending_writes = c.pending_writes - 1 }))

record Popped (m : Message) (ms : List Message) (c d : Conn) : Type 0 where
  waiting : is_waiting d.state ≡ true
  asked : d.opt_shutdown ≡ true
  not_forced : d.opt_force_close ≡ false
  not_cleaned : d.is_cleaned ≡ false
  writing : d.pending_writes ≡ 0
  left : d.output ≡ ms
  finished : dequeued_of d.log ≡ dequeued_of c.log ++ m ∷ []

popped-Popped :
    (cb : Callbacks) (len : ℕ) (m : Message) (ms : List Message) (c : Conn)
    → NoForce (cb.on_write_complete len)
    → Draining (m ∷ ms) c
    → Popped m ms c (popped cb len m ms c)
unfolding popped
popped-Popped cb len m ms c q r = ground (
  arith,
  perform_all_waiting (cb.on_write_complete len)
      (record c {
        output = ms;
        pending_writes = c.pending_writes - 1;
        log = call_write_complete len ∷ dequeued m ∷ c.log;
      })
      q r.waiting r.asked,
)

write_last :
    (m : Message) (c d : Conn)
    → Popped m [] c d
    → ((write_next d).output ≡ [])
      × ((write_next d).is_cleaned ≡ true)
      × (dequeued_of (write_next d).log ≡ dequeued_of c.log ++ m ∷ [])
unfolding write_next connect_cleanup cleanup_once
write_last m c d p = ground arith

write_more :
    (m m' : Message) (ms : List Message) (c d : Conn)
    → Popped m (m' ∷ ms) c d
    → Draining (m' ∷ ms) (write_next d)
      × (dequeued_of (write_next d).log ≡ dequeued_of c.log ++ m ∷ [])
unfolding write_next async_write
write_more m m' ms c d p = ground arith

-- Successful completions, one for each length.
abbrev pub writes : List ℕ → List Event
writes = map (write_done none)

abbrev pub NoForceOnWrite : Callbacks → Type 0
NoForceOnWrite cb = (len : ℕ) → NoForce (cb.on_write_complete len)

-- How a drain of `ms` ends.
abbrev pub Drained : List Message → Conn → Conn → Type 0
Drained ms c d =
    (d.output ≡ []) × (d.is_cleaned ≡ true) × (dequeued_of d.log ≡ dequeued_of c.log ++ ms)

step_write :
    (cb : Callbacks) (len : ℕ) (m : Message) (ms : List Message) (c : Conn)
    → c.output ≡ m ∷ ms
    → step cb (write_done none len) c ≡ write_next (popped cb len m ms c)
unfolding step handle_write popped
step_write cb len m ms c e = rw e refl

step_last :
    (cb : Callbacks) (len : ℕ) (m : Message) (c : Conn)
    → NoForceOnWrite cb
    → Draining (m ∷ []) c
    → Drained (m ∷ []) c (step cb (write_done none len) c)
step_last cb len m c q r =
    rw (step_write cb len m [] c r.left) (write_last m c _ (popped-Popped cb len m [] c (q len) r))

step_more :
    (cb : Callbacks) (len : ℕ) (m m' : Message) (ms : List Message) (c : Conn)
    → NoForceOnWrite cb
    → Draining (m ∷ m' ∷ ms) c
    → let d = step cb (write_done none len) c in
      Draining (m' ∷ ms) d × (dequeued_of d.log ≡ dequeued_of c.log ++ m ∷ [])
step_more cb len m m' ms c q r =
    rw (step_write cb len m (m' ∷ ms) c r.left)
      (write_more m m' ms c _ (popped-Popped cb len m (m' ∷ ms) c (q len) r))

drain :
    (cb : Callbacks) (m : Message) (ms : List Message) (lens : List ℕ) (c : Conn)
    → NoForceOnWrite cb
    → length lens ≡ suc (length ms)
    → Draining (m ∷ ms) c
    → AllEnabled cb (writes lens) c × Drained (m ∷ ms) c (run cb (writes lens) c)
unfolding run
drain cb m ms [] c q l r = absurd (omega arith)
drain cb m [] (len ∷ []) c q l r = ((omega (arith, r.writing), tt), step_last cb len m c q r)
drain cb m [] (len ∷ len' ∷ lens) c q l r = absurd (omega arith)
drain cb m (m' ∷ ms) (len ∷ lens) c q l r =
    let (next, popped_m) = step_more cb len m m' ms c q r in
    let (enabled, done) =
      drain cb m' ms lens (step cb (write_done none len) c) q (omega arith) next in
    (
      (omega (arith, r.writing), enabled),
      (
        done.0,
        done.1,
        done.2
            ∙ ap (λ (l : List Message). l ++ m' ∷ ms) popped_m
            ∙ append_assoc (dequeued_of c.log) (m ∷ []) (m' ∷ ms),
      ),
    )

shutdown_empty :
    (callback : Bool) (c : Conn)
    → is_open c ≡ true
    → c.is_cleaned ≡ false
    → c.opt_shutdown ≡ false
    → c.opt_force_close ≡ false
    → c.output ≡ []
    → Drained [] c (shutdown true callback c).0
unfolding shutdown shutdown_in_loop connect_cleanup cleanup_once
shutdown_empty callback c o n s f e = ground (arith, append-nil (dequeued_of c.log))

shutdown_busy :
    (callback : Bool) (c : Conn) (m : Message) (ms : List Message)
    → Flow false c
    → is_open c ≡ true
    → c.is_cleaned ≡ false
    → c.opt_shutdown ≡ false
    → c.opt_force_close ≡ false
    → c.output ≡ m ∷ ms
    → Draining (m ∷ ms) (shutdown true callback c).0
      × (dequeued_of (shutdown true callback c).0.log ≡ dequeued_of c.log)
unfolding shutdown shutdown_in_loop
shutdown_busy callback c m ms v o n s f e = ground arith

shutdown_drains_from :
    (xs : List Message) (cb : Callbacks) (callback : Bool) (lens : List ℕ) (c : Conn)
    → NoForceOnWrite cb
    → Flow false c
    → is_open c ≡ true
    → c.is_cleaned ≡ false
    → c.opt_shutdown ≡ false
    → c.opt_force_close ≡ false
    → c.output ≡ xs
    → length lens ≡ length xs
    → let d = (shutdown true callback c).0 in
      AllEnabled cb (writes lens) d × Drained xs c (run cb (writes lens) d)
unfolding run
shutdown_drains_from [] cb callback [] c q v o n s f e l = (tt, shutdown_empty callback c o n s f e)
shutdown_drains_from [] cb callback (len ∷ lens) c q v o n s f e l = absurd (omega arith)
shutdown_drains_from (m ∷ ms) cb callback lens c q v o n s f e l =
    let (r, same) = shutdown_busy callback c m ms v o n s f e in
    let (enabled, done) = drain cb m ms lens (shutdown true callback c).0 q l r in
    (enabled, (done.0, done.1, done.2 ∙ ap (λ (l : List Message). l ++ m ∷ ms) same))

-- `shutdown` on the loop's thread, on an open connection of which no close was asked: if each of the
-- waiting messages is then written without an error, each completion finds a write under way, and
-- after the last of them every message ever accepted is finished, the queue is empty and the
-- connection is cleaned up. The write-complete callback does not force the close.
pub shutdown_drains :
    (cb : Callbacks) (callback : Bool) (lens : List ℕ) (c : Conn)
    → NoForceOnWrite cb
    → Flow false c
    → is_open c ≡ true
    → c.is_cleaned ≡ false
    → c.opt_shutdown ≡ false
    → c.opt_force_close ≡ false
    → length lens ≡ length c.output
    → let d = (shutdown true callback c).0 in
      let e = run cb (writes lens) d in
      AllEnabled cb (writes lens) d
      × (e.output ≡ [])
      × (e.is_cleaned ≡ true)
      × (dequeued_of e.log ≡ queued_of c.log)
shutdown_drains cb callback lens c q v o n s f l =
    let (enabled, done) = shutdown_drains_from c.output cb callback lens c q v o n s f refl l in
    (enabled, done.0, done.1, done.2 ∙ sym v.fifo)
