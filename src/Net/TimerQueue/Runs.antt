-- ===== src/Net/TimerQueue/Runs.antt =====
-- zysoft/net/timer_queue.h: runs of the queue, with the callbacks that call it back.
use zysoft.Prelude.{
  ℕ, ◌+◌, ◌^◌, ◌≤◌, ◌<◌, ◌≡◌, refl, List, [], ◌∷◌, Option, none, some, false, arith, length, subst,
  sym, ◌∙◌, size_mod,
}
use zysoft.Net.Types.{ErrorCode}
use zysoft.Timer.Wheel
use zysoft.Timer.Wheel.{Wheel, Entry, collect, tick, get_expired, expired_at}
use zysoft.Timer.Wheel.Counts.{count}
use zysoft.Timer.Wheel.Turn.{turn, create-Timely}
use zysoft.Net.TimerQueue.{
  TimerHandle, TimerQueue, queue_size, create, QueueCall, perform_all, QueueEvent, calls, expires,
  fire, turn_wheel, handle_on_timer, step, run,
}
use zysoft.Net.TimerQueue.Alarms.{
  Alarms, no_alarms, call_alarms, call_all, pass, ring_one, ring_all, Steps, Reaches,
}
use zysoft.Net.TimerQueue.Refine.{
  AllSmall, SmallEvent, AllSmallEvents, alarm_of, alarm_at, Refines, perform-Refines,
  perform_all-Refines,
}
use zysoft.Net.TimerQueue.Turns.{
  turned-Refines, taken-AreDue, taken_entry, expired_of, collect-some, record_fired, waited-Refines,
}

module _ (callback : ℕ → ℕ → List QueueCall) (small : (cb d : ℕ) → AllSmall (callback cb d)) where
  fire-Refines :
      (store : ℕ → Option (Entry TimerHandle)) (js : List ℕ) (before : Alarms) (q : TimerQueue)
      (a : Alarms)
      → ((j : ℕ)
          → 1 ≤ count j js
          → (e : Entry TimerHandle) × (store j ≡ some e)
            × (e.value.hdl ≡ j)
            × (before.due j ≡ alarm_of (some e)))
      → a.now < 2 ^ 63
      → Refines q a
      → Refines (fire callback (collect store js) q) (ring_all callback js before a)
        × ((ring_all callback js before a).now ≡ a.now)
  unfolding fire collect
  fire-Refines store [] before q a f b r = (r, refl)
  fire-Refines store (j ∷ js) before q a f b r =
      let here : 1 ≤ count j (j ∷ js) = ground arith in
      let (e, p, n, u) = f j here in
      let d = e.duration in
      let x = e.value.cb in
      let q' : TimerQueue = record q { fired = (e.value.hdl, d) ∷ q.fired } in
      let a' : Alarms = record a { fired = (j, d) ∷ a.fired } in
      let (r', k) =
        perform_all-Refines (callback x d) q' a' (small x d) b
          (record_fired j e.value.hdl d q a n r) in
      let (r'', k') =
        fire-Refines store js before (perform_all (callback x d) q') (call_all (callback x d) a')
          (λ i c. f i (omega arith)) (rw k b) r' in
      subst
        (λ o.
          Refines (fire callback (collect store (j ∷ js)) q)
            (ring_all callback js before (ring_one callback j o a))
          × ((ring_all callback js before (ring_one callback j o a)).now ≡ a.now))
        (sym u)
        (subst
          (λ ps.
            Refines (fire callback ps q)
              (ring_all callback js before (ring_one callback j (alarm_of (some e)) a))
            × ((ring_all callback js before (ring_one callback j (alarm_of (some e)) a)).now
                ≡ a.now))
          (sym (collect-some store j js e p)) (r'', k' ∙ k))

  expires-Refines :
      (ec : Option ErrorCode) (q : TimerQueue) (a : Alarms)
      → a.now + 1 < 2 ^ 63
      → Refines q a
      → (b : Alarms) × Steps callback (expires ec) a b
        × Refines (handle_on_timer callback ec q) b
        × (b.now ≤ a.now + 1)
  unfolding handle_on_timer turn_wheel
  expires-Refines (some ec) q a b r = (a, refl, waited-Refines q a r, omega arith)
  expires-Refines none q a b r =
      let w = q.wheel in
      let js = expired_at queue_size (w.current_tick + 1) (tick w) in
      let small' : a.now + 1 < size_mod = omega arith in
      let (r', k) =
        fire-Refines w.store js a (record q { wheel = (turn queue_size w).0 }) (pass a)
          (λ j c. taken_entry q a j small' r c) b (turned-Refines q a small' r) in
      (
        ring_all callback js a (pass a),
        (js, taken-AreDue q a small' r, refl),
        waited-Refines _ _ (rw (expired_of w (omega (arith, r.clock))) r'),
        omega (arith, k),
      )

  step-Refines :
      (e : QueueEvent) (q : TimerQueue) (a : Alarms)
      → SmallEvent e
      → a.now + 1 < 2 ^ 63
      → Refines q a
      → (b : Alarms) × Steps callback e a b × Refines (step callback e q) b × (b.now ≤ a.now + 1)
  unfolding step
  step-Refines (calls x) q a s b r =
      let (r', k) = perform-Refines x q a s (omega arith) r in
      (call_alarms x a, refl, r', omega (arith, k))
  step-Refines (expires ec) q a s b r = expires-Refines ec q a b r

  run-Refines :
      (es : List QueueEvent) (q : TimerQueue) (a : Alarms)
      → AllSmallEvents es
      → a.now + length es < 2 ^ 63
      → Refines q a
      → (b : Alarms) × Reaches callback es a b × Refines (run callback es q) b
  unfolding run
  run-Refines [] q a s b r = (a, refl, r)
  run-Refines (e ∷ es) q a s b r =
      let (m, t, r', k) = step-Refines e q a s.0 (omega arith) r in
      let (z, u, r'') = run-Refines es (step callback e q) m s.1 (omega arith) r' in
      (z, (m, t, u), r'')

  created-Refines : Refines create no_alarms
  unfolding create Wheel.create
  created-Refines = record {
    timely = create-Timely queue_size (omega arith);
    immediate = refl;
    clock = refl;
    next = refl;
    due = λ j. refl;
    small = λ j. tt;
    named = λ j. tt;
    fired = refl;
    no_fault = refl;
  }

  -- Every run of fewer than 2 ^ 63 events of a new timer queue, where the timers' seconds are positive
  -- and below 2 ^ 32, also those that the callbacks add, is one of its alarms: no assertion fails; a timer rings once, at the tick
  -- 1000 times its seconds after it was added or last reset, unless it is cancelled before, and
  -- timers of one tick in some order; and the queue has called the callbacks that the alarms have, in the same order.
  pub queue_refines_alarms :
      (es : List QueueEvent)
      → AllSmallEvents es
      → length es < 2 ^ 63
      → (b : Alarms) × Reaches callback es no_alarms b
        × ((run callback es create).fault ≡ false)
        × ((run callback es create).fired ≡ b.fired)
        × ((j : ℕ) → alarm_at (run callback es create).wheel j ≡ b.due j)
  queue_refines_alarms es s l =
      let (b, t, r) = run-Refines es create no_alarms s (omega arith) created-Refines in
      (b, t, r.no_fault, r.fired, r.due)
