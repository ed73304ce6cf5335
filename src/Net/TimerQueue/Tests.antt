-- ===== src/Net/TimerQueue/Tests.antt =====
-- zysoft/net/timer_queue.h: a run of a queue whose callbacks call it.
use zysoft.Prelude.{ℕ, ◌≡◌, List, [], ◌∷◌, none, some, false, arith}
use zysoft.Net.Types.{eof}
use zysoft.Net.TimerQueue.{
  QueueCall, adds, resets, cancels, QueueEvent, calls, expires, create, run,
}
use zysoft.Net.TimerQueue.Alarms.{Alarms, no_alarms, Reaches}
use zysoft.Net.TimerQueue.Refine.{AllSmall, alarm_at}
use zysoft.Net.TimerQueue.Runs.{queue_refines_alarms}

-- The callback sets a timer of its own number of seconds, and stops the timer 2.
abbrev chain : ℕ → ℕ → List QueueCall
chain cb d = adds cb 3 ∷ cancels 2 ∷ []

chain-AllSmall : (cb d : ℕ) → AllSmall (chain cb d)
chain-AllSmall cb d = ((omega arith, omega arith), (tt, tt))

abbrev few_events : List QueueEvent
few_events =
    calls (adds 7 1)
    ∷ expires none
    ∷ calls (adds 8 2)
    ∷ expires (some eof)
    ∷ calls (resets 0)
    ∷ calls (cancels 1)
    ∷ expires none
    ∷ []

queue_refines_alarms_example :
    (b : Alarms) × Reaches chain few_events no_alarms b
    × ((run chain few_events create).fault ≡ false)
    × ((run chain few_events create).fired ≡ b.fired)
    × ((j : ℕ) → alarm_at (run chain few_events create).wheel j ≡ b.due j)
queue_refines_alarms_example =
    queue_refines_alarms chain chain-AllSmall few_events
      ((omega arith, omega arith), (tt, ((omega arith, omega arith), (tt, (tt, (tt, (tt, tt)))))))
      (omega arith)
