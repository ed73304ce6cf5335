-- ===== src/Net/TimerQueue/Alarms.antt =====
-- zysoft/net/timer_queue.h: what a timer queue promises, without the wheel: a map from handles to alarms. Alarms
-- that are due at one tick ring in any order.
use zysoft.Prelude.{
  ℕ, ◌+◌, ◌*◌, ◌≡◌, List, [], ◌∷◌, Option, none, some, Bool, false, if◌then◌else◌, ◌==◌,
}
use zysoft.Timer.Wheel.Counts.{count}
use zysoft.Net.TimerQueue.{QueueCall, adds, resets, cancels, QueueEvent, calls, expires}

pub record Alarm : Type 0 where
  pub at : ℕ
  pub every : ℕ
  pub cb : ℕ

pub record Alarms : Type 0 where
  pub now : ℕ
  pub next : ℕ
  pub due : ℕ → Option Alarm
  pub fired : List (ℕ × ℕ)

abbrev pub no_alarms : Alarms
no_alarms = record { now = 0; next = 0; due = λ j. none; fired = [] }

abbrev pub rings : Option Alarm → ℕ → Bool
rings none t = false
rings (some x) t = x.at == t

abbrev pub rearm : ℕ → Option Alarm → Option Alarm
rearm now none = none
rearm now (some x) = some (record x { at = now + x.every })

abbrev pub call_alarms : QueueCall → Alarms → Alarms
call_alarms (adds cb sec) a = record a {
  due = λ j.
      if a.next == j
      then some (record { at = a.now + sec * 1000; every = sec * 1000; cb = cb })
      else a.due j;
  next = a.next + 1;
}
call_alarms (resets h) a = record a { due = λ j. if h == j then rearm a.now (a.due j) else a.due j }
call_alarms (cancels h) a = record a { due = λ j. if h == j then none else a.due j }

abbrev pub call_all : List QueueCall → Alarms → Alarms
call_all [] a = a
call_all (x ∷ xs) a = call_all xs (call_alarms x a)

-- The next tick, at which the alarms of that tick are no longer due.
abbrev pub pass : Alarms → Alarms
pass a = record a {
  now = a.now + 1;
  due = λ j. if rings (a.due j) (a.now + 1) then none else a.due j;
}

-- `js` are the alarms of the next tick, each once.
abbrev pub AreDue : List ℕ → Alarms → Type 0
AreDue js a = (j : ℕ) → count j js ≡ (if rings (a.due j) (a.now + 1) then 1 else 0)

module _ (callback : ℕ → ℕ → List QueueCall) where
  abbrev pub ring_one : ℕ → Option Alarm → Alarms → Alarms
  ring_one j none a = a
  ring_one j (some x) a =
      call_all (callback x.cb x.every) (record a { fired = (j, x.every) ∷ a.fired })

  -- The alarms `js` of `before` ring, in this order.
  abbrev pub ring_all : List ℕ → Alarms → Alarms → Alarms
  ring_all [] before a = a
  ring_all (j ∷ js) before a = ring_all js before (ring_one j (before.due j) a)

  abbrev pub Steps : QueueEvent → Alarms → Alarms → Type 0
  Steps (calls x) a b = b ≡ call_alarms x a
  Steps (expires (some ec)) a b = b ≡ a
  Steps (expires none) a b = (js : List ℕ) × AreDue js a × (b ≡ ring_all js a (pass a))

  abbrev pub Reaches : List QueueEvent → Alarms → Alarms → Type 0
  Reaches [] a b = b ≡ a
  Reaches (e ∷ es) a b = (m : Alarms) × Steps e a m × Reaches es m b
