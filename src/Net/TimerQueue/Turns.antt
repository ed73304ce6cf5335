-- ===== src/Net/TimerQueue/Turns.antt =====
-- zysoft/net/timer_queue.h: a turn of the wheel takes out the alarms of its tick.
use zysoft.Prelude.{
  ℕ, ◌+◌, ◌≤◌, ◌<◌, ◌≡◌, refl, List, ◌∷◌, Option, some, arith, Bool-cases, Option-cases, inl, inr,
  subst, sym, ap₂, ◌∙◌, size_mod,
}
use zysoft.Timer.Wheel.{Wheel, Entry, collect, tick, get_expired, expired_at}
use zysoft.Timer.Wheel.Counts.{count, total}
use zysoft.Timer.Wheel.Turn.{turn, turn-Timely, turn-current, add_size_small, turn_takes_due}
use zysoft.Timer.Wheel.Cancel.{waiting_entry}
use zysoft.Timer.Wheel.Deadlines.{turn_totals}
use zysoft.Net.TimerQueue.{TimerHandle, TimerQueue, queue_size, reg_timer}
use zysoft.Net.TimerQueue.Alarms.{Alarms, rings, pass, AreDue}
use zysoft.Net.TimerQueue.Refine.{alarm_of, NamedBy, Refines}

pub turned-Refines :
    (q : TimerQueue) (a : Alarms)
    → a.now + 1 < size_mod
    → Refines q a
    → Refines (record q { wheel = (turn queue_size q.wheel).0 }) (pass a)
turned-Refines q a b r =
    let w = q.wheel in
    let small : w.current_tick + 1 < size_mod = omega (arith, r.clock) in
    let totals = λ (j : ℕ). turn_totals queue_size w j r.timely small in
    record {
      timely = turn-Timely queue_size w r.timely small;
      immediate = (totals 0).2;
      clock = omega (arith, turn-current queue_size w small, r.clock);
      next = (totals 0).3 ∙ r.next;
      due = λ j. elim (Option-cases (w.store j)) [
        | inl p ↦ ground (arith, totals j, r.due j)
        | inr (e, p) ↦ ground (arith, totals j, r.due j, r.clock)
      ];
      small = λ j. elim (Bool-cases (rings (a.due j) (a.now + 1))) [
        | inl p ↦ rw p tt
        | inr p ↦ rw p (r.small j)
      ];
      named = λ j. subst (NamedBy j) (sym (totals j).1) (r.named j);
      fired = r.fired;
      no_fault = r.no_fault;
    }

-- What the turn takes out are the alarms that are due.
pub taken-AreDue :
    (q : TimerQueue) (a : Alarms)
    → a.now + 1 < size_mod
    → Refines q a
    → AreDue (expired_at queue_size (q.wheel.current_tick + 1) (tick q.wheel)) a
taken-AreDue q a b r j =
    let w = q.wheel in
    let small : w.current_tick + 1 < size_mod = omega (arith, r.clock) in
    let taken = turn_takes_due queue_size w j r.timely small in
    let once : total j w.slots ≤ 1 =
      omega (arith, r.timely.valid.joined j, r.timely.valid.once j) in
    elim (Option-cases (w.store j)) [
      | inl p ↦ ground (arith, taken, r.immediate, r.due j)
      | inr (e, p) ↦ ground (arith, taken, r.immediate, r.due j, r.clock, once)
    ]

-- An entry that the turn takes out.
pub taken_entry :
    (q : TimerQueue) (a : Alarms) (j : ℕ)
    → a.now + 1 < size_mod
    → Refines q a
    → 1 ≤ count j (expired_at queue_size (q.wheel.current_tick + 1) (tick q.wheel))
    → (e : Entry TimerHandle) × (q.wheel.store j ≡ some e)
      × (e.value.hdl ≡ j)
      × (a.due j ≡ alarm_of (some e))
taken_entry q a j b r c =
    let w = q.wheel in
    let small : w.current_tick + 1 < size_mod = omega (arith, r.clock) in
    let there : 1 ≤ total j w.slots =
      ground (arith, turn_takes_due queue_size w j r.timely small, r.immediate) in
    let (e, p, _) = waiting_entry queue_size j w r.timely.valid there in
    let named : NamedBy j (some e) = subst (NamedBy j) p (r.named j) in
    (e, p, named, ground (arith, r.due j))

pub expired_of :
    (w : Wheel TimerHandle)
    → w.current_tick + 1 < size_mod
    → (turn queue_size w).1 ≡ collect w.store (expired_at queue_size (w.current_tick + 1) (tick w))
unfolding turn tick get_expired
expired_of w b = rw (add_size_small w.current_tick 1 b) refl

pub collect-some :
    (store : ℕ → Option (Entry TimerHandle)) (j : ℕ) (js : List ℕ) (e : Entry TimerHandle)
    → store j ≡ some e
    → collect store (j ∷ js) ≡ (e.value, e.duration) ∷ collect store js
unfolding collect
collect-some store j js e p = ground arith

pub record_fired :
    (j h d : ℕ) (q : TimerQueue) (a : Alarms)
    → h ≡ j
    → Refines q a
    → Refines (record q { fired = (h, d) ∷ q.fired }) (record a { fired = (j, d) ∷ a.fired })
record_fired j h d q a n r = record {
  timely = r.timely;
  immediate = r.immediate;
  clock = r.clock;
  next = r.next;
  due = r.due;
  small = r.small;
  named = r.named;
  fired = ap₂ (λ x xs. (x, d) ∷ xs) n r.fired;
  no_fault = r.no_fault;
}

pub waited-Refines : (q : TimerQueue) (a : Alarms) → Refines q a → Refines (reg_timer q) a
waited-Refines q a r = record {
  timely = r.timely;
  immediate = r.immediate;
  clock = r.clock;
  next = r.next;
  due = r.due;
  small = r.small;
  named = r.named;
  fired = r.fired;
  no_fault = r.no_fault;
}
