-- ===== src/Net/TimerQueue/Refine.antt =====
-- zysoft/net/timer_queue.h: the queue keeps the promise of its alarms.
use zysoft.Prelude.{
  ℕ, ◌+◌, ◌*◌, ◌^◌, ◌%◌, ◌≤◌, ◌<◌, ◌≡◌, refl, List, [], ◌∷◌, Option, none, some, false, arith,
  if◌then◌else◌, ◌==◌, leb, Bool-cases, Option-cases, inl, inr, subst, sym, ap, ◌∙◌, size_mod,
}
use zysoft.Timer.Wheel.{Wheel, Entry}
use zysoft.Timer.Wheel.Counts.{total}
use zysoft.Timer.Wheel.Filing.{duration_of}
use zysoft.Timer.Wheel.Cancel.{waiting_entry}
use zysoft.Timer.Wheel.Turn.{Timely}
use zysoft.Timer.Wheel.Deadlines.{add-Added, cancel-Cancelled, Rearmed, reset-Rearmed}
use zysoft.Net.TimerQueue.{
  TimerHandle, TimerQueue, queue_size, add_timer, reset_timer, cancel_timer, QueueCall, adds,
  resets, cancels, perform, perform_all, QueueEvent, calls, expires,
}
use zysoft.Net.TimerQueue.Alarms.{Alarm, Alarms, rearm, call_alarms, call_all}

-- The seconds of a timer are positive and fit into 32 bits.
abbrev pub SmallCall : QueueCall → Type 0
SmallCall (adds cb sec) = (1 ≤ sec) × (sec < 2 ^ 32)
SmallCall (resets h) = Unit {0}
SmallCall (cancels h) = Unit {0}

abbrev pub AllSmall : List QueueCall → Type 0
AllSmall [] = Unit {0}
AllSmall (x ∷ xs) = SmallCall x × AllSmall xs

abbrev pub SmallEvent : QueueEvent → Type 0
SmallEvent (calls x) = SmallCall x
SmallEvent (expires ec) = Unit {0}

abbrev pub AllSmallEvents : List QueueEvent → Type 0
AllSmallEvents [] = Unit {0}
AllSmallEvents (e ∷ es) = SmallEvent e × AllSmallEvents es

abbrev pub alarm_of : Option (Entry TimerHandle) → Option Alarm
alarm_of none = none
alarm_of (some e) = some (record { at = e.tick; every = e.duration; cb = e.value.cb })

abbrev pub alarm_at : Wheel TimerHandle → ℕ → Option Alarm
alarm_at w j = if leb 1 (total j w.slots) then alarm_of (w.store j) else none

abbrev pub SmallAlarm : Option Alarm → Type 0
SmallAlarm none = Unit {0}
SmallAlarm (some x) = x.every < 2 ^ 32 * 1000

abbrev pub NamedBy : ℕ → Option (Entry TimerHandle) → Type 0
NamedBy j none = Unit {0}
NamedBy j (some e) = e.value.hdl ≡ j

pub record Refines (q : TimerQueue) (a : Alarms) : Type 0 where
  pub timely : Timely queue_size q.wheel
  pub immediate : q.wheel.immediate ≡ []
  pub clock : q.wheel.current_tick ≡ a.now
  pub next : q.wheel.next ≡ a.next
  pub due : (j : ℕ) → alarm_at q.wheel j ≡ a.due j
  pub small : (j : ℕ) → SmallAlarm (a.due j)
  pub named : (j : ℕ) → NamedBy j (q.wheel.store j)
  pub fired : q.fired ≡ a.fired
  pub no_fault : q.fault ≡ false

cancel-Refines :
    (h : ℕ) (q : TimerQueue) (a : Alarms)
    → Refines q a
    → Refines (cancel_timer h q) (call_alarms (cancels h) a)
unfolding cancel_timer
cancel-Refines h q a r =
    let (w, e, c) = cancel-Cancelled queue_size h q.wheel r.timely (rw r.immediate refl) in
    rw e (record {
      timely = c.timely;
      immediate = c.immediate ∙ r.immediate;
      clock = c.clock ∙ r.clock;
      next = c.next ∙ r.next;
      due = λ j. ground (arith, c.totals j, c.store j, r.due j);
      small = λ j. elim (Bool-cases (h == j)) [ inl f ↦ rw f tt | inr f ↦ rw f (r.small j) ];
      named = λ j. subst (NamedBy j) (sym (c.store j)) (r.named j);
      fired = r.fired;
      no_fault = r.no_fault;
    })

rearm-SmallAlarm : (now : ℕ) (x : Option Alarm) → SmallAlarm x → SmallAlarm (rearm now x)
rearm-SmallAlarm now none s = tt
rearm-SmallAlarm now (some x) s = s

-- The entry of the handle that is reset.
alarm-rearm :
    (h : ℕ) (w w' : Wheel TimerHandle)
    → Timely queue_size w
    → Rearmed queue_size h w w'
    → NamedBy h (w.store h)
    → (alarm_at w' h ≡ rearm w.current_tick (alarm_at w h)) × NamedBy h (w'.store h)
alarm-rearm h w w' t c m = elim (Bool-cases (leb 1 (total h w.slots))) [
  | inl f ↦
      let there : 1 ≤ total h w.slots = ground arith in
      let (e, p, _) = waiting_entry queue_size h w t.valid there in
      let q = c.own e p there in
      let m' : NamedBy h (some e) = subst (NamedBy h) p m in (ground (arith, c.totals h), rw q m')
  | inr f ↦
      let gone : total h w.slots ≡ 0 = ground arith in
      (ground (arith, c.totals h), rw (c.idle gone) m)
]

reset-Refines :
    (h : ℕ) (q : TimerQueue) (a : Alarms)
    → a.now < 2 ^ 63
    → Refines q a
    → Refines (reset_timer h q) (call_alarms (resets h) a)
unfolding reset_timer
reset-Refines h q a b r =
    let bound : 1 ≤ total h q.wheel.slots
        → q.wheel.current_tick + duration_of (q.wheel.store h) < size_mod =
      λ c. elim (Option-cases (q.wheel.store h)) [
        | inl e ↦ rw e (omega (arith, r.clock))
        | inr (x, e) ↦ rw e (ground (arith, r.clock, r.due h, r.small h, e))
      ] in
    let (w, e, c) = reset-Rearmed queue_size h q.wheel r.timely bound in
    let (alarm, named) = alarm-rearm h q.wheel w r.timely c (r.named h) in
    rw e (record {
      timely = c.timely;
      immediate = c.immediate ∙ r.immediate;
      clock = c.clock ∙ r.clock;
      next = c.next ∙ r.next;
      due = λ j. elim (Bool-cases (h == j)) [
        | inl f ↦
            let p : h ≡ j = ground arith in
            rw f (
              subst (λ x. alarm_at w x ≡ rearm a.now (a.due x)) p
                (alarm
                  ∙ ap (λ t. rearm t (alarm_at q.wheel h)) r.clock
                  ∙ ap (rearm a.now) (r.due h)))
        | inr f ↦ rw f (ground (arith, c.totals j, c.others j f, r.due j))
      ];
      small = λ j. elim (Bool-cases (h == j)) [
        | inl f ↦ rw f (rearm-SmallAlarm a.now (a.due j) (r.small j))
        | inr f ↦ rw f (r.small j)
      ];
      named = λ j. elim (Bool-cases (h == j)) [
        | inl f ↦ let p : h ≡ j = ground arith in subst (λ x. NamedBy x (w.store x)) p named
        | inr f ↦ subst (NamedBy j) (sym (c.others j f)) (r.named j)
      ];
      fired = r.fired;
      no_fault = r.no_fault;
    })

add-Refines :
    (cb sec : ℕ) (q : TimerQueue) (a : Alarms)
    → 1 ≤ sec
    → sec < 2 ^ 32
    → a.now < 2 ^ 63
    → Refines q a
    → Refines (add_timer cb sec q).0 (call_alarms (adds cb sec) a)
unfolding add_timer
add-Refines cb sec q a o l b r =
    let d : sec * 1000 % size_mod ≡ sec * 1000 = omega arith in
    let p : TimerHandle = record { cb = cb; hdl = q.wheel.next } in
    let (w, e, c) =
      add-Added queue_size p (sec * 1000) q.wheel (omega arith) (omega (arith, r.clock)) r.timely in
    rw (d, e)
      (record {
        timely = c.timely;
        immediate = c.immediate ∙ r.immediate;
        clock = c.clock ∙ r.clock;
        next = ground (arith, c.next, r.next);
        due = λ j. elim (Bool-cases (q.wheel.next == j)) [
          | inl f ↦
              let k : q.wheel.next ≡ j = ground arith in
              let own : w.store j
                  ≡ some (record {
                    tick = q.wheel.current_tick + sec * 1000;
                    duration = sec * 1000;
                    value = p;
                  }) =
                rw (← k) c.own in
              ground (arith, c.totals j, own, r.next, r.clock)
          | inr f ↦ ground (arith, c.totals j, c.others j f, r.next, r.due j)
        ];
        small = λ j. elim (Bool-cases (a.next == j)) [
          | inl f ↦ rw f (omega arith)
          | inr f ↦ rw f (r.small j)
        ];
        named = λ j. elim (Bool-cases (q.wheel.next == j)) [
          | inl f ↦
              let k : q.wheel.next ≡ j = ground arith in
              subst (λ x. NamedBy x (w.store x)) k (rw c.own refl)
          | inr f ↦ subst (NamedBy j) (sym (c.others j f)) (r.named j)
        ];
        fired = r.fired;
        no_fault = r.no_fault;
      })

pub perform-Refines :
    (x : QueueCall) (q : TimerQueue) (a : Alarms)
    → SmallCall x
    → a.now < 2 ^ 63
    → Refines q a
    → Refines (perform x q) (call_alarms x a) × ((call_alarms x a).now ≡ a.now)
unfolding perform
perform-Refines (adds cb sec) q a s b r = (add-Refines cb sec q a s.0 s.1 b r, refl)
perform-Refines (resets h) q a s b r = (reset-Refines h q a b r, refl)
perform-Refines (cancels h) q a s b r = (cancel-Refines h q a r, refl)

pub perform_all-Refines :
    (xs : List QueueCall) (q : TimerQueue) (a : Alarms)
    → AllSmall xs
    → a.now < 2 ^ 63
    → Refines q a
    → Refines (perform_all xs q) (call_all xs a) × ((call_all xs a).now ≡ a.now)
unfolding perform_all
perform_all-Refines [] q a s b r = (r, refl)
perform_all-Refines (x ∷ xs) q a s b r =
    let (r', e) = perform-Refines x q a s.0 b r in
    let (r'', e') = perform_all-Refines xs (perform x q) (call_alarms x a) s.1 (rw e b) r' in
    (r'', e' ∙ e)
