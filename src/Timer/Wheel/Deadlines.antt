-- ===== src/Timer/Wheel/Deadlines.antt =====
-- zysoft/zysoft/timer/timing_wheel.h: what every operation does to the entries that wait, and when they are due.
use zysoft.Prelude.{
  ℕ, ◌+◌, ◌%◌, ◌≤◌, ◌<◌, ◌≡◌, refl, [], some, false, arith, if◌then◌else◌, ◌==◌, leb, length,
  get_or, set, Bool-cases, inl, inr, ap, add_size, size_mod, ◌∙◌,
}
use native.Mathlib.Nat.{mod-lt}
use zysoft.Timer.Wheel.{
  Entry, Wheel, insert_entry, later, erase, slot_at, cancel, restart, reset, tick, get_expired, add,
  add_waiting,
}
use zysoft.Timer.Wheel.Counts.{count, total, member-count, count-insert_entry, total-set, due-later}
use zysoft.Timer.Wheel.Filing.{tick_of, duration_of}
use zysoft.Timer.Wheel.Sorted.{AllSorted-get, AllSorted-set, Sorted-insert}
use zysoft.Timer.Wheel.Valid.{unused}
use zysoft.Timer.Wheel.Cancel.{
  Removed, remove_from_slot-Removed, lock_lem, waiting_entry, erased-Inv,
}
use zysoft.Timer.Wheel.Reset.{restart-Inv, reset_of_waiting, reset_of_other}
use zysoft.Timer.Wheel.Punctual.{add_waiting-Timely, add_waiting-total}
use zysoft.Timer.Wheel.Turn.{Timely, due_now, turn, add_size_small}

module _ {A : Type 0} (n : ℕ) where
  -- `w'` is `w` with the value `v` that waits for the duration `d`.
  pub record Added (v : A) (d : ℕ) (w w' : Wheel A) : Type 0 where
    pub timely : Timely n w'
    pub totals : (j : ℕ) → total j w'.slots ≡ (if w.next == j then 1 else total j w.slots)
    pub own : w'.store w.next ≡ some (record { tick = w.current_tick + d; duration = d; value = v })
    pub others : (j : ℕ) → (w.next == j) ≡ false → w'.store j ≡ w.store j
    pub immediate : w'.immediate ≡ w.immediate
    pub next : w'.next ≡ w.next + 1
    pub clock : w'.current_tick ≡ w.current_tick

  pub add-Added :
      (v : A) (d : ℕ) (w : Wheel A)
      → 1 ≤ d
      → w.current_tick + d < size_mod
      → Timely n w
      → (w' : Wheel A) × (add n v d w ≡ (w', w.next)) × Added v d w w'
  unfolding add add_waiting
  add-Added v d w o p t =
      let e : (d == 0) ≡ false = ground arith in
      (
        add_waiting n v d w,
        rw e refl,
        record {
          timely = add_waiting-Timely n v d w o p t;
          totals = λ j. ground (arith, add_waiting-total n v d w j t.valid, unused n w t.valid);
          own = ground arith;
          others = λ j q. ground arith;
          immediate = refl;
          next = refl;
          clock = refl;
        },
      )

  -- `w'` is `w` without the entry `h`.
  pub record Cancelled (h : ℕ) (w w' : Wheel A) : Type 0 where
    pub timely : Timely n w'
    pub totals : (j : ℕ) → total j w'.slots ≡ (if h == j then 0 else total j w.slots)
    pub store : (j : ℕ) → w'.store j ≡ w.store j
    pub immediate : w'.immediate ≡ w.immediate
    pub next : w'.next ≡ w.next
    pub clock : w'.current_tick ≡ w.current_tick

  taken_out-Cancelled :
      (h : ℕ) (w w' : Wheel A)
      → Timely n w
      → 1 ≤ total h w.slots
      → Removed n h w w'
      → Cancelled h w (record w' { all = erase h w'.all })
  taken_out-Cancelled h w w' t c r = record {
    timely = record {
      valid = erased-Inv n h w w' t.valid c r;
      sorted = r.sorted t.sorted;
      ahead = λ j p. ground (arith, t.ahead j, r.totals j, r.same_store j, r.same_tick);
    };
    totals = λ j. ground (arith, r.totals j, t.valid.joined h, t.valid.once h);
    store = r.same_store;
    immediate = r.same_immediate;
    next = r.same_next;
    clock = r.same_tick;
  }

  pub cancel-Cancelled :
      (h : ℕ) (w : Wheel A)
      → Timely n w
      → count h w.immediate ≡ 0
      → (w' : Wheel A) × (cancel n h w ≡ some w') × Cancelled h w w'
  unfolding cancel
  cancel-Cancelled h w t z = elim (Bool-cases (leb 1 (count h w.all))) [
    | inl p ↦
        let c : 1 ≤ total h w.slots = ground (arith, t.valid.joined h) in
        let (e, held, _) = waiting_entry n h w t.valid c in
        let (w', q, r) = remove_from_slot-Removed n h e w t.valid held c in
        (
          record w' { all = erase h w'.all },
          ground (arith, lock_lem n h w t.valid, member-count h w.all),
          taken_out-Cancelled h w w' t c r,
        )
    | inr p ↦ (
      w,
      ground (arith, lock_lem n h w t.valid, member-count h w.all),
      record {
        timely = t;
        totals = λ j. ground (arith, t.valid.joined h);
        store = λ j. refl;
        immediate = refl;
        next = refl;
        clock = refl;
      },
    )
  ]

  -- `w'` is `w` with the entry `h`, if it waits, due its duration from now.
  pub record Rearmed (h : ℕ) (w w' : Wheel A) : Type 0 where
    pub timely : Timely n w'
    pub totals : (j : ℕ) → total j w'.slots ≡ total j w.slots
    pub own :
        (e : Entry A)
        → w.store h ≡ some e
        → 1 ≤ total h w.slots
        → w'.store h ≡ some (record e { tick = w.current_tick + e.duration })
    pub others : (j : ℕ) → (h == j) ≡ false → w'.store j ≡ w.store j
    pub idle : total h w.slots ≡ 0 → w'.store h ≡ w.store h
    pub immediate : w'.immediate ≡ w.immediate
    pub next : w'.next ≡ w.next
    pub clock : w'.current_tick ≡ w.current_tick

  restarted-Rearmed :
      (h : ℕ) (e : Entry A) (w w' : Wheel A)
      → Timely n w
      → 1 ≤ total h w.slots
      → w.store h ≡ some e
      → 1 ≤ e.duration
      → w.current_tick + e.duration < size_mod
      → Removed n h w w'
      → Rearmed h w (restart n h e w')
  unfolding restart slot_at
  restarted-Rearmed h e w w' t c p d b r =
      let k = add_size e.duration w'.current_tick in
      let s = get_or w'.slots (k % n) [] in
      let now : k ≡ w.current_tick + e.duration = omega (arith, r.same_tick) in
      let inside : k % n < length w'.slots = omega (arith, r.shape, mod-lt k t.valid.positive) in
      let totals : (j : ℕ) → total j (set w'.slots (k % n) (insert_entry k h s)) ≡ total j w.slots =
        λ j. omega (
          arith,
          total-set j w'.slots (k % n) (insert_entry k h s) inside,
          count-insert_entry j k h s,
          r.totals j,
        ) in
      record {
        timely = record {
          valid = restart-Inv n h e w w' t.valid c p d r;
          sorted =
              AllSorted-set (k % n) _ w'.slots
                (Sorted-insert k h s (AllSorted-get (k % n) w'.slots (r.sorted t.sorted)))
                (r.sorted t.sorted);
          ahead = λ j q. ground (arith, totals j, t.ahead j, r.same_store j, r.same_tick);
        };
        totals = totals;
        own = λ e' p' c'. ground (arith, p, p');
        others = λ j q. ground (arith, r.same_store j);
        idle = λ z. absurd (omega arith);
        immediate = r.same_immediate;
        next = r.same_next;
        clock = r.same_tick;
      }

  unchanged-Rearmed :
      (h : ℕ) (w : Wheel A)
      → Timely n w
      → ((e : Entry A)
          → w.store h ≡ some e
          → 1 ≤ total h w.slots
          → e.tick ≡ w.current_tick + e.duration)
      → Rearmed h w w
  unchanged-Rearmed h w t f = record {
    timely = t;
    totals = λ j. refl;
    own = λ e p c. ground (arith, p, f e p c);
    others = λ j q. refl;
    idle = λ z. refl;
    immediate = refl;
    next = refl;
    clock = refl;
  }

  pub reset-Rearmed :
      (h : ℕ) (w : Wheel A)
      → Timely n w
      → (1 ≤ total h w.slots → w.current_tick + duration_of (w.store h) < size_mod)
      → (w' : Wheel A) × (reset n h w ≡ some w') × Rearmed h w w'
  reset-Rearmed h w t b = elim (Bool-cases (leb 1 (total h w.slots))) [
    | inl c ↦
        let there : 1 ≤ total h w.slots = ground arith in
        let (e, p, d) = waiting_entry n h w t.valid there in
        let small : w.current_tick + e.duration < size_mod =
          omega (arith, b there, ap duration_of p) in
        elim (Bool-cases (e.tick == add_size e.duration w.current_tick)) [
          | inl same ↦ (
            w,
            reset_of_waiting n h e w t.valid p d (omega (arith, t.valid.joined h)) ∙ simp same refl,
            unchanged-Rearmed h w t (λ e' p' c'. ground (arith, p, p')),
          )
          | inr other ↦
              let (w', q, r) = remove_from_slot-Removed n h e w t.valid p there in
              (
                restart n h e w',
                ground
                    (arith, reset_of_waiting n h e w t.valid p d (omega (arith, t.valid.joined h))),
                restarted-Rearmed h e w w' t there p d small r,
              )
        ]
    | inr c ↦ (
      w,
      reset_of_other n h w t.valid (ground arith),
      unchanged-Rearmed h w t (λ e' p' c'. absurd (ground arith)),
    )
  ]

  -- A turn takes the entries that are due out of the slots, and leaves the others.
  pub turn_totals :
      (w : Wheel A) (j : ℕ)
      → Timely n w
      → w.current_tick + 1 < size_mod
      → (total j (turn n w).0.slots
          ≡ (if tick_of (w.store j) == w.current_tick + 1 then 0 else total j w.slots))
        × ((turn n w).0.store j ≡ w.store j)
        × ((turn n w).0.immediate ≡ [])
        × ((turn n w).0.next ≡ w.next)
  unfolding turn tick get_expired slot_at
  turn_totals w j c p =
      let t = add_size w.current_tick 1 in
      let s = get_or w.slots (t % n) [] in
      (
        ground (
          arith,
          due_now n w j t c (add_size_small w.current_tick 1 p),
          due-later j t s,
          total-set j w.slots (t % n) (later t s)
              (omega (arith, c.valid.shape, mod-lt t c.valid.positive)),
        ),
        refl,
        refl,
        refl,
      )
