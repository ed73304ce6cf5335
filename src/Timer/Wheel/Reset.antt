-- ===== src/Timer/Wheel/Reset.antt =====
-- zysoft/zysoft/timer/timing_wheel.h: `reset` and `clear`.
use zysoft.Prelude.{
  ℕ, suc, ◌%◌, ◌≤◌, ◌<◌, ◌≡◌, refl, List, [], ◌∷◌, Option, none, some, arith, if◌then◌else◌, ◌==◌,
  length, get_or, length-set, map, Bool-cases, Option-cases, ◌∙◌, inl, inr, add_size, leb, ap,
}
use native.Mathlib.Nat.{mod-lt}
use zysoft.Timer.Wheel.{
  Entry, Slot, Wheel, insert_entry, wheel_entries_count, slot_at, remove_from_slot, restart, reset,
  clear,
}
use zysoft.Timer.Wheel.Counts.{
  count, total, member-count, count-insert_entry, length-insert_entry, total-set,
  wheel_entries_count-set,
}
use zysoft.Timer.Wheel.Filing.{tick_of, duration_of, SlotsOk}
use zysoft.Timer.Wheel.Valid.{Inv, filed-put}
use zysoft.Timer.Wheel.Cancel.{Removed, remove_from_slot-Removed, lock_lem, waiting_entry}

total-clear : (j : ℕ) (ss : List Slot) → total j (map (λ s. []) ss) ≡ 0
total-clear j [] = refl
total-clear j (s ∷ ss) = omega (arith, total-clear j ss)

sizes-clear : (ss : List Slot) → wheel_entries_count (map (λ s. []) ss) ≡ 0
unfolding wheel_entries_count
sizes-clear [] = refl
sizes-clear (s ∷ ss) = omega (arith, sizes-clear ss)

length-clear : (ss : List Slot) → length {A = Slot} (map (λ s. []) ss) ≡ length ss
length-clear [] = refl
length-clear (s ∷ ss) = ap suc (length-clear ss)

module _ {A : Type 0} (n : ℕ) where
  filed-clear :
      (store : ℕ → Option (Entry A)) (i : ℕ) (ss : List Slot) → SlotsOk n store i (map (λ s. []) ss)
  filed-clear store i [] = tt
  filed-clear store i (s ∷ ss) = (tt, filed-clear store (suc i) ss)

  -- `clear` keeps the invariant and leaves no entry.
  pub clear-Inv :
      (w : Wheel A)
      → Inv n w
      → Inv n (clear n w) × ((clear n w).all ≡ []) × ((clear n w).current_tick ≡ 0)
  unfolding clear
  clear-Inv w v = (
    record {
      positive = v.positive;
      shape = omega (arith, v.shape, length-clear w.slots);
      filed = filed-clear w.store 0 w.slots;
      joined = λ j. omega (arith, total-clear j w.slots);
      once = λ j. omega arith;
      fresh = λ j p. refl;
      sizes = omega (arith, sizes-clear w.slots);
      instant = λ j p. absurd (omega arith);
    },
    refl,
    refl,
  )

  pub restart-Inv :
      (h : ℕ) (e : Entry A) (w w' : Wheel A)
      → Inv n w
      → 1 ≤ total h w.slots
      → w.store h ≡ some e
      → 1 ≤ e.duration
      → Removed n h w w'
      → Inv n (restart n h e w')
  unfolding restart slot_at
  restart-Inv h e w w' v c p d r =
      let t = add_size e.duration w'.current_tick in
      let s = get_or w'.slots (t % n) [] in
      let inside : t % n < length w'.slots = omega (arith, r.shape, mod-lt t v.positive) in
      let gone : total h w'.slots ≡ 0 = ground (arith, v.joined h, v.once h, r.totals h) in
      record {
        positive = v.positive;
        shape = omega (arith, r.shape, length-set w'.slots (t % n) (insert_entry t h s));
        filed = filed-put n w' h t (record e { tick = t }) r.filed gone refl d;
        joined = λ j. ground (
          arith,
          v.joined j,
          r.totals j,
          r.same_all,
          r.same_immediate,
          total-set j w'.slots (t % n) (insert_entry t h s) inside,
          count-insert_entry j t h s,
        );
        once = λ j. ground (arith, v.once j, r.same_all);
        fresh = λ j q. ground (arith, v.fresh j, r.same_all, r.same_next);
        sizes = ground (
          arith,
          v.sizes,
          r.sizes,
          r.same_all,
          r.same_immediate,
          wheel_entries_count-set w'.slots (t % n) (insert_entry t h s) inside,
          length-insert_entry t h s,
        );
        instant = λ j q.
            ground (arith, v.instant j, v.joined h, v.once h, r.same_store j, r.same_immediate);
      }

  restart-due :
      (h : ℕ) (e : Entry A) (w : Wheel A)
      → (tick_of ((restart n h e w).store h) ≡ add_size e.duration w.current_tick)
        × (duration_of ((restart n h e w).store h) ≡ e.duration)
        × ((restart n h e w).all ≡ w.all)
  unfolding restart
  restart-due h e w = ground arith

  pub reset_of_waiting :
      (h : ℕ) (e : Entry A) (w : Wheel A)
      → Inv n w
      → w.store h ≡ some e
      → 1 ≤ e.duration
      → 1 ≤ count h w.all
      → reset n h w ≡ (
          if e.tick == add_size e.duration w.current_tick
          then some w
          else elim (remove_from_slot n h e w) [ none ↦ none | some w' ↦ some (restart n h e w') ])
  unfolding reset
  reset_of_waiting h e w v p d c = ground (arith, lock_lem n h w v, member-count h w.all)

  pub reset_of_other : (h : ℕ) (w : Wheel A) → Inv n w → total h w.slots ≡ 0 → reset n h w ≡ some w
  unfolding reset
  reset_of_other h w v z = elim (Bool-cases (leb 1 (count h w.all))) [
    | inl p ↦ elim (Option-cases (w.store h)) [
      | inl q ↦ ground (arith, lock_lem n h w v)
      | inr (e, q) ↦
          let d : e.duration ≡ 0 =
            omega (arith, v.instant h (ground (arith, v.joined h)), ap duration_of q) in
          ground (arith, lock_lem n h w v)
    ]
    | inr p ↦ ground (arith, lock_lem n h w v)
  ]

  -- What `reset` of a handle promises: nothing is added or lost, and an entry that waits in a slot is
  -- due its own duration from now.
  pub Restarted : ℕ → Wheel A → Wheel A → Type 0
  Restarted h w w' =
      ((j : ℕ) → count j w'.all ≡ count j w.all)
      × (tick_of (w'.store h) ≡ (
          if leb 1 (total h w.slots)
          then add_size (duration_of (w.store h)) w.current_tick
          else tick_of (w.store h)))

  reset_waiting :
      (h : ℕ) (e : Entry A) (w : Wheel A)
      → Inv n w
      → w.store h ≡ some e
      → 1 ≤ e.duration
      → 1 ≤ total h w.slots
      → (w' : Wheel A) × (reset n h w ≡ some w') × Inv n w' × Restarted h w w'
  unfolding Restarted
  reset_waiting h e w v p d c = elim (Bool-cases (e.tick == add_size e.duration w.current_tick)) [
    | inl same ↦ (
      w,
      reset_of_waiting h e w v p d (omega (arith, v.joined h)) ∙ simp same refl,
      v,
      (λ j. refl, ground (arith, ap tick_of p, ap duration_of p)),
    )
    | inr other ↦
        let (w', q, r) = remove_from_slot-Removed n h e w v p c in
        (
          restart n h e w',
          ground (arith, reset_of_waiting h e w v p d (omega (arith, v.joined h))),
          restart-Inv h e w w' v c p d r,
          (
            λ j. ground (arith, r.same_all, restart-due h e w'),
            ground (arith, restart-due h e w', r.same_tick, ap duration_of p),
          ),
        )
  ]

  -- `reset` never fails; it keeps the invariant, no entry comes or goes, and the entry of the handle,
  -- if it waits in a slot, is due its own duration from the current tick.
  pub reset-Inv :
      (h : ℕ) (w : Wheel A)
      → Inv n w
      → (w' : Wheel A) × (reset n h w ≡ some w') × Inv n w' × Restarted h w w'
  unfolding Restarted
  reset-Inv h w v = elim (Bool-cases (leb 1 (total h w.slots))) [
    | inl c ↦
        let (e, p, d) = waiting_entry n h w v (ground arith) in
        reset_waiting h e w v p d (ground arith)
    | inr c ↦ (w, reset_of_other h w v (ground arith), v, (λ j. refl, simp c refl))
  ]
