-- ===== src/Timer/Wheel/Cancel.antt =====
-- zysoft/zysoft/timer/timing_wheel.h: `cancel`.
use zysoft.Prelude.{
  ℕ, ◌+◌, ◌-◌, ◌%◌, ◌≤◌, ◌<◌, ◌≡◌, refl, [], ◌∷◌, none, some, arith, if◌then◌else◌, ◌==◌, length,
  get_or, set, length-set, Option-cases, Bool-cases, inl, inr, leb, subst, ap,
}
use native.Mathlib.Nat.{mod-lt}
use zysoft.Timer.Wheel.{
  Entry, Slot, Wheel, erase, addresses, slot_remove_entry, wheel_entries_count, slot_at, lock,
  remove_from_slot, cancel,
}
use zysoft.Timer.Wheel.Counts.{
  count, total, member-count, count-erase, length-erase, slot_remove_entry_lem, total-set,
  wheel_entries_count-set, in_slots-total, count-le-total,
}
use zysoft.Timer.Wheel.Filing.{
  tick_of, duration_of, SlotsOk, SlotOk-remove, SlotsOk-get, SlotsOk-set, slot_remove_entry_finds,
  filed_at,
}
use zysoft.Timer.Wheel.Valid.{Inv}
use zysoft.Timer.Wheel.Sorted.{AllSorted, AllSorted-get, AllSorted-set, Sorted-remove}

-- A search for what is not there fails.
slot_remove_entry_misses :
    (k h : ℕ) (s : Slot) → count h (addresses s) ≡ 0 → slot_remove_entry k h s ≡ none
unfolding slot_remove_entry
slot_remove_entry_misses k h [] c = refl
slot_remove_entry_misses k h ((k', j) ∷ s) c = ground (arith, slot_remove_entry_misses k h s)

-- Over the values of one universe, which the splits on numbers below want.
module _ {A : Type 0} (n : ℕ) where
  -- `w'` is `w` with the entry `h` taken out of its slot.
  pub record Removed (h : ℕ) (w w' : Wheel A) : Type 0 where
    pub shape : length w'.slots ≡ n
    pub filed : SlotsOk n w'.store 0 w'.slots
    pub totals : (j : ℕ) → total j w'.slots + (if h == j then 1 else 0) ≡ total j w.slots
    pub sizes : wheel_entries_count w'.slots + 1 ≡ wheel_entries_count w.slots
    pub sorted : AllSorted w.slots → AllSorted w'.slots
    pub same_all : w'.all ≡ w.all
    pub same_immediate : w'.immediate ≡ w.immediate
    pub same_next : w'.next ≡ w.next
    pub same_store : (j : ℕ) → w'.store j ≡ w.store j
    pub same_tick : w'.current_tick ≡ w.current_tick

  pub remove_from_slot-Removed :
      (h : ℕ) (e : Entry A) (w : Wheel A)
      → Inv n w
      → w.store h ≡ some e
      → 1 ≤ total h w.slots
      → (w' : Wheel A) × (remove_from_slot n h e w ≡ some w') × Removed h w w'
  unfolding remove_from_slot slot_at
  remove_from_slot-Removed h e w v p c =
      let i = e.tick % n in
      let s = get_or w.slots i [] in
      let at : tick_of (w.store h) ≡ e.tick = ap tick_of p in
      let ok = SlotsOk-get n w.store 0 i w.slots v.filed in
      let there : 1 ≤ count h (addresses s) =
        subst (λ t. 1 ≤ count h (addresses (get_or w.slots t [])))
          (let q : tick_of (w.store h) % n - 0 ≡ i = omega (arith, ap (λ t. t % n) at) in q)
          (filed_at n w.store 0 h w.slots v.filed c).1 in
      let (r, found) = slot_remove_entry_finds n w.store (0 + i) h s ok there in
      let found' : slot_remove_entry e.tick h s ≡ some r =
        subst (λ t. slot_remove_entry t h s ≡ some r) at found in
      let inside : i < length w.slots = omega (arith, v.shape, mod-lt e.tick v.positive) in
      (
        record w { slots = set w.slots i r },
        ground (arith, found'),
        record {
          shape = omega (arith, v.shape, length-set w.slots i r);
          filed =
              SlotsOk-set n w.store 0 i w.slots r
                (SlotOk-remove n w.store (0 + i) e.tick h s found' ok) v.filed;
          totals = λ j.
              omega
                (arith, total-set j w.slots i r inside, slot_remove_entry_lem j e.tick h s found');
          sizes = omega (
            arith,
            wheel_entries_count-set w.slots i r inside,
            slot_remove_entry_lem h e.tick h s found',
          );
          sorted = λ o.
              AllSorted-set i r w.slots
                (Sorted-remove e.tick h s found' (AllSorted-get i w.slots o)) o;
          same_all = refl;
          same_immediate = refl;
          same_next = refl;
          same_store = λ j. refl;
          same_tick = refl;
        },
      )

  pub lock_lem :
      (h : ℕ) (w : Wheel A)
      → Inv n w
      → lock h w ≡ (if leb 1 (count h w.all) then w.store h else none)
  unfolding lock
  lock_lem h w v = ground (
    arith,
    v.joined h,
    member-count h w.all,
    member-count h w.immediate,
    in_slots-total h w.slots,
  )

  -- The entry of a handle that waits in a slot.
  pub waiting_entry :
      (h : ℕ) (w : Wheel A)
      → Inv n w
      → 1 ≤ total h w.slots
      → (e : Entry A) × (w.store h ≡ some e) × (1 ≤ e.duration)
  waiting_entry h w v c = elim (Option-cases (w.store h)) [
    | inl p ↦ absurd (omega (arith, filed_at n w.store 0 h w.slots v.filed c, ap duration_of p))
    | inr (e, p) ↦ (e, p, omega (arith, filed_at n w.store 0 h w.slots v.filed c, ap duration_of p))
  ]

  -- What `cancel` does to the containers, where the entry had waited in a slot.
  pub erased-Inv :
      (h : ℕ) (w w' : Wheel A)
      → Inv n w
      → 1 ≤ total h w.slots
      → Removed h w w'
      → Inv n (record w' { all = erase h w'.all })
  erased-Inv h w w' v c r = record {
    positive = v.positive;
    shape = r.shape;
    filed = r.filed;
    joined = λ j.
        ground
          (arith, v.joined j, r.totals j, count-erase j h w'.all, r.same_all, r.same_immediate);
    once = λ j. ground (arith, v.once j, count-erase j h w'.all, r.same_all);
    fresh = λ j p. ground (arith, v.fresh j, count-erase j h w'.all, r.same_all, r.same_next);
    sizes =
        ground (
          arith,
          v.sizes,
          r.sizes,
          v.joined h,
          length-erase h w'.all,
          r.same_all,
          r.same_immediate,
        );
    instant = λ j p. ground (arith, v.instant j, r.same_store j, r.same_immediate);
  }

  -- `cancel` of a handle that is not among the entries that expired at once succeeds and keeps the
  -- invariant: the wheel holds that entry no more, and every other as before.
  pub cancel-Inv :
      (h : ℕ) (w : Wheel A)
      → Inv n w
      → count h w.immediate ≡ 0
      → (w' : Wheel A) × (cancel n h w ≡ some w')
        × Inv n w'
        × ((j : ℕ) → count j w'.all ≡ count j w.all - (if h == j then 1 else 0))
  unfolding cancel
  cancel-Inv h w v z = elim (Bool-cases (leb 1 (count h w.all))) [
    | inl p ↦
        let c : 1 ≤ total h w.slots = ground (arith, v.joined h) in
        let (e, held, _) = waiting_entry h w v c in
        let (w', q, r) = remove_from_slot-Removed h e w v held c in
        (
          record w' { all = erase h w'.all },
          ground (arith, lock_lem h w v, member-count h w.all),
          erased-Inv h w w' v c r,
          λ j. ground (arith, count-erase j h w'.all, r.same_all),
        )
    | inr p ↦ (w, ground (arith, lock_lem h w v, member-count h w.all), v, λ j. ground arith)
  ]

  -- `cancel` of an entry that was added with duration 0 and has not been collected fails: it looks
  -- for the entry in a slot, where it never was.
  pub cancel_immediate_fails :
      (h : ℕ) (e : Entry A) (w : Wheel A)
      → Inv n w
      → w.store h ≡ some e
      → 1 ≤ count h w.immediate
      → cancel n h w ≡ none
  unfolding cancel remove_from_slot slot_at
  cancel_immediate_fails h e w v p c = ground (
    arith,
    lock_lem h w v,
    v.joined h,
    v.once h,
    member-count h w.all,
    count-le-total h w.slots (e.tick % n),
    slot_remove_entry_misses e.tick h (get_or w.slots (e.tick % n) []),
  )
