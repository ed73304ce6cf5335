-- ===== src/Timer/Wheel/Valid.antt =====
-- zysoft/zysoft/timer/timing_wheel.h: the invariant of the wheel, which every operation keeps.
use zysoft.Prelude.{
  ℕ, zero, suc, ◌+◌, ◌%◌, ◌≤◌, ◌<◌, ◌≡◌, refl, [], ◌++◌, Option, none, arith, ◌==◌, length, get_or,
  set, length-set, replicate, length-replicate, Bool-cases, inl, inr, add_size, length-append,
}
use native.Mathlib.Nat.{mod-lt}
use zysoft.Timer.Wheel.{
  Entry, Slot, Wheel, addresses, insert_entry, due, later, put, wheel_entries_count, slot_at, tick,
  create, expired_at, get_expired, add, add_immediate, add_waiting, SizesAgree,
}
use zysoft.Timer.Wheel.Counts.{
  count, total, count-append, count-erase_all, length-erase_all, count-insert_entry,
  length-insert_entry, due-later, total-set, wheel_entries_count-set, count-le-total,
}
use zysoft.Timer.Wheel.Filing.{
  duration_of, SlotsOk, SlotsOk-put, SlotOk-insert, SlotOk-later, SlotsOk-get, SlotsOk-set,
}

total-create : (j m : ℕ) → total j (replicate m []) ≡ 0
total-create j zero = refl
total-create j (suc m) = omega (arith, total-create j m)

sizes-create : (m : ℕ) → wheel_entries_count (replicate m []) ≡ 0
unfolding wheel_entries_count
sizes-create zero = refl
sizes-create (suc m) = omega (arith, sizes-create m)

module _ {ℓ} {A : Type ℓ} (n : ℕ) where
  pub record Inv (w : Wheel A) : Type 0 where
    pub positive : 1 ≤ n
    pub shape : length w.slots ≡ n
    pub filed : SlotsOk n w.store 0 w.slots
    -- `all_entries_` is the other containers together, and no address stands twice.
    pub joined : (j : ℕ) → count j w.immediate + total j w.slots ≡ count j w.all
    pub once : (j : ℕ) → count j w.all ≤ 1
    pub fresh : (j : ℕ) → w.next ≤ j → count j w.all ≡ 0
    pub sizes : SizesAgree w
    pub instant : (j : ℕ) → 1 ≤ count j w.immediate → duration_of (w.store j) ≡ 0

  filed-create : (store : ℕ → Option (Entry A)) (i m : ℕ) → SlotsOk n store i (replicate m [])
  filed-create store i zero = tt
  filed-create store i (suc m) = (tt, filed-create store (suc i) m)

  pub create-Inv : 1 ≤ n → Inv (create n)
  unfolding create
  create-Inv p = record {
    positive = p;
    shape = length-replicate {A = Slot} n [];
    filed = filed-create (λ h. none) 0 n;
    joined = λ j. omega (arith, total-create j n);
    once = λ j. omega arith;
    fresh = λ j h. refl;
    sizes = omega (arith, sizes-create n);
    instant = λ j h. absurd (omega arith);
  }

  pub tick-Inv : (w : Wheel A) → Inv w → Inv (tick w)
  unfolding tick
  tick-Inv w v = record {
    positive = v.positive;
    shape = v.shape;
    filed = v.filed;
    joined = v.joined;
    once = v.once;
    fresh = v.fresh;
    sizes = v.sizes;
    instant = v.instant;
  }

  expired_count : (w : Wheel A) (t j : ℕ) → Inv w → count j (expired_at n t w) ≤ count j w.all
  unfolding expired_at slot_at
  expired_count w t j v =
      let i = w.current_tick % n in
      omega (
        arith,
        v.joined j,
        count-append j w.immediate (addresses (due t (get_or w.slots i []))),
        due-later j t (get_or w.slots i []),
        count-le-total j w.slots i,
      )

  pub get_expired-Inv : (t : ℕ) (w : Wheel A) → Inv w → Inv (get_expired n t w).0
  unfolding get_expired expired_at slot_at
  get_expired-Inv t w v =
      let i = w.current_tick % n in
      let s = get_or w.slots i [] in
      let inside : i < length w.slots =
        omega (arith, v.shape, v.positive, mod-lt w.current_tick v.positive) in
      record {
        positive = v.positive;
        shape = omega (arith, v.shape, length-set w.slots i (later t s));
        filed =
            SlotsOk-set n w.store 0 i w.slots (later t s)
              (SlotOk-later n w.store (0 + i) t s (SlotsOk-get n w.store 0 i w.slots v.filed))
              v.filed;
        joined = λ j. omega (
          arith,
          v.joined j,
          count-erase_all j (w.immediate ++ addresses (due t s)) w.all,
          count-append j w.immediate (addresses (due t s)),
          due-later j t s,
          total-set j w.slots i (later t s) inside,
        );
        once = λ j.
            omega (arith, v.once j, count-erase_all j (w.immediate ++ addresses (due t s)) w.all);
        fresh = λ j h.
            omega
              (arith, v.fresh j h, count-erase_all j (w.immediate ++ addresses (due t s)) w.all);
        sizes = omega (
          arith,
          v.sizes,
          length-erase_all (w.immediate ++ addresses (due t s)) w.all (λ j. expired_count w t j v),
          length-append w.immediate (addresses (due t s)),
          due-later 0 t s,
          wheel_entries_count-set w.slots i (later t s) inside,
        );
        instant = λ j h. absurd (omega arith);
      }

  pub unused : (w : Wheel A) → Inv w → total w.next w.slots ≡ 0
  unused w i = omega (arith, i.joined w.next, i.fresh w.next (omega arith))

  -- What `add` and `restart` do: an entry that stands in no slot is filed.
  pub filed-put :
      (w : Wheel A) (h t : ℕ) (e : Entry A)
      → SlotsOk n w.store 0 w.slots
      → total h w.slots ≡ 0
      → e.tick ≡ t
      → 1 ≤ e.duration
      → SlotsOk n
          (put w.store h e)
          0
          (set w.slots (t % n) (insert_entry t h (get_or w.slots (t % n) [])))
  filed-put w h t e v z p q =
      let ok = SlotsOk-put n w.store h 0 e w.slots z v in
      SlotsOk-set n (put w.store h e) 0 (t % n) w.slots _
        (SlotOk-insert n (put w.store h e) (0 + t % n) t h (get_or w.slots (t % n) []) (omega arith)
          (ground arith) (ground arith) (SlotsOk-get n (put w.store h e) 0 (t % n) w.slots ok))
        ok

  pub add_immediate-Inv : (v : A) (w : Wheel A) → Inv w → Inv (add_immediate n v w)
  unfolding add_immediate
  add_immediate-Inv v w i = record {
    positive = i.positive;
    shape = i.shape;
    filed = SlotsOk-put n w.store w.next 0 _ w.slots (unused w i) i.filed;
    joined = λ j. omega (arith, i.joined j);
    once = λ j. ground (arith, i.once j, i.fresh j);
    fresh = λ j h. ground (arith, i.fresh j);
    sizes = omega (arith, i.sizes);
    instant = λ j h. ground (arith, i.instant j);
  }

  pub add_waiting-Inv : (v : A) (d : ℕ) (w : Wheel A) → 1 ≤ d → Inv w → Inv (add_waiting n v d w)
  unfolding add_waiting
  add_waiting-Inv v d w p i =
      let t = add_size d w.current_tick in
      let s = get_or w.slots (t % n) [] in
      let inside : t % n < length w.slots = omega (arith, i.shape, mod-lt t i.positive) in
      record {
        positive = i.positive;
        shape = omega (arith, i.shape, length-set w.slots (t % n) (insert_entry t w.next s));
        filed = filed-put w w.next t _ i.filed (unused w i) refl p;
        joined = λ j. omega (
          arith,
          i.joined j,
          total-set j w.slots (t % n) (insert_entry t w.next s) inside,
          count-insert_entry j t w.next s,
        );
        once = λ j. ground (arith, i.once j, i.fresh j);
        fresh = λ j h. ground (arith, i.fresh j);
        sizes = omega (
          arith,
          i.sizes,
          wheel_entries_count-set w.slots (t % n) (insert_entry t w.next s) inside,
          length-insert_entry t w.next s,
        );
        instant = λ j h. ground (arith, i.instant j, i.joined j, i.fresh j);
      }

  pub add-Inv : (v : A) (d : ℕ) (w : Wheel A) → Inv w → Inv (add n v d w).0
  unfolding add
  add-Inv v d w i = elim (Bool-cases (d == 0)) [
    | inl e ↦ rw e (add_immediate-Inv v w i)
    | inr e ↦ rw e (add_waiting-Inv v d w (ground arith) i)
  ]
