-- ===== src/Timer/Wheel/Turn.antt =====
-- zysoft/zysoft/timer/timing_wheel.h as net/timer_queue.h turns it: `tick` and then `get_expired`.
use zysoft.Prelude.{
  ℕ, ◌+◌, ◌-◌, ◌%◌, ◌≤◌, ◌<◌, ◌≡◌, refl, List, [], arith, if◌then◌else◌, ◌==◌, get_or, set, inl,
  inr, Bool-cases, leb, subst, ap, add_size, size_mod,
}
use native.Mathlib.Nat.{mod-lt}
use zysoft.Timer.Wheel.{
  Wheel, addresses, due, later, slot_at, tick, create, expired_at, get_expired,
}
use zysoft.Timer.Wheel.Counts.{count, total, count-append, due-later, total-set, count-le-total}
use zysoft.Timer.Wheel.Filing.{tick_of, SlotsOk-get, filed_at}
use zysoft.Timer.Wheel.Sorted.{
  AllSorted, Sorted-later, AllSorted-get, AllSorted-set, AllSorted-replicate, count-due,
}
use zysoft.Timer.Wheel.Valid.{Inv, tick-Inv, get_expired-Inv, create-Inv}

pub add_size_small : (a b : ℕ) → a + b < size_mod → add_size a b ≡ a + b
add_size_small a b p = omega arith

module _ {A : Type 0} (n : ℕ) where
  -- `timer_queue::turn_wheel`, up to the calls of the callbacks.
  unfoldable pub turn : Wheel A → Wheel A × List (A × ℕ)
  unfolding tick get_expired
  turn w = let w' = tick w in get_expired n w'.current_tick w'

  -- The wheel's invariant, every slot in order, and no entry overdue.
  pub record Timely (w : Wheel A) : Type 0 where
    pub valid : Inv n w
    pub sorted : AllSorted w.slots
    pub ahead : (j : ℕ) → 1 ≤ total j w.slots → w.current_tick < tick_of (w.store j)

  -- What stands in the slot of its tick stands nowhere else.
  total-slot :
      (w : Wheel A) (j t : ℕ)
      → Inv n w
      → tick_of (w.store j) ≡ t
      → count j (addresses (get_or w.slots (t % n) [])) ≡ total j w.slots
  total-slot w j t v p = elim (Bool-cases (leb 1 (total j w.slots))) [
    | inl c ↦
        let f = filed_at n w.store 0 j w.slots v.filed (ground arith) in
        let q : tick_of (w.store j) % n - 0 ≡ t % n = omega (arith, ap (λ x. x % n) p) in
        let f' = subst (λ x. 1 ≤ count j (addresses (get_or w.slots x []))) q f.1 in
        omega (arith, v.joined j, v.once j, count-le-total j w.slots (t % n))
    | inr c ↦ ground (arith, count-le-total j w.slots (t % n))
  ]

  pub due_now :
      (w : Wheel A) (j t : ℕ)
      → Timely w
      → t ≡ w.current_tick + 1
      → count j (addresses (due t (get_or w.slots (t % n) [])))
        ≡ (if tick_of (w.store j) == t then total j w.slots else 0)
  due_now w j t c p =
      let s = get_or w.slots (t % n) [] in
      ground (
        arith,
        count-due n w.store t (0 + t % n) j s (AllSorted-get (t % n) w.slots c.sorted)
            (SlotsOk-get n w.store 0 (t % n) w.slots c.valid.filed),
        c.ahead j,
        count-le-total j w.slots (t % n),
        total-slot w j t c.valid,
      )

  left_is_ahead :
      (w : Wheel A) (j t : ℕ)
      → Timely w
      → t ≡ w.current_tick + 1
      → 1 ≤ total j (set w.slots (t % n) (later t (get_or w.slots (t % n) [])))
      → t < tick_of (w.store j)
  left_is_ahead w j t c p q =
      let s = get_or w.slots (t % n) [] in
      ground (
        arith,
        due_now w j t c p,
        due-later j t s,
        total-set j w.slots (t % n) (later t s)
            (omega (arith, c.valid.shape, mod-lt t c.valid.positive)),
        c.ahead j,
      )

  -- A turn keeps the wheel timely, unless the clock wraps.
  pub turn-Timely : (w : Wheel A) → Timely w → w.current_tick + 1 < size_mod → Timely (turn w).0
  unfolding turn tick get_expired slot_at
  turn-Timely w c p =
      let t = add_size w.current_tick 1 in
      record {
        valid = get_expired-Inv n t (tick w) (tick-Inv n w c.valid);
        sorted =
            AllSorted-set (t % n) (later t (get_or w.slots (t % n) [])) w.slots
              (Sorted-later t (get_or w.slots (t % n) []) (AllSorted-get (t % n) w.slots c.sorted))
              c.sorted;
        ahead = λ j q. left_is_ahead w j t c (add_size_small w.current_tick 1 p) q;
      }

  -- A turn of a timely wheel, whose clock does not wrap, takes out what has expired at once and what is
  -- due at the next tick, and nothing else.
  pub turn_takes_due :
      (w : Wheel A) (j : ℕ)
      → Timely w
      → w.current_tick + 1 < size_mod
      → count j (expired_at n (w.current_tick + 1) (tick w))
        ≡ count j w.immediate
          + (if tick_of (w.store j) == w.current_tick + 1 then total j w.slots else 0)
  unfolding expired_at tick slot_at
  turn_takes_due w j c p =
      let t = w.current_tick + 1 in
      let e : add_size w.current_tick 1 ≡ t = add_size_small w.current_tick 1 p in
      rw e (
        omega (
          arith,
          count-append j w.immediate (addresses (due t (get_or w.slots (t % n) []))),
          due_now w j t c refl,
        ))

  pub turn-current :
      (w : Wheel A) → w.current_tick + 1 < size_mod → (turn w).0.current_tick ≡ w.current_tick + 1
  unfolding turn tick get_expired
  turn-current w p = add_size_small w.current_tick 1 p

  -- An entry that is not due stays where it is.
  pub turn_keeps :
      (w : Wheel A) (j : ℕ)
      → Timely w
      → w.current_tick + 1 < tick_of (w.store j)
      → w.current_tick + 1 < size_mod
      → (total j (turn w).0.slots ≡ total j w.slots) × ((turn w).0.store j ≡ w.store j)
  unfolding turn tick get_expired slot_at
  turn_keeps w j c q p =
      let t = add_size w.current_tick 1 in
      let s = get_or w.slots (t % n) [] in
      (
        ground (
          arith,
          due_now w j t c (add_size_small w.current_tick 1 p),
          due-later j t s,
          total-set j w.slots (t % n) (later t s)
              (omega (arith, c.valid.shape, mod-lt t c.valid.positive)),
        ),
        refl,
      )

  pub create-Timely : 1 ≤ n → Timely (create n)
  unfolding create
  create-Timely p = record {
    valid = create-Inv n p;
    sorted = AllSorted-replicate n;
    ahead = λ j q. absurd (omega (arith, (create-Inv {A = A} n p).joined j));
  }
