-- ===== src/Timer/Wheel/Punctual.antt =====
-- zysoft/zysoft/timer/timing_wheel.h as net/timer_queue.h turns it: an entry is delivered at the turn
-- its duration names, neither earlier nor later.
use zysoft.Prelude.{
  ℕ, zero, suc, ◌+◌, ◌-◌, ◌%◌, ◌≤◌, ◌<◌, ◌≡◌, refl, ◌∙◌, sym, List, [], ◌∷◌, ◌++◌, Option, some,
  false, arith, if◌then◌else◌, ◌==◌, get_or, get_elem?, Option-cases, inl, inr, Bool-cases, subst,
  ap, add_size, size_mod,
}
use native.Mathlib.Nat.{mod-lt}
use zysoft.Timer.Wheel.{
  Entry, Wheel, addresses, insert_entry, due, slot_at, collect, tick, expired_at, get_expired, add,
  add_waiting, add_immediate,
}
use zysoft.Timer.Wheel.Counts.{count, total, count-erase_all, total-set, count-insert_entry}
use zysoft.Timer.Wheel.Filing.{tick_of}
use zysoft.Timer.Wheel.Sorted.{Sorted-insert, AllSorted-get, AllSorted-set}
use zysoft.Timer.Wheel.Valid.{Inv, add_waiting-Inv, add_immediate-Inv, unused}
use zysoft.Timer.Wheel.Turn.{
  turn, Timely, add_size_small, turn-Timely, turn_takes_due, turn-current, turn_keeps,
}

module _ {A : Type 0} where
  -- `collect` has the value of every live address.
  pub collect_has :
      (store : ℕ → Option (Entry A)) (hs : List ℕ) (j : ℕ) (e : Entry A)
      → 1 ≤ count j hs
      → store j ≡ some e
      → (i : ℕ) × (get_elem? (collect store hs) i ≡ some (e.value, e.duration))
  unfolding collect
  collect_has store [] j e c p = absurd (omega arith)
  collect_has store (h ∷ hs) j e c p = elim (Bool-cases (h == j)) [
    | inl t ↦
        let q : h ≡ j = ground arith in
        let p' : store h ≡ some e = subst (λ x. store x ≡ some e) (sym q) p in (0, ground arith)
    | inr t ↦
        let (i, q) = collect_has store hs j e (ground arith) p in
        elim (Option-cases (store h)) [
          | inl m ↦ (i, ground arith)
          | inr (e', m) ↦ (suc i, ground arith)
        ]
  ]

module _ {A : Type 0} (n : ℕ) where
  pub add_waiting-total :
      (v : A) (d : ℕ) (w : Wheel A) (j : ℕ)
      → Inv n w
      → total j (add_waiting n v d w).slots ≡ (if w.next == j then 1 else 0) + total j w.slots
  unfolding add_waiting slot_at
  add_waiting-total v d w j i =
      let t = add_size d w.current_tick in
      let s = get_or w.slots (t % n) [] in
      omega (
        arith,
        total-set j w.slots (t % n) (insert_entry t w.next s)
            (omega (arith, i.shape, mod-lt t i.positive)),
        count-insert_entry j t w.next s,
      )

  pub add_waiting-Timely :
      (v : A) (d : ℕ) (w : Wheel A)
      → 1 ≤ d
      → w.current_tick + d < size_mod
      → Timely n w
      → Timely n (add_waiting n v d w)
  unfolding add_waiting slot_at
  add_waiting-Timely v d w o p c =
      let t = add_size d w.current_tick in
      record {
        valid = add_waiting-Inv n v d w o c.valid;
        sorted =
            AllSorted-set (t % n) _ w.slots
              (Sorted-insert t w.next (get_or w.slots (t % n) [])
                (AllSorted-get (t % n) w.slots c.sorted))
              c.sorted;
        ahead = λ j q.
            ground (
              arith,
              add_waiting-total v d w j c.valid,
              c.ahead j,
              add_size_small d w.current_tick,
            );
      }

  add_immediate-Timely : (v : A) (w : Wheel A) → Timely n w → Timely n (add_immediate n v w)
  unfolding add_immediate
  add_immediate-Timely v w c = record {
    valid = add_immediate-Inv n v w c.valid;
    sorted = c.sorted;
    ahead = λ j q. ground (arith, c.ahead j, unused n w c.valid);
  }

  -- `add` keeps the wheel timely, unless the clock would wrap before the entry is due.
  pub add-Timely :
      (v : A) (d : ℕ) (w : Wheel A)
      → w.current_tick + d < size_mod
      → Timely n w
      → Timely n (add n v d w).0
  unfolding add
  add-Timely v d w p c = elim (Bool-cases (d == 0)) [
    | inl e ↦ rw e (add_immediate-Timely v w c)
    | inr e ↦ rw e (add_waiting-Timely v d w (ground arith) p c)
  ]

  -- `k` turns; what they deliver goes to the callbacks.
  unfoldable pub turns : ℕ → Wheel A → Wheel A
  turns zero w = w
  turns (suc k) w = turns k (turn n w).0

  -- `j` waits in the wheel for the tick `t`, with the entry `e`.
  pub record Waits (j t : ℕ) (e : Entry A) (w : Wheel A) : Type 0 where
    pub timely : Timely n w
    pub there : 1 ≤ total j w.slots
    pub entry : w.store j ≡ some e
    pub at : e.tick ≡ t

  still_filed :
      (k j t : ℕ) (e : Entry A) (w : Wheel A)
      → Waits j t e w
      → w.current_tick + k < t
      → t < size_mod
      → Waits j t e (turns k w) × ((turns k w).current_tick ≡ w.current_tick + k)
  unfolding turns
  still_filed zero j t e w c p q = (c, omega arith)
  still_filed (suc k) j t e w c p q =
      let small : w.current_tick + 1 < size_mod = omega arith in
      let tick_at : tick_of (w.store j) ≡ t = ap tick_of c.entry ∙ c.at in
      let (kept, same) = turn_keeps n w j c.timely (omega arith) small in
      let now = turn-current n w small in
      let c' : Waits j t e (turn n w).0 = record {
        timely = turn-Timely n w c.timely small;
        there = omega (arith, c.there);
        entry = same ∙ c.entry;
        at = c.at;
      } in
      let (r, s) = still_filed k j t e (turn n w).0 c' (omega arith) q in (r, omega arith)

  filed_by_add :
      (v : A) (d : ℕ) (w : Wheel A)
      → 1 ≤ d
      → w.current_tick + d < size_mod
      → Timely n w
      → Waits w.next
          (w.current_tick + d)
          (record { tick = w.current_tick + d; duration = d; value = v })
          (add_waiting n v d w)
  unfolding add_waiting
  filed_by_add v d w o p c =
      let e : add_size d w.current_tick ≡ w.current_tick + d = omega arith in
      record {
        timely = add_waiting-Timely v d w o p c;
        there = ground (arith, add_waiting-total v d w w.next c.valid);
        entry = ground arith;
        at = refl;
      }

  add_waiting-current :
      (v : A) (d : ℕ) (w : Wheel A) → (add_waiting n v d w).current_tick ≡ w.current_tick
  unfolding add_waiting
  add_waiting-current v d w = refl

  takes_waiting :
      (j t : ℕ) (e : Entry A) (w : Wheel A)
      → Waits j t e w
      → w.current_tick + 1 ≡ t
      → t < size_mod
      → count j (expired_at n t (tick w)) ≡ 1
  takes_waiting j t e w c p q =
      subst (λ x. count j (expired_at n x (tick w)) ≡ 1) p
        (ground (
          arith,
          turn_takes_due n w j c.timely,
          ap tick_of c.entry,
          c.at,
          c.there,
          c.timely.valid.joined j,
          c.timely.valid.once j,
        ))

  delivered :
      (j t : ℕ) (e : Entry A) (w : Wheel A)
      → Waits j t e w
      → w.current_tick + 1 ≡ t
      → t < size_mod
      → ((i : ℕ) × (get_elem? (turn n w).1 i ≡ some (e.value, e.duration)))
        × (count j (turn n w).0.all ≡ 0)
  unfolding turn tick get_expired expired_at slot_at
  delivered j t e w c p q =
      let now : add_size w.current_tick 1 ≡ t = omega arith in
      let taken =
        subst (λ x. count j (w.immediate ++ addresses (due t (get_or w.slots (x % n) []))) ≡ 1) now
          (takes_waiting j t e w c p q) in
      rw now (
        collect_has w.store (w.immediate ++ addresses (due t (get_or w.slots (t % n) []))) j e
            (omega arith) c.entry,
        omega (
          arith,
          count-erase_all j (w.immediate ++ addresses (due t (get_or w.slots (t % n) []))) w.all,
          c.timely.valid.once j,
        ),
      )

  -- An entry that `add` filed with the duration `d`, in a timely wheel and before the clock would wrap,
  -- is still held after any `k` turns short of `d`.
  pub not_early :
      (v : A) (d k : ℕ) (w : Wheel A)
      → k < d
      → w.current_tick + d < size_mod
      → Timely n w
      → count w.next (turns k (add n v d w).0).all ≡ 1
  unfolding add
  not_early v d k w o p c =
      let e : (d == 0) ≡ false = ground arith in
      let now = add_waiting-current v d w in
      let a = filed_by_add v d w (omega arith) p c in
      let (r, _) =
        still_filed k w.next (w.current_tick + d) _ (add_waiting n v d w) a (omega arith) p in
      rw e (omega (arith, r.there, r.timely.valid.joined w.next, r.timely.valid.once w.next))

  -- An entry that `add` filed with the duration `d`, at least 1, in a timely wheel and before the clock
  -- would wrap, is delivered by the `d`-th turn, with its value and its duration, and the wheel holds it
  -- no more.
  pub on_time :
      (v : A) (d : ℕ) (w : Wheel A)
      → 1 ≤ d
      → w.current_tick + d < size_mod
      → Timely n w
      → let w' = turns (d - 1) (add n v d w).0 in
        ((i : ℕ) × (get_elem? (turn n w').1 i ≡ some (v, d))) × (count w.next (turn n w').0.all ≡ 0)
  unfolding add
  on_time v d w o p c =
      let e : (d == 0) ≡ false = ground arith in
      let now = add_waiting-current v d w in
      let a = filed_by_add v d w o p c in
      let (r, clock) =
        still_filed (d - 1) w.next (w.current_tick + d) _ (add_waiting n v d w) a (omega arith) p in
      rw e (
        delivered w.next (w.current_tick + d) _ (turns (d - 1) (add_waiting n v d w)) r
          (omega arith) p)
