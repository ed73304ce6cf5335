-- ===== src/Timer/Wheel/Filing.antt =====
-- zysoft/zysoft/timer/timing_wheel.h: an entry stands in the slot of its tick, under that tick.
use zysoft.Prelude.{
  ℕ, zero, suc, ◌+◌, ◌-◌, ◌%◌, ◌≤◌, ◌≡◌, List, [], ◌∷◌, Option, none, some, arith, ◌==◌, get_or,
  set, Option-cases, inl, inr, Bool-cases, ◌&&◌, leb, subst, ap, ◌∙◌,
}
use zysoft.Timer.Wheel.{Entry, Slot, addresses, insert_entry, slot_remove_entry, later, put}
use zysoft.Timer.Wheel.Counts.{count, total}

module _ {ℓ} {A : Type ℓ} where
  abbrev pub tick_of : Option (Entry A) → ℕ
  tick_of none = 0
  tick_of (some e) = e.tick

  abbrev pub duration_of : Option (Entry A) → ℕ
  duration_of none = 0
  duration_of (some e) = e.duration

  -- The slot `i` holds live entries of positive duration, each under its tick.
  abbrev pub SlotOk : ℕ → (ℕ → Option (Entry A)) → ℕ → Slot → Type 0
  SlotOk n store i [] = Unit {0}
  SlotOk n store i ((k, h) ∷ s) =
      (k % n ≡ i) × (tick_of (store h) ≡ k) × (1 ≤ duration_of (store h)) × SlotOk n store i s

  -- So do the slots from `i` on.
  abbrev pub SlotsOk : ℕ → (ℕ → Option (Entry A)) → ℕ → List Slot → Type 0
  SlotsOk n store i [] = Unit {0}
  SlotsOk n store i (s ∷ ss) = SlotOk n store i s × SlotsOk n store (suc i) ss

  SlotOk-put :
      (n : ℕ) (store : ℕ → Option (Entry A)) (h i : ℕ) (e : Entry A) (s : Slot)
      → count h (addresses s) ≡ 0
      → SlotOk n store i s
      → SlotOk n (put store h e) i s
  SlotOk-put n store h i e [] c o = tt
  SlotOk-put n store h i e ((k, j) ∷ s) c o =
      ground (arith, o, SlotOk-put n store h i e s (omega arith) o.3)

  pub SlotsOk-put :
      (n : ℕ) (store : ℕ → Option (Entry A)) (h i : ℕ) (e : Entry A) (ss : List Slot)
      → total h ss ≡ 0
      → SlotsOk n store i ss
      → SlotsOk n (put store h e) i ss
  SlotsOk-put n store h i e [] c o = tt
  SlotsOk-put n store h i e (s ∷ ss) c o = (
    SlotOk-put n store h i e s (omega arith) o.0,
    SlotsOk-put n store h (suc i) e ss (omega arith) o.1,
  )

  pub SlotOk-insert :
      (n : ℕ) (store : ℕ → Option (Entry A)) (i k h : ℕ) (s : Slot)
      → k % n ≡ i
      → tick_of (store h) ≡ k
      → 1 ≤ duration_of (store h)
      → SlotOk n store i s
      → SlotOk n store i (insert_entry k h s)
  unfolding insert_entry
  SlotOk-insert n store i k h [] p q r o = (p, q, r, tt)
  SlotOk-insert n store i k h ((k', h') ∷ s) p q r o =
      ground (arith, o, SlotOk-insert n store i k h s p q r o.3)

  pub SlotOk-remove :
      (n : ℕ) (store : ℕ → Option (Entry A)) (i k h : ℕ) (s : Slot) {r : Slot}
      → slot_remove_entry k h s ≡ some r
      → SlotOk n store i s
      → SlotOk n store i r
  unfolding slot_remove_entry
  SlotOk-remove n store i k h [] e o = absurd (ground arith)
  SlotOk-remove n store i k h ((k', h') ∷ s) {r = r} e o = elim (Bool-cases (k' == k && h' == h)) [
    | inl t ↦ let q : s ≡ r = ground arith in subst (SlotOk n store i) q o.3
    | inr f ↦ elim (Option-cases (slot_remove_entry k h s)) [
      | inl m ↦ absurd (ground arith)
      | inr (r', p) ↦
          let q : (k', h') ∷ r' ≡ r = ground arith in
          subst (SlotOk n store i) q (o.0, o.1, o.2, SlotOk-remove n store i k h s {r = r'} p o.3)
    ]
  ]

  pub SlotOk-later :
      (n : ℕ) (store : ℕ → Option (Entry A)) (i t : ℕ) (s : Slot)
      → SlotOk n store i s
      → SlotOk n store i (later t s)
  unfolding later
  SlotOk-later n store i t [] o = tt
  SlotOk-later n store i t ((k, h) ∷ s) o = ground (arith, o, SlotOk-later n store i t s o.3)

  pub SlotsOk-get :
      (n : ℕ) (store : ℕ → Option (Entry A)) (i j : ℕ) (ss : List Slot)
      → SlotsOk n store i ss
      → SlotOk n store (i + j) (get_or ss j [])
  SlotsOk-get n store i j [] o = tt
  SlotsOk-get n store i zero (s ∷ ss) o = let e : i ≡ i + zero = omega arith in rw (← e) o.0
  SlotsOk-get n store i (suc j) (s ∷ ss) o =
      let e : suc i + j ≡ i + suc j = omega arith in rw (← e) (SlotsOk-get n store (suc i) j ss o.1)

  pub SlotsOk-set :
      (n : ℕ) (store : ℕ → Option (Entry A)) (i j : ℕ) (ss : List Slot) (s : Slot)
      → SlotOk n store (i + j) s
      → SlotsOk n store i ss
      → SlotsOk n store i (set ss j s)
  SlotsOk-set n store i j [] s p o = tt
  SlotsOk-set n store i zero (x ∷ ss) s p o = let e : i + zero ≡ i = omega arith in (rw e at p, o.1)
  SlotsOk-set n store i (suc j) (x ∷ ss) s p o =
      let e : i + suc j ≡ suc i + j = omega arith in
      (o.0, SlotsOk-set n store (suc i) j ss s (rw e at p) o.1)

  -- `slot_remove_entry` finds what stands in the slot.
  pub slot_remove_entry_finds :
      (n : ℕ) (store : ℕ → Option (Entry A)) (i h : ℕ) (s : Slot)
      → SlotOk n store i s
      → 1 ≤ count h (addresses s)
      → (r : Slot) × (slot_remove_entry (tick_of (store h)) h s ≡ some r)
  unfolding slot_remove_entry
  slot_remove_entry_finds n store i h [] o c = absurd (omega arith)
  slot_remove_entry_finds n store i h ((k, j) ∷ s) o c = elim (Bool-cases (j == h)) [
    | inl t ↦
        let q : j ≡ h = ground arith in
        let e : tick_of (store h) ≡ k = subst (λ x. tick_of (store x) ≡ k) q o.1 in
        (s, ground arith)
    | inr f ↦
        let (r, e) = slot_remove_entry_finds n store i h s o.3 (ground arith) in
        ((k, j) ∷ r, ground arith)
  ]

  SlotOk-tick :
      (n : ℕ) (store : ℕ → Option (Entry A)) (i h : ℕ) (s : Slot)
      → SlotOk n store i s
      → 1 ≤ count h (addresses s)
      → (tick_of (store h) % n ≡ i) × (1 ≤ duration_of (store h))
  SlotOk-tick n store i h [] o c = absurd (omega arith)
  SlotOk-tick n store i h ((k, j) ∷ s) o c = elim (Bool-cases (j == h)) [
    | inl t ↦
        let q : j ≡ h = ground arith in
        subst (λ x. (tick_of (store x) % n ≡ i) × (1 ≤ duration_of (store x))) q
          (ap (λ x. x % n) o.1 ∙ o.0, o.2)
    | inr f ↦ SlotOk-tick n store i h s o.3 (ground arith)
  ]

  -- It stands in the slot of its tick.
  pub filed_at :
      (n : ℕ) (store : ℕ → Option (Entry A)) (i h : ℕ) (ss : List Slot)
      → SlotsOk n store i ss
      → 1 ≤ total h ss
      → (i ≤ tick_of (store h) % n)
        × (1 ≤ count h (addresses (get_or ss (tick_of (store h) % n - i) [])))
        × (1 ≤ duration_of (store h))
  filed_at n store i h [] o c = absurd (omega arith)
  filed_at n store i h (s ∷ ss) o c = elim (Bool-cases (leb 1 (count h (addresses s)))) [
    | inl t ↦
        let (p, d) = SlotOk-tick n store i h s o.0 (ground arith) in
        let z : tick_of (store h) % n - i ≡ 0 = omega arith in (omega arith, rw z (ground arith), d)
    | inr f ↦
        let (p, b, d) = filed_at n store (suc i) h ss o.1 (ground arith) in
        let z : tick_of (store h) % n - i ≡ suc (tick_of (store h) % n - suc i) = omega arith in
        (omega arith, rw z b, d)
  ]
