-- ===== src/Timer/Wheel/Sorted.antt =====
-- zysoft/zysoft/timer/timing_wheel.h: a slot's `multimap` stays in the order of its ticks, so that the
-- `upper_bound` of `get_expired` cuts off what is due and nothing else.
use zysoft.Prelude.{
  ℕ, zero, suc, ◌≤◌, ◌<◌, ◌≡◌, refl, List, [], ◌∷◌, Option, some, arith, if◌then◌else◌, ◌==◌, ◌&&◌,
  get_or, set, replicate, Option-cases, inl, inr, Bool-cases, leb, subst,
}
use zysoft.Timer.Wheel.{Entry, Slot, addresses, insert_entry, slot_remove_entry, due, later}
use zysoft.Timer.Wheel.Counts.{count}
use zysoft.Timer.Wheel.Filing.{tick_of, SlotOk}

abbrev pub From : ℕ → Slot → Type 0
From t [] = Unit {0}
From t ((k, h) ∷ s) = (t ≤ k) × From t s

abbrev pub Sorted : Slot → Type 0
Sorted [] = Unit {0}
Sorted ((k, h) ∷ s) = From k s × Sorted s

abbrev pub AllSorted : List Slot → Type 0
AllSorted [] = Unit {0}
AllSorted (s ∷ ss) = Sorted s × AllSorted ss

From-mono : (t u : ℕ) (s : Slot) → u ≤ t → From t s → From u s
From-mono t u [] p f = tt
From-mono t u ((k, h) ∷ s) p f = (omega arith, From-mono t u s p f.1)

From-insert : (t k h : ℕ) (s : Slot) → t ≤ k → From t s → From t (insert_entry k h s)
unfolding insert_entry
From-insert t k h [] p f = (p, tt)
From-insert t k h ((k', h') ∷ s) p f = ground (arith, f, From-insert t k h s p f.1)

pub Sorted-insert : (k h : ℕ) (s : Slot) → Sorted s → Sorted (insert_entry k h s)
unfolding insert_entry
Sorted-insert k h [] o = (tt, tt)
Sorted-insert k h ((k', h') ∷ s) o =
    ground (arith, o, From-insert k' k h s, From-mono k' k s, Sorted-insert k h s o.1)

pub Sorted-later : (t : ℕ) (s : Slot) → Sorted s → Sorted (later t s)
unfolding later
Sorted-later t [] o = tt
Sorted-later t ((k, h) ∷ s) o = ground (arith, o, Sorted-later t s o.1)

From-remove :
    (t k h : ℕ) (s : Slot) {r : Slot} → slot_remove_entry k h s ≡ some r → From t s → From t r
unfolding slot_remove_entry
From-remove t k h [] e f = absurd (ground arith)
From-remove t k h ((k', h') ∷ s) {r = r} e f = elim (Bool-cases (k' == k && h' == h)) [
  | inl b ↦ let q : s ≡ r = ground arith in subst (From t) q f.1
  | inr b ↦ elim (Option-cases (slot_remove_entry k h s)) [
    | inl m ↦ absurd (ground arith)
    | inr (r', p) ↦
        let q : (k', h') ∷ r' ≡ r = ground arith in
        subst (From t) q (f.0, From-remove t k h s {r = r'} p f.1)
  ]
]

pub Sorted-remove :
    (k h : ℕ) (s : Slot) {r : Slot} → slot_remove_entry k h s ≡ some r → Sorted s → Sorted r
unfolding slot_remove_entry
Sorted-remove k h [] e o = absurd (ground arith)
Sorted-remove k h ((k', h') ∷ s) {r = r} e o = elim (Bool-cases (k' == k && h' == h)) [
  | inl b ↦ let q : s ≡ r = ground arith in subst Sorted q o.1
  | inr b ↦ elim (Option-cases (slot_remove_entry k h s)) [
    | inl m ↦ absurd (ground arith)
    | inr (r', p) ↦
        let q : (k', h') ∷ r' ≡ r = ground arith in
        subst Sorted q (From-remove k' k h s {r = r'} p o.0, Sorted-remove k h s {r = r'} p o.1)
  ]
]

pub AllSorted-replicate : (m : ℕ) → AllSorted (replicate m [])
AllSorted-replicate zero = tt
AllSorted-replicate (suc m) = (tt, AllSorted-replicate m)

pub AllSorted-get : (i : ℕ) (ss : List Slot) → AllSorted ss → Sorted (get_or ss i [])
AllSorted-get i [] o = tt
AllSorted-get zero (s ∷ ss) o = o.0
AllSorted-get (suc i) (s ∷ ss) o = AllSorted-get i ss o.1

pub AllSorted-set :
    (i : ℕ) (s : Slot) (ss : List Slot) → Sorted s → AllSorted ss → AllSorted (set ss i s)
AllSorted-set i s [] p o = tt
AllSorted-set zero s (x ∷ ss) p o = (p, o.1)
AllSorted-set (suc i) s (x ∷ ss) p o = (o.0, AllSorted-set i s ss p o.1)

module _ {A : Type 0} (n : ℕ) (store : ℕ → Option (Entry A)) where
  From-not_due :
      (t k i j : ℕ) (s : Slot)
      → t < k
      → From k s
      → SlotOk n store i s
      → tick_of (store j) ≤ t
      → count j (addresses s) ≡ 0
  From-not_due t k i j [] p f o q = refl
  From-not_due t k i j ((k', h) ∷ s) p f o q = elim (Bool-cases (h == j)) [
    | inl e ↦
        let e' : h ≡ j = ground arith in
        let r : tick_of (store j) ≡ k' = subst (λ x. tick_of (store x) ≡ k') e' o.1 in
        absurd (omega arith)
    | inr e ↦ ground (arith, From-not_due t k i j s p f.1 o.3 q)
  ]

  -- In a sorted slot `due t` has the entries whose tick is `t` or earlier.
  pub count-due :
      (t i j : ℕ) (s : Slot)
      → Sorted s
      → SlotOk n store i s
      → count j (addresses (due t s))
        ≡ (if leb (tick_of (store j)) t then count j (addresses s) else 0)
  unfolding due
  count-due t i j [] o f = ground arith
  count-due t i j ((k, h) ∷ s) o f = elim (Bool-cases (leb k t)) [
    | inl le ↦ elim (Bool-cases (h == j)) [
      | inl e ↦
          let e' : h ≡ j = ground arith in
          let r : tick_of (store j) ≡ k = subst (λ x. tick_of (store x) ≡ k) e' f.1 in
          ground (arith, count-due t i j s o.1 f.3)
      | inr e ↦ ground (arith, count-due t i j s o.1 f.3)
    ]
    | inr gt ↦ elim (Bool-cases (leb (tick_of (store j)) t)) [
      | inl le ↦
          let z = From-not_due t k i j s (ground arith) o.0 f.3 (ground arith) in
          elim (Bool-cases (h == j)) [
            | inl e ↦
                let e' : h ≡ j = ground arith in
                let r : tick_of (store j) ≡ k = subst (λ x. tick_of (store x) ≡ k) e' f.1 in
                absurd (ground arith)
            | inr e ↦ ground arith
          ]
      | inr late ↦ ground arith
    ]
  ]
