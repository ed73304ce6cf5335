-- ===== src/Timer/Wheel/Counts.antt =====
-- zysoft/zysoft/timer/timing_wheel.h: how often an address stands in a container, and how the
-- containers' operations change that.
use zysoft.Prelude.{
  ℕ, zero, suc, ◌+◌, ◌-◌, ◌≤◌, ◌<◌, ◌≡◌, refl, List, [], ◌∷◌, ◌++◌, some, arith, if◌then◌else◌,
  ◌==◌, leb, length, get_or, set, Option-cases, inl, inr,
}
use zysoft.Timer.Wheel.{
  Slot, member, erase, erase_all, addresses, insert_entry, slot_remove_entry, due, later,
  wheel_entries_count, in_slots,
}

abbrev pub count : ℕ → List ℕ → ℕ
count h [] = 0
count h (x ∷ xs) = (if x == h then 1 else 0) + count h xs

abbrev pub total : ℕ → List Slot → ℕ
total h [] = 0
total h (s ∷ ss) = count h (addresses s) + total h ss

pub count-append : (h : ℕ) (xs ys : List ℕ) → count h (xs ++ ys) ≡ count h xs + count h ys
count-append h [] ys = omega arith
count-append h (x ∷ xs) ys = omega (arith, count-append h xs ys)

pub member-count : (h : ℕ) (xs : List ℕ) → member h xs ≡ leb 1 (count h xs)
member-count h [] = refl
member-count h (x ∷ xs) = ground (arith, member-count h xs)

pub count-erase :
    (j h : ℕ) (xs : List ℕ) → count j (erase h xs) ≡ count j xs - (if j == h then 1 else 0)
unfolding erase
count-erase j h [] = ground arith
count-erase j h (x ∷ xs) = ground (arith, count-erase j h xs)

pub length-erase : (h : ℕ) (xs : List ℕ) → 1 ≤ count h xs → length (erase h xs) + 1 ≡ length xs
unfolding erase
length-erase h [] p = absurd (omega arith)
length-erase h (x ∷ xs) p = ground (arith, length-erase h xs)

pub count-erase_all : (j : ℕ) (hs xs : List ℕ) → count j (erase_all hs xs) ≡ count j xs - count j hs
unfolding erase_all
count-erase_all j [] xs = omega arith
count-erase_all j (h ∷ hs) xs =
    ground (arith, count-erase_all j hs (erase h xs), count-erase j h xs)

pub length-erase_all :
    (hs xs : List ℕ)
    → ((j : ℕ) → count j hs ≤ count j xs)
    → length (erase_all hs xs) + length hs ≡ length xs
unfolding erase_all
length-erase_all [] xs p = omega arith
length-erase_all (h ∷ hs) xs p = ground (
  arith,
  p h,
  length-erase h xs,
  length-erase_all hs (erase h xs) (λ j. ground (arith, p j, count-erase j h xs)),
)

pub count-insert_entry :
    (j k h : ℕ) (s : Slot)
    → count j (addresses (insert_entry k h s)) ≡ (if h == j then 1 else 0) + count j (addresses s)
unfolding insert_entry
count-insert_entry j k h [] = refl
count-insert_entry j k h ((k', h') ∷ s) = ground (arith, count-insert_entry j k h s)

pub length-insert_entry :
    (k h : ℕ) (s : Slot) → length (addresses (insert_entry k h s)) ≡ suc (length (addresses s))
unfolding insert_entry
length-insert_entry k h [] = refl
length-insert_entry k h ((k', h') ∷ s) = ground (arith, length-insert_entry k h s)

-- What `slot_remove_entry` leaves, where it finds the entry.
pub slot_remove_entry_lem :
    (j k h : ℕ) (s : Slot) {r : Slot}
    → slot_remove_entry k h s ≡ some r
    → (count j (addresses s) ≡ (if h == j then 1 else 0) + count j (addresses r))
      × (length (addresses s) ≡ suc (length (addresses r)))
unfolding slot_remove_entry
slot_remove_entry_lem j k h [] e = absurd (ground arith)
slot_remove_entry_lem j k h ((k', h') ∷ s) e = elim (Option-cases (slot_remove_entry k h s)) [
  | inl n ↦ ground arith
  | inr (r', p) ↦ ground (arith, slot_remove_entry_lem j k h s p)
]

pub due-later :
    (j t : ℕ) (s : Slot)
    → (count j (addresses s) ≡ count j (addresses (due t s)) + count j (addresses (later t s)))
      × (length (addresses s) ≡ length (addresses (due t s)) + length (addresses (later t s)))
unfolding due later
due-later j t [] = (omega arith, omega arith)
due-later j t ((k, h) ∷ s) = ground (arith, due-later j t s)

-- One slot exchanged.
pub total-set :
    (j : ℕ) (ss : List Slot) (i : ℕ) (s : Slot)
    → i < length ss
    → total j (set ss i s) + count j (addresses (get_or ss i []))
      ≡ total j ss + count j (addresses s)
total-set j [] i s p = absurd (omega arith)
total-set j (x ∷ ss) zero s p = omega arith
total-set j (x ∷ ss) (suc i) s p = omega (arith, total-set j ss i s)

pub wheel_entries_count-set :
    (ss : List Slot) (i : ℕ) (s : Slot)
    → i < length ss
    → wheel_entries_count (set ss i s) + length (addresses (get_or ss i []))
      ≡ wheel_entries_count ss + length (addresses s)
unfolding wheel_entries_count
wheel_entries_count-set [] i s p = absurd (omega arith)
wheel_entries_count-set (x ∷ ss) zero s p = omega arith
wheel_entries_count-set (x ∷ ss) (suc i) s p = omega (arith, wheel_entries_count-set ss i s)

pub count-le-total :
    (j : ℕ) (ss : List Slot) (i : ℕ) → count j (addresses (get_or ss i [])) ≤ total j ss
count-le-total j [] i = omega arith
count-le-total j (x ∷ ss) zero = omega arith
count-le-total j (x ∷ ss) (suc i) = omega (arith, count-le-total j ss i)

pub in_slots-total : (h : ℕ) (ss : List Slot) → in_slots h ss ≡ leb 1 (total h ss)
unfolding in_slots
in_slots-total h [] = refl
in_slots-total h (s ∷ ss) = ground (arith, in_slots-total h ss, member-count h (addresses s))
