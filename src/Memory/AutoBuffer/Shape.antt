-- ===== src/Memory/AutoBuffer/Shape.antt =====
-- zysoft/zysoft/memory/auto_buffer.h: what holds of a buffer between its operations.
use zysoft.Prelude.{
  ℕ, ◌+◌, ◌≤◌, ◌≡◌, refl, List, Option, none, some, Bool, true, false, arith, ◌==◌, length, take,
  drop, length-append, length-take, length-drop, inl, inr, ◌⊎◌,
}
use zysoft.Memory.Bytes.{copy_to, take_prefix}
use zysoft.Memory.AutoBuffer.{Place, null, inside, block, AutoBuffer, elements}

-- The blocks that a buffer owns: the one it points to, if it is external, and no other.
abbrev pub Owns : Bool → Place → (ℕ → Option (List ℕ)) → Type 0
Owns false inside heap = (j : ℕ) → heap j ≡ none
Owns true null heap = (j : ℕ) → heap j ≡ none
Owns true (block a) heap =
    ((j : ℕ) → (j == a) ≡ false → heap j ≡ none) × ((xs : List ℕ) × (heap a ≡ some xs))
Owns _ _ heap = ⊥

pub record Valid (space : ℕ) (b : AutoBuffer) : Type 0 where
  pub owned : Owns b.external b.buffer b.heap
  pub room : b.items ≤ length (elements b.buffer b)
  pub inner : length b.internal ≡ space
  pub fresh : (j : ℕ) → b.requests ≤ j → b.heap j ≡ none
  pub no_fault : b.fault ≡ false

-- An external buffer has a block, or nothing and no items.
pub external_cases :
    (p : Place) (heap : ℕ → Option (List ℕ))
    → Owns true p heap
    → (p ≡ null) ⊎ ((a : ℕ) × (p ≡ block a))
external_cases null heap o = inl refl
external_cases inside heap o = absurd o
external_cases (block a) heap o = inr (a, refl)

pub internal_place : (p : Place) (heap : ℕ → Option (List ℕ)) → Owns false p heap → p ≡ inside
internal_place null heap o = absurd o
internal_place inside heap o = refl
internal_place (block a) heap o = absurd o

pub copied :
    (len : ℕ) (xs ys : List ℕ)
    → len ≤ length xs
    → len ≤ length ys
    → (length (copy_to (take len xs) 0 ys) ≡ length ys)
      × (take len (copy_to (take len xs) 0 ys) ≡ take len xs)
copied len xs ys p q = (
  omega (
    arith,
    length-append (take len xs) (drop (0 + length (take len xs)) ys),
    length-drop (0 + length (take len xs)) ys,
    length-take len xs,
  ),
  take_prefix len (take len xs) (drop (0 + length (take len xs)) ys)
      (omega (arith, length-take len xs)),
)
