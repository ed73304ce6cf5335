-- ===== src/Memory/Allocators.antt =====
-- zysoft/zysoft/memory/allocator_base.h and null_allocator.h: `allocate`, where `none` is `std::bad_alloc`. A block is
-- its address; the sizes are 64 bits wide.
use zysoft.Prelude.{
  ℕ, ◌-◌, ◌*◌, ◌/◌, ◌%◌, ◌<◌, ◌≤◌, ◌≡◌, refl, Option, none, arith, if◌then◌else◌, ltb, size_mod,
  Bool-cases, inl, inr, ◌⊎◌,
}
use native.Mathlib.Nat.{le-div_iff_mul-le}

-- `allocator_base<T, A>::allocate`, with `sizeof(T)` and what `A::allocate_impl` returns.
unfoldable pub allocate : (ℕ → Option ℕ) → ℕ → ℕ → Option ℕ
allocate allocate_impl size n =
    if ltb ((size_mod - 1) / size) n then none else allocate_impl (n * size % size_mod)

-- `null_allocator<T>::allocate_impl`
unfoldable pub null_allocate : ℕ → Option ℕ
null_allocate n = none

-- Where `allocate` does not throw at once, the bytes of the elements fit the size, and as many are asked for.
pub allocate_lem :
    (allocate_impl : ℕ → Option ℕ) (size n : ℕ)
    → 0 < size
    → (allocate allocate_impl size n ≡ none)
      ⊎ ((n * size < size_mod) × (allocate allocate_impl size n ≡ allocate_impl (n * size)))
unfolding allocate
allocate_lem allocate_impl size n p = elim (Bool-cases (ltb ((size_mod - 1) / size) n)) [
  | inl e ↦ inl (rw e refl)
  | inr e ↦
      let below : n ≤ (size_mod - 1) / size = ground arith in
      let fits = (le-div_iff_mul-le {k = size} p).0 below in
      let small : n * size < size_mod = omega arith in
      let m : n * size % size_mod ≡ n * size = omega arith in inr (small, rw (e, m) refl)
]

pub null_allocate_lem : (size n : ℕ) → allocate null_allocate size n ≡ none
unfolding allocate null_allocate
null_allocate_lem size n = ground arith
