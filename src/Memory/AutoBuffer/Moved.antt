-- ===== src/Memory/AutoBuffer/Moved.antt =====
-- zysoft/zysoft/memory/auto_buffer.h: the items in a new block.
use zysoft.Prelude.{
  ℕ, ◌+◌, ◌≤◌, ◌≡◌, refl, sym, ◌∙◌, List, Option, none, some, Bool, true, false, arith, leb, ◌==◌,
  length, take, Bool-cases, inl, inr, subst, ap₂,
}
use zysoft.Memory.Bytes.{copy_to}
use zysoft.Memory.AutoBuffer.{
  Place, null, inside, block, AutoBuffer, elements, put, block_copy, overwrite,
}
use zysoft.Memory.AutoBuffer.Shape.{Owns, Valid, copied}

-- A new block, and one that has the items of the buffer copied in.
abbrev pub new_block : List ℕ → AutoBuffer → AutoBuffer
new_block xs b = record b { heap = put b.requests (some xs) b.heap; requests = b.requests + 1 }

abbrev pub filled : List ℕ → AutoBuffer → List ℕ
filled xs b = copy_to (take b.items (elements b.buffer b)) 0 xs

abbrev pub copied_block : List ℕ → AutoBuffer → AutoBuffer
copied_block xs b = record b {
  heap = put b.requests (some (filled xs b)) (put b.requests (some xs) b.heap);
  requests = b.requests + 1;
}

pub block_copy_lem :
    (to from : Place) (len : ℕ) (b : AutoBuffer)
    → len ≤ length (elements from b)
    → len ≤ length (elements to b)
    → block_copy to from len b
      ≡ overwrite to (copy_to (take len (elements from b)) 0 (elements to b)) b
unfolding block_copy
block_copy_lem to from len b p q =
    let e : leb len (length (elements from b)) ≡ true = ground arith in
    let f : leb len (length (elements to b)) ≡ true = ground arith in rw (e, f) refl

pub not_new :
    (a r : ℕ) (ys : List ℕ) (heap : ℕ → Option (List ℕ))
    → heap a ≡ some ys
    → heap r ≡ none
    → (a == r) ≡ false
not_new a r ys heap p q = elim (Bool-cases (a == r)) [
  | inl e ↦
      let same : a ≡ r = ground arith in let z = subst (λ x. heap x ≡ some ys) same p in absurd cc
  | inr e ↦ e
]

module _ (space : ℕ) where
  elements-new :
      (xs : List ℕ) (b : AutoBuffer) (p : Place)
      → Owns b.external p b.heap
      → b.heap b.requests ≡ none
      → elements p (new_block xs b) ≡ elements p b
  elements-new xs b null o f = refl
  elements-new xs b inside o f = refl
  elements-new xs b (block a) o f = elim (Bool-cases b.external) [
    | inl e ↦
        let o' : Owns true (block a) b.heap = subst (λ x. Owns x (block a) b.heap) e o in
        let (ys, p) = o'.1 in let q = not_new a b.requests ys b.heap p f in rw q refl
    | inr e ↦ absurd (subst (λ x. Owns x (block a) b.heap) e o)
  ]

  pub block_copy-new :
      (xs : List ℕ) (b : AutoBuffer)
      → Valid space b
      → b.items ≤ length xs
      → block_copy (block b.requests) b.buffer b.items (new_block xs b) ≡ copied_block xs b
  block_copy-new xs b v l =
      let here = elements-new xs b b.buffer v.owned (v.fresh b.requests (omega arith)) in
      let self : (b.requests == b.requests) ≡ true = ground arith in
      let there : elements (block b.requests) (new_block xs b) ≡ xs = rw self refl in
      block_copy_lem (block b.requests) b.buffer b.items (new_block xs b) (rw here v.room)
        (rw there l)
      ∙ ap₂
          (λ from to.
            overwrite (block b.requests) (copy_to (take b.items from) 0 to) (new_block xs b))
          here there

  -- A buffer with room for `n` items, the old ones among them.
  pub record Grown (n : ℕ) (b b' : AutoBuffer) : Type 0 where
    pub owned : Owns b'.external b'.buffer b'.heap
    pub room : n ≤ length (elements b'.buffer b')
    pub inner : length b'.internal ≡ space
    pub fresh : (j : ℕ) → b'.requests ≤ j → b'.heap j ≡ none
    pub no_fault : b'.fault ≡ false
    pub kept : take b.items (elements b'.buffer b') ≡ take b.items (elements b.buffer b)

  -- The buffer that points to a new block with the items copied in, the only one in `heap`.
  pub moved-Grown :
      (xs : List ℕ) (b : AutoBuffer) (heap : ℕ → Option (List ℕ)) (released : List (ℕ × ℕ))
      (external : Bool)
      → external ≡ true
      → Valid space b
      → b.items ≤ length xs
      → heap b.requests ≡ some (filled xs b)
      → ((j : ℕ) → (j == b.requests) ≡ false → heap j ≡ none)
      → Grown (length xs) b (record b {
        buffer = block b.requests;
        external = external;
        heap = heap;
        requests = b.requests + 1;
        released = released;
      })
  moved-Grown xs b heap released external x v l p o =
      let (len, same) = copied b.items (elements b.buffer b) xs v.room l in
      record {
        owned = subst (λ t. Owns t (block b.requests) heap) (sym x) (o, (filled xs b, p));
        room = rw p (omega (arith, len));
        inner = v.inner;
        fresh = λ j q. o j (ground arith);
        no_fault = v.no_fault;
        kept = rw p same;
      }
