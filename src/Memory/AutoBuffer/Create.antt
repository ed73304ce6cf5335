-- ===== src/Memory/AutoBuffer/Create.antt =====
-- zysoft/zysoft/memory/auto_buffer.h: what the constructor leaves.
use zysoft.Prelude.{
  ℕ, ◌+◌, ◌≤◌, ◌<◌, ◌≡◌, refl, sym, ◌∙◌, List, Option, none, some, Bool, true, false, arith, leb,
  ltb, ◌==◌, length, replicate, length-replicate, Bool-cases, Option-cases, inl, inr, subst,
}
use zysoft.Memory.Bytes.{copy_to, length-copy_to}
use zysoft.Memory.AutoBuffer.{
  bare, Place, null, inside, block, AutoBuffer, elements, put, overwrite, block_fill, alloc, create,
}
use zysoft.Memory.AutoBuffer.Shape.{Owns, Valid}
use zysoft.Memory.AutoBuffer.Moved.{not_new}

owned_block :
    (a : ℕ) (external : Bool) (heap : ℕ → Option (List ℕ))
    → Owns external (block a) heap
    → (external ≡ true)
      × ((j : ℕ) → (j == a) ≡ false → heap j ≡ none)
      × ((xs : List ℕ) × (heap a ≡ some xs))
owned_block a true heap (o, h) = (refl, o, h)
owned_block a false heap o = absurd o

-- `xs` in the place of what stood there.
pub overwrite-Valid :
    (space : ℕ) (p : Place) (xs : List ℕ) (b : AutoBuffer)
    → b.buffer ≡ p
    → length xs ≡ length (elements p b)
    → Valid space b
    → Valid space (overwrite p xs b)
overwrite-Valid space null xs b e l v = v
overwrite-Valid space inside xs b e l v = record {
  owned = v.owned;
  room = rw e (omega (arith, subst (λ q. b.items ≤ length (elements q b)) e v.room));
  inner = l ∙ v.inner;
  fresh = v.fresh;
  no_fault = v.no_fault;
}
overwrite-Valid space (block a) xs b e l v =
    let self : (a == a) ≡ true = ground arith in
    let (ext, others, (old, held)) =
      owned_block a b.external b.heap (subst (λ q. Owns b.external q b.heap) e v.owned) in
    record {
      owned =
          subst (λ q. Owns b.external q (put a (some xs) b.heap)) (sym e)
            (subst (λ x. Owns x (block a) (put a (some xs) b.heap)) (sym ext)
              (λ j w. rw w (others j w), (xs, rw self refl)));
      room = rw e (rw self (omega (arith, subst (λ q. b.items ≤ length (elements q b)) e v.room)));
      inner = v.inner;
      fresh = λ j p.
          let w = not_new a j old b.heap held (v.fresh j p) in
          let w' : (j == a) ≡ false = ground arith in rw w' (v.fresh j p);
      no_fault = v.no_fault;
    }

pub block_fill_lem :
    (n : ℕ) (p : Place) (b : AutoBuffer)
    → n ≤ length (elements p b)
    → block_fill p n b ≡ overwrite p (copy_to (replicate n 0) 0 (elements p b)) b
unfolding block_fill
block_fill_lem n p b l = let f : leb n (length (elements p b)) ≡ true = ground arith in rw f refl

pub fill-Valid :
    (space n : ℕ) (p : Place) (b : AutoBuffer)
    → b.buffer ≡ p
    → n ≤ length (elements p b)
    → Valid space b
    → Valid space (block_fill p n b)
fill-Valid space n p b e l v = rw (block_fill_lem n p b l) (
    overwrite-Valid space p (copy_to (replicate n 0) 0 (elements p b)) b e
      (length-copy_to (replicate n 0) 0 (elements p b)
        (omega (arith, length-replicate {A = ℕ} n 0)))
      v)

module _ (space : ℕ) (request : ℕ → ℕ → Option (List ℕ))
    (sized : (k n : ℕ) (xs : List ℕ) → request k n ≡ some xs → length xs ≡ n) where
  pub create_cases :
      (n : ℕ)
      → (ltb n space ≡ true → create space request n ≡ block_fill inside n (bare space request n))
        × (ltb n space ≡ false
            → request 0 n ≡ none
            → create space request n
              ≡ block_fill null 0 (record (bare space request n) {
                buffer = null;
                items = 0;
                external = true;
                requests = 0 + 1;
              }))
        × ((xs : List ℕ)
            → ltb n space ≡ false
            → request 0 n ≡ some xs
            → create space request n
              ≡ block_fill (block 0) n (record (bare space request n) {
                buffer = block 0;
                external = true;
                heap = put 0 (some xs) (λ j. none);
                requests = 0 + 1;
              }))
  unfolding create alloc
  create_cases n = (λ e. ground arith, λ e f. ground arith, λ xs e f. ground arith)

  pub create-Valid : (n : ℕ) → Valid space (create space request n)
  create-Valid n =
      let (small, fails, moves) = create_cases n in
      let inner = length-replicate {A = ℕ} space 0 in
      elim (Bool-cases (ltb n space)) [
        | inl e ↦ subst (Valid space) (sym (small e)) (
            fill-Valid space n inside (bare space request n) refl
              (let l : n < space = ground arith in omega (arith, inner))
              (record {
                owned = λ j. refl;
                room = let l : n < space = ground arith in omega (arith, inner);
                inner = inner;
                fresh = λ j p. refl;
                no_fault = refl;
              }))
        | inr e ↦ elim (Option-cases (request 0 n)) [
          | inl f ↦ subst (Valid space) (sym (fails e f)) (
              fill-Valid space 0 null _ refl (omega arith) (record {
                owned = λ j. refl;
                room = omega arith;
                inner = inner;
                fresh = λ j p. refl;
                no_fault = refl;
              }))
          | inr (xs, f) ↦
              let size = sized 0 n xs f in
              subst (Valid space) (sym (moves xs e f)) (
                fill-Valid space n (block 0) _ refl (omega (arith, size)) (record {
                  owned = (λ j w. rw w refl, (xs, refl));
                  room = omega (arith, size);
                  inner = inner;
                  fresh = λ j p. let w : (j == 0) ≡ false = ground arith in rw w refl;
                  no_fault = refl;
                }))
        ]
      ]
