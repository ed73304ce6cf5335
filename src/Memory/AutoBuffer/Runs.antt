-- ===== src/Memory/AutoBuffer/Runs.antt =====
-- zysoft/zysoft/memory/auto_buffer.h: a buffer from its construction to its destruction.
use zysoft.Prelude.{
  ℕ, ◌+◌, ◌≤◌, ◌<◌, ◌≡◌, refl, ◌∙◌, ap, List, [], ◌∷◌, Option, none, some, true, false, arith, ltb,
  length, replicate, set, length-set, length-replicate, Bool-cases, Option-cases, inl, inr, subst,
}
use zysoft.Memory.Bytes.{copy_to, length-copy_to}
use zysoft.Memory.AutoBuffer.{
  bare, inside, block, AutoBuffer, elements, put, overwrite, dealloc, create, resize, assign,
  destroy,
}
use zysoft.Memory.AutoBuffer.Shape.{Owns, Valid, internal_place}
use zysoft.Memory.AutoBuffer.Life.{resize_cases, resize-Valid, dealloc_frees}
use zysoft.Memory.AutoBuffer.Resize.{dealloc-some}
use zysoft.Memory.AutoBuffer.Create.{overwrite-Valid, block_fill_lem, create_cases, create-Valid}

assign-Valid :
    (space i x : ℕ) (b b' : AutoBuffer) → assign i x b ≡ some b' → Valid space b → Valid space b'
unfolding assign
assign-Valid space i x b b' e v = elim (Bool-cases (ltb i b.items)) [
  | inl f ↦
      let g : overwrite b.buffer (set (elements b.buffer b) i x) b ≡ b' = ground arith in
      subst (Valid space) g
        (overwrite-Valid space b.buffer _ b refl (length-set (elements b.buffer b) i x) v)
  | inr f ↦ absurd (ground arith)
]

pub data BufferCall : Type 0 where
  resizes : ℕ → BufferCall
  assigns : ℕ → ℕ → BufferCall

module _ (space : ℕ) (request : ℕ → ℕ → Option (List ℕ)) where
  unfoldable pub perform : BufferCall → AutoBuffer → AutoBuffer
  perform (resizes n) b = (resize space request n b).0
  perform (assigns i x) b = elim (assign i x b) [ none ↦ b | some b' ↦ b' ]

  unfoldable pub run : List BufferCall → AutoBuffer → AutoBuffer
  run [] b = b
  run (x ∷ xs) b = run xs (perform x b)

module _ (space : ℕ) (request : ℕ → ℕ → Option (List ℕ))
    (sized : (k n : ℕ) (xs : List ℕ) → request k n ≡ some xs → length xs ≡ n) where
  perform-Valid :
      (x : BufferCall) (b : AutoBuffer) → Valid space b → Valid space (perform space request x b)
  unfolding perform
  perform-Valid (resizes n) b v = resize-Valid space request n b (sized b.requests n) v
  perform-Valid (assigns i x) b v = elim (Option-cases (assign i x b)) [
    | inl e ↦ rw (e, perform) v
    | inr (b', e) ↦ rw (e, perform) (assign-Valid space i x b b' e v)
  ]

  run-Valid :
      (xs : List BufferCall) (b : AutoBuffer) → Valid space b → Valid space (run space request xs b)
  unfolding run
  run-Valid [] b v = v
  run-Valid (x ∷ xs) b v = run-Valid xs (perform space request x b) (perform-Valid x b v)

  destroy_frees :
      (b : AutoBuffer)
      → Valid space b
      → ((j : ℕ) → (destroy b).heap j ≡ none) × ((destroy b).fault ≡ false)
  unfolding destroy
  destroy_frees b v = elim (Bool-cases b.external) [
    | inl x ↦ let (f, _, _, g) = dealloc_frees space b x v in simp x (f, g)
    | inr x ↦
        let o : Owns false b.buffer b.heap = subst (λ t. Owns t b.buffer b.heap) x v.owned in
        let p = internal_place b.buffer b.heap o in
        let none_left : Owns false inside b.heap = subst (λ q. Owns false q b.heap) p o in
        simp x (none_left, v.no_fault)
  ]

  -- A buffer of any size, after any resizes and any writes in its bounds, whatever the allocator refuses: no
  -- copy and no fill passes the end of a block, nothing is deallocated twice, and after the
  -- destructor no block is left.
  pub no_block_leaks :
      (n : ℕ) (xs : List BufferCall)
      → let b = destroy (run space request xs (create space request n)) in
        ((j : ℕ) → b.heap j ≡ none) × (b.fault ≡ false)
  no_block_leaks n xs = destroy_frees _ (run-Valid xs _ (create-Valid space request sized n))

  -- A buffer made with at least `space` elements and then resized to fewer, but not to none, tells the deallocation
  -- the wrong size: the current one, where the block was allocated with the first.
  pub wrong_size_released :
      (n m : ℕ) (xs : List ℕ)
      → space ≤ n
      → request 0 n ≡ some xs
      → 1 ≤ m
      → m < n
      → (destroy (resize space request m (create space request n)).0).released ≡ (n, m) ∷ []
  unfolding destroy
  wrong_size_released n m xs p e o l =
      let big : ltb n space ≡ false = ground arith in
      let size = sized 0 n xs e in
      let made = (create_cases space request sized n).2 xs big e in
      let base : AutoBuffer = record (bare space request n) {
        buffer = block 0;
        external = true;
        heap = put 0 (some xs) (λ j. none);
        requests = 0 + 1;
      } in
      let ys = copy_to (replicate n 0) 0 xs in
      let fresh : AutoBuffer = overwrite (block 0) ys base in
      let filled = block_fill_lem n (block 0) base (omega (arith, size)) in
      let (_, _, _, shrinks) = resize_cases space request m fresh in
      let shrunk = shrinks o (omega arith) in
      let small : AutoBuffer = record fresh { items = m } in
      let told : (dealloc (block 0) m small).released ≡ (length ys, m) ∷ [] =
        ap (λ b. b.released) (dealloc-some 0 m ys small refl) in
      let known =
        length-copy_to (replicate n 0) 0 xs (omega (arith, size, length-replicate {A = ℕ} n 0)) in
      ap (λ b. (destroy (resize space request m b).0).released) (made ∙ filled)
      ∙ ap (λ r. (destroy r.0).released) shrunk
      ∙ told
      ∙ ap (λ k. (k, m) ∷ []) (known ∙ size)
