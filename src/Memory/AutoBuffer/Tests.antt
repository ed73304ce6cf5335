-- ===== src/Memory/AutoBuffer/Tests.antt =====
-- zysoft/zysoft/memory/auto_buffer.h: buffers on an allocator that refuses its third request.
use zysoft.Prelude.{
  ℕ, ◌≡◌, refl, List, [], ◌∷◌, Option, none, some, false, arith, if◌then◌else◌, ◌==◌, length,
  length-replicate, replicate, Bool-cases, inl, inr,
}
use zysoft.Memory.AutoBuffer.{create, resize, destroy}
use zysoft.Memory.AutoBuffer.Resize.{Resized}
use zysoft.Memory.AutoBuffer.Life.{resize_lem}
use zysoft.Memory.AutoBuffer.Create.{create-Valid}
use zysoft.Memory.AutoBuffer.Runs.{
  BufferCall, resizes, assigns, run, no_block_leaks, wrong_size_released,
}

abbrev sevens : ℕ → ℕ → Option (List ℕ)
sevens k n = if k == 2 then none else some (replicate n 7)

sevens-size : (k n : ℕ) (xs : List ℕ) → sevens k n ≡ some xs → length xs ≡ n
sevens-size k n xs e = elim (Bool-cases (k == 2)) [
  | inl f ↦ absurd (ground arith)
  | inr f ↦ let p : replicate n 7 ≡ xs = ground arith in rw (← p) (length-replicate {A = ℕ} n 7)
]

abbrev ups_and_downs : List BufferCall
ups_and_downs =
    assigns 1 5 ∷ resizes 6 ∷ resizes 2 ∷ assigns 9 9 ∷ resizes 9 ∷ resizes 0 ∷ resizes 8 ∷ []

resize_lem_example : Resized 4 sevens 6 (create 4 sevens 2) (resize 4 sevens 6 (create 4 sevens 2))
resize_lem_example =
    resize_lem 4 sevens 6 (create 4 sevens 2) (sevens-size _ 6)
      (create-Valid 4 sevens sevens-size 2)

no_block_leaks_example :
    let b = destroy (run 4 sevens ups_and_downs (create 4 sevens 5)) in
    ((j : ℕ) → b.heap j ≡ none) × (b.fault ≡ false)
no_block_leaks_example = no_block_leaks 4 sevens sevens-size 5 ups_and_downs

wrong_size_released_example :
    (destroy (resize 4 sevens 2 (create 4 sevens 6)).0).released ≡ (6, 2) ∷ []
wrong_size_released_example =
    wrong_size_released 4 sevens sevens-size 6 2 (replicate 6 7) (omega arith) refl (omega arith)
      (omega arith)
