-- ===== src/Memory/Tests.antt =====
-- zysoft/zysoft/memory/: a run of the calls on a small flat buffer, and a request that is too large.
use zysoft.Prelude.{◌≡◌, List, [], ◌∷◌, none, some, arith, ◌*◌, ◌^◌, ◌<◌, ◌⊎◌, size_mod}
use zysoft.Memory.Allocators.{allocate, null_allocate, allocate_lem}
use zysoft.Memory.FlatBuffer.{
  create, contents, append, consume, shrink, prepare_writable_bytes, make_space,
}
use zysoft.Memory.FlatBuffer.Valid.{create-IsValid}
use zysoft.Memory.FlatBuffer.Refine.{
  Op, appends, consumes, shrinks, run, step, run_queue, AllFit, run_refines,
}

abbrev script : List Op
script =
    appends (some (1 ∷ 2 ∷ 3 ∷ []))
    ∷ consumes 2
    ∷ appends (some (4 ∷ 5 ∷ []))
    ∷ shrinks
    ∷ consumes 9
    ∷ []

script-AllFit : AllFit 2 script (create 2 4)
unfolding step create append prepare_writable_bytes make_space consume shrink
script-AllFit = (omega arith, (tt, (omega arith, (tt, (tt, tt)))))

run_refines_example : run 2 script (create 2 4) ≡ run_queue script (contents (create 2 4))
run_refines_example =
    run_refines 2 script (create 2 4) (create-IsValid 2 4 (omega arith)).0 script-AllFit

-- A request for 2 ^ 62 elements of 4 bytes.
allocate_lem_example :
    (allocate null_allocate 4 (2 ^ 62) ≡ none)
    ⊎ ((2 ^ 62 * 4 < size_mod) × (allocate null_allocate 4 (2 ^ 62) ≡ null_allocate (2 ^ 62 * 4)))
allocate_lem_example = allocate_lem null_allocate 4 (2 ^ 62) (omega arith)
