-- ===== src/Net/LoopPool/Tests.antt =====
-- zysoft/net/event_loop_thread_pool.h: a pool of two threads that starts.
use zysoft.Prelude.{
  ◌+◌, ◌*◌, ◌%◌, ◌≤◌, ◌≡◌, refl, List, [], ◌∷◌, some, arith, ◌⊎◌, if◌then◌else◌, ◌==◌, not,
}
use zysoft.Prelude.Int.{ℤ, pos, to_ℕ}
use zysoft.Net.LoopPool.{next_event_loop, after_calls}
use zysoft.Net.LoopPool.Start.{
  LoopThread, create_thread, start_thread, returned, create_pool, start_one, poll, advance_caller,
  run_phase, run_thread, StartEvent, caller_steps, thread_steps, step, run, ask_quit, joins,
}
use zysoft.Net.LoopPool.Phases.{Started}
use zysoft.Net.LoopPool.Ready.{moves, moves_made}
use zysoft.Net.LoopPool.Ends.{
  as_loops, sync_start_lem, sync_start_ends, advance_thread, is_begun, early_destroy_hangs,
}

abbrev two : ℤ
two = pos 2

-- The second thread runs before the first is made ready.
abbrev interleaved : List StartEvent
interleaved =
    caller_steps
    ∷ caller_steps
    ∷ thread_steps 1
    ∷ thread_steps 1
    ∷ caller_steps
    ∷ caller_steps
    ∷ thread_steps 0
    ∷ thread_steps 0
    ∷ caller_steps
    ∷ []

sync_start_lem_example :
    (next_event_loop (after_calls 5 (as_loops 9 (run interleaved (create_pool two))))).1
    ≡ some (some (if to_ℕ two == 0 then 9 else 5 % 2))
unfolding run step create_pool start_one poll advance_caller run_phase run_thread start_thread
    create_thread
sync_start_lem_example = sync_start_lem two interleaved 9 5 (omega arith) refl

sync_start_ends_example :
    let p = run interleaved (create_pool two) in
    (moves_made interleaved (create_pool two) ≤ 1 + 4 * 2)
    × (((e : StartEvent) × (moves e p ≡ 1)) ⊎ ((step caller_steps p).caller ≡ returned))
sync_start_ends_example = sync_start_ends two interleaved

abbrev new_thread : LoopThread
unfolding start_thread create_thread
new_thread = start_thread create_thread

new_thread-Started : Started 0 new_thread
unfolding start_thread create_thread
new_thread-Started = record {
  is_running = refl;
  its_loop = refl;
  in_thread = refl;
  not_asked = refl;
}

early_destroy_hangs_example :
    joins (advance_thread (4 + 100) 0 (ask_quit new_thread)).phase ≡ not (is_begun new_thread.phase)
early_destroy_hangs_example = early_destroy_hangs 100 0 new_thread new_thread-Started
