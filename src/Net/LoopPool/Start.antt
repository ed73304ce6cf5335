-- ===== src/Net/LoopPool/Start.antt =====
-- zysoft/net/event_loop_thread.h and event_loop_thread_pool.h: how the threads of a pool start.
--
-- The starting thread runs `sync_start`; each thread that it makes runs `thread_func`. Every event is one of
-- their steps, and a run is any interleaving of them. The loop of the thread `k` is the number `k`.
use zysoft.Prelude.{
  ℕ, zero, suc, ◌+◌, List, [], ◌∷◌, ◌++◌, Option, none, some, Bool, true, false, if◌then◌else◌, ltb,
  length,
}
use zysoft.Prelude.Int.{ℤ, to_ℕ}

-- Where `thread_func` is.
pub data Phase : Type 0 where
  begun has_loop called_back in_loop ended : Phase

-- `running_`, `loop_` and the `std::thread` of an `event_loop_thread`; `quit_asked` is what `quit` did to the loop.
pub record LoopThread : Type 0 where
  pub running : Bool
  pub loop : Option ℕ
  pub phase : Option Phase
  pub quit_asked : Bool

-- The constructor.
unfoldable pub create_thread : LoopThread
create_thread = record { running = false; loop = none; phase = none; quit_asked = false }

unfoldable pub start_thread : LoopThread → LoopThread
start_thread t = if t.running then t else record t { running = true; phase = some begun }

-- Where the starting thread is: in `async_start`, in the loop of `sync_start`, or behind it.
pub data Caller : Type 0 where
  starting waiting returned : Caller

pub record Pool : Type 0 where
  pub num_threads : ℤ
  pub threads : List LoopThread
  pub running_num : ℕ
  pub caller : Caller

-- The constructor, `thread_num` and the call of `sync_start`.
unfoldable pub create_pool : ℤ → Pool
create_pool num = record { num_threads = num; threads = []; running_num = 0; caller = starting }

-- A round of the loop of `async_start`, or its end.
unfoldable pub start_one : Pool → Pool
unfolding start_thread create_thread
start_one p =
    if ltb (length p.threads) (to_ℕ p.num_threads)
    then record p { threads = p.threads ++ start_thread create_thread ∷ [] }
    else record p { caller = waiting }

-- The test of the loop of `sync_start`.
unfoldable pub poll : Pool → Pool
poll p = if ltb p.running_num (to_ℕ p.num_threads) then p else record p { caller = returned }

unfoldable pub advance_caller : Caller → Pool → Pool
unfolding start_one poll
advance_caller starting p = start_one p
advance_caller waiting p = poll p
advance_caller returned p = p

-- One step of `thread_func` on the thread `k`: `make_unique<event_loop>`, the callback, `loop()`, which returns once it
-- was asked to quit.
unfoldable pub run_phase : ℕ → Option Phase → LoopThread → LoopThread
run_phase k none t = t
run_phase k (some begun) t = record t { loop = some k; phase = some has_loop }
run_phase k (some has_loop) t = record t { phase = some called_back }
run_phase k (some called_back) t = record t { phase = some in_loop }
run_phase k (some in_loop) t = if t.quit_asked then record t { phase = some ended } else t
run_phase k (some ended) t = t

-- `thread_cb` counts the thread.
abbrev pub calls_back : Option Phase → ℕ
calls_back none = 0
calls_back (some begun) = 0
calls_back (some has_loop) = 1
calls_back (some called_back) = 0
calls_back (some in_loop) = 0
calls_back (some ended) = 0

-- The thread `i` places behind the one numbered `k`, with how much it adds to `running_num`.
unfoldable pub run_thread : ℕ → ℕ → List LoopThread → List LoopThread × ℕ
unfolding run_phase
run_thread k i [] = ([], 0)
run_thread k zero (t ∷ ts) = (run_phase k t.phase t ∷ ts, calls_back t.phase)
run_thread k (suc i) (t ∷ ts) = let (rest, n) = run_thread (suc k) i ts in (t ∷ rest, n)

pub data StartEvent : Type 0 where
  caller_steps : StartEvent
  thread_steps : ℕ → StartEvent

unfoldable pub step : StartEvent → Pool → Pool
unfolding advance_caller run_thread
step caller_steps p = advance_caller p.caller p
step (thread_steps i) p =
    let (ts, n) = run_thread 0 i p.threads in
    record p { threads = ts; running_num = p.running_num + n }

unfoldable pub run : List StartEvent → Pool → Pool
run [] p = p
run (e ∷ es) p = run es (step e p)

-- `get_event_loop` of the threads.
abbrev pub loops : List LoopThread → List (Option ℕ)
loops [] = []
loops (t ∷ ts) = t.loop ∷ loops ts

-- The destructor of an `event_loop_thread`, up to `join`.
unfoldable pub ask_quit : LoopThread → LoopThread
ask_quit t = elim t.loop [
  | none ↦ t
  | some l ↦ if t.running then record t { quit_asked = true } else t
]

-- Whether `join` returns: the function of the thread has ended, or there is no thread.
abbrev pub joins : Option Phase → Bool
joins none = true
joins (some begun) = false
joins (some has_loop) = false
joins (some called_back) = false
joins (some in_loop) = false
joins (some ended) = true
