-- ===== src/Net/LoopPool/Ends.antt =====
-- zysoft/net/event_loop_thread_pool.h, event_loop_thread.h: when `sync_start` has returned, and before.
use zysoft.Prelude.{
  ℕ, zero, suc, ◌+◌, ◌*◌, ◌%◌, ◌^◌, ◌≤◌, ◌<◌, ◌≡◌, refl, sym, ap, ◌∙◌, List, [], ◌∷◌, Option, none,
  some, Bool, true, false, arith, if◌then◌else◌, length, get_elem?, inl, inr, subst, ◌⊎◌, ◌==◌, not,
}
use native.Mathlib.Nat.{mod-lt}
use zysoft.Prelude.Int.{ℤ, to_ℕ}
use zysoft.Net.LoopPool.{LoopPool, next_event_loop, after_calls, round_robin}
use zysoft.Net.LoopPool.Start.{
  Phase, begun, has_loop, called_back, in_loop, ended, LoopThread, Caller, starting, waiting,
  returned, Pool, create_pool, poll, advance_caller, run_phase, StartEvent, caller_steps,
  thread_steps, step, run, loops, ask_quit, joins,
}
use zysoft.Net.LoopPool.Phases.{
  loop_at, has_phase, has_called_back, back_count, Started, AllStarted, phase_moves, moves_of,
}
use zysoft.Net.LoopPool.Ready.{Placed, Good, moves, moves_made, create_pool-Good, run-Good}

-- The loops of `n` threads from the number `k` on.
abbrev pub numbered : ℕ → ℕ → List (Option ℕ)
numbered k zero = []
numbered k (suc n) = some k ∷ numbered (suc k) n

length-numbered : (k n : ℕ) → length (numbered k n) ≡ n
length-numbered k zero = refl
length-numbered k (suc n) = ap suc (length-numbered (suc k) n)

get_elem-numbered : (k n i : ℕ) → i < n → get_elem? (numbered k n) i ≡ some (some (k + i))
get_elem-numbered k zero i h = absurd (omega arith)
get_elem-numbered k (suc n) zero h = ap (λ x. some (some x)) (omega arith)
get_elem-numbered k (suc n) (suc i) h =
    get_elem-numbered (suc k) n i (omega arith) ∙ ap (λ x. some (some x)) (omega arith)

back_le_one : (ph : Option Phase) → has_called_back ph ≤ 1
back_le_one none = omega arith
back_le_one (some begun) = omega arith
back_le_one (some has_loop) = omega arith
back_le_one (some called_back) = omega arith
back_le_one (some in_loop) = omega arith
back_le_one (some ended) = omega arith

back_le_length : (ts : List LoopThread) → back_count ts ≤ length ts
back_le_length [] = omega arith
back_le_length (t ∷ ts) = omega (arith, back_le_length ts, back_le_one t.phase)

loop_made : (k : ℕ) (ph : Option Phase) → has_called_back ph ≡ 1 → loop_at k ph ≡ some k
loop_made k none h = absurd (omega arith)
loop_made k (some begun) h = absurd (omega arith)
loop_made k (some has_loop) h = refl
loop_made k (some called_back) h = refl
loop_made k (some in_loop) h = refl
loop_made k (some ended) h = refl

-- If all threads have called back, all have their loops.
loops-numbered :
    (k : ℕ) (ts : List LoopThread)
    → AllStarted k ts
    → length ts ≤ back_count ts
    → loops ts ≡ numbered k (length ts)
loops-numbered k [] s h = refl
loops-numbered k (t ∷ ts) s h =
    let a = back_le_length ts in
    let b = back_le_one t.phase in
    let here : t.loop ≡ some k = s.0.its_loop ∙ loop_made k t.phase (omega arith) in
    rw (here, loops-numbered (suc k) ts s.1 (omega arith)) refl

-- The pool as `next_event_loop` sees it.
abbrev pub as_loops : ℕ → Pool → LoopPool
as_loops base_loop p = record { base_loop = base_loop; threads = loops p.threads; next = 0 }

returned-loops :
    (num : ℤ) (es : List StartEvent)
    → (run es (create_pool num)).caller ≡ returned
    → loops (run es (create_pool num)).threads ≡ numbered 0 (to_ℕ num)
returned-loops num es r =
    let p = run es (create_pool num) in
    let (g, _) = run-Good es (to_ℕ num) (create_pool num) (create_pool-Good num).0 in
    let (all, enough) =
      subst (λ c. Placed c (to_ℕ num) (length p.threads) p.running_num) r g.placed in
    let counted = g.counted in
    loops-numbered 0 p.threads g.all_started (omega arith) ∙ ap (λ n. numbered 0 n) all

no_turn : (p : LoopPool) → length p.threads ≡ 0 → next_event_loop p ≡ (p, some (some p.base_loop))
unfolding next_event_loop
no_turn p e = ground arith

no_threads :
    (k : ℕ) (p : LoopPool)
    → length p.threads ≡ 0
    → (next_event_loop (after_calls k p)).1 ≡ some (some p.base_loop)
unfolding after_calls
no_threads zero p e = ap (λ x. x.1) (no_turn p e)
no_threads (suc k) p e = rw (no_turn p e) (no_threads k p e)

hands_out :
    (n base_loop k : ℕ) (ts : List (Option ℕ))
    → n < 2 ^ 31
    → ts ≡ numbered 0 n
    → let p : LoopPool = record { base_loop = base_loop; threads = ts; next = 0 } in
      (next_event_loop (after_calls k p)).1 ≡ some (some (if n == 0 then base_loop else k % n))
hands_out zero base_loop k ts small e = no_threads k _ (ap length e)
hands_out (suc n) base_loop k ts small e =
    let long : length ts ≡ suc n = ap length e ∙ length-numbered 0 (suc n) in
    round_robin k _ refl (omega arith) (omega arith)
    ∙ rw (long, e) (get_elem-numbered 0 (suc n) (k % suc n) (mod-lt k (omega arith)) ∙ ground arith)

-- However the threads interleave, once `sync_start` has returned, call `k` of `next_event_loop`, from 0 on, gives the
-- loop of the thread `k % n` of the `n` threads, and never a null pointer; with no threads it gives the base loop.
pub sync_start_lem :
    (num : ℤ) (es : List StartEvent) (base_loop k : ℕ)
    → to_ℕ num < 2 ^ 31
    → (run es (create_pool num)).caller ≡ returned
    → let n = to_ℕ num in
      (next_event_loop (after_calls k (as_loops base_loop (run es (create_pool num))))).1
      ≡ some (some (if n == 0 then base_loop else k % n))
sync_start_lem num es base_loop k small r =
    hands_out (to_ℕ num) base_loop k _ small (returned-loops num es r)

move_or_back :
    (ph : Option Phase) → has_phase ph ≡ true → (phase_moves ph ≡ 1) ⊎ (has_called_back ph ≡ 1)
move_or_back none h = cc
move_or_back (some begun) h = inl refl
move_or_back (some has_loop) h = inl refl
move_or_back (some called_back) h = inl refl
move_or_back (some in_loop) h = inr refl
move_or_back (some ended) h = inr refl

-- Some thread can step on, or all have called back.
thread_moves :
    (k : ℕ) (ts : List LoopThread)
    → AllStarted k ts
    → ((i : ℕ) × (moves_of i ts ≡ 1)) ⊎ (length ts ≤ back_count ts)
thread_moves k [] s = inr (omega arith)
thread_moves k (t ∷ ts) s = elim (move_or_back t.phase s.0.in_thread) [
  | inl m ↦ inl (zero, m)
  | inr b ↦ elim (thread_moves (suc k) ts s.1) [
    | inl (i, m) ↦ inl (suc i, m)
    | inr r ↦ inr (omega arith)
  ]
]

poll_returns :
    (n : ℕ) (p : Pool) → to_ℕ p.num_threads ≡ n → n ≤ p.running_num → (poll p).caller ≡ returned
unfolding poll
poll_returns n p e h = ground arith

next_move :
    (c : Caller) (n : ℕ) (p : Pool)
    → p.caller ≡ c
    → Good n p
    → ((e : StartEvent) × (moves e p ≡ 1)) ⊎ ((advance_caller c p).caller ≡ returned)
unfolding advance_caller
next_move starting n p c g = inl (caller_steps, rw c refl)
next_move waiting n p c g = elim (thread_moves 0 p.threads g.all_started) [
  | inl (i, m) ↦ inl (thread_steps i, m)
  | inr r ↦
      let all : length p.threads ≡ n =
        subst (λ x. Placed x n (length p.threads) p.running_num) c g.placed in
      let counted = g.counted in inr (poll_returns n p g.number (omega arith))
]
next_move returned n p c g = inr c

-- In every run of a start with `n` threads at most 4 * n + 1 steps bring it on, and as long as the next test of
-- `sync_start` would not end it, some thread or the caller can make such a step.
pub sync_start_ends :
    (num : ℤ) (es : List StartEvent)
    → let p = run es (create_pool num) in
      (moves_made es (create_pool num) ≤ 1 + 4 * to_ℕ num)
      × (((e : StartEvent) × (moves e p ≡ 1)) ⊎ ((step caller_steps p).caller ≡ returned))
unfolding step
sync_start_ends num es =
    let (made, w) = create_pool-Good num in
    let (g, left) = run-Good es (to_ℕ num) (create_pool num) made in
    let p = run es (create_pool num) in
    (omega (arith, left, w), next_move p.caller (to_ℕ num) p refl g)

-- The thread `k` after `n` more of its steps.
unfoldable pub advance_thread : ℕ → ℕ → LoopThread → LoopThread
advance_thread zero k t = t
advance_thread (suc n) k t = advance_thread n k (run_phase k t.phase t)

abbrev pub is_begun : Option Phase → Bool
is_begun none = false
is_begun (some begun) = true
is_begun (some has_loop) = false
is_begun (some called_back) = false
is_begun (some in_loop) = false
is_begun (some ended) = false

-- A started thread at a place of `thread_func`.
abbrev thread_at : ℕ → Phase → Bool → LoopThread
thread_at k ph asked = record {
  running = true;
  loop = loop_at k (some ph);
  phase = some ph;
  quit_asked = asked;
}

stays_ended :
    (n k : ℕ) (asked : Bool) → joins (advance_thread n k (thread_at k ended asked)).phase ≡ true
unfolding advance_thread run_phase
stays_ended zero k asked = refl
stays_ended (suc n) k asked = stays_ended n k asked

stays_in_loop : (n k : ℕ) → joins (advance_thread n k (thread_at k in_loop false)).phase ≡ false
unfolding advance_thread run_phase
stays_in_loop zero k = refl
stays_in_loop (suc n) k = stays_in_loop n k

joins_at :
    (n k : ℕ) (ph : Phase)
    → joins (advance_thread (suc (suc (suc (suc n)))) k (ask_quit (thread_at k ph false))).phase
      ≡ not (is_begun (some ph))
unfolding ask_quit run_phase advance_thread
joins_at n k begun = stays_in_loop (suc n) k
joins_at n k has_loop = stays_ended (suc n) k true
joins_at n k called_back = stays_ended (suc (suc n)) k true
joins_at n k in_loop = stays_ended (suc (suc (suc n))) k true
joins_at n k ended = stays_ended (suc (suc (suc (suc n)))) k true

join_in_phase :
    (n k : ℕ) (ph : Option Phase) (t : LoopThread)
    → t.phase ≡ ph
    → Started k t
    → joins (advance_thread (4 + n) k (ask_quit t)).phase ≡ not (is_begun t.phase)
join_in_phase n k none t e s = absurd (ground (arith, s.in_thread))
join_in_phase n k (some ph) t e s =
    let same : thread_at k ph false ≡ t = λ i. record {
      running = sym s.is_running i;
      loop = sym (s.its_loop ∙ ap (loop_at k) e) i;
      phase = sym e i;
      quit_asked = sym s.not_asked i;
    } in
    let four : suc (suc (suc (suc n))) ≡ 4 + n = omega arith in
    subst (λ m. joins (advance_thread m k (ask_quit t)).phase ≡ not (is_begun t.phase)) four
      (subst
        (λ u.
          joins (advance_thread (suc (suc (suc (suc n)))) k (ask_quit u)).phase
          ≡ not (is_begun u.phase))
        same (joins_at n k ph))

-- A started thread is destroyed. Once it has made four more steps, and any more, `join` returns exactly if the thread had
-- made its loop when the destructor asked: it waits for good for a thread that had not.
pub early_destroy_hangs :
    (n k : ℕ) (t : LoopThread)
    → Started k t
    → joins (advance_thread (4 + n) k (ask_quit t)).phase ≡ not (is_begun t.phase)
early_destroy_hangs n k t s = join_in_phase n k t.phase t refl s
