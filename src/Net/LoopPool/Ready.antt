-- ===== src/Net/LoopPool/Ready.antt =====
-- zysoft/net/event_loop_thread_pool.h: what holds of a pool in every interleaving of its start.
use zysoft.Prelude.{
  ℕ, ◌+◌, ◌-◌, ◌*◌, ◌≤◌, ◌<◌, ◌≡◌, refl, sym, List, [], ◌∷◌, ◌++◌, arith, ltb, length,
  length-append, Bool-cases, inl, inr, subst,
}
use zysoft.Prelude.Int.{ℤ, to_ℕ}
use zysoft.Net.LoopPool.Start.{
  create_thread, start_thread, Caller, starting, waiting, returned, Pool, create_pool, start_one,
  poll, advance_caller, run_thread, StartEvent, caller_steps, thread_steps, step, run,
}
use zysoft.Net.LoopPool.Phases.{
  back_count, left_count, moves_of, Started, AllStarted, run_thread-AllStarted, AllStarted-append,
  back_count-append,
}

-- The place of the starting thread.
abbrev pub Placed : Caller → ℕ → ℕ → ℕ → Type 0
Placed starting n made back = made ≤ n
Placed waiting n made back = made ≡ n
Placed returned n made back = (made ≡ n) × (n ≤ back)

pub record Good (n : ℕ) (p : Pool) : Type 0 where
  pub number : to_ℕ p.num_threads ≡ n
  pub all_started : AllStarted 0 p.threads
  pub counted : p.running_num ≡ back_count p.threads
  pub placed : Placed p.caller n (length p.threads) p.running_num

-- What is still to be done, in steps of the caller up to `sync_start`'s loop and of the threads.
abbrev caller_left : Caller → ℕ → ℕ → ℕ
caller_left starting n made = 1 + 4 * (n - made)
caller_left waiting n made = 0
caller_left returned n made = 0

abbrev pub work_left : ℕ → Pool → ℕ
work_left n p = caller_left p.caller n (length p.threads) + left_count p.threads

new_thread-Started : (k : ℕ) → Started k (start_thread create_thread)
unfolding start_thread create_thread
new_thread-Started k = record {
  is_running = refl;
  its_loop = refl;
  in_thread = refl;
  not_asked = refl;
}

-- Whether an event brings the start on; a step of a thread in its loop does not, nor a failed test.
abbrev pub caller_moves : Caller → ℕ
caller_moves starting = 1
caller_moves waiting = 0
caller_moves returned = 0

abbrev pub moves : StartEvent → Pool → ℕ
moves caller_steps p = caller_moves p.caller
moves (thread_steps i) p = moves_of i p.threads

start_one-Good :
    (n : ℕ) (p : Pool)
    → p.caller ≡ starting
    → Good n p
    → Good n (start_one p) × (work_left n (start_one p) + 1 ≡ work_left n p)
unfolding start_one start_thread create_thread
start_one-Good n p c g =
    let below : length p.threads ≤ n =
      subst (λ x. Placed x n (length p.threads) p.running_num) c g.placed in
    let new = start_thread create_thread in
    let (b, l) = back_count-append p.threads new in
    let longer = length-append p.threads (new ∷ []) in
    let total = g.number in
    elim (Bool-cases (ltb (length p.threads) (to_ℕ p.num_threads))) [
      | inl e ↦
          let less : length p.threads < n = ground (arith, total) in
          simp e (
            record {
              number = g.number;
              all_started = AllStarted-append 0 p.threads new g.all_started new_thread-Started;
              counted = omega (arith, b, g.counted);
              placed =
                  subst (λ x. Placed x n (length (p.threads ++ new ∷ [])) p.running_num) (sym c)
                    (omega arith);
            },
            rw c (omega (arith, l)),
          )
      | inr e ↦
          let all : length p.threads ≡ n = ground (arith, total) in
          simp e (
            record {
              number = g.number;
              all_started = g.all_started;
              counted = g.counted;
              placed = all;
            },
            rw c (omega arith),
          )
    ]

poll-Good :
    (n : ℕ) (p : Pool)
    → p.caller ≡ waiting
    → Good n p
    → Good n (poll p) × (work_left n (poll p) ≡ work_left n p)
unfolding poll
poll-Good n p c g =
    let all : length p.threads ≡ n =
      subst (λ x. Placed x n (length p.threads) p.running_num) c g.placed in
    let total = g.number in
    elim (Bool-cases (ltb p.running_num (to_ℕ p.num_threads))) [
      | inl e ↦ simp e (g, refl)
      | inr e ↦ simp e (
        record {
          number = g.number;
          all_started = g.all_started;
          counted = g.counted;
          placed = (all, ground (arith, total));
        },
        rw c refl,
      )
    ]

Placed-more : (c : Caller) (n made back m : ℕ) → Placed c n made back → Placed c n made (back + m)
Placed-more starting n made back m h = h
Placed-more waiting n made back m h = h
Placed-more returned n made back m h = (h.0, omega arith)

thread-Good :
    (n i : ℕ) (p : Pool)
    → Good n p
    → let q = step (thread_steps i) p in
      Good n q × (work_left n q + moves_of i p.threads ≡ work_left n p)
unfolding step
thread-Good n i p g =
    let (a, l, b, m) = run_thread-AllStarted 0 i p.threads g.all_started in
    (
      record {
        number = g.number;
        all_started = a;
        counted = omega (arith, b, g.counted);
        placed =
            subst (λ x. Placed p.caller n x (p.running_num + (run_thread 0 i p.threads).1)) (sym l)
              (Placed-more p.caller n _ p.running_num _ g.placed);
      },
      rw l (omega (arith, m)),
    )

caller-Good :
    (c : Caller) (n : ℕ) (p : Pool)
    → p.caller ≡ c
    → Good n p
    → Good n (advance_caller c p)
      × (work_left n (advance_caller c p) + caller_moves c ≡ work_left n p)
unfolding advance_caller
caller-Good starting n p c g = start_one-Good n p c g
caller-Good waiting n p c g = let (h, e) = poll-Good n p c g in (h, omega (arith, e))
caller-Good returned n p c g = (g, omega arith)

pub step-Good :
    (e : StartEvent) (n : ℕ) (p : Pool)
    → Good n p
    → Good n (step e p) × (work_left n (step e p) + moves e p ≡ work_left n p)
unfolding step
step-Good caller_steps n p g = caller-Good p.caller n p refl g
step-Good (thread_steps i) n p g = thread-Good n i p g

pub create_pool-Good :
    (num : ℤ)
    → Good (to_ℕ num) (create_pool num)
      × (work_left (to_ℕ num) (create_pool num) ≡ 1 + 4 * to_ℕ num)
unfolding create_pool
create_pool-Good num =
    (record { number = refl; all_started = tt; counted = refl; placed = omega arith }, omega arith)

-- The steps of a run that bring the start on.
abbrev pub moves_made : List StartEvent → Pool → ℕ
moves_made [] p = 0
moves_made (e ∷ es) p = moves e p + moves_made es (step e p)

pub run-Good :
    (es : List StartEvent) (n : ℕ) (p : Pool)
    → Good n p
    → Good n (run es p) × (work_left n (run es p) + moves_made es p ≡ work_left n p)
unfolding run
run-Good [] n p g = (g, omega arith)
run-Good (e ∷ es) n p g =
    let (h, a) = step-Good e n p g in
    let (k, b) = run-Good es n (step e p) h in (k, omega (arith, a, b))
