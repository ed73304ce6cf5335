-- ===== src/Net/LoopPool.antt =====
-- zysoft/net/event_loop_thread_pool.h: `event_loop_thread_pool::next_event_loop`. A loop is a number, and a thread
-- is what its `get_event_loop` returns, the null pointer (`none`) before it has made its loop.
pub mod Start
pub mod Phases
pub mod Ready
pub mod Ends
mod Tests
use zysoft.Prelude.{
  ℕ, zero, suc, ◌+◌, ◌%◌, ◌≤◌, ◌<◌, ◌≡◌, refl, sym, ◌∙◌, List, Option, some, false, arith,
  if◌then◌else◌, leb, ◌==◌, ap, ap₂, length, get_elem?, size_mod, add_size, Bool-cases, inl, inr,
}
use native.Mathlib.Nat.{mod-lt, mod-eq_of_lt, mod_self, mod-add-mod}

pub record LoopPool : Type 0 where
  pub base_loop : ℕ
  pub threads : List (Option ℕ)
  pub next : ℕ

-- The pool after the call, and the loop; `none` is a read out of bounds.
unfoldable pub next_event_loop : LoopPool → LoopPool × Option (Option ℕ)
next_event_loop p =
    let next = add_size p.next 1 in
    if length p.threads == 0 then (p, some (some p.base_loop)) else (
      record p { next = if leb (length p.threads) next then 0 else next },
      get_elem? p.threads p.next,
    )

-- The pool after `k` calls.
unfoldable pub after_calls : ℕ → LoopPool → LoopPool
after_calls zero p = p
after_calls (suc k) p = after_calls k (next_event_loop p).0

step_round :
    (i n : ℕ)
    → n < size_mod
    → i < n
    → (if leb n (add_size i 1) then 0 else add_size i 1) ≡ (i + 1) % n
step_round i n b c = elim (Bool-cases (leb n (i + 1))) [
  | inl e ↦ let q : i + 1 ≡ n = ground arith in ground (arith, ap (λ m. m % n) q, mod_self n)
  | inr e ↦ let q : i + 1 < n = ground arith in ground (arith, mod-eq_of_lt q)
]

-- The index stays in bounds, and a call moves it on, round.
next_lem :
    (p : LoopPool)
    → length p.threads < size_mod
    → p.next < length p.threads
    → let q = (next_event_loop p).0 in
      (q.threads ≡ p.threads)
      × (q.next ≡ (p.next + 1) % length p.threads)
      × ((next_event_loop p).1 ≡ get_elem? p.threads p.next)
unfolding next_event_loop
next_lem p b c =
    let e : (length p.threads == 0) ≡ false = ground arith in
    rw e (refl, step_round p.next (length p.threads) b c, refl)

after_calls_lem :
    (k : ℕ) (p : LoopPool)
    → length p.threads < size_mod
    → p.next < length p.threads
    → let q = after_calls k p in
      (q.threads ≡ p.threads) × (q.next ≡ (p.next + k) % length p.threads)
unfolding after_calls
after_calls_lem zero p b c =
    (refl, sym (mod-eq_of_lt c) ∙ ap (λ x. x % length p.threads) (omega arith))
after_calls_lem (suc k) p b c =
    let (t, n, _) = next_lem p b c in
    let (t', n') =
      after_calls_lem k (next_event_loop p).0 (rw t b)
        (rw (t, n) (mod-lt (p.next + 1) (omega arith))) in
    (
      t' ∙ t,
      n'
          ∙ ap₂ (λ x y. (x + k) % y) n (ap length t)
          ∙ mod-add-mod (p.next + 1) (length p.threads) k
          ∙ ap (λ x. x % length p.threads) (omega arith),
    )

-- A new pool's loops are handed out in turn: call `k`, from 0 on, returns the loop of the thread
-- `k % n` of `n` running threads, and never reads out of bounds.
pub round_robin :
    (k : ℕ) (p : LoopPool)
    → p.next ≡ 0
    → 1 ≤ length p.threads
    → length p.threads < size_mod
    → (next_event_loop (after_calls k p)).1 ≡ get_elem? p.threads (k % length p.threads)
round_robin k p z a b =
    let (t, n) = after_calls_lem k p b (omega arith) in
    let (_, _, r) = next_lem (after_calls k p) (rw t b) (rw (t, n) (mod-lt (p.next + k) a)) in
    r ∙ ap₂ (λ x y. get_elem? x y) t (n ∙ ap (λ x. x % length p.threads) (omega arith))
