-- ===== src/Net/LoopPool/Phases.antt =====
-- zysoft/net/event_loop_thread.h: what holds of the threads of a pool, each at its place.
use zysoft.Prelude.{
  ℕ, zero, suc, ◌+◌, ◌≡◌, refl, ap, List, [], ◌∷◌, ◌++◌, Option, none, some, Bool, true, false,
  arith, length,
}
use zysoft.Net.LoopPool.Start.{
  Phase, begun, has_loop, called_back, in_loop, ended, LoopThread, run_phase, calls_back,
  run_thread,
}

-- `loop_` at each place of `thread_func`.
abbrev pub loop_at : ℕ → Option Phase → Option ℕ
loop_at k none = none
loop_at k (some begun) = none
loop_at k (some has_loop) = some k
loop_at k (some called_back) = some k
loop_at k (some in_loop) = some k
loop_at k (some ended) = some k

abbrev pub has_called_back : Option Phase → ℕ
has_called_back none = 0
has_called_back (some begun) = 0
has_called_back (some has_loop) = 0
has_called_back (some called_back) = 1
has_called_back (some in_loop) = 1
has_called_back (some ended) = 1

-- The steps that a thread has before it.
abbrev pub steps_left : Option Phase → ℕ
steps_left none = 4
steps_left (some begun) = 3
steps_left (some has_loop) = 2
steps_left (some called_back) = 1
steps_left (some in_loop) = 0
steps_left (some ended) = 0

abbrev pub back_count : List LoopThread → ℕ
back_count [] = 0
back_count (t ∷ ts) = has_called_back t.phase + back_count ts

abbrev pub left_count : List LoopThread → ℕ
left_count [] = 0
left_count (t ∷ ts) = steps_left t.phase + left_count ts

-- Whether a step of a thread brings it on.
abbrev pub phase_moves : Option Phase → ℕ
phase_moves none = 0
phase_moves (some begun) = 1
phase_moves (some has_loop) = 1
phase_moves (some called_back) = 1
phase_moves (some in_loop) = 0
phase_moves (some ended) = 0

abbrev pub moves_of : ℕ → List LoopThread → ℕ
moves_of i [] = 0
moves_of zero (t ∷ ts) = phase_moves t.phase
moves_of (suc i) (t ∷ ts) = moves_of i ts

abbrev pub has_phase : Option Phase → Bool
has_phase none = false
has_phase (some ph) = true

pub record Started (k : ℕ) (t : LoopThread) : Type 0 where
  pub is_running : t.running ≡ true
  pub its_loop : t.loop ≡ loop_at k t.phase
  pub in_thread : has_phase t.phase ≡ true
  pub not_asked : t.quit_asked ≡ false

abbrev pub AllStarted : ℕ → List LoopThread → Type 0
AllStarted k [] = Unit {0}
AllStarted k (t ∷ ts) = Started k t × AllStarted (suc k) ts

run_phase-Started :
    (k : ℕ) (ph : Option Phase) (t : LoopThread)
    → t.phase ≡ ph
    → Started k t
    → Started k (run_phase k ph t)
      × (has_called_back (run_phase k ph t).phase ≡ has_called_back t.phase + calls_back ph)
      × (steps_left (run_phase k ph t).phase + phase_moves ph ≡ steps_left t.phase)
unfolding run_phase
run_phase-Started k none t e s = ground arith
run_phase-Started k (some begun) t e s = ground arith
run_phase-Started k (some has_loop) t e s = ground arith
run_phase-Started k (some called_back) t e s = ground arith
run_phase-Started k (some in_loop) t e s = ground arith
run_phase-Started k (some ended) t e s = ground arith

-- A step of a thread keeps what the others are, and counts the thread when it calls back.
pub run_thread-AllStarted :
    (k i : ℕ) (ts : List LoopThread)
    → AllStarted k ts
    → let (us, n) = run_thread k i ts in
      AllStarted k us
      × (length us ≡ length ts)
      × (back_count us ≡ back_count ts + n)
      × (left_count us + moves_of i ts ≡ left_count ts)
unfolding run_thread
run_thread-AllStarted k i [] s = (tt, refl, refl, refl)
run_thread-AllStarted k zero (t ∷ ts) s =
    let (p, q, r) = run_phase-Started k t.phase t refl s.0 in
    ((p, s.1), refl, omega (arith, q), omega (arith, r))
run_thread-AllStarted k (suc i) (t ∷ ts) s =
    let (p, q, r, m) = run_thread-AllStarted (suc k) i ts s.1 in
    ((s.0, p), ap suc q, omega (arith, r), omega (arith, m))

pub AllStarted-append :
    (k : ℕ) (ts : List LoopThread) (t : LoopThread)
    → AllStarted k ts
    → ((j : ℕ) → Started j t)
    → AllStarted k (ts ++ t ∷ [])
AllStarted-append k [] t s u = (u k, tt)
AllStarted-append k (x ∷ ts) t s u = (s.0, AllStarted-append (suc k) ts t s.1 u)

pub back_count-append :
    (ts : List LoopThread) (t : LoopThread)
    → (back_count (ts ++ t ∷ []) ≡ back_count ts + has_called_back t.phase)
      × (left_count (ts ++ t ∷ []) ≡ left_count ts + steps_left t.phase)
back_count-append [] t = (omega arith, omega arith)
back_count-append (x ∷ ts) t =
    let (p, q) = back_count-append ts t in (omega (arith, p), omega (arith, q))
