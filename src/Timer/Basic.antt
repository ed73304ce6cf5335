-- ===== src/Timer/Basic.antt =====
-- zysoft/zysoft/timer/timer.h, class `basic_timer`, for durations that are not negative.
use zysoft.Prelude.{ℕ, zero, suc, ◌+◌, ◌≡◌, List, [], ◌∷◌, Bool, not, arith, leb}
use zysoft.Prelude.Int.{ℤ, is_positive, difference}

pub record BasicTimer : Type 0 where
  pub flag : ℕ
  pub start : ℕ
  pub expire : ℕ

unfoldable pub create : ℕ → BasicTimer
create d = record { flag = 0; start = 0; expire = d }

unfoldable pub update : ℕ → BasicTimer → BasicTimer
update delta t = record t { start = t.start + delta }

unfoldable pub passed : BasicTimer → Bool
passed t = leb t.expire t.start

unfoldable pub reset : BasicTimer → BasicTimer
reset t = record t { start = zero; flag = zero }

-- What is left of the duration, negative when it is over.
unfoldable pub remain : BasicTimer → ℤ
remain t = difference t.expire t.start

unfoldable pub set_flag : ℕ → BasicTimer → BasicTimer
set_flag flag t = record t { flag = flag }

is_positive-difference : (a b : ℕ) → is_positive (difference a b) ≡ not (leb a b)
unfolding difference
is_positive-difference zero zero = ground arith
is_positive-difference (suc a) zero = ground arith
is_positive-difference zero (suc b) = ground arith
is_positive-difference (suc a) (suc b) = ground (arith, is_positive-difference a b)

-- The timer has passed exactly if nothing is left.
pub passed-remain : (t : BasicTimer) → passed t ≡ not (is_positive (remain t))
unfolding passed remain
passed-remain t = ground (arith, is_positive-difference t.expire t.start)

unfoldable pub update_all : List ℕ → BasicTimer → BasicTimer
update_all [] t = t
update_all (d ∷ ds) t = update_all ds (update d t)

abbrev pub sum : List ℕ → ℕ
sum [] = 0
sum (d ∷ ds) = d + sum ds

update_all_lem :
    (ds : List ℕ) (t : BasicTimer)
    → ((update_all ds t).start ≡ t.start + sum ds) × ((update_all ds t).expire ≡ t.expire)
unfolding update_all update
update_all_lem [] t = (omega arith, omega arith)
update_all_lem (d ∷ ds) t = let (p, q) = update_all_lem ds (update d t) in (omega arith, q)

-- Whatever was done before a `reset`, after it and some updates the timer has passed exactly if they
-- come to its duration.
pub passed_after_reset :
    (t : BasicTimer) (ds : List ℕ) → passed (update_all ds (reset t)) ≡ leb t.expire (sum ds)
unfolding passed reset
passed_after_reset t ds = ground (arith, update_all_lem ds (reset t))
