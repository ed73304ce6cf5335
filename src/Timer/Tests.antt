-- ===== src/Timer/Tests.antt =====
-- zysoft/zysoft/timer/timing_wheel.h: a wheel of 10 slots.
use zysoft.Prelude.{ℕ, ◌≡◌, refl, some, none, arith, ◌-◌, get_elem?, if◌then◌else◌, ◌==◌}
use zysoft.Timer.Wheel.{Wheel, create, add, add_immediate, add_waiting, cancel, reset}
use zysoft.Timer.Wheel.Counts.{count}
use zysoft.Timer.Wheel.Valid.{Inv, create-Inv, add-Inv}
use zysoft.Timer.Wheel.Cancel.{cancel-Inv, cancel_immediate_fails}
use zysoft.Timer.Wheel.Reset.{Restarted, reset-Inv}
use zysoft.Timer.Wheel.Turn.{turn, Timely, create-Timely}
use zysoft.Timer.Wheel.Punctual.{turns, add-Timely, not_early, on_time}

unfoldable waiting : Wheel ℕ
waiting = (add 10 5 3 (create 10)).0

unfoldable both : Wheel ℕ
unfolding waiting
both = (add 10 6 0 waiting).0

waiting-Inv : Inv 10 waiting
unfolding waiting
waiting-Inv = add-Inv 10 5 3 (create 10) (create-Inv 10 (omega arith))

both-Inv : Inv 10 both
unfolding both
both-Inv = add-Inv 10 6 0 waiting waiting-Inv

waiting-Timely : Timely 10 waiting
unfolding waiting create
waiting-Timely = add-Timely 10 5 3 (create 10) (omega arith) (create-Timely 10 (omega arith))

on_time_example :
    let w' = turns 10 (25 - 1) (add 10 8 25 waiting).0 in
    ((i : ℕ) × (get_elem? (turn 10 w').1 i ≡ some (8, 25)))
    × (count waiting.next (turn 10 w').0.all ≡ 0)
unfolding waiting add add_waiting create
on_time_example = on_time 10 8 25 waiting (omega arith) (omega arith) waiting-Timely

not_early_example : count waiting.next (turns 10 24 (add 10 8 25 waiting).0).all ≡ 1
unfolding waiting add add_waiting create
not_early_example = not_early 10 8 25 24 waiting (omega arith) (omega arith) waiting-Timely

cancel-Inv_example :
    (w' : Wheel ℕ) × (cancel 10 0 waiting ≡ some w')
    × Inv 10 w'
    × ((j : ℕ) → count j w'.all ≡ count j waiting.all - (if 0 == j then 1 else 0))
unfolding waiting add add_waiting create
cancel-Inv_example = cancel-Inv 10 0 waiting waiting-Inv refl

cancel_immediate_fails_example : cancel 10 1 both ≡ none
unfolding both waiting add add_immediate add_waiting create
cancel_immediate_fails_example =
    cancel_immediate_fails 10 1 (record { tick = 0; duration = 0; value = 6 }) both both-Inv refl
      (omega arith)

reset-Inv_example :
    (w' : Wheel ℕ) × (reset 10 0 both ≡ some w') × Inv 10 w' × Restarted 10 0 both w'
reset-Inv_example = reset-Inv 10 0 both both-Inv
