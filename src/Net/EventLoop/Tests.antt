-- ===== src/Net/EventLoop/Tests.antt =====
-- zysoft/net/event_loop.h: a loop whose first piece of work hands over another and throws.
use zysoft.Prelude.{
  ℕ, ◌+◌, ◌≡◌, refl, List, [], ◌∷◌, true, false, not, ◌||◌, arith, if◌then◌else◌, ◌==◌, ◌⊎◌, inl,
}
use zysoft.Timer.Wheel.Counts.{count}
use zysoft.Net.Server.{take_out}
use zysoft.Net.EventLoop.{
  EventLoop, create, run_in_loop, quit, nothing, std_exception, Work, post_all, LoopEvent, enters,
  returns, catches, hands_over, works, do_work, step, run, AllEnabled, handed_over,
}
use zysoft.Net.EventLoop.Kept.{is_left, is_terminated, Escaped, loop_keeps_work, quit_ends_work}

abbrev thrower : ℕ → Work
thrower f = record {
  posts = if f == 1 then 2 ∷ [] else [];
  quits = f == 2;
  throws = if f == 1 then std_exception else nothing;
}

abbrev script : List LoopEvent
script = hands_over 1 ∷ enters ∷ works 1 ∷ catches ∷ works 2 ∷ hands_over 3 ∷ returns ∷ []

script-AllEnabled : AllEnabled thrower script create
unfolding create run_in_loop quit post_all do_work step take_out
script-AllEnabled = (
  tt,
  (
    refl,
    ((refl, refl, omega arith), (refl, ((refl, refl, omega arith), (tt, ((refl, inl refl), tt))))),
  ),
)

loop_keeps_work_example :
    let l = run thrower script create in
    (count 3 l.done + count 3 l.queue ≡ count 3 (handed_over thrower script))
    × ((not (is_left l.place) || l.stopped) ≡ true)
    × ((is_terminated l.place ≡ false) ⊎ Escaped thrower l)
loop_keeps_work_example = loop_keeps_work thrower script 3 script-AllEnabled

abbrev stopped_loop : EventLoop
stopped_loop = record (run_in_loop 1 create) { stopped = true }

quit_ends_work_example : (run thrower (hands_over 3 ∷ enters ∷ returns ∷ []) stopped_loop).done ≡ []
unfolding create run_in_loop step
quit_ends_work_example =
    quit_ends_work thrower (hands_over 3 ∷ enters ∷ returns ∷ []) stopped_loop refl
      (tt, (refl, ((refl, inl refl), tt)))
