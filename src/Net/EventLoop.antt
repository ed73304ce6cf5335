-- ===== src/Net/EventLoop.antt =====
-- zysoft/net/event_loop.h: an event loop, whose pieces of work are numbers. The `io_context` of asio is not modelled
-- but for what it may do (`Enabled`): on the loop's thread, `run` takes a piece that waits, any one, as long as it is
-- not stopped, and hands on what the piece throws; it returns when it is stopped, or has neither work nor guard.
-- What a piece does is a parameter.
pub mod Kept
mod Tests
use zysoft.Prelude.{ℕ, ◌<◌, ◌≡◌, ◌⊎◌, List, [], ◌∷◌, ◌++◌, Bool, true, false, if◌then◌else◌, ◌==◌}
use zysoft.Net.Server.{take_out}
use zysoft.Timer.Wheel.Counts.{count}

-- The place of the loop's thread: before `loop()`, in `io_ctx_.run()`, in the handler of exceptions, behind `loop()`,
-- or ended by an exception that the handler does not take.
pub data Place : Type 0 where
  unentered running handling left terminated : Place

-- `queue` is the work that waits, `done` what was run, the last piece first.
pub record EventLoop : Type 0 where
  pub place : Place
  pub guarded : Bool
  pub stopped : Bool
  pub queue : List ℕ
  pub done : List ℕ

unfoldable pub create : EventLoop
create = record { place = unentered; guarded = true; stopped = false; queue = []; done = [] }

unfoldable pub run_in_loop : ℕ → EventLoop → EventLoop
run_in_loop f l = record l { queue = l.queue ++ f ∷ [] }

unfoldable pub quit : EventLoop → EventLoop
quit l = record l { guarded = false; stopped = true }

pub data Thrown : Type 0 where
  nothing std_exception other : Thrown

-- What a piece of work does to its loop: it hands over more work, may call `quit`, and may throw.
pub record Work : Type 0 where
  pub posts : List ℕ
  pub quits : Bool
  pub throws : Thrown

unfoldable pub post_all : List ℕ → EventLoop → EventLoop
unfolding run_in_loop
post_all [] l = l
post_all (f ∷ fs) l = post_all fs (run_in_loop f l)

-- Where the thread is behind a piece of work.
abbrev pub place_after : Thrown → Place
place_after nothing = running
place_after std_exception = handling
place_after other = terminated

pub data LoopEvent : Type 0 where
  enters returns catches quits : LoopEvent
  hands_over : ℕ → LoopEvent
  works : ℕ → LoopEvent

module _ (work : ℕ → Work) where
  unfoldable pub do_work : ℕ → EventLoop → EventLoop
  unfolding post_all quit
  do_work f l =
      let d =
        post_all (work f).posts (record l { queue = take_out f l.queue; done = f ∷ l.done }) in
      let q = if (work f).quits then quit d else d in
      record q { place = place_after (work f).throws }

  -- `loop()`, and the calls from any thread.
  unfoldable pub step : LoopEvent → EventLoop → EventLoop
  unfolding do_work quit run_in_loop
  step enters l = record l { place = running }
  step returns l = record l { place = left }
  step catches l = record l { place = running }
  step quits l = quit l
  step (hands_over f) l = run_in_loop f l
  step (works f) l = do_work f l

  unfoldable pub run : List LoopEvent → EventLoop → EventLoop
  run [] l = l
  run (e ∷ es) l = run es (step e l)

  abbrev pub Enabled : LoopEvent → EventLoop → Type 0
  Enabled enters l = l.place ≡ unentered
  Enabled returns l =
      (l.place ≡ running) × ((l.stopped ≡ true) ⊎ ((l.queue ≡ []) × (l.guarded ≡ false)))
  Enabled catches l = l.place ≡ handling
  Enabled quits l = Unit {0}
  Enabled (hands_over f) l = Unit {0}
  Enabled (works f) l = (l.place ≡ running) × (l.stopped ≡ false) × (0 < count f l.queue)

  abbrev pub AllEnabled : List LoopEvent → EventLoop → Type 0
  AllEnabled [] l = Unit {0}
  AllEnabled (e ∷ es) l = Enabled e l × AllEnabled es (step e l)

  -- The work that an event hands over, and a run.
  abbrev pub handed_by : LoopEvent → List ℕ
  handed_by enters = []
  handed_by returns = []
  handed_by catches = []
  handed_by quits = []
  handed_by (hands_over f) = f ∷ []
  handed_by (works f) = (work f).posts

  abbrev pub handed_over : List LoopEvent → List ℕ
  handed_over [] = []
  handed_over (e ∷ es) = handed_by e ++ handed_over es
