-- ===== src/Net/EventLoop/Kept.antt =====
-- zysoft/net/event_loop.h: no work is lost, whatever is thrown, until the loop is asked to quit.
use zysoft.Prelude.{
  ℕ, ◌+◌, ◌<◌, ◌≡◌, refl, sym, ap, ◌∙◌, List, [], ◌∷◌, ◌++◌, Bool, true, false, not, ◌||◌, arith,
  if◌then◌else◌, ◌==◌, Bool-cases, inl, inr, append_assoc, append-nil, ◌⊎◌,
}
use zysoft.Timer.Wheel.Counts.{count, count-append}
use zysoft.Net.Server.{take_out}
use zysoft.Net.Server.Book.{count-take_out}
use zysoft.Net.EventLoop.{
  Place, unentered, running, handling, left, terminated, EventLoop, create, run_in_loop, quit,
  Thrown, nothing, std_exception, other, Work, post_all, place_after, LoopEvent, enters, returns,
  catches, quits, hands_over, works, do_work, step, run, Enabled, AllEnabled, handed_by,
  handed_over,
}

-- `post_all` only makes the queue longer.
post_all_lem : (fs : List ℕ) (l : EventLoop) → post_all fs l ≡ record l { queue = l.queue ++ fs }
unfolding post_all run_in_loop
post_all_lem [] l = ap (λ q. record l { queue = q }) (sym (append-nil l.queue))
post_all_lem (f ∷ fs) l =
    post_all_lem fs (record l { queue = l.queue ++ f ∷ [] })
    ∙ ap (λ q. record l { queue = q }) (append_assoc l.queue (f ∷ []) fs)

abbrev pub is_left : Place → Bool
is_left left = true
is_left unentered = false
is_left running = false
is_left handling = false
is_left terminated = false

abbrev pub is_terminated : Place → Bool
is_terminated terminated = true
is_terminated left = false
is_terminated unentered = false
is_terminated running = false
is_terminated handling = false

zero_add : (n : ℕ) → 0 + n ≡ n
zero_add n = omega arith

module _ (work : ℕ → Work) where
  -- A piece that was run, and threw what the loop does not catch.
  abbrev pub Escaped : EventLoop → Type 0
  Escaped l = (f : ℕ) × (0 < count f l.done) × ((work f).throws ≡ other)

  record Held (l : EventLoop) : Type 0 where
    guards : l.guarded ≡ not l.stopped
    left_stopped : is_left l.place ≡ true → l.stopped ≡ true
    ends : (is_terminated l.place ≡ false) ⊎ Escaped l

  worked_place :
      (f : ℕ) (l : EventLoop) (t : Thrown)
      → (work f).throws ≡ t
      → 0 < count f l.done
      → (is_left (place_after t) ≡ false) × ((is_terminated (place_after t) ≡ false) ⊎ Escaped l)
  worked_place f l nothing e d = (refl, inl refl)
  worked_place f l std_exception e d = (refl, inl refl)
  worked_place f l other e d = (refl, inr (f, d, e))

  do_work_lem :
      (f : ℕ) (l : EventLoop)
      → do_work work f l ≡ record l {
        place = place_after (work f).throws;
        guarded = if (work f).quits then false else l.guarded;
        stopped = if (work f).quits then true else l.stopped;
        queue = take_out f l.queue ++ (work f).posts;
        done = f ∷ l.done;
      }
  unfolding do_work quit
  do_work_lem f l =
      let d : EventLoop = record l { queue = take_out f l.queue; done = f ∷ l.done } in
      elim (Bool-cases (work f).quits) [
        | inl e ↦ rw (e, post_all_lem (work f).posts d) refl
        | inr e ↦ rw (e, post_all_lem (work f).posts d) refl
      ]

  do_work-Held : (f : ℕ) (l : EventLoop) → Held l → Held (do_work work f l)
  do_work-Held f l h =
      let here : 0 < count f (f ∷ l.done) = ground arith in
      let t = (work f).throws in
      let guards = h.guards in
      let m : EventLoop = record l { done = f ∷ l.done } in
      let (p, q) = worked_place f m t refl here in
      rw (do_work_lem f l)
        (record { guards = ground (arith, guards); left_stopped = λ e. cc; ends = q })

  step-Held : (e : LoopEvent) (l : EventLoop) → Enabled work e l → Held l → Held (step work e l)
  unfolding step run_in_loop quit
  step-Held enters l h d = record { guards = d.guards; left_stopped = λ e. cc; ends = inl refl }
  step-Held returns l h d = record {
    guards = d.guards;
    left_stopped = λ e. elim h.1 [ inl s ↦ s | inr (_, g) ↦ let guards = d.guards in ground arith ];
    ends = inl refl;
  }
  step-Held catches l h d = record { guards = d.guards; left_stopped = λ e. cc; ends = inl refl }
  step-Held quits l h d = record { guards = refl; left_stopped = λ e. refl; ends = d.ends }
  step-Held (hands_over f) l h d = record {
    guards = d.guards;
    left_stopped = d.left_stopped;
    ends = d.ends;
  }
  step-Held (works f) l h d = do_work-Held f l d

  held_count : ℕ → EventLoop → ℕ
  held_count j l = count j l.done + count j l.queue

  do_work_count :
      (j f : ℕ) (l : EventLoop)
      → 0 < count f l.queue
      → held_count j (do_work work f l) ≡ held_count j l + count j (work f).posts
  unfolding held_count
  do_work_count j f l h =
      let a = count-take_out f j l.queue in
      let b = count-append j (take_out f l.queue) (work f).posts in
      rw (do_work_lem f l) (elim (Bool-cases (f == j)) [
        | inl e ↦ let q : f ≡ j = ground arith in ground (arith, ap (λ x. count x l.queue) q)
        | inr e ↦ ground arith
      ])

  step_count :
      (j : ℕ) (e : LoopEvent) (l : EventLoop)
      → Enabled work e l
      → held_count j (step work e l) ≡ held_count j l + count j (handed_by work e)
  unfolding step run_in_loop quit held_count
  step_count j enters l h = omega arith
  step_count j returns l h = omega arith
  step_count j catches l h = omega arith
  step_count j quits l h = omega arith
  step_count j (hands_over f) l h = omega (arith, count-append j l.queue (f ∷ []))
  step_count j (works f) l h = do_work_count j f l h.2

  run_count :
      (j : ℕ) (es : List LoopEvent) (l : EventLoop)
      → AllEnabled work es l
      → held_count j (run work es l) ≡ held_count j l + count j (handed_over work es)
  unfolding run
  run_count j [] l h = omega arith
  run_count j (e ∷ es) l h = omega (
    arith,
    run_count j es (step work e l) h.1,
    step_count j e l h.0,
    count-append j (handed_by work e) (handed_over work es),
  )

  run-Held :
      (es : List LoopEvent) (l : EventLoop) → AllEnabled work es l → Held l → Held (run work es l)
  unfolding run
  run-Held [] l h d = d
  run-Held (e ∷ es) l h d = run-Held es (step work e l) h.1 (step-Held e l h.0 d)

  create-Held : Held create
  unfolding create
  create-Held = record { guards = refl; left_stopped = λ e. cc; ends = inl refl }

  stays_stopped :
      (e : LoopEvent) (l : EventLoop)
      → l.stopped ≡ true
      → Enabled work e l
      → ((step work e l).stopped ≡ true) × ((step work e l).done ≡ l.done)
  unfolding step run_in_loop quit
  stays_stopped enters l s h = (s, refl)
  stays_stopped returns l s h = (s, refl)
  stays_stopped catches l s h = (s, refl)
  stays_stopped quits l s h = (refl, refl)
  stays_stopped (hands_over f) l s h = (s, refl)
  stays_stopped (works f) l s h = cc

  returned_stopped :
      (l : EventLoop)
      → (is_left l.place ≡ true → l.stopped ≡ true)
      → (not (is_left l.place) || l.stopped) ≡ true
  returned_stopped l h = elim (Bool-cases (is_left l.place)) [
    | inl e ↦ rw (e, h e) refl
    | inr e ↦ rw e refl
  ]

  -- In every run of a loop, whatever its work throws, each piece handed over was run or waits, as often as it was
  -- handed over; `loop()` has returned only if `quit` was called, and an exception ended the thread only if a piece
  -- threw one that is no `std::exception`.
  pub loop_keeps_work :
      (es : List LoopEvent) (j : ℕ)
      → AllEnabled work es create
      → let l = run work es create in
        (count j l.done + count j l.queue ≡ count j (handed_over work es))
        × ((not (is_left l.place) || l.stopped) ≡ true)
        × ((is_terminated l.place ≡ false) ⊎ Escaped l)
  unfolding held_count create
  loop_keeps_work es j h =
      let d = run-Held es create h create-Held in
      let left_stopped = d.left_stopped in
      (
        run_count j es create h ∙ zero_add _,
        returned_stopped (run work es create) left_stopped,
        d.ends,
      )

  -- Behind a call of `quit` no piece is run any more.
  pub quit_ends_work :
      (es : List LoopEvent) (l : EventLoop)
      → l.stopped ≡ true
      → AllEnabled work es l
      → (run work es l).done ≡ l.done
  unfolding run
  quit_ends_work [] l s h = refl
  quit_ends_work (e ∷ es) l s h =
      let (p, q) = stays_stopped e l s h.0 in quit_ends_work es (step work e l) p h.1 ∙ q
