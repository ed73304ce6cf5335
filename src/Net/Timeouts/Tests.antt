-- ===== src/Net/Timeouts/Tests.antt =====
-- zysoft/net/tcp_connection.h with zysoft/net/timer_queue.h: a connection whose peer falls silent.
use zysoft.Prelude.{ℕ, ◌≡◌, refl, ◌≤◌, List, [], ◌∷◌, none, true, arith, suc, zero, replicate}
use zysoft.Prelude.Int.{negsuc}
use zysoft.Net.Types.{Callbacks, sends}
use zysoft.Net.Connection.{
  create, async_read, perform_all, send, perform, send_in_loop, async_write,
}
use zysoft.Net.Connection.Handlers
use zysoft.Net.Connection.Handlers.{
  Event, read_done, opened, connect_establised, handle_read, deliver,
}
use zysoft.Net.Timeouts.{
  Timed, TimedEvent, ticks, happens, follow, ring_read, begin, step, run, AllEnabled,
}
use zysoft.Net.Timeouts.Ends.{ticks_of, is_silent, silence_ends}

abbrev echo : Callbacks
echo = record {
  on_connection = [];
  on_message = λ m. ([], sends m ∷ []);
  on_write_complete = λ len. [];
}

abbrev some_reads : List TimedEvent
some_reads = ticks ∷ happens (read_done none (7 ∷ [])) ∷ ticks ∷ []

some_reads-AllEnabled : AllEnabled echo some_reads (begin echo true true 1 (negsuc 0) true 3)
unfolding begin opened create connect_establised step Handlers.step follow ring_read handle_read
    async_read deliver perform_all perform send send_in_loop async_write
some_reads-AllEnabled = (tt, ((omega arith, refl), (tt, tt)))

abbrev ticks_only : ℕ → List TimedEvent
ticks_only n = replicate n ticks

ticks-AllEnabled : (n : ℕ) (t : Timed) → AllEnabled echo (ticks_only n) t
ticks-AllEnabled zero t = tt
ticks-AllEnabled (suc n) t = (tt, ticks-AllEnabled n (step echo ticks t))

ticks_silent : (n : ℕ) → is_silent (ticks_only n) ≡ true
ticks_silent zero = refl
ticks_silent (suc n) = ticks_silent n

ticks_all : (n : ℕ) → n ≤ ticks_of (ticks_only n)
ticks_all zero = omega arith
ticks_all (suc n) = omega (arith, ticks_all n)

silence_ends_example :
    (run echo
      (ticks_only 1000)
      (run echo some_reads (begin echo true true 1 (negsuc 0) true 3))).conn.is_cleaned
    ≡ true
silence_ends_example =
    silence_ends echo true true 1 (negsuc 0) true 3 some_reads (ticks_only 1000) (omega arith)
      some_reads-AllEnabled
      (ticks-AllEnabled 1000 (run echo some_reads (begin echo true true 1 (negsuc 0) true 3)))
      (ticks_silent 1000) (ticks_all 1000)
