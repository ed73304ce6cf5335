-- ===== src/Net/Server/Tests.antt =====
-- zysoft/net/tcp_server.h: a server of two threads that starts.
use zysoft.Prelude.{
  ◌-◌, ◌%◌, ◌≡◌, refl, List, [], ◌∷◌, ◌++◌, Option, none, some, false, arith, if◌then◌else◌, ◌==◌,
  ◌<◌,
}
use zysoft.Prelude.Int.{pos, to_ℕ}
use zysoft.Text.Split.{Text}
use zysoft.Net.Types.{default_context}
use zysoft.Net.Address.{InetAddress}
use zysoft.Net.LoopPool.Start
use zysoft.Net.LoopPool.Start.{
  create_thread, start_thread, create_pool, start_one, poll, advance_caller, run_phase, run_thread,
  StartEvent, caller_steps, thread_steps,
}
use zysoft.Net.Acceptor.{SocketCall, binds, create_acceptor}
use zysoft.Net.Acceptor.Listening.{until_throw, wanted_calls, is_none}
use zysoft.Net.Server.Runs.{ServerEvent, started, accepted, cleaned, run, step}
use zysoft.Net.Server.{handle_new_connection, start_accept, wait_accept, handle_connection_cleanup}
use zysoft.Net.Server.Startup.{
  Setup, create_setup, set_thread_num, started_pool, start, loop_of, start_lem, connections_spread,
}

abbrev home : InetAddress
home = record { ip = 58 ∷ 58 ∷ 49 ∷ []; port = 80 }

abbrev two_threads : Setup
unfolding create_setup set_thread_num create_acceptor
two_threads = set_thread_num (pos 2) (create_setup 9 home)

abbrev interleaved : List StartEvent
interleaved =
    caller_steps
    ∷ caller_steps
    ∷ thread_steps 1
    ∷ thread_steps 1
    ∷ caller_steps
    ∷ thread_steps 0
    ∷ thread_steps 0
    ∷ caller_steps
    ∷ []

-- "busy"
abbrev busy : Text
busy = 98 ∷ 117 ∷ 115 ∷ 121 ∷ []

-- The port is taken.
abbrev bind_throws : SocketCall → Option Text
bind_throws binds = some busy
bind_throws _ = none

start_lem_example :
    let (ok, a, s) = start bind_throws two_threads (started_pool two_threads interleaved) in
    (ok ≡ is_none (until_throw bind_throws (wanted_calls false)).0)
    × (a.conn ≡ (if ok then some 1 else none))
    × (s.accepting ≡ a.conn)
    × (a.fault ≡ false)
    × (s.fault ≡ false)
    × (s.null_loop ≡ false)
    × (a.calls ≡ [] ++ (until_throw bind_throws (wanted_calls false)).1)
unfolding Start.run Start.step create_pool start_one poll advance_caller run_phase run_thread
    start_thread create_thread two_threads
start_lem_example = start_lem bind_throws two_threads interleaved refl refl (omega arith) refl

abbrev two_accepted : List ServerEvent
two_accepted = accepted 1 ∷ accepted 2 ∷ cleaned 1 default_context ∷ []

made_three :
    3 < (run home two_accepted (started (started_pool two_threads interleaved))).next_conn_id
unfolding run step handle_new_connection start_accept wait_accept handle_connection_cleanup started
made_three = omega arith

connections_spread_example :
    let s = run home two_accepted (started (started_pool two_threads interleaved)) in
    loop_of 3 s.log ≡ some (some (if to_ℕ (pos 2) == 0 then 9 else (3 - 1) % 2))
unfolding Start.run Start.step create_pool start_one poll advance_caller run_phase run_thread
    start_thread create_thread two_threads
connections_spread_example =
    connections_spread home two_threads interleaved two_accepted 3 (omega arith) refl (omega arith)
      made_three
