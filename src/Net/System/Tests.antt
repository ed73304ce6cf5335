-- ===== src/Net/System/Tests.antt =====
-- zysoft/net/tcp_server.h with zysoft/net/tcp_connection.h: a run of a server with its connections.
use zysoft.Prelude.{
  ℕ, ◌+◌, ◌≡◌, ◌≤◌, refl, List, [], ◌∷◌, none, some, true, false, arith, if◌then◌else◌,
}
use zysoft.Prelude.Int.{pos, negsuc}
use zysoft.Timer.Wheel.Counts.{count}
use zysoft.Net.Types.{Callbacks, eof}
use zysoft.Net.Address.{InetAddress, numbered_connection_name}
use zysoft.Text.Decimal.{decimal, digits}
use zysoft.Text.Equality.{same_text}
use zysoft.Net.LoopPool.{LoopPool}
use zysoft.Net.Connection.{
  Conn, create, is_closed, connect_cleanup, cleanup_once, async_read, perform_all,
  handle_read_write_error, send, send_in_loop, async_write,
}
use zysoft.Net.Connection.Life.{EndsOnce}
use zysoft.Net.Connection.Ordered.{InOrder}
use zysoft.Net.Connection.Handlers
use zysoft.Net.Connection.Handlers.{
  Event, read_done, write_done, calls_send, handle_write, opened, connect_establised,
  connect_destroy, handle_read, late_among,
}
use zysoft.Net.Server.{
  start_accept, handle_new_connection, assign, handle_connection_cleanup, remove_connection,
  erase_name, take_out,
}
use zysoft.Net.Server.Runs.{started, established_count, destroyed_count}
use zysoft.Net.System.{
  System, SystemEvent, accepts, establishes, happens, removes, tears_down, note_cleanup, advance,
  handle, tear_down, opened_conn, step, run,
}
use zysoft.Net.System.Whole.{begun_system}
use zysoft.Net.System.Ends.{
  AllEnabled, connections_end_well, connections_keep_order, no_connection_lost,
}

-- 10.0.0.1:80
abbrev home : InetAddress
home = record { ip = 49 ∷ 48 ∷ 46 ∷ 48 ∷ 46 ∷ 48 ∷ 46 ∷ 49 ∷ []; port = 80 }

abbrev loops : LoopPool
loops = record { base_loop = 0; threads = some 4 ∷ some 7 ∷ []; next = 0 }

abbrev quiet : ℕ → Callbacks
quiet c = record { on_connection = []; on_message = λ m. ([], []); on_write_complete = λ len. [] }

-- The first connection reads the end of its input and is taken down; the second stays.
abbrev two_connections : List SystemEvent
two_connections =
    accepts 1
    ∷ establishes 1
    ∷ accepts 2
    ∷ happens 1 (read_done (some eof) [])
    ∷ removes 1
    ∷ tears_down 1
    ∷ establishes 2
    ∷ []

abbrev final : System
final = run home quiet true (pos 5) (negsuc 0) two_connections (begun_system loops)

unfoldable gone : Conn
gone =
    connect_destroy
      (handle_read (quiet 1) (some eof) [] (opened_conn home quiet true (pos 5) (negsuc 0) 1))

two_connections-AllEnabled :
    AllEnabled home quiet true (pos 5) (negsuc 0) two_connections (begun_system loops)
unfolding begun_system started start_accept step handle_new_connection assign
    handle_connection_cleanup remove_connection erase_name take_out numbered_connection_name decimal
    digits same_text note_cleanup advance handle tear_down opened create connect_establised
    connect_destroy handle_read async_read perform_all connect_cleanup cleanup_once
    handle_read_write_error Handlers.step
two_connections-AllEnabled = (
  (refl, omega arith),
  (
    omega arith,
    (
      (refl, omega arith),
      ((_, refl, omega arith, refl), (omega arith, (omega arith, (omega arith, tt)))),
    ),
  ),
)

one_is_gone : final.conns 1 ≡ some gone
unfolding run begun_system started start_accept step handle_new_connection assign
    handle_connection_cleanup remove_connection erase_name take_out numbered_connection_name decimal
    digits same_text note_cleanup advance handle tear_down Handlers.step gone connect_destroy
one_is_gone = refl

connections_end_well_example :
    (final.server.fault ≡ false)
    × EndsOnce gone
    × (count 1 final.server.connections + (if gone.is_cleaned then 1 else 0)
        ≡ 1 + count 1 final.server.removing)
    × (count 1 final.server.removing
          + count 1 final.destroying
          + (if is_closed gone.state then 1 else 0)
        ≡ (if gone.is_cleaned then 1 else 0))
connections_end_well_example =
    connections_end_well home (omega arith) (omega arith) quiet true (pos 5) (negsuc 0) loops
      two_connections 1 gone two_connections-AllEnabled one_is_gone

-- One connection, which sends a message.
abbrev one_message : List SystemEvent
one_message =
    accepts 1
    ∷ establishes 1
    ∷ happens 1 (calls_send true (104 ∷ 105 ∷ []))
    ∷ happens 1 (write_done none 2)
    ∷ []

unfoldable wrote : Conn
wrote =
    handle_write (quiet 1) none 2
      (send true (104 ∷ 105 ∷ []) (opened_conn home quiet true (pos 5) (negsuc 0) 1))

one_message-AllEnabled :
    AllEnabled home quiet true (pos 5) (negsuc 0) one_message (begun_system loops)
unfolding begun_system started start_accept step handle_new_connection assign
    numbered_connection_name decimal digits same_text note_cleanup advance handle opened create
    connect_establised async_read perform_all send send_in_loop async_write Handlers.step
one_message-AllEnabled =
    ((refl, omega arith), (omega arith, ((_, refl, tt, refl), ((_, refl, omega arith, refl), tt))))

wrote_one :
    (run home quiet true (pos 5) (negsuc 0) one_message (begun_system loops)).conns 1 ≡ some wrote
unfolding run wrote begun_system started start_accept step handle_new_connection assign
    numbered_connection_name decimal digits same_text note_cleanup advance handle opened create
    connect_establised async_read perform_all send send_in_loop async_write Handlers.step
wrote_one = refl

connections_keep_order_example :
    let o = opened_conn home quiet true (pos 5) (negsuc 0) 1 in
    (fs : List Event) × Handlers.AllEnabled (quiet 1) fs o
    × (wrote ≡ Handlers.run (quiet 1) fs o)
    × InOrder (late_among (quiet 1) fs o) wrote
connections_keep_order_example =
    connections_keep_order home (omega arith) (omega arith) quiet true (pos 5) (negsuc 0) loops
      one_message 1 wrote (λ len. tt) one_message-AllEnabled wrote_one

no_connection_lost_example :
    (final.server.fault ≡ false)
    × (count 1 final.server.connections ≤ 1)
    × (destroyed_count 1 final.server.log + count 1 final.server.connections
        ≡ established_count 1 final.server.log)
no_connection_lost_example =
    no_connection_lost home (omega arith) (omega arith) quiet true (pos 5) (negsuc 0) loops
      two_connections 1 two_connections-AllEnabled
