-- ===== src/Net/System.antt =====
-- zysoft/net/tcp_server.h with zysoft/net/tcp_connection.h: a server together with the connections it accepted.
--
-- The server binds `handle_connection_cleanup` to the cleanup callback of every connection, and hands
-- `connect_establised`, `remove_connection` and `connect_destroy` to the loops; `opening`,
-- `destroying` and the server's `removing` are what was handed over and has not run. A connection
-- stands in `conns` once its `connect_establised` has run. `cb` is what the application's callbacks do with a
-- connection, `has_write_complete_cb`, `read_timeout` and `write_timeout` are the server's settings.
pub mod Tracked
pub mod Counts
pub mod Moves
pub mod Whole
pub mod Ends
mod Tests
use zysoft.Prelude.{ℕ, List, [], ◌∷◌, Option, none, some, Bool, true, if◌then◌else◌, ltb, ◌==◌}
use zysoft.Prelude.Int.{ℤ}
use zysoft.Net.Types.{Effect, call_cleanup, CleanupContext, default_context, Callbacks}
use zysoft.Net.Address.{InetAddress, numbered_connection_name}
use zysoft.Net.Connection.{Conn}
use zysoft.Net.Connection.Kept.{cleanup_calls}
use zysoft.Net.Connection.Handlers
use zysoft.Net.Connection.Handlers.{Event, opened, connect_destroy}
use zysoft.Net.Server.{
  Server, handle_connection_cleanup, take_out, handle_new_connection, remove_connection,
}

pub record System : Type 0 where
  pub server : Server
  pub conns : ℕ → Option Conn
  pub opening : List ℕ
  pub destroying : List ℕ

pub data SystemEvent : Type 0 where
  accepts : ℕ → SystemEvent
  establishes : ℕ → SystemEvent
  happens : ℕ → Event → SystemEvent
  removes : ℕ → SystemEvent
  tears_down : ℕ → SystemEvent

abbrev pub put_conn : (ℕ → Option Conn) → ℕ → Conn → ℕ → Option Conn
put_conn conns c k j = if j == c then some k else conns j

-- What the cleanup callback was called with last.
abbrev pub last_cleanup : List Effect → CleanupContext
last_cleanup [] = default_context
last_cleanup (call_cleanup ctx ∷ es) = ctx
last_cleanup (e ∷ es) = last_cleanup es

-- A handler that called the cleanup callback of a connection has called `handle_connection_cleanup`.
unfoldable pub note_cleanup : ℕ → List Effect → Conn → Server → Server
note_cleanup c before k s =
    if ltb (cleanup_calls before) (cleanup_calls k.log)
    then handle_connection_cleanup c (last_cleanup k.log) s
    else s

unfoldable pub advance : ℕ → List Effect → Conn → System → System
advance c before k s = record s {
  server = note_cleanup c before k s.server;
  conns = put_conn s.conns c k;
}

-- A handler of the connection, if it is established.
unfoldable pub handle : Callbacks → ℕ → Event → Option Conn → System → System
handle cb c e none s = s
handle cb c e (some k) s = advance c k.log (Handlers.step cb e k) s

unfoldable pub tear_down : ℕ → Option Conn → System → System
tear_down c none s = s
tear_down c (some k) s = record s {
  conns = put_conn s.conns c (connect_destroy k);
  destroying = take_out c s.destroying;
}

module _ (addr : InetAddress) (cb : ℕ → Callbacks) (has_write_complete_cb : Bool)
    (read_timeout write_timeout : ℤ) where
  -- A connection as `start_accept` makes it, once it is established.
  abbrev pub opened_conn : ℕ → Conn
  opened_conn c = opened (cb c) true has_write_complete_cb read_timeout write_timeout true

  unfoldable pub step : SystemEvent → System → System
  step (accepts c) s = record s {
    server = handle_new_connection (numbered_connection_name addr) none c s.server;
    opening = c ∷ s.opening;
  }
  step (establishes c) s =
      advance c [] (opened_conn c) (record s { opening = take_out c s.opening })
  step (happens c e) s = handle (cb c) c e (s.conns c) s
  step (removes c) s = record s {
    server = remove_connection (numbered_connection_name addr) c s.server;
    destroying = c ∷ s.destroying;
  }
  step (tears_down c) s = tear_down c (s.conns c) s

  unfoldable pub run : List SystemEvent → System → System
  run [] s = s
  run (e ∷ es) s = run es (step e s)
