-- ===== src/Net/Server.antt =====
-- zysoft/net/tcp_server.h, class `tcp_server`. `name` is `create_connection_name` at
-- the server's address.
--
-- A connection is the number that its name is made from; the server's connections are the list of
-- them, an `unordered_map` by their names. The application's callbacks and the work handed to the
-- loops are written to `log`, newest first. `fault` is a failed assertion, or the null connection that
-- `wait_accept` would take apart.
pub mod Book
pub mod Runs
pub mod Startup
mod Tests
use zysoft.Prelude.{
  ℕ, ◌+◌, ◌≤◌, ◌≡◌, List, [], ◌∷◌, Option, none, some, Bool, true, false, if◌then◌else◌, ◌==◌, ◌||◌,
}
use zysoft.Net.Types.{
  CleanupType, socket_err, timeout, activity, CleanupContext, ErrorCode, eof, code, TimeoutType,
}
use zysoft.Text.Split.{Text}
use zysoft.Text.Equality.{same_text}
use zysoft.Net.LoopPool.{LoopPool, next_event_loop}

pub data ServerEffect : Type 0 where
  -- `tcp_connection::create` with the loop that the pool gave, `some none` if it is null
  creates : ℕ → Option (Option ℕ) → ServerEffect
  awaits : ℕ → ServerEffect
  post_establised : ℕ → ServerEffect
  post_remove : ℕ → ServerEffect
  post_destroy : ℕ → ServerEffect
  call_timeout : ℕ → TimeoutType → ℕ → ServerEffect
  call_close : ℕ → ServerEffect
  call_error : ℕ → Option ErrorCode → ServerEffect

pub record Server : Type 0 where
  pub thread_pool : LoopPool
  pub connections : List ℕ
  pub next_conn_id : ℕ
  -- the connection that the acceptor waits for
  pub accepting : Option ℕ
  -- those whose `remove_connection` has been handed to the loop
  pub removing : List ℕ
  pub log : List ServerEffect
  pub fault : Bool
  -- whether a connection was made with a null loop, or with one out of range
  pub null_loop : Bool

-- `ctx.err_code_.value() == boost::asio::error::eof`
abbrev is_eof : Option ErrorCode → Bool
is_eof (some eof) = true
is_eof (some (code n)) = false
is_eof none = false

abbrev is_timeout : CleanupType → Bool
is_timeout timeout = true
is_timeout socket_err = false
is_timeout activity = false

-- The callback that a cleanup calls, if any.
unfoldable pub cleanup_callback : ℕ → CleanupContext → List ServerEffect → List ServerEffect
cleanup_callback conn ctx log =
    if is_timeout ctx.type
    then call_timeout conn ctx.timeout_type ctx.timeout_sec ∷ log
    else if ctx.call_error_cb
    then (if is_eof ctx.err_code then call_close conn ∷ log else call_error conn ctx.err_code ∷ log)
    else log

unfoldable pub handle_connection_cleanup : ℕ → CleanupContext → Server → Server
unfolding cleanup_callback
handle_connection_cleanup conn ctx s = record s {
  removing = conn ∷ s.removing;
  log = post_remove conn ∷ cleanup_callback conn ctx s.log;
}

-- The loop takes the work of `c` out of what was handed to it.
unfoldable pub take_out : ℕ → List ℕ → List ℕ
take_out c [] = []
take_out c (x ∷ xs) = let rest = take_out c xs in if x == c then xs else x ∷ rest

-- The constructor, with the pool of threads as `sync_start` leaves it.
abbrev pub create_server : LoopPool → Server
create_server pool = record {
  thread_pool = pool;
  connections = [];
  next_conn_id = 1;
  accepting = none;
  removing = [];
  log = [];
  fault = false;
  null_loop = false;
}

-- `acceptor_->wait_accept(conn, ...)`, which takes the socket of `conn`.
unfoldable pub wait_accept : Option ℕ → Server → Server
wait_accept none s = record s { accepting = none; fault = true }
wait_accept (some conn) s = record s { accepting = some conn; log = awaits conn ∷ s.log }

abbrev pub is_null : Option (Option ℕ) → Bool
is_null none = true
is_null (some none) = true
is_null (some (some loop)) = false

unfoldable pub start_accept : Server → Server
unfolding wait_accept
start_accept s =
    let (pool, io_loop) = next_event_loop s.thread_pool in
    wait_accept (some s.next_conn_id) (record s {
      thread_pool = pool;
      next_conn_id = s.next_conn_id + 1;
      log = creates s.next_conn_id io_loop ∷ s.log;
      null_loop = s.null_loop || is_null io_loop;
    })

module _ (name : ℕ → Text) where
  -- `connections_[name] = conn`
  unfoldable pub assign : ℕ → List ℕ → List ℕ
  assign conn [] = conn ∷ []
  assign conn (x ∷ xs) =
      let rest = assign conn xs in if same_text (name x) (name conn) then conn ∷ xs else x ∷ rest

  -- `connections_.erase(name)`, with its result.
  unfoldable pub erase_name : ℕ → List ℕ → List ℕ × ℕ
  erase_name conn [] = ([], 0)
  erase_name conn (x ∷ xs) =
      let (rest, n) = erase_name conn xs in
      if same_text (name x) (name conn) then (rest, n + 1) else (x ∷ rest, n)

  unfoldable pub handle_new_connection : Option ErrorCode → ℕ → Server → Server
  unfolding start_accept wait_accept
  handle_new_connection (some ec) conn s = wait_accept none s
  handle_new_connection none conn s = start_accept (record s {
    connections = assign conn s.connections;
    accepting = none;
    log = post_establised conn ∷ s.log;
  })

  unfoldable pub remove_connection : ℕ → Server → Server
  remove_connection conn s =
      let (rest, n) = erase_name conn s.connections in
      let t = record s {
        connections = rest;
        removing = take_out conn s.removing;
        log = post_destroy conn ∷ s.log;
      } in
      if n == 1 then t else record t { fault = true }
