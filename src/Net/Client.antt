-- ===== src/Net/Client.antt =====
-- zysoft/net/tcp_client.h and zysoft/net/connector.h: a client with its one connection, as a machine whose
-- events are the calls of the application, the completions of its connects and the events of the connection.
--
-- A call of `sync_connect_wait_for` is known by a number. What its completion handler does takes two events,
-- since the caller waits on another thread: the promise is kept, and then the connection established.
pub mod Runs
pub mod Cleanup
mod Tests
use zysoft.Prelude.{
  ℕ, ◌+◌, ◌-◌, ◌^◌, ◌%◌, ◌<◌, ◌≡◌, List, [], ◌∷◌, Option, none, some, Bool, true, false,
  if◌then◌else◌, ltb, ◌==◌,
}
use zysoft.Prelude.Int.{ℤ, pos, to_int}
use zysoft.Net.Types.{Message, Callbacks}
use zysoft.Net.Connection.{Conn, create}
use zysoft.Net.Connection.Kept.{is_destroy}
use zysoft.Net.Connection.Handlers
use zysoft.Net.Connection.Handlers.{Event, connect_establised}

-- `connecting` counts the connects of `async_connect` under way and `syncs` holds those of the calls that
-- wait; `establishing` counts the handlers between `set_value` and `connect_establised`. `promises` are the
-- values set, and `waits` the seconds that a call waits at most.
pub record Client : Type 0 where
  pub conn : Conn
  pub callbacks : Callbacks
  pub connecting : ℕ
  pub syncs : List ℕ
  pub establishing : ℕ
  pub promises : ℕ → Option ℕ
  pub waits : ℕ → Option ℕ

-- `default_message_cb` clears the buffer; the other default callbacks only log.
abbrev pub default_callbacks : Callbacks
default_callbacks = record {
  on_connection = [];
  on_message = λ input. ([], []);
  on_write_complete = λ len. [];
}

-- The connection that the constructor of the connector makes, which sets no callback.
unfoldable pub create_connector : Conn
create_connector = create false false (pos 0) (pos 0)

-- The constructor of the client; the cleanup callback stays empty.
unfoldable pub create_client : Client
unfolding create_connector
create_client = record {
  conn = record create_connector { has_write_complete_cb = true };
  callbacks = default_callbacks;
  connecting = 0;
  syncs = [];
  establishing = 0;
  promises = λ p. none;
  waits = λ p. none;
}

pub data ClientEvent : Type 0 where
  -- with whether the write-complete callback can be called
  sets_callbacks : Bool → Callbacks → ClientEvent
  sets_read_timeout sets_write_timeout : ℕ → ClientEvent
  async_connects : ClientEvent
  -- the error of an `async_connect`, 0 if it succeeded
  connected : ℕ → ClientEvent
  sync_connects : ℕ → ℕ → ClientEvent
  promises_value : ℕ → ℕ → ClientEvent
  establishes : ClientEvent
  happens : Event → ClientEvent

abbrev pub put_value : (ℕ → Option ℕ) → ℕ → ℕ → ℕ → Option ℕ
put_value f p value j = if j == p then some value else f j

abbrev pub drop_call : ℕ → List ℕ → List ℕ
drop_call p [] = []
drop_call p (q ∷ rest) = let kept = drop_call p rest in if q == p then rest else q ∷ kept

abbrev pub is_pending : ℕ → List ℕ → Bool
is_pending p [] = false
is_pending p (q ∷ rest) = let found = is_pending p rest in if q == p then true else found

-- The seconds that `sync_connect_wait_for` waits.
unfoldable pub wait_seconds : ℕ → ℕ
wait_seconds sec = if sec == 0 then 1 else sec

-- What it returns, when it has waited for the promise.
unfoldable pub sync_result : Option ℕ → Bool
sync_result none = false
sync_result (some value) = value == 0

unfoldable pub establish : Client → Client
establish c = record c { conn = connect_establised c.callbacks c.conn }

-- The completion handler of `async_connect_impl`; `retry` is empty.
unfoldable pub handle_connect : ℕ → Client → Client
unfolding establish
handle_connect error c =
    let d = record c { connecting = c.connecting - 1 } in if error == 0 then establish d else d

-- The completion handler of `sync_connect_wait_for_impl`, up to `connect_establised`.
unfoldable pub handle_sync_connect : ℕ → ℕ → Client → Client
handle_sync_connect p error c =
    let d = record c { syncs = drop_call p c.syncs; promises = put_value c.promises p error } in
    if error == 0 then record d { establishing = d.establishing + 1 } else d

-- The three setters of callbacks of the connection.
unfoldable pub set_callbacks : Bool → Callbacks → Client → Client
set_callbacks has_write_complete_cb cb c = record c {
  callbacks = cb;
  conn = record (c.conn) { has_write_complete_cb = has_write_complete_cb };
}

unfoldable pub set_read_timeout : ℕ → Conn → Conn
set_read_timeout sec k = record k { read_timeout_sec = to_int sec }

unfoldable pub set_write_timeout : ℕ → Conn → Conn
set_write_timeout sec k = record k { write_timeout_sec = to_int sec }

unfoldable pub step : ClientEvent → Client → Client
step (sets_callbacks has_write_complete_cb cb) c = set_callbacks has_write_complete_cb cb c
step (sets_read_timeout sec) c = record c { conn = set_read_timeout sec c.conn }
step (sets_write_timeout sec) c = record c { conn = set_write_timeout sec c.conn }
step async_connects c = record c { connecting = c.connecting + 1 }
step (connected error) c = handle_connect error c
step (sync_connects p sec) c = record c {
  syncs = p ∷ c.syncs;
  waits = put_value c.waits p (wait_seconds sec);
}
step (promises_value p error) c = handle_sync_connect p error c
step establishes c = establish (record c { establishing = c.establishing - 1 })
step (happens e) c = record c { conn = Handlers.step c.callbacks e c.conn }

unfoldable pub run : List ClientEvent → Client → Client
run [] c = c
run (e ∷ es) c = run es (step e c)

-- A completion follows its connect, and a number is used for one call. Nothing destroys the connection as
-- long as the client holds it.
abbrev pub Enabled : ClientEvent → Client → Type 0
Enabled (sets_callbacks has_write_complete_cb cb) c = Unit {0}
Enabled (sets_read_timeout sec) c = sec < 2 ^ 32
Enabled (sets_write_timeout sec) c = sec < 2 ^ 32
Enabled async_connects c = Unit {0}
Enabled (connected error) c = 0 < c.connecting
Enabled (sync_connects p sec) c = c.waits p ≡ none
Enabled (promises_value p error) c = is_pending p c.syncs ≡ true
Enabled establishes c = 0 < c.establishing
Enabled (happens e) c = is_destroy e ≡ false

abbrev pub AllEnabled : List ClientEvent → Client → Type 0
AllEnabled [] c = Unit {0}
AllEnabled (e ∷ es) c = Enabled e c × AllEnabled es (step e c)
