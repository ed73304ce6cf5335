-- ===== src/Net/Types.antt =====
-- zysoft/net/types.h, with the enums of tcp_connection.h and the effects of its handlers.
use zysoft.Prelude.{ℕ, List, Option, none, Bool, false}

-- `EState`
pub data State : Type 0 where
  closed connecting established wait_close : State

-- `timeout_type` of types.h
pub data TimeoutType : Type 0 where
  read write : TimeoutType

-- `detail::cleanup_type` of types.h
pub data CleanupType : Type 0 where
  socket_err timeout activity : CleanupType

-- An `error_code` that is set: end of file, or another value.
pub data ErrorCode : Type 0 where
  eof : ErrorCode
  code : ℕ → ErrorCode

-- `detail::cleanup_context` of types.h
pub record CleanupContext : Type 0 where
  pub type : CleanupType
  pub call_error_cb : Bool
  pub err_code : Option ErrorCode
  pub timeout_type : TimeoutType
  pub timeout_sec : ℕ

-- The constructor of `cleanup_context`.
abbrev pub default_context : CleanupContext
default_context = record {
  type = socket_err;
  call_error_cb = false;
  err_code = none;
  timeout_type = read;
  timeout_sec = 0;
}

abbrev pub Message : Type 0
Message = List ℕ

-- What a handler does outside the connection.
pub data Effect : Type 0 where
  start_read cancel_socket shutdown_socket close_socket : Effect
  start_write : Message → Effect
  add_timer : TimeoutType → ℕ → Effect
  reset_timer cancel_timer : TimeoutType → Effect
  -- a message is put at the end of, or taken from the front of, `output_buffer_`
  queued dequeued : Message → Effect
  call_connection : Effect
  call_message : Message → Effect
  call_write_complete : ℕ → Effect
  call_cleanup : CleanupContext → Effect
  -- the call of a `cleanup_cb_` that was never set, `std::bad_function_call`
  no_cleanup_cb : Effect
  -- work handed to the loop by a call from another thread
  post_send : Message → Effect
  post_shutdown post_force_close : Effect

-- A call that the application makes of the connection on the loop's thread.
pub data Call : Type 0 where
  sends : Message → Call
  shuts_down : Bool → Call
  force_closes : Call

-- `connection_cb_`, `message_cb_` and `write_complete_cb_`, as the calls they make. The message
-- callback is given the input buffer, and leaves what it does not consume.
pub record Callbacks : Type 0 where
  pub on_connection : List Call
  pub on_message : Message → Message × List Call
  pub on_write_complete : ℕ → List Call
