-- ===== src/Net/Acceptor.antt =====
-- zysoft/net/acceptor.h. The acceptor of asio is a parameter: `throws` says which of its calls throws, and what
-- `what()` of that is.
pub mod Listening
use zysoft.Prelude.{List, [], ◌∷◌, ◌++◌, Option, none, some, Bool, true, false, if◌then◌else◌, ℕ}
use zysoft.Text.Split.{Text}
use zysoft.Net.Address.{InetAddress}

-- The calls of `listen`: `create_endpoint` and those of `acceptor_`.
pub data SocketCall : Type 0 where
  makes_endpoint opens sets_reuse_address binds listens : SocketCall

-- `conn_` is a connection's number; `calls` are the calls of `acceptor_` that returned, the first one first.
-- `fault` is the null connection taken apart.
pub record Acceptor : Type 0 where
  pub addr : InetAddress
  pub reuse_addr : Bool
  pub conn : Option ℕ
  pub calls : List SocketCall
  pub fault : Bool

unfoldable pub create_acceptor : InetAddress → Acceptor
create_acceptor addr = record {
  addr = addr;
  reuse_addr = false;
  conn = none;
  calls = [];
  fault = false;
}

unfoldable pub set_reuse_addr : Bool → Acceptor → Acceptor
set_reuse_addr b a = record a { reuse_addr = b }

unfoldable pub wait_accept : Option ℕ → Acceptor → Acceptor
wait_accept none a = record a { conn = none; fault = true }
wait_accept (some c) a = record a { conn = some c }

-- A call that returns, or throws.
unfoldable pub after_call : SocketCall → Option Text → Acceptor → Option Text × Acceptor
after_call x none a = (none, record a { calls = a.calls ++ x ∷ [] })
after_call x (some e) a = (some e, a)

-- The end of the `try` block, or its handler.
unfoldable pub report : Bool → Option Text → Acceptor → Bool × Acceptor × Option Text
report has_err_msg none a = (true, a, none)
report has_err_msg (some e) a = (false, a, if has_err_msg then some e else none)

module _ (throws : SocketCall → Option Text) where
  -- One statement of the `try` block: what was thrown before or here, with the acceptor.
  unfoldable pub call : SocketCall → Option Text × Acceptor → Option Text × Acceptor
  call x (some e, a) = (some e, a)
  call x (none, a) = after_call x (throws x) a

  unfoldable pub try_listen : Acceptor → Option Text × Acceptor
  unfolding call
  try_listen a =
      let opened = call opens (call makes_endpoint (none, a)) in
      let set = if a.reuse_addr then call sets_reuse_address opened else opened in
      call listens (call binds set)

  -- The result of `listen`, with the acceptor and, if `err_msg` is given, what is written to it.
  unfoldable pub listen : Bool → Acceptor → Bool × Acceptor × Option Text
  unfolding try_listen
  listen has_err_msg a = let (e, b) = try_listen a in report has_err_msg e b
