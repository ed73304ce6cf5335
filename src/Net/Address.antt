-- ===== src/Net/Address.antt =====
-- zysoft/net/inet_address.h: `inet_address` and the names of connections. A text is what `c_str()` points at,
-- up to its NUL; `snprintf` cuts what it prints to the buffer of 64, less the NUL. 58 is ':', 35 is '#'.
pub mod Names
use zysoft.Prelude.{ℕ, zero, suc, ◌+◌, ◌/◌, ◌%◌, List, [], ◌∷◌, ◌++◌, if◌then◌else◌, ltb, take}
use zysoft.Text.Split.{Text}
use zysoft.Text.Decimal.{decimal}

pub record InetAddress : Type 0 where
  pub ip : Text
  pub port : ℕ

unfoldable pub ip_port_to_string : InetAddress → Text
ip_port_to_string addr = addr.ip ++ 58 ∷ decimal addr.port

-- `create_connection_name(addr, conn_id)`
unfoldable pub numbered_connection_name : InetAddress → ℕ → Text
numbered_connection_name addr conn_id =
    take 63 (addr.ip ++ 58 ∷ (decimal addr.port ++ 35 ∷ decimal conn_id))

-- `create_connection_name(addr)`
unfoldable pub connection_name : InetAddress → Text
connection_name addr = take 63 (addr.ip ++ 58 ∷ decimal addr.port)
