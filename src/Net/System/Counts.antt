-- ===== src/Net/System/Counts.antt =====
-- zysoft/net/tcp_server.h: where the operations of a server move a connection.
use zysoft.Prelude.{
  ℕ, ◌+◌, ◌-◌, ◌^◌, ◌≤◌, ◌<◌, ◌≡◌, refl, List, arith, if◌then◌else◌, ◌==◌, length, none, some, true,
  ltb, Bool-cases, inl, inr,
}
use zysoft.Timer.Wheel.Counts.{count}
use zysoft.Net.Types.{Effect}
use zysoft.Net.Address.{InetAddress, numbered_connection_name}
use zysoft.Net.Connection.{Conn}
use zysoft.Net.Connection.Kept.{cleanup_calls}
use zysoft.Net.Server.{
  Server, start_accept, handle_new_connection, handle_connection_cleanup, remove_connection,
}
use zysoft.Net.Server.Book.{
  int_limit, Below-mono, Below-lt, count-take_out, count-assign, erase_name_lem,
}
use zysoft.Net.Server.Runs.{Balanced, name_injective, cleaned-Balanced}
use zysoft.Net.System.{note_cleanup, last_cleanup}

module _ (addr : InetAddress) (short : length addr.ip ≤ 45) (port : addr.port < 2 ^ 16) where
  pub accept_counts :
      (c j : ℕ) (s : Server)
      → s.accepting ≡ some c
      → Balanced s
      → let t = handle_new_connection (numbered_connection_name addr) none c s in
        (count j t.connections ≡ (if c == j then 1 else 0) + count j s.connections)
        × (t.removing ≡ s.removing)
        × (t.next_conn_id ≡ s.next_conn_id + 1)
        × (t.accepting ≡ some s.next_conn_id)
  unfolding handle_new_connection start_accept
  accept_counts c j s p b =
      let (lt, z) = b.waiting c p in
      let low = Below-mono s.next_conn_id int_limit s.connections b.limit b.below in
      (
        count-assign (numbered_connection_name addr) (name_injective addr short port) c j
            s.connections (omega (arith, b.limit)) low z,
        refl,
        refl,
        refl,
      )

  pub remove_counts :
      (c j : ℕ) (s : Server)
      → 1 ≤ count c s.removing
      → Balanced s
      → let t = remove_connection (numbered_connection_name addr) c s in
        (count j t.connections ≡ (if c == j then 0 else count j s.connections))
        × (count j t.removing ≡ count j s.removing - (if c == j then 1 else 0))
        × (t.next_conn_id ≡ s.next_conn_id)
        × (t.accepting ≡ s.accepting)
  unfolding remove_connection
  remove_counts c j s p b =
      let low = Below-mono s.next_conn_id int_limit s.connections b.limit b.below in
      let small = Below-lt int_limit c s.connections (omega (arith, b.leaving c)) low in
      let lem =
        erase_name_lem (numbered_connection_name addr) (name_injective addr short port) c j
          s.connections small low in
      ground (arith, lem, count-take_out c j s.removing)

-- A cleanup hands over the removal of the connection.
abbrev pub noted : List Effect → Conn → ℕ
noted before k = if ltb (cleanup_calls before) (cleanup_calls k.log) then 1 else 0

pub note_counts :
    (c j : ℕ) (before : List Effect) (k : Conn) (s : Server)
    → let t = note_cleanup c before k s in
      (t.connections ≡ s.connections)
      × (count j t.removing ≡ (if c == j then noted before k else 0) + count j s.removing)
      × (t.next_conn_id ≡ s.next_conn_id)
      × (t.accepting ≡ s.accepting)
unfolding note_cleanup handle_connection_cleanup
note_counts c j before k s = ground arith

pub note-Balanced :
    (c : ℕ) (before : List Effect) (k : Conn) (s : Server)
    → (ltb (cleanup_calls before) (cleanup_calls k.log) ≡ true
        → (1 ≤ count c s.connections) × (count c s.removing ≡ 0))
    → Balanced s
    → Balanced (note_cleanup c before k s)
unfolding note_cleanup
note-Balanced c before k s h b =
    elim (Bool-cases (ltb (cleanup_calls before) (cleanup_calls k.log))) [
      | inl e ↦ rw e (cleaned-Balanced c (last_cleanup k.log) s (h e) b)
      | inr e ↦ rw e b
    ]
