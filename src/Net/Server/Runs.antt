-- ===== src/Net/Server/Runs.antt =====
-- zysoft/net/tcp_server.h: runs of the server. The acceptor completes an accept, a connection cleans
-- itself up, and the loop runs a `remove_connection` that was handed to it.
use zysoft.Prelude.{
  ℕ, ◌+◌, ◌^◌, length, ◌≤◌, ◌<◌, ◌≡◌, refl, List, [], ◌∷◌, none, some, true, false, arith,
  if◌then◌else◌, ◌==◌,
}
use zysoft.Net.Types.{CleanupContext}
use zysoft.Net.LoopPool.{LoopPool}
use zysoft.Timer.Wheel.Counts.{count}
use zysoft.Text.Split.{Text}
use zysoft.Net.Address.{InetAddress, numbered_connection_name}
use zysoft.Net.Address.Names.{names_differ}
use zysoft.Net.Server.{
  ServerEffect, post_establised, post_destroy, Server, handle_connection_cleanup, cleanup_callback,
  start_accept, create_server, assign, erase_name, handle_new_connection, remove_connection,
}
use zysoft.Net.Server.Book.{
  int_limit, Below, Below-mono, Below-lt, count-Below, count-take_out, count-assign, assign-Below,
  erase_name_lem, erase_name-Below,
}

pub data ServerEvent : Type 0 where
  accepted : ℕ → ServerEvent
  cleaned : ℕ → CleanupContext → ServerEvent
  removes : ℕ → ServerEvent

-- How often a connection was opened, and destroyed.
abbrev pub established_count : ℕ → List ServerEffect → ℕ
established_count j [] = 0
established_count j (post_establised c ∷ es) =
    let n = established_count j es in if c == j then n + 1 else n
established_count j (e ∷ es) = established_count j es

abbrev pub destroyed_count : ℕ → List ServerEffect → ℕ
destroyed_count j [] = 0
destroyed_count j (post_destroy c ∷ es) =
    let n = destroyed_count j es in if c == j then n + 1 else n
destroyed_count j (e ∷ es) = destroyed_count j es

-- The server once it has begun to accept.
unfoldable pub started : LoopPool → Server
started pool = start_accept (create_server pool)

-- The acceptor hands over the connection it waits for, of which there are as many as an `int` can
-- number; a connection cleans itself up once; the loop runs what was handed to it.
abbrev pub Enabled : ServerEvent → Server → Type 0
Enabled (accepted c) s = (s.accepting ≡ some c) × (s.next_conn_id < int_limit)
Enabled (cleaned c ctx) s = (1 ≤ count c s.connections) × (count c s.removing ≡ 0)
Enabled (removes c) s = 1 ≤ count c s.removing

pub record Balanced (s : Server) : Type 0 where
  pub below : Below s.next_conn_id s.connections
  pub limit : s.next_conn_id ≤ int_limit
  pub once : (j : ℕ) → count j s.connections ≤ 1
  pub leaving : (j : ℕ) → count j s.removing ≤ count j s.connections
  pub waiting : (c : ℕ) → s.accepting ≡ some c → (c < s.next_conn_id) × (count c s.connections ≡ 0)
  pub account :
      (j : ℕ) → destroyed_count j s.log + count j s.connections ≡ established_count j s.log
  pub no_fault : s.fault ≡ false

pub started-Balanced : (pool : LoopPool) → Balanced (started pool)
unfolding started start_accept
started-Balanced pool = record {
  below = tt;
  limit = omega arith;
  once = λ j. omega arith;
  leaving = λ j. omega arith;
  waiting = λ c p. ground arith;
  account = λ j. refl;
  no_fault = refl;
}

pub callback_count :
    (j c : ℕ) (ctx : CleanupContext) (log : List ServerEffect)
    → (established_count j (cleanup_callback c ctx log) ≡ established_count j log)
      × (destroyed_count j (cleanup_callback c ctx log) ≡ destroyed_count j log)
unfolding cleanup_callback
callback_count j c ctx log = ground arith

pub cleaned-Balanced :
    (c : ℕ) (ctx : CleanupContext) (s : Server)
    → Enabled (cleaned c ctx) s
    → Balanced s
    → Balanced (handle_connection_cleanup c ctx s)
unfolding handle_connection_cleanup
cleaned-Balanced c ctx s e b = record {
  below = b.below;
  limit = b.limit;
  once = b.once;
  leaving = λ j. ground (arith, b.leaving j);
  waiting = b.waiting;
  account = λ j. omega (arith, b.account j, callback_count j c ctx s.log);
  no_fault = b.no_fault;
}

module _ (addr : InetAddress) where
  -- The server of `addr`, whose connections are named `create_connection_name(addr, conn_id)`.
  unfoldable pub step : ServerEvent → Server → Server
  step (accepted c) s = handle_new_connection (numbered_connection_name addr) none c s
  step (cleaned c ctx) s = handle_connection_cleanup c ctx s
  step (removes c) s = remove_connection (numbered_connection_name addr) c s

  unfoldable pub run : List ServerEvent → Server → Server
  run [] s = s
  run (e ∷ es) s = run es (step e s)

module _ (addr : InetAddress) (short : length addr.ip ≤ 45) (port : addr.port < 2 ^ 16) where
  abbrev name : ℕ → Text
  name = numbered_connection_name addr

  pub name_injective : (i j : ℕ) → i < int_limit → j < int_limit → name i ≡ name j → i ≡ j
  name_injective i j p q e = names_differ addr i j short port p q e

  pub accepted-Balanced :
      (c : ℕ) (s : Server)
      → Enabled (accepted c) s
      → Balanced s
      → Balanced (handle_new_connection name none c s)
  unfolding handle_new_connection start_accept
  accepted-Balanced c s (p, q) b =
      let (lt, z) = b.waiting c p in
      let low = Below-mono s.next_conn_id int_limit s.connections b.limit b.below in
      let counts : (j : ℕ)
          → count j (assign name c s.connections)
            ≡ (if c == j then 1 else 0) + count j s.connections =
        λ j. count-assign name name_injective c j s.connections (omega arith) low z in
      record {
        below =
            Below-mono s.next_conn_id (s.next_conn_id + 1) _ (omega arith)
              (assign-Below name name_injective c s.next_conn_id s.connections lt b.below);
        limit = omega arith;
        once = λ j. ground (arith, counts j, b.once j);
        leaving = λ j. ground (arith, counts j, b.leaving j);
        waiting = λ c' p'. ground (
          arith,
          counts c',
          count-Below s.next_conn_id s.next_conn_id s.connections (omega arith) b.below,
        );
        account = λ j. ground (arith, counts j, b.account j);
        no_fault = b.no_fault;
      }

  pub removes-Balanced :
      (c : ℕ) (s : Server)
      → Enabled (removes c) s
      → Balanced s
      → Balanced (remove_connection name c s)
  unfolding remove_connection
  removes-Balanced c s e b =
      let here : 1 ≤ count c s.connections = omega (arith, b.leaving c) in
      let low = Below-mono s.next_conn_id int_limit s.connections b.limit b.below in
      let small = Below-lt int_limit c s.connections here low in
      let lem = λ (j : ℕ). erase_name_lem name name_injective c j s.connections small low in
      let one : ((erase_name name c s.connections).1 == 1) ≡ true =
        ground (arith, lem c, b.once c) in
      rw one (record {
        below = erase_name-Below name name_injective c s.next_conn_id s.connections b.below;
        limit = b.limit;
        once = λ j. ground (arith, lem j, b.once j);
        leaving = λ j. ground (arith, lem j, b.leaving j, b.once j, count-take_out c j s.removing);
        waiting = λ c' p. ground (arith, lem c', b.waiting c' p);
        account = λ j. ground (arith, lem j, b.account j, b.once j);
        no_fault = b.no_fault;
      })
