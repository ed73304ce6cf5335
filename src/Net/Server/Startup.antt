-- ===== src/Net/Server/Startup.antt =====
-- zysoft/net/tcp_server.h: `start`, from the threads of the pool over the acceptor to the first accept, and the loops
-- that the connections get.
use zysoft.Prelude.{
  subst, ℕ, zero, suc, ◌-◌, ◌%◌, ◌^◌, ◌<◌, ◌≤◌, ◌≡◌, refl, sym, ap, ◌∙◌, List, [], ◌∷◌, ◌++◌,
  Option, none, some, Bool, true, false, arith, if◌then◌else◌, ◌==◌, Bool-cases, inl, inr,
}
use zysoft.Prelude.Int.{ℤ, pos, to_ℕ}
use zysoft.Text.Split.{Text}
use zysoft.Net.Address.{InetAddress, numbered_connection_name}
use zysoft.Net.LoopPool.{LoopPool, next_event_loop, after_calls}
use zysoft.Net.LoopPool.Start
use zysoft.Net.LoopPool.Start.{StartEvent, returned, create_pool}
use zysoft.Net.LoopPool.Ends.{as_loops, sync_start_lem}
use zysoft.Net.Acceptor
use zysoft.Net.Acceptor.{Acceptor, SocketCall, create_acceptor, listen, wait_accept}
use zysoft.Net.Acceptor.Listening.{until_throw, wanted_calls, is_none, listen_lem}
use zysoft.Net.Types.{CleanupContext}
use zysoft.Net.Server
use zysoft.Net.Server.{
  ServerEffect, creates, post_destroy, is_null, cleanup_callback, Server, assign, erase_name,
  post_establised, create_server, start_accept, handle_new_connection, handle_connection_cleanup,
  remove_connection,
}
use zysoft.Net.Server.Runs.{started, ServerEvent, accepted, cleaned, removes, step, run}

-- A server before `start`; the application's callbacks are parameters of what runs on its connections.
pub record Setup : Type 0 where
  pub base_loop : ℕ
  pub acceptor : Acceptor
  pub thread_num : ℤ
  pub read_timeout : ℤ
  pub write_timeout : ℤ

unfoldable pub create_setup : ℕ → InetAddress → Setup
create_setup base_loop addr = record {
  base_loop = base_loop;
  acceptor = create_acceptor addr;
  thread_num = pos 0;
  read_timeout = pos 60;
  write_timeout = pos 60;
}

unfoldable pub set_reuse_addr : Bool → Setup → Setup
set_reuse_addr b u = record u { acceptor = Acceptor.set_reuse_addr b u.acceptor }

unfoldable pub set_thread_num : ℤ → Setup → Setup
set_thread_num num u = record u { thread_num = num }

unfoldable pub set_read_timeout : ℤ → Setup → Setup
set_read_timeout sec u = record u { read_timeout = sec }

unfoldable pub set_write_timeout : ℤ → Setup → Setup
set_write_timeout sec u = record u { write_timeout = sec }

-- The threads of the pool, where `es` is how their start goes.
unfoldable pub started_pool : Setup → List StartEvent → LoopPool
started_pool u es = as_loops u.base_loop (Start.run es (create_pool u.thread_num))

-- `start` behind `sync_start`; the acceptor waits for the connection that `start_accept` made.
unfoldable pub start : (SocketCall → Option Text) → Setup → LoopPool → Bool × Acceptor × Server
start throws u pool =
    let (ok, a, _) = listen throws false u.acceptor in
    let s = start_accept (create_server pool) in
    if ok then (true, wait_accept s.accepting a, s) else (false, a, create_server pool)

first_loop :
    (u : Setup) (es : List StartEvent)
    → to_ℕ u.thread_num < 2 ^ 31
    → (Start.run es (create_pool u.thread_num)).caller ≡ returned
    → is_null (next_event_loop (started_pool u es)).1 ≡ false
unfolding started_pool after_calls
first_loop u es small r = ap is_null (sync_start_lem u.thread_num es u.base_loop 0 small r)

-- `start`, once `sync_start` of fewer than 2 ^ 31 threads has returned, whatever the interleaving was: it returns true exactly
-- if no call of the acceptor throws. Then the acceptor and the server wait for the same connection, the first one; else
-- for none. The calls of the acceptor are those up to the first that throws, no connection is made with a null loop, and
-- no null connection is waited for.
pub start_lem :
    (throws : SocketCall → Option Text) (u : Setup) (es : List StartEvent)
    → u.acceptor.conn ≡ none
    → u.acceptor.fault ≡ false
    → to_ℕ u.thread_num < 2 ^ 31
    → (Start.run es (create_pool u.thread_num)).caller ≡ returned
    → let (ok, a, s) = start throws u (started_pool u es) in
      (ok ≡ is_none (until_throw throws (wanted_calls u.acceptor.reuse_addr)).0)
      × (a.conn ≡ (if ok then some 1 else none))
      × (s.accepting ≡ a.conn)
      × (a.fault ≡ false)
      × (s.fault ≡ false)
      × (s.null_loop ≡ false)
      × (a.calls ≡ u.acceptor.calls ++ (until_throw throws (wanted_calls u.acceptor.reuse_addr)).1)
unfolding start start_accept wait_accept Server.wait_accept
start_lem throws u es c f small r =
    let (p, q, _) = listen_lem throws false u.acceptor in
    let loop = first_loop u es small r in
    elim (Bool-cases (is_none (until_throw throws (wanted_calls u.acceptor.reuse_addr)).0)) [
      | inl e ↦ rw (p, q, e) (refl, refl, refl, f, refl, loop, refl)
      | inr e ↦ rw (p, q, e) (refl, c, sym c, f, refl, refl, refl)
    ]

after_one_more :
    (k : ℕ) (p : LoopPool) → (next_event_loop (after_calls k p)).0 ≡ after_calls (suc k) p
unfolding after_calls
after_one_more zero p = refl
after_one_more (suc k) p = after_one_more k (next_event_loop p).0

-- The loop that the connection numbered `c` was made with.
abbrev pub loop_of : ℕ → List ServerEffect → Option (Option ℕ)
loop_of c [] = none
loop_of c (creates d loop ∷ es) = let rest = loop_of c es in if d == c then loop else rest
loop_of c (e ∷ es) = loop_of c es

-- The pool has made a call for each connection that was created, and given it its loop.
record Counted (pool : LoopPool) (s : Server) : Type 0 where
  positive : 1 ≤ s.next_conn_id
  calls : s.thread_pool ≡ after_calls (s.next_conn_id - 1) pool
  given :
      (c : ℕ)
      → 1 ≤ c
      → c < s.next_conn_id
      → loop_of c s.log ≡ (next_event_loop (after_calls (c - 1) pool)).1

start_accept-Counted :
    (pool : LoopPool) (s : Server) → Counted pool s → Counted pool (start_accept s)
unfolding start_accept wait_accept Server.wait_accept
start_accept-Counted pool s h =
    let positive = h.positive in
    record {
      positive = omega arith;
      calls =
          ap (λ x. (next_event_loop x).0) h.calls
          ∙ after_one_more (s.next_conn_id - 1) pool
          ∙ ap (λ k. after_calls k pool) (omega arith);
      given = λ c low high. elim (Bool-cases (s.next_conn_id == c)) [
        | inl e ↦
            let same : s.next_conn_id - 1 ≡ c - 1 = ground arith in
            rw e (
              ap (λ x. (next_event_loop x).1) h.calls
              ∙ ap (λ k. (next_event_loop (after_calls k pool)).1) same)
        | inr e ↦ rw e (h.given c low (ground arith))
      ];
    }

callback_loop :
    (c d : ℕ) (ctx : CleanupContext) (log : List ServerEffect)
    → loop_of c (cleanup_callback d ctx log) ≡ loop_of c log
unfolding cleanup_callback
callback_loop c d ctx log = ground arith

removes_same :
    (name : ℕ → Text) (c : ℕ) (s : Server)
    → let t = remove_connection name c s in
      (t.thread_pool ≡ s.thread_pool)
      × (t.next_conn_id ≡ s.next_conn_id)
      × (t.log ≡ post_destroy c ∷ s.log)
unfolding remove_connection
removes_same name c s = elim (Bool-cases ((erase_name name c s.connections).1 == 1)) [
  | inl e ↦ rw e (refl, refl, refl)
  | inr e ↦ rw e (refl, refl, refl)
]

module _ (addr : InetAddress) (pool : LoopPool) where
  step-Counted : (e : ServerEvent) (s : Server) → Counted pool s → Counted pool (step addr e s)
  unfolding step handle_new_connection handle_connection_cleanup remove_connection
  step-Counted (accepted c) s h =
      start_accept-Counted pool
        (record s {
          connections = assign (numbered_connection_name addr) c s.connections;
          accepting = none;
          log = post_establised c ∷ s.log;
        })
        (record { positive = h.positive; calls = h.calls; given = h.given })
  step-Counted (cleaned c ctx) s h = record {
    positive = h.positive;
    calls = h.calls;
    given = λ d low high. callback_loop d c ctx s.log ∙ h.given d low high;
  }
  step-Counted (removes c) s h =
      let (p, q, r) = removes_same (numbered_connection_name addr) c s in
      let positive = h.positive in
      record {
        positive = omega (arith, q);
        calls = p ∙ h.calls ∙ ap (λ k. after_calls (k - 1) pool) (sym q);
        given = λ d low high. ap (loop_of d) r ∙ h.given d low (subst (λ n. d < n) q high);
      }

  run-Counted : (es : List ServerEvent) (s : Server) → Counted pool s → Counted pool (run addr es s)
  unfolding run
  run-Counted [] s h = h
  run-Counted (e ∷ es) s h = run-Counted es (step addr e s) (step-Counted e s h)

  started-Counted : Counted pool (started pool)
  unfolding started after_calls
  started-Counted =
      start_accept-Counted pool (create_server pool) (record {
        positive = omega arith;
        calls = refl;
        given = λ c low high. absurd (omega arith);
      })

-- In every run of a server that has started with fewer than 2 ^ 31 threads, however they interleaved, each connection
-- `c` that it has made, from the first on, was made with the loop of the thread `(c - 1) % n` of the `n` threads, or with
-- the base loop if there are none.
pub connections_spread :
    (addr : InetAddress) (u : Setup) (es : List StartEvent) (evs : List ServerEvent) (c : ℕ)
    → to_ℕ u.thread_num < 2 ^ 31
    → (Start.run es (create_pool u.thread_num)).caller ≡ returned
    → 1 ≤ c
    → c < (run addr evs (started (started_pool u es))).next_conn_id
    → let s = run addr evs (started (started_pool u es)) in
      let n = to_ℕ u.thread_num in
      loop_of c s.log ≡ some (some (if n == 0 then u.base_loop else (c - 1) % n))
unfolding started_pool
connections_spread addr u es evs c small r low high =
    let pool = as_loops u.base_loop (Start.run es (create_pool u.thread_num)) in
    let h = run-Counted addr pool evs (started pool) (started-Counted addr pool) in
    h.given c low high ∙ sync_start_lem u.thread_num es u.base_loop (c - 1) small r
