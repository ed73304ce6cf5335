-- ===== src/Net/System/Ends.antt =====
-- zysoft/net/tcp_server.h with zysoft/net/tcp_connection.h: every connection that a server accepted ends well.
use zysoft.Prelude.{
  ℕ, ◌+◌, ◌^◌, ◌≤◌, ◌<◌, ◌≡◌, refl, List, [], ◌∷◌, some, Bool, true, false, arith, length,
  if◌then◌else◌, ◌==◌, Bool-cases, inl, inr, subst, sym,
}
use zysoft.Prelude.Int.{ℤ}
use zysoft.Timer.Wheel.Counts.{count}
use zysoft.Net.Types.{Callbacks}
use zysoft.Net.Address.{InetAddress}
use zysoft.Net.LoopPool.{LoopPool}
use zysoft.Net.Connection.{Conn, is_closed}
use zysoft.Net.Connection.Life.{EndsOnce, Life-EndsOnce}
use zysoft.Net.Connection.Kept.{step-Kept}
use zysoft.Net.Connection.Ordered.{InOrder, QuietOnWrite, messages_keep_order}
use zysoft.Net.Connection.Handlers
use zysoft.Net.Connection.Handlers.{Event, connect_destroy, late_among}
use zysoft.Net.Server.{take_out}
use zysoft.Net.Server.Runs.{established_count, destroyed_count}
use zysoft.Net.Server.Book.{count-take_out, Below-lt}
use zysoft.Net.System.{
  System, SystemEvent, accepts, establishes, happens, removes, tears_down, tear_down, put_conn,
  step, run, handle, opened_conn,
}
use zysoft.Net.System.Tracked.{
  Tracked, Served-calls, Reached-Life, begun-Served, step-Served, destroy-Served, destroy_closes,
}
use zysoft.Net.System.Moves.{account_lem, same_tracked, opening_vacant, leaving_cleaned}
use zysoft.Net.System.Whole.{
  Enabled, Whole, Known, begun_system, begun-Whole, accepts-Whole, removes-Whole, advance-Whole,
}

module _ (addr : InetAddress) (cb : ℕ → Callbacks) (hw : Bool) (rt wt : ℤ) where
  abbrev pub AllEnabled : List SystemEvent → System → Type 0
  AllEnabled [] s = Unit {0}
  AllEnabled (e ∷ es) s = Enabled e s × AllEnabled es (step addr cb hw rt wt e s)

module _ (addr : InetAddress) (short : length addr.ip ≤ 45) (port : addr.port < 2 ^ 16)
    (cb : ℕ → Callbacks) (hw : Bool) (rt wt : ℤ) where
  abbrev Fine : System → Type 0
  Fine = Whole addr short port cb hw rt wt

  abbrev next : SystemEvent → System → System
  next = step addr cb hw rt wt

  establishes-Whole :
      (c : ℕ) (s : System) → Enabled (establishes c) s → Fine s → Fine (next (establishes c) s)
  unfolding step
  establishes-Whole c s h w =
      let (_, m, r, d, o) = opening_vacant _ (s.conns c) _ _ _ _ (w.tracked c) h in
      let (known, closed) = begun-Served (cb c) hw rt wt in
      let balanced = w.balanced in
      advance-Whole addr short port cb hw rt wt c [] false (opened_conn addr cb hw rt wt c) s
        (take_out c s.opening) w known refl (λ e. absurd (ground arith))
        (Below-lt _ c s.server.connections (omega arith) balanced.below)
        (λ p. omega (arith, (balanced.waiting c p).1))
        (λ j e. ground (arith, count-take_out c j s.opening))
        (ground (arith, count-take_out c c s.opening)) (λ e. absurd (ground arith))
        (λ e. (m, r, d, closed))

  abbrev KnownBy : ℕ → Conn → Type 0
  KnownBy = Known addr short port cb hw rt wt

  -- What the server knows of `k`, which is established.
  found :
      (c : ℕ) (k : Conn) (s : System)
      → s.conns c ≡ some k
      → Fine s
      → Tracked
          (KnownBy c)
          (some k)
          (count c s.server.connections)
          (count c s.server.removing)
          (count c s.opening)
          (count c s.destroying)
        × (c < s.server.next_conn_id)
        × (¬ (s.server.accepting ≡ some c))
  found c k s q w =
      let balanced = w.balanced in
      (
        subst
            (λ x.
              Tracked (KnownBy c) x (count c s.server.connections) (count c s.server.removing)
                (count c s.opening) (count c s.destroying))
            q (w.tracked c),
        ground (arith, w.vacant c),
        λ p. absurd (ground (arith, w.waiting c p)),
      )

  happens-Whole :
      (c : ℕ) (e : Event) (s : System)
      → Enabled (happens c e) s
      → Fine s
      → Fine (next (happens c e) s)
  unfolding step handle
  happens-Whole c e s (k, q, en, nd) w =
      let (t, lt, na) = found c k s q w in
      let kept = step-Kept (cb c) e k nd in
      let life = Reached-Life (cb c) hw rt wt k t.0.reached in
      rw q (
        advance-Whole addr short port cb hw rt wt c k.log k.is_cleaned (Handlers.step (cb c) e k) s
          s.opening w (step-Served (cb c) hw rt wt e k nd en t.0)
          (Served-calls (cb c) hw rt wt k t.0) kept.cleaned lt na (λ j f. refl) t.1
          (λ f. ground (arith, t.2 f)) (λ f. ground (arith, t.3 f)))

  tears_down-Whole :
      (c : ℕ) (s : System) → Enabled (tears_down c) s → Fine s → Fine (next (tears_down c) s)
  unfolding step tear_down
  tears_down-Whole c s h w =
      let (k, q, known, e, z, r, m, d) = leaving_cleaned _ (s.conns c) _ _ _ _ (w.tracked c) h in
      let (_, lt, na) = found c k s q w in
      let dead = connect_destroy k in
      let (closed, kept) = destroy_closes (cb c) hw rt wt k in
      let Placed : ℕ → Type 0 = λ j.
        Tracked (KnownBy j) (put_conn s.conns c dead j) (count j s.server.connections)
          (count j s.server.removing) (count j s.opening) (count j (take_out c s.destroying)) in
      let self : (c == c) ≡ true = ground arith in
      let at_c : Placed c = rw self (
        destroy-Served (cb c) hw rt wt k e known,
        z,
        (λ f. ground (arith, count-take_out c c s.destroying)),
        (λ f. absurd (cc kept)),
      ) in
      rw q (record {
        balanced = w.balanced;
        tracked = λ j. elim (Bool-cases (j == c)) [
          | inl f ↦ let p : c ≡ j = ground arith in subst Placed p at_c
          | inr f ↦ rw f (
              same_tracked (KnownBy j) (s.conns j) _ _ _ _ _ _ _ _ (w.tracked j) refl refl refl
                (ground (arith, count-take_out c j s.destroying)))
        ];
        vacant = λ j p. let f : (j == c) ≡ false = ground arith in rw f (w.vacant j p);
        waiting = λ c' p. elim (Bool-cases (c' == c)) [
          | inl f ↦
              let v : c' ≡ c = ground arith in
              absurd (na (subst (λ x. s.server.accepting ≡ some x) v p))
          | inr f ↦ rw f (w.waiting c' p)
        ];
      })

  step-Whole : (e : SystemEvent) (s : System) → Enabled e s → Fine s → Fine (next e s)
  step-Whole (accepts c) s h w = accepts-Whole addr short port cb hw rt wt c s h w
  step-Whole (establishes c) s h w = establishes-Whole c s h w
  step-Whole (happens c e) s h w = happens-Whole c e s h w
  step-Whole (removes c) s h w = removes-Whole addr short port cb hw rt wt c s h w
  step-Whole (tears_down c) s h w = tears_down-Whole c s h w

  run-Whole :
      (es : List SystemEvent) (s : System)
      → AllEnabled addr cb hw rt wt es s
      → Fine s
      → Fine (run addr cb hw rt wt es s)
  unfolding run
  run-Whole [] s h w = w
  run-Whole (e ∷ es) s h w = run-Whole es (next e s) h.1 (step-Whole e s h.0 w)

  run-Fine :
      (pool : LoopPool) (es : List SystemEvent)
      → AllEnabled addr cb hw rt wt es (begun_system pool)
      → Fine (run addr cb hw rt wt es (begun_system pool))
  run-Fine pool es h =
      run-Whole es (begun_system pool) h (begun-Whole addr short port cb hw rt wt pool)

  -- In every run of a server with its connections, each event when it is enabled, at an address of at
  -- most 45 characters, every established connection behaves as one that runs alone: a run of enabled
  -- events leads to it from its opening.
  pub connections_run_alone :
      (pool : LoopPool) (es : List SystemEvent) (c : ℕ) (k : Conn)
      → AllEnabled addr cb hw rt wt es (begun_system pool)
      → (run addr cb hw rt wt es (begun_system pool)).conns c ≡ some k
      → let o = opened_conn addr cb hw rt wt c in
        (fs : List Event) × Handlers.AllEnabled (cb c) fs o × (k ≡ Handlers.run (cb c) fs o)
  connections_run_alone pool es c k h q = (found c k _ q (run-Fine pool es h)).0.0.reached

  -- In every run of a server with its connections in which no accept fails and fewer than 2 ^ 31 connections are made,
  -- each event when it is enabled, at an address of at most 45 characters, an established connection whose write-complete
  -- callback sends nothing comes from its opening by enabled events; an assertion of it has failed exactly if among them
  -- the callback of a timer that was dropped still came, before the connection was closed; it hands the messages that it accepted to its socket in
  -- their order and one at a time, and has finished all of them but the one being written and those that still wait.
  pub connections_keep_order :
      (pool : LoopPool) (es : List SystemEvent) (c : ℕ) (k : Conn)
      → QuietOnWrite (cb c)
      → AllEnabled addr cb hw rt wt es (begun_system pool)
      → (run addr cb hw rt wt es (begun_system pool)).conns c ≡ some k
      → let o = opened_conn addr cb hw rt wt c in
        (fs : List Event) × Handlers.AllEnabled (cb c) fs o
        × (k ≡ Handlers.run (cb c) fs o)
        × InOrder (late_among (cb c) fs o) k
  connections_keep_order pool es c k quiet h q =
      let (fs, enabled, reached) = connections_run_alone pool es c k h q in
      (
        fs,
        enabled,
        reached,
        subst (InOrder (late_among (cb c) fs (opened_conn addr cb hw rt wt c))) (sym reached)
            (messages_keep_order (cb c) true hw rt wt true fs quiet enabled),
      )

  -- In every run of a server with its connections in which no accept fails and fewer than 2 ^ 31 connections are made,
  -- each event when it is enabled, at an address of at most 45 characters: no assertion of the server fails; every established connection calls its
  -- cleanup callback and closes its socket at most once, as `EndsOnce` says; one that is not cleaned up is in the server's
  -- map; one that is cleaned up is waiting to be removed, or waiting to be destroyed, or closed, exactly one of
  -- them; and one that is closed has left the map.
  pub connections_end_well :
      (pool : LoopPool) (es : List SystemEvent) (c : ℕ) (k : Conn)
      → AllEnabled addr cb hw rt wt es (begun_system pool)
      → (run addr cb hw rt wt es (begun_system pool)).conns c ≡ some k
      → let s = run addr cb hw rt wt es (begun_system pool) in
        (s.server.fault ≡ false)
        × EndsOnce k
        × (count c s.server.connections + (if k.is_cleaned then 1 else 0)
            ≡ 1 + count c s.server.removing)
        × (count c s.server.removing + count c s.destroying + (if is_closed k.state then 1 else 0)
            ≡ (if k.is_cleaned then 1 else 0))
  connections_end_well pool es c k h q =
      let w = run-Fine pool es h in
      let t = (found c k _ q w).0 in
      let life = Reached-Life (cb c) hw rt wt k t.0.reached in
      let (left, ends) = account_lem (KnownBy c) k _ _ _ _ t life.closed_cleaned in
      (w.balanced.no_fault, Life-EndsOnce k life, left, ends)

  -- In every run of a server with its connections in which no accept fails and fewer than 2 ^ 31 connections are made,
  -- each event when it is enabled, at an address of at most 45 characters: no assertion of the server fails, no
  -- connection stands in the map twice, and every connection handed to its loop to be established is in the map or has
  -- been handed to its loop to be destroyed, once.
  pub no_connection_lost :
      (pool : LoopPool) (es : List SystemEvent) (j : ℕ)
      → AllEnabled addr cb hw rt wt es (begun_system pool)
      → let s = (run addr cb hw rt wt es (begun_system pool)).server in
        (s.fault ≡ false)
        × (count j s.connections ≤ 1)
        × (destroyed_count j s.log + count j s.connections ≡ established_count j s.log)
  no_connection_lost pool es j h =
      let b = (run-Fine pool es h).balanced in (b.no_fault, b.once j, b.account j)
