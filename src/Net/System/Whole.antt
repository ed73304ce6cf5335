-- ===== src/Net/System/Whole.antt =====
-- zysoft/net/tcp_server.h with zysoft/net/tcp_connection.h: runs of a server with its connections.
use zysoft.Prelude.{
  ℕ, ◌+◌, ◌^◌, ◌≤◌, ◌<◌, ◌≡◌, refl, List, [], none, some, Bool, true, false, arith, length,
  if◌then◌else◌, ◌==◌, Bool-cases, inl, inr, sym, ◌∙◌, ap, subst,
}
use zysoft.Prelude.Int.{ℤ}
use zysoft.Timer.Wheel.Counts.{count}
use zysoft.Net.Types.{Effect, Callbacks}
use zysoft.Net.Address.{InetAddress}
use zysoft.Net.LoopPool.{LoopPool}
use zysoft.Net.Connection.{Conn, is_closed}
use zysoft.Net.Connection.Kept.{cleanup_calls, is_destroy}
use zysoft.Net.Connection.Handlers
use zysoft.Net.Connection.Handlers.{Event}
use zysoft.Net.Server.{start_accept}
use zysoft.Net.Server.Book.{int_limit}
use zysoft.Net.Server.Runs.{
  Balanced, started, started-Balanced, accepted-Balanced, removes-Balanced,
}
use zysoft.Net.System.{
  System, SystemEvent, accepts, establishes, happens, removes, tears_down, advance, put_conn,
  note_cleanup, step,
}
use zysoft.Net.System.Tracked.{Tracked, Served, Served-calls}
use zysoft.Net.System.Moves.{advance_tracked, accept_tracked, remove_tracked, same_tracked}
use zysoft.Net.System.Counts.{accept_counts, remove_counts, note_counts, note-Balanced}

-- A server that has begun to accept, without connections.
unfoldable pub begun_system : LoopPool → System
begun_system pool = record {
  server = started pool;
  conns = λ c. none;
  opening = [];
  destroying = [];
}

-- The acceptor hands over the connection that it waits for, of which there are as many as an `int` can
-- number; an event of a connection is one that its environment produces; the loops run what was
-- handed to them.
abbrev pub Enabled : SystemEvent → System → Type 0
Enabled (accepts c) s = (s.server.accepting ≡ some c) × (s.server.next_conn_id < int_limit)
Enabled (establishes c) s = 1 ≤ count c s.opening
Enabled (happens c e) s =
    (k : Conn) × (s.conns c ≡ some k) × Handlers.Enabled e k × (is_destroy e ≡ false)
Enabled (removes c) s = 1 ≤ count c s.server.removing
Enabled (tears_down c) s = 1 ≤ count c s.destroying

module _ (addr : InetAddress) (short : length addr.ip ≤ 45) (port : addr.port < 2 ^ 16)
    (cb : ℕ → Callbacks) (hw : Bool) (rt wt : ℤ) where
  abbrev pub Known : ℕ → Conn → Type 0
  Known j = Served (cb j) hw rt wt

  pub record Whole (s : System) : Type 0 where
    pub balanced : Balanced s.server
    pub tracked :
        (j : ℕ)
        → Tracked
            (Known j)
            (s.conns j)
            (count j s.server.connections)
            (count j s.server.removing)
            (count j s.opening)
            (count j s.destroying)
    pub vacant : (j : ℕ) → s.server.next_conn_id ≤ j → s.conns j ≡ none
    pub waiting : (c : ℕ) → s.server.accepting ≡ some c → s.conns c ≡ none

  pub begun-Whole : (pool : LoopPool) → Whole (begun_system pool)
  unfolding begun_system started start_accept
  begun-Whole pool = record {
    balanced = started-Balanced pool;
    tracked = λ j. (refl, refl, refl, omega arith);
    vacant = λ j p. refl;
    waiting = λ c p. refl;
  }

  abbrev pub next_step : SystemEvent → System → System
  next_step = step addr cb hw rt wt

  pub accepts-Whole :
      (c : ℕ) (s : System) → Enabled (accepts c) s → Whole s → Whole (next_step (accepts c) s)
  unfolding step
  accepts-Whole c s h w =
      let (lt, z) = w.balanced.waiting c h.0 in
      let counts = λ (j : ℕ). accept_counts addr short port c j s.server h.0 w.balanced in
      record {
        balanced = accepted-Balanced addr short port c s.server h w.balanced;
        tracked = λ j.
            accept_tracked (Known j) c j (s.conns j) _ _ _ _ _ _ _ (w.tracked j)
              (λ e. (
                subst (λ x. s.conns x ≡ none) e (w.waiting c h.0),
                subst (λ x. count x s.server.connections ≡ 0) e z,
              ))
              (counts j).0 (ap (count j) (counts j).1) (ground arith);
        vacant = λ j p. w.vacant j (omega (arith, counts 0));
        waiting = λ c' p. w.vacant c' (ground (arith, counts 0));
      }

  pub removes-Whole :
      (c : ℕ) (s : System) → Enabled (removes c) s → Whole s → Whole (next_step (removes c) s)
  unfolding step
  removes-Whole c s h w =
      let counts = λ (j : ℕ). remove_counts addr short port c j s.server h w.balanced in
      record {
        balanced = removes-Balanced addr short port c s.server h w.balanced;
        tracked = λ j.
            remove_tracked (Known j) c j (s.conns j) _ _ _ _ _ _ _ (w.tracked j)
              (λ e. subst (λ x. 1 ≤ count x s.server.removing) e h) (w.balanced.once j) (counts j).0
              (counts j).1 (ground arith);
        vacant = λ j p. w.vacant j (omega (arith, counts 0));
        waiting = λ c' p. w.waiting c' (ground (arith, counts 0));
      }

  pub advance-Whole :
      (c : ℕ) (before : List Effect) (was : Bool) (k : Conn) (s : System) (opening' : List ℕ)
      → Whole s
      → Known c k
      → cleanup_calls before ≡ (if was then 1 else 0)
      → (was ≡ true → k.is_cleaned ≡ true)
      → c < s.server.next_conn_id
      → ¬ (s.server.accepting ≡ some c)
      → ((j : ℕ) → (j == c) ≡ false → count j opening' ≡ count j s.opening)
      → count c opening' ≡ 0
      → (was ≡ true
          → (count c s.server.removing ≡ count c s.server.connections)
            × (count c s.server.connections + count c s.destroying
                ≡ (if is_closed k.state then 0 else 1)))
      → (was ≡ false
          → (count c s.server.connections ≡ 1)
            × (count c s.server.removing ≡ 0)
            × (count c s.destroying ≡ 0)
            × (is_closed k.state ≡ false))
      → Whole (advance c before k (record s { opening = opening' }))
  unfolding advance
  advance-Whole c before was k s opening' w known p f lt na others z g h =
      let n = note_cleanup c before k s.server in
      let counts = λ (j : ℕ). note_counts c j before k s.server in
      let calls = Served-calls (cb c) hw rt wt k known in
      let here = advance_tracked (Known c) before was k _ _ _ known p calls f g h in
      let Placed : ℕ → Type 0 = λ j.
        Tracked (Known j) (put_conn s.conns c k j) (count j n.connections) (count j n.removing)
          (count j opening') (count j s.destroying) in
      let self : (c == c) ≡ true = ground arith in
      let at_c : Placed c = rw self (
        same_tracked (Known c) (some k) _ _ _ _ _ _ _ _ here (ap (count c) (counts c).0)
          (ground (arith, counts c)) z refl) in
      record {
        balanced =
            note-Balanced c before k s.server
              (λ e. elim (Bool-cases was) [
                | inl u ↦ absurd (ground (arith, f u))
                | inr u ↦ ground (arith, h u)
              ])
              w.balanced;
        tracked = λ j. elim (Bool-cases (j == c)) [
          | inl e ↦ let q : c ≡ j = ground arith in subst Placed q at_c
          | inr e ↦ rw e (
              same_tracked (Known j) (s.conns j) _ _ _ _ _ _ _ _ (w.tracked j)
                (ap (count j) (counts j).0) (ground (arith, counts j)) (others j e) refl)
        ];
        vacant = λ j q.
            let e : (j == c) ≡ false = ground (arith, counts 0) in
            rw e (w.vacant j (omega (arith, counts 0)));
        waiting = λ c' q.
            let r : s.server.accepting ≡ some c' = sym (counts 0).3 ∙ q in
            elim (Bool-cases (c' == c)) [
              | inl e ↦
                  let v : c' ≡ c = ground arith in
                  absurd (na (subst (λ x. s.server.accepting ≡ some x) v r))
              | inr e ↦ rw e (w.waiting c' r)
            ];
      }
