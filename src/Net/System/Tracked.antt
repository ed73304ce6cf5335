-- ===== src/Net/System/Tracked.antt =====
-- zysoft/net/tcp_connection.h: a connection that a server keeps, as the server sees it.
use zysoft.Prelude.{
  ℕ, ◌+◌, ◌≤◌, ◌≡◌, refl, ◌∙◌, ap, List, [], ◌∷◌, ◌++◌, Option, none, some, Bool, true, false,
  arith, if◌then◌else◌, subst, sym,
}
use zysoft.Prelude.Int.{ℤ}
use zysoft.Net.Types.{Callbacks, connecting}
use zysoft.Net.Connection.{Conn, is_closed, create, set_state}
use zysoft.Net.Connection.Kept.{
  cleanup_calls, cleanup_misses, cleanups-split, is_destroy, step-Kept, connect_establised-Kept,
}
use zysoft.Net.Connection.Life.{Life, run-Life, opened-Life}
use zysoft.Net.Connection.Handlers.{
  Event, opened, connect_destroy, destroys, step, run, Enabled, AllEnabled,
}

run-append :
    (cb : Callbacks) (es : List Event) (e : Event) (c : Conn)
    → run cb (es ++ e ∷ []) c ≡ step cb e (run cb es c)
unfolding run
run-append cb [] e c = refl
run-append cb (x ∷ es) e c = run-append cb es e (step cb x c)

AllEnabled-append :
    (cb : Callbacks) (es : List Event) (e : Event) (c : Conn)
    → AllEnabled cb es c
    → Enabled e (run cb es c)
    → AllEnabled cb (es ++ e ∷ []) c
unfolding run
AllEnabled-append cb [] e c a h = (h, tt)
AllEnabled-append cb (x ∷ es) e c a h = (a.0, AllEnabled-append cb es e (step cb x c) a.1 h)

module _ (cb : Callbacks) (has_write_complete_cb : Bool) (read_timeout write_timeout : ℤ) where
  abbrev begun : Conn
  begun = opened cb true has_write_complete_cb read_timeout write_timeout true

  -- A run of enabled events leads from the opening to `k`.
  abbrev pub Reached : Conn → Type 0
  Reached k = (es : List Event) × AllEnabled cb es begun × (k ≡ run cb es begun)

  pub begun-Reached : Reached begun
  unfolding run
  begun-Reached = ([], tt, refl)

  pub step-Reached : (e : Event) (k : Conn) → Enabled e k → Reached k → Reached (step cb e k)
  step-Reached e k h (es, a, p) = (
    es ++ e ∷ [],
    AllEnabled-append cb es e begun a (subst (λ c. Enabled e c) p h),
    ap (step cb e) p ∙ sym (run-append cb es e begun),
  )

  pub Reached-Life : (k : Conn) → Reached k → Life k
  Reached-Life k (es, a, p) = subst Life (sym p) (
      run-Life cb es begun a
        (opened-Life cb true has_write_complete_cb read_timeout write_timeout true))

  -- What the cleanup callback being set gives.
  pub record Served (k : Conn) : Type 0 where
    pub reached : Reached k
    pub has_cb : k.has_cleanup_cb ≡ true
    pub no_miss : cleanup_misses k.log ≡ 0

  pub begun-Served : Served begun × (is_closed begun.state ≡ false)
  unfolding opened create
  begun-Served =
      let c = set_state connecting (create true has_write_complete_cb read_timeout write_timeout) in
      let f = connect_establised-Kept cb c refl in
      (
        record { reached = begun-Reached; has_cb = f.same_cb; no_miss = f.misses refl },
        f.same_closed,
      )

  pub step-Served :
      (e : Event) (k : Conn) → is_destroy e ≡ false → Enabled e k → Served k → Served (step cb e k)
  step-Served e k d h s =
      let f = step-Kept cb e k d in
      record {
        reached = step-Reached e k h s.reached;
        has_cb = f.same_cb ∙ s.has_cb;
        no_miss = f.misses s.has_cb ∙ s.no_miss;
      }

  pub destroy-Served : (k : Conn) → k.is_cleaned ≡ true → Served k → Served (connect_destroy k)
  unfolding connect_destroy step
  destroy-Served k h s = record {
    reached = step-Reached destroys k h s.reached;
    has_cb = ground (arith, s.has_cb);
    no_miss = ground (arith, s.no_miss);
  }

  pub destroy_closes :
      (k : Conn)
      → (is_closed (connect_destroy k).state ≡ true)
        × ((connect_destroy k).is_cleaned ≡ k.is_cleaned)
  unfolding connect_destroy
  destroy_closes k = ground arith

  pub Served-calls : (k : Conn) → Served k → cleanup_calls k.log ≡ (if k.is_cleaned then 1 else 0)
  Served-calls k s =
      let f = Reached-Life k s.reached in
      omega (arith, f.cleaned_once, s.no_miss, cleanups-split k.log)

-- How a connection stands with the server: how often it is in the map, among the removals that were
-- handed over, among the openings and among the destructions.
abbrev pub Tracked : (Conn → Type 0) → Option Conn → ℕ → ℕ → ℕ → ℕ → Type 0
Tracked Known none m r o d = (r ≡ 0) × (d ≡ 0) × (m ≡ o) × (o ≤ 1)
Tracked Known (some k) m r o d =
    Known k
    × (o ≡ 0)
    × (k.is_cleaned ≡ true → (r ≡ m) × (m + d ≡ (if is_closed k.state then 0 else 1)))
    × (k.is_cleaned ≡ false → (m ≡ 1) × (r ≡ 0) × (d ≡ 0))
