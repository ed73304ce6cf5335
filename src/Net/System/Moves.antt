-- ===== src/Net/System/Moves.antt =====
-- zysoft/net/tcp_server.h with zysoft/net/tcp_connection.h: how the events move one connection.
use zysoft.Prelude.{
  ℕ, ◌+◌, ◌-◌, ◌≤◌, ◌≡◌, refl, List, Option, none, some, Bool, true, false, arith, if◌then◌else◌,
  ◌==◌, Bool-cases, inl, inr,
}
use zysoft.Net.Types.{Effect}
use zysoft.Net.Connection.{Conn, is_closed}
use zysoft.Net.Connection.Kept.{cleanup_calls}
use zysoft.Net.System.Tracked.{Tracked}
use zysoft.Net.System.Counts.{noted}

module _ (Known : Conn → Type 0) where
  -- A handler of the connection, which may have been cleaned up before and may clean up now.
  pub advance_tracked :
      (before : List Effect) (was : Bool) (k : Conn) (m r d : ℕ)
      → Known k
      → cleanup_calls before ≡ (if was then 1 else 0)
      → cleanup_calls k.log ≡ (if k.is_cleaned then 1 else 0)
      → (was ≡ true → k.is_cleaned ≡ true)
      → (was ≡ true → (r ≡ m) × (m + d ≡ (if is_closed k.state then 0 else 1)))
      → (was ≡ false → (m ≡ 1) × (r ≡ 0) × (d ≡ 0) × (is_closed k.state ≡ false))
      → Tracked Known (some k) m (noted before k + r) 0 d
  advance_tracked before true k m r d known p q f g h =
      (known, refl, λ e. ground (arith, g refl), λ e. absurd (ground (arith, f refl)))
  advance_tracked before false k m r d known p q f g h =
      (known, refl, λ e. ground (arith, h refl), λ e. ground (arith, h refl))

  -- The other events, at the connection `j` that they may be about.
  pub accept_tracked :
      (c j : ℕ) (k : Option Conn) (m r o d m' r' o' : ℕ)
      → Tracked Known k m r o d
      → (c ≡ j → (k ≡ none) × (m ≡ 0))
      → m' ≡ (if c == j then 1 else 0) + m
      → r' ≡ r
      → o' ≡ (if c == j then 1 else 0) + o
      → Tracked Known k m' r' o' d
  accept_tracked c j none m r o d m' r' o' t v p q u = ground arith
  accept_tracked c j (some k) m r o d m' r' o' t v p q u = elim (Bool-cases (c == j)) [
    | inl e ↦ let n = (v (ground arith)).0 in absurd cc
    | inr e ↦ (t.0, ground arith, λ f. ground (arith, t.2 f), λ f. ground (arith, t.3 f))
  ]

  pub remove_tracked :
      (c j : ℕ) (k : Option Conn) (m r o d m' r' d' : ℕ)
      → Tracked Known k m r o d
      → (c ≡ j → 1 ≤ r)
      → m ≤ 1
      → m' ≡ (if c == j then 0 else m)
      → r' ≡ r - (if c == j then 1 else 0)
      → d' ≡ (if c == j then 1 else 0) + d
      → Tracked Known k m' r' o d'
  remove_tracked c j none m r o d m' r' d' t v b p q u = ground (arith, v)
  remove_tracked c j (some k) m r o d m' r' d' t v b p q u =
      (t.0, t.1, λ f. ground (arith, t.2 f, v), λ f. ground (arith, t.3 f, v))

  -- Nothing of it changes.
  pub same_tracked :
      (k : Option Conn) (m r o d m' r' o' d' : ℕ)
      → Tracked Known k m r o d
      → m' ≡ m
      → r' ≡ r
      → o' ≡ o
      → d' ≡ d
      → Tracked Known k m' r' o' d'
  same_tracked none m r o d m' r' o' d' t p q u v = ground arith
  same_tracked (some k) m r o d m' r' o' d' t p q u v =
      (t.0, ground arith, λ f. ground (arith, t.2 f), λ f. ground (arith, t.3 f))

  pub opening_vacant :
      (k : Option Conn) (m r o d : ℕ)
      → Tracked Known k m r o d
      → 1 ≤ o
      → (k ≡ none) × (m ≡ 1) × (r ≡ 0) × (d ≡ 0) × (o ≡ 1)
  opening_vacant none m r o d t h = ground arith
  opening_vacant (some k) m r o d t h = absurd (omega (arith, t.1))

  -- What is to be destroyed has been cleaned up and left the map.
  pub leaving_cleaned :
      (k : Option Conn) (m r o d : ℕ)
      → Tracked Known k m r o d
      → 1 ≤ d
      → (c : Conn) × (k ≡ some c)
        × Known c
        × (c.is_cleaned ≡ true)
        × (o ≡ 0)
        × (r ≡ m)
        × (m ≡ 0)
        × (d ≡ 1)
  leaving_cleaned none m r o d t h = absurd (omega arith)
  leaving_cleaned (some c) m r o d t h = elim (Bool-cases c.is_cleaned) [
    | inl e ↦
        (c, refl, t.0, e, t.1, ground (arith, t.2 e), ground (arith, t.2 e), ground (arith, t.2 e))
    | inr e ↦ absurd (omega (arith, t.3 e))
  ]

  pub account_lem :
      (k : Conn) (m r o d : ℕ)
      → Tracked Known (some k) m r o d
      → (is_closed k.state ≡ true → k.is_cleaned ≡ true)
      → (m + (if k.is_cleaned then 1 else 0) ≡ 1 + r)
        × (r + d + (if is_closed k.state then 1 else 0) ≡ (if k.is_cleaned then 1 else 0))
  account_lem k m r o d t f = elim (Bool-cases k.is_cleaned) [
    | inl e ↦ ground (arith, t.2 e)
    | inr e ↦ ground (arith, t.3 e)
  ]
