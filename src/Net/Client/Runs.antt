-- ===== src/Net/Client/Runs.antt =====
-- zysoft/net/tcp_client.h, zysoft/net/connector.h: what the application of a client is told, and what it is not.
use zysoft.Prelude.{
  ℕ, ◌<◌, ◌≡◌, refl, List, [], ◌∷◌, some, true, false, arith, ◌==◌, Bool-cases, inl, inr, ◌⊎◌,
}
use zysoft.Net.Types.{Callbacks, established}
use zysoft.Net.Connection.{Conn, create, is_closed, set_state}
use zysoft.Net.Connection.Life.{closes}
use zysoft.Net.Connection.Kept.{Kept, cleanup_calls, step-Kept, connect_establised-Kept}
use zysoft.Net.Connection.Handlers.{connect_establised}
use zysoft.Net.Client.{
  set_callbacks, set_read_timeout, set_write_timeout, Client, ClientEvent, create_connector,
  create_client, sets_callbacks, sets_read_timeout, sets_write_timeout, async_connects, connected,
  sync_connects, promises_value, establishes, happens, wait_seconds, sync_result, establish,
  handle_connect, handle_sync_connect, step, run, Enabled, AllEnabled,
}

-- The connection was never closed, and told nobody of its end.
record Unheard (k : Conn) : Type 0 where
  no_cb : k.has_cleanup_cb ≡ false
  no_calls : cleanup_calls k.log ≡ 0
  no_closes : closes k.log ≡ 0

record Told (c : Client) : Type 0 where
  unheard : Unheard c.conn
  opened :
      (p : ℕ)
      → sync_result (c.promises p) ≡ true
      → 0 < c.establishing ⊎ (is_closed c.conn.state ≡ false)
  waited : (p n : ℕ) → c.waits p ≡ some n → 0 < n

Kept-Unheard : (k l : Conn) → Kept k l → Unheard k → Unheard l
Kept-Unheard k l h u = ground arith

establised-Kept :
    (cb : Callbacks) (k : Conn) → Kept (set_state established k) (connect_establised cb k)
unfolding connect_establised
establised-Kept cb k = connect_establised-Kept cb (set_state established k) refl

establised-Unheard : (cb : Callbacks) (k : Conn) → Unheard k → Unheard (connect_establised cb k)
establised-Unheard cb k u =
    Kept-Unheard (set_state established k) _ (establised-Kept cb k) (ground arith)

establised_open : (cb : Callbacks) (k : Conn) → is_closed (connect_establised cb k).state ≡ false
establised_open cb k = (establised-Kept cb k).same_closed

establish-Told :
    (c : Client) → Unheard c.conn → ((p n : ℕ) → c.waits p ≡ some n → 0 < n) → Told (establish c)
unfolding establish
establish-Told c u w = record {
  unheard = establised-Unheard c.callbacks c.conn u;
  opened = λ p e. inr (establised_open c.callbacks c.conn);
  waited = w;
}

-- A step that changes nothing that `Told` speaks of but the connection.
move-Told : (c : Client) (k : Conn) → Kept c.conn k → Told c → Told (record c { conn = k })
move-Told c k h t = record {
  unheard = Kept-Unheard c.conn k h t.unheard;
  opened = λ p e. ground (arith, t.opened p e, h.same_closed);
  waited = t.waited;
}

handle_sync_connect-Told :
    (p error : ℕ) (c : Client) → Told c → Told (handle_sync_connect p error c)
unfolding handle_sync_connect sync_result
handle_sync_connect-Told p error c t = elim (Bool-cases (error == 0)) [
  | inl e ↦
      simp e (record { unheard = t.unheard; opened = λ q h. inl (omega arith); waited = t.waited })
  | inr e ↦ simp e (record {
    unheard = t.unheard;
    opened = λ q h. ground (arith, e, h, t.opened q);
    waited = t.waited;
  })
]

wait_positive : (sec : ℕ) → 0 < wait_seconds sec
unfolding wait_seconds
wait_positive sec = ground arith

step-Told : (e : ClientEvent) (c : Client) → Enabled e c → Told c → Told (step e c)
unfolding step handle_connect set_callbacks set_read_timeout set_write_timeout
step-Told (sets_callbacks has_write_complete_cb cb) c h t =
    let d =
      move-Told c (record (c.conn) { has_write_complete_cb = has_write_complete_cb }) (ground arith)
        t in
    record { unheard = d.unheard; opened = d.opened; waited = d.waited }
step-Told (sets_read_timeout sec) c h t = move-Told c _ (ground arith) t
step-Told (sets_write_timeout sec) c h t =
    let u = t.unheard in record { unheard = ground arith; opened = t.opened; waited = t.waited }
step-Told async_connects c h t = record {
  unheard = t.unheard;
  opened = t.opened;
  waited = t.waited;
}
step-Told (connected error) c h t = elim (Bool-cases (error == 0)) [
  | inl e ↦ simp e (establish-Told _ t.unheard t.waited)
  | inr e ↦ simp e (record { unheard = t.unheard; opened = t.opened; waited = t.waited })
]
step-Told (sync_connects p sec) c h t = record {
  unheard = t.unheard;
  opened = t.opened;
  waited = λ q n e. ground (arith, e, t.waited q n, wait_positive sec);
}
step-Told (promises_value p error) c h t = handle_sync_connect-Told p error c t
step-Told establishes c h t = establish-Told _ t.unheard t.waited
step-Told (happens e) c h t = move-Told c _ (step-Kept c.callbacks e c.conn h) t

run-Told : (es : List ClientEvent) (c : Client) → AllEnabled es c → Told c → Told (run es c)
unfolding run
run-Told [] c h t = t
run-Told (e ∷ es) c h t = run-Told es (step e c) h.1 (step-Told e c h.0 t)

create_client-Told : Told create_client
unfolding create_client create_connector create sync_result
create_client-Told = record {
  unheard = record { no_cb = refl; no_calls = refl; no_closes = refl };
  opened = λ p e. absurd (ground arith);
  waited = λ p n e. absurd (ground arith);
}

-- In every run of a client, in which nothing destroys the connection, its socket is never closed, not even after
-- an error, and no cleanup callback is ever called.
pub client_never_hears :
    (es : List ClientEvent)
    → AllEnabled es create_client
    → let k = (run es create_client).conn in (closes k.log ≡ 0) × (cleanup_calls k.log ≡ 0)
client_never_hears es h =
    let t = run-Told es create_client h create_client-Told in
    (t.unheard.no_closes, t.unheard.no_calls)

-- In every run of a client the time that a call of `sync_connect_wait_for` waits at most is not zero, and if it returns true,
-- then the connection has been established, or a completion handler is about to do that.
pub sync_connect_lem :
    (es : List ClientEvent) (p n : ℕ)
    → AllEnabled es create_client
    → let c = run es create_client in
      c.waits p ≡ some n
      → sync_result (c.promises p) ≡ true
      → (0 < n) × (0 < c.establishing ⊎ (is_closed c.conn.state ≡ false))
sync_connect_lem es p n h w e =
    let t = run-Told es create_client h create_client-Told in (t.waited p n w, t.opened p e)
