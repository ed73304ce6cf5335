-- ===== src/Net/Client/Tests.antt =====
-- zysoft/net/tcp_client.h: a client that connects and meets an error, and one whose caller waits for it.
use zysoft.Prelude.{◌<◌, ◌≡◌, refl, List, [], ◌∷◌, none, some, false, arith, ◌⊎◌}
use zysoft.Net.Types.{eof}
use zysoft.Net.Connection.{is_closed}
use zysoft.Net.Connection.Life.{closes}
use zysoft.Net.Connection.Kept.{cleanup_calls}
use zysoft.Net.Connection.Handlers.{read_done}
use zysoft.Net.Client.{
  set_read_timeout, ClientEvent, create_client, sets_read_timeout, async_connects, connected,
  sync_connects, promises_value, establishes, happens, run, step, handle_connect,
  handle_sync_connect, wait_seconds, sync_result, establish, create_connector,
}
use zysoft.Net.Client.Runs.{client_never_hears, sync_connect_lem}

abbrev lost : List ClientEvent
lost =
    sets_read_timeout 60
    ∷ async_connects
    ∷ connected 0
    ∷ happens (read_done none (104 ∷ []))
    ∷ happens (read_done (some eof) [])
    ∷ []

client_never_hears_example :
    let k = (run lost create_client).conn in (closes k.log ≡ 0) × (cleanup_calls k.log ≡ 0)
unfolding step set_read_timeout create_client create_connector handle_connect establish
client_never_hears_example =
    client_never_hears lost (omega arith, (tt, (omega arith, (refl, (refl, tt)))))

abbrev waiting : List ClientEvent
waiting = sync_connects 7 0 ∷ promises_value 7 0 ∷ establishes ∷ []

sync_connect_lem_example :
    let c = run waiting create_client in
    (0 < 1) × (0 < c.establishing ⊎ (is_closed c.conn.state ≡ false))
unfolding run step create_client create_connector handle_sync_connect wait_seconds sync_result
    establish
sync_connect_lem_example = sync_connect_lem waiting 7 1 (refl, (refl, (omega arith, tt))) refl refl
