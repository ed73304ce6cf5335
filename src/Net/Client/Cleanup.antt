-- ===== src/Net/Client/Cleanup.antt =====
-- zysoft/net/tcp_client.h: `handle_connection_cleanup` and `remove_connection`, which are written for the cleanup callback
-- of the client's connection, and which nothing binds to it.
use zysoft.Prelude.{
  ◌≡◌, List, [], ◌∷◌, ◌++◌, subst, Option, none, some, Bool, true, false, if◌then◌else◌, arith,
}
use mathlib.Core.Option.{some-injective}
use zysoft.Net.Types.{ErrorCode, eof, code}
use zysoft.Net.Connection.{Conn, is_closed}
use zysoft.Net.Connection.Handlers.{connect_destroy}

-- The calls of the application, which may throw, and the work that is posted.
pub data ClientEffect : Type 0 where
  calls_close : ClientEffect
  calls_error : ErrorCode → ClientEffect
  posts_remove posts_destroy : ClientEffect

unfoldable pub tell_application : ErrorCode → ClientEffect
tell_application eof = calls_close
tell_application (code n) = calls_error (code n)

-- The error comes by a pointer; `none` as a result is the use of a null pointer.
unfoldable pub handle_connection_cleanup : Option ErrorCode → Bool → Option (List ClientEffect)
unfolding tell_application
handle_connection_cleanup none true = none
handle_connection_cleanup none false = some (posts_remove ∷ [])
handle_connection_cleanup (some ec) app_cb =
    some (if app_cb then tell_application ec ∷ posts_remove ∷ [] else posts_remove ∷ [])

unfoldable pub remove_connection : List ClientEffect
remove_connection = posts_destroy ∷ []

-- Posted work, when the loop comes to it, and what it posts.
abbrev run_work : ClientEffect → Conn → Conn × List ClientEffect
unfolding remove_connection
run_work calls_close c = (c, [])
run_work (calls_error ec) c = (c, [])
run_work posts_remove c = (c, remove_connection)
run_work posts_destroy c = (connect_destroy c, [])

abbrev pub run_all : List ClientEffect → Conn → Conn × List ClientEffect
unfolding run_work
run_all [] c = (c, [])
run_all (e ∷ es) c =
    let (d, posted) = run_work e c in let (last, more) = run_all es d in (last, posted ++ more)

destroy_closes : (c : Conn) → is_closed (connect_destroy c).state ≡ true
unfolding connect_destroy
destroy_closes c = ground arith

-- What the effects of a cleanup post is run, and then what that posts.
unfoldable pub after : List ClientEffect → Conn → Conn
after es c = let (d, posted) = run_all es c in (run_all posted d).0

-- A cleanup with an error, once what it posts has run, and what that posts, leaves the connection closed.
pub cleanup_closes :
    (ec : ErrorCode) (app_cb : Bool) (es : List ClientEffect) (c : Conn)
    → handle_connection_cleanup (some ec) app_cb ≡ some es
    → is_closed (after es c).state ≡ true
unfolding handle_connection_cleanup remove_connection tell_application run_work run_all after
cleanup_closes eof true es c p =
    subst (λ x. is_closed (after x c).state ≡ true) (some-injective _ es p) (destroy_closes c)
cleanup_closes (code n) true es c p =
    subst (λ x. is_closed (after x c).state ≡ true) (some-injective _ es p) (destroy_closes c)
cleanup_closes ec false es c p =
    subst (λ x. is_closed (after x c).state ≡ true) (some-injective _ es p) (destroy_closes c)
