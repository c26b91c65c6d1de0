-- ===== src/Server/Sessions.antt =====
-- What a rotation of the session token does to the requests behind it.
use agentsecrets.Prelude.{◌≡◌, ◌≢◌, some, [], arith}
use agentsecrets.Text.{Str, str}
use agentsecrets.Text.Laws.{str_eq_iff}
use agentsecrets.Injector.{header_get}
use agentsecrets.Server.{
  Incoming, Server, Handler, write_error, validate_session, handle_rotate_session,
}

-- A request with another token than the one that a rotation has just brought, as with the token
-- from before it, is answered 401 by every endpoint behind the session check, and changes nothing.
pub validate_session-handle_rotate_session :
    (token : Str) (rotation r : Incoming) (next : Handler) (s : Server)
    → token ≢ []
    → rotation.method ≡ str "POST"
    → header_get (str "X-AS-Session-Token") r.headers ≢ token
    → ((validate_session next r (handle_rotate_session (some token) rotation s).1).0.status ≡ 401)
      × ((validate_session next r (handle_rotate_session (some token) rotation s).1).1
          ≡ record s { session_token = token })
unfolding validate_session handle_rotate_session write_error
validate_session-handle_rotate_session token rotation r next s set post other = ground (
  arith,
  str_eq_iff rotation.method (str "POST"),
  str_eq_iff (header_get (str "X-AS-Session-Token") r.headers) token,
)
