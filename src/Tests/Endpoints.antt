-- ===== src/Tests/Endpoints.antt =====
-- The endpoints of the proxy's server.
use agentsecrets.Prelude.{lookup_by, ◌≡◌, refl, none, some, [], ◌∷◌, arith, List, false}
use agentsecrets.Text.{str, str_eq, to_upper, upper_byte, trim_space, trim_right}
use agentsecrets.Text.Laws.{str_eq_iff}
use agentsecrets.Approvals.{ApprovalKey, World, initial, approve, is_approved}
use agentsecrets.Injector.{Injection, header_get}
use agentsecrets.Server.{
  Incoming, Server, ApproveBody, approve_key, validate_session, handle_rotate_session,
  handle_approve, cut, parse_target, parse_targets,
}
use agentsecrets.Server.Sessions.{validate_session-handle_rotate_session}
use agentsecrets.Server.Approving.{handle_approve_keeps_lower}
use agentsecrets.Tests.Fixtures.{key}

abbrev post : Incoming
post = record { method = str "POST"; headers = []; body = [] }

abbrev server : Server
server = record { session_token = str "old"; approvals = some initial }

abbrev rotated : Server
rotated = record { session_token = str "new"; approvals = some initial }

validate_session-handle_rotate_session_example :
    ((validate_session
        (handle_rotate_session none)
        post
        (handle_rotate_session (some (str "new")) post server).1).0.status
      ≡ 401)
    × ((validate_session
          (handle_rotate_session none)
          post
          (handle_rotate_session (some (str "new")) post server).1).1
        ≡ rotated)
unfolding str header_get lookup_by
validate_session-handle_rotate_session_example =
    validate_session-handle_rotate_session (str "new") post post (handle_rotate_session none) server
      (λ e. cc) refl (λ e. cc)

abbrev approval : ApproveBody
approval = record {
  secret_key = str "stripe_key";
  method = str "GET";
  domain = str "api.stripe.com";
  agent_id = [];
}

abbrev lower : ApprovalKey
lower = record {
  agent_id = [];
  secret_key = str "stripe_key";
  domain = str "api.stripe.com";
  method = str "GET";
}

abbrev after : World
after = approve (approve_key approval) 5 initial

handled : (handle_approve (λ _. some approval) 5 post server).1.approvals ≡ some after
unfolding handle_approve str_eq str
handled = refl

str_eq-lower : str_eq (to_upper (str "stripe_key")) (str "stripe_key") ≡ false
unfolding str_eq str to_upper upper_byte
str_eq-lower = refl

handle_approve_keeps_lower_example : is_approved after.store lower ≡ is_approved initial.store lower
handle_approve_keeps_lower_example =
    handle_approve_keeps_lower (λ _. some approval) 5 post server initial after lower refl handled
      (λ e.
        ground (arith, str_eq-lower, str_eq_iff (to_upper (str "stripe_key")) (str "stripe_key")))

abbrev injections : List Injection
injections = record { style = str "query"; target = str "api_key"; secret_key = key } ∷ []

parses : parse_targets (str "query") (str "api_key=STRIPE_KEY" ∷ []) ≡ some injections
unfolding parse_targets parse_target cut trim_space trim_right str
parses = refl
