-- ===== src/Tests/Calls.antt =====
-- A whole call.
use agentsecrets.ApiClient.{
  ApiClient, ApiRequest, ApiResponse, json, is_public, resolve_endpoint, call_ctx,
}
use agentsecrets.ApiClient.Retrying.{IsSent, call_ctx-IsSent}
use agentsecrets.Prelude.{
  List, Option, ◌≢◌, ◌≡◌, refl, true, false, none, some, [], ◌∷◌, arith, lookup_by, is_empty,
}
use agentsecrets.Text.{
  to_upper, has_prefix, str, str_eq, to_upper, to_lower, upper_byte, lower_byte, equal_fold,
}
use agentsecrets.Capabilities.{
  SecretPolicy, request_permission, evaluate_secret, matched_rule, under_rule, method_action,
  is_secret_allowed,
}
use agentsecrets.Approvals.{initial, approve, is_approved}
use agentsecrets.Injector.{
  Injection, header_get, canonical_key, inject_all, is_body_style, inject_each, inject,
  inject_bearer,
}
use agentsecrets.Identity.{
  Resolved, with_cached, resolve_identity, pick_token, deref_token, check_scope, resolve_token,
  judge,
}
use agentsecrets.Tokens.{validate, fresh_entry}
use agentsecrets.Engine.{Engine, State, Target, ssrf_error, transport_error}
use agentsecrets.Requests.{CallRequest}
use agentsecrets.Engine.Authorize.{
  read_target, check_presence, has_secret, check_https, identify, apply_identity,
  check_capabilities, check_allowlist, read_allowlist,
}
use agentsecrets.Engine.Policies.{
  check_policies, check_each, on_action, request_approval, await_approval,
}
use agentsecrets.Engine.Tail.{build_and_inject, resolve_all, forward, on_forwarded, block_ssrf}
use agentsecrets.Engine.Flow.{◌>>=◌}
use agentsecrets.Engine.Pipeline.{execute, run_checks, run_tail}
use agentsecrets.Engine.Trail.{IsLogged}
use agentsecrets.Engine.Records.{IsDelivered, execute-IsLogged}
use agentsecrets.Server.{Incoming, parse_injections, parse_header}
use agentsecrets.Server.Proxying.{handle_proxy, identity_request, call_request, extra_headers}
use agentsecrets.Server.Relaying.{IsProxied, handle_proxy-IsProxied}
use agentsecrets.Engine.Safety.{IsAuthorized, execute-IsAuthorized}
use agentsecrets.Tests.Fixtures.{token, key, ctx, tokens, secret, codecs, call}

-- POST asks for the developer's permission, every other method is allowed.
abbrev policy : SecretPolicy
policy = record {
  domains = [];
  methods = [];
  rules =
      record { domain = str "api.stripe.com"; methods = (str "GET", request_permission) ∷ [] } ∷ [];
}

abbrev engine : Engine
engine = record {
  identity = ctx;
  transient = false;
  testing = false;
  has_audit = true;
  has_approvals = true;
  resolve_secret = some (λ _. some secret);
  resolve_presence = none;
  resolve_policy = some (λ _. some policy);
  resolve_allowlist = some (λ _. some (str "API.stripe.com" ∷ []));
  parse_url = λ _. some (record {
    scheme = str "https";
    hostname = str "api.stripe.com";
    path = str "/v1";
    raw_query = [];
  });
  new_request = λ m u. true;
  codecs = codecs;
  json_valid = λ _. false;
  decimal = λ _. [];
  terminals = false;
  prompt = λ _. none;
  wait_for_approval = λ k w. (true, approve k 0 w);
  forward = λ _. ssrf_error [];
  message = λ b req. [];
}

abbrev state : State
state = record { tokens = tokens; approvals = initial; sent = []; trail = [] }

-- An upstream that does not answer.
abbrev unanswered : Engine
unanswered = record engine { forward = λ _. transport_error }

-- Both calls send the request, and the second leaves no record of it.
sent-engine :
    (is_empty (execute engine call state).1.sent ≡ false)
    × (is_empty (execute unanswered call state).1.sent ≡ false)
    × ((execute unanswered call state).1.trail ≡ [])
unfolding execute ◌>>=◌ run_checks run_tail read_target check_presence has_secret check_https
    identify apply_identity check_capabilities check_allowlist read_allowlist check_policies
    check_each on_action request_approval await_approval build_and_inject resolve_all forward
    on_forwarded block_ssrf resolve_identity pick_token deref_token check_scope resolve_token judge
    validate fresh_entry with_cached is_secret_allowed evaluate_secret matched_rule under_rule
    method_action equal_fold to_upper to_lower upper_byte lower_byte str_eq str lookup_by
    is_approved inject_all is_body_style inject_each inject inject_bearer
sent-engine = (refl, refl, refl)

execute-IsAuthorized_example :
    (t : Target) × (identified : CallRequest) × IsAuthorized engine call state t identified
execute-IsAuthorized_example =
    execute-IsAuthorized engine call state (λ e. ground (arith, sent-engine.0))

execute-IsLogged_example : IsLogged (IsDelivered []) [] (execute engine call state)
execute-IsLogged_example = execute-IsLogged engine call state refl

abbrev incoming : Incoming
incoming = record {
  method = str "GET";
  headers =
      (str "X-As-Target-Url", str "https://api.stripe.com/v1" ∷ [])
      ∷ (str "X-As-Agent-Token", token ∷ [])
      ∷ (str "X-As-Inject-Bearer", key ∷ [])
      ∷ [];
  body = [];
}

sent-proxy : is_empty (handle_proxy engine incoming state).1.sent ≡ false
unfolding execute ◌>>=◌ run_checks run_tail read_target check_presence has_secret check_https
    identify apply_identity check_capabilities check_allowlist read_allowlist check_policies
    check_each on_action request_approval await_approval build_and_inject resolve_all forward
    on_forwarded block_ssrf resolve_identity pick_token deref_token check_scope resolve_token judge
    validate fresh_entry with_cached is_secret_allowed evaluate_secret matched_rule under_rule
    method_action equal_fold to_upper to_lower upper_byte lower_byte str_eq str lookup_by
    is_approved inject_all is_body_style inject_each inject inject_bearer handle_proxy
    parse_injections parse_header identity_request call_request extra_headers has_prefix header_get
    canonical_key
sent-proxy = refl

handle_proxy-IsProxied_example :
    (injs : List Injection) × (x : Resolved) × (parse_injections incoming.headers ≡ some injs)
    × (injs ≢ [])
    × IsProxied engine incoming state injs x
handle_proxy-IsProxied_example =
    handle_proxy-IsProxied engine incoming state (λ e. ground (arith, sent-proxy))

-- A backend whose first answer is 401.
abbrev expired : List ApiRequest → ApiRequest → Option ApiResponse
expired [] req = some (record { status_code = 401; content = [] })
expired (sent ∷ more) req = some (record { status_code = 200; content = [] })

abbrev backend : ApiClient
backend = record {
  base_url = str "https://api.agentsecrets.tech/api";
  get_token = str "old";
  refresh_fn = some (some (str "new"));
  makes_request = λ method url. true;
  send = expired;
}

call_ctx-IsSent_example :
    IsSent backend
      (is_public (str "projects") (str "list"))
      (to_upper (str "get"))
      (json (str "{}"))
      []
      (resolve_endpoint (str "projects") (str "list") [])
      []
      (call_ctx backend (str "projects") (str "list") (str "get") (json (str "{}")) [] [] [])
call_ctx-IsSent_example =
    call_ctx-IsSent backend (str "projects") (str "list") (str "get") (json (str "{}")) [] [] []
