-- ===== src/Server/Proxying.antt =====
-- `handleProxy` of pkg/proxy/server.go around `ExecuteCtx`. The texts of the errors are left out.
use agentsecrets.Prelude.{
  ℕ, not, ◌&&◌, ◌*◌, Option, none, some, List, [], ◌∷◌, if◌then◌else◌, is_empty, is_some, length,
  ltb,
}
use agentsecrets.Text.{Str, str, has_prefix, to_lower}
use agentsecrets.Identity.{Identity, Resolved, resolved, blocked, failed, resolve_identity}
use agentsecrets.Injector.{Injection, header_get}
use agentsecrets.Requests.{CallRequest, CallResult, Block, reason}
use agentsecrets.Engine.{Engine, State, Url}
use agentsecrets.Engine.Flow.{Flow, go, finish, fail, fault, add_trace, audit_blocked}
use agentsecrets.Engine.Pipeline.{execute}
use agentsecrets.Server.{Incoming, parse_injections}

-- An error with its status, the upstream's or the engine's answer, or a panic in the handler.
pub data Reply : Type 0 where
  error : ℕ → Reply
  relayed : CallResult → Reply
  crashed : Reply

-- MaxRequestBodySize, 10 MB.
abbrev max_request_body_size : ℕ
max_request_body_size = 10 * 1024 * 1024

abbrev first_of : List Str → Str
first_of [] = []
first_of (v ∷ values) = v

-- The headers that are not X-AS-*, each with its first value.
unfoldable pub extra_headers : List (Str × List Str) → List (Str × Str)
unfolding has_prefix str
extra_headers [] = []
extra_headers ((k, values) ∷ headers) =
    let rest = extra_headers headers in
    if has_prefix k (str "X-As-") then rest else (k, first_of values) ∷ rest

abbrev pub proxy_method : Incoming → Str
proxy_method r =
    let method = header_get (str "X-AS-Method") r.headers in
    if is_empty method then r.method else method

-- The request whose identity is resolved.
unfoldable pub identity_request : Incoming → List Injection → CallRequest
unfolding str
identity_request r injs = record {
  target_url = header_get (str "X-AS-Target-URL") r.headers;
  method = [];
  headers = [];
  body = [];
  injections = injs;
  agent_id = header_get (str "X-AS-Agent-ID") r.headers;
  agent_token = header_get (str "X-AS-Agent-Token") r.headers;
  identity_level = [];
  token_id = [];
  capabilities = none;
}

-- The request that the engine is given.
unfoldable pub call_request : Incoming → List Injection → Resolved → CallRequest
unfolding str extra_headers
call_request r injs x =
    let agent_id = header_get (str "X-AS-Agent-ID") r.headers in
    record {
      target_url = header_get (str "X-AS-Target-URL") r.headers;
      method = proxy_method r;
      headers = extra_headers r.headers;
      body = r.body;
      injections = injs;
      agent_id =
          if not (is_empty x.token) && is_some x.capabilities && is_empty agent_id
          then x.agent_id
          else agent_id;
      agent_token = [];
      identity_level =
          if not (is_empty x.token)
          then str "issued"
          else if not (is_empty agent_id)
          then str "declared"
          else str "anonymous";
      token_id = if is_empty x.token then [] else x.token_id;
      capabilities = if is_empty x.token then none else x.capabilities;
    }

-- The request in the record of a blocked call: the verdict carries no token ID.
unfoldable pub audit_request : Incoming → List Injection → CallRequest
unfolding identity_request str
audit_request r injs = record (identity_request r injs) {
  agent_token = [];
  identity_level = str "issued";
}

abbrev pub domain_of : Option Url → Str
domain_of none = []
domain_of (some u) = to_lower u.hostname

abbrev pub path_of : Option Url → Str
path_of none = []
path_of (some u) = u.path

unfoldable pub blocked_trace : Engine → Incoming → List Injection → Block → State → State
unfolding audit_blocked audit_request identity_request add_trace
blocked_trace e r injs b s =
    let target = e.parse_url (header_get (str "X-AS-Target-URL") r.headers) in
    add_trace e
      (audit_blocked e (audit_request r injs) (domain_of target) (proxy_method r) (path_of target)
        (reason b) (e.message b (identity_request r injs)))
      s

abbrev pub reply_of : Flow CallResult × State → Reply × State
reply_of (go result, s) = (relayed result, s)
reply_of (finish result, s) = (relayed result, s)
reply_of (fail x, s) = (error 502, s)
reply_of (fault, s) = (crashed, s)

-- The switch on the verdict, and the call.
abbrev pub on_verdict : Engine → Incoming → List Injection → Identity → State → Reply × State
on_verdict e r injs failed s = (error 401, s)
on_verdict e r injs (blocked b) s = (error 403, blocked_trace e r injs b s)
on_verdict e r injs (resolved x) s =
    if ltb max_request_body_size (length r.body)
    then (error 400, s)
    else reply_of (execute e (call_request r injs x) s)

abbrev pub on_injections : Engine → Incoming → Option (List Injection) → State → Reply × State
on_injections e r none s = (error 400, s)
on_injections e r (some []) s = (error 400, s)
on_injections e r (some (inj ∷ injs)) s =
    let (idr, tokens) = resolve_identity e.identity (identity_request r (inj ∷ injs)) s.tokens in
    on_verdict e r (inj ∷ injs) idr (record s { tokens = tokens })

-- handleProxy
unfoldable pub handle_proxy : Engine → Incoming → State → Reply × State
unfolding str
handle_proxy e r s =
    if is_empty (header_get (str "X-AS-Target-URL") r.headers)
    then (error 400, s)
    else on_injections e r (parse_injections r.headers) s
