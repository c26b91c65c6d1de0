-- ===== src/Engine/Authorize.antt =====
-- The stages of `ExecuteCtx` from the validation of the request to the allowlist.
use agentsecrets.Prelude.{
  Bool, false, not, ◌&&◌, ◌||◌, Option, none, some, List, [], ◌∷◌, if◌then◌else◌, any, is_empty,
  is_some,
}
use agentsecrets.Text.{Str, str, str_eq, to_upper, to_lower}
use agentsecrets.Capabilities.{is_secret_allowed}
use agentsecrets.Identity.{Identity, Resolved, resolved, blocked, failed, resolve_identity}
use agentsecrets.Injector.{Injection}
use agentsecrets.Requests.{
  CallRequest, non_https, capability_denied, empty_allowlist, domain_not_in_allowlist,
}
use agentsecrets.Engine.{
  Engine, Target, Url, no_target, no_injections, bad_url, identity_error, allowlist_error,
  secret_not_found,
}
use agentsecrets.Engine.Flow.{go, Stage, pure, raise, log_blocked}

abbrev pub target_of : Str → Option Url → Stage Target
target_of method none = raise bad_url
target_of method (some u) = pure (record { method = method; url = u; domain = to_lower u.hostname })

-- The part marked Validate; an empty method is GET.
unfoldable pub read_target : Engine → CallRequest → Stage Target
read_target e req =
    if is_empty req.target_url
    then raise no_target
    else if is_empty req.injections
    then raise no_injections
    else target_of (if is_empty req.method then str "GET" else to_upper req.method)
        (e.parse_url req.target_url)

-- The closure `hasSecret`, its error counted as absence as its caller does.
unfoldable pub has_secret : Engine → Str → Bool
has_secret e key = elim e.resolve_presence [
  | some presence ↦ (elim (presence key) [ none ↦ false | some present ↦ present ])
  | none ↦ elim e.resolve_secret [ none ↦ false | some resolve ↦ is_some (resolve key) ]
]

-- 1. Secret Presence Check
unfoldable pub check_presence : Engine → List Injection → Stage (Unit {0})
check_presence e [] = pure tt
check_presence e (inj ∷ injs) =
    if has_secret e inj.secret_key
    then check_presence e injs
    else raise (secret_not_found inj.secret_key)

-- 2. Enforce HTTPS Target
unfoldable pub check_https : Engine → CallRequest → Target → Stage (Unit {0})
check_https e req t =
    if not (str_eq (to_lower t.url.scheme) (str "https")) && not e.testing
    then log_blocked e req t non_https
    else pure tt

-- What identityOK changes in the request.
unfoldable pub apply_identity : CallRequest → Resolved → CallRequest
unfolding str str_eq
apply_identity req r = if is_empty r.token then req else record req {
  identity_level = str "issued";
  token_id = r.token_id;
  agent_id =
      if is_some r.capabilities && (is_empty req.agent_id || str_eq req.agent_id (str "cli"))
      then r.agent_id
      else req.agent_id;
  capabilities = r.capabilities;
}

abbrev pub on_identity : Engine → CallRequest → Target → Identity → Stage CallRequest
on_identity e req t (resolved r) = pure (apply_identity req r)
on_identity e req t (blocked b) = log_blocked e req t b
on_identity e req t failed = raise identity_error

-- 3. Resolve Agent Identity, unless the capabilities are known already.
unfoldable pub identify : Engine → CallRequest → Target → Stage CallRequest
identify e req t s =
    if is_some req.capabilities
    then (go req, s)
    else (let (idr, tokens) = resolve_identity e.identity req s.tokens in
        on_identity e req t idr (record s { tokens = tokens }))

-- Enforce Agent Capabilities
unfoldable pub check_capabilities :
    Engine → CallRequest → Target → List Injection → Stage (Unit {0})
check_capabilities e req t [] = pure tt
check_capabilities e req t (inj ∷ injs) =
    if is_secret_allowed req.capabilities inj.secret_key
    then check_capabilities e req t injs
    else log_blocked e req t (capability_denied inj.secret_key)

-- The allowlist; without a resolver it is empty.
unfoldable pub read_allowlist : Engine → Option (List Str)
read_allowlist e = elim e.resolve_allowlist [
  | none ↦ some []
  | some resolve ↦ resolve e.identity.workspace_id
]

abbrev pub on_allowlist : Engine → CallRequest → Target → Option (List Str) → Stage (Unit {0})
on_allowlist e req t none = raise allowlist_error
on_allowlist e req t (some allowlist) =
    if is_empty allowlist
    then log_blocked e req t empty_allowlist
    else if not (any (λ raw. str_eq (to_lower raw) t.domain) allowlist)
    then log_blocked e req t domain_not_in_allowlist
    else pure tt

-- 4. Check Allowlist
unfoldable pub check_allowlist : Engine → CallRequest → Target → Stage (Unit {0})
check_allowlist e req t = on_allowlist e req t (read_allowlist e)
