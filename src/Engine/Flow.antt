-- ===== src/Engine/Flow.antt =====
-- The stages of `ExecuteCtx` in sequence: a stage goes on, or the call returns a result or an error.
use agentsecrets.Prelude.{
  ℕ, Bool, true, false, Option, none, some, List, [], ◌∷◌, ◌++◌, if◌then◌else◌, map, ◌&&◌, is_empty,
}
use agentsecrets.Text.{Str, str}
use agentsecrets.Json.{text, end, field}
use agentsecrets.Audit.{
  Trace, AuditEvent, ForensicEvent, AgentIdentity, EnforcementBlock, ResolutionBlock,
  make_enforcement_block,
}
use agentsecrets.Injector.{Injection}
use agentsecrets.Requests.{CallRequest, CallResult, Block, reason}
use agentsecrets.Engine.{Engine, State, Target, Failure}

-- `fault` is a call of a nil resolver or a write to a nil map.
pub data Flow (A : Type 0) : Type 0 where
  go : A → Flow A
  finish : CallResult → Flow A
  fail : Failure → Flow A
  fault : Flow A

abbrev pub Stage : Type 0 → Type 0
Stage A = State → Flow A × State

abbrev pub continue_with : {A B : Type 0} → Flow A → (A → Stage B) → Stage B
continue_with (go a) f s = f a s
continue_with (finish r) f s = (finish r, s)
continue_with (fail e) f s = (fail e, s)
continue_with fault f s = (fault, s)

infixl 5 ◌>>=◌ ◌>>◌
unfoldable pub ◌>>=◌ : {A B : Type 0} → Stage A → (A → Stage B) → Stage B
◌>>=◌ m f s = let (r, s') = m s in continue_with r f s'

abbrev pub ◌>>◌ : {A B : Type 0} → Stage A → Stage B → Stage B
m >> k = m >>= λ _. k

abbrev pub pure : {A : Type 0} → A → Stage A
pure a s = (go a, s)

abbrev pub raise : {A : Type 0} → Failure → Stage A
raise e s = (fail e, s)

abbrev pub keys_of : List Injection → List Str
keys_of = map (λ (inj : Injection). inj.secret_key)

abbrev pub styles_of : List Injection → List Str
styles_of = map (λ (inj : Injection). inj.style)

-- The identity in a forensic record: none without a token.
unfoldable pub agent_identity : CallRequest → Option AgentIdentity
agent_identity req =
    if is_empty req.agent_token && is_empty req.token_id
    then none
    else some (record {
      token_name = req.agent_id;
      token_id = req.token_id;
      identity_level = req.identity_level;
      process_verified = true;
    })

-- The AuditEvent of a call with this outcome.
unfoldable pub audit_event : Engine → CallRequest → Str → Str → ℕ → Str → Str → Bool → AuditEvent
audit_event e req domain method status_code status reason redacted = record {
  environment = e.identity.environment;
  secret_keys = keys_of req.injections;
  agent_id = req.agent_id;
  identity_level = req.identity_level;
  token_id = req.token_id;
  method = method;
  target_url = req.target_url;
  domain = domain;
  auth_styles = styles_of req.injections;
  status_code = status_code;
  status = status;
  reason = reason;
  redacted = redacted;
  workspace_id = e.identity.workspace_id;
  project_id = e.identity.project_id;
}

-- strings.Join(keys, ",")
unfoldable pub join_commas : List Str → Str
join_commas [] = []
join_commas (k ∷ []) = k
join_commas (k ∷ j ∷ ks) = k ++ (b',' ∷ join_commas (j ∷ ks))

-- The event of `logForensic`.
unfoldable pub forensic_event :
    CallRequest → Str → Str → Str → ℕ → Str → EnforcementBlock → ResolutionBlock → ForensicEvent
unfolding agent_identity join_commas
forensic_event req domain method path status_code outcome enforcement resolution = record {
  key_name = join_commas (keys_of req.injections);
  domain = domain;
  path = path;
  method = method;
  status_code = status_code;
  outcome = outcome;
  agent_identity = agent_identity req;
  enforcement = enforcement;
  resolution = resolution;
}

-- The resolution block of a call that is not forwarded.
abbrev pub unresolved : Bool → ResolutionBlock
unresolved ssrf_check_passed = record {
  credential_injected = false;
  injection_style = [];
  response_scanned = false;
  redaction_triggered = false;
  replacement = [];
  ssrf_check_passed = ssrf_check_passed;
  response_status = 403;
}

-- auditBlocked
unfoldable pub audit_blocked : Engine → CallRequest → Str → Str → Str → Str → Str → Trace
unfolding audit_event forensic_event str
audit_blocked e req domain method path reason msg = record {
  event = audit_event e req domain method 403 (str "BLOCKED") reason false;
  forensic =
      forensic_event req domain method path 403 (str "blocked")
        (make_enforcement_block reason msg domain method req.agent_id (keys_of req.injections))
        (unresolved true);
}

-- Without an audit logger nothing is recorded.
unfoldable pub add_trace : Engine → Trace → State → State
add_trace e t s = if e.has_audit then record s { trail = s.trail ++ t ∷ [] } else s

abbrev or_nothing : Option Str → Str
or_nothing none = []
or_nothing (some body) = body

-- The 403 answer with an error, the domain and a message as JSON.
unfoldable pub forbidden : Engine → Str → Str → Str → CallResult
unfolding str
forbidden e error domain message = record {
  status_code = 403;
  headers = (str "Content-Type", str "application/json" ∷ []) ∷ [];
  body = or_nothing (
      e.codecs.print_json (
        field (str "domain") (text domain)
          (field (str "error") (text error) (field (str "message") (text message) end))));
}

-- The closure `logBlocked` of `ExecuteCtx`.
unfoldable pub log_blocked : Engine → CallRequest → Target → Block → {A : Type 0} → Stage A
unfolding add_trace audit_blocked forbidden
log_blocked e req t b s =
    let msg = e.message b req in
    (
      finish (forbidden e (reason b) t.domain msg),
      add_trace e (audit_blocked e req t.domain t.method t.url.path (reason b) msg) s,
    )
