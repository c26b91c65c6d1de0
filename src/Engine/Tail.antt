-- ===== src/Engine/Tail.antt =====
-- The stages of `ExecuteCtx` behind the checks: `buildAndInject`, `forward` with `blockSSRF`,
-- `redactResponse` and `auditSuccess`.
use agentsecrets.Prelude.{
  ℕ, Bool, true, false, not, ◌&&◌, Option, none, some, List, [], ◌∷◌, if◌then◌else◌, is_empty,
  length, ◌++◌,
}
use agentsecrets.Text.{Str, str}
use agentsecrets.Audit.{Trace, failed_layer, make_success_enforcement_block, reason_for_audit}
use agentsecrets.Injector.{
  Injection, Request, ok, err, panic, Outcome, header_set, header_get, inject_all,
}
use agentsecrets.Redaction.{Response, redact_response, placeholder}
use agentsecrets.Requests.{CallRequest, CallResult}
use agentsecrets.Engine.{
  Engine, Target, Outbound, ForwardResult, Forwarded, response, ssrf_error, transport_error,
  bad_request, injection_failed, upstream_error, secret_not_found,
}
use agentsecrets.Engine.Flow.{
  finish, go, fault, Stage, pure, raise, ◌>>=◌, audit_event, forensic_event, unresolved, add_trace,
  forbidden, join_commas, styles_of,
}

-- `outbound.Header.Set` for each extra header.
unfoldable pub copy_headers : List (Str × Str) → List (Str × List Str) → List (Str × List Str)
copy_headers [] headers = headers
copy_headers ((k, v) ∷ extra) headers = copy_headers extra (header_set k v headers)

-- The request with its body and extra headers; a JSON body without a type is typed.
unfoldable pub draft_request : Engine → CallRequest → Target → Request
unfolding copy_headers
draft_request e req t =
    let headers = copy_headers req.headers [] in
    record {
      raw_query = t.url.raw_query;
      headers =
          if not (is_empty req.body)
            && is_empty (header_get (str "Content-Type") headers)
            && e.json_valid req.body
          then header_set (str "Content-Type") (str "application/json") headers
          else headers;
      body = some req.body;
      content_length = length req.body;
    }

abbrev pub on_secret : Option Str → Injection → Stage Str
on_secret none inj = raise (secret_not_found inj.secret_key)
on_secret (some cred) inj = pure cred

-- The loop that resolves the secrets, each paired with its injection.
unfoldable pub resolve_all : (Str → Option Str) → List Injection → Stage (List (Str × Injection))
resolve_all resolve [] = pure []
resolve_all resolve (inj ∷ injs) = do
  cred ← on_secret (resolve inj.secret_key) inj
  rest ← resolve_all resolve injs
  pure ((cred, inj) ∷ rest)

abbrev pub on_injected : CallRequest → Target → Outcome Request → Stage Outbound
on_injected req t (ok r) =
    pure (record { method = t.method; target_url = req.target_url; request = r })
on_injected req t (err x) = raise injection_failed
on_injected req t panic = λ s. (fault, s)

abbrev values_of : List (Str × Injection) → List Str
values_of [] = []
values_of ((cred, inj) ∷ rest) = cred ∷ values_of rest

abbrev pub with_secrets :
    Engine → CallRequest → Target → Option (Str → Option Str) → Stage (Outbound × List Str)
with_secrets e req t none = λ s. (fault, s)
with_secrets e req t (some resolve) =
    if e.new_request t.method req.target_url
    then (do
      creds ← resolve_all resolve req.injections
      out ← on_injected req t (inject_all e.codecs (draft_request e req t) creds)
      pure (out, values_of creds))
    else raise bad_request

-- buildAndInject: the outbound request, and the secret values for the redaction.
unfoldable pub build_and_inject : Engine → CallRequest → Target → Stage (Outbound × List Str)
build_and_inject e req t = with_secrets e req t e.resolve_secret

-- The audit record of `blockSSRF`.
unfoldable pub ssrf_trace : Engine → CallRequest → Target → Str → Trace
unfolding audit_event forensic_event failed_layer str
ssrf_trace e req t error = record {
  event =
      audit_event e req t.domain t.method 403 (str "BLOCKED") (str "ssrf_protection_blocked") false;
  forensic =
      forensic_event req t.domain t.method t.url.path 403 (str "blocked")
        (record {
          decision = str "blocked";
          decided_by = str "ssrf_protection";
          layers_evaluated = failed_layer (str "ssrf_protection") error [] ∷ [];
          first_failure_layer = str "ssrf_protection";
        })
        (unresolved false);
}

-- blockSSRF
unfoldable pub block_ssrf : Engine → CallRequest → Target → Str → {A : Type 0} → Stage A
unfolding ssrf_trace add_trace forbidden
block_ssrf e req t error s = (
  finish (forbidden e (str "ssrf_protection_blocked") t.domain error),
  add_trace e (ssrf_trace e req t error) s,
)

unfoldable pub on_forwarded : Engine → CallRequest → Target → Forwarded → Stage ForwardResult
on_forwarded e req t (response r) = pure r
on_forwarded e req t (ssrf_error text) = block_ssrf e req t text
on_forwarded e req t transport_error = raise upstream_error

-- forward: the request is handed to the HTTP client.
unfoldable pub forward : Engine → CallRequest → Target → Outbound → Stage ForwardResult
unfolding on_forwarded
forward e req t out s =
    on_forwarded e req t (e.forward out) (record s { sent = s.sent ++ out ∷ [] })

-- redactResponse, on what `forward` has brought.
abbrev pub redacted_result : Engine → List Str → ForwardResult → Response
redacted_result e vals r =
    redact_response e.decimal vals (record { body = r.body; headers = r.headers; redacted = false })

unfoldable pub outcome_of : Bool → Str
unfolding str
outcome_of redacted = if redacted then str "redacted" else str "success"

-- auditSuccess
unfoldable pub success_trace : Engine → CallRequest → Target → Bool → ℕ → Bool → Trace
unfolding audit_event forensic_event outcome_of str
success_trace e req t has_policy status_code redacted = record {
  event =
      audit_event e req t.domain t.method status_code (str "OK") (reason_for_audit redacted)
        redacted;
  forensic =
      forensic_event req t.domain t.method t.url.path status_code (outcome_of redacted)
        (make_success_enforcement_block t.domain has_policy)
        (record {
          credential_injected = true;
          injection_style = join_commas (styles_of req.injections);
          response_scanned = true;
          redaction_triggered = redacted;
          replacement = if redacted then placeholder else [];
          ssrf_check_passed = true;
          response_status = status_code;
        });
}

-- The redaction, the audit record and the result.
unfoldable pub deliver :
    Engine → CallRequest → Target → Bool → List Str → ForwardResult → Stage CallResult
unfolding success_trace add_trace
deliver e req t has_policy vals r s =
    let clean = redacted_result e vals r in
    (
      go (record { status_code = r.status_code; headers = clean.headers; body = clean.body }),
      add_trace e (success_trace e req t has_policy r.status_code clean.redacted) s,
    )
