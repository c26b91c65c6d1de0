-- ===== src/Audit.antt =====
-- pkg/audit/event.go: the records of a proxied call, and the enforcement blocks that
-- pkg/proxy/engine.go builds. Of the forensic record, the parts that hold no copy of other state are
-- modelled: the event, the enforcement and the resolution block. Of the audit event, the clock, the
-- duration and the constant resolution path are left out.
pub mod Layers
use agentsecrets.Prelude.{
  ℕ, Bool, true, false, not, ◌&&◌, ◌||◌, Option, none, some, List, [], ◌∷◌, ◌++◌, if◌then◌else◌,
  is_empty,
}
use agentsecrets.Text.{Str, str, str_eq}

pub record AuditEvent : Type 0 where
  pub environment : Str
  pub secret_keys : List Str
  pub agent_id : Str
  pub identity_level : Str
  pub token_id : Str
  pub method : Str
  pub target_url : Str
  pub domain : Str
  pub auth_styles : List Str
  pub status_code : ℕ
  pub status : Str
  pub reason : Str
  pub redacted : Bool
  pub workspace_id : Str
  pub project_id : Str

pub record EvaluationLayer : Type 0 where
  pub layer : Str
  pub result : Str
  pub reason : Str
  pub action_required : Str

pub record EnforcementBlock : Type 0 where
  pub decision : Str
  pub decided_by : Str
  pub layers_evaluated : List EvaluationLayer
  pub first_failure_layer : Str

pub record ResolutionBlock : Type 0 where
  pub credential_injected : Bool
  pub injection_style : Str
  pub response_scanned : Bool
  pub redaction_triggered : Bool
  pub replacement : Str
  pub ssrf_check_passed : Bool
  pub response_status : ℕ

pub record AgentIdentity : Type 0 where
  pub token_name : Str
  pub token_id : Str
  pub identity_level : Str
  pub process_verified : Bool

pub record ForensicEvent : Type 0 where
  pub key_name : Str
  pub domain : Str
  pub path : Str
  pub method : Str
  pub status_code : ℕ
  pub outcome : Str
  pub agent_identity : Option AgentIdentity
  pub enforcement : EnforcementBlock
  pub resolution : ResolutionBlock

-- What one call leaves in the audit log.
pub record Trace : Type 0 where
  pub event : AuditEvent
  pub forensic : ForensicEvent

unfoldable pub decision_of : Str → Str
unfolding str_eq str
decision_of reason =
    if str_eq reason (str "policy_approval_required")
    then str "policy_escalated"
    else if str_eq reason (str "policy_denied")
    then str "policy_denied"
    else str "blocked"

unfoldable pub passed_layer : Str → Str → EvaluationLayer
unfolding str
passed_layer layer reason = record {
  layer = layer;
  result = str "pass";
  reason = reason;
  action_required = [];
}

unfoldable pub failed_layer : Str → Str → Str → EvaluationLayer
unfolding str
failed_layer layer msg action = record {
  layer = layer;
  result = str "fail";
  reason = msg;
  action_required = action;
}

unfoldable pub agent_layer : Str → EvaluationLayer
unfolding passed_layer str
agent_layer agent_id = passed_layer (str "agent_capabilities") (
    if is_empty agent_id
    then str "anonymous agent has default capabilities"
    else str "agent capabilities check passed")

unfoldable pub allowlist_layer : Str → EvaluationLayer
unfolding passed_layer str
allowlist_layer domain =
    passed_layer (str "workspace_allowlist") (domain ++ str " is on the allowlist")

abbrev first_key : List Str → Str → Str → Str
first_key [] method domain = []
first_key (k ∷ ks) method domain =
    str "agentsecrets proxy approve " ++ (k ++ (str " " ++ (method ++ (str " " ++ domain))))

-- Layer 3 of `makeEnforcementBlock`: who decided, and the layer, if the policy did.
unfoldable pub policy_layers : Str → Str → Str → Str → List Str → Str × List EvaluationLayer
unfolding failed_layer str str_eq
policy_layers reason msg domain method keys =
    if str_eq reason (str "policy_denied") || str_eq reason (str "policy_approval_required")
    then (
      str "secrets_policy",
      failed_layer (str "secrets_policy") msg (
            if str_eq reason (str "policy_approval_required")
            then first_key keys method domain
            else [])
          ∷ [],
    )
    else ([], [])

-- Layers 2 and 3.
unfoldable pub lower_layers : Str → Str → Str → Str → List Str → Str × List EvaluationLayer
unfolding failed_layer allowlist_layer policy_layers str str_eq
lower_layers reason msg domain method keys =
    if str_eq reason (str "empty_allowlist") || str_eq reason (str "domain_not_in_allowlist")
    then (
      str "workspace_allowlist",
      failed_layer (str "workspace_allowlist") msg
            (str "agentsecrets workspace allowlist add " ++ domain)
          ∷ [],
    )
    else (let (by, layers) = policy_layers reason msg domain method keys in
        (by, allowlist_layer domain ∷ layers))

-- `decidedBy` and `layers`.
unfoldable pub all_layers : Str → Str → Str → Str → Str → List Str → Str × List EvaluationLayer
unfolding failed_layer agent_layer lower_layers str str_eq
all_layers reason msg domain method agent_id keys =
    if str_eq reason (str "capability_denied")
    then (
      str "agent_capabilities",
      failed_layer (str "agent_capabilities") msg (str "agentsecrets agent policy set") ∷ [],
    )
    else (let (by, layers) = lower_layers reason msg domain method keys in
        (by, agent_layer agent_id ∷ layers))

-- makeEnforcementBlock; `firstFailure` is set wherever `decidedBy` is, to the same name.
unfoldable pub make_enforcement_block : Str → Str → Str → Str → Str → List Str → EnforcementBlock
unfolding decision_of
make_enforcement_block reason msg domain method agent_id keys =
    let (by, layers) = all_layers reason msg domain method agent_id keys in
    record {
      decision = decision_of reason;
      decided_by = by;
      layers_evaluated = layers;
      first_failure_layer = by;
    }

unfoldable pub make_success_enforcement_block : Str → Bool → EnforcementBlock
unfolding passed_layer allowlist_layer str
make_success_enforcement_block domain has_policy = record {
  decision = str "permitted";
  decided_by = str "secrets_policy";
  layers_evaluated =
      passed_layer (str "agent_capabilities") (str "agent capabilities check passed")
      ∷ allowlist_layer domain
      ∷ passed_layer (str "secrets_policy") (
          if has_policy
          then str "request matches active secret policies"
          else str "no active policy set on this secret")
      ∷ [];
  first_failure_layer = [];
}

-- reasonForAudit
unfoldable pub reason_for_audit : Bool → Str
unfolding str
reason_for_audit redacted = if redacted then str "credential_echo" else str "-"
