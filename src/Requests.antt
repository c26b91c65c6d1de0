-- ===== src/Requests.antt =====
-- pkg/proxy/engine.go: `CallRequest`, `CallResult`, and the reasons for which a call is blocked.
use agentsecrets.Prelude.{ℕ, Option, List}
use agentsecrets.Text.{Str, str}
use agentsecrets.Capabilities.{AgentCapabilities}
use agentsecrets.Injector.{Injection}

pub record CallRequest : Type 0 where
  pub target_url : Str
  pub method : Str
  pub headers : List (Str × Str)
  pub body : Str
  pub injections : List Injection
  pub agent_id : Str
  pub agent_token : Str
  pub identity_level : Str
  pub token_id : Str
  pub capabilities : Option AgentCapabilities

pub record CallResult : Type 0 where
  pub status_code : ℕ
  pub headers : List (Str × List Str)
  pub body : Str

-- One constructor for each place where a call is blocked.
pub data Block : Type 0 where
  non_https : Block
  token_revoked agent_revoked : Block
  workspace_mismatch project_mismatch environment_mismatch : Block
  capability_denied : Str → Block
  empty_allowlist domain_not_in_allowlist : Block
  policy_denied policy_approval_denied policy_approval_required : Str → Block

-- The reason in the audit record and in the answer.
unfoldable pub reason : Block → Str
unfolding str
reason non_https = str "non_https_blocked"
reason token_revoked = str "token_revoked"
reason agent_revoked = str "token_revoked"
reason workspace_mismatch = str "agent_workspace_mismatch"
reason project_mismatch = str "agent_project_mismatch"
reason environment_mismatch = str "agent_environment_mismatch"
reason (capability_denied key) = str "capability_denied"
reason empty_allowlist = str "empty_allowlist"
reason domain_not_in_allowlist = str "domain_not_in_allowlist"
reason (policy_denied key) = str "policy_denied"
reason (policy_approval_denied key) = str "policy_approval_denied"
reason (policy_approval_required key) = str "policy_approval_required"
