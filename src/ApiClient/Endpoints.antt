-- ===== src/ApiClient/Endpoints.antt =====
-- The table of the backend's endpoints in pkg/api/client.go.
use agentsecrets.Prelude.{List, [], ◌∷◌}
use agentsecrets.Text.{Str, str}

abbrev auth_endpoints : List (Str × Str)
auth_endpoints =
    (str "signup", str "auth/register/")
    ∷ (str "login", str "auth/login/")
    ∷ (str "logout", str "auth/logout/")
    ∷ (str "refresh", str "auth/refresh/")
    ∷ []

abbrev secrets_endpoints : List (Str × Str)
secrets_endpoints =
    (str "list", str "secrets/{project_id}/")
    ∷ (str "create", str "secrets/")
    ∷ (str "get", str "secrets/{project_id}/{environment}/{key}/")
    ∷ (str "update", str "secrets/{project_id}/{environment}/{key}/")
    ∷ (str "delete", str "secrets/{project_id}/{environment}/{key}/")
    ∷ (str "get_policy", str "secrets/{project_id}/{environment}/{key}/policy/")
    ∷ (str "set_policy", str "secrets/{project_id}/{environment}/{key}/policy/")
    ∷ []

abbrev projects_endpoints : List (Str × Str)
projects_endpoints =
    (str "list", str "projects/")
    ∷ (str "create", str "projects/")
    ∷ (str "get", str "projects/{workspace_id}/{project_name}/")
    ∷ (str "update", str "projects/{workspace_id}/{project_name}/")
    ∷ (str "delete", str "projects/{workspace_id}/{project_name}/")
    ∷ (str "invite", str "projects/{workspace_id}/{project_name}/invite/")
    ∷ []

abbrev workspaces_endpoints : List (Str × Str)
workspaces_endpoints =
    (str "list", str "workspaces/")
    ∷ (str "create", str "workspaces/")
    ∷ (str "get", str "workspaces/{workspace_id}/")
    ∷ (str "update", str "workspaces/{workspace_id}/")
    ∷ (str "delete", str "workspaces/{workspace_id}/")
    ∷ (str "members", str "workspaces/{workspace_id}/members/")
    ∷ (str "invite", str "workspaces/{workspace_id}/members/")
    ∷ (str "remove_member", str "workspaces/{workspace_id}/members/{user_id}/")
    ∷ (str "role_update", str "workspaces/{workspace_id}/members/{user_id}/role/")
    ∷ (str "allowlist_list", str "workspaces/{workspace_id}/allowlist/")
    ∷ (str "allowlist_add", str "workspaces/{workspace_id}/allowlist/")
    ∷ (str "allowlist_remove", str "workspaces/{workspace_id}/allowlist/{domain}/")
    ∷ (str "allowlist_log", str "workspaces/{workspace_id}/allowlist/log/")
    ∷ []

abbrev agents_endpoints : List (Str × Str)
agents_endpoints =
    (str "list", str "workspaces/{workspace_id}/agents/")
    ∷ (str "register", str "workspaces/{workspace_id}/agents/")
    ∷ (str "list_project", str "workspaces/{workspace_id}/projects/{project_id}/agents/")
    ∷ (str "register_project", str "workspaces/{workspace_id}/projects/{project_id}/agents/")
    ∷ (str "delete", str "workspaces/{workspace_id}/agents/{registration_id}/")
    ∷ (str "token_issue", str "workspaces/{workspace_id}/agents/{registration_id}/tokens/")
    ∷ (str "token_list", str "workspaces/{workspace_id}/agents/{registration_id}/tokens/")
    ∷ (
      str "token_revoke",
      str "workspaces/{workspace_id}/agents/{registration_id}/tokens/{token_id}/",
    )
    ∷ (
      str "get_capabilities",
      str "workspaces/{workspace_id}/agents/{registration_id}/capabilities/",
    )
    ∷ (
      str "set_capabilities",
      str "workspaces/{workspace_id}/agents/{registration_id}/capabilities/",
    )
    ∷ (str "token_validate", str "internal/agents/verify/")
    ∷ (str "token_revoked", str "workspaces/{workspace_id}/agents/revoked-tokens/")
    ∷ []

abbrev log_endpoints : List (Str × Str)
log_endpoints =
    (str "list", str "audit/logs/")
    ∷ (str "detail", str "audit/logs/{log_id}/")
    ∷ (str "summary", str "audit/summary/")
    ∷ (str "export", str "audit/export/")
    ∷ []

abbrev audit_endpoints : List (Str × Str)
audit_endpoints = (str "sync", str "internal/audit/logs/") ∷ []

abbrev telemetry_endpoints : List (Str × Str)
telemetry_endpoints = (str "sync", str "/telemetry/sync/") ∷ []

abbrev users_endpoints : List (Str × Str)
users_endpoints = (str "public_key", str "users/{email}/public-key/") ∷ []

unfoldable pub endpoint_map : List (Str × List (Str × Str))
endpoint_map =
    (str "auth", auth_endpoints)
    ∷ (str "secrets", secrets_endpoints)
    ∷ (str "projects", projects_endpoints)
    ∷ (str "workspaces", workspaces_endpoints)
    ∷ (str "agents", agents_endpoints)
    ∷ (str "log", log_endpoints)
    ∷ (str "audit", audit_endpoints)
    ∷ (str "telemetry", telemetry_endpoints)
    ∷ (str "users", users_endpoints)
    ∷ []
