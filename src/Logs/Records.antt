-- ===== src/Logs/Records.antt =====
-- The records that the queries answer, those of the local database and those of the cloud, in the form
-- that the commands show.
pub mod Cloud
use agentsecrets.Prelude.{
  ℕ, suc, Bool, true, false, ◌||◌, Option, none, some, List, [], ◌∷◌, ◌++◌, leb, ◌==◌, map, not,
  if◌then◌else◌, is_empty,
}
use agentsecrets.Text.{Str, str, str_eq}
use agentsecrets.AuditLog.{EventBlock, ForensicAuditEvent}
use agentsecrets.AuditLog.Syncing.{LegacyRow, identity_of}
use agentsecrets.Logs.{Filter, query_local_forensic}

-- proxy.AuditEvent with its id and its times.
pub record LogEntry : Type 0 where
  pub id : Str
  pub timestamp : ℕ
  pub environment : Str
  pub secret_keys : List Str
  pub agent_id : Str
  pub identity_level : Str
  pub method : Str
  pub target_url : Str
  pub domain : Str
  pub auth_styles : List Str
  pub status_code : ℕ
  pub duration_ms : ℕ
  pub status : Str
  pub reason : Str
  pub redacted : Bool
  pub resolution_path : Str
  pub workspace_id : Str
  pub project_id : Str
  pub token_id : Str

abbrev pub in_first : ℕ → List Str → List Str
in_first c [] = (c ∷ []) ∷ []
in_first c (part ∷ parts) = (c ∷ part) ∷ parts

-- strings.Split(s, ",")
unfoldable pub split_comma : Str → List Str
split_comma [] = [] ∷ []
split_comma (c ∷ s) = let rest = split_comma s in if c == b',' then [] ∷ rest else in_first c rest

-- A list that is kept as one text, and is empty for the empty text.
unfoldable pub list_of : Str → List Str
unfolding split_comma
list_of s = if is_empty s then [] else split_comma s

-- `reason` of mapForensicToLegacy
unfoldable pub reason_of : Str → Str → Str
unfolding str_eq str
reason_of outcome first_failure =
    if str_eq outcome (str "redacted") then str "credential_echo" else first_failure

-- `targetURL` and `identityLevel`, of a management event and of another.
unfoldable pub target_of : EventBlock → Str → Str × Str
unfolding str_eq str
target_of event level =
    if str_eq event.event_type (str "management")
    then (event.path, str "user")
    else (str "https://" ++ (event.domain ++ event.path), level)

unfoldable pub map_forensic_to_legacy : ForensicAuditEvent → LogEntry
unfolding list_of reason_of target_of identity_of str_eq str
map_forensic_to_legacy fe =
    let (agent_id, token_id, level) = identity_of fe.event.agent_identity in
    let (target_url, identity_level) = target_of fe.event level in
    record {
      id = fe.id;
      timestamp = fe.created_at;
      environment = fe.event.environment;
      secret_keys = list_of fe.event.key_name;
      agent_id = agent_id;
      identity_level = identity_level;
      method = fe.event.method;
      target_url = target_url;
      domain = fe.event.domain;
      auth_styles = list_of fe.resolution.injection_style;
      status_code = fe.event.status_code;
      duration_ms = fe.event.latency_ms;
      status = if str_eq fe.event.outcome (str "blocked") then str "BLOCKED" else str "OK";
      reason = reason_of fe.event.outcome fe.enforcement.first_failure_layer;
      redacted = fe.resolution.redaction_triggered;
      resolution_path = str "local proxy";
      workspace_id = fe.workspace_id;
      project_id = fe.project_id;
      token_id = token_id;
    }

pub record ApiLogRow : Type 0 where
  pub id : Str
  pub timestamp : Str
  pub agent_id : Str
  pub identity_level : Str
  pub credential_ref : Str
  pub injection_style : Str
  pub target_domain : Str
  pub target_url : Str
  pub method : Str
  pub status_code : ℕ
  pub duration_ms : ℕ
  pub redacted : Bool
  pub resolution_path : Str
  pub error : Str

-- `parse_time` is the instant of a text, the zero time if there is none.
unfoldable pub api_row_to_audit_event : (Str → ℕ) → ApiLogRow → LogEntry
unfolding list_of str
api_row_to_audit_event parse_time r = record {
  id = r.id;
  timestamp = parse_time r.timestamp;
  environment = [];
  secret_keys = list_of r.credential_ref;
  agent_id = r.agent_id;
  identity_level = r.identity_level;
  method = r.method;
  target_url = r.target_url;
  domain = r.target_domain;
  auth_styles = list_of r.injection_style;
  status_code = r.status_code;
  duration_ms = r.duration_ms;
  status = if leb 400 r.status_code || not (is_empty r.error) then str "FAILED" else str "OK";
  reason = r.error;
  redacted = r.redacted;
  resolution_path = r.resolution_path;
  workspace_id = [];
  project_id = [];
  token_id = [];
}

-- A parameter of the remote query, for a filter that is set.
abbrev pub param : Bool → Str → Str → List (Str × Str) → List (Str × Str)
param set name value params = if set then (name, value) ∷ params else params

abbrev pub text_param : Str → Str → List (Str × Str) → List (Str × Str)
text_param name value params = param (not (is_empty value)) name value params

-- `params` of QueryRemote; the forms of a number and of an instant are arguments.
unfoldable pub remote_params : (ℕ → Str) → (ℕ → Str) → Str → Filter → List (Str × Str)
unfolding str
remote_params show format workspace f =
    (str "workspace_id", workspace)
    ∷ text_param (str "project_id") f.project_id (
        text_param (str "agent_id") f.agent (
          text_param (str "agent_token_id") f.token (
            text_param (str "identity_level") f.identity (
              text_param (str "credential_ref") f.credential (
                text_param (str "environment") f.environment (
                  text_param (str "domain") f.domain (
                    text_param (str "method") f.method (
                      param (not (f.status == 0)) (str "status_code") (show f.status) (
                        param (not (f.since == 0)) (str "since") (format f.since) (
                          param (not (f.until == 0)) (str "until") (format f.until)
                            (param (not (f.limit == 0)) (str "limit") (show f.limit) [])))))))))))

-- QueryRemote; `none` is a call that failed.
unfoldable pub query_remote :
    (List (Str × Str) → Option (List ApiLogRow))
    → (ℕ → Str)
    → (ℕ → Str)
    → (Str → ℕ)
    → Str
    → Filter
    → Option (List LogEntry)
unfolding remote_params api_row_to_audit_event
query_remote call show format parse_time workspace f =
    elim (call (remote_params show format workspace f)) [
      | none ↦ none
      | some rows ↦ some (map (api_row_to_audit_event parse_time) rows)
    ]

-- QueryLocal, of tables that can be read.
unfoldable pub query_local :
    (Str → Str → Bool)
    → (List ForensicAuditEvent → List ForensicAuditEvent)
    → Filter
    → List ForensicAuditEvent
    → List LogEntry
unfolding query_local_forensic map_forensic_to_legacy
query_local like order f table =
    map map_forensic_to_legacy (query_local_forensic like order f table)

-- GetForensicLog
unfoldable pub get_forensic_log : Str → List ForensicAuditEvent → Option ForensicAuditEvent
unfolding str_eq
get_forensic_log id [] = none
get_forensic_log id (row ∷ table) = if str_eq row.id id then some row else get_forensic_log id table

unfoldable pub entry_of : LegacyRow → LogEntry
unfolding str
entry_of row = record {
  id = row.id;
  timestamp = row.timestamp;
  environment = row.environment;
  secret_keys = row.secret_keys;
  agent_id = row.agent_id;
  identity_level = row.identity_level;
  method = row.method;
  target_url = row.target_url;
  domain = row.domain;
  auth_styles = row.auth_styles;
  status_code = row.status_code;
  duration_ms = row.duration_ms;
  status = row.status;
  reason = row.reason;
  redacted = row.redacted;
  resolution_path = str "local proxy";
  workspace_id = row.workspace_id;
  project_id = row.project_id;
  token_id = row.token_id;
}

abbrev pub find_entry : Str → List LegacyRow → Option LogEntry
find_entry id [] = none
find_entry id (row ∷ rows) = if str_eq row.id id then some (entry_of row) else find_entry id rows

-- GetLog: the forensic table first.
unfoldable pub get_log : Str → List ForensicAuditEvent → List LegacyRow → Option LogEntry
unfolding get_forensic_log map_forensic_to_legacy entry_of str_eq
get_log id forensic legacy = elim (get_forensic_log id forensic) [
  | none ↦ find_entry id legacy
  | some fe ↦ some (map_forensic_to_legacy fe)
]
