-- ===== src/AuditLog/Syncing.antt =====
-- `SyncUnpushedLogs` of pkg/proxy/audit.go. Whether a row can be read into the program's types, the
-- JSON that the cloud answers, and whether the database takes an update are arguments. Of a pushed
-- record the constant fields, and those of the columns that the development leaves out, are not
-- modelled.
pub mod Draining
pub mod Reports
pub mod Outcome
use agentsecrets.Prelude.{
  ℕ, zero, suc, Bool, true, false, not, ◌&&◌, ◌||◌, Option, none, some, List, [], ◌∷◌, ◌++◌, ◌==◌,
  map, if◌then◌else◌, is_empty, any,
}
use agentsecrets.Text.{Str, str, str_eq}
use agentsecrets.Audit.{AgentIdentity, EnforcementBlock}
use agentsecrets.AuditLog.{ForensicAuditEvent}

-- A row of audit_events.
pub record LegacyRow : Type 0 where
  pub id : Str
  pub timestamp : ℕ
  pub environment : Str
  pub agent_id : Str
  pub identity_level : Str
  pub method : Str
  pub target_url : Str
  pub domain : Str
  pub status_code : ℕ
  pub duration_ms : ℕ
  pub status : Str
  pub reason : Str
  pub redacted : Bool
  pub workspace_id : Str
  pub project_id : Str
  pub token_id : Str
  pub secret_keys : List Str
  pub auth_styles : List Str
  pub synced : Bool

-- What the cloud is told of a blocked call.
pub record PushedError : Type 0 where
  pub decision : Str
  pub decided_by : Str
  pub first_failure : Str

pub record PushedLog : Type 0 where
  pub id : Str
  pub schema_version : ℕ
  pub timestamp : ℕ
  pub environment : Str
  pub workspace_id : Str
  pub project_id : Str
  pub agent_id : Str
  pub token_id : Str
  pub identity_level : Str
  pub credential_ref : Str
  pub injection_style : Str
  pub target_domain : Str
  pub target_url : Str
  pub target_path : Str
  pub method : Str
  pub status_code : ℕ
  pub duration_ms : ℕ
  pub redacted : Bool
  pub allowlist : List Str
  pub policy_id : Str
  pub error : Option PushedError

-- strings.Join(s, ",")
unfoldable pub join_comma : List Str → Str
unfolding str
join_comma [] = []
join_comma (s ∷ []) = s
join_comma (s ∷ next ∷ rest) = s ++ (str "," ++ join_comma (next ∷ rest))

-- `path_of` is the path of a URL, empty where it does not parse.
unfoldable pub map_legacy : (Str → Str) → LegacyRow → PushedLog
unfolding join_comma
map_legacy path_of e = record {
  id = e.id;
  schema_version = 1;
  timestamp = e.timestamp;
  environment = e.environment;
  workspace_id = e.workspace_id;
  project_id = e.project_id;
  agent_id = e.agent_id;
  token_id = e.token_id;
  identity_level = e.identity_level;
  credential_ref = join_comma e.secret_keys;
  injection_style = join_comma e.auth_styles;
  target_domain = e.domain;
  target_url = e.target_url;
  target_path = path_of e.target_url;
  method = e.method;
  status_code = e.status_code;
  duration_ms = e.duration_ms;
  redacted = e.redacted;
  allowlist = [];
  policy_id = [];
  error = none;
}

-- agID, tokID, identLevel
unfoldable pub identity_of : Option AgentIdentity → Str × Str × Str
unfolding str
identity_of none = ([], [], str "anonymous")
identity_of (some agent) = (agent.token_name, agent.token_id, agent.identity_level)

abbrev pub or_empty : Option Str → Str
or_empty none = []
or_empty (some s) = s

unfoldable pub error_of : Str → EnforcementBlock → Option PushedError
unfolding str_eq str
error_of outcome enforcement =
    if str_eq outcome (str "blocked")
    then some (record {
      decision = enforcement.decision;
      decided_by = enforcement.decided_by;
      first_failure = enforcement.first_failure_layer;
    })
    else none

unfoldable pub map_forensic : ForensicAuditEvent → PushedLog
unfolding identity_of error_of str
map_forensic fe =
    let (agent_id, token_id, level) = identity_of fe.event.agent_identity in
    record {
      id = fe.id;
      schema_version = 2;
      timestamp = fe.created_at;
      environment = fe.event.environment;
      workspace_id = fe.workspace_id;
      project_id = fe.project_id;
      agent_id = agent_id;
      token_id = token_id;
      identity_level = level;
      credential_ref = fe.event.key_name;
      injection_style = fe.resolution.injection_style;
      target_domain = fe.event.domain;
      target_url = str "https://" ++ (fe.event.domain ++ fe.event.path);
      target_path = fe.event.path;
      method = fe.event.method;
      status_code = fe.event.status_code;
      duration_ms = fe.event.latency_ms;
      redacted = fe.resolution.redaction_triggered;
      allowlist = fe.snapshot.allowlist;
      policy_id = or_empty fe.snapshot.policy_version;
      error = error_of fe.event.outcome fe.enforcement;
    }

module _ {ℓ} {A : Type ℓ} where
  -- WHERE synced = 0 LIMIT n, of the rows in the order in which the database reads them.
  unfoldable pub unsynced : (A → Bool) → ℕ → List A → List A
  unsynced synced zero table = []
  unsynced synced (suc n) [] = []
  unsynced synced (suc n) (row ∷ table) =
      if synced row then unsynced synced (suc n) table else row ∷ unsynced synced n table

  -- The rows that are not skipped as broken.
  unfoldable pub readable : (A → Bool) → List A → List A
  readable reads [] = []
  readable reads (row ∷ rows) =
      let rest = readable reads rows in if reads row then row ∷ rest else rest

  -- UPDATE … SET synced = 1 WHERE id IN (…)
  unfoldable pub mark : (A → Str) → (A → A) → List Str → List A → List A
  unfolding str_eq
  mark id set ids [] = []
  mark id set ids (row ∷ table) =
      (if any (λ i. str_eq i (id row)) ids then set row else row) ∷ mark id set ids table

pub record Database : Type 0 where
  pub legacy : List LegacyRow
  pub forensic : List ForensicAuditEvent

-- The session, the driver and the cloud. A query that fails is one that no row can be read of.
pub record Surroundings : Type 0 where
  pub has_client : Bool
  pub authenticated : Bool
  pub path_of : Str → Str
  pub reads_legacy : LegacyRow → Bool
  pub reads_forensic : ForensicAuditEvent → Bool
  pub accepts : List PushedLog → Bool
  pub marks_legacy : Bool
  pub marks_forensic : Bool

pub data SyncError : Type 0 where
  call_failed : SyncError
  legacy_not_marked : SyncError
  forensic_not_marked : SyncError

unfoldable pub legacy_batch : Surroundings → Database → List LegacyRow
unfolding unsynced readable
legacy_batch env db = readable env.reads_legacy (unsynced (λ row. row.synced) 100 db.legacy)

unfoldable pub forensic_batch : Surroundings → Database → List ForensicAuditEvent
unfolding unsynced readable
forensic_batch env db = readable env.reads_forensic (unsynced (λ row. row.synced) 100 db.forensic)

unfoldable pub payload_of : Surroundings → Database → List PushedLog
unfolding legacy_batch forensic_batch map_legacy map_forensic
payload_of env db =
    map (map_legacy env.path_of) (legacy_batch env db) ++ map map_forensic (forensic_batch env db)

abbrev pub set_legacy : LegacyRow → LegacyRow
set_legacy row = record {
  id = row.id;
  timestamp = row.timestamp;
  environment = row.environment;
  agent_id = row.agent_id;
  identity_level = row.identity_level;
  method = row.method;
  target_url = row.target_url;
  domain = row.domain;
  status_code = row.status_code;
  duration_ms = row.duration_ms;
  status = row.status;
  reason = row.reason;
  redacted = row.redacted;
  workspace_id = row.workspace_id;
  project_id = row.project_id;
  token_id = row.token_id;
  secret_keys = row.secret_keys;
  auth_styles = row.auth_styles;
  synced = true;
}

abbrev pub set_forensic : ForensicAuditEvent → ForensicAuditEvent
set_forensic row = record {
  id = row.id;
  version = row.version;
  created_at = row.created_at;
  workspace_id = row.workspace_id;
  project_id = row.project_id;
  event = row.event;
  snapshot = row.snapshot;
  enforcement = row.enforcement;
  resolution = row.resolution;
  chain_hash = row.chain_hash;
  synced = true;
}

-- Step 5 of the sync.
unfoldable pub mark_forensic :
    Surroundings → List ForensicAuditEvent → Database → Database × Option SyncError
unfolding mark
mark_forensic env [] db = (db, none)
mark_forensic env (row ∷ batch) db =
    if env.marks_forensic
    then (
      record {
        legacy = db.legacy;
        forensic = mark (λ r. r.id) set_forensic (map (λ r. r.id) (row ∷ batch)) db.forensic;
      },
      none,
    )
    else (db, some forensic_not_marked)

-- Step 4, and what follows it.
unfoldable pub mark_batches :
    Surroundings → List LegacyRow → List ForensicAuditEvent → Database → Database × Option SyncError
unfolding mark mark_forensic
mark_batches env [] forensic db = mark_forensic env forensic db
mark_batches env (row ∷ batch) forensic db =
    if env.marks_legacy
    then mark_forensic env forensic (record {
      legacy = mark (λ r. r.id) set_legacy (map (λ r. r.id) (row ∷ batch)) db.legacy;
      forensic = db.forensic;
    })
    else (db, some legacy_not_marked)

-- SyncUnpushedLogs, from the flush on.
unfoldable pub sync_unpushed_logs : Surroundings → Database → Database × Option SyncError
unfolding payload_of legacy_batch forensic_batch mark_batches
sync_unpushed_logs env db =
    if not env.has_client || not env.authenticated
    then (db, none)
    else if is_empty (payload_of env db)
    then (db, none)
    else if env.accepts (payload_of env db)
    then mark_batches env (legacy_batch env db) (forensic_batch env db) db
    else (db, some call_failed)
