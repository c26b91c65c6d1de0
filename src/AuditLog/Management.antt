-- ===== src/AuditLog/Management.antt =====
-- pkg/proxy/audit.go: `LogManagementEvent`, up to the sync that follows it. The parts of a record that
-- the source leaves at their zero values are empty here.
use agentsecrets.Prelude.{ℕ, false, none, some, List, [], ◌++◌}
use agentsecrets.Text.{Str, str}
use agentsecrets.AuditLog.{ForensicAuditEvent, log_forensic}

-- `ev`, at the time `now`.
unfoldable pub management_event :
    Str → ℕ → Str → Str → Str → Str → Str → Str → Str → ForensicAuditEvent
unfolding str
management_event uuid now method domain path user_email workspace_id project_id environment =
    record {
      id = str "log_" ++ uuid;
      version = str "2";
      created_at = now;
      workspace_id = workspace_id;
      project_id = project_id;
      event = record {
        event_type = str "management";
        key_name = [];
        domain = domain;
        path = path;
        method = method;
        status_code = 200;
        outcome = str "success";
        latency_ms = 0;
        agent_identity = some (record {
          token_name = user_email;
          token_id = [];
          identity_level = str "user";
          process_verified = false;
        });
        environment = environment;
      };
      snapshot = record { allowlist = []; policy_version = none };
      enforcement = record {
        decision = str "permitted";
        decided_by = str "local cli";
        layers_evaluated = [];
        first_failure_layer = [];
      };
      resolution = record {
        credential_injected = false;
        injection_style = [];
        response_scanned = false;
        redaction_triggered = false;
        replacement = [];
        ssrf_check_passed = false;
        response_status = 200;
      };
      chain_hash = [];
      synced = false;
    }

unfoldable pub log_management_event :
    (Str → Str)
    → (ℕ → Str)
    → Str
    → ℕ
    → Str
    → Str
    → Str
    → Str
    → Str
    → Str
    → Str
    → List ForensicAuditEvent
    → List ForensicAuditEvent
unfolding management_event log_forensic
log_management_event hash format uuid now method domain path user_email workspace_id project_id
      environment table =
    log_forensic hash format uuid now
      (management_event uuid now method domain path user_email workspace_id project_id environment)
      table
