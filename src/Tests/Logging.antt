-- ===== src/Tests/Logging.antt =====
-- The audit log, its push to the cloud and its queries, and the check for updates.
use agentsecrets.Prelude.{
  ℕ, ◌≤◌, ◌≡◌, ◌≢◌, sym, refl, true, false, Option, none, some, List, [], ◌∷◌, ◌++◌, if◌then◌else◌,
  arith, All, Some, length, get_elem?, ◌==◌,
}
use agentsecrets.Text.{Str, str, str_eq, has_prefix}
use agentsecrets.Text.Laws.{str_eq_iff}
use agentsecrets.AuditLog.{
  ForensicAuditEvent, EventBlock, genesis_block, chain_hash_of, write_forensic, verify_from,
  verify_chain, precedes, str_ltb,
}
use agentsecrets.AuditLog.Chain.{IsChained, IsNext, IsLogId, write_forensic-IsChained}
use agentsecrets.AuditLog.Tampering.{verify_chain-removed}
use agentsecrets.AuditLog.Syncing.{
  LegacyRow, Database, Surroundings, payload_of, sync_unpushed_logs, map_legacy, join_comma,
}
use agentsecrets.AuditLog.Syncing.Draining.{IsWorking, legacy_left, forensic_left, count_unsynced}
use agentsecrets.AuditLog.Syncing.Reports.{IsKeyed, IsReport}
use agentsecrets.AuditLog.Syncing.Outcome.{sync_times, sync_times-drains, sync_marks_pushed}
use agentsecrets.AuditLog.Writer.{
  Writer, new_writer, Run, fresh, call_open, send, take_next, count, held, Run-conserves, log, turn,
  Action, act_all, logged, flush,
}
use agentsecrets.AuditLog.Writer.Order.{flush-in_order}
use agentsecrets.Logs.{Filter, query_local_forensic}
use agentsecrets.Logs.Answers.{IsAnswer}
use agentsecrets.Logs.Pages.{IsOrder, IsWhole, query_local_forensic-IsAnswer}
use agentsecrets.Logs.Records.{ApiLogRow, api_row_to_audit_event}
use agentsecrets.Logs.Records.Cloud.{api_row_to_audit_event-map_legacy}
use agentsecrets.Updates.{UpdateCache}
use agentsecrets.Updates.Alerts.{alert_times, IsSpaced, alert_times-IsSpaced}

abbrev call_event : EventBlock
call_event = record {
  event_type = str "proxy_call";
  key_name = str "API_KEY";
  domain = str "api.stripe.com";
  path = str "/v1";
  method = str "GET";
  status_code = 200;
  outcome = str "success";
  latency_ms = 12;
  agent_identity = none;
  environment = str "development";
}

abbrev row_of : Str → ℕ → ForensicAuditEvent
row_of id time = record {
  id = id;
  version = str "2";
  created_at = time;
  workspace_id = str "w1";
  project_id = str "p1";
  event = call_event;
  snapshot = record { allowlist = []; policy_version = none };
  enforcement = record {
    decision = str "permitted";
    decided_by = str "secrets_policy";
    layers_evaluated = [];
    first_failure_layer = [];
  };
  resolution = record {
    credential_injected = true;
    injection_style = str "bearer";
    response_scanned = true;
    redaction_triggered = false;
    replacement = [];
    ssrf_check_passed = true;
    response_status = 200;
  };
  chain_hash = [];
  synced = false;
}

abbrev same_text : Str → Str
same_text s = s

abbrev clock : ℕ → Str
clock n = n ∷ []

abbrev hashed : Str → Str → ℕ → ForensicAuditEvent
hashed prev id time = record (row_of id time) { chain_hash = prev ++ id ++ (time ∷ []) }

abbrev one : ForensicAuditEvent
one = hashed genesis_block (str "log_1") 1

abbrev two : ForensicAuditEvent
two = hashed (str "log_1") (str "log_2") 2

abbrev three : ForensicAuditEvent
three = hashed (str "log_2") (str "log_3") 2

abbrev table : List ForensicAuditEvent
table = one ∷ two ∷ three ∷ []

table-IsChained : IsChained same_text clock table
unfolding precedes str_ltb str_eq str has_prefix chain_hash_of verify_from
table-IsChained = (
  (((refl, refl), ((refl, refl), tt)), (((refl, refl), tt), (tt, tt))),
  (refl, (refl, (refl, tt))),
  refl,
)

four-IsNext : IsNext table (row_of (str "log_4") 5)
unfolding precedes str_ltb str_eq str
four-IsNext = ((refl, refl), ((refl, refl), ((refl, refl), tt)))

four-IsLogId : IsLogId (row_of (str "log_4") 5)
unfolding str has_prefix
four-IsLogId = refl

write_forensic-IsChained_example :
    IsChained same_text clock (write_forensic same_text clock (row_of (str "log_4") 5) table)
    × (verify_chain same_text clock (write_forensic same_text clock (row_of (str "log_4") 5) table)
        ≡ none)
write_forensic-IsChained_example =
    write_forensic-IsChained same_text clock (row_of (str "log_4") 5) table table-IsChained
      four-IsNext four-IsLogId

verify_chain-removed_example : verify_chain same_text clock (one ∷ three ∷ []) ≡ some 1
verify_chain-removed_example =
    verify_chain-removed same_text clock (λ a b e. e) (one ∷ []) two three [] table-IsChained

abbrev legacy_row : LegacyRow
legacy_row = record {
  id = str "log_9";
  timestamp = 3;
  environment = [];
  agent_id = [];
  identity_level = str "anonymous";
  method = str "GET";
  target_url = str "https://a.b/c";
  domain = str "a.b";
  status_code = 200;
  duration_ms = 4;
  status = str "OK";
  reason = [];
  redacted = false;
  workspace_id = [];
  project_id = [];
  token_id = [];
  secret_keys = str "A" ∷ str "B" ∷ [];
  auth_styles = str "bearer" ∷ [];
  synced = false;
}

abbrev database : Database
database = record { legacy = legacy_row ∷ []; forensic = table }

abbrev network : Surroundings
network = record {
  has_client = true;
  authenticated = true;
  path_of = λ u. [];
  reads_legacy = λ r. true;
  reads_forensic = λ r. true;
  accepts = λ logs. true;
  marks_legacy = true;
  marks_forensic = true;
}

network-IsWorking : IsWorking network
network-IsWorking = (refl, refl, (λ r. refl), (λ r. refl), (λ logs. refl), refl, refl)

sync_times-drains_example :
    All (λ row. row.synced ≡ true) (sync_times network 1 database).legacy
    × All (λ row. row.synced ≡ true) (sync_times network 1 database).forensic
unfolding legacy_left forensic_left count_unsynced
sync_times-drains_example =
    sync_times-drains network 1 database network-IsWorking (omega arith) (omega arith)

abbrev marked_one : ForensicAuditEvent
marked_one = record one { synced = true }

marks : get_elem? (sync_unpushed_logs network database).0.forensic 0 ≡ some marked_one
unfolding sync_unpushed_logs
marks = refl

ids_differ :
    (str_eq (str "log_1") (str "log_2") ≡ false)
    × (str_eq (str "log_1") (str "log_3") ≡ false)
    × (str_eq (str "log_2") (str "log_3") ≡ false)
unfolding str_eq str
ids_differ = (refl, refl, refl)

differ : (a b : Str) → str_eq a b ≡ false → b ≢ a
differ a b h e = ground (arith, h, (str_eq_iff a b).1 (sym e))

table-IsKeyed : IsKeyed table
table-IsKeyed = (
  (differ _ _ ids_differ.0, (differ _ _ ids_differ.1, tt)),
  ((differ _ _ ids_differ.2, tt), (tt, tt)),
)

sync_marks_pushed_example :
    (network.accepts (payload_of network database) ≡ true)
    × Some (IsReport one) (payload_of network database)
sync_marks_pushed_example =
    sync_marks_pushed network database 0 one marked_one table-IsKeyed refl marks refl refl

-- A write is called for, sent and taken, and another waits.
abbrev busy : Writer
busy = record { waiting = 8 ∷ []; queue = []; written = 7 ∷ []; closed = false; exited = false }

abbrev run : Run (8 ∷ 7 ∷ []) busy
run =
    call_open 8
      (take_next 7 [] (send [] 7 [] (call_open 7 fresh refl) refl (omega arith)) refl refl) refl

Run-conserves_example : held 7 busy ≡ count 7 (8 ∷ 7 ∷ [])
Run-conserves_example = Run-conserves 7 run

abbrev actions : List Action
actions = log 1 ∷ turn ∷ log 2 ∷ log 3 ∷ turn ∷ []

flush-in_order_example : (flush (act_all actions new_writer)).written ≡ logged actions
flush-in_order_example = flush-in_order actions (omega arith)

abbrev filter : Filter
filter = record {
  agent = [];
  token = [];
  identity = [];
  credential = [];
  domain = str "api.stripe.com";
  method = [];
  environment = [];
  status = 0;
  status_class = str "2xx";
  failed = false;
  blocked = false;
  redacted = false;
  project_id = [];
  workspace_id = [];
  since = 0;
  until = 2;
  limit = 2;
  offset = 0;
  exclude_management = true;
}

abbrev in_order : List ForensicAuditEvent → List ForensicAuditEvent
in_order rows = rows

in_order-IsOrder : IsOrder in_order
in_order-IsOrder P rows = ((λ h. h), (λ h. h))

query_local_forensic-IsAnswer_example :
    All (IsAnswer str_eq filter) (query_local_forensic str_eq in_order filter table)
    × (length (query_local_forensic str_eq in_order filter table)
        ≤ (if filter.limit == 0 then 50 else filter.limit))
    × IsWhole str_eq filter table (query_local_forensic str_eq in_order filter table)
query_local_forensic-IsAnswer_example =
    query_local_forensic-IsAnswer str_eq in_order filter table in_order-IsOrder

abbrev api_row : ApiLogRow
api_row = record {
  id = str "log_9";
  timestamp = [];
  agent_id = [];
  identity_level = str "anonymous";
  credential_ref = str "A,B";
  injection_style = str "bearer";
  target_domain = str "a.b";
  target_url = str "https://a.b/c";
  method = str "GET";
  status_code = 200;
  duration_ms = 4;
  redacted = false;
  resolution_path = [];
  error = [];
}

api_row_to_audit_event-map_legacy_example :
    ((api_row_to_audit_event (λ t. 0) api_row).secret_keys ≡ legacy_row.secret_keys)
    × ((api_row_to_audit_event (λ t. 0) api_row).auth_styles ≡ legacy_row.auth_styles)
unfolding map_legacy join_comma str
api_row_to_audit_event-map_legacy_example =
    api_row_to_audit_event-map_legacy (λ u. []) (λ t. 0) legacy_row api_row
      ((refl, refl), ((refl, refl), tt)) ((refl, refl), tt) refl refl

abbrev update_cache : UpdateCache
update_cache = record { last_update_check = 0; last_update_alert = 0; latest_version = [] }

abbrev checks : List (ℕ × Option Str)
checks = (100000, some (str "v1.2.0")) ∷ (100060, none) ∷ (130000, none) ∷ (200000, none) ∷ []

alert_times-IsSpaced_example : IsSpaced 0 (alert_times (str "1.1.9") checks update_cache)
alert_times-IsSpaced_example = alert_times-IsSpaced (str "1.1.9") checks update_cache
