-- ===== src/AuditLog.antt =====
-- pkg/proxy/audit.go: the tables of the audit database and what writes them. SHA-256 in hexadecimal
-- and the RFC 3339 form of an instant are arguments; an instant is a number of nanoseconds, 0 the
-- zero time, and every instant is UTC. Of a forensic record's snapshot only what the cloud is sent
-- is modelled.
pub mod Chain
pub mod Tampering
pub mod Writer
pub mod Syncing
pub mod Management
use agentsecrets.Prelude.{
  ℕ, zero, suc, Bool, true, false, ◌&&◌, ◌||◌, Option, none, some, List, [], ◌∷◌, ◌++◌, ltb, ◌==◌,
  if◌then◌else◌, is_empty, any,
}
use agentsecrets.Text.{Str, str, str_eq}
use agentsecrets.Audit.{AgentIdentity, EnforcementBlock, ResolutionBlock}

pub record EventBlock : Type 0 where
  pub event_type : Str
  pub key_name : Str
  pub domain : Str
  pub path : Str
  pub method : Str
  pub status_code : ℕ
  pub outcome : Str
  pub latency_ms : ℕ
  pub agent_identity : Option AgentIdentity
  pub environment : Str

pub record SnapshotBlock : Type 0 where
  pub allowlist : List Str
  pub policy_version : Option Str

pub record ForensicAuditEvent : Type 0 where
  pub id : Str
  pub version : Str
  pub created_at : ℕ
  pub workspace_id : Str
  pub project_id : Str
  pub event : EventBlock
  pub snapshot : SnapshotBlock
  pub enforcement : EnforcementBlock
  pub resolution : ResolutionBlock
  pub chain_hash : Str
  pub synced : Bool

-- The byte order of two texts.
unfoldable pub str_ltb : Str → Str → Bool
str_ltb _ [] = false
str_ltb [] (y ∷ t) = true
str_ltb (x ∷ s) (y ∷ t) = ltb x y || (x == y && str_ltb s t)

-- One record stands before another in `ORDER BY created_at, id`.
unfoldable pub precedes : ForensicAuditEvent → ForensicAuditEvent → Bool
unfolding str_ltb
precedes a b = ltb a.created_at b.created_at || (a.created_at == b.created_at && str_ltb a.id b.id)

abbrev pub later : ForensicAuditEvent → Option ForensicAuditEvent → ForensicAuditEvent
later row none = row
later row (some other) = if precedes other row then row else other

-- ORDER BY created_at DESC, id DESC LIMIT 1
unfoldable pub latest : List ForensicAuditEvent → Option ForensicAuditEvent
unfolding precedes
latest [] = none
latest (row ∷ table) = some (later row (latest table))

abbrev pub insert_row : ForensicAuditEvent → List ForensicAuditEvent → List ForensicAuditEvent
insert_row row [] = row ∷ []
insert_row row (other ∷ table) =
    let rest = insert_row row table in
    if precedes other row then other ∷ rest else row ∷ other ∷ table

-- ORDER BY created_at ASC, id ASC, in `QueryChronologicalForensic` of pkg/log/service.go.
unfoldable pub query_chronological : List ForensicAuditEvent → List ForensicAuditEvent
unfolding precedes
query_chronological [] = []
query_chronological (row ∷ table) = insert_row row (query_chronological table)

abbrev pub genesis_block : Str
genesis_block = str "genesis_block"

abbrev pub prev_id : Option ForensicAuditEvent → Str
prev_id none = genesis_block
prev_id (some row) = if is_empty row.id then genesis_block else row.id

-- INSERT of a row with a primary key; the error of a key that exists is not looked at.
unfoldable pub insert : ForensicAuditEvent → List ForensicAuditEvent → List ForensicAuditEvent
unfolding str_eq
insert row table = if any (λ r. str_eq r.id row.id) table then table else table ++ row ∷ []

-- What `LogForensic` fills in before the write is queued.
unfoldable pub fill : Str → ℕ → ForensicAuditEvent → ForensicAuditEvent
unfolding str
fill uuid now event = record {
  id = if is_empty event.id then str "log_" ++ uuid else event.id;
  version = if is_empty event.version then str "2" else event.version;
  created_at = if event.created_at == 0 then now else event.created_at;
  workspace_id = event.workspace_id;
  project_id = event.project_id;
  event = event.event;
  snapshot = event.snapshot;
  enforcement = event.enforcement;
  resolution = event.resolution;
  chain_hash = event.chain_hash;
  synced = event.synced;
}

abbrev pub with_hash : Str → ForensicAuditEvent → ForensicAuditEvent
with_hash hash event = record {
  id = event.id;
  version = event.version;
  created_at = event.created_at;
  workspace_id = event.workspace_id;
  project_id = event.project_id;
  event = event.event;
  snapshot = event.snapshot;
  enforcement = event.enforcement;
  resolution = event.resolution;
  chain_hash = hash;
  synced = false;
}

module _ (hash : Str → Str) (format : ℕ → Str) where
  unfoldable pub chain_hash_of : Str → ForensicAuditEvent → Str
  chain_hash_of prev event = hash (prev ++ event.id ++ format event.created_at)

  -- The queued write of `LogForensic`.
  unfoldable pub write_forensic :
      ForensicAuditEvent → List ForensicAuditEvent → List ForensicAuditEvent
  unfolding latest insert chain_hash_of str
  write_forensic event table =
      insert (with_hash (chain_hash_of (prev_id (latest table)) event) event) table

  unfoldable pub log_forensic :
      Str → ℕ → ForensicAuditEvent → List ForensicAuditEvent → List ForensicAuditEvent
  unfolding fill write_forensic
  log_forensic uuid now event table = write_forensic (fill uuid now event) table

  -- The loop of `VerifyChain` in pkg/log/service.go: the index of the first row that fails.
  unfoldable pub verify_from : Str → ℕ → List ForensicAuditEvent → Option ℕ
  unfolding chain_hash_of str_eq
  verify_from prev i [] = none
  verify_from prev i (entry ∷ logs) =
      let rest = verify_from entry.id (suc i) logs in
      if str_eq entry.chain_hash (chain_hash_of prev entry) then rest else some i

  unfoldable pub verify_chain : List ForensicAuditEvent → Option ℕ
  unfolding query_chronological verify_from str
  verify_chain table = verify_from genesis_block 0 (query_chronological table)
