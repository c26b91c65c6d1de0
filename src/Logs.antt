-- ===== src/Logs.antt =====
-- pkg/log/service.go: queries of the audit tables. A query is the condition that its text makes of the
-- filter, the order, and the page. The operator LIKE and the order of rows of the same time are the
-- database's, and arguments. A column that is NULL is not modelled: each row was inserted by the
-- program. The JSON functions of SQLite read the event that was written.
pub mod Answers
pub mod Matching
pub mod Pages
pub mod Records
use agentsecrets.Prelude.{
  ℕ, zero, suc, Bool, true, false, not, ◌&&◌, ◌||◌, Option, none, some, List, [], ◌∷◌, ◌++◌, ltb,
  leb, ◌==◌, map, if◌then◌else◌, is_empty, take, drop,
}
use agentsecrets.Text.{Str, str, str_eq}
use agentsecrets.Audit.{AgentIdentity}
use agentsecrets.AuditLog.{ForensicAuditEvent}
use agentsecrets.AuditLog.Syncing.{LegacyRow, identity_of}

-- An instant is a number of nanoseconds, 0 the zero time; a limit or an offset below 0 counts as 0.
pub record Filter : Type 0 where
  pub agent : Str
  pub token : Str
  pub identity : Str
  pub credential : Str
  pub domain : Str
  pub method : Str
  pub environment : Str
  pub status : ℕ
  pub status_class : Str
  pub failed : Bool
  pub blocked : Bool
  pub redacted : Bool
  pub project_id : Str
  pub workspace_id : Str
  pub since : ℕ
  pub until : ℕ
  pub limit : ℕ
  pub offset : ℕ
  pub exclude_management : Bool

-- `AND column = ?`, for a filter that is set.
unfoldable pub equals : Str → Str → Bool
unfolding str_eq
equals want column = is_empty want || str_eq column want

unfoldable pub is_anonymous : Str → Bool
unfolding str_eq str
is_anonymous agent =
    str_eq agent (str "anonymous")
    || str_eq agent (str "(anon)")
    || str_eq agent (str "(anonymous)")

unfoldable pub agent_matches : Str → Str → Bool
unfolding is_anonymous str_eq
agent_matches want column =
    is_empty want || str_eq column want || (is_anonymous want && is_empty column)

-- The clause of StatusClass; `is_blocked` is whether the row is of a blocked call.
unfoldable pub class_matches : Str → ℕ → Bool → Bool
unfolding str_eq str
class_matches class code is_blocked =
    if str_eq class (str "2xx")
    then leb 200 code && ltb code 300
    else if str_eq class (str "3xx")
    then leb 300 code && ltb code 400
    else if str_eq class (str "4xx")
    then leb 400 code && ltb code 500
    else if str_eq class (str "5xx")
    then leb 500 code && ltb code 600
    else if str_eq class (str "error")
    then leb 400 code || is_blocked
    else true

-- A query asks for every clause that its text has.
abbrev pub all_clauses : List Bool → Bool
all_clauses [] = true
all_clauses (clause ∷ clauses) = clause && all_clauses clauses

-- The clauses that both tables have, from Domain to the end of the text.
unfoldable pub column_clauses :
    Filter → Str → Str → ℕ → Bool → Bool → Str → Str → Str → ℕ → List Bool
unfolding equals class_matches
column_clauses f domain method code is_blocked is_redacted project workspace environment time =
    equals f.domain domain
    ∷ equals f.method method
    ∷ (f.status == 0 || code == f.status)
    ∷ class_matches f.status_class code is_blocked
    ∷ (not f.failed || (leb 400 code || is_blocked))
    ∷ (not f.blocked || is_blocked)
    ∷ (not f.redacted || is_redacted)
    ∷ equals f.project_id project
    ∷ equals f.workspace_id workspace
    ∷ equals f.environment environment
    ∷ (f.since == 0 || leb f.since time)
    ∷ (f.until == 0 || leb time f.until)
    ∷ []

unfoldable pub identity_matches : Str → Option AgentIdentity → Bool
unfolding equals str_eq str
identity_matches want none = is_empty want || str_eq want (str "anonymous")
identity_matches want (some agent) = equals want agent.identity_level

-- The WHERE clause of `QueryLocalForensic`.
unfoldable pub forensic_clauses : (Str → Str → Bool) → Filter → ForensicAuditEvent → List Bool
unfolding identity_of identity_matches agent_matches equals column_clauses str_eq str
forensic_clauses like f row =
    (not f.exclude_management || not (str_eq row.event.event_type (str "management")))
    ∷ agent_matches f.agent (identity_of row.event.agent_identity).0
    ∷ equals f.token (identity_of row.event.agent_identity).1
    ∷ identity_matches f.identity row.event.agent_identity
    ∷ (is_empty f.credential || like (str "%" ++ (f.credential ++ str "%")) row.event.key_name)
    ∷ column_clauses f row.event.domain row.event.method row.event.status_code
        (str_eq row.event.outcome (str "blocked")) (str_eq row.event.outcome (str "redacted"))
        row.project_id row.workspace_id row.event.environment row.created_at

-- The WHERE clause of `queryLocalLegacy`; `keys_json` is the column secret_keys of the row.
unfoldable pub legacy_clauses :
    (Str → Str → Bool) → (List Str → Str) → Filter → LegacyRow → List Bool
unfolding agent_matches equals column_clauses str_eq str
legacy_clauses like keys_json f row =
    (not f.exclude_management || not (str_eq row.identity_level (str "user")))
    ∷ agent_matches f.agent row.agent_id
    ∷ equals f.token row.token_id
    ∷ (equals f.identity row.identity_level
        || (str_eq f.identity (str "anonymous") && is_empty row.identity_level))
    ∷ (is_empty f.credential
        || like (str "%\"" ++ (f.credential ++ str "\"%")) (keys_json row.secret_keys))
    ∷ column_clauses f row.domain row.method row.status_code (str_eq row.status (str "BLOCKED"))
        row.redacted row.project_id row.workspace_id row.environment row.timestamp

module _ {ℓ} {A : Type ℓ} where
  unfoldable pub where_clause : (A → Bool) → List A → List A
  where_clause matches [] = []
  where_clause matches (row ∷ rows) =
      let rest = where_clause matches rows in if matches row then row ∷ rest else rest

  -- LIMIT and OFFSET
  unfoldable pub page : Filter → List A → List A
  page f rows = take (if f.limit == 0 then 50 else f.limit) (drop f.offset rows)

  -- ORDER BY … DESC is `order`.
  unfoldable pub query : (List A → List A) → (A → Bool) → Filter → List A → List A
  unfolding where_clause page
  query order matches f table = page f (order (where_clause matches table))

unfoldable pub query_local_forensic :
    (Str → Str → Bool)
    → (List ForensicAuditEvent → List ForensicAuditEvent)
    → Filter
    → List ForensicAuditEvent
    → List ForensicAuditEvent
unfolding query forensic_clauses
query_local_forensic like order f table =
    query order (λ row. all_clauses (forensic_clauses like f row)) f table

unfoldable pub query_local_legacy :
    (Str → Str → Bool)
    → (List Str → Str)
    → (List LegacyRow → List LegacyRow)
    → Filter
    → List LegacyRow
    → List LegacyRow
unfolding query legacy_clauses
query_local_legacy like keys_json order f table =
    query order (λ row. all_clauses (legacy_clauses like keys_json f row)) f table
