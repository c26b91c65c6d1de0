-- ===== src/AuditLog/Syncing/Reports.antt =====
-- What an entry of the payload of a sync tells of the record that it was made from.
use agentsecrets.Prelude.{
  ℕ, zero, suc, ◌≡◌, ◌≢◌, ◌⊎◌, inl, inr, refl, Bool, Option, none, some, List, [], ◌∷◌, ◌++◌, arith,
  All, Some, Bool-cases, ap, sym, ◌∙◌, get_elem?, subst,
}
use agentsecrets.Text.{str, str_eq}
use agentsecrets.Text.Laws.{str_eq_iff}
use agentsecrets.Audit.{AgentIdentity}
use agentsecrets.AuditLog.{ForensicAuditEvent}
use agentsecrets.AuditLog.Syncing.{
  PushedLog, PushedError, map_forensic, identity_of, error_of, unsynced, readable,
}

abbrev pub or_first {ℓ} : {A : Type ℓ} → A → Option A → A
or_first a none = a
or_first a (some b) = b

-- The IDs are the keys of the table: no two rows have the same.
abbrev pub IsKeyed : List ForensicAuditEvent → Type 0
IsKeyed [] = Unit
IsKeyed (row ∷ table) = All (λ other. other.id ≢ row.id) table × IsKeyed table

-- What the cloud is told of the agent of a call.
abbrev pub IsToldAgent : Option AgentIdentity → PushedLog → Type 0
IsToldAgent none p = (p.agent_id ≡ []) × (p.token_id ≡ []) × (p.identity_level ≡ str "anonymous")
IsToldAgent (some agent) p =
    (p.agent_id ≡ agent.token_name)
    × (p.token_id ≡ agent.token_id)
    × (p.identity_level ≡ agent.identity_level)

-- What the cloud is told of a denial: the layer that decided, of a blocked call and of no other.
abbrev pub IsToldError : ForensicAuditEvent → PushedLog → Type 0
IsToldError row p =
    ((row.event.outcome ≡ str "blocked")
      × ((e : PushedError) × (p.error ≡ some e)
          × (e.decision ≡ row.enforcement.decision)
          × (e.decided_by ≡ row.enforcement.decided_by)
          × (e.first_failure ≡ row.enforcement.first_failure_layer)))
    ⊎ ((row.event.outcome ≢ str "blocked") × (p.error ≡ none))

-- An entry of the payload tells of this record: who called what with which credential, when, from
-- which project, and how it ended.
abbrev pub IsReport : ForensicAuditEvent → PushedLog → Type 0
IsReport row p =
    (p.id ≡ row.id)
    × (p.schema_version ≡ 2)
    × (p.timestamp ≡ row.created_at)
    × (p.environment ≡ row.event.environment)
    × (p.workspace_id ≡ row.workspace_id)
    × (p.project_id ≡ row.project_id)
    × IsToldAgent row.event.agent_identity p
    × (p.credential_ref ≡ row.event.key_name)
    × (p.injection_style ≡ row.resolution.injection_style)
    × (p.target_domain ≡ row.event.domain)
    × (p.target_path ≡ row.event.path)
    × (p.target_url ≡ str "https://" ++ (p.target_domain ++ p.target_path))
    × (p.method ≡ row.event.method)
    × (p.status_code ≡ row.event.status_code)
    × (p.duration_ms ≡ row.event.latency_ms)
    × (p.redacted ≡ row.resolution.redaction_triggered)
    × (p.allowlist ≡ row.snapshot.allowlist)
    × IsToldError row p

map_forensic-IsToldAgent :
    (row : ForensicAuditEvent) (o : Option AgentIdentity)
    → row.event.agent_identity ≡ o
    → IsToldAgent o (map_forensic row)
unfolding map_forensic identity_of
map_forensic-IsToldAgent row none e =
    (ap (λ a. (identity_of a).0) e, ap (λ a. (identity_of a).1) e, ap (λ a. (identity_of a).2) e)
map_forensic-IsToldAgent row (some agent) e =
    (ap (λ a. (identity_of a).0) e, ap (λ a. (identity_of a).1) e, ap (λ a. (identity_of a).2) e)

map_forensic-IsToldError : (row : ForensicAuditEvent) → IsToldError row (map_forensic row)
unfolding map_forensic error_of
map_forensic-IsToldError row = elim (Bool-cases (str_eq row.event.outcome (str "blocked"))) [
  | inl a ↦
      inl ((str_eq_iff row.event.outcome (str "blocked")).0 a, (_, rw a refl, refl, refl, refl))
  | inr a ↦
      inr ((λ e. ground (arith, a, (str_eq_iff row.event.outcome (str "blocked")).1 e)), rw a refl)
]

pub map_forensic-IsReport : (row : ForensicAuditEvent) → IsReport row (map_forensic row)
unfolding map_forensic
map_forensic-IsReport row = (
  refl,
  refl,
  refl,
  refl,
  refl,
  refl,
  map_forensic-IsToldAgent row row.event.agent_identity refl,
  refl,
  refl,
  refl,
  refl,
  refl,
  refl,
  refl,
  refl,
  refl,
  refl,
  map_forensic-IsToldError row,
)

All-map :
    {A : Type 0} {P Q : A → Type 0} → ((x : A) → P x → Q x) → (xs : List A) → All P xs → All Q xs
All-map f [] h = tt
All-map f (x ∷ xs) (h, hs) = (f x h, All-map f xs hs)

All-at :
    {A : Type 0} (P : A → Type 0) (i : ℕ) (xs : List A) (x : A)
    → All P xs
    → get_elem? xs i ≡ some x
    → P x
All-at P i [] x h e = absurd (ground arith)
All-at P zero (y ∷ ys) x (h, hs) e = subst P (ap (or_first y) e) h
All-at P (suc i) (y ∷ ys) x (h, hs) e = All-at P i ys x hs e

pub keyed :
    (i : ℕ) (table : List ForensicAuditEvent) (old : ForensicAuditEvent)
    → IsKeyed table
    → get_elem? table i ≡ some old
    → All (λ row. (row.id ≢ old.id) ⊎ (row ≡ old)) table
keyed i [] old k h = tt
keyed zero (row ∷ table) old (new, k) h =
    let same : row ≡ old = ap (or_first row) h in
    (inr same, All-map (λ other d. inl (λ e. d (e ∙ sym (ap (λ r. r.id) same)))) table new)
keyed (suc i) (row ∷ table) old (new, k) h = (
  inl (λ e. All-at (λ other. other.id ≢ row.id) i table old new h (sym e)),
  keyed i table old k h,
)

module _ {A : Type 0} (P : A → Type 0) where
  pub All-unsynced :
      (synced : A → Bool) (n : ℕ) (table : List A) → All P table → All P (unsynced synced n table)
  unfolding unsynced
  All-unsynced synced zero table h = tt
  All-unsynced synced (suc n) [] h = tt
  All-unsynced synced (suc n) (row ∷ table) (h, hs) = elim (Bool-cases (synced row)) [
    | inl a ↦ rw a (All-unsynced synced (suc n) table hs)
    | inr a ↦ rw a (h, All-unsynced synced n table hs)
  ]

  pub All-readable : (reads : A → Bool) (rows : List A) → All P rows → All P (readable reads rows)
  unfolding readable
  All-readable reads [] h = tt
  All-readable reads (row ∷ rows) (h, hs) = elim (Bool-cases (reads row)) [
    | inl a ↦ rw a (h, All-readable reads rows hs)
    | inr a ↦ rw a (All-readable reads rows hs)
  ]

pub Some-same :
    (old : ForensicAuditEvent) (rows : List ForensicAuditEvent)
    → All (λ row. (row.id ≢ old.id) ⊎ (row ≡ old)) rows
    → Some (λ row. row.id ≡ old.id) rows
    → Some (λ row. row ≡ old) rows
Some-same old [] h s = elim s [ ]
Some-same old (row ∷ rows) (inl d, hs) (inl e) = absurd (d e)
Some-same old (row ∷ rows) (inr same, hs) (inl e) = inl same
Some-same old (row ∷ rows) (h, hs) (inr s) = inr (Some-same old rows hs s)
