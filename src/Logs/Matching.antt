-- ===== src/Logs/Matching.antt =====
-- A row that has what a filter asks for meets every clause of the query.
use agentsecrets.Prelude.{
  ℕ, ◌≤◌, ◌<◌, ◌≡◌, ◌≢◌, ◌⊎◌, inl, inr, refl, Bool, true, false, not, ◌&&◌, ◌||◌, Option, none,
  some, [], ◌∷◌, ◌==◌, leb, ltb, arith, Bool-cases, is_empty, sym, if◌then◌else◌,
}
use agentsecrets.Text.{Str, str, str_eq}
use agentsecrets.Text.Laws.{str_eq_iff}
use agentsecrets.Audit.{AgentIdentity}
use agentsecrets.AuditLog.{ForensicAuditEvent}
use agentsecrets.AuditLog.Syncing.{identity_of}
use agentsecrets.Logs.{
  Filter, equals, column_clauses, all_clauses, forensic_clauses, is_anonymous, agent_matches,
  identity_matches, class_matches,
}
use agentsecrets.Logs.Answers.{IsEqual, IsOfAgent, IsOfToken, IsOfIdentity, IsOfClass, IsAnswer}

both : (a b : Bool) → a ≡ true → b ≡ true → (a && b) ≡ true
both true b h k = k
both false b h k = absurd (ground arith)

or-left : (a b : Bool) → a ≡ true → (a || b) ≡ true
or-left true b h = refl
or-left false b h = absurd (ground arith)

or-right : (a b : Bool) → b ≡ true → (a || b) ≡ true
or-right true b h = refl
or-right false b h = h

not-or : (want b : Bool) → (want ≡ false) ⊎ (b ≡ true) → (not want || b) ≡ true
not-or true b h = ground (arith, h)
not-or false b h = refl

is_empty_of : (s : Str) → s ≡ [] → is_empty s ≡ true
is_empty_of [] h = refl
is_empty_of (c ∷ s) h = cc

equals_of : (want column : Str) → IsEqual want column → equals want column ≡ true
unfolding equals
equals_of want column (inl e) = or-left _ _ (is_empty_of want e)
equals_of want column (inr e) = or-right _ _ ((str_eq_iff column want).1 e)

is_anonymous_of :
    (want : Str)
    → (want ≡ str "anonymous") ⊎ ((want ≡ str "(anon)") ⊎ (want ≡ str "(anonymous)"))
    → is_anonymous want ≡ true
unfolding is_anonymous
is_anonymous_of want (inl e) = or-left _ _ (or-left _ _ ((str_eq_iff want (str "anonymous")).1 e))
is_anonymous_of want (inr (inl e)) =
    or-left _ _ (or-right _ _ ((str_eq_iff want (str "(anon)")).1 e))
is_anonymous_of want (inr (inr e)) = or-right _ _ ((str_eq_iff want (str "(anonymous)")).1 e)

agent_matches_of :
    (want : Str) (o : Option AgentIdentity)
    → IsOfAgent want o
    → agent_matches want (identity_of o).0 ≡ true
unfolding agent_matches identity_of
agent_matches_of want none (inl e) = or-left _ _ (or-left _ _ (is_empty_of want e))
agent_matches_of want none (inr word) = or-right _ _ (both _ _ (is_anonymous_of want word) refl)
agent_matches_of want (some agent) (inl (inl e)) = or-left _ _ (or-left _ _ (is_empty_of want e))
agent_matches_of want (some agent) (inl (inr e)) =
    or-left _ _ (or-right _ _ ((str_eq_iff agent.token_name want).1 e))
agent_matches_of want (some agent) (inr (e, word)) =
    or-right _ _ (both _ _ (is_anonymous_of want word) (is_empty_of agent.token_name e))

token_of :
    (want : Str) (o : Option AgentIdentity)
    → IsOfToken want o
    → equals want (identity_of o).1 ≡ true
unfolding identity_of
token_of want none e = equals_of want [] (inl e)
token_of want (some agent) e = equals_of want agent.token_id e

identity_matches_of :
    (want : Str) (o : Option AgentIdentity) → IsOfIdentity want o → identity_matches want o ≡ true
unfolding identity_matches
identity_matches_of want none (inl e) = or-left _ _ (is_empty_of want e)
identity_matches_of want none (inr e) = or-right _ _ ((str_eq_iff want (str "anonymous")).1 (sym e))
identity_matches_of want (some agent) e = equals_of want agent.identity_level e

credential_of :
    (want : Str) (holds : Bool) → (want ≡ []) ⊎ (holds ≡ true) → (is_empty want || holds) ≡ true
credential_of want holds (inl e) = or-left _ _ (is_empty_of want e)
credential_of want holds (inr e) = or-right _ _ e

module _ (class : Str) (code : ℕ) (is_blocked : Bool) where
  chosen :
      (name : Str) (P : Type 0) (x y : Bool)
      → (class ≢ name) ⊎ P
      → (P → x ≡ true)
      → y ≡ true
      → (if str_eq class name then x else y) ≡ true
  chosen name P x y h k rest = elim (Bool-cases (str_eq class name)) [
    | inl a ↦ rw a (elim h [ inl d ↦ absurd (d ((str_eq_iff class name).0 a)) | inr p ↦ k p ])
    | inr a ↦ rw a rest
  ]

  within_of : (low high : ℕ) → (low ≤ code) × (code < high) → (leb low code && ltb code high) ≡ true
  within_of low high (p, q) = ground (arith, p, q)

  above_of : (400 ≤ code) ⊎ (is_blocked ≡ true) → (leb 400 code || is_blocked) ≡ true
  above_of h = ground (arith, h)

  class_matches_of : IsOfClass class code is_blocked → class_matches class code is_blocked ≡ true
  unfolding class_matches
  class_matches_of (c2, c3, c4, c5, e) = chosen (str "2xx") _ _ _ c2 (within_of 200 300) (
      chosen (str "3xx") _ _ _ c3 (within_of 300 400) (
        chosen (str "4xx") _ _ _ c4 (within_of 400 500) (
          chosen (str "5xx") _ _ _ c5 (within_of 500 600)
            (chosen (str "error") _ _ _ e above_of refl))))

status_of : (want code : ℕ) → (want ≡ 0) ⊎ (code ≡ want) → (want == 0 || code == want) ≡ true
status_of want code h = ground (arith, h)

failed_of :
    (want : Bool) (code : ℕ) (s t : Str)
    → (want ≡ false) ⊎ ((s ≡ t) ⊎ (400 ≤ code))
    → (not want || (leb 400 code || str_eq s t)) ≡ true
failed_of want code s t h = ground (arith, h, str_eq_iff s t)

text_of : (want : Bool) (s t : Str) → (want ≡ false) ⊎ (s ≡ t) → (not want || str_eq s t) ≡ true
text_of want s t h = ground (arith, h, str_eq_iff s t)

since_of : (since time : ℕ) → (since ≡ 0) ⊎ (since ≤ time) → (since == 0 || leb since time) ≡ true
since_of since time h = ground (arith, h)

until_of : (until time : ℕ) → (until ≡ 0) ⊎ (time ≤ until) → (until == 0 || leb time until) ≡ true
until_of until time h = ground (arith, h)

managed_of : (want is : Bool) → (want ≡ false) ⊎ (is ≡ false) → (not want || not is) ≡ true
managed_of want is h = ground (arith, h)

pub IsAnswer-forensic_clauses :
    (like : Str → Str → Bool) (f : Filter) (row : ForensicAuditEvent)
    → IsAnswer like f row
    → all_clauses (forensic_clauses like f row) ≡ true
unfolding forensic_clauses column_clauses
IsAnswer-forensic_clauses like f row (a, t, i, cr, cl, d, m, p, w, en, st, bl, re, fa, si, un, ma) =
    both _ _ (managed_of f.exclude_management (str_eq row.event.event_type (str "management")) ma) (
      both _ _ (agent_matches_of f.agent row.event.agent_identity a) (
        both _ _ (token_of f.token row.event.agent_identity t) (
          both _ _ (identity_matches_of f.identity row.event.agent_identity i) (
            both _ _ (credential_of f.credential _ cr) (
              both _ _ (equals_of f.domain row.event.domain d) (
                both _ _ (equals_of f.method row.event.method m) (
                  both _ _ (status_of f.status row.event.status_code st) (
                    both _ _ (class_matches_of f.status_class row.event.status_code _ cl) (
                      both _ _
                        (failed_of f.failed row.event.status_code row.event.outcome (str "blocked")
                          fa)
                        (both _ _ (text_of f.blocked row.event.outcome (str "blocked") bl) (
                          both _ _ (text_of f.redacted row.event.outcome (str "redacted") re) (
                            both _ _ (equals_of f.project_id row.project_id p) (
                              both _ _ (equals_of f.workspace_id row.workspace_id w) (
                                both _ _ (equals_of f.environment row.event.environment en) (
                                  both _ _ (since_of f.since row.created_at si) (
                                    both _ _ (until_of f.until row.created_at un)
                                      refl))))))))))))))))
