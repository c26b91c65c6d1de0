-- ===== src/Logs/Answers.antt =====
-- What a filter asks of a row, column by column.
use agentsecrets.Prelude.{
  ℕ, zero, suc, ◌≤◌, ◌<◌, ◌≡◌, ◌≢◌, ◌⊎◌, inl, inr, refl, Bool, true, false, not, ◌||◌, Option, none,
  some, List, [], ◌∷◌, ◌++◌, ◌==◌, leb, arith, get_elem?, Bool-cases, is_empty, sym, ◌&&◌, ltb,
  subst,
}
use agentsecrets.Text.{Str, str, str_eq}
use agentsecrets.Text.Laws.{str_eq_iff}
use agentsecrets.Audit.{AgentIdentity}
use agentsecrets.AuditLog.{ForensicAuditEvent}
use agentsecrets.AuditLog.Syncing.{identity_of}
use agentsecrets.Logs.{
  Filter, equals, column_clauses, all_clauses, forensic_clauses, is_anonymous, agent_matches,
  identity_matches, class_matches,
}

-- A column has the value that is asked for, if one is.
abbrev pub IsEqual : Str → Str → Type 0
IsEqual want column = (want ≡ []) ⊎ (column ≡ want)

-- The agent has the name that is asked for; a row without an agent is asked for by any of three words.
abbrev pub IsOfAgent : Str → Option AgentIdentity → Type 0
IsOfAgent want none =
    (want ≡ []) ⊎ ((want ≡ str "anonymous") ⊎ ((want ≡ str "(anon)") ⊎ (want ≡ str "(anonymous)")))
IsOfAgent want (some agent) =
    IsEqual want agent.token_name
    ⊎ ((agent.token_name ≡ [])
        × ((want ≡ str "anonymous") ⊎ ((want ≡ str "(anon)") ⊎ (want ≡ str "(anonymous)"))))

-- No row without an agent has a token.
abbrev pub IsOfToken : Str → Option AgentIdentity → Type 0
IsOfToken want none = want ≡ []
IsOfToken want (some agent) = IsEqual want agent.token_id

abbrev pub IsOfIdentity : Str → Option AgentIdentity → Type 0
IsOfIdentity want none = IsEqual want (str "anonymous")
IsOfIdentity want (some agent) = IsEqual want agent.identity_level

-- The status code is of the class, or of none where the class is not one of the five.
abbrev pub IsOfClass : Str → ℕ → Bool → Type 0
IsOfClass class code is_blocked =
    ((class ≢ str "2xx") ⊎ ((200 ≤ code) × (code < 300)))
    × ((class ≢ str "3xx") ⊎ ((300 ≤ code) × (code < 400)))
    × ((class ≢ str "4xx") ⊎ ((400 ≤ code) × (code < 500)))
    × ((class ≢ str "5xx") ⊎ ((500 ≤ code) × (code < 600)))
    × ((class ≢ str "error") ⊎ ((400 ≤ code) ⊎ (is_blocked ≡ true)))

-- What a filter asks of a row; `like` is the operator LIKE.
abbrev pub IsAnswer : (Str → Str → Bool) → Filter → ForensicAuditEvent → Type 0
IsAnswer like f row =
    IsOfAgent f.agent row.event.agent_identity
    × IsOfToken f.token row.event.agent_identity
    × IsOfIdentity f.identity row.event.agent_identity
    × ((f.credential ≡ [])
        ⊎ (like (str "%" ++ (f.credential ++ str "%")) row.event.key_name ≡ true))
    × IsOfClass f.status_class row.event.status_code (str_eq row.event.outcome (str "blocked"))
    × IsEqual f.domain row.event.domain
    × IsEqual f.method row.event.method
    × IsEqual f.project_id row.project_id
    × IsEqual f.workspace_id row.workspace_id
    × IsEqual f.environment row.event.environment
    × ((f.status ≡ 0) ⊎ (row.event.status_code ≡ f.status))
    × ((f.blocked ≡ false) ⊎ (row.event.outcome ≡ str "blocked"))
    × ((f.redacted ≡ false) ⊎ (row.event.outcome ≡ str "redacted"))
    × ((f.failed ≡ false) ⊎ ((row.event.outcome ≡ str "blocked") ⊎ (400 ≤ row.event.status_code)))
    × ((f.since ≡ 0) ⊎ (f.since ≤ row.created_at))
    × ((f.until ≡ 0) ⊎ (row.created_at ≤ f.until))
    × ((f.exclude_management ≡ false) ⊎ (str_eq row.event.event_type (str "management") ≡ false))

is_empty→[] : (s : Str) → is_empty s ≡ true → s ≡ []
is_empty→[] [] h = refl
is_empty→[] (c ∷ s) h = absurd (ground arith)

equals-IsEqual : (want column : Str) → equals want column ≡ true → IsEqual want column
unfolding equals
equals-IsEqual [] column h = inl refl
equals-IsEqual (c ∷ want) column h = inr ((str_eq_iff column (c ∷ want)).0 h)

clause_at :
    (n : ℕ) (clauses : List Bool) (clause : Bool)
    → all_clauses clauses ≡ true
    → get_elem? clauses n ≡ some clause
    → clause ≡ true
clause_at n [] clause h e = absurd (ground arith)
clause_at n (false ∷ clauses) clause h e = absurd (ground arith)
clause_at zero (true ∷ clauses) clause h e = ground arith
clause_at (suc n) (true ∷ clauses) clause h e = clause_at n clauses clause h e

unless : (want holds : Bool) → (not want || holds) ≡ true → (want ≡ false) ⊎ (holds ≡ true)
unless true holds h = inr h
unless false holds h = inl refl

when_text : (want : Bool) (s t : Str) → (not want || str_eq s t) ≡ true → (want ≡ false) ⊎ (s ≡ t)
when_text want s t h = ground (arith, unless want (str_eq s t) h, str_eq_iff s t)

status_is : (want code : ℕ) → (want == 0 || code == want) ≡ true → (want ≡ 0) ⊎ (code ≡ want)
status_is want code h = ground (arith, h)

failed_is :
    (want : Bool) (code : ℕ) (s t : Str)
    → (not want || (leb 400 code || str_eq s t)) ≡ true
    → (want ≡ false) ⊎ ((s ≡ t) ⊎ (400 ≤ code))
failed_is want code s t h = ground (arith, h, str_eq_iff s t)

since_is : (since time : ℕ) → (since == 0 || leb since time) ≡ true → (since ≡ 0) ⊎ (since ≤ time)
since_is since time h = ground (arith, h)

until_is : (until time : ℕ) → (until == 0 || leb time until) ≡ true → (until ≡ 0) ⊎ (time ≤ until)
until_is until time h = ground (arith, h)

managed : (exclude is : Bool) → (not exclude || not is) ≡ true → (exclude ≡ false) ⊎ (is ≡ false)
managed exclude is h = ground (arith, h)

or_of : (a b : Bool) → (a || b) ≡ true → (a ≡ true) ⊎ (b ≡ true)
or_of true b h = inl refl
or_of false b h = inr h

and_of : (a b : Bool) → (a && b) ≡ true → (a ≡ true) × (b ≡ true)
and_of true b h = (refl, h)
and_of false b h = absurd (ground arith)

anonymous_of :
    (want : Str)
    → is_anonymous want ≡ true
    → (want ≡ str "anonymous") ⊎ ((want ≡ str "(anon)") ⊎ (want ≡ str "(anonymous)"))
unfolding is_anonymous
anonymous_of want h = ground (
  arith,
  h,
  str_eq_iff want (str "anonymous"),
  str_eq_iff want (str "(anon)"),
  str_eq_iff want (str "(anonymous)"),
)

agent_cases :
    (want column : Str)
    → agent_matches want column ≡ true
    → (want ≡ [])
      ⊎ ((column ≡ want)
          ⊎ ((column ≡ [])
              × ((want ≡ str "anonymous") ⊎ ((want ≡ str "(anon)") ⊎ (want ≡ str "(anonymous)")))))
unfolding agent_matches
agent_cases want column h = elim (or_of _ _ h) [
  | inl named ↦ elim (or_of _ _ named) [
    | inl a ↦ inl (is_empty→[] want a)
    | inr b ↦ inr (inl ((str_eq_iff column want).0 b))
  ]
  | inr c ↦
      let (word, none_there) = and_of (is_anonymous want) (is_empty column) c in
      inr (inr (is_empty→[] column none_there, anonymous_of want word))
]

agent_is :
    (want : Str) (o : Option AgentIdentity)
    → agent_matches want (identity_of o).0 ≡ true
    → IsOfAgent want o
unfolding agent_matches identity_of
agent_is want none h = elim (agent_cases want [] h) [
  | inl e ↦ inl e
  | inr (inl e) ↦ inl (sym e)
  | inr (inr (e, word)) ↦ inr word
]
agent_is want (some agent) h = elim (agent_cases want agent.token_name h) [
  | inl e ↦ inl (inl e)
  | inr (inl e) ↦ inl (inr e)
  | inr (inr both) ↦ inr both
]

token_is :
    (want : Str) (o : Option AgentIdentity)
    → equals want (identity_of o).1 ≡ true
    → IsOfToken want o
unfolding identity_of
token_is [] none h = refl
token_is (c ∷ want) none h = elim (equals-IsEqual (c ∷ want) [] h) [ inl e ↦ e | inr e ↦ cc ]
token_is want (some agent) h = equals-IsEqual want agent.token_id h

identity_is :
    (want : Str) (o : Option AgentIdentity) → identity_matches want o ≡ true → IsOfIdentity want o
unfolding identity_matches
identity_is want none h = elim (or_of _ _ h) [
  | inl e ↦ inl (is_empty→[] want e)
  | inr e ↦ inr (sym ((str_eq_iff want (str "anonymous")).0 e))
]
identity_is want (some agent) h = equals-IsEqual want agent.identity_level h

credential_is :
    (want : Str) (holds : Bool) → (is_empty want || holds) ≡ true → (want ≡ []) ⊎ (holds ≡ true)
credential_is [] holds h = inl refl
credential_is (c ∷ want) holds h = inr h

within : (low high code : ℕ) → (leb low code && ltb code high) ≡ true → (low ≤ code) × (code < high)
within low high code h = ground (arith, h)

above : (low code : ℕ) (b : Bool) → (leb low code || b) ≡ true → (low ≤ code) ⊎ (b ≡ true)
above low code b h = ground (arith, h)

module _ (class : Str) (code : ℕ) (is_blocked : Bool)
    (h : class_matches class code is_blocked ≡ true) where
  -- A clause for the class of one name is what it asks for a filter of that name.
  class_named :
      (name : Str) (P : Type 0)
      → (class_matches name code is_blocked ≡ true → P)
      → (class ≢ name) ⊎ P
  class_named name P k = elim (Bool-cases (str_eq class name)) [
    | inl a ↦
        inr
          (k (subst (λ c. class_matches c code is_blocked ≡ true) ((str_eq_iff class name).0 a) h))
    | inr a ↦ inl (λ e. ground (arith, a, (str_eq_iff class name).1 e))
  ]

  class_is : IsOfClass class code is_blocked
  unfolding class_matches str_eq str
  class_is = (
    class_named (str "2xx") _ (within 200 300 code),
    class_named (str "3xx") _ (within 300 400 code),
    class_named (str "4xx") _ (within 400 500 code),
    class_named (str "5xx") _ (within 500 600 code),
    class_named (str "error") _ (above 400 code is_blocked),
  )

pub forensic_clauses-IsAnswer :
    (like : Str → Str → Bool) (f : Filter) (row : ForensicAuditEvent)
    → all_clauses (forensic_clauses like f row) ≡ true
    → IsAnswer like f row
unfolding forensic_clauses column_clauses
forensic_clauses-IsAnswer like f row h =
    let clauses = forensic_clauses like f row in
    (
      agent_is f.agent row.event.agent_identity (clause_at 1 clauses _ h refl),
      token_is f.token row.event.agent_identity (clause_at 2 clauses _ h refl),
      identity_is f.identity row.event.agent_identity (clause_at 3 clauses _ h refl),
      credential_is f.credential _ (clause_at 4 clauses _ h refl),
      class_is f.status_class row.event.status_code (str_eq row.event.outcome (str "blocked"))
          (clause_at 8 clauses _ h refl),
      equals-IsEqual f.domain row.event.domain (clause_at 5 clauses _ h refl),
      equals-IsEqual f.method row.event.method (clause_at 6 clauses _ h refl),
      equals-IsEqual f.project_id row.project_id (clause_at 12 clauses _ h refl),
      equals-IsEqual f.workspace_id row.workspace_id (clause_at 13 clauses _ h refl),
      equals-IsEqual f.environment row.event.environment (clause_at 14 clauses _ h refl),
      status_is f.status row.event.status_code (clause_at 7 clauses _ h refl),
      when_text f.blocked row.event.outcome (str "blocked") (clause_at 10 clauses _ h refl),
      when_text f.redacted row.event.outcome (str "redacted") (clause_at 11 clauses _ h refl),
      failed_is f.failed row.event.status_code row.event.outcome (str "blocked")
          (clause_at 9 clauses _ h refl),
      since_is f.since row.created_at (clause_at 15 clauses _ h refl),
      until_is f.until row.created_at (clause_at 16 clauses _ h refl),
      managed f.exclude_management (str_eq row.event.event_type (str "management"))
          (clause_at 0 clauses _ h refl),
    )
