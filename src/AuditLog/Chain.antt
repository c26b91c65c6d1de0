-- ===== src/AuditLog/Chain.antt =====
-- The hash chain of the forensic records: what writing keeps of it, and what a check of it finds.
use agentsecrets.Prelude.{
  ℕ, suc, ◌≡◌, inl, inr, refl, true, false, none, List, [], ◌∷◌, ◌++◌, arith, All, if◌then◌else◌,
  is_empty, any, Bool-cases, ap, sym, ◌∙◌, subst, All-append,
}
use agentsecrets.Text.{Str, str, str_eq, has_prefix}
use agentsecrets.Text.Laws.{str_eq_iff}
use agentsecrets.AuditLog.{
  ForensicAuditEvent, str_ltb, precedes, later, latest, insert_row, query_chronological,
  genesis_block, prev_id, insert, chain_hash_of, write_forensic, with_hash, verify_from,
  verify_chain,
}

str_ltb-asym : (s t : Str) → str_ltb s t ≡ true → str_ltb t s ≡ false
unfolding str_ltb
str_ltb-asym [] [] h = refl
str_ltb-asym (x ∷ s) [] h = ground arith
str_ltb-asym [] (y ∷ t) h = refl
str_ltb-asym (x ∷ s) (y ∷ t) h = ground (arith, str_ltb-asym s t)

precedes-asym : (a b : ForensicAuditEvent) → precedes a b ≡ true → precedes b a ≡ false
unfolding precedes
precedes-asym a b h = ground (arith, str_ltb-asym a.id b.id)

-- One record comes after another, under an id of its own.
abbrev pub IsLater : ForensicAuditEvent → ForensicAuditEvent → Type 0
IsLater a b = (precedes a b ≡ true) × (str_eq a.id b.id ≡ false)

abbrev pub IsIncreasing : List ForensicAuditEvent → Type 0
IsIncreasing [] = Unit
IsIncreasing (row ∷ rows) = All (IsLater row) rows × IsIncreasing rows

-- The ids that the program makes.
abbrev pub IsLogId : ForensicAuditEvent → Type 0
IsLogId row = has_prefix row.id (str "log_") ≡ true

not_empty : (s : Str) → has_prefix s (str "log_") ≡ true → is_empty s ≡ false
unfolding has_prefix str
not_empty [] h = absurd (ground arith)
not_empty (c ∷ s) h = refl

later-All :
    (P : ForensicAuditEvent → Type 0) (row : ForensicAuditEvent) (rows : List ForensicAuditEvent)
    → P row
    → All P rows
    → P (later row (latest rows))
unfolding latest
later-All P row [] p h = p
later-All P row (other ∷ rows) p (q, h) =
    elim (Bool-cases (precedes (later other (latest rows)) row)) [
      | inl a ↦ subst P (sym (ap (λ b. if b then row else later other (latest rows)) a)) p
      | inr a ↦
          subst P (sym (ap (λ b. if b then row else later other (latest rows)) a))
            (later-All P other rows q h)
    ]

unfoldable pub last_id : Str → List ForensicAuditEvent → Str
last_id prev [] = prev
last_id prev (row ∷ rows) = last_id row.id rows

prev_id-latest :
    (rows : List ForensicAuditEvent)
    → IsIncreasing rows
    → All IsLogId rows
    → prev_id (latest rows) ≡ last_id genesis_block rows
unfolding latest last_id
prev_id-latest [] h n = refl
prev_id-latest (row ∷ []) h n = rw (not_empty row.id n.0) refl
prev_id-latest (row ∷ other ∷ rows) (h, hs) (n, ns) =
    let inside = later-All (IsLater row) other rows h.0 h.1 in
    let after = precedes-asym row (later other (latest rows)) inside.0 in
    rw after (prev_id-latest (other ∷ rows) hs ns)

insert_row-first :
    (row : ForensicAuditEvent) (rows : List ForensicAuditEvent)
    → All (IsLater row) rows
    → insert_row row rows ≡ row ∷ rows
insert_row-first row [] h = refl
insert_row-first row (other ∷ rows) (h, hs) = rw (precedes-asym row other h.0) refl

pub query_chronological-increasing :
    (rows : List ForensicAuditEvent) → IsIncreasing rows → query_chronological rows ≡ rows
unfolding query_chronological
query_chronological-increasing [] h = refl
query_chronological-increasing (row ∷ rows) (h, hs) =
    ap (insert_row row) (query_chronological-increasing rows hs) ∙ insert_row-first row rows h

module _ (hash : Str → Str) (format : ℕ → Str) where
  verify_from-append :
      (prev : Str) (i : ℕ) (rows : List ForensicAuditEvent) (entry : ForensicAuditEvent)
      → verify_from hash format prev i rows ≡ none
      → entry.chain_hash ≡ chain_hash_of hash format (last_id prev rows) entry
      → verify_from hash format prev i (rows ++ entry ∷ []) ≡ none
  unfolding verify_from last_id
  verify_from-append prev i [] entry h e =
      ground (arith, str_eq_iff entry.chain_hash (chain_hash_of hash format prev entry))
  verify_from-append prev i (row ∷ rows) entry h e =
      ground (arith, verify_from-append row.id (suc i) rows entry)

  -- The records of a table stand in the order of their times, under different ids that the program
  -- made, and each has the hash of the one before it.
  abbrev pub IsChained : List ForensicAuditEvent → Type 0
  IsChained table =
      IsIncreasing table
      × All IsLogId table
      × (verify_from hash format genesis_block 0 table ≡ none)

  pub verify_chain-IsChained :
      (table : List ForensicAuditEvent) → IsChained table → verify_chain hash format table ≡ none
  unfolding verify_chain
  verify_chain-IsChained table (up, ids, ok) = rw (query_chronological-increasing table up) ok

IsIncreasing-append :
    (table : List ForensicAuditEvent) (row : ForensicAuditEvent)
    → IsIncreasing table
    → All (λ r. IsLater r row) table
    → IsIncreasing (table ++ row ∷ [])
IsIncreasing-append [] row h n = (tt, tt)
IsIncreasing-append (r ∷ table) row (h, hs) (n, ns) =
    (All-append (IsLater r) table (row ∷ []) h (n, tt), IsIncreasing-append table row hs ns)

-- A record is later than every record of the table.
abbrev pub IsNext : List ForensicAuditEvent → ForensicAuditEvent → Type 0
IsNext table event = All (λ row. IsLater row event) table

any_same :
    (table : List ForensicAuditEvent) (event : ForensicAuditEvent)
    → IsNext table event
    → any (λ r. str_eq r.id event.id) table ≡ false
any_same [] event h = refl
any_same (row ∷ table) event (h, hs) = ground (arith, any_same table event hs)

insert-next :
    (row : ForensicAuditEvent) (table : List ForensicAuditEvent)
    → IsNext table row
    → insert row table ≡ table ++ row ∷ []
unfolding insert
insert-next row table h = rw (any_same table row h) refl

-- The writes of several records, one after another.
abbrev pub write_all :
    (Str → Str)
    → (ℕ → Str)
    → List ForensicAuditEvent
    → List ForensicAuditEvent
    → List ForensicAuditEvent
write_all hash format [] table = table
write_all hash format (event ∷ events) table =
    write_all hash format events (write_forensic hash format event table)

module _ (hash : Str → Str) (format : ℕ → Str) where
  -- A record that comes after every record of a chained table, under an id of its own that the
  -- program made, leaves the table chained, and `VerifyChain` finds no fault in what then stands
  -- there.
  pub write_forensic-IsChained :
      (event : ForensicAuditEvent) (table : List ForensicAuditEvent)
      → IsChained hash format table
      → IsNext table event
      → IsLogId event
      → IsChained hash format (write_forensic hash format event table)
        × (verify_chain hash format (write_forensic hash format event table) ≡ none)
  unfolding write_forensic
  write_forensic-IsChained event table (up, ids, ok) next named =
      let row = with_hash (chain_hash_of hash format (prev_id (latest table)) event) event in
      let chained : IsChained hash format (table ++ row ∷ []) = (
        IsIncreasing-append table row up next,
        All-append IsLogId table (row ∷ []) ids (named, tt),
        verify_from-append hash format genesis_block 0 table row ok
            (ap (λ prev. chain_hash_of hash format prev event) (prev_id-latest table up ids)),
      ) in
      subst (λ t. IsChained hash format t × (verify_chain hash format t ≡ none))
        (sym (insert-next row table next)) (chained, verify_chain-IsChained hash format _ chained)
