-- ===== src/Logs/Pages.antt =====
-- What a query answers: rows that match, a page at a time.
use agentsecrets.Prelude.{
  Some, subst, ltb, ==_iff, ◌⊎◌, refl, false, ℕ, zero, suc, ◌+◌, ◌≤◌, ◌<◌, ◌≡◌, inl, inr, Bool,
  true, List, [], ◌∷◌, ◌++◌, ◌==◌, arith, All, if◌then◌else◌, take, drop, length, Bool-cases, ap,
  sym, ◌∙◌,
}
use agentsecrets.Text.{Str}
use agentsecrets.AuditLog.{ForensicAuditEvent}
use agentsecrets.Logs.Matching.{IsAnswer-forensic_clauses}
use agentsecrets.Logs.Answers.{IsAnswer, forensic_clauses-IsAnswer}
use agentsecrets.Logs.{
  Filter, column_clauses, all_clauses, forensic_clauses, where_clause, page, query,
  query_local_forensic,
}

ltb-true : (a b : ℕ) → ltb a b ≡ true → a < b
ltb-true a b h = ground (arith, h)

ltb-false : (a b : ℕ) → ltb a b ≡ false → b ≤ a
ltb-false a b h = ground (arith, h)

-- An order of the rows holds the rows that there are, and no others.
abbrev pub IsOrder : {A : Type 0} → (List A → List A) → Type 1
IsOrder {A = A} order =
    (P : A → Type 0) (rows : List A)
    → (All P rows → All P (order rows)) × (Some P rows → Some P (order rows))

module _ {A : Type 0} (P : A → Type 0) where
  All-take : (n : ℕ) (xs : List A) → All P xs → All P (take n xs)
  All-take zero xs h = tt
  All-take (suc n) [] h = tt
  All-take (suc n) (x ∷ xs) (h, hs) = (h, All-take n xs hs)

  All-drop : (n : ℕ) (xs : List A) → All P xs → All P (drop n xs)
  All-drop zero xs h = h
  All-drop (suc n) [] h = tt
  All-drop (suc n) (x ∷ xs) (h, hs) = All-drop n xs hs

  where_clause-All :
      (matches : A → Bool) (rows : List A)
      → ((row : A) → matches row ≡ true → P row)
      → All P (where_clause matches rows)
  unfolding where_clause
  where_clause-All matches [] h = tt
  where_clause-All matches (row ∷ rows) h = elim (Bool-cases (matches row)) [
    | inl a ↦ rw a (h row a, where_clause-All matches rows h)
    | inr a ↦ rw a (where_clause-All matches rows h)
  ]

  query-All :
      (order : List A → List A) (matches : A → Bool) (f : Filter) (table : List A)
      → IsOrder order
      → ((row : A) → matches row ≡ true → P row)
      → All P (query order matches f table)
  unfolding query page
  query-All order matches f table o h =
      All-take (if f.limit == 0 then 50 else f.limit)
        (drop f.offset (order (where_clause matches table)))
        (All-drop f.offset (order (where_clause matches table))
          ((o P (where_clause matches table)).0 (where_clause-All matches table h)))

module _ {A : Type 0} where
  All-members :
      (P : A → Type 0) (rows : List A) → ((row : A) → Some (λ r. r ≡ row) rows → P row) → All P rows
  All-members P [] h = tt
  All-members P (row ∷ rows) h = (h row (inl refl), All-members P rows (λ other s. h other (inr s)))

  where_clause-Some :
      (matches : A → Bool) (row : A) (rows : List A)
      → matches row ≡ true
      → Some (λ r. r ≡ row) rows
      → Some (λ r. r ≡ row) (where_clause matches rows)
  unfolding where_clause
  where_clause-Some matches row [] m s = s
  where_clause-Some matches row (other ∷ rows) m (inl e) =
      rw (subst (λ r. matches r ≡ true) (sym e) m) (inl e)
  where_clause-Some matches row (other ∷ rows) m (inr s) = elim (Bool-cases (matches other)) [
    | inl a ↦ rw a (inr (where_clause-Some matches row rows m s))
    | inr a ↦ rw a (where_clause-Some matches row rows m s)
  ]

  take-all : (n : ℕ) (xs : List A) → length (take n xs) < n → take n xs ≡ xs
  take-all zero xs h = absurd (omega (arith, h))
  take-all (suc n) [] h = refl
  take-all (suc n) (x ∷ xs) h = ap (λ l. x ∷ l) (take-all n xs (omega (arith, h)))

  -- A page that starts with the first row and is not full holds every row that matches.
  query-Some :
      (order : List A → List A) (matches : A → Bool) (f : Filter) (table : List A) (row : A)
      → IsOrder order
      → f.offset ≡ 0
      → length (query order matches f table) < (if f.limit == 0 then 50 else f.limit)
      → matches row ≡ true
      → Some (λ r. r ≡ row) table
      → Some (λ r. r ≡ row) (query order matches f table)
  unfolding query page
  query-Some order matches f table row o z short m s =
      let limit = if f.limit == 0 then 50 else f.limit in
      let rows = order (where_clause matches table) in
      subst (Some (λ r. r ≡ row)) (sym (take-all limit (drop f.offset rows) short)) (
        subst (λ n. Some (λ r. r ≡ row) (drop n rows)) (sym z)
          ((o (λ r. r ≡ row) (where_clause matches table)).1
            (where_clause-Some matches row table m s)))

length-take : {A : Type 0} (n : ℕ) (xs : List A) → length (take n xs) ≤ n
length-take zero xs = omega arith
length-take (suc n) [] = omega arith
length-take (suc n) (x ∷ xs) = omega (arith, length-take n xs)

drop_at : {A : Type 0} (i j : ℕ) (xs : List A) → i ≡ j → drop i xs ≡ drop j xs
drop_at i j xs e = ap (λ n. drop n xs) e

take_at : {A : Type 0} (i j : ℕ) (xs : List A) → i ≡ j → take i xs ≡ take j xs
take_at i j xs e = ap (λ n. take n xs) e

drop-drop : {A : Type 0} (k n : ℕ) (xs : List A) → drop (k + n) xs ≡ drop n (drop k xs)
drop-drop zero n xs = drop_at (0 + n) n xs (omega arith)
drop-drop (suc k) zero [] = drop_at (suc k + 0) (suc k) [] (omega arith)
drop-drop (suc k) (suc n) [] = drop_at (suc k + suc n) (suc (k + suc n)) [] (omega arith)
drop-drop (suc k) n (x ∷ xs) =
    drop_at (suc k + n) (suc (k + n)) (x ∷ xs) (omega arith) ∙ drop-drop k n xs

take-split :
    {A : Type 0} (n m : ℕ) (xs : List A) → take n xs ++ take m (drop n xs) ≡ take (n + m) xs
take-split zero m xs = take_at m (0 + m) xs (omega arith)
take-split (suc n) zero [] = take_at (suc n) (suc n + 0) [] (omega arith)
take-split (suc n) (suc m) [] = take_at (suc (n + suc m)) (suc n + suc m) [] (omega arith)
take-split (suc n) m (x ∷ xs) =
    ap (λ l. x ∷ l) (take-split n m xs) ∙ take_at (suc (n + m)) (suc n + m) (x ∷ xs) (omega arith)

-- No row that the filter asks for is missing, unless the answer skips rows or is full.
abbrev pub IsWhole :
    (Str → Str → Bool) → Filter → List ForensicAuditEvent → List ForensicAuditEvent → Type 0
IsWhole like f table answer =
    (0 < f.offset)
    ⊎ (((if f.limit == 0 then 50 else f.limit) ≤ length answer)
        ⊎ All (λ row. (¬ IsAnswer like f row) ⊎ Some (λ r. r ≡ row) answer) table)

query_local_forensic-IsWhole :
    (like : Str → Str → Bool) (order : List ForensicAuditEvent → List ForensicAuditEvent)
    (f : Filter) (table : List ForensicAuditEvent)
    → IsOrder order
    → IsWhole like f table (query_local_forensic like order f table)
unfolding query_local_forensic
query_local_forensic-IsWhole like order f table o =
    let matches = λ (row : ForensicAuditEvent). all_clauses (forensic_clauses like f row) in
    let limit = if f.limit == 0 then 50 else f.limit in
    elim (Bool-cases (f.offset == 0)) [
      | inr a ↦ inl (ground arith)
      | inl z ↦ elim (Bool-cases (ltb (length (query order matches f table)) limit)) [
        | inr b ↦ inr (inl (ltb-false (length (query order matches f table)) limit b))
        | inl short ↦ inr (
            inr (
              All-members _ table (λ row s. elim (Bool-cases (matches row)) [
                | inl m ↦ inr (
                    query-Some order matches f table row o ((==_iff f.offset 0).0 z)
                      (ltb-true (length (query order matches f table)) limit short) m s)
                | inr m ↦ inl (λ ans. ground (arith, m, IsAnswer-forensic_clauses like f row ans))
              ])))
      ]
    ]

-- Every row that `QueryLocalForensic` answers has what the filter asks for in each of its columns
-- (agent, token, identity, credential, domain, method, status, class of status, outcome, project,
-- workspace, environment, time and kind of event), and there are no more of them than its limit, or
-- than 50 if it has none. No row of the table that has it all is missing, unless the answer is full or
-- the filter skips rows. The database's order is to keep the rows.
pub query_local_forensic-IsAnswer :
    (like : Str → Str → Bool) (order : List ForensicAuditEvent → List ForensicAuditEvent)
    (f : Filter) (table : List ForensicAuditEvent)
    → IsOrder order
    → All (IsAnswer like f) (query_local_forensic like order f table)
      × (length (query_local_forensic like order f table) ≤ (if f.limit == 0 then 50 else f.limit))
      × IsWhole like f table (query_local_forensic like order f table)
unfolding query_local_forensic query page
query_local_forensic-IsAnswer like order f table o = (
  query-All (IsAnswer like f) order (λ row. all_clauses (forensic_clauses like f row)) f table o
      (forensic_clauses-IsAnswer like f),
  length-take (if f.limit == 0 then 50 else f.limit) _,
  query_local_forensic-IsWhole like order f table o,
)

limit_of : (l : ℕ) → 0 < l → (if l == 0 then 50 else l) ≡ l
limit_of l h = ground (arith, h)

paged :
    {A : Type 0} (n m k : ℕ)
    → 0 < n
    → 0 < m
    → (rows : List A)
    → take (if n == 0 then 50 else n) (drop k rows)
        ++ take (if m == 0 then 50 else m) (drop (k + n) rows)
      ≡ take (if n + m == 0 then 50 else n + m) (drop k rows)
paged n m k p q rows =
    ap (λ l. take l (drop k rows) ++ take (if m == 0 then 50 else m) (drop (k + n) rows))
      (limit_of n p)
    ∙ ap (λ l. take n (drop k rows) ++ take l (drop (k + n) rows)) (limit_of m q)
    ∙ ap (λ l. take n (drop k rows) ++ take m l) (drop-drop k n rows)
    ∙ take-split n m (drop k rows)
    ∙ ap (λ l. take l (drop k rows)) (sym (limit_of (n + m) (omega (arith, p))))

-- Two pages, the second from where the first ends, are the one page of both lengths: no row is missed
-- between them and none comes twice.
query_local_forensic-pages :
    (like : Str → Str → Bool) (order : List ForensicAuditEvent → List ForensicAuditEvent)
    (f : Filter) (table : List ForensicAuditEvent) (n m k : ℕ)
    → query_local_forensic like order (record f { limit = suc n; offset = k }) table
        ++ query_local_forensic like order (record f { limit = suc m; offset = k + suc n }) table
      ≡ query_local_forensic like order (record f { limit = suc n + suc m; offset = k }) table
unfolding query_local_forensic query page forensic_clauses column_clauses
query_local_forensic-pages like order f table n m k =
    let rows = order (where_clause (λ row. all_clauses (forensic_clauses like f row)) table) in
    paged (suc n) (suc m) k (omega arith) (omega arith) rows
