-- ===== src/AuditLog/Tampering.antt =====
-- What `VerifyChain` finds when records are taken out of a chained table.
use agentsecrets.Prelude.{
  ℕ, zero, suc, ◌+◌, ◌≡◌, inl, inr, refl, true, false, none, some, List, [], ◌∷◌, ◌++◌, arith, All,
  Bool-cases, length, take, sym, ◌∙◌, append_cancel_right,
}
use agentsecrets.Text.{Str, str, str_eq, has_prefix}
use agentsecrets.Text.Laws.{str_eq_iff}
use agentsecrets.AuditLog.{
  ForensicAuditEvent, genesis_block, chain_hash_of, verify_from, verify_chain,
}
use agentsecrets.AuditLog.Chain.{
  IsLater, IsIncreasing, IsLogId, IsChained, last_id, query_chronological-increasing,
}

All-remove :
    (P : ForensicAuditEvent → Type 0) (xs : List ForensicAuditEvent) (r : ForensicAuditEvent)
    (ys : List ForensicAuditEvent)
    → All P (xs ++ r ∷ ys)
    → All P (xs ++ ys)
All-remove P [] r ys (h, hs) = hs
All-remove P (x ∷ xs) r ys (h, hs) = (h, All-remove P xs r ys hs)

All-at :
    (P : ForensicAuditEvent → Type 0) (xs : List ForensicAuditEvent) (r : ForensicAuditEvent)
    (ys : List ForensicAuditEvent)
    → All P (xs ++ r ∷ ys)
    → P r
All-at P [] r ys (h, hs) = h
All-at P (x ∷ xs) r ys (h, hs) = All-at P xs r ys hs

IsIncreasing-remove :
    (xs : List ForensicAuditEvent) (r : ForensicAuditEvent) (ys : List ForensicAuditEvent)
    → IsIncreasing (xs ++ r ∷ ys)
    → IsIncreasing (xs ++ ys)
IsIncreasing-remove [] r ys (h, hs) = hs
IsIncreasing-remove (x ∷ xs) r ys (h, hs) =
    (All-remove (IsLater x) xs r ys h, IsIncreasing-remove xs r ys hs)

last_id-fresh :
    (prev : Str) (xs : List ForensicAuditEvent) (r : ForensicAuditEvent)
    (ys : List ForensicAuditEvent)
    → IsIncreasing (xs ++ r ∷ ys)
    → str_eq prev r.id ≡ false
    → str_eq (last_id prev xs) r.id ≡ false
unfolding last_id
last_id-fresh prev [] r ys h new = new
last_id-fresh prev (x ∷ xs) r ys (h, hs) new =
    last_id-fresh x.id xs r ys hs (All-at (IsLater x) xs r ys h).1

All-take :
    (P : ForensicAuditEvent → Type 0) (n : ℕ) (xs : List ForensicAuditEvent)
    → All P xs
    → All P (take n xs)
All-take P zero xs h = tt
All-take P (suc n) [] h = tt
All-take P (suc n) (x ∷ xs) (h, hs) = (h, All-take P n xs hs)

IsIncreasing-take :
    (n : ℕ) (xs : List ForensicAuditEvent) → IsIncreasing xs → IsIncreasing (take n xs)
IsIncreasing-take zero xs h = tt
IsIncreasing-take (suc n) [] h = tt
IsIncreasing-take (suc n) (x ∷ xs) (h, hs) =
    (All-take (IsLater x) n xs h, IsIncreasing-take n xs hs)

genesis-fresh : (r : ForensicAuditEvent) → IsLogId r → str_eq genesis_block r.id ≡ false
unfolding has_prefix str str_eq
genesis-fresh r h = elim (Bool-cases (str_eq genesis_block r.id)) [
  | inl same ↦ absurd (ground (arith, (str_eq_iff genesis_block r.id).0 same))
  | inr other ↦ other
]

module _ (hash : Str → Str) (format : ℕ → Str) where
  verify_from-take :
      (n : ℕ) (prev : Str) (i : ℕ) (rows : List ForensicAuditEvent)
      → verify_from hash format prev i rows ≡ none
      → verify_from hash format prev i (take n rows) ≡ none
  unfolding verify_from
  verify_from-take zero prev i rows h = refl
  verify_from-take (suc n) prev i [] h = refl
  verify_from-take (suc n) prev i (row ∷ rows) h =
      ground (arith, verify_from-take n row.id (suc i) rows)

  -- Records cut off at the end of a chained table are not missed: what is left verifies.
  verify_chain-take :
      (n : ℕ) (table : List ForensicAuditEvent)
      → IsChained hash format table
      → verify_chain hash format (take n table) ≡ none
  unfolding verify_chain
  verify_chain-take n table (up, ids, ok) =
      rw (query_chronological-increasing (take n table) (IsIncreasing-take n table up))
        (verify_from-take n genesis_block 0 table ok)

  verify_from-first :
      (prev : Str) (i : ℕ) (row : ForensicAuditEvent) (rows : List ForensicAuditEvent)
      → verify_from hash format prev i (row ∷ rows) ≡ none
      → (str_eq row.chain_hash (chain_hash_of hash format prev row) ≡ true)
        × (verify_from hash format row.id (suc i) rows ≡ none)
  unfolding verify_from
  verify_from-first prev i row rows h =
      elim (Bool-cases (str_eq row.chain_hash (chain_hash_of hash format prev row))) [
        | inl a ↦ (a, ground (arith, h))
        | inr a ↦ absurd (ground (arith, h))
      ]

  -- The rows before the one that is taken out.
  verify_from-split :
      (prev : Str) (i j : ℕ) (xs ys zs : List ForensicAuditEvent)
      → j ≡ i + length xs
      → verify_from hash format prev i (xs ++ ys) ≡ none
      → (verify_from hash format (last_id prev xs) j ys ≡ none)
        × (verify_from hash format prev i (xs ++ zs)
            ≡ verify_from hash format (last_id prev xs) j zs)
  unfolding verify_from last_id
  verify_from-split prev i j [] ys zs e h = let same : j ≡ i = omega (arith, e) in rw same (h, refl)
  verify_from-split prev i j (x ∷ xs) ys zs e h =
      let (ok, rest) = verify_from-first prev i x (xs ++ ys) h in
      let (left, right) = verify_from-split x.id (suc i) j xs ys zs (omega (arith, e)) rest in
      (left, rw ok right)

  fails :
      ((a b : Str) → hash a ≡ hash b → a ≡ b)
      → (prev gone : Str) (i : ℕ) (next : ForensicAuditEvent) (after : List ForensicAuditEvent)
      → next.chain_hash ≡ chain_hash_of hash format gone next
      → str_eq prev gone ≡ false
      → verify_from hash format prev i (next ∷ after) ≡ some i
  unfolding verify_from chain_hash_of
  fails inj prev gone i next after linked new =
      elim (Bool-cases (str_eq next.chain_hash (chain_hash_of hash format prev next))) [
        | inl a ↦
            (let same : prev ≡ gone = append_cancel_right prev gone next.id (
                append_cancel_right (prev ++ next.id) (gone ++ next.id) (format next.created_at)
                  (inj _ _ (sym ((str_eq_iff _ _).0 a) ∙ linked))) in
              absurd (ground (arith, new, str_eq_iff prev gone)))
        | inr a ↦ rw a refl
      ]

  -- A record taken out of a chained table, at any place but its end, is found: the check fails at the
  -- record that stood after it. Two texts are to have the same hash only when they are the same.
  pub verify_chain-removed :
      ((a b : Str) → hash a ≡ hash b → a ≡ b)
      → (before : List ForensicAuditEvent) (gone next : ForensicAuditEvent)
        (after : List ForensicAuditEvent)
      → IsChained hash format (before ++ gone ∷ next ∷ after)
      → verify_chain hash format (before ++ next ∷ after) ≡ some (length before)
  unfolding verify_chain
  verify_chain-removed inj before gone next after (up, ids, ok) =
      rw
        (query_chronological-increasing (before ++ next ∷ after)
          (IsIncreasing-remove before gone (next ∷ after) up))
        (let (rest, same) =
            verify_from-split genesis_block 0 (length before) before (gone ∷ next ∷ after)
              (next ∷ after) (omega arith) ok in
          let (first, second) =
            verify_from-first (last_id genesis_block before) (length before) gone (next ∷ after)
              rest in
          let (linked, third) = verify_from-first gone.id (suc (length before)) next after second in
          same
          ∙ fails inj (last_id genesis_block before) gone.id (length before) next after
              ((str_eq_iff _ _).0 linked)
              (last_id-fresh genesis_block before gone (next ∷ after) up
                (genesis-fresh gone (All-at IsLogId before gone (next ∷ after) ids))))
