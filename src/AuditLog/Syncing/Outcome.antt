-- ===== src/AuditLog/Syncing/Outcome.antt =====
-- What becomes of the rows: repeated syncs mark them all, and no row is marked that was not pushed.
use agentsecrets.Prelude.{
  ℕ, zero, suc, ◌*◌, ◌≤◌, ◌≡◌, ◌⊎◌, inl, inr, refl, Bool, true, false, not, ◌||◌, some, List, [],
  ◌∷◌, ◌++◌, arith, All, if◌then◌else◌, is_empty, any, Bool-cases, map, ap, sym, ◌∙◌, Some,
  get_elem?, subst,
}
use agentsecrets.Text.{Str, str_eq}
use agentsecrets.Text.Laws.{str_eq_iff}
use agentsecrets.AuditLog.{ForensicAuditEvent}
use agentsecrets.AuditLog.Syncing.{
  LegacyRow, Database, Surroundings, mark, legacy_batch, forensic_batch, payload_of, set_legacy,
  set_forensic, map_legacy, map_forensic, mark_forensic, mark_batches, sync_unpushed_logs,
}
use agentsecrets.AuditLog.Syncing.Reports.{
  or_first, IsKeyed, IsReport, map_forensic-IsReport, keyed, All-unsynced, All-readable, Some-same,
}
use agentsecrets.AuditLog.Syncing.Draining.{
  IsWorking, count_unsynced, legacy_left, forensic_left, sync-left,
}

-- Several syncs, one after another.
unfoldable pub sync_times : Surroundings → ℕ → Database → Database
unfolding sync_unpushed_logs
sync_times env zero db = db
sync_times env (suc n) db = sync_times env n (sync_unpushed_logs env db).0

count_unsynced-All :
    {A : Type 0} (id : A → Str) (synced : A → Bool) (set : A → A) (table : List A)
    → count_unsynced id synced set table ≤ 0
    → All (λ row. synced row ≡ true) table
unfolding count_unsynced
count_unsynced-All id synced set [] h = tt
count_unsynced-All id synced set (row ∷ table) h = elim (Bool-cases (synced row)) [
  | inl a ↦ (a, count_unsynced-All id synced set table (ground arith))
  | inr a ↦ absurd (ground arith)
]

-- While nothing outside the program fails, n syncs mark every row of two tables that have at most
-- 100 n unmarked rows each.
pub sync_times-drains :
    (env : Surroundings) (n : ℕ) (db : Database)
    → IsWorking env
    → legacy_left db ≤ 100 * n
    → forensic_left db ≤ 100 * n
    → All (λ row. row.synced ≡ true) (sync_times env n db).legacy
      × All (λ row. row.synced ≡ true) (sync_times env n db).forensic
unfolding sync_times legacy_left forensic_left
sync_times-drains env zero db w l f = (
  count_unsynced-All (λ r. r.id) (λ r. r.synced) set_legacy db.legacy l,
  count_unsynced-All (λ r. r.id) (λ r. r.synced) set_forensic db.forensic f,
)
sync_times-drains env (suc n) db w l f =
    let (l', f') = sync-left env db w in
    sync_times-drains env n (sync_unpushed_logs env db).0 w (omega (arith, l, l'))
      (omega (arith, f, f'))

module _ {A : Type 0} (id : A → Str) (synced : A → Bool) (set : A → A) where
  marked :
      (i : ℕ) (ids : List Str) (table : List A) (old new : A)
      → get_elem? table i ≡ some old
      → get_elem? (mark id set ids table) i ≡ some new
      → synced old ≡ false
      → synced new ≡ true
      → any (λ j. str_eq j (id old)) ids ≡ true
  unfolding mark
  marked i ids [] old new h k o n = absurd (ground arith)
  marked zero ids (row ∷ table) old new h k o n =
      let same : row ≡ old = ap (λ o. or_first row o) h in
      elim (Bool-cases (any (λ j. str_eq j (id row)) ids)) [
        | inl a ↦ subst (λ r. any (λ j. str_eq j (id r)) ids ≡ true) same a
        | inr a ↦
            (let kept : row ≡ new =
                ap (λ b. if b then set row else row) (sym a) ∙ ap (λ o. or_first row o) k in
              absurd (ground (arith, o, n, ap synced same, ap synced kept)))
      ]
  marked (suc i) ids (row ∷ table) old new h k o n = marked i ids table old new h k o n

  any_ids :
      (k : Str) (rows : List A)
      → any (λ j. str_eq j k) (map id rows) ≡ true
      → Some (λ row. id row ≡ k) rows
  any_ids k [] h = absurd (ground arith)
  any_ids k (row ∷ rows) h = ground (arith, any_ids k rows, str_eq_iff (id row) k)

Some-map :
    {A B : Type 0} (f : A → B) (P : A → Type 0) (Q : B → Type 0) (xs : List A)
    → ((x : A) → P x → Q (f x))
    → Some P xs
    → Some Q (map f xs)
Some-map f P Q [] h s = s
Some-map f P Q (x ∷ xs) h (inl s) = inl (h x s)
Some-map f P Q (x ∷ xs) h (inr s) = inr (Some-map f P Q xs h s)

Some-left : {A : Type 0} (P : A → Type 0) (xs ys : List A) → Some P xs → Some P (xs ++ ys)
Some-left P [] ys s = elim s [ ]
Some-left P (x ∷ xs) ys (inl s) = inl s
Some-left P (x ∷ xs) ys (inr s) = inr (Some-left P xs ys s)

Some-right : {A : Type 0} (P : A → Type 0) (xs ys : List A) → Some P ys → Some P (xs ++ ys)
Some-right P [] ys s = s
Some-right P (x ∷ xs) ys s = inr (Some-right P xs ys s)

forensic_marked :
    (env : Surroundings) (db : Database) (fs : List ForensicAuditEvent)
    → ((mark_forensic env fs db).0.forensic ≡ db.forensic)
      ⊎ ((mark_forensic env fs db).0.forensic
          ≡ mark (λ r. r.id) set_forensic (map (λ r. r.id) fs) db.forensic)
unfolding mark_forensic
forensic_marked env db [] = inl refl
forensic_marked env db (row ∷ fs) = elim (Bool-cases env.marks_forensic) [
  | inl a ↦ inr (rw a refl)
  | inr a ↦ inl (rw a refl)
]

batches_marked :
    (env : Surroundings) (db : Database) (ls : List LegacyRow) (fs : List ForensicAuditEvent)
    → ((mark_batches env ls fs db).0.forensic ≡ db.forensic)
      ⊎ ((mark_batches env ls fs db).0.forensic
          ≡ mark (λ r. r.id) set_forensic (map (λ r. r.id) fs) db.forensic)
unfolding mark_batches
batches_marked env db [] fs = forensic_marked env db fs
batches_marked env db (row ∷ ls) fs = elim (Bool-cases env.marks_legacy) [
  | inl a ↦ rw a (forensic_marked env _ fs)
  | inr a ↦ inl (rw a refl)
]

forensic_kept :
    (env : Surroundings) (db : Database) (fs : List ForensicAuditEvent)
    → (mark_forensic env fs db).0.legacy ≡ db.legacy
unfolding mark_forensic
forensic_kept env db [] = refl
forensic_kept env db (row ∷ fs) = elim (Bool-cases env.marks_forensic) [
  | inl a ↦ rw a refl
  | inr a ↦ rw a refl
]

legacy_marked :
    (env : Surroundings) (db : Database) (ls : List LegacyRow) (fs : List ForensicAuditEvent)
    → ((mark_batches env ls fs db).0.legacy ≡ db.legacy)
      ⊎ ((mark_batches env ls fs db).0.legacy
          ≡ mark (λ r. r.id) set_legacy (map (λ r. r.id) ls) db.legacy)
unfolding mark_batches
legacy_marked env db [] fs = inl (forensic_kept env db fs)
legacy_marked env db (row ∷ ls) fs = elim (Bool-cases env.marks_legacy) [
  | inl a ↦ inr (rw a (forensic_kept env _ fs))
  | inr a ↦ inl (rw a refl)
]

-- A sync leaves the database as it is, or the cloud has taken the payload.
sync-accepted :
    (env : Surroundings) (db : Database)
    → ((sync_unpushed_logs env db).0 ≡ db)
      ⊎ ((env.accepts (payload_of env db) ≡ true)
          × ((sync_unpushed_logs env db).0
              ≡ (mark_batches env (legacy_batch env db) (forensic_batch env db) db).0))
unfolding sync_unpushed_logs
sync-accepted env db = elim (Bool-cases (not env.has_client || not env.authenticated)) [
  | inl a ↦ inl (rw a refl)
  | inr a ↦ elim (Bool-cases (is_empty (payload_of env db))) [
    | inl b ↦ inl (rw (a, b) refl)
    | inr b ↦ elim (Bool-cases (env.accepts (payload_of env db))) [
      | inl c ↦ inr (c, rw (a, b, c) refl)
      | inr c ↦ inl (rw (a, b, c) refl)
    ]
  ]
]

-- The record that was marked is in the batch, and the payload tells of it.
reported :
    (env : Surroundings) (db : Database) (i : ℕ) (old : ForensicAuditEvent)
    → IsKeyed db.forensic
    → get_elem? db.forensic i ≡ some old
    → any (λ j. str_eq j old.id) (map (λ r. r.id) (forensic_batch env db)) ≡ true
    → Some (IsReport old) (payload_of env db)
unfolding payload_of forensic_batch
reported env db i old k at h =
    Some-right (IsReport old) (map (map_legacy env.path_of) (legacy_batch env db))
      (map map_forensic (forensic_batch env db))
      (Some-map map_forensic (λ r. r ≡ old) (IsReport old) (forensic_batch env db)
        (λ r e. subst (λ o. IsReport o (map_forensic r)) e (map_forensic-IsReport r))
        (Some-same old (forensic_batch env db)
          (All-readable _ env.reads_forensic _
            (All-unsynced _ (λ row. row.synced) 100 db.forensic (keyed i db.forensic old k at)))
          (any_ids (λ r. r.id) (λ r. r.synced) set_forensic old.id (forensic_batch env db) h)))

legacy_id :
    (env : Surroundings) (db : Database) (k : Str)
    → any (λ j. str_eq j k) (map (λ r. r.id) (legacy_batch env db)) ≡ true
    → Some (λ p. p.id ≡ k) (payload_of env db)
unfolding payload_of map_legacy
legacy_id env db k h =
    Some-left (λ p. p.id ≡ k) (map (map_legacy env.path_of) (legacy_batch env db))
      (map map_forensic (forensic_batch env db))
      (Some-map (map_legacy env.path_of) (λ r. r.id ≡ k) (λ p. p.id ≡ k) (legacy_batch env db)
        (λ r e. e) (any_ids (λ r. r.id) (λ r. r.synced) set_legacy k (legacy_batch env db) h))

unchanged :
    {A : Type 0} (synced : A → Bool) (i : ℕ) (table same : List A) (old new : A)
    → same ≡ table
    → get_elem? table i ≡ some old
    → get_elem? same i ≡ some new
    → synced old ≡ false
    → synced new ≡ true
    → ⊥
unchanged synced i table same old new e h k o n =
    let equal : old ≡ new = ap (or_first old) (sym h ∙ ap (λ t. get_elem? t i) (sym e) ∙ k) in
    ground (arith, o, n, ap synced equal)

-- A forensic record that a sync marks as synced was in what the sync pushed, in an entry that tells
-- the cloud its ID, time, agent, credential, target, status and denial, and the cloud took it. The IDs
-- of the table are to be different.
pub sync_marks_pushed :
    (env : Surroundings) (db : Database) (i : ℕ) (old new : ForensicAuditEvent)
    → IsKeyed db.forensic
    → get_elem? db.forensic i ≡ some old
    → get_elem? (sync_unpushed_logs env db).0.forensic i ≡ some new
    → old.synced ≡ false
    → new.synced ≡ true
    → (env.accepts (payload_of env db) ≡ true) × Some (IsReport old) (payload_of env db)
sync_marks_pushed env db i old new keys h k o n = elim (sync-accepted env db) [
  | inl same ↦
      absurd (unchanged (λ r. r.synced) i db.forensic _ old new (ap (λ d. d.forensic) same) h k o n)
  | inr (took, e) ↦ elim (batches_marked env db (legacy_batch env db) (forensic_batch env db)) [
    | inl same ↦
        absurd (
          unchanged (λ r. r.synced) i db.forensic _ old new (ap (λ d. d.forensic) e ∙ same) h k o n)
    | inr made ↦ (
      took,
      reported env db i old keys h (
          marked (λ r. r.id) (λ r. r.synced) set_forensic i _ db.forensic old new h
            (ap (λ t. get_elem? t i) (sym (ap (λ d. d.forensic) e ∙ made)) ∙ k) o n),
    )
  ]
]

-- A row of the older table that a sync marks as synced was in what the sync pushed, and the cloud
-- took it.
sync_marks_pushed_rows :
    (env : Surroundings) (db : Database) (i : ℕ) (old new : LegacyRow)
    → get_elem? db.legacy i ≡ some old
    → get_elem? (sync_unpushed_logs env db).0.legacy i ≡ some new
    → old.synced ≡ false
    → new.synced ≡ true
    → (env.accepts (payload_of env db) ≡ true) × Some (λ p. p.id ≡ old.id) (payload_of env db)
sync_marks_pushed_rows env db i old new h k o n = elim (sync-accepted env db) [
  | inl same ↦
      absurd (unchanged (λ r. r.synced) i db.legacy _ old new (ap (λ d. d.legacy) same) h k o n)
  | inr (took, e) ↦ elim (legacy_marked env db (legacy_batch env db) (forensic_batch env db)) [
    | inl same ↦
        absurd
          (unchanged (λ r. r.synced) i db.legacy _ old new (ap (λ d. d.legacy) e ∙ same) h k o n)
    | inr made ↦ (
      took,
      legacy_id env db old.id (
          marked (λ r. r.id) (λ r. r.synced) set_legacy i _ db.legacy old new h
            (ap (λ t. get_elem? t i) (sym (ap (λ d. d.legacy) e ∙ made)) ∙ k) o n),
    )
  ]
]
