-- ===== src/AuditLog/Syncing/Draining.antt =====
-- Repeated syncs, and which rows they mark.
use agentsecrets.Prelude.{
  ℕ, zero, suc, ◌-◌, ◌≤◌, ◌≡◌, inl, inr, refl, Bool, true, List, [], ◌∷◌, ◌++◌, arith, All,
  if◌then◌else◌, is_empty, any, Bool-cases, map, ap, sym,
}
use agentsecrets.Text.{Str, str_eq}
use agentsecrets.Text.Laws.{str_eq_refl}
use agentsecrets.AuditLog.{ForensicAuditEvent}
use agentsecrets.AuditLog.Syncing.{
  LegacyRow, PushedLog, Database, Surroundings, unsynced, readable, mark, legacy_batch,
  forensic_batch, payload_of, set_legacy, set_forensic, map_legacy, map_forensic, mark_forensic,
  mark_batches, sync_unpushed_logs,
}

module _ {A : Type 0} (id : A → Str) (synced : A → Bool) (set : A → A) where
  unfoldable pub count_unsynced : List A → ℕ
  count_unsynced [] = 0
  count_unsynced (row ∷ table) =
      if synced row then count_unsynced table else suc (count_unsynced table)

  module _ (sets : (row : A) → synced (set row) ≡ true) where
    count_unsynced-mark :
        (ids : List Str) (table : List A)
        → count_unsynced (mark id set ids table) ≤ count_unsynced table
    unfolding count_unsynced mark
    count_unsynced-mark ids [] = ground arith
    count_unsynced-mark ids (row ∷ table) = ground (arith, count_unsynced-mark ids table, sets row)

    -- Every row that was picked has its id among the marked.
    count_unsynced-unsynced :
        (n : ℕ) (ids : List Str) (table : List A)
        → All (λ row. any (λ i. str_eq i (id row)) ids ≡ true) (unsynced synced n table)
        → count_unsynced (mark id set ids table) ≤ count_unsynced table - n
    unfolding count_unsynced mark unsynced
    count_unsynced-unsynced zero ids table h = ground (arith, count_unsynced-mark ids table)
    count_unsynced-unsynced (suc n) ids [] h = ground arith
    count_unsynced-unsynced (suc n) ids (row ∷ table) h = elim (Bool-cases (synced row)) [
      | inl a ↦ ground (arith, count_unsynced-unsynced (suc n) ids table, sets row)
      | inr a ↦ ground (arith, count_unsynced-unsynced n ids table, sets row)
    ]

  any_more : (i : Str) (p : Str → Bool) (ids : List Str) → any p ids ≡ true → any p (i ∷ ids) ≡ true
  any_more i p ids h = ground arith

  own_ids-more :
      (i : Str) (ids : List Str) (rows : List A)
      → All (λ row. any (λ j. str_eq j (id row)) ids ≡ true) rows
      → All (λ row. any (λ j. str_eq j (id row)) (i ∷ ids) ≡ true) rows
  own_ids-more i ids [] h = tt
  own_ids-more i ids (row ∷ rows) (h, hs) =
      (any_more i (λ j. str_eq j (id row)) ids h, own_ids-more i ids rows hs)

  own_ids : (rows : List A) → All (λ row. any (λ i. str_eq i (id row)) (map id rows) ≡ true) rows
  own_ids [] = tt
  own_ids (row ∷ rows) = (
    ground (arith, str_eq_refl (id row)),
    own_ids-more (id row) (map id rows) rows (own_ids rows),
  )

  readable-all :
      (reads : A → Bool) (rows : List A)
      → ((row : A) → reads row ≡ true)
      → readable reads rows ≡ rows
  unfolding readable
  readable-all reads [] h = refl
  readable-all reads (row ∷ rows) h = ground (arith, h row, readable-all reads rows h)

  mark-none : (table : List A) → mark id set [] table ≡ table
  unfolding mark
  mark-none [] = refl
  mark-none (row ∷ table) = ap (λ t. row ∷ t) (mark-none table)

  -- One pass over a table marks what it picks.
  pass-count :
      (reads : A → Bool) (table : List A)
      → ((row : A) → synced (set row) ≡ true)
      → ((row : A) → reads row ≡ true)
      → count_unsynced (mark id set (map id (readable reads (unsynced synced 100 table))) table)
        ≤ count_unsynced table - 100
  pass-count reads table sets h = rw (readable-all reads (unsynced synced 100 table) h) (
      count_unsynced-unsynced sets 100 (map id (unsynced synced 100 table)) table
        (own_ids (unsynced synced 100 table)))

-- Nothing outside the program fails: the session stands, every row can be read, the cloud takes what
-- it is sent, and the database its updates.
abbrev pub IsWorking : Surroundings → Type 0
IsWorking env =
    (env.has_client ≡ true)
    × (env.authenticated ≡ true)
    × ((row : LegacyRow) → env.reads_legacy row ≡ true)
    × ((row : ForensicAuditEvent) → env.reads_forensic row ≡ true)
    × ((logs : List PushedLog) → env.accepts logs ≡ true)
    × (env.marks_legacy ≡ true)
    × (env.marks_forensic ≡ true)

unfoldable pub legacy_left : Database → ℕ
unfolding count_unsynced
legacy_left db = count_unsynced (λ r. r.id) (λ r. r.synced) set_legacy db.legacy

unfoldable pub forensic_left : Database → ℕ
unfolding count_unsynced
forensic_left db = count_unsynced (λ r. r.id) (λ r. r.synced) set_forensic db.forensic

abbrev passed : Database → List LegacyRow → List ForensicAuditEvent → Database
passed db ls fs = record {
  legacy = mark (λ r. r.id) set_legacy (map (λ r. r.id) ls) db.legacy;
  forensic = mark (λ r. r.id) set_forensic (map (λ r. r.id) fs) db.forensic;
}

passed-none : (db : Database) → passed db [] [] ≡ db
passed-none db =
    rw
      (
        mark-none (λ r. r.id) (λ r. r.synced) set_legacy db.legacy,
        mark-none (λ r. r.id) (λ r. r.synced) set_forensic db.forensic,
      )
      refl

mark_batches-passed :
    (env : Surroundings) (db : Database) (ls : List LegacyRow) (fs : List ForensicAuditEvent)
    → env.marks_legacy ≡ true
    → env.marks_forensic ≡ true
    → (mark_batches env ls fs db).0 ≡ passed db ls fs
unfolding mark_batches mark_forensic
mark_batches-passed env db [] [] l f = sym (passed-none db)
mark_batches-passed env db [] (row ∷ fs) l f =
    rw (f, mark-none (λ r. r.id) (λ r. r.synced) set_legacy db.legacy) refl
mark_batches-passed env db (row ∷ ls) [] l f =
    rw (l, mark-none (λ r. r.id) (λ r. r.synced) set_forensic db.forensic) refl
mark_batches-passed env db (row ∷ ls) (other ∷ fs) l f = rw (l, f) refl

nothing_picked :
    {A B C : Type 0} (f : A → C) (g : B → C) (xs : List A) (ys : List B)
    → is_empty (map f xs ++ map g ys) ≡ true
    → (xs ≡ []) × (ys ≡ [])
nothing_picked f g [] [] h = (refl, refl)
nothing_picked f g [] (y ∷ ys) h = absurd (ground arith)
nothing_picked f g (x ∷ xs) ys h = absurd (ground arith)

sync-passed :
    (env : Surroundings) (db : Database)
    → IsWorking env
    → (sync_unpushed_logs env db).0 ≡ passed db (legacy_batch env db) (forensic_batch env db)
unfolding sync_unpushed_logs payload_of
sync-passed env db (client, session, reads_l, reads_f, takes, l, f) =
    elim (Bool-cases (is_empty (payload_of env db))) [
      | inl a ↦
          (let (no_legacy, no_forensic) =
              nothing_picked (map_legacy env.path_of) map_forensic (legacy_batch env db)
                (forensic_batch env db) a in
            rw (client, session, a, no_legacy, no_forensic) (sym (passed-none db)))
      | inr a ↦
          rw (client, session, a, takes (payload_of env db))
            (mark_batches-passed env db (legacy_batch env db) (forensic_batch env db) l f)
    ]

pub sync-left :
    (env : Surroundings) (db : Database)
    → IsWorking env
    → (legacy_left (sync_unpushed_logs env db).0 ≤ legacy_left db - 100)
      × (forensic_left (sync_unpushed_logs env db).0 ≤ forensic_left db - 100)
unfolding legacy_left forensic_left legacy_batch forensic_batch
sync-left env db w = rw (sync-passed env db w) (
  pass-count (λ r. r.id) (λ r. r.synced) set_legacy env.reads_legacy db.legacy (λ r. refl) w.2,
  pass-count (λ r. r.id) (λ r. r.synced) set_forensic env.reads_forensic db.forensic (λ r. refl)
      w.3,
)
