-- ===== src/Logs/Records/Cloud.antt =====
-- What the cloud is sent of a row is what it gives back.
use agentsecrets.Prelude.{
  ℕ, ◌≡◌, refl, true, false, not, List, [], ◌∷◌, ◌++◌, arith, All, all, ◌==◌, if◌then◌else◌,
  is_empty, ap, ◌∙◌,
}
use agentsecrets.Text.{Str, str}
use agentsecrets.AuditLog.Syncing.{LegacyRow, join_comma, map_legacy}
use agentsecrets.Logs.Records.{ApiLogRow, split_comma, list_of, api_row_to_audit_event}

-- A name that can stand in a list of names: it has a byte, and no comma.
abbrev pub IsListable : Str → Type 0
IsListable s = (is_empty s ≡ false) × (all (λ c. not (c == b',')) s ≡ true)

split_comma-name :
    (s t : Str)
    → all (λ c. not (c == b',')) s ≡ true
    → split_comma (s ++ b',' ∷ t) ≡ s ∷ split_comma t
unfolding split_comma
split_comma-name [] t h = refl
split_comma-name (c ∷ s) t h = ground (arith, split_comma-name s t)

split_comma-last : (s : Str) → all (λ c. not (c == b',')) s ≡ true → split_comma s ≡ s ∷ []
unfolding split_comma
split_comma-last [] h = refl
split_comma-last (c ∷ s) h = ground (arith, split_comma-last s)

split_comma-join_comma :
    (name : Str) (names : List Str)
    → All IsListable (name ∷ names)
    → split_comma (join_comma (name ∷ names)) ≡ name ∷ names
unfolding join_comma str
split_comma-join_comma name [] ((n, ok), tt) = split_comma-last name ok
split_comma-join_comma name (next ∷ names) ((n, ok), hs) =
    split_comma-name name (join_comma (next ∷ names)) ok
    ∙ ap (λ l. name ∷ l) (split_comma-join_comma next names hs)

join_comma-first :
    (name : Str) (names : List Str)
    → is_empty name ≡ false
    → is_empty (join_comma (name ∷ names)) ≡ false
unfolding join_comma
join_comma-first [] names h = absurd (ground arith)
join_comma-first (c ∷ name) [] h = refl
join_comma-first (c ∷ name) (next ∷ names) h = refl

-- A list of names, kept as one text, is the list again when it is read: the names are to have a byte
-- and no comma.
pub list_of-join_comma :
    (names : List Str) → All IsListable names → list_of (join_comma names) ≡ names
unfolding list_of join_comma str
list_of-join_comma [] h = refl
list_of-join_comma (name ∷ names) ((n, ok), hs) =
    ap (λ b. if b then [] else split_comma (join_comma (name ∷ names)))
      (join_comma-first name names n)
    ∙ split_comma-join_comma name names ((n, ok), hs)

-- A call that is pushed to the cloud and read from there has the secrets' names and the ways of
-- injection that the local row has: the cloud is to give back the two texts that it was sent, and the
-- names to have a byte and no comma.
pub api_row_to_audit_event-map_legacy :
    (path_of : Str → Str) (parse_time : Str → ℕ) (row : LegacyRow) (r : ApiLogRow)
    → All IsListable row.secret_keys
    → All IsListable row.auth_styles
    → r.credential_ref ≡ (map_legacy path_of row).credential_ref
    → r.injection_style ≡ (map_legacy path_of row).injection_style
    → ((api_row_to_audit_event parse_time r).secret_keys ≡ row.secret_keys)
      × ((api_row_to_audit_event parse_time r).auth_styles ≡ row.auth_styles)
unfolding api_row_to_audit_event map_legacy
api_row_to_audit_event-map_legacy path_of parse_time row r keys styles k s = (
  ap list_of k ∙ list_of-join_comma row.secret_keys keys,
  ap list_of s ∙ list_of-join_comma row.auth_styles styles,
)
