-- ===== src/Secrets/Storing.antt =====
-- What the operations on secrets leave behind in the .env file and in the cloud.
use agentsecrets.Prelude.{
  ◌≡◌, ◌⊎◌, inl, inr, refl, Bool, true, false, ◌||◌, Option, none, some, is_some, List, [], ◌∷◌,
  ◌==◌, arith, if◌then◌else◌, Bool-cases, ap, subst, sym, ◌∙◌, lookup_by,
}
use agentsecrets.Text.{Str, str_eq, lookup, put}
use agentsecrets.Text.Laws.{str_eq_iff}
use agentsecrets.Text.Maps.{lookup-put}
use agentsecrets.Dotenv.{
  Scanner, read_lines, update_lines, content_of, read_file, lines_of, update_file, write,
}
use agentsecrets.Dotenv.Reading.{or_else}
use agentsecrets.Dotenv.Merging.{IsWritable, read_lines-update_lines}
use agentsecrets.Capabilities.{SecretPolicy}
use agentsecrets.Secrets.{
  SecretMetadata, Local, Surroundings, SecretsError, encrypted_entry, encrypt_all, save_cache,
  write_local, store_encrypted, batch_set, pulled_entry, pull_entries,
}
use agentsecrets.Secrets.Diffing.{IsMap}

-- The list that the cloud answers, of the values that it was sent.
unfoldable pub listed : List (Str × Str) → List SecretMetadata
listed [] = []
listed ((key, value) ∷ encrypted) =
    record { key = key; value = value; policy = none } ∷ listed encrypted

abbrev pub find : Str → Option (List (Str × Str)) → Option Str
find key none = none
find key (some m) = lookup key m

-- The scanner gives every line of the file.
abbrev pub IsScanned : Scanner → Option Str → Type 0
IsScanned scan none = Unit
IsScanned scan (some content) = (scan content).1 ≡ true

find-read_file :
    (scan : Scanner) (file : Option Str) (key : Str)
    → IsScanned scan file
    → find key (read_file scan file) ≡ lookup key (read_lines (lines_of scan file) [])
unfolding read_file read_lines
find-read_file scan none key h = refl
find-read_file scan (some content) key h =
    ap (λ b. find key (if b then some (read_lines (scan content).0 []) else none)) h

-- The file that a write makes, where the scanner gives back the lines that were joined.
find-written :
    (scan : Scanner) (kv : List (Str × Str)) (file : Option Str) (key : Str)
    → IsWritable kv
    → IsScanned scan file
    → (lines : List Str) → lines ≡ update_lines false kv (lines_of scan file)
    → scan (content_of lines) ≡ (lines, true)
    → find key (read_file scan (some (update_file scan false kv file)))
      ≡ or_else (lookup key kv) (find key (read_file scan file))
unfolding update_file read_file
find-written scan kv file key w old lines e s =
    let joined : update_file scan false kv file ≡ content_of lines = ap content_of (sym e) in
    ap (λ c. find key (read_file scan (some c))) joined
    ∙ ap (λ (ls, ok). find key (if ok then some (read_lines ls []) else none)) s
    ∙ ap (λ ls. lookup key (read_lines ls [])) e
    ∙ read_lines-update_lines kv (lines_of scan file) key w
    ∙ ap (or_else (lookup key kv)) (sym (find-read_file scan file key old))

abbrev or_rest : List (Str × Str) → Option (List (Str × Str)) → List (Str × Str)
or_rest rest none = rest
or_rest rest (some other) = other

encrypted_entry-parts :
    (key : Str) (o : Option Str) (p : Option (List (Str × Str))) (encrypted : List (Str × Str))
    → encrypted_entry key o p ≡ some encrypted
    → (e : Str) × (rest : List (Str × Str)) × (o ≡ some e)
      × (p ≡ some rest)
      × ((key, e) ∷ rest ≡ encrypted)
encrypted_entry-parts key none p encrypted h = absurd (ground arith)
encrypted_entry-parts key (some e) none encrypted h = absurd (ground arith)
encrypted_entry-parts key (some e) (some rest) encrypted h =
    (e, rest, refl, refl, ap (or_rest []) h)

pulled :
    (same : Bool) (v : Str) (later before : Option Str)
    → (same ≡ true → later ≡ none)
    → or_else later (if same then some v else before)
      ≡ or_else (if same then some v else later) before
pulled true v later before h = rw (h refl) refl
pulled false v later before h = refl

module _ (decrypt : Str → Option Str) (encrypt : Str → Option Str)
    (opens : (v e : Str) → encrypt v ≡ some e → decrypt e ≡ some v) where
  lookup-pull_entries :
      (key : Str) (kv encrypted : List (Str × Str)) (secrets : List (Str × Str))
      (policies : List (Str × Option SecretPolicy))
      → IsMap kv
      → encrypt_all encrypt kv ≡ some encrypted
      → lookup key (pull_entries decrypt none (listed encrypted) (secrets, policies)).0
        ≡ or_else (lookup key kv) (lookup key secrets)
  unfolding pull_entries encrypt_all listed lookup_by
  lookup-pull_entries key [] encrypted secrets policies m h =
      ap (λ l. lookup key (pull_entries decrypt none (listed l) (secrets, policies)).0)
        (sym (ap (or_rest []) h))
  lookup-pull_entries key ((k, v) ∷ kv) encrypted secrets policies (new, m) h =
      let (e, rest, one, more, all) =
        encrypted_entry-parts k (encrypt v) (encrypt_all encrypt kv) encrypted h in
      ap (λ l. lookup key (pull_entries decrypt none (listed l) (secrets, policies)).0) (sym all)
      ∙ ap
          (λ o.
            lookup key
              (pull_entries decrypt none (listed rest) (
                pulled_entry (record { key = k; value = e; policy = none }) o
                  (secrets, policies))).0)
          (opens v e one)
      ∙ lookup-pull_entries key kv rest (put k v secrets) (put k none policies) m more
      ∙ ap (or_else (lookup key kv)) (lookup-put k key v secrets)
      ∙ pulled (str_eq k key) v (lookup key kv) (lookup key secrets)
          (λ same. subst (λ j. lookup j kv ≡ none) ((str_eq_iff k key).0 same) new)

or_else-none : (o : Option Str) → or_else o none ≡ o
or_else-none none = refl
or_else-none (some s) = refl

-- What a project's secrets are after they were encrypted, kept by the cloud and pulled whole is what
-- they were: decryption is to give back what was encrypted, and no key to stand twice.
pub pull_entries-encrypt_all :
    (decrypt encrypt : Str → Option Str) (key : Str) (kv encrypted : List (Str × Str))
    → ((v e : Str) → encrypt v ≡ some e → decrypt e ≡ some v)
    → IsMap kv
    → encrypt_all encrypt kv ≡ some encrypted
    → lookup key (pull_entries decrypt none (listed encrypted) ([], [])).0 ≡ lookup key kv
unfolding lookup_by
pull_entries-encrypt_all decrypt encrypt key kv encrypted opens m h =
    lookup-pull_entries decrypt encrypt opens key kv encrypted [] [] m h
    ∙ or_else-none (lookup key kv)

save_cache-file :
    (works : Bool) (entries : List SecretMetadata) (state : Local)
    → (save_cache works entries state).file ≡ state.file
unfolding save_cache
save_cache-file true entries state = refl
save_cache-file false entries state = refl

-- An operation that answers no error has written the file.
abbrev IsWritten :
    Surroundings → List (Str × Str) → Option Str → Option SecretsError × Local → Type 0
IsWritten env kv file (error, after) =
    (is_some error ≡ true) ⊎ (after.file ≡ write env.scan env.storage_mode kv file)

write_local-file :
    (env : Surroundings) (kv encrypted : List (Str × Str)) (state : Local)
    → IsWritten env kv state.file (write_local env kv encrypted state)
unfolding write_local
write_local-file env kv encrypted state =
    elim (Bool-cases (env.writes_file || env.storage_mode == 1)) [
      | inl a ↦ rw a (inr (save_cache-file env.writes_cache _ _))
      | inr a ↦ rw a (inl refl)
    ]

store_encrypted-file :
    (env : Surroundings) (kv : List (Str × Str)) (o : Option (List (Str × Str))) (state : Local)
    → IsWritten env kv state.file (store_encrypted env kv o state)
unfolding store_encrypted
store_encrypted-file env kv none state = inl refl
store_encrypted-file env kv (some encrypted) state = elim (Bool-cases (env.accepts encrypted)) [
  | inl b ↦ rw b (
      write_local-file env kv encrypted
        (record state { keychain = env.store_batch kv [] state.keychain }))
  | inr b ↦ rw b (inl refl)
]

-- After a `BatchSet` that answers no error, outside storage mode 1, the .env file reads as a map in
-- which the new secrets stand over the old ones. The keys are to be names of variables and the values
-- plain, and the scanner is to give the lines of the old file and those that are written.
pub batch_set-read_file :
    (env : Surroundings) (kv : List (Str × Str)) (state : Local) (key : Str)
    → (batch_set env kv state).0 ≡ none
    → (env.storage_mode == 1) ≡ false
    → IsWritable kv
    → IsScanned env.scan state.file
    → env.scan (content_of (update_lines false kv (lines_of env.scan state.file)))
      ≡ (update_lines false kv (lines_of env.scan state.file), true)
    → find key (read_file env.scan (batch_set env kv state).1.file)
      ≡ or_else (lookup key kv) (find key (read_file env.scan state.file))
unfolding batch_set write
batch_set-read_file env kv state key ok mode w old s =
    elim (store_encrypted-file env kv (encrypt_all env.encrypt kv) state) [
      | inl failed ↦ absurd (ground (arith, sym (ap is_some ok) ∙ failed))
      | inr made ↦
          ap (λ f. find key (read_file env.scan f))
            (made
              ∙ ap (λ b. if b then state.file else some (update_file env.scan false kv state.file))
                  mode)
          ∙ find-written env.scan kv state.file key w old
              (update_lines false kv (lines_of env.scan state.file)) refl s
    ]
