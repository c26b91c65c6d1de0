-- ===== src/Secrets/Failing.antt =====
-- What operations on secrets that fail leave behind.
use agentsecrets.Prelude.{
  ◌≡◌, ◌⊎◌, inl, inr, refl, ◌||◌, Bool, true, false, Option, none, some, List, [], ◌∷◌, ◌==◌,
  Bool-cases, is_some, not, arith,
}
use agentsecrets.Text.{Str}
use agentsecrets.Secrets.{
  Local, Surroundings, SecretsError, file_failed, encrypt_all, write_local, store_encrypted,
  batch_set, cuts_file, delete_secret,
}
use agentsecrets.Secrets.Exchange.{push, push_secrets, push_encrypted, push_entries, local_secrets}

-- Apart from the keychain, two states are the same.
abbrev pub IsUntouched : Local → Local → Type 0
IsUntouched old new = (new.file ≡ old.file) × (new.cache ≡ old.cache)

-- The write of the .env file has failed, outside storage mode 1 and after the cloud took the change;
-- the cache is as it was.
abbrev pub IsLate : Surroundings → Bool → Local → SecretsError → Local → Type 0
IsLate env took old e new =
    (e ≡ file_failed)
    × (env.writes_file ≡ false)
    × ((env.storage_mode == 1) ≡ false)
    × (took ≡ true)
    × (new.cache ≡ old.cache)

-- What an operation may answer, from a state; `took` is whether the cloud took the change.
abbrev pub IsKept : Surroundings → Bool → Local → Option SecretsError × Local → Type 0
IsKept env took state (none, after) = took ≡ true
IsKept env took state (some e, after) = IsUntouched state after ⊎ IsLate env took state e after

-- Whether the cloud takes what was encrypted.
abbrev pub is_taken : Surroundings → Option (List (Str × Str)) → Bool
is_taken env none = false
is_taken env (some encrypted) = env.accepts encrypted

or-false : (a b : Bool) → (a || b) ≡ false → (a ≡ false) × (b ≡ false)
or-false true b h = absurd (ground arith)
or-false false b h = (refl, h)

module _ (env : Surroundings) (state : Local) where
  write_local-IsKept :
      (kv encrypted : List (Str × Str)) (before : Local)
      → IsUntouched state before
      → IsKept env true state (write_local env kv encrypted before)
  unfolding write_local
  write_local-IsKept kv encrypted before (file, cache) =
      elim (Bool-cases (env.writes_file || env.storage_mode == 1)) [
        | inl a ↦ rw a refl
        | inr a ↦
            let (w, m) = or-false env.writes_file (env.storage_mode == 1) a in
            rw a (inr (refl, w, m, refl, cache))
      ]

  store_encrypted-IsKept :
      (kv : List (Str × Str)) (o : Option (List (Str × Str)))
      → IsKept env (is_taken env o) state (store_encrypted env kv o state)
  unfolding store_encrypted
  store_encrypted-IsKept kv none = inl (refl, refl)
  store_encrypted-IsKept kv (some encrypted) = elim (Bool-cases (env.accepts encrypted)) [
    | inl a ↦ rw a (write_local-IsKept kv encrypted _ (refl, refl))
    | inr a ↦ rw a (inl (refl, refl))
  ]

  delete_secret-IsKept :
      (key : Str) → IsKept env (env.deletes key) state (delete_secret env key state)
  unfolding delete_secret
  delete_secret-IsKept key = elim (Bool-cases (env.deletes key)) [
    | inl a ↦ elim (Bool-cases (cuts_file env state.file)) [
      | inl b ↦ rw (a, b) refl
      | inr b ↦
          let (w, rest) =
            or-false env.writes_file (env.storage_mode == 1 || not (is_some state.file)) b in
          let (m, there) = or-false (env.storage_mode == 1) (not (is_some state.file)) rest in
          rw (a, b) (inr (refl, w, m, refl, refl))
    ]
    | inr a ↦ rw a (inl (refl, refl))
  ]

  push_encrypted-IsUntouched :
      (o : Option (List (Str × Str))) (before : Local)
      → IsUntouched state before
      → ((push_encrypted env o before).0 ≡ none) ⊎ IsUntouched state (push_encrypted env o before).1
  push_encrypted-IsUntouched none before h = inr h
  push_encrypted-IsUntouched (some encrypted) before h = elim (Bool-cases (env.accepts encrypted)) [
    | inl a ↦ rw a (inl refl)
    | inr a ↦ rw a (inr h)
  ]

  push_secrets-IsUntouched :
      (o : Option (List (Str × Str)))
      → ((push_secrets env o state).0 ≡ none) ⊎ IsUntouched state (push_secrets env o state).1
  push_secrets-IsUntouched none = inr (refl, refl)
  push_secrets-IsUntouched (some []) = inl refl
  push_secrets-IsUntouched (some (entry ∷ secrets)) =
      push_encrypted-IsUntouched (push_entries env (entry ∷ secrets) state.keychain).0 _
        (refl, refl)

-- A `BatchSet` or a `Delete` answers no error only if the cloud took the change. One that fails, and
-- a `Push` that fails, leaves the .env file and the cache as they were, but for a failing write of the
-- file, which comes after the cloud has taken the change, outside storage mode 1 and never in a
-- `Push`: then the cache is as it was, and the file may not be.
pub failed-IsKept :
    (env : Surroundings) (kv : List (Str × Str)) (key : Str) (state : Local)
    → IsKept env (is_taken env (encrypt_all env.encrypt kv)) state (batch_set env kv state)
      × IsKept env (env.deletes key) state (delete_secret env key state)
      × (((push env state).0 ≡ none) ⊎ IsUntouched state (push env state).1)
unfolding push batch_set
failed-IsKept env kv key state = (
  store_encrypted-IsKept env state kv (encrypt_all env.encrypt kv),
  delete_secret-IsKept env state key,
  push_secrets-IsUntouched env state (local_secrets env state),
)
