-- ===== src/Secrets/Exchange.antt =====
-- pkg/secrets/secrets.go: `Get`, `List` and `Push`, between the keychain, the .env file and the cloud.
use agentsecrets.Prelude.{Option, none, some, List, [], ◌∷◌, ◌==◌, if◌then◌else◌}
use agentsecrets.Text.{Str}
use agentsecrets.Dotenv.{read_file}
use agentsecrets.Secrets.{
  SecretMetadata, Keychain, Local, Surroundings, SecretsError, encryption_failed, call_failed,
  decryption_failed, read_failed, save_cache,
}

-- The value, or the error.
pub data Answer : Type 0 where
  value : Str → Answer
  failed : SecretsError → Answer

-- What `Get` does with the plaintext of a value that the cloud sent.
abbrev pub keep : Surroundings → Str → Option Str → Local → Answer × Local
keep env key none state = (failed decryption_failed, state)
keep env key (some plaintext) state =
    (value plaintext, record state { keychain = env.store_secret key plaintext state.keychain })

abbrev pub ask_cloud : Surroundings → Str → Option Str → Local → Answer × Local
ask_cloud env key none state = (failed call_failed, state)
ask_cloud env key (some encrypted) state = keep env key (env.decrypt encrypted) state

abbrev pub or_cloud : Surroundings → Str → Option Str → Local → Answer × Local
or_cloud env key none state = ask_cloud env key (env.fetch key) state
or_cloud env key (some found) state = (value found, state)

-- Get: the keychain first.
unfoldable pub get_secret : Surroundings → Str → Local → Answer × Local
get_secret env key state = or_cloud env key (env.read_secret key state.keychain) state

-- ListForEnv
unfoldable pub list_for_env : Surroundings → Local → Option (List SecretMetadata) × Local
unfolding save_cache
list_for_env env state = elim env.list_secrets [
  | none ↦ (none, state)
  | some entries ↦ (some entries, save_cache env.writes_cache entries state)
]

abbrev pub with_entry :
    Str → Str → Option (List (Str × Str)) × Keychain → Option (List (Str × Str)) × Keychain
with_entry key encrypted (none, keychain) = (none, keychain)
with_entry key encrypted (some rest, keychain) = (some ((key, encrypted) ∷ rest), keychain)

-- The loop of `Push`: a value goes to the keychain once it is encrypted, and the loop leaves at the
-- first that is not.
unfoldable pub push_entries :
    Surroundings → List (Str × Str) → Keychain → Option (List (Str × Str)) × Keychain
push_entries env [] keychain = (some [], keychain)
push_entries env ((key, plaintext) ∷ secrets) keychain =
    let rest = push_entries env secrets (env.store_secret key plaintext keychain) in
    elim (env.encrypt plaintext) [
      | none ↦ (none, keychain)
      | some encrypted ↦ with_entry key encrypted rest
    ]

-- The local secrets that `Push` and `Diff` read.
unfoldable pub local_secrets : Surroundings → Local → Option (List (Str × Str))
unfolding read_file
local_secrets env state =
    if env.storage_mode == 1 then env.read_secrets state.keychain else read_file env.scan state.file

abbrev pub push_encrypted :
    Surroundings → Option (List (Str × Str)) → Local → Option SecretsError × Local
push_encrypted env none state = (some encryption_failed, state)
push_encrypted env (some encrypted) state =
    if env.accepts encrypted then (none, (list_for_env env state).1) else (some call_failed, state)

abbrev pub push_secrets :
    Surroundings → Option (List (Str × Str)) → Local → Option SecretsError × Local
push_secrets env none state = (some read_failed, state)
push_secrets env (some []) state = (none, state)
push_secrets env (some (entry ∷ secrets)) state =
    let (encrypted, keychain) = push_entries env (entry ∷ secrets) state.keychain in
    push_encrypted env encrypted (record state { keychain = keychain })

-- Push
unfoldable pub push : Surroundings → Local → Option SecretsError × Local
unfolding local_secrets push_entries list_for_env
push env state = push_secrets env (local_secrets env state) state
