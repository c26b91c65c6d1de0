-- ===== src/Secrets.antt =====
-- pkg/secrets/secrets.go: the operations on the secrets of one project and environment. What they
-- keep locally is a state: the keychain's values and policies, the .env file, the cache of what the
-- cloud holds. Encryption, the cloud, and whether the disk takes a write are arguments, and so is
-- what the keychain makes of a write. A write of the file that fails may have emptied it or written
-- a part: `leaves` is what it leaves of the old file and of the new. The project's configuration and
-- time stamps are left out.
pub mod Diffing
pub mod Exchange
pub mod Example
pub mod Storing
pub mod Failing
pub mod Sealing
use agentsecrets.Prelude.{
  ℕ, Bool, true, false, not, ◌&&◌, ◌||◌, Option, none, some, List, [], ◌∷◌, ◌==◌, if◌then◌else◌,
  is_empty, any, is_some,
}
use agentsecrets.Text.{Str, str_eq, lookup, put, remove}
use agentsecrets.Capabilities.{SecretPolicy}
use agentsecrets.Dotenv.{Scanner, write, delete}

pub record SecretMetadata : Type 0 where
  pub key : Str
  pub value : Str
  pub policy : Option SecretPolicy

pub record Keychain : Type 0 where
  pub secrets : List (Str × Str)
  pub policies : List (Str × Option SecretPolicy)

pub record Local : Type 0 where
  pub keychain : Keychain
  pub file : Option Str
  pub cache : Option (List SecretMetadata)

pub record Surroundings : Type 0 where
  pub encrypt : Str → Option Str
  pub decrypt : Str → Option Str
  pub store_batch : List (Str × Str) → List (Str × Option SecretPolicy) → Keychain → Keychain
  pub remove_secret : Str → Keychain → Keychain
  pub store_secret : Str → Str → Keychain → Keychain
  pub read_secret : Str → Keychain → Option Str
  pub read_secrets : Keychain → Option (List (Str × Str))
  pub accepts : List (Str × Str) → Bool
  pub fetch : Str → Option Str
  pub list_secrets : Option (List SecretMetadata)
  pub deletes : Str → Bool
  pub scan : Scanner
  pub storage_mode : ℕ
  pub writes_file : Bool
  pub leaves : Option Str → Option Str → Option Str
  pub writes_cache : Bool

pub data SecretsError : Type 0 where
  encryption_failed : SecretsError
  call_failed : SecretsError
  file_failed : SecretsError
  read_failed : SecretsError
  decryption_failed : SecretsError

abbrev encrypted_entry : Str → Option Str → Option (List (Str × Str)) → Option (List (Str × Str))
encrypted_entry key none rest = none
encrypted_entry key (some value) none = none
encrypted_entry key (some value) (some rest) = some ((key, value) ∷ rest)

-- apiSecrets; `none` is an encryption that failed.
unfoldable pub encrypt_all : (Str → Option Str) → List (Str × Str) → Option (List (Str × Str))
encrypt_all encrypt [] = some []
encrypt_all encrypt ((key, value) ∷ kv) =
    encrypted_entry key (encrypt value) (encrypt_all encrypt kv)

abbrev put_metadata : SecretMetadata → List SecretMetadata → List SecretMetadata
put_metadata entry [] = entry ∷ []
put_metadata entry (other ∷ entries) =
    let rest = put_metadata entry entries in
    if str_eq other.key entry.key then entry ∷ entries else other ∷ rest

abbrev put_encrypted : List (Str × Str) → List SecretMetadata → List SecretMetadata
put_encrypted [] entries = entries
put_encrypted ((key, value) ∷ encrypted) entries =
    put_encrypted encrypted
      (put_metadata (record { key = key; value = value; policy = none }) entries)

abbrev or_no_entries : Option (List SecretMetadata) → List SecretMetadata
or_no_entries none = []
or_no_entries (some entries) = entries

-- updateCacheAfterSetWithEncrypted; no key stands twice in a cache.
unfoldable pub update_cache_after_set :
    List (Str × Str) → Option (List SecretMetadata) → List SecretMetadata
unfolding str_eq
update_cache_after_set encrypted cache = put_encrypted encrypted (or_no_entries cache)

unfoldable pub without_key : Str → List SecretMetadata → List SecretMetadata
unfolding str_eq
without_key key [] = []
without_key key (entry ∷ entries) =
    let rest = without_key key entries in if str_eq entry.key key then rest else entry ∷ rest

unfoldable pub save_cache : Bool → List SecretMetadata → Local → Local
save_cache works entries state = if works then record state { cache = some entries } else state

-- Steps 4 and 5 of `BatchSet`.
unfoldable pub write_local :
    Surroundings → List (Str × Str) → List (Str × Str) → Local → Option SecretsError × Local
unfolding write save_cache update_cache_after_set
write_local env kv encrypted state =
    let file = write env.scan env.storage_mode kv state.file in
    if env.writes_file || env.storage_mode == 1
    then (
      none,
      save_cache env.writes_cache (update_cache_after_set encrypted state.cache)
          (record state { file = file }),
    )
    else (some file_failed, record state { file = env.leaves state.file file })

-- What `BatchSet` does once the values are encrypted.
unfoldable pub store_encrypted :
    Surroundings
    → List (Str × Str)
    → Option (List (Str × Str))
    → Local
    → Option SecretsError × Local
unfolding write_local
store_encrypted env kv none state = (some encryption_failed, state)
store_encrypted env kv (some encrypted) state =
    let stored : Local = record state { keychain = env.store_batch kv [] state.keychain } in
    if env.accepts encrypted
    then write_local env kv encrypted stored
    else (some call_failed, stored)

-- BatchSet
unfoldable pub batch_set : Surroundings → List (Str × Str) → Local → Option SecretsError × Local
unfolding encrypt_all store_encrypted
batch_set env kv state = store_encrypted env kv (encrypt_all env.encrypt kv) state

-- updateCacheAfterDelete; a cache that cannot be read is left alone.
forget : Surroundings → Str → Local → Local
unfolding without_key save_cache
forget env key state = elim state.cache [
  | none ↦ state
  | some entries ↦ save_cache env.writes_cache (without_key key entries) state
]

-- The `Delete` of the .env file comes to no write in storage mode 1, and of a file that there is not.
abbrev pub cuts_file : Surroundings → Option Str → Bool
cuts_file env file = env.writes_file || (env.storage_mode == 1 || not (is_some file))

-- Delete
unfoldable pub delete_secret : Surroundings → Str → Local → Option SecretsError × Local
unfolding delete forget
delete_secret env key state =
    let file = delete env.scan env.storage_mode key state.file in
    if not (env.deletes key)
    then (some call_failed, state)
    else if not (cuts_file env state.file)
    then (some file_failed, record state { file = env.leaves state.file file })
    else (
      none,
      forget env key
          (record state { file = file; keychain = env.remove_secret key state.keychain }),
    )

-- `policies[s.Key]` of `Pull`
unfoldable pub pulled_policy : Option SecretPolicy → Option SecretPolicy
pulled_policy none = none
pulled_policy (some policy) =
    if not (is_empty policy.domains) || not (is_empty policy.methods) then some policy else none

abbrev is_wanted : Option (List Str) → Str → Bool
is_wanted none key = true
is_wanted (some keys) key = any (λ k. str_eq k key) keys

abbrev pulled_entry :
    SecretMetadata
    → Option Str
    → List (Str × Str) × List (Str × Option SecretPolicy)
    → List (Str × Str) × List (Str × Option SecretPolicy)
pulled_entry entry none maps = maps
pulled_entry entry (some value) (secrets, policies) =
    (put entry.key value secrets, put entry.key (pulled_policy entry.policy) policies)

-- The loop of `Pull`: what is wanted and decrypts.
unfoldable pub pull_entries :
    (Str → Option Str)
    → Option (List Str)
    → List SecretMetadata
    → List (Str × Str) × List (Str × Option SecretPolicy)
    → List (Str × Str) × List (Str × Option SecretPolicy)
unfolding pulled_policy str_eq
pull_entries decrypt keys [] maps = maps
pull_entries decrypt keys (entry ∷ entries) maps =
    pull_entries decrypt keys entries
      (if is_wanted keys entry.key then pulled_entry entry (decrypt entry.value) maps else maps)

abbrev store_pulled :
    Surroundings → List (Str × Str) → List (Str × Option SecretPolicy) → Local → Local
store_pulled env [] policies state = state
store_pulled env (entry ∷ secrets) policies state = record state {
  keychain = env.store_batch (entry ∷ secrets) policies state.keychain;
}

-- Pull, of a list that the cloud answered, up to the time stamps.
unfoldable pub pull :
    Surroundings → Option (List Str) → List SecretMetadata → Local → Option SecretsError × Local
unfolding pull_entries write save_cache
pull env (some []) listed state = (none, state)
pull env keys listed state =
    let listing = save_cache env.writes_cache listed state in
    let (secrets, policies) = pull_entries env.decrypt keys listed ([], []) in
    let stored = store_pulled env secrets policies listing in
    let file = write env.scan env.storage_mode secrets stored.file in
    if env.writes_file || env.storage_mode == 1
    then (none, record stored { file = file })
    else (some file_failed, record stored { file = env.leaves stored.file file })
