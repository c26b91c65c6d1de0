-- ===== src/Tests/Files.antt =====
-- The .env file and the secrets service.
use agentsecrets.Prelude.{
  ℕ, ◌≡◌, ◌≢◌, ◌⊎◌, refl, true, false, Option, none, some, List, [], ◌∷◌, ◌++◌, if◌then◌else◌,
  lookup_by, ap, ◌==◌,
}
use agentsecrets.Text.{Str, str, str_eq, lookup, has_suffix}
use agentsecrets.Config.{Variables, is_valid_environment, resolve_environment, get_storage_mode}
use agentsecrets.Config.Resolving.{resolve_environment-get_storage_mode}
use agentsecrets.Crypto.{
  Primitives, encrypt_secret, decrypt_secret, decrypt_private_key, UserKeys, setup_user,
}
use agentsecrets.Crypto.RoundTrips.{IsInverse, decrypt_private_key-setup_user}
use agentsecrets.Secrets.Exchange.{push}
use agentsecrets.Secrets.Failing.{IsUntouched, IsKept, is_taken, failed-IsKept}
use agentsecrets.Secrets.Sealing.{pull_entries-encrypt_secret}
use agentsecrets.Dotenv.{read_lines, update_lines, remove_lines, content_of, read_file, lines_of}
use agentsecrets.Dotenv.Reading.{or_else}
use agentsecrets.Dotenv.Merging.{IsWritable, read_lines-update_lines, read_lines-remove_lines}
use agentsecrets.Secrets.{Local, Surroundings, batch_set, delete_secret, encrypt_all, pull_entries}
use agentsecrets.Secrets.Diffing.{IsMap, IsClassified, compare_maps, compare_maps-IsClassified}
use agentsecrets.Secrets.Storing.{find, listed, batch_set-read_file}

abbrev key : Str
key = str "API_KEY"

abbrev old_lines : List Str
old_lines = str "# keys" ∷ str "API_KEY=old # the first" ∷ str "MODE='x y'" ∷ []

abbrev new_secrets : List (Str × Str)
new_secrets = (key, str "new#1") ∷ (str "PORT", str "80") ∷ []

new_secrets-IsWritable : IsWritable new_secrets
unfolding str lookup_by str_eq
new_secrets-IsWritable = ((refl, refl), refl, refl, ((refl, refl), refl, refl, tt))

read_lines-update_lines_example :
    lookup key (read_lines (update_lines false new_secrets old_lines) [])
    ≡ or_else (lookup key new_secrets) (lookup key (read_lines old_lines []))
read_lines-update_lines_example =
    read_lines-update_lines new_secrets old_lines key new_secrets-IsWritable

read_lines-remove_lines_example :
    lookup key (read_lines (remove_lines key old_lines) [])
    ≡ (if str_eq key key then none else lookup key (read_lines old_lines []))
read_lines-remove_lines_example = read_lines-remove_lines key key old_lines

-- A scanner that splits at every line feed.
abbrev in_first_line : ℕ → List Str → List Str
in_first_line c [] = (c ∷ []) ∷ []
in_first_line c (line ∷ lines) = (c ∷ line) ∷ lines

abbrev scan_lines : Str → List Str
scan_lines [] = []
scan_lines (c ∷ s) = let rest = scan_lines s in if c == 10 then [] ∷ rest else in_first_line c rest

abbrev unwrap : Str → Option Str
unwrap [] = none
unwrap (c ∷ s) = some s

abbrev env : Surroundings
env = record {
  encrypt = λ v. some (0 ∷ v);
  decrypt = unwrap;
  store_batch = λ kv policies keychain. keychain;
  remove_secret = λ k keychain. keychain;
  store_secret = λ k v keychain. keychain;
  read_secret = λ k keychain. none;
  read_secrets = λ keychain. some [];
  accepts = λ encrypted. true;
  fetch = λ k. none;
  list_secrets = none;
  deletes = λ k. true;
  scan = λ content. (scan_lines content, true);
  storage_mode = 0;
  writes_file = true;
  leaves = λ old new. some [];
  writes_cache = true;
}

abbrev state : Local
state = record {
  keychain = record { secrets = []; policies = [] };
  file = some (str "API_KEY=old # the first\nMODE='x y'\n");
  cache = none;
}

-- A disk that is full: the file is cut to nothing.
abbrev full_disk : Surroundings
full_disk = record env { writes_file = false }

failed-IsKept_example :
    IsKept full_disk
      (is_taken full_disk (encrypt_all full_disk.encrypt new_secrets))
      state
      (batch_set full_disk new_secrets state)
    × IsKept full_disk (full_disk.deletes key) state (delete_secret full_disk key state)
    × (((push full_disk state).0 ≡ none) ⊎ IsUntouched state (push full_disk state).1)
failed-IsKept_example = failed-IsKept full_disk new_secrets key state

-- A write that fails may take the secrets that the file had.
empties : (batch_set full_disk new_secrets state).1.file ≡ some []
unfolding batch_set
empties = refl

sets : (batch_set env new_secrets state).0 ≡ none
unfolding batch_set
sets = refl

scans :
    scan_lines (content_of (update_lines false new_secrets (lines_of env.scan state.file)))
    ≡ update_lines false new_secrets (lines_of env.scan state.file)
unfolding content_of update_lines str str_eq has_suffix lookup_by
scans = refl

batch_set-read_file_example :
    find key (read_file env.scan (batch_set env new_secrets state).1.file)
    ≡ or_else (lookup key new_secrets) (find key (read_file env.scan state.file))
batch_set-read_file_example =
    batch_set-read_file env new_secrets state key sets refl new_secrets-IsWritable refl
      (ap (λ lines. (lines, true)) scans)

new_secrets-IsMap : IsMap new_secrets
unfolding lookup_by str str_eq
new_secrets-IsMap = (refl, (refl, tt))

-- A cipher that puts the text behind its key.
abbrev primitives : Primitives
primitives = record {
  accepts_key = λ k. true;
  nonce_size = 2;
  seal = λ k n text. text;
  open_sealed = λ k n text. some text;
  encode_base64 = λ s. 0 ∷ s;
  decode_base64 = unwrap;
  encode_hex = λ s. 1 ∷ s;
  decode_hex = unwrap;
  argon2 = λ password salt. password ++ salt;
  generate_key = some (str "private", str "public");
  seal_anonymous = λ k text. some text;
  open_anonymous = λ k j text. some text;
}

primitives-IsInverse : IsInverse primitives
primitives-IsInverse = ((λ k n text. refl), (λ s. refl), (λ s. refl))

abbrev nonce : Str
nonce = 3 ∷ 4 ∷ []

abbrev sealed : List (Str × Str)
sealed = (key, 0 ∷ 3 ∷ 4 ∷ str "new#1") ∷ (str "PORT", 0 ∷ 3 ∷ 4 ∷ str "80") ∷ []

seals :
    encrypt_all (λ v. encrypt_secret primitives (some nonce) v (str "k")) new_secrets ≡ some sealed
unfolding encrypt_all encrypt_secret str
seals = refl

pull_entries-encrypt_secret_example :
    lookup key
      (pull_entries (λ e. decrypt_secret primitives e (str "k")) none (listed sealed) ([], [])).0
    ≡ lookup key new_secrets
pull_entries-encrypt_secret_example =
    pull_entries-encrypt_secret primitives (λ v. nonce) (str "k") key new_secrets sealed
      primitives-IsInverse (λ v. refl) new_secrets-IsMap seals

abbrev user : UserKeys
user = record {
  private_key = str "private";
  public_key = str "public";
  encrypted_private_key = 0 ∷ 3 ∷ 4 ∷ str "private";
  salt = 1 ∷ 9 ∷ [];
}

sets_up : setup_user primitives (some (9 ∷ [])) (some nonce) (str "pw") ≡ some user
unfolding setup_user str
sets_up = refl

decrypt_private_key-setup_user_example :
    decrypt_private_key primitives user.encrypted_private_key (str "pw") user.salt
    ≡ some user.private_key
decrypt_private_key-setup_user_example =
    decrypt_private_key-setup_user primitives (9 ∷ []) nonce (str "pw") user primitives-IsInverse
      refl sets_up

abbrev variables : Variables
variables = record {
  agentsecrets_env = str "prod";
  storage_mode = [];
  server_url = [];
  api_url = [];
}

resolve_environment-get_storage_mode_example :
    (is_valid_environment (resolve_environment variables none none) ≡ true)
    × (get_storage_mode variables none none ≢ 0)
resolve_environment-get_storage_mode_example =
    resolve_environment-get_storage_mode variables none none

abbrev cloud : List (Str × Str)
cloud = (str "PORT", str "8080") ∷ (str "MODE", str "x") ∷ []

compare_maps-IsClassified_example :
    IsClassified
      (str "PORT")
      (lookup (str "PORT") new_secrets)
      (lookup (str "PORT") cloud)
      (compare_maps new_secrets cloud)
compare_maps-IsClassified_example =
    compare_maps-IsClassified (str "PORT") new_secrets cloud new_secrets-IsMap
