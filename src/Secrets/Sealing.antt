-- ===== src/Secrets/Sealing.antt =====
-- Secrets that are encrypted with a workspace key, kept by the cloud and pulled.
use agentsecrets.Prelude.{◌≡◌, none, some, List, [], length}
use agentsecrets.Text.{Str, lookup}
use agentsecrets.Crypto.{Primitives, encrypt_secret, decrypt_secret}
use agentsecrets.Crypto.RoundTrips.{IsInverse, decrypt_secret-encrypt_secret}
use agentsecrets.Secrets.{encrypt_all, pull_entries}
use agentsecrets.Secrets.Diffing.{IsMap}
use agentsecrets.Secrets.Storing.{listed, pull_entries-encrypt_all}

-- What a project's secrets are after `EncryptSecret`, the cloud and a whole `Pull` is what they were.
-- The primitives are to give back what they took, each nonce to have the cipher's size, and no key to
-- stand twice.
pub pull_entries-encrypt_secret :
    (p : Primitives) (nonces : Str → Str) (workspace_key key : Str)
    (kv encrypted : List (Str × Str))
    → IsInverse p
    → ((v : Str) → length (nonces v) ≡ p.nonce_size)
    → IsMap kv
    → encrypt_all (λ v. encrypt_secret p (some (nonces v)) v workspace_key) kv ≡ some encrypted
    → lookup key
        (pull_entries (λ e. decrypt_secret p e workspace_key) none (listed encrypted) ([], [])).0
      ≡ lookup key kv
pull_entries-encrypt_secret p nonces workspace_key key kv encrypted inverse sizes m h =
    pull_entries-encrypt_all (λ e. decrypt_secret p e workspace_key)
      (λ v. encrypt_secret p (some (nonces v)) v workspace_key) key kv encrypted
      (λ v e made.
        decrypt_secret-encrypt_secret p inverse (nonces v) v workspace_key e (sizes v) made)
      m h
