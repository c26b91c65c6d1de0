-- ===== src/Crypto.antt =====
-- pkg/crypto/crypto.go: how keys and secrets are framed. The ciphers, Argon2id, base64, hexadecimal
-- and the sealed boxes of NaCl are arguments, and so is what the random source gives.
pub mod RoundTrips
use agentsecrets.Prelude.{
  ℕ, Bool, true, false, not, ◌||◌, Option, none, some, List, [], ◌∷◌, ◌++◌, ltb, ◌==◌,
  if◌then◌else◌, length, take, drop,
}
use agentsecrets.Text.{Str}

-- `seal` is AES-256-GCM without additional data, for a key that `accepts_key` takes.
pub record Primitives : Type 0 where
  pub accepts_key : Str → Bool
  pub nonce_size : ℕ
  pub seal : Str → Str → Str → Str
  pub open_sealed : Str → Str → Str → Option Str
  pub encode_base64 : Str → Str
  pub decode_base64 : Str → Option Str
  pub encode_hex : Str → Str
  pub decode_hex : Str → Option Str
  pub argon2 : Str → Str → Str
  pub generate_key : Option (Str × Str)
  pub seal_anonymous : Str → Str → Option Str
  pub open_anonymous : Str → Str → Str → Option Str

abbrev pub key_size : ℕ
key_size = 32

module _ (p : Primitives) where
  -- EncryptSecret and the second part of EncryptPrivateKey: the nonce stands in front.
  unfoldable pub seal_with : Option Str → Str → Str → Option Str
  seal_with none plaintext key = none
  seal_with (some nonce) plaintext key =
      if p.accepts_key key
      then some (p.encode_base64 (nonce ++ p.seal key nonce plaintext))
      else none

  unfoldable pub encrypt_secret : Option Str → Str → Str → Option Str
  unfolding seal_with
  encrypt_secret random plaintext key = seal_with random plaintext key

  -- What follows the decoding, in DecryptSecret and in DecryptPrivateKey.
  unfoldable pub open_with : Str → Option Str → Option Str
  open_with key none = none
  open_with key (some ciphertext) =
      if not (p.accepts_key key) || ltb (length ciphertext) p.nonce_size
      then none
      else p.open_sealed key (take p.nonce_size ciphertext) (drop p.nonce_size ciphertext)

  unfoldable pub decrypt_secret : Str → Str → Option Str
  unfolding open_with
  decrypt_secret encrypted key = open_with key (p.decode_base64 encrypted)

  -- DeriveKeyFromPassword, from what the salt decodes to.
  abbrev pub derived : Str → Option Str → Option Str
  derived password none = none
  derived password (some salt) = some (p.argon2 password salt)

  unfoldable pub derive_key_from_password : Str → Str → Option Str
  derive_key_from_password password salt_hex = derived password (p.decode_hex salt_hex)

  abbrev pub with_salt : Str → Option Str → Option (Str × Str)
  with_salt salt_hex none = none
  with_salt salt_hex (some sealed) = some (sealed, salt_hex)

  abbrev pub seal_private_key : Option Str → Str → Str → Option Str → Option (Str × Str)
  seal_private_key random private_key salt_hex none = none
  seal_private_key random private_key salt_hex (some key) =
      with_salt salt_hex (seal_with random private_key key)

  -- EncryptPrivateKey, of the salt and the nonce that the random source gives.
  unfoldable pub encrypt_private_key : Option Str → Option Str → Str → Str → Option (Str × Str)
  unfolding derive_key_from_password seal_with
  encrypt_private_key none random private_key password = none
  encrypt_private_key (some salt) random private_key password =
      seal_private_key random private_key (p.encode_hex salt)
        (derive_key_from_password password (p.encode_hex salt))

  abbrev pub open_private_key : Option Str → Option Str → Option Str
  open_private_key ciphertext none = none
  open_private_key ciphertext (some key) = open_with key ciphertext

  -- DecryptPrivateKey
  unfoldable pub decrypt_private_key : Str → Str → Str → Option Str
  unfolding derive_key_from_password open_with
  decrypt_private_key encrypted password salt_hex =
      open_private_key (p.decode_base64 encrypted) (derive_key_from_password password salt_hex)

  -- EncryptForUser, DecryptFromUser
  unfoldable pub encrypt_for_user : Str → Str → Option Str
  encrypt_for_user public_key payload =
      if length public_key == key_size then p.seal_anonymous public_key payload else none

  unfoldable pub decrypt_from_user : Str → Str → Str → Option Str
  decrypt_from_user private_key public_key encrypted =
      if not (length private_key == key_size) || not (length public_key == key_size)
      then none
      else p.open_anonymous private_key public_key encrypted

pub record UserKeys : Type 0 where
  pub private_key : Str
  pub public_key : Str
  pub encrypted_private_key : Str
  pub salt : Str

abbrev pub user_keys : Str → Str → Option (Str × Str) → Option UserKeys
user_keys private public none = none
user_keys private public (some (encrypted, salt)) = some (record {
  private_key = private;
  public_key = public;
  encrypted_private_key = encrypted;
  salt = salt;
})

abbrev pub setup_keys :
    Primitives → Option Str → Option Str → Str → Option (Str × Str) → Option UserKeys
setup_keys p salt random password none = none
setup_keys p salt random password (some (private, public)) =
    user_keys private public (encrypt_private_key p salt random private password)

-- SetupUser
unfoldable pub setup_user : Primitives → Option Str → Option Str → Str → Option UserKeys
unfolding encrypt_private_key
setup_user p salt random password = setup_keys p salt random password p.generate_key
