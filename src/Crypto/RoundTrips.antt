-- ===== src/Crypto/RoundTrips.antt =====
-- What was encrypted is decrypted, where the primitives give back what they took.
use agentsecrets.Prelude.{
  ℕ, zero, suc, ◌≡◌, inl, inr, refl, true, false, not, ◌||◌, Option, none, some, List, [], ◌∷◌,
  ◌++◌, ltb, arith, if◌then◌else◌, length, length-append, take, drop, Bool-cases, Option-cases, ap,
  sym, ◌∙◌, subst,
}
use agentsecrets.Text.{Str}
use agentsecrets.Crypto.{
  Primitives, seal_with, encrypt_secret, open_with, decrypt_secret, derive_key_from_password,
  seal_private_key, with_salt, encrypt_private_key, open_private_key, decrypt_private_key, UserKeys,
  user_keys, setup_keys, setup_user, derived,
}

take-append : {A : Type 0} (xs ys : List A) (n : ℕ) → length xs ≡ n → take n (xs ++ ys) ≡ xs
take-append [] ys zero h = refl
take-append [] ys (suc n) h = absurd (omega (arith, h))
take-append (x ∷ xs) ys zero h = absurd (omega (arith, h))
take-append (x ∷ xs) ys (suc n) h = ap (λ l. x ∷ l) (take-append xs ys n (omega (arith, h)))

drop-append : {A : Type 0} (xs ys : List A) (n : ℕ) → length xs ≡ n → drop n (xs ++ ys) ≡ ys
drop-append [] ys zero h = refl
drop-append [] ys (suc n) h = absurd (omega (arith, h))
drop-append (x ∷ xs) ys zero h = absurd (omega (arith, h))
drop-append (x ∷ xs) ys (suc n) h = drop-append xs ys n (omega (arith, h))

-- What the primitives are documented to give back.
abbrev pub IsInverse : Primitives → Type 0
IsInverse p =
    ((key nonce text : Str) → p.open_sealed key nonce (p.seal key nonce text) ≡ some text)
    × ((s : Str) → p.decode_base64 (p.encode_base64 s) ≡ some s)
    × ((s : Str) → p.decode_hex (p.encode_hex s) ≡ some s)

abbrev or_text : Str → Option Str → Str
or_text s none = s
or_text s (some t) = t

abbrev or_pair : Option (Str × Str) → Str × Str
or_pair none = ([], [])
or_pair (some pair) = pair

abbrev or_keys : UserKeys → Option UserKeys → UserKeys
or_keys keys none = keys
or_keys keys (some other) = other

module _ (p : Primitives) (inverse : IsInverse p) where
  open_with-framed :
      (nonce text key : Str)
      → length nonce ≡ p.nonce_size
      → p.accepts_key key ≡ true
      → open_with p key (some (nonce ++ p.seal key nonce text)) ≡ some text
  unfolding open_with
  open_with-framed nonce text key size a =
      let body = p.seal key nonce text in
      let enough : (not (p.accepts_key key) || ltb (length (nonce ++ body)) p.nonce_size) ≡ false =
        ground (arith, a, size, length-append nonce body) in
      ap
        (λ b.
          if b
          then none
          else p.open_sealed key (take p.nonce_size (nonce ++ body))
              (drop p.nonce_size (nonce ++ body)))
        enough
      ∙ ap (λ n. p.open_sealed key n (drop p.nonce_size (nonce ++ body)))
          (take-append nonce body p.nonce_size size)
      ∙ ap (p.open_sealed key nonce) (drop-append nonce body p.nonce_size size)
      ∙ inverse.0 key nonce text

  open_with-seal_with :
      (nonce text key sealed : Str)
      → length nonce ≡ p.nonce_size
      → seal_with p (some nonce) text key ≡ some sealed
      → open_with p key (p.decode_base64 sealed) ≡ some text
  unfolding seal_with
  open_with-seal_with nonce text key sealed size h = elim (Bool-cases (p.accepts_key key)) [
    | inl a ↦
        (let framed = nonce ++ p.seal key nonce text in
          let made : p.encode_base64 framed ≡ sealed =
            ap (or_text [])
              (sym (ap (λ b. if b then some (p.encode_base64 framed) else none) a) ∙ h) in
          ap (λ s. open_with p key (p.decode_base64 s)) (sym made)
          ∙ ap (open_with p key) (inverse.1 framed)
          ∙ open_with-framed nonce text key size a)
    | inr a ↦ absurd (ground (arith, h, a))
  ]

  -- A secret that was encrypted under a key, with a nonce of the cipher's size, is decrypted under it.
  pub decrypt_secret-encrypt_secret :
      (nonce text key sealed : Str)
      → length nonce ≡ p.nonce_size
      → encrypt_secret p (some nonce) text key ≡ some sealed
      → decrypt_secret p sealed key ≡ some text
  unfolding encrypt_secret decrypt_secret
  decrypt_secret-encrypt_secret nonce text key sealed size h =
      open_with-seal_with nonce text key sealed size h

  with_salt-parts :
      (salt : Str) (o : Option Str) (sealed out : Str)
      → with_salt p salt o ≡ some (sealed, out)
      → (o ≡ some sealed) × (salt ≡ out)
  with_salt-parts salt none sealed out h = absurd (ground (arith, h))
  with_salt-parts salt (some s) sealed out h =
      (ap some (ap (λ o. (or_pair o).0) h), ap (λ o. (or_pair o).1) h)

  decrypt_private_key-encrypt_private_key :
      (salt nonce private password sealed salt_hex : Str)
      → length nonce ≡ p.nonce_size
      → encrypt_private_key p (some salt) (some nonce) private password ≡ some (sealed, salt_hex)
      → decrypt_private_key p sealed password salt_hex ≡ some private
  unfolding encrypt_private_key decrypt_private_key derive_key_from_password
  decrypt_private_key-encrypt_private_key salt nonce private password sealed salt_hex size h =
      let key = p.argon2 password salt in
      let decoded = inverse.2 salt in
      let (boxed, same) =
        with_salt-parts (p.encode_hex salt) (seal_with p (some nonce) private key) sealed salt_hex (
          sym (
            ap
              (λ o.
                seal_private_key p (some nonce) private (p.encode_hex salt) (derived p password o))
              decoded)
          ∙ h) in
      ap (λ s. open_private_key p (p.decode_base64 sealed) (derived p password (p.decode_hex s)))
        (sym same)
      ∙ ap (λ o. open_private_key p (p.decode_base64 sealed) (derived p password o)) decoded
      ∙ open_with-seal_with nonce private key sealed size boxed

user_keys-private :
    (p : Primitives) (inverse : IsInverse p) (salt nonce private public password : Str)
    (keys : UserKeys)
    → length nonce ≡ p.nonce_size
    → (o : Option (Str × Str)) → encrypt_private_key p (some salt) (some nonce) private password ≡ o
    → user_keys private public o ≡ some keys
    → decrypt_private_key p keys.encrypted_private_key password keys.salt ≡ some keys.private_key
user_keys-private p inverse salt nonce private public password keys size none e h =
    absurd (ground (arith, h))
user_keys-private p inverse salt nonce private public password keys size (some (sealed, salt_hex)) e
      h =
    let made : UserKeys = record {
      private_key = private;
      public_key = public;
      encrypted_private_key = sealed;
      salt = salt_hex;
    } in
    subst (λ k. decrypt_private_key p k.encrypted_private_key password k.salt ≡ some k.private_key)
      (ap (or_keys made) h)
      (decrypt_private_key-encrypt_private_key p inverse salt nonce private password sealed salt_hex
        size e)

-- The keys of a new user, from a salt and a nonce of the cipher's size: the password gives back the
-- private key from what is stored of it. The primitives are to give back what they took.
pub decrypt_private_key-setup_user :
    (p : Primitives) (salt nonce password : Str) (keys : UserKeys)
    → IsInverse p
    → length nonce ≡ p.nonce_size
    → setup_user p (some salt) (some nonce) password ≡ some keys
    → decrypt_private_key p keys.encrypted_private_key password keys.salt ≡ some keys.private_key
unfolding setup_user
decrypt_private_key-setup_user p salt nonce password keys inverse size h =
    elim (Option-cases p.generate_key) [
      | inl a ↦
          absurd (ground (arith, sym (ap (setup_keys p (some salt) (some nonce) password) a) ∙ h))
      | inr ((private, public), a) ↦
          user_keys-private p inverse salt nonce private public password keys size _ refl
            (sym (ap (setup_keys p (some salt) (some nonce) password) a) ∙ h)
    ]
