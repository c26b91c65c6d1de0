-- ===== src/Tokens/Validation.antt =====
-- Where a validated token comes from.
use agentsecrets.Prelude.{
  ℕ, ◌-◌, ◌<◌, ◌≤◌, ◌≡◌, ◌⊎◌, inl, inr, refl, true, Option, none, some, arith, Option-cases, leb,
  Bool-cases,
}
use agentsecrets.Text.{Str, lookup}
use agentsecrets.Capabilities.{AgentCapabilities}
use agentsecrets.Tokens.{
  CachedToken, VerifyResponse, Reply, call_failed, answered, CapsCodec, TokenState, TokenError,
  valid, refused, fresh_entry, fallback_token, response_token, local_agent, fall_back, accept,
  ask_backend, ask_client, validate,
}

-- The backend could not be asked: the call failed, or the status is 500 or more.
abbrev pub IsUnavailable : Reply → Type 0
IsUnavailable call_failed = Unit
IsUnavailable (answered status body) = 500 ≤ status

-- The keychain vouches for the token while the backend is not available.
abbrev pub IsOffline : CapsCodec → Reply → ℕ → Str → TokenState → CachedToken → Type 0
IsOffline codec reply now token s c =
    (name : Str) × (caps : AgentCapabilities) × IsUnavailable reply
    × (local_agent codec token s.keyring ≡ some (name, caps))
    × (c ≡ fallback_token now name caps)

-- The backend has confirmed the token.
abbrev pub IsConfirmed : Reply → ℕ → CachedToken → Type 0
IsConfirmed reply now c =
    (r : VerifyResponse) × (reply ≡ answered 200 (some r))
    × (r.valid ≡ true)
    × (c ≡ response_token now r)

-- The cache holds the token, not older than the time to live.
abbrev pub IsCached : ℕ → Str → TokenState → CachedToken → Type 0
IsCached now token s c =
    (lookup token s.cache.tokens ≡ some c) × (now - c.validated_at < s.cache.ttl)

module _ (codec : CapsCodec) (now : ℕ) (token : Str) (s : TokenState) (c : CachedToken) where
  fall_back-valid :
      (e : TokenError) (reply : Reply)
      → IsUnavailable reply
      → (fall_back codec now token e s).0 ≡ valid c
      → IsOffline codec reply now token s c
  unfolding fall_back
  fall_back-valid e reply u h = elim (Option-cases (local_agent codec token s.keyring)) [
    | inl missed ↦ absurd (ground arith)
    | inr ((name, caps), found) ↦ (name, caps, u, found, ground arith)
  ]

  accept-valid :
      (r : VerifyResponse)
      → (accept codec now token r s).0 ≡ valid c
      → IsConfirmed (answered 200 (some r)) now c
  unfolding accept
  accept-valid r h = (r, refl, ground arith, ground arith)

  ask_backend-valid :
      (reply : Reply)
      → (ask_backend codec now token reply s).0 ≡ valid c
      → IsConfirmed reply now c ⊎ IsOffline codec reply now token s c
  unfolding ask_backend
  ask_backend-valid call_failed h = inr (fall_back-valid TokenError.call_error call_failed tt h)
  ask_backend-valid (answered status none) h =
      inr
        (fall_back-valid TokenError.bad_status (answered status none) (ground arith) (ground arith))
  ask_backend-valid (answered status (some r)) h = elim (Bool-cases (leb 500 status)) [
    | inl high ↦ inr (
        fall_back-valid TokenError.bad_status (answered status (some r)) (ground arith)
          (ground arith))
    | inr low ↦
        let ok200 : status ≡ 200 = ground arith in inl (rw ok200 (accept-valid r (ground arith)))
  ]

-- The backend was asked, or the keychain in its place.
abbrev pub IsAsked : CapsCodec → Option (Str → Reply) → ℕ → Str → TokenState → CachedToken → Type 0
IsAsked codec client now token s c =
    (verify : Str → Reply) × (client ≡ some verify)
    × (IsConfirmed (verify token) now c ⊎ IsOffline codec (verify token) now token s c)

ask_client-valid :
    (codec : CapsCodec) (client : Option (Str → Reply)) (now : ℕ) (token : Str) (s : TokenState)
    (c : CachedToken)
    → (ask_client codec client now token s).0 ≡ valid c
    → IsAsked codec client now token s c
unfolding ask_client
ask_client-valid codec none now token s c h = absurd (ground arith)
ask_client-valid codec (some verify) now token s c h =
    (verify, refl, ask_backend-valid codec now token s c (verify token) h)

-- A token counts as valid only if the cache holds it and it is young enough, or the backend has
-- answered 200 and confirmed it, or the backend could not be asked (no answer, or a status from
-- 500 on) and the keychain names the agent and its capabilities.
pub validate_sound :
    (codec : CapsCodec) (client : Option (Str → Reply)) (now : ℕ) (token : Str) (s : TokenState)
    (c : CachedToken)
    → (validate codec client now token s).0 ≡ valid c
    → IsCached now token s c ⊎ IsAsked codec client now token s c
unfolding validate
validate_sound codec client now token s c h =
    elim (Option-cases (fresh_entry now s.cache.ttl (lookup token s.cache.tokens))) [
      | inl old ↦ inr (ask_client-valid codec client now token s c (ground arith))
      | inr (d, found) ↦ inl (unfold fresh_entry validate in ground arith)
    ]

-- A refusal changes neither the cache nor the keychain.
validate-refused :
    (codec : CapsCodec) (client : Option (Str → Reply)) (now : ℕ) (token : Str) (s : TokenState)
    (e : TokenError)
    → (validate codec client now token s).0 ≡ refused e
    → (validate codec client now token s).1 ≡ s
unfolding validate ask_client ask_backend fall_back accept
validate-refused codec client now token s e h = ground arith
