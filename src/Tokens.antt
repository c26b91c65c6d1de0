-- ===== src/Tokens.antt =====
-- pkg/proxy/token_cache.go: the cache of validated agent tokens, with the entries of the OS keychain
-- that it reads and writes (the functions of pkg/keyring/keyring.go), and `Sync` and
-- `IsTokenRevoked` of pkg/proxy/engine.go. The backend's answer and the clock are arguments.
pub mod Validation
pub mod Revocation
use agentsecrets.Prelude.{
  ℕ, ◌-◌, Bool, true, false, not, ◌&&◌, ◌||◌, Option, none, some, List, [], ◌∷◌, ◌++◌, leb, ltb,
  ◌==◌, if◌then◌else◌, is_empty, any,
}
use agentsecrets.Text.{Str, str, str_eq, lookup, put}
use agentsecrets.Capabilities.{AgentCapabilities}

pub record CachedToken : Type 0 where
  pub token_id : Str
  pub agent_id : Str
  pub agent_name : Str
  pub workspace_id : Str
  pub project_id : Str
  pub environment : Str
  pub capabilities : AgentCapabilities
  pub expires_at : Option ℕ
  pub validated_at : ℕ

-- verifyResponse
pub record VerifyResponse : Type 0 where
  pub valid : Bool
  pub agent_id : Str
  pub agent_name : Str
  pub workspace_id : Str
  pub project_id : Str
  pub environment : Str
  pub capabilities : AgentCapabilities
  pub token_id : Str

-- What the call of the endpoint agents.token_validate brings: a transport error, or a status with a
-- body that decodes or does not.
pub data Reply : Type 0 where
  call_failed : Reply
  answered : ℕ → Option VerifyResponse → Reply

-- The keychain entries `agent_token_<name>` and `agent_capabilities_<name>`. While the daemon is
-- not available, a read fails and a write is lost.
pub record Keyring : Type 0 where
  pub available : Bool
  pub agent_tokens : List (Str × Str)
  pub agent_capabilities : List (Str × Str)

-- encoding/json on AgentCapabilities.
pub record CapsCodec : Type 0 where
  pub marshal : AgentCapabilities → Option Str
  pub unmarshal : Str → Option AgentCapabilities

pub record TokenCache : Type 0 where
  pub tokens : List (Str × CachedToken)
  pub ttl : ℕ

pub record TokenState : Type 0 where
  pub cache : TokenCache
  pub keyring : Keyring

pub data TokenError : Type 0 where
  no_client call_error bad_status bad_body invalid_token : TokenError

pub data Validated : Type 0 where
  valid : CachedToken → Validated
  refused : TokenError → Validated

-- GetAgentToken
unfoldable pub get_agent_token : Keyring → Str → Option Str
get_agent_token k name = if k.available then lookup name k.agent_tokens else none

-- The loop of `FindAgentNameByToken`.
unfoldable pub find_name : Str → List (Str × Str) → Option Str
unfolding str_eq
find_name token [] = none
find_name token ((name, t) ∷ entries) =
    if str_eq t token then some name else find_name token entries

unfoldable pub find_agent_name_by_token : Keyring → Str → Option Str
find_agent_name_by_token k token = if k.available then find_name token k.agent_tokens else none

-- GetAgentCapabilities
unfoldable pub get_agent_capabilities : Keyring → Str → Option Str
get_agent_capabilities k name = if k.available then lookup name k.agent_capabilities else none

-- SetAgentToken, its error dropped.
unfoldable pub set_agent_token : Str → Str → Keyring → Keyring
set_agent_token name token k =
    if k.available then record k { agent_tokens = put name token k.agent_tokens } else k

-- SetAgentCapabilities, its error dropped.
unfoldable pub set_agent_capabilities : Str → Str → Keyring → Keyring
set_agent_capabilities name caps k =
    if k.available then record k { agent_capabilities = put name caps k.agent_capabilities } else k

-- `exists && time.Since(cached.ValidatedAt) < c.ttl`
unfoldable pub fresh_entry : ℕ → ℕ → Option CachedToken → Option CachedToken
fresh_entry now ttl none = none
fresh_entry now ttl (some c) = if ltb (now - c.validated_at) ttl then some c else none

-- c.tokens[token] = cached
unfoldable pub store_token : Str → CachedToken → TokenState → TokenState
store_token token c s = record s { cache = record s.cache { tokens = put token c s.cache.tokens } }

-- The token that the offline fallback makes up from the keychain.
unfoldable pub fallback_token : ℕ → Str → AgentCapabilities → CachedToken
fallback_token now name caps = record {
  token_id = str "cached_" ++ name;
  agent_id = name;
  agent_name = name;
  workspace_id = [];
  project_id = [];
  environment = [];
  capabilities = caps;
  expires_at = none;
  validated_at = now;
}

unfoldable pub response_token : ℕ → VerifyResponse → CachedToken
response_token now r = record {
  token_id = r.token_id;
  agent_id = r.agent_id;
  agent_name = r.agent_name;
  workspace_id = r.workspace_id;
  project_id = r.project_id;
  environment = r.environment;
  capabilities = r.capabilities;
  expires_at = none;
  validated_at = now;
}

-- `len(capsBytes) > 0` and the unmarshalling.
abbrev decode_caps : CapsCodec → Option Str → Option AgentCapabilities
decode_caps codec none = none
decode_caps codec (some bytes) = if is_empty bytes then none else codec.unmarshal bytes

-- The agent and the capabilities that the keychain has for the token.
unfoldable pub local_agent : CapsCodec → Str → Keyring → Option (Str × AgentCapabilities)
local_agent codec token k = elim (find_agent_name_by_token k token) [
  | none ↦ none
  | some name ↦ elim (decode_caps codec (get_agent_capabilities k name)) [
    | none ↦ none
    | some caps ↦ some (name, caps)
  ]
]

-- A network error, or a status from 500 on.
unfoldable pub fall_back : CapsCodec → ℕ → Str → TokenError → TokenState → Validated × TokenState
fall_back codec now token e s = elim (local_agent codec token s.keyring) [
  | none ↦ (refused e, s)
  | some (name, caps) ↦
      (valid (fallback_token now name caps), store_token token (fallback_token now name caps) s)
]

abbrev write_caps : Option Str → Str → Keyring → Keyring
write_caps none name k = k
write_caps (some bytes) name k = set_agent_capabilities name bytes k

-- The keychain copy for the offline fallback.
unfoldable pub remember : CapsCodec → Str → VerifyResponse → Keyring → Keyring
remember codec token r k =
    if is_empty r.agent_name
    then k
    else write_caps (codec.marshal r.capabilities) r.agent_name
        (set_agent_token r.agent_name token k)

-- A decoded answer with status 200.
unfoldable pub accept : CapsCodec → ℕ → Str → VerifyResponse → TokenState → Validated × TokenState
accept codec now token r s = if not r.valid then (refused invalid_token, s) else (
  valid (response_token now r),
  store_token token (response_token now r)
      (record s { keyring = remember codec token r s.keyring }),
)

unfoldable pub ask_backend : CapsCodec → ℕ → Str → Reply → TokenState → Validated × TokenState
ask_backend codec now token call_failed s = fall_back codec now token call_error s
ask_backend codec now token (answered status body) s =
    if leb 500 status
    then fall_back codec now token bad_status s
    else if not (status == 200)
    then (refused bad_status, s)
    else elim body [ none ↦ (refused bad_body, s) | some r ↦ accept codec now token r s ]

-- No young entry in the cache.
unfoldable pub ask_client :
    CapsCodec → Option (Str → Reply) → ℕ → Str → TokenState → Validated × TokenState
ask_client codec none now token s = (refused no_client, s)
ask_client codec (some verify) now token s = ask_backend codec now token (verify token) s

-- TokenCache.Validate; `client` is nil or sends the token to the backend.
unfoldable pub validate :
    CapsCodec → Option (Str → Reply) → ℕ → Str → TokenState → Validated × TokenState
validate codec client now token s =
    elim (fresh_entry now s.cache.ttl (lookup token s.cache.tokens)) [
      | some c ↦ (valid c, s)
      | none ↦ ask_client codec client now token s
    ]

abbrev pub is_listed : Str → List Str → Bool
is_listed id ids = any (λ x. str_eq x id) ids

-- The loop of `PurgeRevoked`.
unfoldable pub purge : List Str → List (Str × CachedToken) → List (Str × CachedToken)
purge revoked [] = []
purge revoked ((token, c) ∷ tokens) =
    let rest = purge revoked tokens in
    if is_listed c.token_id revoked || is_listed c.agent_id revoked then rest else (token, c) ∷ rest

unfoldable pub purge_revoked : List Str → TokenCache → TokenCache
purge_revoked revoked c =
    if is_empty revoked then c else record c { tokens = purge revoked c.tokens }

-- IsTokenRevoked
unfoldable pub is_token_revoked : List Str → Str → Bool
is_token_revoked revoked token_id =
    if is_empty token_id || is_empty revoked then false else is_listed token_id revoked

-- The live state of the engine that `Sync` writes.
pub record Revocations : Type 0 where
  pub revoked_ids : List Str
  pub last_sync : ℕ
  pub token_cache : Option TokenCache

pub data Synced : Type 0 where
  synced no_api_client fetch_failed : Synced

abbrev purge_cache : List Str → Option TokenCache → Option TokenCache
purge_cache ids none = none
purge_cache ids (some c) = some (purge_revoked ids c)

-- Engine.Sync; `fetch` is nil without an API client, and brings the list or an error.
unfoldable pub sync : Option (Option (List Str)) → ℕ → Revocations → Synced × Revocations
sync none now r = (no_api_client, r)
sync (some none) now r = (fetch_failed, r)
sync (some (some ids)) now r = (
  synced,
  record { revoked_ids = ids; last_sync = now; token_cache = purge_cache ids r.token_cache },
)
