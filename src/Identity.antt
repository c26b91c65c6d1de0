-- ===== src/Identity.antt =====
-- pkg/proxy/engine.go: `resolveIdentity`, and `maskToken` of pkg/proxy/server.go. The texts of the
-- messages are left out; a verdict carries its `Block`.
pub mod Scope
pub mod Offline
pub mod Masking
use agentsecrets.Prelude.{
  ℕ, ◌-◌, Bool, true, false, not, ◌&&◌, ◌||◌, Option, none, some, List, [], ◌∷◌, ◌++◌, leb, ltb,
  ◌==◌, if◌then◌else◌, length, is_empty, take, drop,
}
use agentsecrets.Text.{Str, str, str_eq, to_upper, to_lower, has_prefix, has_suffix, equal_fold}
use agentsecrets.Capabilities.{AgentCapabilities}
use agentsecrets.Tokens.{
  CachedToken, Reply, CapsCodec, Keyring, TokenState, Validated, valid, refused, get_agent_token,
  validate, is_token_revoked,
}
use agentsecrets.Requests.{
  CallRequest, Block, token_revoked, agent_revoked, workspace_mismatch, project_mismatch,
  environment_mismatch,
}

-- What `resolveIdentity` reads beside the request: fields of the engine, the environment variable
-- AS_AGENT_TOKEN, the active environment, the clock and the backend.
pub record Context : Type 0 where
  pub workspace_id : Str
  pub project_id : Str
  pub environment : Str
  pub env_token : Str
  pub revoked_ids : List Str
  pub has_cache : Bool
  pub codec : CapsCodec
  pub client : Option (Str → Reply)
  pub now : ℕ

-- The fields of `identityResult` on identityOK.
pub record Resolved : Type 0 where
  pub token : Str
  pub agent_id : Str
  pub token_id : Str
  pub identity_level : Str
  pub capabilities : Option AgentCapabilities

pub data Identity : Type 0 where
  resolved : Resolved → Identity
  blocked : Block → Identity
  failed : Identity

unfoldable pub mask_token : Str → Str
unfolding has_prefix str
mask_token token =
    if is_empty token
    then []
    else if has_prefix token (str "agt_")
    then token
    else if leb (length token) 10
    then str "[REDACTED]"
    else take 6 token ++ (str "..." ++ drop (length token - 4) token)

-- The first of the three that is not empty.
unfoldable pub pick_token : CallRequest → Str → Str
pick_token req env_token =
    if is_empty req.agent_token
    then if is_empty req.token_id then env_token else req.token_id
    else req.agent_token

abbrev or_else {ℓ} : {A : Type ℓ} → Option A → Option A → Option A
or_else none b = b
or_else (some a) b = some a

-- A reference <AGENT>_TOKEN is looked up in the keychain; `none` where it is not found.
unfoldable pub deref_token : Keyring → Str → Option Str
unfolding get_agent_token has_suffix to_upper to_lower
deref_token k token =
    if not (is_empty token) && has_suffix (to_upper token) (str "_TOKEN") && ltb 6 (length token)
    then (let agent_name = take (length token - 6) token in
        or_else (get_agent_token k agent_name) (get_agent_token k (to_lower agent_name)))
    else some token

-- The result without a validated token: nothing but the token, its level and its mask.
unfoldable pub bare : Str → Resolved
unfolding mask_token
bare token =
    if is_empty token
    then record {
      token = [];
      agent_id = [];
      token_id = [];
      identity_level = [];
      capabilities = none;
    }
    else record {
      token = token;
      agent_id = [];
      token_id = mask_token token;
      identity_level = str "issued";
      capabilities = none;
    }

unfoldable pub with_cached : Str → CachedToken → Resolved
unfolding mask_token
with_cached token cached = record {
  token = token;
  agent_id = cached.agent_name;
  token_id = if is_empty cached.token_id then mask_token token else cached.token_id;
  identity_level = str "issued";
  capabilities = some cached.capabilities;
}

-- The revocation and scope checks, in their order.
unfoldable pub check_scope : Context → CachedToken → Option Block
unfolding is_token_revoked equal_fold str_eq
check_scope ctx cached =
    if is_token_revoked ctx.revoked_ids cached.token_id
    then some token_revoked
    else if is_token_revoked ctx.revoked_ids cached.agent_id
    then some agent_revoked
    else if not (is_empty cached.workspace_id) && not (str_eq cached.workspace_id ctx.workspace_id)
    then some workspace_mismatch
    else if not (is_empty cached.project_id) && not (str_eq cached.project_id ctx.project_id)
    then some project_mismatch
    else if not (is_empty cached.environment) && not (equal_fold cached.environment ctx.environment)
    then some environment_mismatch
    else none

abbrev pub verdict : Option Block → Resolved → Identity
verdict none r = resolved r
verdict (some b) r = blocked b

unfoldable pub judge : Context → Str → Validated × TokenState → Identity × TokenState
judge ctx token (refused e, s) = (failed, s)
judge ctx token (valid cached, s) = (verdict (check_scope ctx cached) (with_cached token cached), s)

-- Behind the lookup of a reference.
unfoldable pub resolve_token : Context → Option Str → TokenState → Identity × TokenState
resolve_token ctx none s = (failed, s)
resolve_token ctx (some token) s =
    if is_empty token || not ctx.has_cache
    then (resolved (bare token), s)
    else judge ctx token (validate ctx.codec ctx.client ctx.now token s)

unfoldable pub resolve_identity : Context → CallRequest → TokenState → Identity × TokenState
resolve_identity ctx req s =
    resolve_token ctx (deref_token s.keyring (pick_token req ctx.env_token)) s
