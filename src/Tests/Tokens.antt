-- ===== src/Tests/Tokens.antt =====
-- Agent tokens: validation, revocation, scope.
use agentsecrets.Prelude.{◌≡◌, ◌⊎◌, refl, true, false, none, some, [], ◌∷◌, arith, lookup_by, List}
use agentsecrets.Requests.{workspace_mismatch}
use agentsecrets.Text.{Str, lookup, str, str_eq, has_suffix, to_upper, upper_byte}
use agentsecrets.Text.Laws.{str_eq_iff}
use agentsecrets.Tokens.{
  CachedToken, TokenCache, VerifyResponse, answered, call_failed, validate, valid, fresh_entry,
  local_agent, find_agent_name_by_token, find_name, get_agent_capabilities, fallback_token,
  Revocations, sync, is_token_revoked, purge_revoked, purge,
}
use agentsecrets.Tokens.Validation.{IsCached, IsAsked, validate_sound}
use agentsecrets.Tokens.Revocation.{IsRevoked}
use agentsecrets.Identity.{
  resolved, blocked, with_cached, resolve_token, resolve_identity, deref_token, pick_token,
  check_scope, judge,
}
use agentsecrets.Identity.Scope.{IsBacked, resolve_identity-IsBacked}
use agentsecrets.Identity.Offline.{replying, offline_ignores_scope}
use agentsecrets.Tests.Fixtures.{ctx, tokens, no_tokens, token, known, reader, call}

cached : (validate ctx.codec ctx.client ctx.now token tokens).0 ≡ valid known
unfolding validate fresh_entry str_eq str lookup_by
cached = refl

validate_sound_example :
    IsCached ctx.now token tokens known ⊎ IsAsked ctx.codec ctx.client ctx.now token tokens known
validate_sound_example = validate_sound ctx.codec ctx.client ctx.now token tokens known cached

abbrev gone : CachedToken
gone = record known { token_id = str "t9" }

abbrev cache : TokenCache
cache = record { tokens = (str "tok_old", gone) ∷ (token, known) ∷ []; ttl = 300 }

abbrev ids : List Str
ids = str "t9" ∷ []

abbrev before : Revocations
before = record { revoked_ids = []; last_sync = 0; token_cache = some cache }

abbrev purged : TokenCache
purged = record { tokens = (token, known) ∷ []; ttl = 300 }

syncs : (sync (some (some ids)) 100 before).1.token_cache ≡ some purged
unfolding sync purge_revoked purge str_eq str
syncs = refl

str_eq-ids : (str_eq (str "t9") (str "t1") ≡ false) × (str_eq (str "t9") (str "a1") ≡ false)
unfolding str_eq str
str_eq-ids = (refl, refl)

IsRevoked-known : ¬ IsRevoked ids known
unfolding str
IsRevoked-known r =
    ground (arith, str_eq-ids, str_eq_iff (str "t9") (str "t1"), str_eq_iff (str "t9") (str "a1"))

resolves : (resolve_identity ctx call tokens).0 ≡ resolved (with_cached token known)
unfolding resolve_identity pick_token deref_token resolve_token judge check_scope validate
    fresh_entry str_eq str lookup_by has_suffix to_upper upper_byte with_cached
resolves = refl

resolve_identity-IsBacked_example :
    (deref_token tokens.keyring (pick_token call ctx.env_token) ≡ some token)
    × IsBacked ctx tokens (with_cached token known)
unfolding with_cached str
resolve_identity-IsBacked_example =
    resolve_identity-IsBacked ctx call tokens (with_cached token known) refl resolves (λ e. cc)

abbrev elsewhere : VerifyResponse
elsewhere = record {
  valid = true;
  agent_id = str "a7";
  agent_name = str "ci";
  workspace_id = str "another";
  project_id = [];
  environment = [];
  capabilities = reader;
  token_id = str "t7";
}

vouches : local_agent ctx.codec token no_tokens.keyring ≡ some (str "ci", reader)
unfolding local_agent find_agent_name_by_token find_name get_agent_capabilities str_eq str lookup_by
vouches = refl

unknown : fresh_entry 1000 no_tokens.cache.ttl (lookup token no_tokens.cache.tokens) ≡ none
unfolding fresh_entry lookup_by
unknown = refl

is_elsewhere : str_eq elsewhere.workspace_id ctx.workspace_id ≡ false
unfolding str_eq str
is_elsewhere = refl

not_revoked :
    (is_token_revoked ctx.revoked_ids (str "t7") ≡ false)
    × (is_token_revoked ctx.revoked_ids (str "a7") ≡ false)
    × (is_token_revoked ctx.revoked_ids (str "ci") ≡ false)
    × (is_token_revoked ctx.revoked_ids (str "cached_ci") ≡ false)
unfolding is_token_revoked str_eq str
not_revoked = (refl, refl, refl, refl)

offline_ignores_scope_example :
    ((resolve_token (replying (answered 200 (some elsewhere)) 1000 ctx) (some token) no_tokens).0
      ≡ blocked workspace_mismatch)
    × ((resolve_token (replying call_failed 1000 ctx) (some token) no_tokens).0
        ≡ resolved (with_cached token (fallback_token 1000 (str "ci") reader)))
    × ((resolve_token
          (replying (answered 200 (some elsewhere)) 1060 ctx)
          (some token)
          (resolve_token (replying call_failed 1000 ctx) (some token) no_tokens).1).0
        ≡ resolved (with_cached token (fallback_token 1000 (str "ci") reader)))
unfolding str
offline_ignores_scope_example =
    offline_ignores_scope ctx token no_tokens elsewhere call_failed 1000 1060 (str "ci") reader refl
      (λ e. cc) unknown tt vouches refl (λ e. cc)
      (λ e. ground (arith, is_elsewhere, (str_eq_iff elsewhere.workspace_id ctx.workspace_id).1 e))
      not_revoked.0 not_revoked.1 not_revoked.2 not_revoked.3 (omega arith)
