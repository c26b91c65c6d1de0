-- ===== src/Identity/Offline.antt =====
-- What the offline fallback forgets.
use agentsecrets.Prelude.{
  ℕ, ◌-◌, ◌<◌, ◌≡◌, ◌≢◌, refl, true, false, Option, none, some, [], ◌++◌, arith, leb, ltb, is_empty,
  ap, ◌∙◌, ◌∷◌, ◌≤◌, ◌||◌, not,
}
use agentsecrets.Text.{Str, str, str_eq, lookup}
use agentsecrets.Text.Laws.{str_eq_iff}
use agentsecrets.Text.Maps.{lookup-put}
use agentsecrets.Capabilities.{AgentCapabilities}
use agentsecrets.Requests.{workspace_mismatch}
use agentsecrets.Tokens.{
  CachedToken, TokenError, VerifyResponse, Reply, call_failed, answered, TokenState, Validated,
  valid, refused, validate, fresh_entry, store_token, local_agent, fall_back, accept, ask_backend,
  ask_client, fallback_token, response_token, is_token_revoked,
}
use agentsecrets.Tokens.Validation.{IsUnavailable}
use agentsecrets.Identity.{
  Context, resolved, blocked, with_cached, check_scope, judge, resolve_token, verdict,
}

-- The same proxy at this time, with a backend that replies so to every token.
abbrev pub replying : Reply → ℕ → Context → Context
replying reply now ctx = record ctx { client = some (λ t. reply); now = now }

leb-true : (n : ℕ) → 500 ≤ n → leb 500 n ≡ true
leb-true n h = ground (arith, h)

str_eq_refl : (k : Str) → str_eq k k ≡ true
str_eq_refl k = (str_eq_iff k k).1 refl

str_eq-false : (a b : Str) → a ≢ b → str_eq a b ≡ false
str_eq-false a b h = ground (arith, h, str_eq_iff a b)

is_empty-false : (a : Str) → a ≢ [] → is_empty a ≡ false
is_empty-false [] h = absurd (h refl)
is_empty-false (c ∷ a) h = refl

ltb-true : (a b : ℕ) → a < b → ltb a b ≡ true
ltb-true a b h = ground (arith, h)

abbrev token_or : CachedToken → Validated → CachedToken
token_or c (valid d) = d
token_or c (refused e) = c

module _ (ctx : Context) (token : Str) (s : TokenState) where
  validate-ask_client :
      (client : Option (Str → Reply)) (now : ℕ)
      → fresh_entry now s.cache.ttl (lookup token s.cache.tokens) ≡ none
      → validate ctx.codec client now token s ≡ ask_client ctx.codec client now token s
  unfolding validate
  validate-ask_client client now f = ground arith

  fall_back-local :
      (e : TokenError) (now : ℕ) (name : Str) (caps : AgentCapabilities)
      → local_agent ctx.codec token s.keyring ≡ some (name, caps)
      → fall_back ctx.codec now token e s
        ≡ (valid (fallback_token now name caps), store_token token (fallback_token now name caps) s)
  unfolding fall_back
  fall_back-local e now name caps l = ground arith

  -- No young entry, no backend: the token becomes the one that the keychain vouches for.
  validate-fallback :
      (reply : Reply) (now : ℕ) (name : Str) (caps : AgentCapabilities)
      → fresh_entry now s.cache.ttl (lookup token s.cache.tokens) ≡ none
      → IsUnavailable reply
      → local_agent ctx.codec token s.keyring ≡ some (name, caps)
      → validate ctx.codec (some (λ t. reply)) now token s
        ≡ (valid (fallback_token now name caps), store_token token (fallback_token now name caps) s)
  unfolding ask_client ask_backend
  validate-fallback call_failed now name caps f u l =
      validate-ask_client _ now f ∙ fall_back-local TokenError.call_error now name caps l
  validate-fallback (answered status body) now name caps f u l =
      validate-ask_client _ now f
      ∙ rw (leb-true status u) (fall_back-local TokenError.bad_status now name caps l)

  validate-confirmed :
      (r : VerifyResponse) (now : ℕ)
      → fresh_entry now s.cache.ttl (lookup token s.cache.tokens) ≡ none
      → r.valid ≡ true
      → (validate ctx.codec (some (λ t. answered 200 (some r))) now token s).0
        ≡ valid (response_token now r)
  unfolding ask_client ask_backend accept
  validate-confirmed r now f v =
      ap (λ x. x.0) (validate-ask_client (some (λ t. answered 200 (some r))) now f)
      ∙ ground (arith, v)

  -- What the fallback has stored is young for the time to live, whatever the backend then says.
  validate-stored :
      (client : Option (Str → Reply)) (now : ℕ) (c : CachedToken)
      → now - c.validated_at < s.cache.ttl
      → (validate ctx.codec client now token (store_token token c s)).0 ≡ valid c
  unfolding validate fresh_entry store_token
  validate-stored client now c young =
      ground (arith, young, lookup-put token token c s.cache.tokens, str_eq_refl token)

check_scope-fallback :
    (ctx : Context) (now : ℕ) (name : Str) (caps : AgentCapabilities)
    → is_token_revoked ctx.revoked_ids name ≡ false
    → is_token_revoked ctx.revoked_ids (str "cached_" ++ name) ≡ false
    → check_scope ctx (fallback_token now name caps) ≡ none
unfolding check_scope fallback_token
check_scope-fallback ctx now name caps r1 r2 = rw (r2, r1) refl

check_scope-elsewhere :
    (ctx : Context) (c : CachedToken)
    → is_token_revoked ctx.revoked_ids c.token_id ≡ false
    → is_token_revoked ctx.revoked_ids c.agent_id ≡ false
    → c.workspace_id ≢ []
    → c.workspace_id ≢ ctx.workspace_id
    → check_scope ctx c ≡ some workspace_mismatch
unfolding check_scope
check_scope-elsewhere ctx c r1 r2 e w =
    rw (r1, r2, is_empty-false c.workspace_id e, str_eq-false c.workspace_id ctx.workspace_id w)
      refl

check_scope-response :
    (ctx : Context) (r : VerifyResponse) (now : ℕ)
    → is_token_revoked ctx.revoked_ids r.token_id ≡ false
    → is_token_revoked ctx.revoked_ids r.agent_id ≡ false
    → r.workspace_id ≢ []
    → r.workspace_id ≢ ctx.workspace_id
    → check_scope ctx (response_token now r) ≡ some workspace_mismatch
unfolding response_token
check_scope-response ctx r now r1 r2 e w =
    check_scope-elsewhere ctx (response_token now r) r1 r2 e w

judge_valid :
    (ctx : Context) (token : Str) (c : CachedToken) (v : Validated × TokenState)
    → v.0 ≡ valid c
    → (judge ctx token v).0 ≡ verdict (check_scope ctx c) (with_cached token c)
unfolding judge
judge_valid ctx token c (valid d, t) h =
    ap (λ x. verdict (check_scope ctx x) (with_cached token x)) (ap (token_or d) h)
judge_valid ctx token c (refused e, t) h = cc

judge-after :
    (ctx : Context) (token : Str) (v : Validated × TokenState) → (judge ctx token v).1 ≡ v.1
unfolding judge
judge-after ctx token (valid d, t) = refl
judge-after ctx token (refused e, t) = refl

goes_on :
    (ctx : Context) (token : Str)
    → ctx.has_cache ≡ true
    → token ≢ []
    → (is_empty token || not ctx.has_cache) ≡ false
goes_on ctx token cache e = ground (arith, cache, is_empty-false token e)

resolve_token-after :
    (ctx : Context) (token : Str) (s : TokenState)
    → ctx.has_cache ≡ true
    → token ≢ []
    → (resolve_token ctx (some token) s).1 ≡ (validate ctx.codec ctx.client ctx.now token s).1
unfolding resolve_token
resolve_token-after ctx token s cache e =
    rw (goes_on ctx token cache e)
      (judge-after ctx token (validate ctx.codec ctx.client ctx.now token s))

-- The verdict on a token that is validated.
resolve_token-valid :
    (ctx : Context) (token : Str) (s : TokenState) (c : CachedToken)
    → ctx.has_cache ≡ true
    → token ≢ []
    → (validate ctx.codec ctx.client ctx.now token s).0 ≡ valid c
    → (resolve_token ctx (some token) s).0 ≡ verdict (check_scope ctx c) (with_cached token c)
unfolding resolve_token
resolve_token-valid ctx token s c cache e h =
    rw (goes_on ctx token cache e)
      (judge_valid ctx token c (validate ctx.codec ctx.client ctx.now token s) h)

-- A token of another workspace, that the backend would confirm and the proxy then refuse with
-- workspace_mismatch, passes if the backend cannot be asked while the cache has no young entry of it
-- and the keychain vouches for it; and for the time to live after that it still passes when the
-- backend is back. The agent's name and `cached_` with it are not to be among the revoked IDs, nor the
-- IDs of the token itself.
pub offline_ignores_scope :
    (ctx : Context) (token : Str) (s : TokenState) (r : VerifyResponse) (down : Reply)
    (now later : ℕ) (name : Str) (caps : AgentCapabilities)
    → ctx.has_cache ≡ true
    → token ≢ []
    → fresh_entry now s.cache.ttl (lookup token s.cache.tokens) ≡ none
    → IsUnavailable down
    → local_agent ctx.codec token s.keyring ≡ some (name, caps)
    → r.valid ≡ true
    → r.workspace_id ≢ []
    → r.workspace_id ≢ ctx.workspace_id
    → is_token_revoked ctx.revoked_ids r.token_id ≡ false
    → is_token_revoked ctx.revoked_ids r.agent_id ≡ false
    → is_token_revoked ctx.revoked_ids name ≡ false
    → is_token_revoked ctx.revoked_ids (str "cached_" ++ name) ≡ false
    → later - now < s.cache.ttl
    → ((resolve_token (replying (answered 200 (some r)) now ctx) (some token) s).0
        ≡ blocked workspace_mismatch)
      × ((resolve_token (replying down now ctx) (some token) s).0
          ≡ resolved (with_cached token (fallback_token now name caps)))
      × ((resolve_token
            (replying (answered 200 (some r)) later ctx)
            (some token)
            (resolve_token (replying down now ctx) (some token) s).1).0
          ≡ resolved (with_cached token (fallback_token now name caps)))
unfolding check_scope
offline_ignores_scope ctx token s r down now later name caps cache e f u l v w1 w2 r1 r2 r3 r4
      young =
    let c = fallback_token now name caps in
    let passes : verdict (check_scope ctx c) (with_cached token c)
        ≡ resolved (with_cached token c) =
      ap (λ o. verdict o (with_cached token c)) (check_scope-fallback ctx now name caps r3 r4) in
    (
      resolve_token-valid (replying (answered 200 (some r)) now ctx) token s (response_token now r)
            cache e (validate-confirmed ctx token s r now f v)
          ∙ ap (λ o. verdict o (with_cached token (response_token now r)))
              (check_scope-response ctx r now r1 r2 w1 w2),
      resolve_token-valid (replying down now ctx) token s c cache e
            (ap (λ x. x.0) (validate-fallback ctx token s down now name caps f u l))
          ∙ passes,
      ap (λ t. (resolve_token (replying (answered 200 (some r)) later ctx) (some token) t).0)
            (resolve_token-after (replying down now ctx) token s cache e
              ∙ ap (λ x. x.1) (validate-fallback ctx token s down now name caps f u l))
          ∙ resolve_token-valid (replying (answered 200 (some r)) later ctx) token
              (store_token token c s) c cache e
              (unfold fallback_token in validate-stored ctx token s _ later c young)
          ∙ passes,
    )
