-- ===== src/Identity/Scope.antt =====
-- A token is good only for its own workspace, project and environment, and while it is not revoked.
use agentsecrets.Prelude.{
  ◌≡◌, ◌≢◌, ◌↔◌, ◌⊎◌, inl, inr, refl, true, Option, none, some, [], ◌∷◌, arith, Some, Option-cases,
  ap, subst,
}
use agentsecrets.Text.{Str, to_lower}
use agentsecrets.Text.Laws.{str_eq_iff, equal_fold_iff}
use agentsecrets.Tokens.{CachedToken, TokenState, Validated, valid, refused, validate}
use agentsecrets.Tokens.Revocation.{is_token_revoked_iff}
use agentsecrets.Requests.{CallRequest}
use agentsecrets.Identity.{
  Context, Resolved, resolved, pick_token, deref_token, bare, with_cached, check_scope, judge,
  resolve_token, resolve_identity,
}

-- The ID is empty or not on the revocation list.
abbrev pub IsUnrevoked : Context → Str → Type 0
IsUnrevoked ctx id = ¬ ((id ≢ []) × Some (λ x. x ≡ id) ctx.revoked_ids)

pub record InScope (ctx : Context) (c : CachedToken) : Type 0 where
  pub token : IsUnrevoked ctx c.token_id
  pub agent : IsUnrevoked ctx c.agent_id
  pub workspace : (c.workspace_id ≡ []) ⊎ (c.workspace_id ≡ ctx.workspace_id)
  pub project : (c.project_id ≡ []) ⊎ (c.project_id ≡ ctx.project_id)
  pub environment : (c.environment ≡ []) ⊎ (to_lower c.environment ≡ to_lower ctx.environment)

-- The checks pass exactly for a token in scope.
check_scope_iff : (ctx : Context) (c : CachedToken) → (check_scope ctx c ≡ none) ↔ InScope ctx c
unfolding check_scope
check_scope_iff ctx c = ground (
  arith,
  is_token_revoked_iff ctx.revoked_ids c.token_id,
  is_token_revoked_iff ctx.revoked_ids c.agent_id,
  str_eq_iff c.workspace_id ctx.workspace_id,
  str_eq_iff c.project_id ctx.project_id,
  equal_fold_iff c.environment ctx.environment,
)

-- What stands behind an identity with a token.
abbrev pub IsBackedBy : Context → TokenState → Resolved → Str → Type 0
IsBackedBy ctx s r token =
    (c : CachedToken) × ((validate ctx.codec ctx.client ctx.now token s).0 ≡ valid c)
    × InScope ctx c
    × (r ≡ with_cached token c)

abbrev pub IsBacked : Context → TokenState → Resolved → Type 0
IsBacked ctx s r = IsBackedBy ctx s r r.token

judge-resolved :
    (ctx : Context) (token : Str) (p : Validated × TokenState) (r : Resolved)
    → (judge ctx token p).0 ≡ resolved r
    → (c : CachedToken) × (p.0 ≡ valid c) × InScope ctx c × (r ≡ with_cached token c)
unfolding judge
judge-resolved ctx token (refused e, s) r h = cc
judge-resolved ctx token (valid c, s) r h = elim (Option-cases (check_scope ctx c)) [
  | inl passed ↦ (c, refl, (check_scope_iff ctx c).0 passed, ground arith)
  | inr (b, caught) ↦ absurd (ground arith)
]

token-with_cached : (token : Str) (c : CachedToken) → (with_cached token c).token ≡ token
unfolding with_cached
token-with_cached token c = refl

resolve_token-IsBacked :
    (ctx : Context) (o : Option Str) (s : TokenState) (r : Resolved)
    → ctx.has_cache ≡ true
    → (resolve_token ctx o s).0 ≡ resolved r
    → r.token ≢ []
    → (o ≡ some r.token) × IsBacked ctx s r
resolve_token-IsBacked ctx none s r e h ne = unfold resolve_token in cc
resolve_token-IsBacked ctx (some []) s r e h ne = absurd (unfold resolve_token bare in ground arith)
resolve_token-IsBacked ctx (some (x ∷ token)) s r e h ne =
    let (c, vouched, scope, same) =
      judge-resolved ctx (x ∷ token) (validate ctx.codec ctx.client ctx.now (x ∷ token) s) r
        (unfold resolve_token in ground arith) in
    let named : x ∷ token ≡ r.token = ground (arith, token-with_cached (x ∷ token) c) in
    (ap some named, subst (IsBackedBy ctx s r) named (c, vouched, scope, same))

-- With a token cache, a call gets an identity with a token only if that token, picked from the
-- request or the environment and looked up where it is a reference, validates to a cached token
-- that is neither revoked nor bound to another workspace, project or environment, and then the
-- agent's capabilities are exactly those of the validated token.
pub resolve_identity-IsBacked :
    (ctx : Context) (req : CallRequest) (s : TokenState) (r : Resolved)
    → ctx.has_cache ≡ true
    → (resolve_identity ctx req s).0 ≡ resolved r
    → r.token ≢ []
    → (deref_token s.keyring (pick_token req ctx.env_token) ≡ some r.token) × IsBacked ctx s r
unfolding resolve_identity
resolve_identity-IsBacked ctx req s r =
    resolve_token-IsBacked ctx (deref_token s.keyring (pick_token req ctx.env_token)) s r
