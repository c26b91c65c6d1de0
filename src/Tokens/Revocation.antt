-- ===== src/Tokens/Revocation.antt =====
-- What a revocation list does to the cached tokens.
use agentsecrets.Prelude.{
  ◌≡◌, ◌≢◌, ◌↔◌, ◌⊎◌, refl, true, Option, some, List, [], ◌∷◌, arith, All, Some, any_iff, ℕ,
  lookup_by,
}
use agentsecrets.Text.{Str, lookup}
use agentsecrets.Text.Laws.{str_eq_iff}
use agentsecrets.Tokens.{
  CachedToken, TokenCache, is_listed, purge, purge_revoked, is_token_revoked, Revocations, sync,
  synced,
}

-- The token's own ID or that of its agent is on the list.
abbrev pub IsRevoked : List Str → CachedToken → Type 0
IsRevoked ids c = Some (λ x. x ≡ c.token_id) ids ⊎ Some (λ x. x ≡ c.agent_id) ids

is_listed_iff : (id : Str) (ids : List Str) → (is_listed id ids ≡ true) ↔ Some (λ x. x ≡ id) ids
is_listed_iff id ids = any_iff _ _ ids (λ x. str_eq_iff x id)

purge-All :
    (ids : List Str) (tokens : List (Str × CachedToken))
    → All (λ (p : Str × CachedToken). ¬ IsRevoked ids p.1) (purge ids tokens)
unfolding purge
purge-All ids [] = tt
purge-All ids ((t, c) ∷ tokens) =
    ground (arith, is_listed_iff c.token_id ids, is_listed_iff c.agent_id ids, purge-All ids tokens)

purge-kept :
    (ids : List Str) (t : Str) (c : CachedToken) (tokens : List (Str × CachedToken))
    → ¬ IsRevoked ids c
    → lookup t tokens ≡ some c
    → lookup t (purge ids tokens) ≡ some c
unfolding purge lookup_by
purge-kept ids t c [] n h = h
purge-kept ids t c ((u, d) ∷ tokens) n h =
    ground (
      arith,
      is_listed_iff d.token_id ids,
      is_listed_iff d.agent_id ids,
      purge-kept ids t c tokens n,
    )

All-none-listed :
    (tokens : List (Str × CachedToken)) → All (λ (p : Str × CachedToken). ¬ IsRevoked [] p.1) tokens
All-none-listed [] = tt
All-none-listed ((t, c) ∷ tokens) = (ground arith, All-none-listed tokens)

purge_revoked-All :
    (ids : List Str) (c : TokenCache)
    → All (λ (p : Str × CachedToken). ¬ IsRevoked ids p.1) (purge_revoked ids c).tokens
unfolding purge_revoked
purge_revoked-All [] c = All-none-listed c.tokens
purge_revoked-All (i ∷ ids) c = purge-All (i ∷ ids) c.tokens

purge_revoked-kept :
    (ids : List Str) (c : TokenCache) (t : Str) (k : CachedToken)
    → ¬ IsRevoked ids k
    → lookup t c.tokens ≡ some k
    → lookup t (purge_revoked ids c).tokens ≡ some k
unfolding purge_revoked
purge_revoked-kept [] c t k n h = h
purge_revoked-kept (i ∷ ids) c t k n h = purge-kept (i ∷ ids) t k c.tokens n h

-- An ID counts as revoked exactly when it is not empty and on the list.
pub is_token_revoked_iff :
    (ids : List Str) (id : Str)
    → (is_token_revoked ids id ≡ true) ↔ ((id ≢ []) × Some (λ x. x ≡ id) ids)
unfolding is_token_revoked
is_token_revoked_iff ids id = ground (arith, is_listed_iff id ids)

-- After a sync that brings the list `ids`, the cache holds no token that is on the list by its own
-- ID or its agent's, a token that was found in it and is not on the list so is still found, and the
-- engine answers from `ids`.
sync-purges :
    (ids : List Str) (now : ℕ) (r : Revocations) (c d : TokenCache) (t : Str) (k : CachedToken)
    → r.token_cache ≡ some c
    → (sync (some (some ids)) now r).1.token_cache ≡ some d
    → ¬ IsRevoked ids k
    → lookup t c.tokens ≡ some k
    → All (λ (p : Str × CachedToken). ¬ IsRevoked ids p.1) d.tokens
      × (lookup t d.tokens ≡ some k)
      × ((sync (some (some ids)) now r).1.revoked_ids ≡ ids)
unfolding sync
sync-purges ids now r c d t k h after n found =
    let e : purge_revoked ids c ≡ d = ground arith in
    rw (← e) (purge_revoked-All ids c, purge_revoked-kept ids c t k n found, refl)

-- A sync that fails keeps the list, the cache and the time of the last sync.
sync-failed :
    (fetched : Option (Option (List Str))) (now : ℕ) (r : Revocations)
    → (sync fetched now r).0 ≢ synced
    → (sync fetched now r).1 ≡ r
unfolding sync
sync-failed fetched now r h = ground arith
