-- ===== src/Tests/Policy.antt =====
-- Policies, capabilities and the enforcement block.
use agentsecrets.Prelude.{◌≡◌, ◌≢◌, ◌⊎◌, refl, some, [], ◌∷◌, arith, lookup_by}
use agentsecrets.Text.{str, str_eq, to_upper, to_lower, upper_byte, lower_byte, equal_fold}
use agentsecrets.Capabilities.{
  SecretPolicy, allow, deny, evaluate_secret, matched_rule, under_rule, method_action,
}
use agentsecrets.Capabilities.Decision.{Names, evaluate_secret_confined}
use agentsecrets.Requests.{empty_allowlist, token_revoked, reason}
use agentsecrets.Audit.{make_enforcement_block}
use agentsecrets.Audit.Layers.{
  IsExplained, IsUnexplained, make_enforcement_block-IsExplained,
  make_enforcement_block-IsUnexplained,
}
use agentsecrets.Tests.Fixtures.{key}

abbrev policy : SecretPolicy
policy = record {
  domains = [];
  methods = [];
  rules = record { domain = str "api.stripe.com"; methods = (str "DELETE", deny) ∷ [] } ∷ [];
}

evaluate_secret-listed : evaluate_secret (some policy) (str "api.stripe.com") (str "GET") ≡ allow
unfolding evaluate_secret matched_rule under_rule method_action equal_fold to_upper to_lower
    upper_byte lower_byte str_eq str lookup_by
evaluate_secret-listed = refl

evaluate_secret_confined_example :
    Names policy (str "api.stripe.com")
    ⊎ ((policy.domains ≡ []) × ((policy.rules ≡ []) ⊎ (policy.methods ≢ [])))
evaluate_secret_confined_example =
    evaluate_secret_confined policy (str "api.stripe.com") (str "GET")
      (λ e. ground (arith, evaluate_secret-listed))

make_enforcement_block-IsExplained_example : IsExplained (str "workspace_allowlist") (str "empty") (
    make_enforcement_block
      (reason empty_allowlist)
      (str "empty")
      (str "api.stripe.com")
      (str "GET")
      []
      (key ∷ []))
unfolding str
make_enforcement_block-IsExplained_example =
    make_enforcement_block-IsExplained (str "empty") (str "api.stripe.com") (str "GET") []
      (key ∷ []) empty_allowlist (λ e. cc)

make_enforcement_block-IsUnexplained_example : IsUnexplained (
    make_enforcement_block
      (reason token_revoked)
      (str "revoked")
      (str "api.stripe.com")
      (str "GET")
      []
      (key ∷ []))
make_enforcement_block-IsUnexplained_example =
    make_enforcement_block-IsUnexplained (str "revoked") (str "api.stripe.com") (str "GET") []
      (key ∷ []) token_revoked refl
