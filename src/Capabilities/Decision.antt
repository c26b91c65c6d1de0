-- ===== src/Capabilities/Decision.antt =====
-- What a policy and an agent's restrictions decide, stated without the code's order of tests.
use agentsecrets.Prelude.{
  ◌≡◌, ◌↔◌, ◌⊎◌, ◌≢◌, inl, inr, true, some, List, [], ◌∷◌, arith, any, Some, any_iff, Option-cases,
}
use agentsecrets.Text.{Str, str_eq, to_lower, to_upper, equal_fold}
use agentsecrets.Text.Laws.{str_eq_iff, equal_fold_iff}
use agentsecrets.Capabilities.{
  deny, PolicyRule, SecretPolicy, AgentCapabilities, matched_rule, evaluate_secret,
  is_secret_allowed,
}

-- Two names that differ in the case of their letters only.
abbrev pub SameUpper : Str → Str → Type 0
SameUpper a b = to_upper a ≡ to_upper b

abbrev pub SameLower : Str → Str → Type 0
SameLower a b = to_lower a ≡ to_lower b

-- The policy has a rule for the domain, or lists it.
abbrev pub Names : SecretPolicy → Str → Type 0
Names c domain =
    Some (λ (r : PolicyRule). SameLower r.domain domain) c.rules
    ⊎ Some (λ d. SameLower d domain) c.domains

matched_rule-Some :
    (domain : Str) (rs : List PolicyRule) (r : PolicyRule)
    → matched_rule domain rs ≡ some r
    → Some (λ (x : PolicyRule). SameLower x.domain domain) rs
unfolding matched_rule
matched_rule-Some domain [] r h = cc
matched_rule-Some domain (x ∷ rs) r h =
    ground (arith, equal_fold_iff x.domain domain, matched_rule-Some domain rs r)

any-Some :
    (domain : Str) (ds : List Str)
    → any (λ d. equal_fold d domain) ds ≡ true
    → Some (λ d. SameLower d domain) ds
any-Some domain ds = (any_iff _ _ ds (λ d. equal_fold_iff d domain)).0

any-SameUpper :
    (key : Str) (xs : List Str)
    → (any (λ x. str_eq (to_upper x) (to_upper key)) xs ≡ true) ↔ Some (λ x. SameUpper x key) xs
any-SameUpper key xs = any_iff _ _ xs (λ x. str_eq_iff (to_upper x) (to_upper key))

-- A policy that does not deny a request names its domain, in whatever case, or restricts no
-- domain: it has no domain list, and no rules unless global methods stand beside them.
pub evaluate_secret_confined :
    (c : SecretPolicy) (domain method : Str)
    → evaluate_secret (some c) domain method ≢ deny
    → Names c domain ⊎ ((c.domains ≡ []) × ((c.rules ≡ []) ⊎ (c.methods ≢ [])))
unfolding evaluate_secret
evaluate_secret_confined c domain method h = elim (Option-cases (matched_rule domain c.rules)) [
  | inl missed ↦ ground (arith, any-Some domain c.domains)
  | inr (r, found) ↦ inl (inl (matched_rule-Some domain c.rules r found))
]

-- A key is allowed exactly when no denied key is the same up to case and the list of allowed
-- keys, if there is one, has it up to case.
is_secret_allowed_iff :
    (caps : AgentCapabilities) (key : Str)
    → (is_secret_allowed (some caps) key ≡ true) ↔ (
        (¬ Some (λ d. SameUpper d key) caps.denied_secrets)
        × ((caps.allowed_secrets ≡ []) ⊎ Some (λ a. SameUpper a key) caps.allowed_secrets))
unfolding is_secret_allowed
is_secret_allowed_iff caps key =
    ground (arith, any-SameUpper key caps.denied_secrets, any-SameUpper key caps.allowed_secrets)
