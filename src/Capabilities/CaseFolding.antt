-- ===== src/Capabilities/CaseFolding.antt =====
-- The case of a domain or a method changes no decision.
use agentsecrets.Prelude.{◌≡◌, refl, some, none, Option, List, [], ◌∷◌, arith, any}
use agentsecrets.Text.{Str, equal_fold}
use agentsecrets.Text.Laws.{equal_fold_iff}
use agentsecrets.Capabilities.{PolicyRule, SecretPolicy, matched_rule, evaluate_secret}
use agentsecrets.Capabilities.Decision.{SameUpper, SameLower}

equal_fold-SameLower : (x d e : Str) → SameLower d e → equal_fold x d ≡ equal_fold x e
equal_fold-SameLower x d e h = ground (arith, equal_fold_iff x d, equal_fold_iff x e)

matched_rule-SameLower :
    (rs : List PolicyRule) (d e : Str) → SameLower d e → matched_rule d rs ≡ matched_rule e rs
unfolding matched_rule
matched_rule-SameLower [] d e h = refl
matched_rule-SameLower (r ∷ rs) d e h =
    ground (arith, equal_fold-SameLower r.domain d e h, matched_rule-SameLower rs d e h)

any-SameLower :
    (ds : List Str) (d e : Str)
    → SameLower d e
    → any (λ x. equal_fold x d) ds ≡ any (λ x. equal_fold x e) ds
any-SameLower [] d e h = refl
any-SameLower (x ∷ ds) d e h = ground (arith, equal_fold-SameLower x d e h, any-SameLower ds d e h)

-- Domains that agree up to case and methods that agree up to case get the same action from
-- every policy.
evaluate_secret_case_insensitive :
    (c : Option SecretPolicy) (d e m n : Str)
    → SameLower d e
    → SameUpper m n
    → evaluate_secret c d m ≡ evaluate_secret c e n
unfolding evaluate_secret
evaluate_secret_case_insensitive none d e m n h k = refl
evaluate_secret_case_insensitive (some c) d e m n h k =
    ground (arith, matched_rule-SameLower c.rules d e h, any-SameLower c.domains d e h, k)
