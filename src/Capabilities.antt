-- ===== src/Capabilities.antt =====
-- pkg/capabilities/policy.go: the policy of one secret and its evaluation, and the restrictions of
-- an agent with their check, `isSecretAllowed` of pkg/proxy/engine.go.
pub mod Decision
pub mod CaseFolding
use agentsecrets.Prelude.{
  Bool, true, false, not, ◌&&◌, Option, none, some, List, [], ◌∷◌, if◌then◌else◌, is_empty, any,
}
use agentsecrets.Text.{Str, str_eq, to_upper, equal_fold, lookup}

-- `Action` is a string; `other` stands for one that is none of the three constants.
pub data Action : Type 0 where
  allow deny request_permission : Action
  other : Str → Action

pub record PolicyRule : Type 0 where
  pub domain : Str
  pub methods : List (Str × Action)

pub record SecretPolicy : Type 0 where
  pub domains : List Str
  pub methods : List (Str × Action)
  pub rules : List PolicyRule

pub record AgentCapabilities : Type 0 where
  pub allowed_secrets : List Str
  pub denied_secrets : List Str

-- The loop over `c.Rules`.
unfoldable pub matched_rule : Str → List PolicyRule → Option PolicyRule
matched_rule domain [] = none
matched_rule domain (r ∷ rs) = if equal_fold r.domain domain then some r else matched_rule domain rs

-- The explicit action of a method, if the map has one.
unfoldable pub method_action : Str → List (Str × Action) → Option Action
method_action method methods = lookup (to_upper method) methods

abbrev or_allow : Option Action → Action
or_allow none = allow
or_allow (some a) = a

-- The branch `matchedRule != nil`.
unfoldable pub under_rule : SecretPolicy → PolicyRule → Str → Action
unfolding method_action
under_rule c r method = elim (method_action method r.methods) [
  | some action ↦ action
  | none ↦ or_allow (method_action method c.methods)
]

-- No domain-specific rule matched.
unfoldable pub under_globals : SecretPolicy → Str → Str → Action
unfolding method_action
under_globals c domain method =
    if not (is_empty c.rules) && is_empty c.domains && is_empty c.methods
    then deny
    else if not (is_empty c.domains) && not (any (λ d. equal_fold d domain) c.domains)
    then deny
    else or_allow (method_action method c.methods)

unfoldable pub evaluate_secret : Option SecretPolicy → Str → Str → Action
unfolding matched_rule under_rule under_globals
evaluate_secret none domain method = allow
evaluate_secret (some c) domain method = elim (matched_rule domain c.rules) [
  | some r ↦ under_rule c r method
  | none ↦ under_globals c domain method
]

unfoldable pub is_secret_allowed : Option AgentCapabilities → Str → Bool
is_secret_allowed none key = true
is_secret_allowed (some caps) key =
    let upper_key = to_upper key in
    if any (λ denied. str_eq (to_upper denied) upper_key) caps.denied_secrets
    then false
    else if not (is_empty caps.allowed_secrets)
    then any (λ allowed. str_eq (to_upper allowed) upper_key) caps.allowed_secrets
    else true
