-- ===== src/Engine/Safety.antt =====
-- What has been checked by the time `ExecuteCtx` hands a request to the HTTP client.
use agentsecrets.Approvals.{World}
use agentsecrets.Prelude.{
  ap, Bool, Option-cases, ◌≡◌, ◌⊎◌, inl, inr, refl, true, Option, none, some, List, [], ◌∷◌, arith,
  All, Some, is_some, Bool-cases, subst, ◌∙◌,
}
use agentsecrets.Text.{Str, str, to_lower}
use agentsecrets.Capabilities.{SecretPolicy, is_secret_allowed}
use agentsecrets.Identity.{Identity, Resolved, resolved, blocked, failed, resolve_identity}
use agentsecrets.Injector.{Injection}
use agentsecrets.Requests.{CallRequest}
use agentsecrets.Engine.{Engine, State, Target, Url}
use agentsecrets.Engine.Flow.{go, log_blocked}
use agentsecrets.Engine.Authorize.{
  on_allowlist, target_of, read_target, has_secret, check_presence, check_https, identify,
  apply_identity, on_identity, check_capabilities, read_allowlist, check_allowlist,
}
use agentsecrets.Engine.Policies.{check_policies}
use agentsecrets.Engine.Pipeline.{run_checks, execute}
use agentsecrets.Engine.Quiet.{
  Sends, bind-Sends, IsQuiet-read_target, IsQuiet-check_presence, IsQuiet-check_https,
  IsQuiet-identify, IsQuiet-check_capabilities, IsQuiet-check_allowlist, IsQuiet-check_policies,
}
use agentsecrets.Engine.Grants.{IsPermitted}
use agentsecrets.Engine.Passing.{
  check_presence-All, check_https-go, check_capabilities-All, check_allowlist-go, check_policies-go,
}

-- The request as it is after the identity stage: as it came when its capabilities were known, else
-- with what the resolved identity changes.
abbrev pub IsIdentified : Engine → CallRequest → State → CallRequest → Type 0
IsIdentified e req s identified =
    ((is_some req.capabilities ≡ true) × (identified ≡ req))
    ⊎ ((r : Resolved) × ((resolve_identity e.identity req s.tokens).0 ≡ resolved r)
        × (identified ≡ apply_identity req r))

module _ (e : Engine) (req : CallRequest) (s : State) where
  target_of-state : (method : Str) (o : Option Url) → (target_of method o s).1 ≡ s
  target_of-state method none = refl
  target_of-state method (some u) = refl

  read_target-state : (read_target e req s).1 ≡ s
  unfolding read_target
  read_target-state = ground arith

  check_presence-state : (injs : List Injection) → (check_presence e injs s).1 ≡ s
  unfolding check_presence
  check_presence-state [] = refl
  check_presence-state (inj ∷ injs) = ground (arith, check_presence-state injs)

  check_https-state :
      (t : Target) → (check_https e req t s).0 ≡ go tt → (check_https e req t s).1 ≡ s
  unfolding check_https log_blocked
  check_https-state t h = ground arith

  on_identity-go :
      (t : Target) (i : Identity) (s' : State) (req' : CallRequest)
      → (on_identity e req t i s').0 ≡ go req'
      → (r : Resolved) × (i ≡ resolved r) × (req' ≡ apply_identity req r)
  unfolding log_blocked
  on_identity-go t (resolved r) s' req' h = (r, refl, cc)
  on_identity-go t (blocked b) s' req' h = cc
  on_identity-go t failed s' req' h = cc

  identify-go :
      (t : Target) (req' : CallRequest)
      → (identify e req t s).0 ≡ go req'
      → IsIdentified e req s req'
  unfolding identify
  identify-go t req' h = elim (Bool-cases (is_some req.capabilities)) [
    | inl known ↦ inl (known, ground arith)
    | inr unknown ↦ inr (
        on_identity-go t (resolve_identity e.identity req s.tokens).0
          (record s { tokens = (resolve_identity e.identity req s.tokens).1 }) req' (ground arith))
  ]

-- Where the engine reads policies, each secret's policy permits the request, the approvals being
-- those that the call can come to from `w`.
abbrev pub IsPolicyCleared : Engine → World → Target → CallRequest → Type 0
IsPolicyCleared e w t req =
    (e.resolve_policy ≡ none)
    ⊎ ((policy : Str → Option SecretPolicy) × (e.resolve_policy ≡ some policy)
        × All (IsPermitted e w policy req t) req.injections)

-- What the checks behind the identity stage establish for the request with its identity: no
-- capability refuses one of the secrets, the allowlist names the domain, and where the engine reads
-- policies, each secret's policy permits the request.
abbrev pub IsCleared : Engine → World → Target → CallRequest → Type 0
IsCleared e w t req =
    All (λ (inj : Injection). is_secret_allowed req.capabilities inj.secret_key ≡ true)
      req.injections
    × ((l : List Str) × (read_allowlist e ≡ some l) × Some (λ raw. to_lower raw ≡ t.domain) l)
    × IsPolicyCleared e w t req

check_policies-cleared :
    (e : Engine) (req : CallRequest) (t : Target) (s : State) (b : Bool)
    → (check_policies e req t s).0 ≡ go b
    → IsPolicyCleared e s.approvals t req
check_policies-cleared e req t s b h = elim (Option-cases e.resolve_policy) [
  | inl missing ↦ inl missing
  | inr (policy, p) ↦ inr (policy, p, check_policies-go e req t s b policy p h)
]

check_capabilities-state :
    (e : Engine) (req : CallRequest) (t : Target) (injs : List Injection) (s : State)
    → (check_capabilities e req t injs s).0 ≡ go tt
    → (check_capabilities e req t injs s).1 ≡ s
unfolding check_capabilities log_blocked
check_capabilities-state e req t [] s h = refl
check_capabilities-state e req t (inj ∷ injs) s h =
    ground (arith, check_capabilities-state e req t injs s)

on_allowlist-state :
    (e : Engine) (req : CallRequest) (t : Target) (o : Option (List Str)) (s : State)
    → (on_allowlist e req t o s).0 ≡ go tt
    → (on_allowlist e req t o s).1 ≡ s
unfolding log_blocked
on_allowlist-state e req t none s h = refl
on_allowlist-state e req t (some l) s h = ground arith

check_allowlist-state :
    (e : Engine) (req : CallRequest) (t : Target) (s : State)
    → (check_allowlist e req t s).0 ≡ go tt
    → (check_allowlist e req t s).1 ≡ s
unfolding check_allowlist
check_allowlist-state e req t s h = on_allowlist-state e req t (read_allowlist e) s h

on_identity-approvals :
    (e : Engine) (req req' : CallRequest) (t : Target) (i : Identity) (s : State)
    → (on_identity e req t i s).0 ≡ go req'
    → (on_identity e req t i s).1.approvals ≡ s.approvals
unfolding log_blocked
on_identity-approvals e req req' t (resolved r) s h = refl
on_identity-approvals e req req' t (blocked b) s h = cc
on_identity-approvals e req req' t failed s h = refl

identify-approvals :
    (e : Engine) (req req' : CallRequest) (t : Target) (s : State)
    → (identify e req t s).0 ≡ go req'
    → (identify e req t s).1.approvals ≡ s.approvals
unfolding identify
identify-approvals e req req' t s h = ground (
  arith,
  on_identity-approvals e req req' t (resolve_identity e.identity req s.tokens).0
      (record s { tokens = (resolve_identity e.identity req s.tokens).1 }),
)

run_checks-Sends :
    (e : Engine) (req : CallRequest) (t : Target) (s : State)
    → Sends (run_checks e req t) s
    → IsCleared e s.approvals t req
unfolding run_checks
run_checks-Sends e req t s h =
    let (u, allowed, h₁) =
      bind-Sends (check_capabilities e req t req.injections) _ s
        (IsQuiet-check_capabilities e req t req.injections) h in
    let (v, listed, h₂) =
      bind-Sends (check_allowlist e req t) _ _ (IsQuiet-check_allowlist e req t) h₁ in
    let (b, permitted, h₃) =
      bind-Sends (check_policies e req t) _ _ (IsQuiet-check_policies e req t) h₂ in
    let s₁ = (check_capabilities e req t req.injections s).1 in
    let kept : (check_allowlist e req t s₁).1.approvals ≡ s.approvals =
      ap (λ (x : State). x.approvals)
        (check_allowlist-state e req t s₁ listed
          ∙ check_capabilities-state e req t req.injections s allowed) in
    (
      check_capabilities-All e req t req.injections s allowed,
      check_allowlist-go e req t _ listed,
      subst (λ w. IsPolicyCleared e w t req) kept (check_policies-cleared e req t _ b permitted),
    )

-- What holds of a call that sends: its target was read, each secret is present, the scheme is https
-- unless the engine runs in testing mode, the identity was resolved and not refused, and the request
-- that has that identity is cleared.
abbrev pub IsAuthorized : Engine → CallRequest → State → Target → CallRequest → Type 0
IsAuthorized e req s t identified =
    ((read_target e req s).0 ≡ go t)
    × All (λ (inj : Injection). has_secret e inj.secret_key ≡ true) req.injections
    × ((to_lower t.url.scheme ≡ str "https") ⊎ (e.testing ≡ true))
    × IsIdentified e req s identified
    × IsCleared e s.approvals t identified

-- If `ExecuteCtx` hands a request to the HTTP client, from whatever state, then the call was
-- authorized: the target was parsed from the request, every secret is present, the scheme is https
-- (or the engine is in testing mode), the identity stage resolved the request's identity, the
-- capabilities of that identity allow every secret, the allowlist has the target's domain, and where
-- policies are read none of the secrets' policies denies the request, and each that asks for the
-- developer's permission was approved: in a store that the call came to from the one it began with,
-- by the end of a wait, or by a line at the prompt.
pub execute-IsAuthorized :
    (e : Engine) (req : CallRequest) (s : State)
    → Sends (execute e req) s
    → (t : Target) × (identified : CallRequest) × IsAuthorized e req s t identified
unfolding execute
execute-IsAuthorized e req s h =
    let (t, target, h₁) = bind-Sends (read_target e req) _ s (IsQuiet-read_target e req) h in
    let (u, present, h₂) =
      bind-Sends (check_presence e req.injections) _ _ (IsQuiet-check_presence e req req.injections)
        h₁ in
    let (v, secure, h₃) = bind-Sends (check_https e req t) _ _ (IsQuiet-check_https e req t) h₂ in
    let (identified, known, h₄) = bind-Sends (identify e req t) _ _ (IsQuiet-identify e req t) h₃ in
    let unread : (read_target e req s).1 ≡ s = read_target-state e req s in
    let unchanged : (check_presence e req.injections (read_target e req s).1).1 ≡ s =
      check_presence-state e req (read_target e req s).1 req.injections ∙ unread in
    let kept =
      check_https-state e req (check_presence e req.injections (read_target e req s).1).1 t secure
      ∙ unchanged in
    (
      t,
      identified,
      (
        target,
        check_presence-All e req req.injections _ present,
        check_https-go e req t _ secure,
        subst (λ s'. IsIdentified e req s' identified) kept
            (identify-go e req _ t identified known),
        subst (λ w. IsCleared e w t identified)
            (identify-approvals e req identified t _ known ∙ ap (λ (x : State). x.approvals) kept)
            (run_checks-Sends e identified t _ h₄),
      ),
    )
