-- ===== src/Engine/Quiet.antt =====
-- The checks hand nothing to the HTTP client.
use agentsecrets.Prelude.{
  ◌≡◌, ◌≢◌, ◌∙◌, refl, Bool, false, Option, none, some, List, [], ◌∷◌, arith,
}
use agentsecrets.Text.{Str}
use agentsecrets.Capabilities.{Action, allow, deny, request_permission, other, SecretPolicy}
use agentsecrets.Audit.{Trace}
use agentsecrets.Identity.{Identity, resolved, blocked, failed, resolve_identity}
use agentsecrets.Injector.{Injection}
use agentsecrets.Requests.{CallRequest, Block}
use agentsecrets.Engine.{Engine, State, Target, Url}
use agentsecrets.Engine.Flow.{
  Flow, go, finish, fail, fault, Stage, log_blocked, add_trace, continue_with, ◌>>=◌,
}
use agentsecrets.Engine.Authorize.{
  target_of, read_target, check_presence, check_https, identify, on_identity, check_capabilities,
  on_allowlist, read_allowlist, check_allowlist,
}
use agentsecrets.Engine.Policies.{
  approval_key, await_approval, on_line, request_approval, on_action, check_each, with_resolver,
  check_policies,
}

-- The stage leaves the list of sent requests alone, from every state.
abbrev pub IsQuiet : {A : Type 0} → Stage A → Type 0
IsQuiet m = (s : State) → (m s).1.sent ≡ s.sent

-- The stage has sent something.
abbrev pub Sends : {A : Type 0} → Stage A → State → Type 0
Sends m s = (m s).1.sent ≢ s.sent

pub sent-add_trace : (e : Engine) (t : Trace) (s : State) → (add_trace e t s).sent ≡ s.sent
unfolding add_trace
sent-add_trace e t s = ground arith

pub IsQuiet-log_blocked :
    (e : Engine) (req : CallRequest) (t : Target) (b : Block) (A : Type 0)
    → IsQuiet (log_blocked e req t b {A = A})
unfolding log_blocked
IsQuiet-log_blocked e req t b A s = ground arith

module _ {A B : Type 0} where
  IsQuiet-continue :
      (r : Flow A) (f : A → Stage B)
      → ((a : A) → IsQuiet (f a))
      → (s : State) → (continue_with r f s).1.sent ≡ s.sent
  IsQuiet-continue (go a) f h s = h a s
  IsQuiet-continue (finish r) f h s = refl
  IsQuiet-continue (fail x) f h s = refl
  IsQuiet-continue fault f h s = refl

  pub IsQuiet-bind :
      (m : Stage A) (f : A → Stage B) → IsQuiet m → ((a : A) → IsQuiet (f a)) → IsQuiet (m >>= f)
  unfolding ◌>>=◌
  IsQuiet-bind m f q h s = IsQuiet-continue (m s).0 f h (m s).1 ∙ q s

  continue-Sends :
      (r : Flow A) (f : A → Stage B) (s : State)
      → (continue_with r f s).1.sent ≢ s.sent
      → (a : A) × (r ≡ go a) × Sends (f a) s
  continue-Sends (go a) f s h = (a, refl, h)
  continue-Sends (finish r) f s h = absurd (h refl)
  continue-Sends (fail x) f s h = absurd (h refl)
  continue-Sends fault f s h = absurd (h refl)

  -- If a chain sends and its first stage is quiet, that stage went on and the rest sends.
  pub bind-Sends :
      (m : Stage A) (f : A → Stage B) (s : State)
      → IsQuiet m
      → Sends (m >>= f) s
      → (a : A) × ((m s).0 ≡ go a) × Sends (f a) (m s).1
  unfolding ◌>>=◌
  bind-Sends m f s q h = continue-Sends (m s).0 f (m s).1 (λ e. h (e ∙ q s))

module _ (e : Engine) (req : CallRequest) where
  IsQuiet-target_of : (method : Str) (o : Option Url) → IsQuiet (target_of method o)
  IsQuiet-target_of method none s = refl
  IsQuiet-target_of method (some u) s = refl

  pub IsQuiet-read_target : IsQuiet (read_target e req)
  unfolding read_target
  IsQuiet-read_target s = ground arith

  pub IsQuiet-check_presence : (injs : List Injection) → IsQuiet (check_presence e injs)
  unfolding check_presence
  IsQuiet-check_presence [] s = refl
  IsQuiet-check_presence (inj ∷ injs) s = ground (arith, IsQuiet-check_presence injs s)

  module _ (t : Target) where
    pub IsQuiet-check_https : IsQuiet (check_https e req t)
    unfolding check_https log_blocked
    IsQuiet-check_https s = ground arith

    IsQuiet-on_identity : (i : Identity) → IsQuiet (on_identity e req t i)
    IsQuiet-on_identity (resolved r) s = refl
    IsQuiet-on_identity (blocked b) s = IsQuiet-log_blocked e req t b _ s
    IsQuiet-on_identity failed s = refl

    pub IsQuiet-identify : IsQuiet (identify e req t)
    unfolding identify
    IsQuiet-identify s = ground (
      arith,
      IsQuiet-on_identity (resolve_identity e.identity req s.tokens).0
          (record s { tokens = (resolve_identity e.identity req s.tokens).1 }),
    )

    pub IsQuiet-check_capabilities :
        (injs : List Injection) → IsQuiet (check_capabilities e req t injs)
    unfolding check_capabilities log_blocked
    IsQuiet-check_capabilities [] s = refl
    IsQuiet-check_capabilities (inj ∷ injs) s = ground (arith, IsQuiet-check_capabilities injs s)

    IsQuiet-on_allowlist : (o : Option (List Str)) → IsQuiet (on_allowlist e req t o)
    unfolding log_blocked
    IsQuiet-on_allowlist none s = refl
    IsQuiet-on_allowlist (some l) s = ground arith

    pub IsQuiet-check_allowlist : IsQuiet (check_allowlist e req t)
    unfolding check_allowlist
    IsQuiet-check_allowlist s = IsQuiet-on_allowlist (read_allowlist e) s

    IsQuiet-await_approval : (inj : Injection) → IsQuiet (await_approval e req t inj)
    unfolding await_approval log_blocked
    IsQuiet-await_approval inj s = ground arith

    IsQuiet-on_line : (inj : Injection) (o : Option Str) → IsQuiet (on_line e req t inj o)
    unfolding on_line log_blocked
    IsQuiet-on_line inj none s = IsQuiet-await_approval inj s
    IsQuiet-on_line inj (some line) s = ground arith

    IsQuiet-request_approval : (inj : Injection) → IsQuiet (request_approval e req t inj)
    unfolding request_approval
    IsQuiet-request_approval inj s = ground (
      arith,
      IsQuiet-await_approval inj s,
      IsQuiet-on_line inj (e.prompt (approval_key req t inj)) s,
    )

    IsQuiet-on_action : (inj : Injection) (a : Action) → IsQuiet (on_action e req t inj a)
    unfolding on_action
    IsQuiet-on_action inj allow s = refl
    IsQuiet-on_action inj (other a) s = refl
    IsQuiet-on_action inj deny s = IsQuiet-log_blocked e req t _ _ s
    IsQuiet-on_action inj request_permission s = IsQuiet-request_approval inj s

    IsQuiet-check_each :
        (policy : Str → Option SecretPolicy) (has_policy : Bool) (injs : List Injection)
        → IsQuiet (check_each e policy req t has_policy injs)
    unfolding check_each
    IsQuiet-check_each policy has_policy [] s = refl
    IsQuiet-check_each policy has_policy (inj ∷ injs) s =
        IsQuiet-bind _ _ (IsQuiet-on_action inj _) (λ _. IsQuiet-check_each policy _ injs) s

    IsQuiet-with_resolver :
        (o : Option (Str → Option SecretPolicy)) → IsQuiet (with_resolver e req t o)
    IsQuiet-with_resolver none s = refl
    IsQuiet-with_resolver (some policy) s = IsQuiet-check_each policy false req.injections s

    pub IsQuiet-check_policies : IsQuiet (check_policies e req t)
    unfolding check_policies
    IsQuiet-check_policies s = IsQuiet-with_resolver e.resolve_policy s
