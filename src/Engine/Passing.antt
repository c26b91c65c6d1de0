-- ===== src/Engine/Passing.antt =====
-- What each check has established when it goes on.
use agentsecrets.Prelude.{
  ◌≡◌, ◌⊎◌, refl, Bool, true, false, Option, none, some, List, [], ◌∷◌, arith, All, Some, any_iff,
  subst, ◌||◌,
}
use agentsecrets.Text.{Str, str, str_eq, to_lower}
use agentsecrets.Text.Laws.{str_eq_iff}
use agentsecrets.Approvals.{World}
use agentsecrets.Capabilities.{SecretPolicy, evaluate_secret, is_secret_allowed}
use agentsecrets.Injector.{Injection}
use agentsecrets.Requests.{CallRequest}
use agentsecrets.Engine.{Engine, State, Target}
use agentsecrets.Engine.Flow.{
  Flow, go, finish, fail, fault, Stage, log_blocked, continue_with, ◌>>=◌,
}
use agentsecrets.Engine.Authorize.{
  has_secret, check_presence, check_https, check_capabilities, on_allowlist, read_allowlist,
  check_allowlist,
}
use agentsecrets.Engine.Grants.{here, Reaches, IsPermitted, on_action-go, on_action-Reaches}
use agentsecrets.Engine.Policies.{on_action, restricts, check_each, with_resolver, check_policies}

module _ {A B : Type 0} where
  continue-go :
      (r : Flow A) (f : A → Stage B) (s : State) {b : B}
      → (continue_with r f s).0 ≡ go b
      → (a : A) × (r ≡ go a) × ((f a s).0 ≡ go b)
  continue-go (go a) f s h = (a, refl, h)
  continue-go (finish r) f s h = cc
  continue-go (fail x) f s h = cc
  continue-go fault f s h = cc

  pub bind-go :
      (m : Stage A) (f : A → Stage B) (s : State) {b : B}
      → ((m >>= f) s).0 ≡ go b
      → (a : A) × ((m s).0 ≡ go a) × ((f a (m s).1).0 ≡ go b)
  unfolding ◌>>=◌
  bind-go m f s h = continue-go (m s).0 f (m s).1 h

module _ (e : Engine) (req : CallRequest) where
  pub check_presence-All :
      (injs : List Injection) (s : State)
      → (check_presence e injs s).0 ≡ go tt
      → All (λ (inj : Injection). has_secret e inj.secret_key ≡ true) injs
  unfolding check_presence
  check_presence-All [] s h = tt
  check_presence-All (inj ∷ injs) s h = ground (arith, check_presence-All injs s)

  module _ (t : Target) where
    pub check_https-go :
        (s : State)
        → (check_https e req t s).0 ≡ go tt
        → (to_lower t.url.scheme ≡ str "https") ⊎ (e.testing ≡ true)
    unfolding check_https log_blocked
    check_https-go s h = ground (arith, str_eq_iff (to_lower t.url.scheme) (str "https"))

    pub check_capabilities-All :
        (injs : List Injection) (s : State)
        → (check_capabilities e req t injs s).0 ≡ go tt
        → All (λ (inj : Injection). is_secret_allowed req.capabilities inj.secret_key ≡ true) injs
    unfolding check_capabilities log_blocked
    check_capabilities-All [] s h = tt
    check_capabilities-All (inj ∷ injs) s h = ground (arith, check_capabilities-All injs s)

    on_allowlist-go :
        (o : Option (List Str)) (s : State)
        → (on_allowlist e req t o s).0 ≡ go tt
        → (l : List Str) × (o ≡ some l) × Some (λ raw. to_lower raw ≡ t.domain) l
    unfolding log_blocked
    on_allowlist-go none s h = cc
    on_allowlist-go (some l) s h = (
      l,
      refl,
      ground (
        arith,
        any_iff (λ raw. to_lower raw ≡ t.domain) (λ raw. str_eq (to_lower raw) t.domain) l
            (λ raw. str_eq_iff (to_lower raw) t.domain),
      ),
    )

    pub check_allowlist-go :
        (s : State)
        → (check_allowlist e req t s).0 ≡ go tt
        → (l : List Str) × (read_allowlist e ≡ some l) × Some (λ raw. to_lower raw ≡ t.domain) l
    unfolding check_allowlist
    check_allowlist-go s h = on_allowlist-go (read_allowlist e) s h

    module _ (w : World) where
      check_each-All :
          (policy : Str → Option SecretPolicy) (has_policy b : Bool) (injs : List Injection)
          (s : State)
          → Reaches e w s.approvals
          → (check_each e policy req t has_policy injs s).0 ≡ go b
          → All (IsPermitted e w policy req t) injs
      unfolding check_each
      check_each-All policy has_policy b [] s r h = tt
      check_each-All policy has_policy b (inj ∷ injs) s r h =
          let action = evaluate_secret (policy inj.secret_key) t.domain t.method in
          let more = has_policy || restricts (policy inj.secret_key) in
          let (u, passed, rest) =
            bind-go (on_action e req t inj action) (λ _. check_each e policy req t more injs) s h in
          (
            on_action-go e req t w inj action s r passed,
            check_each-All policy more b injs (on_action e req t inj action s).1
                (on_action-Reaches e req t w inj action s r) rest,
          )

      with_resolver-All :
          (o : Option (Str → Option SecretPolicy)) (policy : Str → Option SecretPolicy) (s : State)
          (b : Bool)
          → Reaches e w s.approvals
          → o ≡ some policy
          → (with_resolver e req t o s).0 ≡ go b
          → All (IsPermitted e w policy req t) req.injections
      with_resolver-All none policy s b r p h = cc
      with_resolver-All (some q) policy s b r p h =
          let same : q ≡ policy = cc in
          subst (λ x. All (IsPermitted e w x req t) req.injections) same
            (check_each-All q false b req.injections s r h)

    pub check_policies-go :
        (s : State) (b : Bool) (policy : Str → Option SecretPolicy)
        → e.resolve_policy ≡ some policy
        → (check_policies e req t s).0 ≡ go b
        → All (IsPermitted e s.approvals policy req t) req.injections
    unfolding check_policies
    check_policies-go s b policy p h =
        with_resolver-All s.approvals e.resolve_policy policy s b here p h
