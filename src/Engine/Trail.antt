-- ===== src/Engine/Trail.antt =====
-- What each stage of `ExecuteCtx` leaves in the audit trail.
use agentsecrets.Prelude.{
  ◌≡◌, refl, Bool, true, false, Option, none, some, List, [], ◌∷◌, ◌++◌, if◌then◌else◌, subst,
  is_some, is_empty, any, not, ◌&&◌,
}
use agentsecrets.Text.{Str, str, str_eq, to_lower, to_upper}
use agentsecrets.Audit.{Trace}
use agentsecrets.Approvals.{is_approved, approve}
use agentsecrets.Capabilities.{Action, allow, deny, request_permission, other, SecretPolicy}
use agentsecrets.Identity.{Identity, resolved, blocked, failed, resolve_identity}
use agentsecrets.Injector.{Injection}
use agentsecrets.Requests.{
  CallRequest, Block, reason, empty_allowlist, domain_not_in_allowlist, policy_approval_required,
}
use agentsecrets.Engine.{Engine, State, Target, Url, Failure, no_target, no_injections}
use agentsecrets.Engine.Flow.{
  Flow, go, finish, fail, fault, Stage, log_blocked, add_trace, forbidden, audit_blocked,
  audit_event, raise, continue_with, ◌>>=◌,
}
use agentsecrets.Engine.Authorize.{
  target_of, read_target, check_presence, check_https, identify, on_identity, check_capabilities,
  on_allowlist, read_allowlist, check_allowlist,
}
use agentsecrets.Engine.Policies.{
  approval_key, await_approval, on_line, is_yes, request_approval, on_action, check_each,
  with_resolver, check_policies,
}

-- The trail has one more record, of a call that was blocked.
abbrev pub IsBlockedTrail : List Trace → State → Type 0
IsBlockedTrail old s =
    (t : Trace) × (s.trail ≡ old ++ t ∷ [])
    × (t.event.status ≡ str "BLOCKED")
    × (t.event.status_code ≡ 403)

-- A stage that ends the call with a result answers 403 and leaves one record of a blocked call; one
-- that ends it with an error or a fault leaves none; one that goes on satisfies `Q`.
abbrev pub IsLogged : {A : Type 0} → (A → State → Type 0) → List Trace → Flow A × State → Type 0
IsLogged Q old (go a, s) = Q a s
IsLogged Q old (finish r, s) = (r.status_code ≡ 403) × IsBlockedTrail old s
IsLogged Q old (fail x, s) = s.trail ≡ old
IsLogged Q old (fault, s) = s.trail ≡ old

abbrev pub Keeps : {A : Type 0} → List Trace → A → State → Type 0
Keeps old a s = s.trail ≡ old

-- The stage goes on with the trail as it was, from every state.
pub record IsOrderly {A : Type 0} (m : Stage A) : Type 0 where
  pub runs : (s : State) → IsLogged (Keeps s.trail) s.trail (m s)

pub if-case {ℓ κ} :
    {A : Type ℓ} (P : A → Type κ) (b : Bool) (x y : A) → P x → P y → P (if b then x else y)
if-case P true x y p q = p
if-case P false x y p q = q

module _ {A B : Type 0} where
  pub IsLogged-continue :
      (Q : B → State → Type 0) (old : List Trace) (r : Flow A) (f : A → Stage B) (s : State)
      → IsLogged (Keeps old) old (r, s)
      → ((a : A) (u : State) → u.trail ≡ old → IsLogged Q old (f a u))
      → IsLogged Q old (continue_with r f s)
  IsLogged-continue Q old (go a) f s h k = k a s h
  IsLogged-continue Q old (finish r) f s h k = h
  IsLogged-continue Q old (fail x) f s h k = h
  IsLogged-continue Q old fault f s h k = h

  pub IsLogged-bind :
      (Q : B → State → Type 0) (m : Stage A) (f : A → Stage B) (s : State)
      → IsOrderly m
      → ((a : A) (u : State) → u.trail ≡ s.trail → IsLogged Q s.trail (f a u))
      → IsLogged Q s.trail ((m >>= f) s)
  unfolding ◌>>=◌
  IsLogged-bind Q m f s q k = IsLogged-continue Q s.trail (m s).0 f (m s).1 (q.runs s) k

module _ {A : Type 0} where
  pub IsOrderly-at :
      (m : Stage A) (s : State) (old : List Trace)
      → s.trail ≡ old
      → IsOrderly m
      → IsLogged (Keeps old) old (m s)
  IsOrderly-at m s old h q = subst (λ l. IsLogged (Keeps l) l (m s)) h (q.runs s)

  pub IsOrderly-if :
      (b : Bool) (m n : Stage A) → IsOrderly m → IsOrderly n → IsOrderly (if b then m else n)
  IsOrderly-if true m n p q = p
  IsOrderly-if false m n p q = q

  pub IsLogged-if :
      (Q : A → State → Type 0) (old : List Trace) (b : Bool) (x y : Flow A × State)
      → IsLogged Q old x
      → IsLogged Q old y
      → IsLogged Q old (if b then x else y)
  IsLogged-if Q old true x y p q = p
  IsLogged-if Q old false x y p q = q

  pub IsOrderly-pure : (a : A) → IsOrderly (λ s. (go a, s))
  IsOrderly-pure a = record { runs = λ s. refl }

  pub IsOrderly-raise : (x : Failure) → IsOrderly {A = A} (raise x)
  IsOrderly-raise x = record { runs = λ s. refl }

pub IsOrderly-bind :
    {A B : Type 0} (m : Stage A) (f : A → Stage B)
    → IsOrderly m
    → ((a : A) → IsOrderly (f a))
    → IsOrderly (m >>= f)
IsOrderly-bind m f q h = record {
  runs = λ s. IsLogged-bind (Keeps s.trail) m f s q (λ a u e. IsOrderly-at (f a) u s.trail e (h a));
}

module _ (e : Engine) (audited : e.has_audit ≡ true) where
  pub IsOrderly-log_blocked :
      (req : CallRequest) (t : Target) (b : Block) (A : Type 0)
      → IsOrderly (log_blocked e req t b {A = A})
  unfolding log_blocked add_trace forbidden audit_blocked audit_event
  IsOrderly-log_blocked req t b A = record {
    runs = λ s. (
      refl,
      (
        audit_blocked e req t.domain t.method t.url.path (reason b) (e.message b req),
        rw audited refl,
        refl,
        refl,
      ),
    );
  }

  module _ (req : CallRequest) where
    IsOrderly-target_of : (method : Str) (o : Option Url) → IsOrderly (target_of method o)
    IsOrderly-target_of method none = IsOrderly-raise _
    IsOrderly-target_of method (some u) = IsOrderly-pure _

    pub IsOrderly-read_target : IsOrderly (read_target e req)
    unfolding read_target
    IsOrderly-read_target = IsOrderly-if (is_empty req.target_url) _ _ (IsOrderly-raise no_target) (
        IsOrderly-if (is_empty req.injections) _ _ (IsOrderly-raise no_injections) (
          IsOrderly-target_of (if is_empty req.method then str "GET" else to_upper req.method)
            (e.parse_url req.target_url)))

    pub IsOrderly-check_presence : (injs : List Injection) → IsOrderly (check_presence e injs)
    unfolding check_presence
    IsOrderly-check_presence [] = IsOrderly-pure _
    IsOrderly-check_presence (inj ∷ injs) =
        IsOrderly-if _ _ _ (IsOrderly-check_presence injs) (IsOrderly-raise _)

    module _ (t : Target) where
      pub IsOrderly-check_https : IsOrderly (check_https e req t)
      unfolding check_https
      IsOrderly-check_https =
          IsOrderly-if _ _ _ (IsOrderly-log_blocked req t _ _) (IsOrderly-pure _)

      on_identity-IsLogged :
          (i : Identity) (s : State) → IsLogged (Keeps s.trail) s.trail (on_identity e req t i s)
      on_identity-IsLogged (resolved r) s = refl
      on_identity-IsLogged (blocked b) s = (IsOrderly-log_blocked req t b _).runs s
      on_identity-IsLogged failed s = refl

      pub IsOrderly-identify : IsOrderly (identify e req t)
      unfolding identify
      IsOrderly-identify = record {
        runs = λ s. IsLogged-if (Keeps s.trail) s.trail (is_some req.capabilities) _ _ refl (
            on_identity-IsLogged (resolve_identity e.identity req s.tokens).0
              (record s { tokens = (resolve_identity e.identity req s.tokens).1 }));
      }

      pub IsOrderly-check_capabilities :
          (injs : List Injection) → IsOrderly (check_capabilities e req t injs)
      unfolding check_capabilities
      IsOrderly-check_capabilities [] = IsOrderly-pure _
      IsOrderly-check_capabilities (inj ∷ injs) =
          IsOrderly-if _ _ _ (IsOrderly-check_capabilities injs) (IsOrderly-log_blocked req t _ _)

      IsOrderly-on_allowlist : (o : Option (List Str)) → IsOrderly (on_allowlist e req t o)
      IsOrderly-on_allowlist none = IsOrderly-raise _
      IsOrderly-on_allowlist (some l) =
          IsOrderly-if (is_empty l) _ _ (IsOrderly-log_blocked req t empty_allowlist _) (
            IsOrderly-if (not (any (λ raw. str_eq (to_lower raw) t.domain) l)) _ _
              (IsOrderly-log_blocked req t domain_not_in_allowlist _) (IsOrderly-pure _))

      pub IsOrderly-check_allowlist : IsOrderly (check_allowlist e req t)
      unfolding check_allowlist
      IsOrderly-check_allowlist = IsOrderly-on_allowlist (read_allowlist e)

      IsOrderly-await_approval : (inj : Injection) → IsOrderly (await_approval e req t inj)
      unfolding await_approval
      IsOrderly-await_approval inj = record {
        runs = λ s.
            let key = approval_key req t inj in
            let s' = record s { approvals = (e.wait_for_approval key s.approvals).1 } in
            IsLogged-if (Keeps s.trail) s.trail e.has_approvals _ _
              (IsLogged-if {A = Unit {0}} (Keeps s.trail) s.trail
                (e.wait_for_approval key s.approvals).0 (go tt, s') _ refl
                ((IsOrderly-log_blocked req t (policy_approval_required inj.secret_key) _).runs s'))
              ((IsOrderly-log_blocked req t _ _).runs s);
      }

      IsOrderly-on_line : (inj : Injection) (o : Option Str) → IsOrderly (on_line e req t inj o)
      unfolding on_line
      IsOrderly-on_line inj none = IsOrderly-await_approval inj
      IsOrderly-on_line inj (some line) = record {
        runs = λ s.
            IsLogged-if (Keeps s.trail) s.trail (is_yes line) _ _
              (if-case (λ (u : State). u.trail ≡ s.trail) e.has_approvals
                (record s {
                  approvals = approve (approval_key req t inj) e.identity.now s.approvals;
                })
                s refl refl)
              ((IsOrderly-log_blocked req t _ _).runs s);
      }

      IsOrderly-request_approval : (inj : Injection) → IsOrderly (request_approval e req t inj)
      unfolding request_approval
      IsOrderly-request_approval inj = record {
        runs = λ s.
            IsLogged-if (Keeps s.trail) s.trail
              (e.has_approvals && is_approved s.approvals.store (approval_key req t inj)) _ _ refl
              (IsLogged-if (Keeps s.trail) s.trail (e.transient && e.terminals) _ _
                ((IsOrderly-on_line inj (e.prompt (approval_key req t inj))).runs s)
                ((IsOrderly-await_approval inj).runs s));
      }

      IsOrderly-on_action : (inj : Injection) (a : Action) → IsOrderly (on_action e req t inj a)
      unfolding on_action
      IsOrderly-on_action inj allow = IsOrderly-pure _
      IsOrderly-on_action inj (other a) = IsOrderly-pure _
      IsOrderly-on_action inj deny = IsOrderly-log_blocked req t _ _
      IsOrderly-on_action inj request_permission = IsOrderly-request_approval inj

      IsOrderly-check_each :
          (policy : Str → Option SecretPolicy) (has_policy : Bool) (injs : List Injection)
          → IsOrderly (check_each e policy req t has_policy injs)
      unfolding check_each
      IsOrderly-check_each policy has_policy [] = IsOrderly-pure _
      IsOrderly-check_each policy has_policy (inj ∷ injs) =
          IsOrderly-bind _ _ (IsOrderly-on_action inj _) (λ _. IsOrderly-check_each policy _ injs)

      IsOrderly-with_resolver :
          (o : Option (Str → Option SecretPolicy)) → IsOrderly (with_resolver e req t o)
      IsOrderly-with_resolver none = IsOrderly-pure _
      IsOrderly-with_resolver (some policy) = IsOrderly-check_each policy false req.injections

      pub IsOrderly-check_policies : IsOrderly (check_policies e req t)
      unfolding check_policies
      IsOrderly-check_policies = IsOrderly-with_resolver e.resolve_policy
