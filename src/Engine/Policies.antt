-- ===== src/Engine/Policies.antt =====
-- Stage 5 of `ExecuteCtx`: the policy of each secret, and the approvals that it asks for.
use agentsecrets.Prelude.{
  Bool, false, not, ◌&&◌, ◌||◌, Option, none, some, List, [], ◌∷◌, if◌then◌else◌, is_empty,
}
use agentsecrets.Text.{Str, str, str_eq, to_lower, trim_space}
use agentsecrets.Approvals.{ApprovalKey, is_approved, approve}
use agentsecrets.Capabilities.{
  Action, allow, deny, request_permission, other, SecretPolicy, evaluate_secret,
}
use agentsecrets.Injector.{Injection}
use agentsecrets.Requests.{
  CallRequest, policy_denied, policy_approval_denied, policy_approval_required,
}
use agentsecrets.Engine.{Engine, Target}
use agentsecrets.Engine.Flow.{go, Stage, pure, log_blocked, ◌>>◌}

abbrev pub approval_key : CallRequest → Target → Injection → ApprovalKey
approval_key req t inj = record {
  agent_id = req.agent_id;
  secret_key = inj.secret_key;
  domain = t.domain;
  method = t.method;
}

-- The answers of the terminal that approve.
unfoldable pub is_yes : Str → Bool
unfolding str str_eq to_lower
is_yes line =
    let response = trim_space (to_lower line) in
    str_eq response (str "y") || str_eq response (str "yes")

-- The connection is held until another goroutine decides.
unfoldable pub await_approval : Engine → CallRequest → Target → Injection → Stage (Unit {0})
await_approval e req t inj s =
    if e.has_approvals
    then (let (approved, approvals) = e.wait_for_approval (approval_key req t inj) s.approvals in
        let s' = record s { approvals = approvals } in
        if approved
        then (go tt, s')
        else log_blocked e req t (policy_approval_required inj.secret_key) s')
    else log_blocked e req t (policy_approval_required inj.secret_key) s

-- What follows a line typed at the terminal, or none.
unfoldable pub on_line : Engine → CallRequest → Target → Injection → Option Str → Stage (Unit {0})
on_line e req t inj none s = await_approval e req t inj s
on_line e req t inj (some line) s =
    if is_yes line
    then (
      go tt,
      (if e.has_approvals
          then record s { approvals = approve (approval_key req t inj) e.identity.now s.approvals }
          else s),
    )
    else log_blocked e req t (policy_approval_denied inj.secret_key) s

-- `case capabilities.RequestPermission`
unfoldable pub request_approval : Engine → CallRequest → Target → Injection → Stage (Unit {0})
request_approval e req t inj s =
    if e.has_approvals && is_approved s.approvals.store (approval_key req t inj)
    then (go tt, s)
    else if e.transient && e.terminals
    then on_line e req t inj (e.prompt (approval_key req t inj)) s
    else await_approval e req t inj s

-- The switch on the action: one that is neither constant passes.
unfoldable pub on_action : Engine → CallRequest → Target → Injection → Action → Stage (Unit {0})
on_action e req t inj deny = log_blocked e req t (policy_denied inj.secret_key)
on_action e req t inj request_permission = request_approval e req t inj
on_action e req t inj allow = pure tt
on_action e req t inj (other a) = pure tt

unfoldable pub restricts : Option SecretPolicy → Bool
restricts none = false
restricts (some c) = not (is_empty c.domains) || not (is_empty c.methods) || not (is_empty c.rules)

-- The loop over the injections; the value is `hasPolicy`.
unfoldable pub check_each :
    Engine → (Str → Option SecretPolicy) → CallRequest → Target → Bool → List Injection → Stage Bool
unfolding restricts
check_each e policy req t has_policy [] = pure has_policy
check_each e policy req t has_policy (inj ∷ injs) = do
  on_action e req t inj (evaluate_secret (policy inj.secret_key) t.domain t.method)
  check_each e policy req t (has_policy || restricts (policy inj.secret_key)) injs

abbrev pub with_resolver :
    Engine → CallRequest → Target → Option (Str → Option SecretPolicy) → Stage Bool
with_resolver e req t none = pure false
with_resolver e req t (some policy) = check_each e policy req t false req.injections

-- 5. Enforce Secret-Level Policies
unfoldable pub check_policies : Engine → CallRequest → Target → Stage Bool
check_policies e req t = with_resolver e req t e.resolve_policy
