-- ===== src/Engine/Grants.antt =====
-- What `ExecuteCtx` has established of the approvals when a secret's policy lets it go on.
use agentsecrets.Prelude.{
  if◌then◌else◌, ◌≡◌, ◌≢◌, ◌⊎◌, inl, inr, refl, Bool, true, false, Option, none, some, arith,
  Bool-cases, subst, ◌&&◌,
}
use agentsecrets.Text.{Str}
use agentsecrets.Approvals.{approve, ApprovalKey, World, is_approved}
use agentsecrets.Capabilities.{
  Action, allow, deny, request_permission, other, SecretPolicy, evaluate_secret,
}
use agentsecrets.Injector.{Injection}
use agentsecrets.Requests.{Block, policy_approval_required, policy_approval_denied, CallRequest}
use agentsecrets.Engine.{Engine, State, Target}
use agentsecrets.Engine.Flow.{Flow, go, log_blocked}
use agentsecrets.Engine.Policies.{
  approval_key, is_yes, await_approval, on_line, request_approval, on_action,
}

-- The approval stores that a call can come to from a first one: it waits, or a line typed at the
-- prompt says yes.
pub data Reaches (e : Engine) (w : World) : World → Type 0 where
  here : Reaches e w w
  after_wait :
      {u : World} (k : ApprovalKey) → Reaches e w u → Reaches e w (e.wait_for_approval k u).1
  after_line :
      {u : World} (k : ApprovalKey) (line : Str)
      → Reaches e w u
      → e.prompt k ≡ some line
      → is_yes line ≡ true
      → Reaches e w (approve k e.identity.now u)

-- The developer has approved the key: in a store that the call comes to from `w` it is granted or a
-- wait for it ends with an approval, or a line typed at the prompt for it says yes.
abbrev pub IsGranted : Engine → World → ApprovalKey → Type 0
IsGranted e w k =
    ((u : World) × Reaches e w u
      × ((is_approved u.store k ≡ true) ⊎ ((e.wait_for_approval k u).0 ≡ true)))
    ⊎ ((line : Str) × (e.prompt k ≡ some line) × (is_yes line ≡ true))

-- The secret's policy does not deny the request, and what it leaves to the developer is approved.
abbrev pub IsPermitted :
    Engine → World → (Str → Option SecretPolicy) → CallRequest → Target → Injection → Type 0
IsPermitted e w policy req t inj =
    (evaluate_secret (policy inj.secret_key) t.domain t.method ≢ deny)
    × ((evaluate_secret (policy inj.secret_key) t.domain t.method ≢ request_permission)
        ⊎ IsGranted e w (approval_key req t inj))

if-split :
    {A : Type 0} (P : A → Type 0) (b : Bool) (x y : A)
    → (b ≡ true → P x)
    → (b ≡ false → P y)
    → P (if b then x else y)
if-split P true x y p q = p refl
if-split P false x y p q = q refl

module _ (e : Engine) (req : CallRequest) (t : Target) where
  log_blocked-approvals :
      (b : Block) (s : State) → s.approvals ≡ (log_blocked e req t b {A = Unit {0}} s).1.approvals
  unfolding log_blocked
  log_blocked-approvals b s = ground arith

  module _ (w : World) where
    log_blocked-Reaches :
        (b : Block) (s : State)
        → Reaches e w s.approvals
        → Reaches e w (log_blocked e req t b {A = Unit {0}} s).1.approvals
    log_blocked-Reaches b s r = subst (Reaches e w) (log_blocked-approvals b s) r

    module _ (inj : Injection) where
      await_approval-Reaches :
          (s : State)
          → Reaches e w s.approvals
          → Reaches e w (await_approval e req t inj s).1.approvals
      unfolding await_approval
      await_approval-Reaches s r =
          let key = approval_key req t inj in
          let s' = record s { approvals = (e.wait_for_approval key s.approvals).1 } in
          if-split (λ (p : Flow (Unit {0}) × State). Reaches e w p.1.approvals) e.has_approvals _ _
            (λ a.
              if-split (λ (p : Flow (Unit {0}) × State). Reaches e w p.1.approvals)
                (e.wait_for_approval key s.approvals).0 (go tt, s') _ (λ b. after_wait key r)
                (λ b.
                  log_blocked-Reaches (policy_approval_required inj.secret_key) s'
                    (after_wait key r)))
            (λ a. log_blocked-Reaches (policy_approval_required inj.secret_key) s r)

      on_line-Reaches :
          (o : Option Str) (s : State)
          → e.prompt (approval_key req t inj) ≡ o
          → Reaches e w s.approvals
          → Reaches e w (on_line e req t inj o s).1.approvals
      unfolding on_line
      on_line-Reaches none s p r = await_approval-Reaches s r
      on_line-Reaches (some line) s p r =
          let key = approval_key req t inj in
          let s' = record s { approvals = approve key e.identity.now s.approvals } in
          if-split (λ (q : Flow (Unit {0}) × State). Reaches e w q.1.approvals) (is_yes line) _ _
            (λ yes_said.
              if-split (λ (u : State). Reaches e w u.approvals) e.has_approvals s' s
                (λ a. after_line key line r p yes_said) (λ a. r))
            (λ a. log_blocked-Reaches (policy_approval_denied inj.secret_key) s r)

      request_approval-Reaches :
          (s : State)
          → Reaches e w s.approvals
          → Reaches e w (request_approval e req t inj s).1.approvals
      unfolding request_approval
      request_approval-Reaches s r =
          let key = approval_key req t inj in
          if-split (λ (q : Flow (Unit {0}) × State). Reaches e w q.1.approvals)
            (e.has_approvals && is_approved s.approvals.store key) (go tt, s) _ (λ a. r)
            (λ a.
              if-split (λ (q : Flow (Unit {0}) × State). Reaches e w q.1.approvals)
                (e.transient && e.terminals) _ _ (λ b. on_line-Reaches (e.prompt key) s refl r)
                (λ b. await_approval-Reaches s r))

      pub on_action-Reaches :
          (a : Action) (s : State)
          → Reaches e w s.approvals
          → Reaches e w (on_action e req t inj a s).1.approvals
      unfolding on_action
      on_action-Reaches allow s r = r
      on_action-Reaches (other b) s r = r
      on_action-Reaches deny s r = log_blocked-Reaches _ s r
      on_action-Reaches request_permission s r = request_approval-Reaches s r

      await_approval-go :
          (s : State)
          → Reaches e w s.approvals
          → (await_approval e req t inj s).0 ≡ go tt
          → IsGranted e w (approval_key req t inj)
      unfolding await_approval log_blocked
      await_approval-go s r h = inl (s.approvals, r, inr (ground arith))

      on_line-go :
          (o : Option Str) (s : State)
          → Reaches e w s.approvals
          → e.prompt (approval_key req t inj) ≡ o
          → (on_line e req t inj o s).0 ≡ go tt
          → IsGranted e w (approval_key req t inj)
      unfolding on_line log_blocked
      on_line-go none s r p h = await_approval-go s r h
      on_line-go (some line) s r p h = inr (line, p, ground arith)

      request_approval-go :
          (s : State)
          → Reaches e w s.approvals
          → (request_approval e req t inj s).0 ≡ go tt
          → IsGranted e w (approval_key req t inj)
      unfolding request_approval
      request_approval-go s r h =
          elim (Bool-cases
            (e.has_approvals && is_approved s.approvals.store (approval_key req t inj))) [
              | inl known ↦ inl (s.approvals, r, inl (ground arith))
              | inr new ↦ elim (Bool-cases (e.transient && e.terminals)) [
                | inl asks ↦ on_line-go (e.prompt (approval_key req t inj)) s r refl (ground arith)
                | inr quiet ↦ await_approval-go s r (ground arith)
              ]
            ]

      pub on_action-go :
          (a : Action) (s : State)
          → Reaches e w s.approvals
          → (on_action e req t inj a s).0 ≡ go tt
          → (a ≢ deny) × ((a ≢ request_permission) ⊎ IsGranted e w (approval_key req t inj))
      unfolding on_action log_blocked
      on_action-go allow s r h = ((λ x. cc), inl (λ x. cc))
      on_action-go (other b) s r h = ((λ x. cc), inl (λ x. cc))
      on_action-go deny s r h = absurd (ground arith)
      on_action-go request_permission s r h = ((λ x. cc), inr (request_approval-go s r h))
