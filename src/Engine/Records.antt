-- ===== src/Engine/Records.antt =====
-- The records that a whole call leaves in the audit trail.
use agentsecrets.Prelude.{◌≡◌, refl, Bool, true, Option, none, some, List, [], ◌∷◌, ◌++◌, ap}
use agentsecrets.Text.{Str, str}
use agentsecrets.Audit.{Trace}
use agentsecrets.Injector.{Injection, Outcome, Request, ok, err, panic}
use agentsecrets.Requests.{CallRequest, CallResult}
use agentsecrets.Engine.{
  Engine, State, Target, Outbound, ForwardResult, Forwarded, response, ssrf_error, transport_error,
}
use agentsecrets.Engine.Flow.{fault, Stage, add_trace, forbidden, audit_event, ◌>>=◌}
use agentsecrets.Engine.Authorize.{
  read_target, check_presence, check_https, identify, check_capabilities, check_allowlist,
}
use agentsecrets.Engine.Policies.{check_policies}
use agentsecrets.Engine.Tail.{
  on_secret, resolve_all, on_injected, with_secrets, build_and_inject, ssrf_trace, block_ssrf,
  on_forwarded, forward, redacted_result, success_trace, deliver,
}
use agentsecrets.Engine.Pipeline.{run_tail, run_checks, execute}
use agentsecrets.Engine.Trail.{
  IsLogged, IsOrderly, IsOrderly-at, IsLogged-continue, IsOrderly-bind, IsOrderly-if,
  IsOrderly-pure, IsOrderly-raise, IsOrderly-read_target, IsOrderly-check_presence,
  IsOrderly-check_https, IsOrderly-identify, IsOrderly-check_capabilities,
  IsOrderly-check_allowlist, IsOrderly-check_policies,
}

-- The trail has one more record, of a call that was forwarded and answered with this status.
abbrev pub IsDelivered : List Trace → CallResult → State → Type 0
IsDelivered old r s =
    (t : Trace) × (s.trail ≡ old ++ t ∷ [])
    × (t.event.status ≡ str "OK")
    × (t.event.status_code ≡ r.status_code)

IsOrderly-fault : (A : Type 0) → IsOrderly {A = A} (λ s. (fault, s))
IsOrderly-fault A = record { runs = λ s. refl }

IsOrderly-on_secret : (o : Option Str) (inj : Injection) → IsOrderly (on_secret o inj)
IsOrderly-on_secret none inj = IsOrderly-raise _
IsOrderly-on_secret (some cred) inj = IsOrderly-pure _

IsOrderly-resolve_all :
    (resolve : Str → Option Str) (injs : List Injection) → IsOrderly (resolve_all resolve injs)
unfolding resolve_all
IsOrderly-resolve_all resolve [] = IsOrderly-pure _
IsOrderly-resolve_all resolve (inj ∷ injs) =
    IsOrderly-bind _ _ (IsOrderly-on_secret _ inj)
      (λ cred. IsOrderly-bind _ _ (IsOrderly-resolve_all resolve injs) (λ rest. IsOrderly-pure _))

IsOrderly-on_injected :
    (req : CallRequest) (t : Target) (o : Outcome Request) → IsOrderly (on_injected req t o)
IsOrderly-on_injected req t (ok r) = IsOrderly-pure _
IsOrderly-on_injected req t (err x) = IsOrderly-raise _
IsOrderly-on_injected req t panic = IsOrderly-fault _

-- A chain whose first stage is orderly is logged if the rest is, from every state with that trail.
then-IsLogged :
    {A B : Type 0} (Q : B → State → Type 0) (old : List Trace) (m : Stage A) (f : A → Stage B)
    (s : State)
    → s.trail ≡ old
    → IsOrderly m
    → ((a : A) (u : State) → u.trail ≡ old → IsLogged Q old (f a u))
    → IsLogged Q old ((m >>= f) s)
unfolding ◌>>=◌
then-IsLogged Q old m f s h q k =
    IsLogged-continue Q old (m s).0 f (m s).1 (IsOrderly-at m s old h q) k

module _ (e : Engine) (audited : e.has_audit ≡ true) (req : CallRequest) where
  IsOrderly-with_secrets :
      (t : Target) (o : Option (Str → Option Str)) → IsOrderly (with_secrets e req t o)
  IsOrderly-with_secrets t none = IsOrderly-fault _
  IsOrderly-with_secrets t (some resolve) =
      IsOrderly-if _ _ _
        (IsOrderly-bind _ _ (IsOrderly-resolve_all resolve req.injections)
          (λ creds. IsOrderly-bind _ _ (IsOrderly-on_injected req t _) (λ out. IsOrderly-pure _)))
        (IsOrderly-raise _)

  IsOrderly-build_and_inject : (t : Target) → IsOrderly (build_and_inject e req t)
  unfolding build_and_inject
  IsOrderly-build_and_inject t = IsOrderly-with_secrets t e.resolve_secret

  block_ssrf-IsLogged :
      (t : Target) (text : Str) {A : Type 0} → IsOrderly (block_ssrf e req t text {A = A})
  unfolding block_ssrf add_trace forbidden ssrf_trace audit_event
  block_ssrf-IsLogged t text = record {
    runs = λ s. (refl, (ssrf_trace e req t text, rw audited refl, refl, refl));
  }

  IsOrderly-on_forwarded : (t : Target) (r : Forwarded) → IsOrderly (on_forwarded e req t r)
  unfolding on_forwarded
  IsOrderly-on_forwarded t (response r) = IsOrderly-pure _
  IsOrderly-on_forwarded t (ssrf_error text) = block_ssrf-IsLogged t text
  IsOrderly-on_forwarded t transport_error = IsOrderly-raise _

  IsOrderly-forward : (t : Target) (out : Outbound) → IsOrderly (forward e req t out)
  unfolding forward
  IsOrderly-forward t out = record {
    runs = λ s.
        (IsOrderly-on_forwarded t (e.forward out)).runs (record s { sent = s.sent ++ out ∷ [] });
  }

  deliver-IsLogged :
      (t : Target) (has_policy : Bool) (vals : List Str) (r : ForwardResult) (s : State)
      (old : List Trace)
      → s.trail ≡ old
      → IsLogged (IsDelivered old) old (deliver e req t has_policy vals r s)
  unfolding deliver add_trace success_trace audit_event
  deliver-IsLogged t has_policy vals r s old h = (
    success_trace e req t has_policy r.status_code (redacted_result e vals r).redacted,
    rw audited (
        ap
          (λ l.
            l
            ++ success_trace e req t has_policy r.status_code (redacted_result e vals r).redacted
              ∷ [])
          h),
    refl,
    refl,
  )

  run_tail-IsLogged :
      (t : Target) (has_policy : Bool) (s : State) (old : List Trace)
      → s.trail ≡ old
      → IsLogged (IsDelivered old) old (run_tail e req t has_policy s)
  unfolding run_tail
  run_tail-IsLogged t has_policy s old h =
      then-IsLogged (IsDelivered old) old (build_and_inject e req t) _ s h
        (IsOrderly-build_and_inject t)
        (λ built u k.
          then-IsLogged (IsDelivered old) old (forward e req t built.0) _ u k
            (IsOrderly-forward t built.0)
            (λ result v l. deliver-IsLogged t has_policy built.1 result v old l))

  run_checks-IsLogged :
      (t : Target) (s : State) (old : List Trace)
      → s.trail ≡ old
      → IsLogged (IsDelivered old) old (run_checks e req t s)
  unfolding run_checks
  run_checks-IsLogged t s old h =
      then-IsLogged (IsDelivered old) old (check_capabilities e req t req.injections) _ s h
        (IsOrderly-check_capabilities e audited req t req.injections)
        (λ a u k.
          then-IsLogged (IsDelivered old) old (check_allowlist e req t) _ u k
            (IsOrderly-check_allowlist e audited req t)
            (λ b v l.
              then-IsLogged (IsDelivered old) old (check_policies e req t) _ v l
                (IsOrderly-check_policies e audited req t)
                (λ has_policy w m. run_tail-IsLogged t has_policy w old m)))

-- With an audit logger, a call leaves one record or none, by its outcome: a call that returns the
-- upstream's answer leaves one with status OK and the status code returned, a call that is blocked
-- answers 403 and leaves one with status BLOCKED, and a call that ends with an error or a fault, even
-- after its request was sent, leaves none.
pub execute-IsLogged :
    (e : Engine) (req : CallRequest) (s : State)
    → e.has_audit ≡ true
    → IsLogged (IsDelivered s.trail) s.trail (execute e req s)
unfolding execute
execute-IsLogged e req s audited =
    then-IsLogged (IsDelivered s.trail) s.trail (read_target e req) _ s refl
      (IsOrderly-read_target e audited req)
      (λ t u k.
        then-IsLogged (IsDelivered s.trail) s.trail (check_presence e req.injections) _ u k
          (IsOrderly-check_presence e audited req req.injections)
          (λ a v l.
            then-IsLogged (IsDelivered s.trail) s.trail (check_https e req t) _ v l
              (IsOrderly-check_https e audited req t)
              (λ b w m.
                then-IsLogged (IsDelivered s.trail) s.trail (identify e req t) _ w m
                  (IsOrderly-identify e audited req t)
                  (λ identified x n. run_checks-IsLogged e audited identified t x s.trail n))))
