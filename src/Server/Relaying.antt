-- ===== src/Server/Relaying.antt =====
-- What has been checked when `handleProxy` sends a request.
use agentsecrets.Prelude.{◌≡◌, ◌≢◌, refl, Option, none, some, List, [], ◌∷◌, arith}
use agentsecrets.Identity.{Identity, Resolved, resolved, blocked, failed, resolve_identity}
use agentsecrets.Injector.{Injection}
use agentsecrets.Requests.{CallRequest, CallResult}
use agentsecrets.Engine.{Engine, State, Target}
use agentsecrets.Engine.Flow.{Flow, go, finish, fail, fault}
use agentsecrets.Engine.Pipeline.{execute}
use agentsecrets.Engine.Quiet.{sent-add_trace}
use agentsecrets.Engine.Safety.{IsAuthorized, execute-IsAuthorized}
use agentsecrets.Server.{Incoming, parse_injections}
use agentsecrets.Server.Proxying.{
  call_request, identity_request, blocked_trace, reply_of, on_verdict, on_injections, handle_proxy,
}

reply_of-sent : (p : Flow CallResult × State) → (reply_of p).1.sent ≡ p.1.sent
reply_of-sent (go r, s) = refl
reply_of-sent (finish r, s) = refl
reply_of-sent (fail x, s) = refl
reply_of-sent (fault, s) = refl

-- The injections come from the request's headers, its identity was resolved to `x` and not refused,
-- and the engine authorized the call that carries that identity.
abbrev pub IsProxied : Engine → Incoming → State → List Injection → Resolved → Type 0
IsProxied e r s injs x =
    ((resolve_identity e.identity (identity_request r injs) s.tokens).0 ≡ resolved x)
    × ((t : Target) × (identified : CallRequest) × IsAuthorized e (call_request r injs x)
          (record s { tokens = (resolve_identity e.identity (identity_request r injs) s.tokens).1 })
          t identified)

module _ (e : Engine) (r : Incoming) where
  on_verdict-sends :
      (injs : List Injection) (i : Identity) (s : State)
      → (on_verdict e r injs i s).1.sent ≢ s.sent
      → (x : Resolved) × (i ≡ resolved x)
        × ((t : Target) × (identified : CallRequest) × IsAuthorized e
              (call_request r injs x)
              s
              t
              identified)
  unfolding blocked_trace
  on_verdict-sends injs failed s h = absurd (h refl)
  on_verdict-sends injs (blocked b) s h = absurd (h (sent-add_trace e _ s))
  on_verdict-sends injs (resolved x) s h = (
    x,
    refl,
    execute-IsAuthorized e (call_request r injs x) s
        (λ k. h (ground (arith, reply_of-sent (execute e (call_request r injs x) s)))),
  )

  on_injections-sends :
      (o : Option (List Injection)) (s : State)
      → (on_injections e r o s).1.sent ≢ s.sent
      → (injs : List Injection) × (x : Resolved) × (o ≡ some injs)
        × (injs ≢ [])
        × IsProxied e r s injs x
  on_injections-sends none s h = absurd (h refl)
  on_injections-sends (some []) s h = absurd (h refl)
  on_injections-sends (some (inj ∷ injs)) s h =
      let tokens = (resolve_identity e.identity (identity_request r (inj ∷ injs)) s.tokens).1 in
      let (x, v, call) =
        on_verdict-sends (inj ∷ injs)
          (resolve_identity e.identity (identity_request r (inj ∷ injs)) s.tokens).0
          (record s { tokens = tokens }) h in
      (inj ∷ injs, x, refl, (λ k. cc), (v, call))

  -- If `handleProxy` sends a request, then its headers parse to at least one injection, the token
  -- that it carries resolves to an identity that is not refused, and the engine authorized the call
  -- that carries these injections and this identity.
  pub handle_proxy-IsProxied :
      (s : State)
      → (handle_proxy e r s).1.sent ≢ s.sent
      → (injs : List Injection) × (x : Resolved) × (parse_injections r.headers ≡ some injs)
        × (injs ≢ [])
        × IsProxied e r s injs x
  unfolding handle_proxy
  handle_proxy-IsProxied s h =
      on_injections-sends (parse_injections r.headers) s (λ k. h (ground arith))
