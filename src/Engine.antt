-- ===== src/Engine.antt =====
-- pkg/proxy/engine.go: `ExecuteCtx`, as a chain of stages over the state that a call reads and
-- writes. What the engine is wired to stands in `Engine`; telemetry and terminal output are left out.
pub mod Flow
pub mod Authorize
pub mod Policies
pub mod Tail
pub mod Pipeline
pub mod Quiet
pub mod Grants
pub mod Passing
pub mod Safety
pub mod Trail
pub mod Records
use agentsecrets.Prelude.{ℕ, Bool, Option, List}
use agentsecrets.Text.{Str}
use agentsecrets.Capabilities.{SecretPolicy}
use agentsecrets.Approvals.{ApprovalKey, World}
use agentsecrets.Audit.{Trace}
use agentsecrets.Identity.{Context}
use agentsecrets.Injector.{Codecs, Request}
use agentsecrets.Requests.{CallRequest, Block}
use agentsecrets.Tokens.{TokenState}

-- The parts of a parsed url.URL that the engine reads.
pub record Url : Type 0 where
  pub scheme : Str
  pub hostname : Str
  pub path : Str
  pub raw_query : Str

-- The http.Request that is sent.
pub record Outbound : Type 0 where
  pub method : Str
  pub target_url : Str
  pub request : Request

-- ForwardResult
pub record ForwardResult : Type 0 where
  pub status_code : ℕ
  pub headers : List (Str × List Str)
  pub body : Str

-- What `Forward` brings: the upstream's response, the error of the SSRF dialer with its text, or
-- another error.
pub data Forwarded : Type 0 where
  response : ForwardResult → Forwarded
  ssrf_error : Str → Forwarded
  transport_error : Forwarded

-- The engine's fields and resolvers (nil is `none`, an error of a resolver is an inner `none`), and
-- what it calls outside the program: URL parsing, codecs, the terminal, the goroutines that run
-- while it waits for an approval, and the network.
pub record Engine : Type 0 where
  pub identity : Context
  pub transient : Bool
  pub testing : Bool
  pub has_audit : Bool
  pub has_approvals : Bool
  pub resolve_secret : Option (Str → Option Str)
  pub resolve_presence : Option (Str → Option Bool)
  pub resolve_policy : Option (Str → Option SecretPolicy)
  pub resolve_allowlist : Option (Str → Option (List Str))
  pub parse_url : Str → Option Url
  pub new_request : Str → Str → Bool
  pub codecs : Codecs
  pub json_valid : Str → Bool
  pub decimal : ℕ → Str
  pub terminals : Bool
  pub prompt : ApprovalKey → Option Str
  pub wait_for_approval : ApprovalKey → World → Bool × World
  pub forward : Outbound → Forwarded
  pub message : Block → CallRequest → Str

-- The state that a call reads and writes: tokens, approvals, the requests handed to the HTTP
-- client so far, and the audit log.
pub record State : Type 0 where
  pub tokens : TokenState
  pub approvals : World
  pub sent : List Outbound
  pub trail : List Trace

-- What `ExecuteCtx` has worked out of a request before its checks.
pub record Target : Type 0 where
  pub method : Str
  pub url : Url
  pub domain : Str

pub data Failure : Type 0 where
  no_target no_injections bad_url identity_error allowlist_error : Failure
  bad_request injection_failed upstream_error : Failure
  secret_not_found : Str → Failure
