-- ===== src/Engine/Pipeline.antt =====
-- `ExecuteCtx`, its stages in the order of the source.
use agentsecrets.Prelude.{Bool}
use agentsecrets.Requests.{CallRequest, CallResult}
use agentsecrets.Engine.{Engine, Target}
use agentsecrets.Engine.Flow.{Stage, ◌>>=◌, ◌>>◌}
use agentsecrets.Engine.Authorize.{
  read_target, check_presence, check_https, identify, check_capabilities, check_allowlist,
}
use agentsecrets.Engine.Policies.{check_policies}
use agentsecrets.Engine.Tail.{build_and_inject, forward, deliver}

-- The request is permitted; what follows injects and forwards.
unfoldable pub run_tail : Engine → CallRequest → Target → Bool → Stage CallResult
run_tail e req t has_policy = do
  built ← build_and_inject e req t
  result ← forward e req t built.0
  deliver e req t has_policy built.1 result

-- Capabilities, allowlist and policies, for the request with its identity.
unfoldable pub run_checks : Engine → CallRequest → Target → Stage CallResult
run_checks e req t = do
  check_capabilities e req t req.injections
  check_allowlist e req t
  has_policy ← check_policies e req t
  run_tail e req t has_policy

unfoldable pub execute : Engine → CallRequest → Stage CallResult
execute e req = do
  t ← read_target e req
  check_presence e req.injections
  check_https e req t
  identified ← identify e req t
  run_checks e identified t
