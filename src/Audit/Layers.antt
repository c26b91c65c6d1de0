-- ===== src/Audit/Layers.antt =====
-- What the enforcement block says of the layer that blocked a call.
use agentsecrets.Prelude.{◌≡◌, ◌≢◌, ◌++◌, refl, List, [], ◌∷◌, All}
use agentsecrets.Text.{Str, str, str_eq}
use agentsecrets.Requests.{
  Block, non_https, token_revoked, agent_revoked, workspace_mismatch, project_mismatch,
  environment_mismatch, capability_denied, empty_allowlist, domain_not_in_allowlist, policy_denied,
  policy_approval_denied, policy_approval_required, reason,
}
use agentsecrets.Audit.{
  EvaluationLayer, EnforcementBlock, make_enforcement_block, all_layers, lower_layers,
  policy_layers, passed_layer, failed_layer, agent_layer, allowlist_layer,
}

-- The layer that a block belongs to, for the blocks that the source knows a layer for.
abbrev pub layer_of : Block → Str
layer_of (capability_denied key) = str "agent_capabilities"
layer_of empty_allowlist = str "workspace_allowlist"
layer_of domain_not_in_allowlist = str "workspace_allowlist"
layer_of (policy_denied key) = str "secrets_policy"
layer_of (policy_approval_required key) = str "secrets_policy"
layer_of b = []

-- The block names this layer as the one that decided and as the first that failed; of the layers
-- evaluated, those before it pass, and it fails with the message.
abbrev pub IsExplained : Str → Str → EnforcementBlock → Type 0
IsExplained layer msg block =
    (block.decided_by ≡ layer)
    × (block.first_failure_layer ≡ layer)
    × ((passed : List EvaluationLayer) × (last : EvaluationLayer) × (block.layers_evaluated
          ≡ passed ++ last ∷ [])
        × All (λ (l : EvaluationLayer). l.result ≡ str "pass") passed
        × (last.layer ≡ layer)
        × (last.result ≡ str "fail")
        × (last.reason ≡ msg))

-- The block names no layer, and all the layers in it pass.
abbrev pub IsUnexplained : EnforcementBlock → Type 0
IsUnexplained block =
    (block.decided_by ≡ [])
    × (block.first_failure_layer ≡ [])
    × All (λ (l : EvaluationLayer). l.result ≡ str "pass") block.layers_evaluated

module _ (msg domain method agent_id : Str) (keys : List Str) where
  -- The enforcement block of a blocked call, whatever the request, is explained by its layer when the
  -- reason is a capability, the allowlist or a policy (denied or awaiting approval).
  pub make_enforcement_block-IsExplained :
      (b : Block)
      → layer_of b ≢ []
      → IsExplained
          (layer_of b)
          msg
          (make_enforcement_block (reason b) msg domain method agent_id keys)
  unfolding make_enforcement_block all_layers lower_layers policy_layers passed_layer failed_layer
      agent_layer allowlist_layer reason str str_eq
  make_enforcement_block-IsExplained non_https h = absurd (h refl)
  make_enforcement_block-IsExplained token_revoked h = absurd (h refl)
  make_enforcement_block-IsExplained agent_revoked h = absurd (h refl)
  make_enforcement_block-IsExplained workspace_mismatch h = absurd (h refl)
  make_enforcement_block-IsExplained project_mismatch h = absurd (h refl)
  make_enforcement_block-IsExplained environment_mismatch h = absurd (h refl)
  make_enforcement_block-IsExplained (policy_approval_denied k) h = absurd (h refl)
  make_enforcement_block-IsExplained (capability_denied k) h =
      (refl, refl, ([], _, refl, tt, refl, refl, refl))
  make_enforcement_block-IsExplained empty_allowlist h =
      (refl, refl, (_ ∷ [], _, refl, (refl, tt), refl, refl, refl))
  make_enforcement_block-IsExplained domain_not_in_allowlist h =
      (refl, refl, (_ ∷ [], _, refl, (refl, tt), refl, refl, refl))
  make_enforcement_block-IsExplained (policy_denied k) h =
      (refl, refl, (_ ∷ _ ∷ [], _, refl, (refl, (refl, tt)), refl, refl, refl))
  make_enforcement_block-IsExplained (policy_approval_required k) h =
      (refl, refl, (_ ∷ _ ∷ [], _, refl, (refl, (refl, tt)), refl, refl, refl))

  -- The enforcement block that `makeEnforcementBlock` makes of a call blocked for want of https, for a
  -- revoked token or agent, for a mismatch of workspace, project or environment, or by a denial at the
  -- terminal names no layer, and all its layers pass.
  pub make_enforcement_block-IsUnexplained :
      (b : Block)
      → layer_of b ≡ []
      → IsUnexplained (make_enforcement_block (reason b) msg domain method agent_id keys)
  unfolding make_enforcement_block all_layers lower_layers policy_layers passed_layer agent_layer
      allowlist_layer reason str str_eq
  make_enforcement_block-IsUnexplained non_https h = (refl, refl, (refl, (refl, tt)))
  make_enforcement_block-IsUnexplained token_revoked h = (refl, refl, (refl, (refl, tt)))
  make_enforcement_block-IsUnexplained agent_revoked h = (refl, refl, (refl, (refl, tt)))
  make_enforcement_block-IsUnexplained workspace_mismatch h = (refl, refl, (refl, (refl, tt)))
  make_enforcement_block-IsUnexplained project_mismatch h = (refl, refl, (refl, (refl, tt)))
  make_enforcement_block-IsUnexplained environment_mismatch h = (refl, refl, (refl, (refl, tt)))
  make_enforcement_block-IsUnexplained (policy_approval_denied k) h =
      (refl, refl, (refl, (refl, tt)))
  make_enforcement_block-IsUnexplained (capability_denied k) h = cc
  make_enforcement_block-IsUnexplained empty_allowlist h = cc
  make_enforcement_block-IsUnexplained domain_not_in_allowlist h = cc
  make_enforcement_block-IsUnexplained (policy_denied k) h = cc
  make_enforcement_block-IsUnexplained (policy_approval_required k) h = cc
