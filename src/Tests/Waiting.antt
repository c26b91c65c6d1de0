-- ===== src/Tests/Waiting.antt =====
-- The approval store.
use agentsecrets.Prelude.{
  ℕ, ◌≡◌, refl, true, false, [], ◌∷◌, All, map, is_empty, ◌||◌, List, lookup_by, put_by,
}
use agentsecrets.Text.{str, str_eq}
use agentsecrets.Approvals.{
  ApprovalKey, key_eq, World, initial, register, approve, is_approved, list_pending, approving,
  waiting, answer, receive, send_all, try_send, waiters_of, Run, start, next, Step, waited,
  approved, answered,
}
use agentsecrets.Approvals.Granting.{release_needs_approval, WasApproved}
use agentsecrets.Approvals.Waiting.{IsDecided, approve-IsDecided}
use agentsecrets.Approvals.Pending.{list_pending_complete}
use agentsecrets.Tests.Fixtures.{key}

abbrev k : ApprovalKey
k = record {
  agent_id = str "ci";
  secret_key = key;
  domain = str "api.stripe.com";
  method = str "POST";
}

abbrev held : World
held = register k initial

waits : Run (waiting k ∷ []) held
waits = next start (waited initial k)

abbrev granted : World
granted = approve k 7 held

grants : Run (approving k 7 ∷ waiting k ∷ []) granted
grants = next waits (approved held k 7)

release : Step granted (answer 0 k true) (receive 0 granted)
unfolding approve register send_all try_send waiters_of lookup_by key_eq str_eq str put_by
release = answered granted 0 k true refl refl

release_needs_approval_example : WasApproved k (approving k 7 ∷ waiting k ∷ [])
release_needs_approval_example = release_needs_approval k grants release refl

approve-IsDecided_example :
    IsDecided k true held (approve k 7 held)
    × ((j : ApprovalKey)
        → is_approved (approve k 7 held).store j ≡ (key_eq k j || is_approved held.store j))
approve-IsDecided_example = approve-IsDecided k 7 held

list_pending_complete_example :
    All (λ (p : ApprovalKey × List ℕ). is_empty p.1 ≡ false) held.store.pending
    × (list_pending held.store.pending ≡ map (λ p. p.0) held.store.pending)
list_pending_complete_example = list_pending_complete waits
