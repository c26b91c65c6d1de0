-- ===== src/Approvals/Pending.antt =====
-- The pending map holds no key without waiters, so `ListPending` lists each of its keys.
use agentsecrets.Prelude.{
  ℕ, ◌≡◌, refl, false, List, [], ◌∷◌, ◌++◌, arith, All, is_empty, map, put_by, remove_by,
}
use agentsecrets.Approvals.{
  ApprovalKey, key_eq, waiters_of, World, approve, deny, register, erase, remove_waiter,
  list_pending, time_out, receive, Event, Step, approved, denied, passed, waited, answered, expired,
  prompted, Run, start, next,
}

abbrev Pending : Type 0
Pending = List (ApprovalKey × List ℕ)

abbrev HasWaiters : Pending → Type 0
HasWaiters = All (λ (p : ApprovalKey × List ℕ). is_empty p.1 ≡ false)

HasWaiters-put :
    (k : ApprovalKey) (ws : List ℕ) (pending : Pending)
    → is_empty ws ≡ false
    → HasWaiters pending
    → HasWaiters (put_by key_eq k ws pending)
unfolding put_by
HasWaiters-put k ws [] ne h = (ne, tt)
HasWaiters-put k ws ((j, vs) ∷ pending) ne (p, h) = ground (arith, HasWaiters-put k ws pending ne h)

HasWaiters-remove :
    (k : ApprovalKey) (pending : Pending)
    → HasWaiters pending
    → HasWaiters (remove_by key_eq k pending)
unfolding remove_by
HasWaiters-remove k [] h = tt
HasWaiters-remove k ((j, vs) ∷ pending) (p, h) = ground (arith, HasWaiters-remove k pending h)

append_one : (ws : List ℕ) (v : ℕ) → is_empty (ws ++ v ∷ []) ≡ false
append_one [] v = refl
append_one (w ∷ ws) v = refl

HasWaiters-remove_waiter :
    (k : ApprovalKey) (v : ℕ) (pending : Pending)
    → HasWaiters pending
    → HasWaiters (remove_waiter k v pending)
unfolding remove_waiter
HasWaiters-remove_waiter k v pending h = ground (
  arith,
  HasWaiters-remove k pending h,
  HasWaiters-put k (erase v (waiters_of k pending)) pending,
)

Step-HasWaiters :
    {w u : World} {e : Event} → Step w e u → HasWaiters w.store.pending → HasWaiters u.store.pending
unfolding approve deny register time_out receive
Step-HasWaiters (approved w k now) h = HasWaiters-remove k w.store.pending h
Step-HasWaiters (denied w k) h = HasWaiters-remove k w.store.pending h
Step-HasWaiters (passed w k ok) h = h
Step-HasWaiters (waited w k) h =
    HasWaiters-put k (waiters_of k w.store.pending ++ w.fresh ∷ []) w.store.pending
      (append_one (waiters_of k w.store.pending) w.fresh) h
Step-HasWaiters (answered w v k b f c) h = h
Step-HasWaiters (expired w v k f) h = HasWaiters-remove_waiter k v w.store.pending h
Step-HasWaiters (prompted w k rest e) h = h

Run-HasWaiters : {es : List Event} {w : World} → Run es w → HasWaiters w.store.pending
Run-HasWaiters start = tt
Run-HasWaiters (next r s) = Step-HasWaiters s (Run-HasWaiters r)

HasWaiters-list_pending :
    (pending : Pending) → HasWaiters pending → list_pending pending ≡ map (λ p. p.0) pending
unfolding list_pending
HasWaiters-list_pending [] h = refl
HasWaiters-list_pending ((k, ws) ∷ pending) (p, h) =
    ground (arith, HasWaiters-list_pending pending h)

-- In every reachable state each key of the pending map has a waiter, also after timeouts, and
-- `ListPending` returns all the keys of the map.
pub list_pending_complete :
    {es : List Event} {w : World}
    → Run es w
    → All (λ (p : ApprovalKey × List ℕ). is_empty p.1 ≡ false) w.store.pending
      × (list_pending w.store.pending ≡ map (λ p. p.0) w.store.pending)
list_pending_complete {w} r =
    (Run-HasWaiters r, HasWaiters-list_pending w.store.pending (Run-HasWaiters r))
