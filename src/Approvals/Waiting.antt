-- ===== src/Approvals/Waiting.antt =====
-- What a decision does to the requests that wait for it.
use agentsecrets.Prelude.{
  ℕ, ◌≡◌, refl, Bool, true, false, none, some, List, [], ◌∷◌, arith, any, lookup_by-put_by,
  if◌then◌else◌, ◌==◌, ◌||◌, Option,
}
use agentsecrets.Approvals.{
  ApprovalKey, key_eq, is_approved, waiters_of, Channels, try_send, send_all, World, approve, deny,
}
use agentsecrets.Approvals.Granting.{key_eq_iff, waiters_of-remove}

-- What a channel holds after a send that does not block.
abbrev pub held : Bool → Option Bool → Option Bool
held b none = some b
held b (some c) = some c

send_all-channel :
    (ws : List ℕ) (b : Bool) (ch : Channels) (v : ℕ)
    → send_all ws b ch v ≡ (if any (λ x. x == v) ws then held b (ch v) else ch v)
unfolding send_all try_send
send_all-channel [] b ch v = refl
send_all-channel (w ∷ ws) b ch v = ground (arith, send_all-channel ws b (try_send w b ch) v)

-- After a decision `b` about `k`: the channel of each waiter of `k` holds `b`, or what it held if
-- it was full, every other channel is untouched, `k` has no waiters, and the other keys keep theirs.
pub record IsDecided (k : ApprovalKey) (b : Bool) (w u : World) : Type 0 where
  pub told :
      (v : ℕ)
      → u.channel v ≡ (
          if any (λ x. x == v) (waiters_of k w.store.pending)
          then held b (w.channel v)
          else w.channel v)
  pub left :
      (j : ApprovalKey)
      → waiters_of j u.store.pending ≡ (if key_eq k j then [] else waiters_of j w.store.pending)

-- `Approve` tells every waiter of the key and of no other key, and then exactly the key itself and
-- the keys approved before are approved.
pub approve-IsDecided :
    (k : ApprovalKey) (now : ℕ) (w : World)
    → IsDecided k true w (approve k now w)
      × ((j : ApprovalKey)
          → is_approved (approve k now w).store j ≡ (key_eq k j || is_approved w.store j))
unfolding approve is_approved
approve-IsDecided k now w = (
  record {
    told = λ v. send_all-channel (waiters_of k w.store.pending) true w.channel v;
    left = λ j. ground (arith, waiters_of-remove k j w.store.pending, key_eq_iff k j);
  },
  λ j. ground (arith, lookup_by-put_by key_eq key_eq_iff k j now w.store.granted, key_eq_iff k j),
)

-- `Deny` tells every waiter of the key and of no other key, and leaves no trace: exactly the keys
-- that were approved are approved, so the next request for the key asks again.
deny-IsDecided :
    (k : ApprovalKey) (w : World)
    → IsDecided k false w (deny k w)
      × ((j : ApprovalKey) → is_approved (deny k w).store j ≡ is_approved w.store j)
unfolding deny is_approved
deny-IsDecided k w = (
  record {
    told = λ v. send_all-channel (waiters_of k w.store.pending) false w.channel v;
    left = λ j. ground (arith, waiters_of-remove k j w.store.pending, key_eq_iff k j);
  },
  λ j. refl,
)
