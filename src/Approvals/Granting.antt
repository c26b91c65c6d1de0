-- ===== src/Approvals/Granting.antt =====
-- A request is let through only where the developer has approved its key.
use agentsecrets.Prelude.{
  ℕ, ◌<◌, ◌≡◌, ◌↔◌, ◌⊎◌, inl, Bool, true, false, none, some, List, [], ◌∷◌, ◌++◌, arith, ◌==◌,
  if◌then◌else◌, Some, lookup_by, put_by, remove_by, lookup_by-put_by, lookup_by-remove_by,
}
use agentsecrets.Text.Laws.{str_eq_iff}
use agentsecrets.Approvals.{
  ApprovalKey, key_eq, is_approved, waiters_of, Channels, try_send, send_all, World, initial,
  approve, deny, register, erase, remove_waiter, unblock, time_out, receive, Event, approving,
  denying, fast, waiting, answer, expire, notified, find, Step, approved, denied, passed, waited,
  answered, expired, prompted, Run, start, next,
}

pub key_eq_iff : (a b : ApprovalKey) → (key_eq a b ≡ true) ↔ (a ≡ b)
unfolding key_eq
key_eq_iff a b = ground (
  arith,
  str_eq_iff a.agent_id b.agent_id,
  str_eq_iff a.secret_key b.secret_key,
  str_eq_iff a.domain b.domain,
  str_eq_iff a.method b.method,
)

-- Among the events up to now is an approval of the key.
abbrev pub WasApproved : ApprovalKey → List Event → Type 0
WasApproved k [] = ⊥
WasApproved k (approving j now ∷ es) = (j ≡ k) ⊎ WasApproved k es
WasApproved k (denying j ∷ es) = WasApproved k es
WasApproved k (fast j ∷ es) = WasApproved k es
WasApproved k (waiting j ∷ es) = WasApproved k es
WasApproved k (answer v j b ∷ es) = WasApproved k es
WasApproved k (expire v j ∷ es) = WasApproved k es
WasApproved k (notified j rest ∷ es) = WasApproved k es

-- What a channel holds after a round of sends.
pub send_all_cases :
    (ws : List ℕ) (b c : Bool) (ch : Channels) (v : ℕ)
    → send_all ws b ch v ≡ some c
    → (ch v ≡ some c) ⊎ ((b ≡ c) × Some (λ u. u ≡ v) ws)
unfolding send_all
send_all_cases [] b c ch v h = inl h
send_all_cases (w ∷ ws) b c ch v h = ground (arith, send_all_cases ws b c (try_send w b ch) v)

pub waiters_of-put :
    (k j : ApprovalKey) (ws : List ℕ) (pending : List (ApprovalKey × List ℕ))
    → waiters_of j (put_by key_eq k ws pending) ≡ (if key_eq k j then ws else waiters_of j pending)
unfolding waiters_of
waiters_of-put k j ws pending = ground (arith, lookup_by-put_by key_eq key_eq_iff k j ws pending)

pub waiters_of-remove :
    (k j : ApprovalKey) (pending : List (ApprovalKey × List ℕ))
    → waiters_of j (remove_by key_eq k pending) ≡ (if key_eq k j then [] else waiters_of j pending)
unfolding waiters_of
waiters_of-remove k j pending = ground (arith, lookup_by-remove_by key_eq key_eq_iff k j pending)

find-unblock :
    (v u : ℕ) (blocked : List (ℕ × ApprovalKey))
    → find u (unblock v blocked) ≡ (if v == u then none else find u blocked)
unfolding unblock
find-unblock v u [] = ground arith
find-unblock v u ((w, k) ∷ blocked) = ground (arith, find-unblock v u blocked)

erase-Some : (v u : ℕ) (ws : List ℕ) → Some (λ x. x ≡ u) (erase v ws) → Some (λ x. x ≡ u) ws
unfolding erase
erase-Some v u [] h = h
erase-Some v u (w ∷ ws) h = ground (arith, erase-Some v u ws)

append-Some :
    (u v : ℕ) (ws : List ℕ) → Some (λ x. x ≡ u) (ws ++ v ∷ []) → Some (λ x. x ≡ u) ws ⊎ (v ≡ u)
append-Some u v [] h = ground arith
append-Some u v (w ∷ ws) h = ground (arith, append-Some u v ws)

-- A waiter that is left was there before.
remove_waiter-Some :
    (k j : ApprovalKey) (v u : ℕ) (pending : List (ApprovalKey × List ℕ))
    → Some (λ x. x ≡ u) (waiters_of j (remove_waiter k v pending))
    → Some (λ x. x ≡ u) (waiters_of j pending)
unfolding remove_waiter
remove_waiter-Some k j v u pending h = ground (
  arith,
  key_eq_iff k j,
  waiters_of-put k j (erase v (waiters_of k pending)) pending,
  waiters_of-remove k j pending,
  erase-Some v u (waiters_of k pending),
)

record IsSound (es : List Event) (w : World) : Type 0 where
  from_grant : (k : ApprovalKey) → is_approved w.store k ≡ true → WasApproved k es
  from_channel :
      (v : ℕ) (k : ApprovalKey)
      → find v w.blocked ≡ some k
      → w.channel v ≡ some true
      → WasApproved k es
  own_key :
      (v : ℕ) (k : ApprovalKey)
      → Some (λ u. u ≡ v) (waiters_of k w.store.pending)
      → (find v w.blocked ≡ some k) ⊎ (find v w.blocked ≡ none)
  below_fresh :
      (v : ℕ) (k : ApprovalKey) → Some (λ u. u ≡ v) (waiters_of k w.store.pending) → v < w.fresh

module _ {es : List Event} {w : World} (h : IsSound es w) where
  approve-IsSound : (k : ApprovalKey) (now : ℕ) → IsSound (approving k now ∷ es) (approve k now w)
  unfolding approve is_approved
  approve-IsSound k now = record {
    from_grant = λ j g. ground (
      arith,
      lookup_by-put_by key_eq key_eq_iff k j now w.store.granted,
      key_eq_iff k j,
      h.from_grant j,
    );
    from_channel = λ v j f c. ground (
      arith,
      send_all_cases (waiters_of k w.store.pending) true true w.channel v c,
      h.from_channel v j f,
      h.own_key v k,
    );
    own_key = λ v j o. ground (arith, waiters_of-remove k j w.store.pending, h.own_key v j);
    below_fresh = λ v j o. ground (arith, waiters_of-remove k j w.store.pending, h.below_fresh v j);
  }

  deny-IsSound : (k : ApprovalKey) → IsSound (denying k ∷ es) (deny k w)
  unfolding deny is_approved
  deny-IsSound k = record {
    from_grant = λ j g. h.from_grant j g;
    from_channel = λ v j f c. ground (
      arith,
      send_all_cases (waiters_of k w.store.pending) false true w.channel v c,
      h.from_channel v j f,
    );
    own_key = λ v j o. ground (arith, waiters_of-remove k j w.store.pending, h.own_key v j);
    below_fresh = λ v j o. ground (arith, waiters_of-remove k j w.store.pending, h.below_fresh v j);
  }

  register-IsSound : (k : ApprovalKey) → IsSound (waiting k ∷ es) (register k w)
  unfolding register is_approved
  register-IsSound k = record {
    from_grant = λ j g. h.from_grant j g;
    from_channel = λ v j f c. ground (arith, h.from_channel v j);
    own_key = λ v j o. ground (
      arith,
      key_eq_iff k j,
      waiters_of-put k j (waiters_of k w.store.pending ++ w.fresh ∷ []) w.store.pending,
      append-Some v w.fresh (waiters_of k w.store.pending),
      h.own_key v j,
      h.below_fresh v j,
    );
    below_fresh = λ v j o. ground (
      arith,
      key_eq_iff k j,
      waiters_of-put k j (waiters_of k w.store.pending ++ w.fresh ∷ []) w.store.pending,
      append-Some v w.fresh (waiters_of k w.store.pending),
      h.below_fresh v j,
    );
  }

  time_out-IsSound : (v : ℕ) (k : ApprovalKey) → IsSound (expire v k ∷ es) (time_out k v w)
  unfolding time_out is_approved
  time_out-IsSound v k = record {
    from_grant = λ j g. h.from_grant j g;
    from_channel = λ u j f c. ground (arith, find-unblock v u w.blocked, h.from_channel u j);
    own_key = λ u j o. ground (
      arith,
      find-unblock v u w.blocked,
      remove_waiter-Some k j v u w.store.pending,
      h.own_key u j,
    );
    below_fresh = λ u j o. h.below_fresh u j (remove_waiter-Some k j v u w.store.pending o);
  }

  receive-IsSound : (v : ℕ) (k : ApprovalKey) (b : Bool) → IsSound (answer v k b ∷ es) (receive v w)
  unfolding receive
  receive-IsSound v k b = record {
    from_grant = λ j g. h.from_grant j g;
    from_channel = λ u j f c. ground (arith, find-unblock v u w.blocked, h.from_channel u j);
    own_key = λ u j o. ground (arith, find-unblock v u w.blocked, h.own_key u j);
    below_fresh = λ u j o. h.below_fresh u j o;
  }

Step-IsSound :
    {es : List Event} {w u : World} {e : Event} → IsSound es w → Step w e u → IsSound (e ∷ es) u
unfolding is_approved
Step-IsSound h (approved w k now) = approve-IsSound h k now
Step-IsSound h (denied w k) = deny-IsSound h k
Step-IsSound h (passed w k ok) = record {
  from_grant = h.from_grant;
  from_channel = h.from_channel;
  own_key = h.own_key;
  below_fresh = h.below_fresh;
}
Step-IsSound h (waited w k) = register-IsSound h k
Step-IsSound h (answered w v k b f c) = receive-IsSound h v k b
Step-IsSound h (expired w v k f) = time_out-IsSound h v k
Step-IsSound h (prompted w k rest e) = record {
  from_grant = h.from_grant;
  from_channel = h.from_channel;
  own_key = h.own_key;
  below_fresh = h.below_fresh;
}

IsSound-initial : IsSound [] initial
unfolding is_approved waiters_of lookup_by
IsSound-initial = record {
  from_grant = λ k g. cc;
  from_channel = λ v k f c. cc;
  own_key = λ v k o. absurd o;
  below_fresh = λ v k o. absurd o;
}

Run-IsSound : {es : List Event} {w : World} → Run es w → IsSound es w
Run-IsSound start = IsSound-initial
Run-IsSound (next r s) = Step-IsSound (Run-IsSound r) s

-- The event lets a waiting request of this key through.
abbrev pub Releases : Event → ApprovalKey → Type 0
Releases (fast j) k = j ≡ k
Releases (answer v j true) k = j ≡ k
Releases _ k = ⊥

Step-Releases :
    {es : List Event} {w u : World} {e : Event} (k : ApprovalKey)
    → IsSound es w
    → Step w e u
    → Releases e k
    → WasApproved k es
Step-Releases k h (passed w j ok) r = rw (← r) (h.from_grant j ok)
Step-Releases k h (answered w v j true f c) r = rw (← r) (h.from_channel v j f c)
Step-Releases k h (answered w v j false f c) r = absurd r
Step-Releases k h (approved w j now) r = absurd r
Step-Releases k h (denied w j) r = absurd r
Step-Releases k h (waited w j) r = absurd r
Step-Releases k h (expired w v j f) r = absurd r
Step-Releases k h (prompted w j rest e) r = absurd r

-- In every interleaving, `WaitForApproval` returns true for a key only after an `Approve` of that
-- same key: no denial, no timeout and no decision about another key lets a request through.
pub release_needs_approval :
    {es : List Event} {w u : World} {e : Event} (k : ApprovalKey)
    → Run es w
    → Step w e u
    → Releases e k
    → WasApproved k es
release_needs_approval k r = Step-Releases k (Run-IsSound r)
