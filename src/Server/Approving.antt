-- ===== src/Server/Approving.antt =====
-- What the approval endpoint grants.
use agentsecrets.Prelude.{
  ◌≡◌, ◌≢◌, refl, Option, none, some, [], ◌∷◌, arith, false, ℕ, Bool-cases, inl, inr, subst,
}
use agentsecrets.Text.{Str, to_upper, upper_byte}
use agentsecrets.Approvals.{ApprovalKey, World, key_eq, is_approved}
use agentsecrets.Approvals.Granting.{key_eq_iff}
use agentsecrets.Approvals.Waiting.{approve-IsDecided}
use agentsecrets.Server.{
  ApproveBody, Incoming, Server, approve_key, on_body, on_store, handle_approve,
}

to_upper-to_upper : (s : Str) → to_upper (to_upper s) ≡ to_upper s
unfolding to_upper upper_byte
to_upper-to_upper [] = refl
to_upper-to_upper (c ∷ s) = ground (arith, to_upper-to_upper s)

approve_key-upper :
    (b : ApproveBody) (j : ApprovalKey)
    → to_upper j.secret_key ≢ j.secret_key
    → key_eq (approve_key b) j ≡ false
unfolding approve_key
approve_key-upper b j h = elim (Bool-cases (key_eq (approve_key b) j)) [
  | inr no_match ↦ no_match
  | inl same ↦
      (let e : approve_key b ≡ j = (key_eq_iff (approve_key b) j).0 same in
        absurd (
          h (
            subst (λ (k : ApprovalKey). to_upper k.secret_key ≡ k.secret_key) e
              (to_upper-to_upper b.secret_key))))
]

on_store-lower :
    (b : ApproveBody) (now : ℕ) (o : Option World) (s : Server) (w u : World) (j : ApprovalKey)
    → o ≡ some w
    → s.approvals ≡ o
    → (on_store b now o s).1.approvals ≡ some u
    → to_upper j.secret_key ≢ j.secret_key
    → is_approved u.store j ≡ is_approved w.store j
on_store-lower b now none s w u j p q r h = cc
on_store-lower b now (some v) s w u j p q r h =
    ground (arith, (approve-IsDecided (approve_key b) now w).1 j, approve_key-upper b j h)

on_body-lower :
    (o : Option ApproveBody) (now : ℕ) (s : Server) (w u : World) (j : ApprovalKey)
    → s.approvals ≡ some w
    → (on_body o now s).1.approvals ≡ some u
    → to_upper j.secret_key ≢ j.secret_key
    → is_approved u.store j ≡ is_approved w.store j
on_body-lower none now s w u j p q h = ground arith
on_body-lower (some b) now s w u j p q h = ground (arith, on_store-lower b now s.approvals s w u j)

-- Whatever the approval endpoint is sent, it does not change whether a key is approved whose secret
-- is named with a lower-case letter: it upper-cases the name, while a waiting request keeps the
-- spelling that it came with.
pub handle_approve_keeps_lower :
    (decode : Str → Option ApproveBody) (now : ℕ) (r : Incoming) (s : Server) (w u : World)
    (j : ApprovalKey)
    → s.approvals ≡ some w
    → (handle_approve decode now r s).1.approvals ≡ some u
    → to_upper j.secret_key ≢ j.secret_key
    → is_approved u.store j ≡ is_approved w.store j
unfolding handle_approve
handle_approve_keeps_lower decode now r s w u j p q h =
    ground (arith, on_body-lower (decode r.body) now s w u j)
