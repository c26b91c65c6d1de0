-- ===== src/Server/Targets.antt =====
-- The values of the targeted injection headers.
use agentsecrets.Prelude.{
  ℕ, ◌≡◌, ◌≢◌, refl, false, Option, none, some, List, [], ◌∷◌, ◌++◌, ◌==◌, arith, All, any, length,
  ap, suc,
}
use agentsecrets.Text.{Str, trim_space}
use agentsecrets.Injector.{Injection}
use agentsecrets.Server.{cut, add_target, or_cut, trimmed_pair, parse_target, parse_targets}

trimmed_pair-some :
    (o : Option (Str × Str)) (target key : Str)
    → trimmed_pair o ≡ some (target, key)
    → (target ≢ []) × (key ≢ [])
trimmed_pair-some none target key h = cc
trimmed_pair-some (some (t, k)) target key h = ground arith

-- The injection has this style and names a target and a secret.
abbrev pub IsComplete : Str → Injection → Type 0
IsComplete style inj = (inj.style ≡ style) × (inj.target ≢ []) × (inj.secret_key ≢ [])

module _ (style : Str) where
  add_target-some :
      (p : Option (Str × Str)) (rest : Option (List Injection)) (injs : List Injection)
      → add_target style p rest ≡ some injs
      → (target : Str) × (key : Str) × (xs : List Injection) × (p ≡ some (target, key))
        × (rest ≡ some xs)
        × (injs ≡ record { style = style; target = target; secret_key = key } ∷ xs)
  add_target-some none rest injs h = cc
  add_target-some (some (t, k)) none injs h = cc
  add_target-some (some (t, k)) (some xs) injs h = (t, k, xs, refl, refl, cc)

  -- If a targeted header is accepted, each of its values gives one injection, of the header's style
  -- and with a target and a secret that are not empty.
  parse_targets-IsComplete :
      (values : List Str) (injs : List Injection)
      → parse_targets style values ≡ some injs
      → All (IsComplete style) injs × (length injs ≡ length values)
  unfolding parse_targets parse_target
  parse_targets-IsComplete [] injs h = ground arith
  parse_targets-IsComplete (v ∷ values) injs h =
      let (target, key, xs, p, q, e) =
        add_target-some (parse_target v) (parse_targets style values) injs h in
      let (complete, count) = parse_targets-IsComplete values xs q in
      let parts = trimmed_pair-some (or_cut (cut b'=' v) v) target key p in
      rw e (((refl, parts.0, parts.1), complete), ap suc count)

cut-append :
    (sep : ℕ) (before after : Str)
    → any (λ c. c == sep) before ≡ false
    → cut sep (before ++ sep ∷ after) ≡ some (before, after)
unfolding cut
cut-append sep [] after h = ground arith
cut-append sep (c ∷ before) after h = ground (arith, cut-append sep before after)

-- The form `target=KEY` is read back, for a target and a key that are not empty and have no
-- whitespace at their ends, if the target has no equals sign.
parse_target-equals :
    (target key : Str)
    → target ≢ []
    → key ≢ []
    → trim_space target ≡ target
    → trim_space key ≡ key
    → any (λ c. c == b'=') target ≡ false
    → parse_target (target ++ b'=' ∷ key) ≡ some (target, key)
unfolding parse_target
parse_target-equals target key t k e f n = ground (arith, cut-append b'=' target key n)
