-- ===== src/Redaction/Steps.antt =====
-- Each step of `redactSecretFromResponse`, and the whole, keep a clean value out of a text, and
-- the whole removes the value that it is called for.
use agentsecrets.Prelude.{
  ◌≡◌, ◌≢◌, refl, Bool, true, false, [], leb, if◌then◌else◌, ◌∷◌, arith, length, is_empty, take,
  ◌*◌, ◌/◌,
}
use agentsecrets.Text.{Str, contains}
use agentsecrets.Redaction.{
  exact_len, masked_len, is_utf8_from, replace_all, redact_variant, redact_masked, redact_prefix,
  query_escape, escape_quotes, redact_secret_from_response,
}
use agentsecrets.Redaction.Cuts.{
  IsClean, IsGuarded, contains-IsGuarded, contains-nil, contains-replace_from,
}

exact-IsGuarded : (s body : Str) → s ≢ [] → IsGuarded (exact_len s) s body
unfolding exact_len
exact-IsGuarded s [] ne = tt
exact-IsGuarded [] (c ∷ body) ne = absurd (ne refl)
exact-IsGuarded (y ∷ s) (c ∷ body) ne = ((λ h. ground arith), exact-IsGuarded (y ∷ s) body ne)

contains-if :
    (s : Str) (b : Bool) (x y : Str)
    → contains x s ≡ false
    → contains y s ≡ false
    → contains (if b then x else y) s ≡ false
contains-if s true x y hx hy = hx
contains-if s false x y hx hy = hy

module _ {s : Str} (clean : IsClean s) where
  contains-replace_all_self : (body : Str) → contains (replace_all s body) s ≡ false
  unfolding replace_all
  contains-replace_all_self body =
      contains-replace_from clean (exact_len s) 0 body (exact-IsGuarded s body clean.ne_nil)

  module _ (body : Str) (h : contains body s ≡ false) where
    contains-replace_all : (old : Str) → contains (replace_all old body) s ≡ false
    unfolding replace_all
    contains-replace_all old =
        contains-replace_from clean (exact_len old) 0 body
          (contains-IsGuarded (exact_len old) s body h)

    contains-redact_variant :
        (val variant : Str) → contains (redact_variant val variant body) s ≡ false
    unfolding redact_variant
    contains-redact_variant val variant = ground (arith, contains-replace_all variant)

    contains-redact_masked : (val : Str) → contains (redact_masked val body) s ≡ false
    unfolding redact_masked
    contains-redact_masked val =
        let n = if leb 16 (length val) then 8 else 6 in
        contains-if s (leb 8 (length val)) _ _
          (contains-if s (is_utf8_from 0 (take n val)) _ _
            (contains-replace_from clean (masked_len (take n val)) 0 body
              (contains-IsGuarded (masked_len (take n val)) s body h))
            h)
          h

    contains-redact_prefix : (val : Str) → contains (redact_prefix val body) s ≡ false
    unfolding redact_prefix
    contains-redact_prefix val =
        ground (arith, contains-replace_all (take (length val * 2 / 3) val))

  -- The steps behind the first keep out what the first has left out.
  contains-later_steps :
      (val exact : Str)
      → contains exact s ≡ false
      → contains
          (redact_prefix val (
            redact_masked val (
              redact_variant val
                (escape_quotes val)
                (redact_variant val (query_escape val) exact))))
          s
        ≡ false
  contains-later_steps val exact h =
      contains-redact_prefix _
        (contains-redact_masked _
          (contains-redact_variant _ (contains-redact_variant _ h val (query_escape val)) val
            (escape_quotes val))
          val)
        val

  pub contains-redact_secret :
      (val body : Str)
      → contains body s ≡ false
      → contains (redact_secret_from_response body val) s ≡ false
  unfolding redact_secret_from_response
  contains-redact_secret val body h =
      ground
        (arith, contains-later_steps val (replace_all val body) (contains-replace_all body h val))

  contains-redact_self_steps :
      (body : Str) → is_empty body ≡ false → contains (redact_secret_from_response body s) s ≡ false
  unfolding redact_secret_from_response
  contains-redact_self_steps body ne = ground (
    arith,
    contains-later_steps s (replace_all s body) (contains-replace_all_self body),
    clean.ne_nil,
  )

  -- A clean value does not occur in a body or a header that was redacted for it, whatever the
  -- text was: not in full, and not put together from the placeholder and what stands round it.
  pub contains-redact_secret_self :
      (body : Str) → contains (redact_secret_from_response body s) s ≡ false
  contains-redact_secret_self [] = contains-redact_secret s [] (contains-nil s clean.ne_nil)
  contains-redact_secret_self (c ∷ body) = contains-redact_self_steps (c ∷ body) refl
