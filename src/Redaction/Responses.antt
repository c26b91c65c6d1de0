-- ===== src/Redaction/Responses.antt =====
-- What `redactResponse` makes of a whole response.
use agentsecrets.Prelude.{
  Some, inl, inr, subst, sym, ℕ, ◌≡◌, refl, false, List, [], ◌∷◌, arith, All, ◌⊎◌, length,
  remove_by, put_by,
}
use agentsecrets.Text.{Str, str, contains, put, remove}
use agentsecrets.Text.Laws.{str_eq_iff}
use agentsecrets.Redaction.{
  redact_text, redact_header_values, redact_headers, Response, values_contain, headers_contain,
  redact_value, redact_values, redact_response,
}
use agentsecrets.Redaction.Cuts.{IsClean}
use agentsecrets.Redaction.Steps.{contains-redact_secret, contains-redact_secret_self}

-- The value occurs neither in the body nor in a header.
pub record IsAbsent (s : Str) (r : Response) : Type 0 where
  pub from_body : contains r.body s ≡ false
  pub from_headers : headers_contain s r.headers ≡ false

module _ {s : Str} (clean : IsClean s) where
  contains-redact_text :
      (val text : Str) → contains text s ≡ false → contains (redact_text val text) s ≡ false
  unfolding redact_text
  contains-redact_text val text h = ground (arith, contains-redact_secret clean val text)

  contains-redact_text_self : (text : Str) → contains (redact_text s text) s ≡ false
  unfolding redact_text
  contains-redact_text_self text = ground (arith, contains-redact_secret_self clean text)

  values_contain-redact :
      (val : Str) (values : List Str)
      → values_contain s values ≡ false
      → values_contain s (redact_header_values val values) ≡ false
  unfolding values_contain redact_header_values
  values_contain-redact val [] h = refl
  values_contain-redact val (hv ∷ values) h =
      ground (arith, contains-redact_text val hv, values_contain-redact val values)

  values_contain-redact_self :
      (values : List Str) → values_contain s (redact_header_values s values) ≡ false
  unfolding values_contain redact_header_values
  values_contain-redact_self [] = refl
  values_contain-redact_self (hv ∷ values) =
      ground (arith, contains-redact_text_self hv, values_contain-redact_self values)

  headers_contain-redact :
      (val : Str) (headers : List (Str × List Str))
      → headers_contain s headers ≡ false
      → headers_contain s (redact_headers val headers) ≡ false
  unfolding headers_contain redact_headers
  headers_contain-redact val [] h = refl
  headers_contain-redact val ((name, values) ∷ headers) h =
      ground (arith, values_contain-redact val values, headers_contain-redact val headers)

  headers_contain-redact_self :
      (headers : List (Str × List Str)) → headers_contain s (redact_headers s headers) ≡ false
  unfolding headers_contain redact_headers
  headers_contain-redact_self [] = refl
  headers_contain-redact_self ((name, values) ∷ headers) =
      ground (arith, values_contain-redact_self values, headers_contain-redact_self headers)

  redact_value-IsAbsent :
      (val : Str) (r : Response) → IsAbsent s r → IsAbsent s (redact_value val r)
  unfolding redact_value
  redact_value-IsAbsent val r h =
      ground (arith, contains-redact_text val r.body, headers_contain-redact val r.headers)

  redact_value-IsAbsent_self : (r : Response) → IsAbsent s (redact_value s r)
  unfolding redact_value
  redact_value-IsAbsent_self r =
      ground (
        arith,
        clean.ne_nil,
        contains-redact_text_self r.body,
        headers_contain-redact_self r.headers,
      )

  redact_values-IsAbsent :
      (vals : List Str) (r : Response) → IsAbsent s r → IsAbsent s (redact_values vals r)
  unfolding redact_values
  redact_values-IsAbsent [] r h = h
  redact_values-IsAbsent (val ∷ vals) r h =
      redact_values-IsAbsent vals (redact_value val r) (redact_value-IsAbsent val r h)

redact_values-All :
    (vals : List Str) (r : Response) → All (λ v. IsClean v → IsAbsent v (redact_values vals r)) vals
unfolding redact_values
redact_values-All [] r = tt
redact_values-All (v ∷ vals) r = (
  (λ clean.
      redact_values-IsAbsent clean vals (redact_value v r) (redact_value-IsAbsent_self clean r)),
  redact_values-All vals (redact_value v r),
)

headers_contain-remove :
    (s k : Str) (headers : List (Str × List Str))
    → headers_contain s headers ≡ false
    → headers_contain s (remove k headers) ≡ false
unfolding headers_contain remove_by
headers_contain-remove s k [] h = refl
headers_contain-remove s k ((j, w) ∷ headers) h = ground (arith, headers_contain-remove s k headers)

headers_contain-remove-put :
    (s k : Str) (values : List Str) (headers : List (Str × List Str))
    → headers_contain s headers ≡ false
    → headers_contain s (remove k (put k values headers)) ≡ false
unfolding headers_contain remove_by put_by
headers_contain-remove-put s k values [] h = ground (arith, str_eq_iff k k)
headers_contain-remove-put s k values ((j, w) ∷ headers) h = ground (
  arith,
  str_eq_iff k k,
  headers_contain-remove-put s k values headers,
  headers_contain-remove s k headers,
)

-- The value occurs neither in the body of a finished response nor in a header, but for the
-- Content-Length that the proxy writes itself.
abbrev pub IsHidden : Str → Response → Type 0
IsHidden s r =
    (contains r.body s ≡ false)
    × (headers_contain s (remove (str "Content-Length") r.headers) ≡ false)

IsAbsent-IsHidden :
    (decimal : ℕ → Str) (vals : List Str) (s : Str) (r : Response)
    → IsAbsent s (redact_values vals r)
    → IsHidden s (redact_response decimal vals r)
unfolding redact_response
IsAbsent-IsHidden decimal vals s r h = ground (
  arith,
  headers_contain-remove s (str "Content-Length") (redact_values vals r).headers h.from_headers,
  headers_contain-remove-put s (str "Content-Length")
      (decimal (length (redact_values vals r).body) ∷ []) (redact_values vals r).headers
      h.from_headers,
)

IsHidden-among :
    (decimal : ℕ → Str) (vals vs : List Str) (s : Str) (r : Response)
    → All (λ v. IsClean v → IsAbsent v (redact_values vals r)) vs
    → IsClean s
    → Some (λ v. v ≡ s) vs
    → IsHidden s (redact_response decimal vals r)
IsHidden-among decimal vals [] s r h clean m = absurd m
IsHidden-among decimal vals (v ∷ vs) s r (h, hs) clean (inl e) =
    subst (λ x. IsHidden x (redact_response decimal vals r)) e
      (IsAbsent-IsHidden decimal vals v r (h (subst IsClean (sym e) clean)))
IsHidden-among decimal vals (v ∷ vs) s r (h, hs) clean (inr m) =
    IsHidden-among decimal vals vs s r hs clean m

-- A clean value among those that were injected occurs neither in the body of the response that
-- leaves the proxy nor in one of its headers but Content-Length, whatever the upstream sent back.
pub redact_response_hides :
    (decimal : ℕ → Str) (vals : List Str) (s : Str) (r : Response)
    → IsClean s
    → Some (λ v. v ≡ s) vals
    → IsHidden s (redact_response decimal vals r)
redact_response_hides decimal vals s r =
    IsHidden-among decimal vals vals s r (redact_values-All vals r)

-- No value but the empty one occurs in the response.
abbrev pub NoneOccurs : List Str → Response → Type 0
NoneOccurs vals r = All (λ v. (v ≡ []) ⊎ IsAbsent v r) vals

redact_header_values_absent :
    (v : Str) (values : List Str)
    → values_contain v values ≡ false
    → redact_header_values v values ≡ values
unfolding redact_header_values redact_text values_contain
redact_header_values_absent v [] h = refl
redact_header_values_absent v (hv ∷ values) h = ground (arith, redact_header_values_absent v values)

redact_headers_absent :
    (v : Str) (headers : List (Str × List Str))
    → headers_contain v headers ≡ false
    → redact_headers v headers ≡ headers
unfolding redact_headers headers_contain
redact_headers_absent v [] h = refl
redact_headers_absent v ((name, values) ∷ headers) h =
    ground (arith, redact_header_values_absent v values, redact_headers_absent v headers)

redact_value_absent : (v : Str) (r : Response) → (v ≡ []) ⊎ IsAbsent v r → redact_value v r ≡ r
unfolding redact_value redact_text
redact_value_absent [] r h = refl
redact_value_absent (c ∷ v) r h = ground (arith, redact_headers_absent (c ∷ v) r.headers)

redact_values_absent :
    (vals : List Str) (r : Response) → NoneOccurs vals r → redact_values vals r ≡ r
unfolding redact_values
redact_values_absent [] r h = refl
redact_values_absent (v ∷ vals) r (h, hs) =
    rw (redact_value_absent v r h) (redact_values_absent vals r hs)

-- A response in which no value occurs in full passes unchanged: an echo that is masked, cut off or
-- URL-encoded only is not looked for, since the search for these forms starts at a full echo.
pub redact_response_needs_full_echo :
    (decimal : ℕ → Str) (vals : List Str) (r : Response)
    → r.redacted ≡ false
    → NoneOccurs vals r
    → redact_response decimal vals r ≡ r
unfolding redact_response
redact_response_needs_full_echo decimal vals r fresh h =
    ground (arith, redact_values_absent vals r h)
