-- ===== src/Injector/Single.antt =====
-- For a single injection the grouped routine does what the simple one does.
use agentsecrets.Prelude.{
  ◌∙◌, sym, ◌≡◌, ◌≢◌, inl, inr, refl, false, [], ◌∷◌, arith, is_empty, Bool-cases,
}
use agentsecrets.Text.{Str, str, str_eq, to_lower}
use agentsecrets.Text.Laws.{str_eq_iff}
use agentsecrets.Injector.{
  nil_map, Codecs, Injection, Request, is_body_style, default_type, body_bytes, with_body,
  inject_body, inject_form, inject, inject_each, draft_step, draft_all, write_body, write_form,
  inject_all,
}

is_empty-to_lower : (s : Str) → is_empty (to_lower s) ≡ is_empty s
unfolding to_lower
is_empty-to_lower [] = refl
is_empty-to_lower (c ∷ s) = refl

with_body-to_lower :
    (current value body : Str) (req : Request)
    → with_body (to_lower current) value body req ≡ with_body current value body req
unfolding with_body default_type
with_body-to_lower current value body req = ground (arith, is_empty-to_lower current)

-- The names of the styles are different.
record AreDistinct : Type 0 where
  bearer_body : str_eq (str "body") (str "bearer") ≡ false
  basic_body : str_eq (str "body") (str "basic") ≡ false
  header_body : str_eq (str "body") (str "header") ≡ false
  query_body : str_eq (str "body") (str "query") ≡ false
  form_body : str_eq (str "form") (str "body") ≡ false
  bearer_form : str_eq (str "form") (str "bearer") ≡ false
  basic_form : str_eq (str "form") (str "basic") ≡ false
  header_form : str_eq (str "form") (str "header") ≡ false
  query_form : str_eq (str "form") (str "query") ≡ false

styles_AreDistinct : AreDistinct
unfolding str str_eq
styles_AreDistinct = record {
  bearer_body = refl;
  basic_body = refl;
  header_body = refl;
  query_body = refl;
  form_body = refl;
  bearer_form = refl;
  basic_form = refl;
  header_form = refl;
  query_form = refl;
}

module _ (codecs : Codecs) (req : Request) (cred : Str) (inj : Injection) where
  pub inject-body :
      inj.style ≡ str "body" → inject codecs req cred inj ≡ inject_body codecs req cred inj.target
  unfolding inject
  inject-body h =
      let d = styles_AreDistinct in
      ground (
        arith,
        d.bearer_body,
        d.basic_body,
        d.header_body,
        d.query_body,
        str_eq_iff (str "body") (str "body"),
      )

  pub inject-form :
      inj.style ≡ str "form" → inject codecs req cred inj ≡ inject_form codecs req cred inj.target
  unfolding inject
  inject-form h =
      let d = styles_AreDistinct in
      ground (
        arith,
        d.bearer_form,
        d.basic_form,
        d.header_form,
        d.query_form,
        d.form_body,
        str_eq_iff (str "form") (str "form"),
      )

  inject_all-body :
      inj.style ≡ str "body"
      → inj.target ≢ []
      → codecs.parse_json (body_bytes req.body) ≢ nil_map
      → inject_all codecs req ((cred, inj) ∷ []) ≡ inject_body codecs req cred inj.target
  unfolding inject_all is_body_style draft_all draft_step write_body write_form inject_body
  inject_all-body h ne fit = grind (arith, str_eq_iff inj.style (str "body"), with_body-to_lower)

  inject_all-form :
      inj.style ≡ str "form"
      → inj.target ≢ []
      → inject_all codecs req ((cred, inj) ∷ []) ≡ inject_form codecs req cred inj.target
  unfolding inject_all is_body_style draft_all draft_step write_body write_form inject_form
  inject_all-form h ne =
      let d = styles_AreDistinct in
      grind (arith, d.form_body, str_eq_iff inj.style (str "form"), with_body-to_lower)

  inject_all-other :
      is_body_style inj.style ≡ false
      → inject_all codecs req ((cred, inj) ∷ []) ≡ inject codecs req cred inj
  unfolding inject_all inject_each
  inject_all-other h = ground arith

-- An injection with a target, applied through the grouped routine alone, gives the request or the
-- error of the simple routine, whatever its style and the caller's headers, unless the body is the
-- JSON document `null`.
pub inject_all_single :
    (codecs : Codecs) (req : Request) (cred : Str) (inj : Injection)
    → inj.target ≢ []
    → codecs.parse_json (body_bytes req.body) ≢ nil_map
    → inject_all codecs req ((cred, inj) ∷ []) ≡ inject codecs req cred inj
inject_all_single codecs req cred inj ne fit = elim (Bool-cases (str_eq inj.style (str "body"))) [
  | inl e ↦
      let s = (str_eq_iff inj.style (str "body")).0 e in
      inject_all-body codecs req cred inj s ne fit ∙ sym (inject-body codecs req cred inj s)
  | inr b ↦ elim (Bool-cases (str_eq inj.style (str "form"))) [
    | inl e ↦
        let s = (str_eq_iff inj.style (str "form")).0 e in
        inject_all-form codecs req cred inj s ne ∙ sym (inject-form codecs req cred inj s)
    | inr f ↦ inject_all-other codecs req cred inj (unfold is_body_style in ground arith)
  ]
]
