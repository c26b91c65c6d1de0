-- ===== src/Injector/Faults.antt =====
-- Where the grouped routine writes to a nil map.
use agentsecrets.Prelude.{◌≡◌, ◌≢◌, List, [], ◌∷◌, arith}
use agentsecrets.Text.{Str, str}
use agentsecrets.Text.Laws.{str_eq_iff}
use agentsecrets.Injector.{
  nil_map, Codecs, Injection, Request, panic, is_body_style, body_bytes, inject_bearer,
  inject_basic, inject_header, inject_query, inject_body, inject_form, inject, draft_step,
  draft_all, inject_all,
}

module _ (codecs : Codecs) (req : Request) (cred : Str) where
  inject_body-ne-panic : (path : Str) → inject_body codecs req cred path ≢ panic
  unfolding inject_body
  inject_body-ne-panic path h = ground arith

  inject_form-ne-panic : (key : Str) → inject_form codecs req cred key ≢ panic
  unfolding inject_form
  inject_form-ne-panic key h = ground arith

  -- Applied one by one, an injection returns a request or an error and never faults.
  inject-ne-panic : (inj : Injection) → inject codecs req cred inj ≢ panic
  unfolding inject inject_bearer inject_basic inject_header inject_query
  inject-ne-panic inj h =
      ground (arith, inject_body-ne-panic inj.target, inject_form-ne-panic inj.target)

-- A first injection in style "body" into a body that decodes to a nil map, as the document `null`
-- does, makes `InjectAll` fault, whatever injections follow, while `Inject` returns on it.
pub inject_all_null_body :
    (codecs : Codecs) (req : Request) (cred : Str) (inj : Injection) (rest : List (Str × Injection))
    → inj.style ≡ str "body"
    → body_bytes req.body ≢ []
    → codecs.parse_json (body_bytes req.body) ≡ nil_map
    → (inject_all codecs req ((cred, inj) ∷ rest) ≡ panic) × (inject codecs req cred inj ≢ panic)
unfolding inject_all is_body_style draft_all draft_step
inject_all_null_body codecs req cred inj rest s ne e =
    (ground (arith, str_eq_iff inj.style (str "body")), inject-ne-panic codecs req cred inj)
