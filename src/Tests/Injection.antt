-- ===== src/Tests/Injection.antt =====
-- The six styles, and paths in a JSON body.
use agentsecrets.Prelude.{◌≡◌, ◌≢◌, refl, [], ◌∷◌, some, List}
use agentsecrets.Text.{Str, str, str_eq}
use agentsecrets.Json.{
  Fields, end, field, text, object, get_field, set_field, set_parts, done, nested_at,
}
use agentsecrets.Json.Paths.{get_parts, get_parts-set_parts}
use agentsecrets.Injector.{
  Request, Codecs, fields, ok, panic, inject, inject_all, inject_bearer, header_set,
}
use agentsecrets.Injector.Single.{inject_all_single}
use agentsecrets.Injector.Faults.{inject_all_null_body}
use agentsecrets.Injector.Effects.{Injected, inject-Injected}
use agentsecrets.Tests.Fixtures.{codecs, outbound, bearer, at_body, secret}

abbrev path : List Str
path = str "auth" ∷ str "key" ∷ []

abbrev before : Fields
before = field (str "user") (text (str "bob")) end

abbrev after : Fields
after =
    field (str "user") (text (str "bob"))
      (field (str "auth") (object (field (str "key") (text secret) end)) end)

writes : set_parts path secret before ≡ done after
unfolding set_parts get_field set_field nested_at str_eq str
writes = refl

get_parts-set_parts_example : get_parts path after ≡ some (text secret)
get_parts-set_parts_example = get_parts-set_parts path secret before after (λ e. cc) writes

-- Codecs that read every body as an empty object.
abbrev objects : Codecs
objects = record codecs { parse_json = λ _. fields end }

inject_all_single_example :
    inject_all objects outbound ((secret, at_body) ∷ []) ≡ inject objects outbound secret at_body
unfolding str
inject_all_single_example = inject_all_single objects outbound secret at_body (λ e. cc) (λ e. cc)

inject_all_null_body_example :
    (inject_all codecs outbound ((secret, at_body) ∷ (secret, bearer) ∷ []) ≡ panic)
    × (inject codecs outbound secret at_body ≢ panic)
unfolding str
inject_all_null_body_example =
    inject_all_null_body codecs outbound secret at_body ((secret, bearer) ∷ []) refl (λ e. cc) refl

abbrev authorized : Request
authorized = record outbound {
  headers = header_set (str "Authorization") (str "Bearer sk_live_0123") [];
}

bearer-ok : inject codecs outbound secret bearer ≡ ok authorized
unfolding inject inject_bearer str_eq str
bearer-ok = refl

inject-Injected_example : Injected codecs outbound secret bearer authorized
inject-Injected_example = inject-Injected codecs outbound secret bearer authorized bearer-ok
