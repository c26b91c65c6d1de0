-- ===== src/Injector/Effects.antt =====
-- Where the credential stands in the request after an injection.
use agentsecrets.Prelude.{
  ◌≡◌, ◌≢◌, ◌⊎◌, refl, Bool, true, false, Option, none, some, List, [], ◌∷◌, ◌++◌, arith, is_empty,
  length, if◌then◌else◌,
}
use agentsecrets.Text.{Str, str, put, lookup}
use agentsecrets.Text.Laws.{str_eq_iff}
use agentsecrets.Text.Maps.{lookup-put}
use agentsecrets.Json.{Fields, text, Nested, done, conflict, set_nested, split_dots}
use agentsecrets.Json.Paths.{get_parts, get_parts-set_parts}
use agentsecrets.Injector.{
  Codecs, Injection, Request, Outcome, ok, err, panic, Values, header_set, header_get,
  canonical_key, with_body, body_bytes, inject_bearer, inject_basic, inject_header, inject_query,
  inject_body, inject_form, inject, ◌>>=◌, InjectError, marshal, write_json, read_body_map,
  read_form, no_body_path, no_form_key, content_type, form_type,
}

header_get-header_set :
    (name value : Str) (headers : List (Str × List Str))
    → header_get name (header_set name value headers) ≡ value
unfolding header_get header_set
header_get-header_set name value headers = ground (
  arith,
  lookup-put (canonical_key name) (canonical_key name) (value ∷ []) headers,
  str_eq_iff (canonical_key name) (canonical_key name),
)

-- The header has the value, and the query and the body are as before.
abbrev pub InHeader : Str → Str → Request → Request → Type 0
InHeader name value req r =
    (header_get name r.headers ≡ value) × (r.raw_query ≡ req.raw_query) × (r.body ≡ req.body)

-- The new body prints an object that has the text at the dotted path.
abbrev pub InBody : Codecs → Str → Str → Request → Type 0
InBody codecs cred path r =
    (fs : Fields) × (get_parts (split_dots path) fs ≡ some (text cred))
    × (codecs.print_json fs ≡ r.body)
    × (r.content_length ≡ length (body_bytes r.body))

-- The new body encodes form values in which the key has the text alone.
abbrev pub InForm : Codecs → Str → Str → Request → Type 0
InForm codecs cred key r =
    (form : Values) × (lookup key form ≡ some (cred ∷ []))
    × (r.body ≡ some (codecs.encode_query form))
    × (r.content_length ≡ length (body_bytes r.body))

-- The new query encodes values in which the parameter has the text alone.
abbrev pub InQuery : Codecs → Str → Str → Request → Request → Type 0
InQuery codecs cred param req r =
    (query : Values) × (lookup param query ≡ some (cred ∷ []))
    × (r.raw_query ≡ codecs.encode_query query)
    × (r.headers ≡ req.headers)
    × (r.body ≡ req.body)

split_dots-ne-nil : (path : Str) → split_dots path ≢ []
unfolding split_dots
split_dots-ne-nil [] h = cc
split_dots-ne-nil (c ∷ path) h = ground (arith, split_dots-ne-nil path)

bind-eq-ok :
    {A B : Type 0} (m : Outcome A) (f : A → Outcome B) {b : B}
    → (m >>= f) ≡ ok b
    → (a : A) × (m ≡ ok a) × (f a ≡ ok b)
bind-eq-ok (ok a) f h = (a, refl, h)
bind-eq-ok (err e) f h = cc
bind-eq-ok panic f h = cc

if-eq-ok :
    {A : Type 0} (test : Bool) (e : InjectError) (m : Outcome A) {a : A}
    → (if test then err e else m) ≡ ok a
    → m ≡ ok a
if-eq-ok true e m h = cc
if-eq-ok false e m h = h

module _ (codecs : Codecs) (req : Request) (cred : Str) where
  marshal-eq-ok :
      (printed : Option Str) (current : Str) (r : Request)
      → marshal codecs printed current req ≡ ok r
      → (printed ≡ r.body) × (r.content_length ≡ length (body_bytes r.body))
  unfolding with_body
  marshal-eq-ok none current r h = cc
  marshal-eq-ok (some body) current r h = ground arith

  write_json-eq-ok :
      (n : Nested) (current : Str) (r : Request)
      → write_json codecs n current req ≡ ok r
      → (fs : Fields) × (n ≡ done fs)
        × (codecs.print_json fs ≡ r.body)
        × (r.content_length ≡ length (body_bytes r.body))
  write_json-eq-ok (done fs) current r h =
      let (printed, size) = marshal-eq-ok (codecs.print_json fs) current r h in
      (fs, refl, printed, size)
  write_json-eq-ok (conflict at) current r h = cc

  get_parts-set_nested :
      (path : Str) (m fs : Fields)
      → set_nested path cred m ≡ done fs
      → get_parts (split_dots path) fs ≡ some (text cred)
  unfolding set_nested
  get_parts-set_nested path m fs h =
      get_parts-set_parts (split_dots path) cred m fs (split_dots-ne-nil path) h

  inject_body-InBody :
      (path : Str) (r : Request)
      → inject_body codecs req cred path ≡ ok r
      → InBody codecs cred path r
  unfolding inject_body
  inject_body-InBody path r h =
      let read : Outcome Fields = read_body_map codecs (body_bytes req.body) in
      let write : (Fields → Outcome Request) =
        λ m. write_json codecs (set_nested path cred m) (content_type req) req in
      let (m, _, wrote) =
        bind-eq-ok read write (if-eq-ok (is_empty path) no_body_path (read >>= write) h) in
      let (fs, set, printed, size) =
        write_json-eq-ok (set_nested path cred m) (content_type req) r wrote in
      (fs, get_parts-set_nested path m fs set, printed, size)

  inject_form-InForm :
      (key : Str) (r : Request) → inject_form codecs req cred key ≡ ok r → InForm codecs cred key r
  unfolding inject_form with_body
  inject_form-InForm key r h =
      let read : Outcome Values = read_form codecs (body_bytes req.body) in
      let write : (Values → Outcome Request) = λ form. ok (
        with_body (content_type req) form_type (codecs.encode_query (put key (cred ∷ []) form))
          req) in
      let (form, _, wrote) =
        bind-eq-ok read write (if-eq-ok (is_empty key) no_form_key (read >>= write) h) in
      (
        put key (cred ∷ []) form,
        ground (arith, lookup-put key key (cred ∷ []) form, str_eq_iff key key),
        ground arith,
        ground arith,
      )

  inject_query-InQuery :
      (param : Str) (r : Request)
      → inject_query codecs req cred param ≡ ok r
      → InQuery codecs cred param req r
  unfolding inject_query
  inject_query-InQuery param r h = (
    put param (cred ∷ []) (codecs.parse_query req.raw_query).0,
    ground (
      arith,
      lookup-put param param (cred ∷ []) (codecs.parse_query req.raw_query).0,
      str_eq_iff param param,
    ),
    ground arith,
    ground arith,
    ground arith,
  )

  -- The credential is where the style says.
  abbrev pub Injected : Injection → Request → Type 0
  Injected inj r =
      ((inj.style ≡ str "bearer") × InHeader (str "Authorization") (str "Bearer " ++ cred) req r)
      ⊎ ((inj.style ≡ str "basic")
          × InHeader (str "Authorization") (str "Basic " ++ codecs.base64 cred) req r)
      ⊎ ((inj.style ≡ str "header") × InHeader inj.target cred req r)
      ⊎ ((inj.style ≡ str "query") × InQuery codecs cred inj.target req r)
      ⊎ ((inj.style ≡ str "body") × InBody codecs cred inj.target r)
      ⊎ ((inj.style ≡ str "form") × InForm codecs cred inj.target r)

  bearer-InHeader :
      (r : Request)
      → inject_bearer codecs req cred ≡ ok r
      → InHeader (str "Authorization") (str "Bearer " ++ cred) req r
  unfolding inject_bearer
  bearer-InHeader r h =
      ground
        (arith, header_get-header_set (str "Authorization") (str "Bearer " ++ cred) req.headers)

  basic-InHeader :
      (r : Request)
      → inject_basic codecs req cred ≡ ok r
      → InHeader (str "Authorization") (str "Basic " ++ codecs.base64 cred) req r
  unfolding inject_basic
  basic-InHeader r h = ground (
    arith,
    header_get-header_set (str "Authorization") (str "Basic " ++ codecs.base64 cred) req.headers,
  )

  header-InHeader :
      (name : Str) (r : Request)
      → inject_header codecs req cred name ≡ ok r
      → InHeader name cred req r
  unfolding inject_header
  header-InHeader name r h = ground (arith, header_get-header_set name cred req.headers)

-- An injection that succeeds is in one of the six styles, and the credential then stands where the
-- style puts it: in the named header, alone under the query parameter or the form key, or as text
-- at the dotted path of the JSON body.
pub inject-Injected :
    (codecs : Codecs) (req : Request) (cred : Str) (inj : Injection) (r : Request)
    → inject codecs req cred inj ≡ ok r
    → Injected codecs req cred inj r
unfolding inject
inject-Injected codecs req cred inj r h = ground (
  arith,
  str_eq_iff inj.style (str "bearer"),
  str_eq_iff inj.style (str "basic"),
  str_eq_iff inj.style (str "header"),
  str_eq_iff inj.style (str "query"),
  str_eq_iff inj.style (str "body"),
  str_eq_iff inj.style (str "form"),
  bearer-InHeader codecs req cred r,
  basic-InHeader codecs req cred r,
  header-InHeader codecs req cred inj.target r,
  inject_query-InQuery codecs req cred inj.target r,
  inject_body-InBody codecs req cred inj.target r,
  inject_form-InForm codecs req cred inj.target r,
)
