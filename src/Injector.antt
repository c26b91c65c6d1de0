-- ===== src/Injector.antt =====
-- pkg/proxy/injector.go: the six injection styles on an outbound request, one by one (`inject`) and
-- grouped (`inject_all`). The codecs of encoding/json, net/url and encoding/base64 are arguments.
pub mod Single
pub mod Effects
pub mod Faults
use agentsecrets.Prelude.{
  ℕ, Bool, true, false, not, ◌&&◌, ◌||◌, Option, none, some, List, [], ◌∷◌, ◌++◌, leb, ltb, ◌==◌,
  if◌then◌else◌, length, is_empty, any, is_some,
}
use agentsecrets.Text.{Str, str, str_eq, to_lower, upper_byte, lower_byte, lookup, put}
use agentsecrets.Json.{Fields, end, Nested, done, conflict, set_nested}

-- A body that encoding/json reads into a map: `null` makes the map nil.
pub data Document : Type 0 where
  malformed : Document
  nil_map : Document
  fields : Fields → Document

-- url.Values
abbrev pub Values : Type 0
Values = List (Str × List Str)

-- What the injector calls of encoding/json, net/url and encoding/base64. `parse_query` gives the
-- pairs that it could read, and whether it met an error.
pub record Codecs : Type 0 where
  pub parse_json : Str → Document
  pub print_json : Fields → Option Str
  pub parse_query : Str → Values × Bool
  pub encode_query : Values → Str
  pub base64 : Str → Str

-- Injection
pub record Injection : Type 0 where
  pub style : Str
  pub target : Str
  pub secret_key : Str

-- What an injection reads and writes of an http.Request.
pub record Request : Type 0 where
  pub raw_query : Str
  pub headers : List (Str × List Str)
  pub body : Option Str
  pub content_length : ℕ

pub data InjectError : Type 0 where
  unknown_style : Str → InjectError
  empty_bearer not_basic no_header_name no_param_name no_body_path no_form_key : InjectError
  bad_json bad_form bad_marshal : InjectError
  path_conflict : Str → InjectError

-- `panic` is a write to a nil map.
pub data Outcome {ℓ} (A : Type ℓ) : Type ℓ where
  ok : A → Outcome A
  err : InjectError → Outcome A
  panic : Outcome A

infixl 5 ◌>>=◌
abbrev pub ◌>>=◌ {ℓ κ} : {A : Type ℓ} {B : Type κ} → Outcome A → (A → Outcome B) → Outcome B
ok a >>= f = f a
err e >>= f = err e
panic >>= f = panic

-- The bytes of a token, of which a header name consists.
is_token_byte : ℕ → Bool
is_token_byte c =
    (leb b'a' c && leb c b'z')
    || (leb b'A' c && leb c b'Z')
    || (leb b'0' c && leb c b'9')
    || any (λ d. d == c)
        (33 ∷ 35 ∷ 36 ∷ 37 ∷ 38 ∷ 39 ∷ 42 ∷ 43 ∷ 45 ∷ 46 ∷ 94 ∷ 95 ∷ 96 ∷ 124 ∷ 126 ∷ [])

canonical_from : Bool → Str → Str
canonical_from upper [] = []
canonical_from upper (c ∷ s) =
    (if upper then upper_byte c else lower_byte c) ∷ canonical_from (c == b'-') s

all_token : Str → Bool
all_token [] = true
all_token (c ∷ s) = is_token_byte c && all_token s

-- textproto.CanonicalMIMEHeaderKey
unfoldable pub canonical_key : Str → Str
unfolding is_token_byte canonical_from all_token upper_byte lower_byte
canonical_key s = if all_token s then canonical_from true s else s

-- http.Header.Set
unfoldable pub header_set : Str → Str → List (Str × List Str) → List (Str × List Str)
header_set name value headers = put (canonical_key name) (value ∷ []) headers

abbrev first : Option (List Str) → Str
first none = []
first (some []) = []
first (some (v ∷ vs)) = v

-- http.Header.Get; "" for a missing header.
unfoldable pub header_get : Str → List (Str × List Str) → Str
header_get name headers = first (lookup (canonical_key name) headers)

-- strings.SplitN(credentials, ":", 2) has two parts.
unfoldable pub has_colon : Str → Bool
has_colon s = any (λ c. c == b':') s

unfoldable pub is_body_style : Str → Bool
is_body_style s = str_eq s (str "body") || str_eq s (str "form")

-- The default Content-Type, where the caller has set none.
unfoldable pub default_type : Str → Str → List (Str × List Str) → List (Str × List Str)
default_type current value headers =
    if is_empty current then header_set (str "Content-Type") value headers else headers

abbrev pub content_type : Request → Str
content_type req = header_get (str "Content-Type") req.headers

-- The new body and its length.
unfoldable pub with_body : Str → Str → Str → Request → Request
with_body current value body req = record req {
  body = some body;
  content_length = length body;
  headers = default_type current value req.headers;
}

-- io.ReadAll of a body that may be nil.
abbrev pub body_bytes : Option Str → Str
body_bytes none = []
body_bytes (some b) = b

abbrev pub json_type : Str
json_type = str "application/json"

abbrev pub form_type : Str
form_type = str "application/x-www-form-urlencoded"

-- The locals of the loop of `InjectAll`; nil and not dirty is `none`.
pub record Draft : Type 0 where
  pub request : Request
  pub body_fields : Option Fields
  pub form : Option Values

module _ (codecs : Codecs) where
  unfoldable pub inject_bearer : Request → Str → Outcome Request
  inject_bearer req token =
      if is_empty token
      then err empty_bearer
      else ok (record req {
        headers = header_set (str "Authorization") (str "Bearer " ++ token) req.headers;
      })

  unfoldable pub inject_basic : Request → Str → Outcome Request
  inject_basic req credentials =
      if has_colon credentials
      then ok (record req {
        headers =
            header_set (str "Authorization") (str "Basic " ++ codecs.base64 credentials)
              req.headers;
      })
      else err not_basic

  unfoldable pub inject_header : Request → Str → Str → Outcome Request
  inject_header req value header_name =
      if is_empty header_name
      then err no_header_name
      else ok (record req { headers = header_set header_name value req.headers })

  unfoldable pub inject_query : Request → Str → Str → Outcome Request
  inject_query req value param_name =
      if is_empty param_name
      then err no_param_name
      else ok (record req {
        raw_query =
            codecs.encode_query (put param_name (value ∷ []) (codecs.parse_query req.raw_query).0);
      })

  -- json.Marshal and the new body.
  abbrev pub marshal : Option Str → Str → Request → Outcome Request
  marshal none current req = err bad_marshal
  marshal (some body) current req = ok (with_body current json_type body req)

  abbrev pub write_json : Nested → Str → Request → Outcome Request
  write_json (done fs) current req = marshal (codecs.print_json fs) current req
  write_json (conflict at) current req = err (path_conflict at)

  -- The map that `injectBody` writes to: a nil map is replaced by a new one.
  abbrev pub body_map : Document → Outcome Fields
  body_map malformed = err bad_json
  body_map nil_map = ok end
  body_map (fields fs) = ok fs

  abbrev pub read_body_map : Str → Outcome Fields
  read_body_map raw = if is_empty raw then ok end else body_map (codecs.parse_json raw)

  unfoldable pub inject_body : Request → Str → Str → Outcome Request
  inject_body req value path = if is_empty path then err no_body_path else do
    m ← read_body_map (body_bytes req.body)
    write_json (set_nested path value m) (content_type req) req

  abbrev pub parsed_form : Values × Bool → Outcome Values
  parsed_form (form, failed) = if failed then err bad_form else ok form

  abbrev pub read_form : Str → Outcome Values
  read_form raw = if is_empty raw then ok [] else parsed_form (codecs.parse_query raw)

  unfoldable pub inject_form : Request → Str → Str → Outcome Request
  inject_form req value key = if is_empty key then err no_form_key else do
    form ← read_form (body_bytes req.body)
    ok (
        with_body (content_type req) form_type (codecs.encode_query (put key (value ∷ []) form))
          req)

  -- Inject
  unfoldable pub inject : Request → Str → Injection → Outcome Request
  inject req cred inj =
      if str_eq inj.style (str "bearer")
      then inject_bearer req cred
      else if str_eq inj.style (str "basic")
      then inject_basic req cred
      else if str_eq inj.style (str "header")
      then inject_header req cred inj.target
      else if str_eq inj.style (str "query")
      then inject_query req cred inj.target
      else if str_eq inj.style (str "body")
      then inject_body req cred inj.target
      else if str_eq inj.style (str "form")
      then inject_form req cred inj.target
      else err (unknown_style inj.style)

  -- The fast path of `InjectAll`.
  unfoldable pub inject_each : Request → List (Str × Injection) → Outcome Request
  inject_each req [] = ok req
  inject_each req ((cred, inj) ∷ injs) = inject req cred inj >>= λ r. inject_each r injs

  -- `bodyMap` at the first body injection; here a nil map is not replaced.
  abbrev document_map : Document → Outcome Fields
  document_map malformed = err bad_json
  document_map nil_map = panic
  document_map (fields fs) = ok fs

  abbrev draft_map : Option Fields → Str → Outcome Fields
  draft_map none raw = if is_empty raw then ok end else document_map (codecs.parse_json raw)
  draft_map (some fs) raw = ok fs

  abbrev draft_form : Option Values → Str → Outcome Values
  draft_form none raw = read_form raw
  draft_form (some form) raw = ok form

  abbrev draft_nested : Draft → Nested → Outcome Draft
  draft_nested d (done fs) = ok (record d { body_fields = some fs })
  draft_nested d (conflict at) = err (path_conflict at)

  -- One round of the loop.
  unfoldable pub draft_step : Str → Draft → Str → Injection → Outcome Draft
  draft_step raw d cred inj =
      if str_eq inj.style (str "body")
      then (draft_map d.body_fields raw >>= λ m. draft_nested d (set_nested inj.target cred m))
      else if str_eq inj.style (str "form")
      then (draft_form d.form raw >>= λ form.
          ok (record d { form = some (put inj.target (cred ∷ []) form) }))
      else (inject d.request cred inj >>= λ r. ok (record d { request = r }))

  unfoldable pub draft_all : Str → Draft → List (Str × Injection) → Outcome Draft
  draft_all raw d [] = ok d
  draft_all raw d ((cred, inj) ∷ injs) = draft_step raw d cred inj >>= λ e. draft_all raw e injs

  -- Each representation that was written is serialised once; the form comes last.
  unfoldable pub write_body : Option Fields → Str → Request → Outcome Request
  write_body none current req = ok req
  write_body (some fs) current req = marshal (codecs.print_json fs) current req

  unfoldable pub write_form : Option Values → Str → Request → Outcome Request
  write_form none current req = ok req
  write_form (some form) current req =
      ok (with_body current form_type (codecs.encode_query form) req)

  -- InjectAll, on the credentials paired with their injections.
  unfoldable pub inject_all : Request → List (Str × Injection) → Outcome Request
  inject_all req injs =
      if any (λ p. is_body_style p.1.style) injs
      then (let current = to_lower (content_type req) in
          let draft : Draft = record { request = req; body_fields = none; form = none } in
          draft_all (body_bytes req.body) draft injs >>= λ d.
          write_body d.body_fields current d.request >>= λ r. write_form d.form current r)
      else inject_each req injs
