-- ===== src/ApiClient.antt =====
-- pkg/api/client.go: the calls of the backend, with the one retry after a token has expired. JSON, the
-- HTTP client, whether net/http makes a request of a method and a URL, and the callback that refreshes the token are arguments; what the client answers may
-- depend on what was sent before. A body of an answer that cannot be read is left out.
pub mod Endpoints
pub mod Retrying
use agentsecrets.Prelude.{
  ℕ, zero, suc, ◌-◌, length, Bool, true, false, not, ◌&&◌, ◌||◌, Option, none, some, List, [], ◌∷◌,
  ◌++◌, leb, ltb, ◌==◌, if◌then◌else◌, is_empty, is_some, any,
}
use agentsecrets.Text.{Str, str, str_eq, has_prefix, has_suffix, to_upper, lookup}
use agentsecrets.Config.{trim_slashes}
use agentsecrets.ApiClient.Endpoints.{endpoint_map}

-- strings.ReplaceAll(path, old, new), for an old text with a byte: a match is replaced and passed over,
-- and `skip` counts the bytes of the last match that are still to pass.
unfoldable pub replace_param : Str → Str → ℕ → Str → Str
unfolding has_prefix
replace_param old new skip [] = []
replace_param old new (suc skip) (c ∷ path) = replace_param old new skip path
replace_param old new zero (c ∷ path) =
    let kept = replace_param old new zero path in
    let passed = replace_param old new (length old - 1) path in
    if has_prefix (c ∷ path) old then new ++ passed else c ∷ kept

-- The loop of `resolveEndpoint` over the parameters.
unfoldable pub replace_params : List (Str × Str) → Str → Str
unfolding replace_param
replace_params [] path = path
replace_params ((key, value) ∷ params) path =
    replace_params params (replace_param (b'{' ∷ (key ++ b'}' ∷ [])) value 0 path)

abbrev pub find_action : Str → Option (List (Str × Str)) → Option Str
find_action action none = none
find_action action (some actions) = lookup action actions

abbrev pub filled : List (Str × Str) → Option Str → Option Str
filled params none = none
filled params (some path) = some (replace_params params path)

-- resolveEndpoint, of the two parts of an endpoint's key.
unfoldable pub resolve_endpoint : Str → Str → List (Str × Str) → Option Str
unfolding endpoint_map replace_params
resolve_endpoint category action params =
    filled params (find_action action (lookup category endpoint_map))

-- publicEndpoints
unfoldable pub is_public : Str → Str → Bool
unfolding str_eq str
is_public category action =
    (str_eq category (str "auth")
      && (str_eq action (str "signup")
          || str_eq action (str "login")
          || str_eq action (str "refresh")))
    || (str_eq category (str "telemetry") && str_eq action (str "sync"))

abbrev pub without_suffix : Str → Str → Str
without_suffix suffix [] = []
without_suffix suffix (c ∷ s) =
    let rest = without_suffix suffix s in if str_eq (c ∷ s) suffix then [] else c ∷ rest

abbrev pub join_query : List (Str × Str) → Str
join_query [] = []
join_query ((key, value) ∷ []) = key ++ (b'=' ∷ value)
join_query ((key, value) ∷ next ∷ query) =
    key ++ (b'=' ∷ (value ++ (b'&' ∷ join_query (next ∷ query))))

abbrev pub set_params : List (Str × Str) → List (Str × Str)
set_params [] = []
set_params ((key, value) ∷ query) =
    let rest = set_params query in if is_empty value then rest else (key, value) ∷ rest

abbrev pub with_query : Str → List (Str × Str) → Str
with_query url [] = url
with_query url (entry ∷ query) = url ++ (b'?' ∷ join_query (entry ∷ query))

-- The URL of a call.
unfoldable pub url_of : Str → Str → List (Str × Str) → Str
unfolding trim_slashes has_prefix str_eq str
url_of base path query =
    let root = trim_slashes base in
    with_query
      (if has_prefix path (str "/")
        then without_suffix (str "/api") root ++ path
        else root ++ (b'/' ∷ path))
      (set_params query)

pub record ApiRequest : Type 0 where
  pub method : Str
  pub url : Str
  pub body : Option Str
  pub token : Str

pub record ApiResponse : Type 0 where
  pub status_code : ℕ
  pub content : Str

-- `get_token` is the current access token, empty without one; `refresh_fn` is the callback, if one is
-- set, as the new token or its error; `send` is the HTTP client, from what was sent before.
pub record ApiClient : Type 0 where
  pub base_url : Str
  pub get_token : Str
  pub refresh_fn : Option (Option Str)
  pub makes_request : Str → Str → Bool
  pub send : List ApiRequest → ApiRequest → Option ApiResponse

-- doRequest
unfoldable pub do_request :
    ApiClient
    → Str
    → Str
    → Option Str
    → Str
    → List ApiRequest
    → Option ApiResponse × List ApiRequest
do_request c method url body override sent =
    let req : ApiRequest = record {
      method = method;
      url = url;
      body = body;
      token = if is_empty override then c.get_token else override;
    } in
    if c.makes_request method url then (c.send sent req, sent ++ req ∷ []) else (none, sent)

-- What follows the first answer, where it is 401 and the endpoint wants a token.
unfoldable pub refresh_and_retry :
    ApiClient
    → Str
    → Str
    → Option Str
    → ApiResponse
    → Option (Option Str)
    → List ApiRequest
    → Option ApiResponse × List ApiRequest
unfolding do_request
refresh_and_retry c method url body first none sent = (some first, sent)
refresh_and_retry c method url body first (some none) sent = (some first, sent)
refresh_and_retry c method url body first (some (some token)) sent =
    do_request c method url body token sent

abbrev pub on_response :
    ApiClient
    → Bool
    → Str
    → Str
    → Option Str
    → Option ApiResponse
    → List ApiRequest
    → Option ApiResponse × List ApiRequest
on_response c open_to_all method url body none sent = (none, sent)
on_response c open_to_all method url body (some first) sent =
    if first.status_code == 401 && not open_to_all
    then refresh_and_retry c method url body first c.refresh_fn sent
    else (some first, sent)

abbrev pub call_path :
    ApiClient
    → Bool
    → Str
    → Option Str
    → List (Str × Str)
    → Option Str
    → List ApiRequest
    → Option ApiResponse × List ApiRequest
call_path c open_to_all method body query none sent = (none, sent)
call_path c open_to_all method body query (some path) sent =
    let url = url_of c.base_url path query in
    let (answer, after) = do_request c method url body [] sent in
    on_response c open_to_all method url body answer after

-- The marshalled data of a call: none, or the text, or an error.
pub data Payload : Type 0 where
  empty : Payload
  json : Str → Payload
  unmarshalable : Payload

-- What `CallCtx` does once the endpoint has a path.
abbrev pub call_data :
    ApiClient
    → Bool
    → Str
    → Payload
    → List (Str × Str)
    → Option Str
    → List ApiRequest
    → Option ApiResponse × List ApiRequest
call_data c open_to_all method empty query path sent =
    call_path c open_to_all method none query path sent
call_data c open_to_all method (json text) query path sent =
    call_path c open_to_all method (some text) query path sent
call_data c open_to_all method unmarshalable query path sent = (none, sent)

-- CallCtx, of the two parts of an endpoint's key; `none` is an error.
unfoldable pub call_ctx :
    ApiClient
    → Str
    → Str
    → Str
    → Payload
    → List (Str × Str)
    → List (Str × Str)
    → List ApiRequest
    → Option ApiResponse × List ApiRequest
unfolding resolve_endpoint url_of do_request refresh_and_retry is_public to_upper
call_ctx c category action method payload params query sent =
    call_data c (is_public category action) (to_upper method) payload query
      (resolve_endpoint category action params) sent

-- okStatus
unfoldable pub ok_status : ℕ → List ℕ → Bool
ok_status code [] = leb 200 code && ltb code 300
ok_status code (ok ∷ codes) = any (λ c. code == c) (ok ∷ codes)
