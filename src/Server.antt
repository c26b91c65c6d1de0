-- ===== src/Server.antt =====
-- pkg/proxy/server.go: the session token, the injection headers and the approval endpoint of the
-- proxy's HTTP server. The decoding of a JSON body and the random generator are arguments.
pub mod Sessions
pub mod Approving
pub mod Targets
pub mod Proxying
pub mod Relaying
use agentsecrets.Prelude.{
  ℕ, Bool, true, false, not, ◌&&◌, ◌||◌, Option, none, some, List, [], ◌∷◌, ◌++◌, ◌==◌, map,
  if◌then◌else◌, is_empty, drop, length,
}
use agentsecrets.Text.{Str, str, str_eq, equal_fold, to_lower, to_upper, has_prefix, trim_space}
use agentsecrets.Approvals.{ApprovalKey, World, approve}
use agentsecrets.Injector.{Injection, header_get}

-- What the handlers read of an http.Request.
pub record Incoming : Type 0 where
  pub method : Str
  pub headers : List (Str × List Str)
  pub body : Str

-- The status and the JSON object of an answer.
pub record Answer : Type 0 where
  pub status : ℕ
  pub fields : List (Str × Str)

-- The state behind the handlers: the session token and the approval store, if there is one.
pub record Server : Type 0 where
  pub session_token : Str
  pub approvals : Option World

abbrev pub Handler : Type 0
Handler = Incoming → Server → Answer × Server

unfoldable pub write_error : ℕ → Str → Answer
unfolding str
write_error status message = record { status = status; fields = (str "error", message) ∷ [] }

-- validateSession
unfoldable pub validate_session : Handler → Handler
unfolding write_error str str_eq
validate_session next r s =
    if is_empty s.session_token
    then next r s
    else (let token = header_get (str "X-AS-Session-Token") r.headers in
        if is_empty token || not (str_eq token s.session_token)
        then (write_error 401 (str "Invalid or missing session token"), s)
        else next r s)

-- handleRotateSession with rotateSessionToken; `generated` is what GenerateSessionToken returns.
unfoldable pub handle_rotate_session : Option Str → Handler
unfolding write_error str str_eq
handle_rotate_session generated r s =
    if not (str_eq r.method (str "POST"))
    then (write_error 405 (str "POST required"), s)
    else elim generated [
      | none ↦ (write_error 500 (str "failed to generate new session token"), s)
      | some token ↦ (
        record {
          status = 200;
          fields =
              (str "status", str "ok")
              ∷ (str "message", str "session token rotated successfully")
              ∷ (str "new_token", token)
              ∷ [];
        },
        record s { session_token = token },
      )
    ]

-- The body of an approval.
pub record ApproveBody : Type 0 where
  pub secret_key : Str
  pub method : Str
  pub domain : Str
  pub agent_id : Str

unfoldable pub approve_key : ApproveBody → ApprovalKey
approve_key b = record {
  agent_id = b.agent_id;
  secret_key = to_upper b.secret_key;
  domain = to_lower b.domain;
  method = to_upper b.method;
}

abbrev pub on_store : ApproveBody → ℕ → Option World → Server → Answer × Server
on_store b now none s = (write_error 500 (str "Approval store not initialized"), s)
on_store b now (some w) s =
    let k = approve_key b in
    (
      record {
        status = 200;
        fields =
            (str "status", str "approved")
            ∷ (str "secret_key", k.secret_key)
            ∷ (str "method", k.method)
            ∷ (str "domain", k.domain)
            ∷ [];
      },
      record s { approvals = some (approve k now w) },
    )

abbrev pub on_body : Option ApproveBody → ℕ → Server → Answer × Server
on_body none now s = (write_error 400 (str "Invalid JSON body"), s)
on_body (some b) now s =
    if is_empty b.secret_key || is_empty b.method || is_empty b.domain
    then (write_error 400 (str "secret_key, method, and domain are required"), s)
    else on_store b now s.approvals s

-- handleApprove, with the decoder of the body and the clock.
unfoldable pub handle_approve : (Str → Option ApproveBody) → ℕ → Handler
unfolding str str_eq
handle_approve decode now r s =
    if not (str_eq r.method (str "POST"))
    then (write_error 405 (str "POST required"), s)
    else on_body (decode r.body) now s

-- strings.Cut with a separator of one byte.
unfoldable pub cut : ℕ → Str → Option (Str × Str)
cut sep [] = none
cut sep (c ∷ s) =
    let rest = cut sep s in
    if c == sep
    then some ([], s)
    else elim rest [ none ↦ none | some (before, after) ↦ some (c ∷ before, after) ]

abbrev pub or_cut : Option (Str × Str) → Str → Option (Str × Str)
or_cut none v = cut b' ' v
or_cut (some p) v = some p

abbrev pub trimmed_pair : Option (Str × Str) → Option (Str × Str)
trimmed_pair none = none
trimmed_pair (some (target, key)) =
    if is_empty (trim_space target) || is_empty (trim_space key)
    then none
    else some (trim_space target, trim_space key)

-- One value of a targeted header, `target=KEY` or `target KEY`.
unfoldable pub parse_target : Str → Option (Str × Str)
unfolding cut trim_space
parse_target v = trimmed_pair (or_cut (cut b'=' v) v)

abbrev pub add_target : Str → Option (Str × Str) → Option (List Injection) → Option (List Injection)
add_target style none rest = none
add_target style (some (target, key)) none = none
add_target style (some (target, key)) (some injs) =
    some (record { style = style; target = target; secret_key = key } ∷ injs)

-- The loop over the values of a targeted header; `none` is the error.
unfoldable pub parse_targets : Str → List Str → Option (List Injection)
parse_targets style [] = some []
parse_targets style (v ∷ values) = add_target style (parse_target v) (parse_targets style values)

-- values[0]; net/http keeps no header without a value.
abbrev first_value : List Str → Str
first_value [] = []
first_value (v ∷ values) = v

abbrev one : Str → Str → List Str → Option (List Injection)
one style target values =
    some (record { style = style; target = target; secret_key = first_value values } ∷ [])

abbrev dots_for_dashes : Str → Str
dots_for_dashes = map (λ c. if c == b'-' then b'.' else c)

abbrev is_targeted : Str → Bool
is_targeted key =
    equal_fold key (str "X-As-Inject-Header")
    || equal_fold key (str "X-As-Inject-Query")
    || equal_fold key (str "X-As-Inject-Body")
    || equal_fold key (str "X-As-Inject-Form")

-- The switch of `parseInjections` on one header.
unfoldable pub parse_header : Str → List Str → Option (List Injection)
unfolding parse_targets equal_fold to_lower has_prefix str
parse_header key values =
    if equal_fold key (str "X-As-Inject-Bearer")
    then one (str "bearer") [] values
    else if equal_fold key (str "X-As-Inject-Basic")
    then one (str "basic") [] values
    else if is_targeted key
    then parse_targets (drop (length (str "x-as-inject-")) (to_lower key)) values
    else if has_prefix (to_lower key) (str "x-as-inject-header-")
    then one (str "header") (drop (length (str "x-as-inject-header-")) key) values
    else if has_prefix (to_lower key) (str "x-as-inject-query-")
    then one (str "query") (drop (length (str "x-as-inject-query-")) key) values
    else if has_prefix (to_lower key) (str "x-as-inject-body-")
    then one (str "body") (dots_for_dashes (drop (length (str "x-as-inject-body-")) key)) values
    else if has_prefix (to_lower key) (str "x-as-inject-form-")
    then one (str "form") (drop (length (str "x-as-inject-form-")) key) values
    else some []

-- parseInjections, in the order of the list of headers.
unfoldable pub parse_injections : List (Str × List Str) → Option (List Injection)
parse_injections [] = some []
parse_injections ((key, values) ∷ headers) = elim (parse_header key values) [
  | none ↦ none
  | some injs ↦ elim (parse_injections headers) [ none ↦ none | some rest ↦ some (injs ++ rest) ]
]
