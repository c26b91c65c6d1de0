-- ===== src/Redaction.antt =====
-- pkg/proxy/engine.go: `redactSecretFromResponse` and `redactResponse`. The pattern that
-- `maskedPrefixRegex` compiles is written out as `masked_len`; its cache holds what it would
-- compute again and is left out. A text is bytes; the pattern reads them as runes of UTF-8, a byte that is in
-- none as one.
pub mod Cuts
pub mod Steps
pub mod Responses
use agentsecrets.Prelude.{
  ℕ, zero, suc, ◌+◌, ◌-◌, ◌*◌, ◌/◌, ◌%◌, Bool, true, false, not, ◌&&◌, ◌||◌, List, [], ◌∷◌, ◌++◌,
  leb, ltb, ◌==◌, if◌then◌else◌, length, is_empty, take, drop, put_by,
}
use agentsecrets.Text.{Str, str, str_eq, has_prefix, contains, put}

-- The words between the brackets of RedactionPlaceholder.
unfoldable pub notice : Str
unfolding str
notice = str "REDACTED_BY_AGENTSECRETS"

-- RedactionPlaceholder
abbrev pub placeholder : Str
placeholder = b'[' ∷ (notice ++ (b']' ∷ []))

-- bytes.ReplaceAll and regexp.ReplaceAll with the placeholder: from left to right, a match is
-- replaced and passed over. `len_at` is the length of the match at the start of a text, or 0;
-- `skip` counts the bytes of the last match that are still to pass.
unfoldable pub replace_from : (Str → ℕ) → ℕ → Str → Str
replace_from len_at skip [] = []
replace_from len_at (suc skip) (c ∷ body) = replace_from len_at skip body
replace_from len_at zero (c ∷ body) = elim (len_at (c ∷ body)) [
  | zero ↦ c ∷ replace_from len_at zero body
  | suc n ↦ placeholder ++ replace_from len_at n body
]

-- The match of a non-empty literal.
unfoldable pub exact_len : Str → Str → ℕ
unfolding has_prefix
exact_len old body = if has_prefix body old then length old else 0

-- The bytes at the start of a text are in these ranges.
abbrev starts : List (ℕ × ℕ) → Str → Bool
starts [] s = true
starts (range ∷ ranges) [] = false
starts ((low, high) ∷ ranges) (c ∷ s) = leb low c && leb c high && starts ranges s

-- The length of the rune at the start of a text that is not empty; what is not UTF-8 is a rune of one
-- byte.
unfoldable pub rune_len : Str → ℕ
rune_len s =
    let cont : ℕ × ℕ = (128, 191) in
    if starts ((194, 223) ∷ cont ∷ []) s
    then 2
    else if starts ((224, 224) ∷ (160, 191) ∷ cont ∷ []) s
        || starts ((225, 236) ∷ cont ∷ cont ∷ []) s
        || starts ((237, 237) ∷ (128, 159) ∷ cont ∷ []) s
        || starts ((238, 239) ∷ cont ∷ cont ∷ []) s
    then 3
    else if starts ((240, 240) ∷ (144, 191) ∷ cont ∷ cont ∷ []) s
        || starts ((241, 243) ∷ cont ∷ cont ∷ cont ∷ []) s
        || starts ((244, 244) ∷ (128, 143) ∷ cont ∷ cont ∷ []) s
    then 4
    else 1

-- utf8.ValidString, of a text whose first bytes are still to pass.
unfoldable pub is_utf8_from : ℕ → Str → Bool
unfolding rune_len
is_utf8_from skip [] = true
is_utf8_from (suc skip) (c ∷ s) = is_utf8_from skip s
is_utf8_from zero (c ∷ s) =
    let rest = is_utf8_from (rune_len (c ∷ s) - 1) s in
    (ltb c 128 || ltb 1 (rune_len (c ∷ s))) && rest

-- The runes at the start of a text that pass a test of their first byte, `most` at most, in bytes.
unfoldable pub run_len : ℕ → (ℕ → Bool) → Str → ℕ
unfolding rune_len
run_len zero p s = 0
run_len (suc most) p [] = 0
run_len (suc most) p (c ∷ s) =
    let width = rune_len (c ∷ s) in
    let rest = run_len most p (drop width (c ∷ s)) in if p c then width + rest else 0

-- `[\*\.\-_#]`
abbrev is_mask : ℕ → Bool
is_mask c = c == b'*' || c == b'.' || c == b'-' || c == b'_' || c == b'#'

-- `[^\s"'\\,}\]]`
abbrev is_tail : ℕ → Bool
is_tail c = not (
    c == 9
    || c == 10
    || c == 12
    || c == 13
    || c == 32
    || c == 34
    || c == 39
    || c == 92
    || c == 44
    || c == 125
    || c == 93)

-- prefix, then `[\*\.\-_#]{1,4}`, then `[^\s"'\\,}\]]{0,30}`, each as long as it can be.
unfoldable pub masked_len : Str → Str → ℕ
unfolding has_prefix run_len
masked_len prefix body =
    if has_prefix body prefix
    then (let rest = drop (length prefix) body in
        let masks = run_len 4 is_mask rest in
        if masks == 0 then 0 else length prefix + masks + run_len 30 is_tail (drop masks rest))
    else 0

hex_digit : ℕ → ℕ
hex_digit d = if leb d 9 then 48 + d else 55 + d

is_unreserved : ℕ → Bool
is_unreserved c =
    (leb b'a' c && leb c b'z')
    || (leb b'A' c && leb c b'Z')
    || (leb b'0' c && leb c b'9')
    || c == b'-'
    || c == b'_'
    || c == b'.'
    || c == b'~'

-- url.QueryEscape
unfoldable pub query_escape : Str → Str
unfolding hex_digit is_unreserved
query_escape [] = []
query_escape (c ∷ s) =
    (if is_unreserved c
      then c ∷ []
      else if c == b' '
      then b'+' ∷ []
      else b'%' ∷ hex_digit (c / 16) ∷ hex_digit (c % 16) ∷ [])
    ++ query_escape s

-- strings.ReplaceAll(secretValue, `"`, `\"`)
unfoldable pub escape_quotes : Str → Str
escape_quotes [] = []
escape_quotes (c ∷ s) = (if c == 34 then 92 ∷ 34 ∷ [] else c ∷ []) ++ escape_quotes s

unfoldable pub replace_all : Str → Str → Str
unfolding replace_from exact_len
replace_all old body = replace_from (exact_len old) 0 body

-- Steps 2 and 3: an escaped form, where it differs from the value.
unfoldable pub redact_variant : Str → Str → Str → Str
unfolding replace_all str_eq
redact_variant secret variant body =
    if str_eq variant secret then body else replace_all variant body

-- Step 4: an echo cut off or masked behind the first bytes of the value. Where they end within a rune
-- the pattern does not compile, and nothing is done.
unfoldable pub redact_masked : Str → Str → Str
unfolding replace_from masked_len is_utf8_from
redact_masked secret body =
    if leb 8 (length secret)
    then (let prefix_len = if leb 16 (length secret) then 8 else 6 in
        if is_utf8_from 0 (take prefix_len secret)
        then replace_from (masked_len (take prefix_len secret)) 0 body
        else body)
    else body

-- Step 5: the first two thirds of a value, alone.
unfoldable pub redact_prefix : Str → Str → Str
unfolding replace_all
redact_prefix secret body =
    if leb 12 (length secret)
    then (let prefix_cut = length secret * 2 / 3 in
        if leb 12 prefix_cut then replace_all (take prefix_cut secret) body else body)
    else body

unfoldable pub redact_secret_from_response : Str → Str → Str
redact_secret_from_response body secret =
    if is_empty secret || is_empty body
    then body
    else (let exact = replace_all secret body in
        let escaped = redact_variant secret (query_escape secret) exact in
        let quoted = redact_variant secret (escape_quotes secret) escaped in
        redact_prefix secret (redact_masked secret quoted))

-- What `redactResponse` reads and writes: the body and the headers of the result, and the flag
-- `ec.redacted`.
pub record Response : Type 0 where
  pub body : Str
  pub headers : List (Str × List Str)
  pub redacted : Bool

-- A header value, or the body, is rewritten only where the value itself occurs in it.
unfoldable pub redact_text : Str → Str → Str
redact_text val text = if contains text val then redact_secret_from_response text val else text

unfoldable pub redact_header_values : Str → List Str → List Str
unfolding redact_text
redact_header_values val [] = []
redact_header_values val (hv ∷ values) = redact_text val hv ∷ redact_header_values val values

unfoldable pub redact_headers : Str → List (Str × List Str) → List (Str × List Str)
unfolding redact_header_values
redact_headers val [] = []
redact_headers val ((name, values) ∷ headers) =
    (name, redact_header_values val values) ∷ redact_headers val headers

-- Some value of some header holds the secret.
unfoldable pub values_contain : Str → List Str → Bool
values_contain val [] = false
values_contain val (hv ∷ values) = contains hv val || values_contain val values

unfoldable pub headers_contain : Str → List (Str × List Str) → Bool
unfolding values_contain
headers_contain val [] = false
headers_contain val ((name, values) ∷ headers) =
    values_contain val values || headers_contain val headers

-- One round of the loop over `ec.secretValues`.
unfoldable pub redact_value : Str → Response → Response
unfolding redact_text redact_headers headers_contain
redact_value val r = if is_empty val then r else record {
  body = redact_text val r.body;
  headers = redact_headers val r.headers;
  redacted = r.redacted || contains r.body val || headers_contain val r.headers;
}

unfoldable pub redact_values : List Str → Response → Response
unfolding redact_value
redact_values [] r = r
redact_values (val ∷ vals) r = redact_values vals (redact_value val r)

-- `decimal` is the printing of `%d`.
unfoldable pub redact_response : (ℕ → Str) → List Str → Response → Response
unfolding redact_values put_by str str_eq
redact_response decimal vals r =
    let done = redact_values vals r in
    if done.redacted
    then record done {
      headers = put (str "Content-Length") (decimal (length done.body) ∷ []) done.headers;
    }
    else done
