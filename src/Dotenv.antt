-- ===== src/Dotenv.antt =====
-- pkg/secrets/dotenv.go: the .env file of an environment, read, merged and cut line by line. The
-- scanner that splits a file into lines is an argument of the functions on files.
pub mod Values
pub mod Reading
pub mod Merging
use agentsecrets.Prelude.{
  ℕ, Bool, true, false, not, ◌&&◌, ◌||◌, Option, none, some, List, [], ◌∷◌, ◌++◌, leb, ◌==◌, map,
  if◌then◌else◌, is_empty, is_some, any,
}
use agentsecrets.Text.{Str, str, str_eq, has_prefix, has_suffix, trim_space, lookup, put}

-- `\s` of a regular expression: unlike unicode.IsSpace, no vertical tab.
abbrev pub is_blank : ℕ → Bool
is_blank c = c == 32 || c == 9 || c == 10 || c == 12 || c == 13

abbrev pub is_name_start : ℕ → Bool
is_name_start c = (leb b'A' c && leb c b'Z') || (leb b'a' c && leb c b'z') || c == b'_'

abbrev pub is_name_byte : ℕ → Bool
is_name_byte c = is_name_start c || (leb b'0' c && leb c b'9')

abbrev pub skip_blanks : Str → Str
skip_blanks [] = []
skip_blanks (c ∷ s) = let rest = skip_blanks s in if is_blank c then rest else c ∷ s

-- What `[A-Za-z0-9_]*` takes, and what is left.
abbrev pub span_name : Str → Str × Str
span_name [] = ([], [])
span_name (c ∷ s) =
    let (name, rest) = span_name s in if is_name_byte c then (c ∷ name, rest) else ([], c ∷ s)

-- `\s*=\s*(.*)$`
abbrev pub match_value : Str → Str → Option (Str × Str)
match_value key [] = none
match_value key (c ∷ s) = if c == b'=' then some (key, skip_blanks s) else none

abbrev pub match_name : Str → Option (Str × Str)
match_name [] = none
match_name (c ∷ s) =
    if is_name_start c
    then match_value (c ∷ (span_name s).0) (skip_blanks (span_name s).1)
    else none

-- envLineRegex on one line: the two groups. No part of the pattern can match in another way, since
-- a name ends only where no further byte of it stands.
unfoldable pub match_line : Str → Option (Str × Str)
match_line line = match_name (skip_blanks line)

-- The loop of `parseValue` that looks for the closing quote, `prev` being the byte before.
unfoldable pub close_quote : ℕ → ℕ → Str → Option Str
close_quote quote prev [] = none
close_quote quote prev (c ∷ s) =
    let rest = close_quote quote c s in
    if c == quote && not (prev == b'\\')
    then some []
    else elim rest [ none ↦ none | some value ↦ some (c ∷ value) ]

-- val[:idx] for the first `#`, or the whole value.
unfoldable pub before_hash : Str → Str
before_hash [] = []
before_hash (c ∷ s) = let rest = before_hash s in if c == b'#' then [] else c ∷ rest

-- val[idx:] for the first `#`.
unfoldable pub from_hash : Str → Option Str
from_hash [] = none
from_hash (c ∷ s) = let rest = from_hash s in if c == b'#' then some (c ∷ s) else rest

-- A value with no `#` is trimmed already, so that trimming it again does nothing.
abbrev pub unquoted : Str → Str
unquoted val = if is_some (from_hash val) then trim_space (before_hash val) else val

abbrev pub or_unquoted : Option Str → Str → Str
or_unquoted none val = unquoted val
or_unquoted (some inner) val = inner

abbrev pub parse_trimmed : Str → Str
parse_trimmed [] = []
parse_trimmed (c ∷ s) =
    if c == b'"' || c == b'\'' then or_unquoted (close_quote c c s) (c ∷ s) else unquoted (c ∷ s)

-- parseValue
unfoldable pub parse_value : Str → Str
unfolding close_quote before_hash from_hash trim_space
parse_value val = parse_trimmed (trim_space val)

-- A line that is skipped before the pattern is tried.
unfoldable pub is_skipped : Str → Bool
unfolding trim_space has_prefix str
is_skipped line = let trimmed = trim_space line in is_empty trimmed || has_prefix trimmed (str "#")

abbrev pub add_match : Option (Str × Str) → List (Str × Str) → List (Str × Str)
add_match none secrets = secrets
add_match (some (key, value)) secrets = put key (parse_value value) secrets

-- The loop of `Read`.
unfoldable pub read_lines : List Str → List (Str × Str) → List (Str × Str)
unfolding is_skipped match_line parse_value
read_lines [] secrets = secrets
read_lines (line ∷ lines) secrets =
    read_lines lines (if is_skipped line then secrets else add_match (match_line line) secrets)

-- formatValue
unfoldable pub format_value : Str → Str
format_value val = if any (λ c. c == b' ' || c == b'#') val then b'"' ∷ (val ++ b'"' ∷ []) else val

abbrev pub comment_of : Option Str → Str
comment_of none = []
comment_of (some comment) = b' ' ∷ trim_space comment

-- fmt.Sprintf("%s=%s%s", key, formatted, comment)
abbrev pub entry : Bool → Str → Str → Str → Str
entry keys_only key val comment =
    key ++ (b'=' ∷ ((if keys_only then [] else format_value val) ++ comment))

abbrev pub replaced : Bool → Str → Str → Str → Option Str → Str
replaced keys_only line key value none = line
replaced keys_only line key value (some val) =
    entry keys_only key val (comment_of (from_hash value))

abbrev pub on_match : Bool → List (Str × Str) → Str → Option (Str × Str) → Str
on_match keys_only secrets line none = line
on_match keys_only secrets line (some (key, value)) =
    replaced keys_only line key value (lookup key secrets)

-- The body of the loop of `updateFile`.
unfoldable pub update_line : Bool → List (Str × Str) → Str → Str
unfolding match_line format_value from_hash trim_space
update_line keys_only secrets line = on_match keys_only secrets line (match_line line)

abbrev pub has_key : Str → Option (Str × Str) → Bool
has_key key none = false
has_key key (some (j, value)) = str_eq j key

-- existingKeys
unfoldable pub key_exists : Str → List Str → Bool
unfolding match_line str_eq
key_exists key lines = any (λ line. has_key key (match_line line)) lines

-- The loop that appends what the file does not have.
unfoldable pub append_new : Bool → List Str → List (Str × Str) → List Str
unfolding key_exists format_value
append_new keys_only lines [] = []
append_new keys_only lines ((key, val) ∷ secrets) =
    let rest = append_new keys_only lines secrets in
    if key_exists key lines then rest else entry keys_only key val [] ∷ rest

-- updateFile, from the lines of the file to the lines that are written.
unfoldable pub update_lines : Bool → List (Str × Str) → List Str → List Str
unfolding update_line append_new
update_lines keys_only secrets lines =
    map (update_line keys_only secrets) lines ++ append_new keys_only lines secrets

-- The loop of `removeFromFile`.
unfoldable pub remove_lines : Str → List Str → List Str
unfolding match_line str_eq
remove_lines key [] = []
remove_lines key (line ∷ lines) =
    let rest = remove_lines key lines in if has_key key (match_line line) then rest else line ∷ rest

-- strings.Join(lines, "\n")
unfoldable pub join_lines : List Str → Str
join_lines [] = []
join_lines (line ∷ []) = line
join_lines (line ∷ next ∷ lines) = line ++ (10 ∷ join_lines (next ∷ lines))

-- The content that `writeLines` writes.
unfoldable pub content_of : List Str → Str
unfolding join_lines has_suffix
content_of lines =
    let content = join_lines lines in
    if not (is_empty lines) && not (has_suffix content (10 ∷ []))
    then content ++ 10 ∷ []
    else content

-- bufio.Scanner: the lines up to a line that is too long, and whether it came to the end.
abbrev pub Scanner : Type 0
Scanner = Str → List Str × Bool

-- Read; `none` in place of a file that does not exist, and as the result of a scanner's error.
unfoldable pub read_file : Scanner → Option Str → Option (List (Str × Str))
read_file scan none = some []
read_file scan (some content) =
    let (lines, ok) = scan content in if ok then some (read_lines lines []) else none

abbrev pub lines_of : Scanner → Option Str → List Str
lines_of scan none = []
lines_of scan (some content) = (scan content).0

-- updateFile on the file: the scanner's error is not looked at.
unfoldable pub update_file : Scanner → Bool → List (Str × Str) → Option Str → Str
unfolding update_lines content_of
update_file scan keys_only secrets file =
    content_of (update_lines keys_only secrets (lines_of scan file))

-- removeFromFile on the file
unfoldable pub remove_from_file : Scanner → Str → Option Str → Option Str
unfolding remove_lines content_of
remove_from_file scan key none = none
remove_from_file scan key (some content) = some (content_of (remove_lines key (scan content).0))

-- Write and Delete: in storage mode 1 the file is left alone.
unfoldable pub write : Scanner → ℕ → List (Str × Str) → Option Str → Option Str
write scan mode secrets file =
    if mode == 1 then file else some (update_file scan false secrets file)

unfoldable pub delete : Scanner → ℕ → Str → Option Str → Option Str
delete scan mode key file = if mode == 1 then file else remove_from_file scan key file
