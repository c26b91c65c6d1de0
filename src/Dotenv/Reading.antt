-- ===== src/Dotenv/Reading.antt =====
-- What `Read` returns for a key, line by line: the last line about it counts.
use agentsecrets.Prelude.{
  ℕ, ◌≡◌, inl, inr, refl, true, false, Option, none, some, List, [], ◌∷◌, ◌++◌, arith,
  if◌then◌else◌, Bool-cases, ap, sym, ◌∙◌,
}
use agentsecrets.Text.{Str, str, str_eq, has_prefix, is_space, trim_right, trim_space, lookup}
use agentsecrets.Text.Maps.{lookup-put}
use agentsecrets.Dotenv.{
  match_line, parse_value, is_skipped, add_match, read_lines, has_key, key_exists,
}

-- What a line says of a key.
abbrev pub value_if : Str → Option (Str × Str) → Option Str
value_if key none = none
value_if key (some (j, value)) = if str_eq j key then some (parse_value value) else none

abbrev pub line_value : Str → Str → Option Str
line_value key line = value_if key (match_line line)

abbrev pub or_else {ℓ} : {A : Type ℓ} → Option A → Option A → Option A
or_else none b = b
or_else (some a) b = some a

-- The last line about a key counts.
unfoldable pub last_value : Str → List Str → Option Str
last_value key [] = none
last_value key (line ∷ lines) = or_else (last_value key lines) (line_value key line)

pub trim_right-first :
    (c : ℕ) (s : Str) → is_space c ≡ false → trim_right (c ∷ s) ≡ c ∷ trim_right s
unfolding trim_right
trim_right-first c s h = ground arith

is_skipped-none : (line : Str) → is_skipped line ≡ true → match_line line ≡ none
unfolding is_skipped match_line trim_space has_prefix str is_space
is_skipped-none [] h = refl
is_skipped-none (c ∷ line) h = ground (arith, is_skipped-none line, trim_right-first c line)

lookup-add_match :
    (key : Str) (m : Option (Str × Str)) (secrets : List (Str × Str))
    → lookup key (add_match m secrets) ≡ or_else (value_if key m) (lookup key secrets)
lookup-add_match key none secrets = refl
lookup-add_match key (some (j, value)) secrets =
    ground (arith, lookup-put j key (parse_value value) secrets)

lookup-line :
    (key line : Str) (secrets : List (Str × Str))
    → lookup key (if is_skipped line then secrets else add_match (match_line line) secrets)
      ≡ or_else (line_value key line) (lookup key secrets)
lookup-line key line secrets = elim (Bool-cases (is_skipped line)) [
  | inl skipped ↦ rw (skipped, is_skipped-none line skipped) refl
  | inr kept ↦ rw kept (lookup-add_match key (match_line line) secrets)
]

or_else_assoc : {A : Type 0} (a b c : Option A) → or_else a (or_else b c) ≡ or_else (or_else a b) c
or_else_assoc none b c = refl
or_else_assoc (some a) b c = refl

pub lookup-read_lines :
    (key : Str) (lines : List Str) (secrets : List (Str × Str))
    → lookup key (read_lines lines secrets) ≡ or_else (last_value key lines) (lookup key secrets)
unfolding read_lines last_value
lookup-read_lines key [] secrets = refl
lookup-read_lines key (line ∷ lines) secrets =
    lookup-read_lines key lines _
    ∙ ap (or_else (last_value key lines)) (lookup-line key line secrets)
    ∙ or_else_assoc (last_value key lines) (line_value key line) (lookup key secrets)

pub last_value-append :
    (key : Str) (xs ys : List Str)
    → last_value key (xs ++ ys) ≡ or_else (last_value key ys) (last_value key xs)
unfolding last_value
last_value-append key [] ys = ground arith
last_value-append key (x ∷ xs) ys =
    ap (λ o. or_else o (line_value key x)) (last_value-append key xs ys)
    ∙ sym (or_else_assoc (last_value key ys) (last_value key xs) (line_value key x))

pub value_if-has_key :
    (key : Str) (m : Option (Str × Str)) → has_key key m ≡ false → value_if key m ≡ none
value_if-has_key key none h = refl
value_if-has_key key (some (j, value)) h = ground arith

pub last_value-missing :
    (key : Str) (lines : List Str) → key_exists key lines ≡ false → last_value key lines ≡ none
unfolding last_value key_exists
last_value-missing key [] h = refl
last_value-missing key (line ∷ lines) h = elim (Bool-cases (has_key key (match_line line))) [
  | inl here ↦ absurd (ground arith)
  | inr other ↦
      rw (value_if-has_key key (match_line line) other, last_value-missing key lines (ground arith))
        refl
]
