-- ===== src/Dotenv/Values.antt =====
-- A line that the file's writer puts together is read back.
use agentsecrets.Prelude.{
  ℕ, ◌≡◌, ◌⊎◌, inl, inr, refl, sym, ap, ◌∙◌, Bool, true, false, not, ◌&&◌, ◌||◌, none, some, [],
  ◌∷◌, ◌++◌, leb, ◌==◌, arith, all, any, Bool-cases, append_assoc, append-nil,
}
use agentsecrets.Text.{Str, is_space, trim_left, trim_right, trim_space}
use agentsecrets.Dotenv.{
  is_name_start, is_name_byte, skip_blanks, span_name, match_line, close_quote, before_hash,
  from_hash, parse_value, format_value, entry,
}

-- The pattern's name of a variable.
abbrev pub IsName : Str → Type 0
IsName [] = ⊥
IsName (c ∷ s) = (is_name_start c ≡ true) × (all is_name_byte s ≡ true)

-- No quote, no backslash, and of the whitespace only the space.
abbrev pub is_plain_byte : ℕ → Bool
is_plain_byte c =
    not (c == b'"') && not (c == b'\'') && not (c == b'\\') && not (leb 9 c && leb c 13)

abbrev pub IsPlain : Str → Type 0
IsPlain val = all is_plain_byte val ≡ true

-- Empty, or a space in front of a text that starts with `#`.
abbrev pub IsComment : Str → Type 0
IsComment comment = (comment ≡ []) ⊎ ((s : Str) × (comment ≡ b' ' ∷ b'#' ∷ s))

span_name-append :
    (name rest : Str)
    → all is_name_byte name ≡ true
    → span_name (name ++ (b'=' ∷ rest)) ≡ (name, b'=' ∷ rest)
span_name-append [] rest h = refl
span_name-append (c ∷ name) rest h = ground (arith, span_name-append name rest)

pub match_line-entry :
    (key val comment : Str)
    → IsName key
    → match_line (entry false key val comment)
      ≡ some (key, skip_blanks (format_value val ++ comment))
unfolding match_line
match_line-entry [] val comment h = absurd h
match_line-entry (c ∷ key) val comment h =
    ground (arith, span_name-append key (format_value val ++ comment))

trim_right-append :
    (v w : Str) (d : ℕ) → is_space d ≡ false → trim_right (v ++ (d ∷ w)) ≡ v ++ (d ∷ trim_right w)
unfolding trim_right
trim_right-append [] w d h = ground arith
trim_right-append (c ∷ []) w d h = ground (arith, trim_right-append [] w d)
trim_right-append (c ∷ e ∷ v) w d h = ground (arith, trim_right-append (e ∷ v) w d)

close_quote-append :
    (v w : Str) (prev : ℕ)
    → (prev == b'\\') ≡ false
    → all is_plain_byte v ≡ true
    → close_quote b'"' prev (v ++ (b'"' ∷ w)) ≡ some v
unfolding close_quote
close_quote-append [] w prev h k = ground arith
close_quote-append (c ∷ v) w prev h k = ground (arith, close_quote-append v w c)

abbrev is_dense_byte : ℕ → Bool
is_dense_byte c = is_plain_byte c && not (c == b' ' || c == b'#')

dense-plain :
    (v : Str)
    → all is_plain_byte v ≡ true
    → any (λ c. c == b' ' || c == b'#') v ≡ false
    → all is_dense_byte v ≡ true
dense-plain [] h k = refl
dense-plain (c ∷ v) h k = ground (arith, dense-plain v)

trim_right-dense : (v : Str) → all is_dense_byte v ≡ true → trim_right v ≡ v
unfolding trim_right is_space
trim_right-dense [] h = refl
trim_right-dense (c ∷ []) h = ground arith
trim_right-dense (c ∷ e ∷ v) h = ground (arith, trim_right-dense (e ∷ v))

trim_left-dense : (v w : Str) (c : ℕ) → is_dense_byte c ≡ true → trim_left (c ∷ v) ≡ c ∷ v
unfolding is_space
trim_left-dense v w c h = ground arith

from_hash-dense : (v : Str) → all is_dense_byte v ≡ true → from_hash v ≡ none
unfolding from_hash
from_hash-dense [] h = refl
from_hash-dense (c ∷ v) h = ground (arith, from_hash-dense v)

from_hash-append :
    (v w : Str) → all is_dense_byte v ≡ true → from_hash (v ++ (b' ' ∷ b'#' ∷ w)) ≡ some (b'#' ∷ w)
unfolding from_hash
from_hash-append [] w h = refl
from_hash-append (c ∷ v) w h = ground (arith, from_hash-append v w)

before_hash-append :
    (v w : Str) → all is_dense_byte v ≡ true → before_hash (v ++ (b' ' ∷ b'#' ∷ w)) ≡ v ++ b' ' ∷ []
unfolding before_hash
before_hash-append [] w h = refl
before_hash-append (c ∷ v) w h = ground (arith, before_hash-append v w)

trim_right-space : (v : Str) → all is_dense_byte v ≡ true → trim_right (v ++ b' ' ∷ []) ≡ v
unfolding trim_right is_space
trim_right-space [] h = refl
trim_right-space (c ∷ []) h = ground arith
trim_right-space (c ∷ e ∷ v) h = ground (arith, trim_right-space (e ∷ v))

trim_right-comment :
    (v w : Str) → trim_right (v ++ (b' ' ∷ b'#' ∷ w)) ≡ v ++ (b' ' ∷ b'#' ∷ trim_right w)
unfolding is_space
trim_right-comment v w =
    ap trim_right (sym (append_assoc v (b' ' ∷ []) (b'#' ∷ w)))
    ∙ trim_right-append (v ++ b' ' ∷ []) w b'#' refl
    ∙ append_assoc v (b' ' ∷ []) (b'#' ∷ trim_right w)

-- A quoted value, whatever follows the closing quote.
parse_value-quoted : (v w : Str) → IsPlain v → parse_value (b'"' ∷ (v ++ (b'"' ∷ w))) ≡ v
unfolding parse_value trim_space is_space trim_right
parse_value-quoted v w h = ground (
  arith,
  trim_right-append v w b'"',
  trim_right-append [] (v ++ (b'"' ∷ w)) b'"',
  close_quote-append v (trim_right w) b'"',
)

parse_value-hash : (w : Str) → parse_value (b'#' ∷ w) ≡ []
unfolding parse_value trim_space is_space from_hash before_hash
parse_value-hash w = ground (arith, trim_right-append [] w b'#')

parse_value-dense :
    (c : ℕ) (v : Str) → all is_dense_byte (c ∷ v) ≡ true → parse_value (c ∷ v) ≡ c ∷ v
unfolding parse_value trim_space is_space
parse_value-dense c v h = ground (arith, trim_right-dense (c ∷ v) h, from_hash-dense (c ∷ v) h)

parse_value-comment :
    (c : ℕ) (v w : Str)
    → all is_dense_byte (c ∷ v) ≡ true
    → parse_value (c ∷ (v ++ (b' ' ∷ b'#' ∷ w))) ≡ c ∷ v
unfolding parse_value trim_space is_space
parse_value-comment c v w h = ground (
  arith,
  trim_right-comment (c ∷ v) w,
  from_hash-append (c ∷ v) (trim_right w) h,
  before_hash-append (c ∷ v) (trim_right w) h,
  trim_right-space (c ∷ v) h,
)

parse_value-nil : parse_value [] ≡ []
unfolding parse_value trim_space
parse_value-nil = refl

skip_blanks-first : (c : ℕ) (v : Str) → is_dense_byte c ≡ true → skip_blanks (c ∷ v) ≡ c ∷ v
skip_blanks-first c v h = ground arith

skip_blanks-dense :
    (c : ℕ) (v : Str) → all is_dense_byte (c ∷ v) ≡ true → skip_blanks (c ∷ v) ≡ c ∷ v
skip_blanks-dense c v h = skip_blanks-first c v (ground arith)

parse_value-unquoted :
    (v comment : Str)
    → all is_dense_byte v ≡ true
    → IsComment comment
    → parse_value (skip_blanks (v ++ comment)) ≡ v
parse_value-unquoted [] comment h (inl e) = rw e parse_value-nil
parse_value-unquoted [] comment h (inr (s, e)) = rw e (parse_value-hash s)
parse_value-unquoted (c ∷ v) comment h (inl e) =
    rw (e, append-nil) (rw (skip_blanks-dense c v h) (parse_value-dense c v h))
parse_value-unquoted (c ∷ v) comment h (inr (s, e)) = rw e (
    ap parse_value (skip_blanks-first c (v ++ (b' ' ∷ b'#' ∷ s)) (ground arith))
    ∙ parse_value-comment c v s h)

-- What is written for a value is read as that value, with or without a comment behind it.
pub parse_value-format :
    (val comment : Str)
    → IsPlain val
    → IsComment comment
    → parse_value (skip_blanks (format_value val ++ comment)) ≡ val
unfolding format_value
parse_value-format val comment h k = elim (Bool-cases (any (λ c. c == b' ' || c == b'#') val)) [
  | inl odd ↦ rw odd (rw append_assoc (parse_value-quoted val comment h))
  | inr even ↦ rw even (parse_value-unquoted val comment (dense-plain val h even) k)
]
