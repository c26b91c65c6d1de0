-- ===== src/Dotenv/Merging.antt =====
-- The .env file as a map: what `Write` and `Delete` do to what `Read` returns.
use agentsecrets.Prelude.{
  ◌≡◌, ◌⊎◌, inl, inr, refl, Bool, true, false, ◌||◌, Option, none, some, List, [], ◌∷◌, ◌++◌, arith,
  if◌then◌else◌, map, Bool-cases, ap, sym, ◌∙◌, lookup_by, subst, ◌==◌,
}
use agentsecrets.Text.{Str, str_eq, is_space, trim_right, trim_space, lookup}
use agentsecrets.Text.Laws.{str_eq_iff}
use agentsecrets.Dotenv.{
  match_line, from_hash, comment_of, parse_value, read_lines, entry, replaced, on_match,
  update_line, has_key, key_exists, append_new, update_lines, remove_lines,
}
use agentsecrets.Dotenv.Values.{IsName, IsPlain, IsComment, match_line-entry, parse_value-format}
use agentsecrets.Dotenv.Reading.{
  value_if, line_value, or_else, last_value, trim_right-first, lookup-read_lines, last_value-append,
  value_if-has_key, last_value-missing,
}

-- The keys are names of variables, with values that are plain, and no key stands twice.
abbrev pub IsWritable : List (Str × Str) → Type 0
IsWritable [] = Unit
IsWritable ((key, val) ∷ secrets) =
    IsName key × IsPlain val × (lookup key secrets ≡ none) × IsWritable secrets

lookup-IsWritable :
    (key val : Str) (secrets : List (Str × Str))
    → IsWritable secrets
    → lookup key secrets ≡ some val
    → IsName key × IsPlain val
unfolding lookup_by
lookup-IsWritable key val [] w h = cc
lookup-IsWritable key val ((j, v) ∷ secrets) (name, plain, new, w) h =
    elim (Bool-cases (str_eq j key)) [
      | inl same ↦
          (let here : v ≡ val = ground arith in
            (subst IsName ((str_eq_iff j key).0 same) name, subst IsPlain here plain))
      | inr other ↦ lookup-IsWritable key val secrets w (ground arith)
    ]

from_hash-cases :
    (value : Str) → (from_hash value ≡ none) ⊎ ((s : Str) × (from_hash value ≡ some (b'#' ∷ s)))
unfolding from_hash
from_hash-cases [] = inl refl
from_hash-cases (c ∷ value) = elim (Bool-cases (c == b'#')) [
  | inl hash ↦ inr (value, ground arith)
  | inr other ↦ elim (from_hash-cases value) [
    | inl missing ↦ inl (ground arith)
    | inr (s, found) ↦ inr (s, ground arith)
  ]
]

comment_of-IsComment : (value : Str) → IsComment (comment_of (from_hash value))
unfolding trim_space is_space
comment_of-IsComment value = elim (from_hash-cases value) [
  | inl none_found ↦ inl (rw none_found refl)
  | inr (s, found) ↦
      inr (trim_right s, rw found (ap (λ t. b' ' ∷ t) (trim_right-first b'#' s refl)))
]

line_value-entry :
    (key j val comment : Str)
    → IsName j
    → IsPlain val
    → IsComment comment
    → line_value key (entry false j val comment) ≡ (if str_eq j key then some val else none)
line_value-entry key j val comment name plain c =
    rw (match_line-entry j val comment name) (rw (parse_value-format val comment plain c) refl)

combine :
    (h e : Bool) (l v w mapped first : Option Str)
    → (h ≡ false → w ≡ none)
    → (e ≡ false → v ≡ none)
    → mapped ≡ (if e then or_else l v else none)
    → first ≡ (if h then or_else l w else none)
    → or_else mapped first ≡ (if h || e then or_else l (or_else v w) else none)
combine h e l v w mapped first p q m f = ground arith

-- `updateFile` on the lines that the file has.
module _ (secrets : List (Str × Str)) (writable : IsWritable secrets) where
  line_value-replaced :
      (key line j value : Str)
      → match_line line ≡ some (j, value)
      → (o : Option Str) → lookup j secrets ≡ o
      → line_value key (replaced false line j value o)
        ≡ (if str_eq j key then or_else o (some (parse_value value)) else none)
  line_value-replaced key line j value m none e = rw m refl
  line_value-replaced key line j value m (some val) e =
      let (name, plain) = lookup-IsWritable j val secrets writable e in
      line_value-entry key j val (comment_of (from_hash value)) name plain
        (comment_of-IsComment value)

  line_value-on_match :
      (key line : Str) (m : Option (Str × Str))
      → match_line line ≡ m
      → line_value key (on_match false secrets line m)
        ≡ (if has_key key m then or_else (lookup key secrets) (value_if key m) else none)
  line_value-on_match key line none e = rw e refl
  line_value-on_match key line (some (j, value)) e =
      ground
        (arith, line_value-replaced key line j value e (lookup j secrets) refl, str_eq_iff j key)

  line_value-update_line :
      (key line : Str)
      → line_value key (update_line false secrets line) ≡ (
          if has_key key (match_line line)
          then or_else (lookup key secrets) (line_value key line)
          else none)
  unfolding update_line
  line_value-update_line key line = line_value-on_match key line (match_line line) refl

  last_value-map :
      (key : Str) (lines : List Str)
      → last_value key (map (update_line false secrets) lines) ≡ (
          if key_exists key lines
          then or_else (lookup key secrets) (last_value key lines)
          else none)
  unfolding last_value key_exists
  last_value-map key [] = refl
  last_value-map key (line ∷ lines) =
      combine (has_key key (match_line line)) (key_exists key lines) (lookup key secrets)
        (last_value key lines) (line_value key line)
        (last_value key (map (update_line false secrets) lines))
        (line_value key (update_line false secrets line)) (value_if-has_key key (match_line line))
        (last_value-missing key lines) (last_value-map key lines) (line_value-update_line key line)

last_value-unless :
    (key : Str) (b : Bool) (line : Str) (rest : List Str)
    → last_value key (if b then rest else line ∷ rest)
      ≡ (if b then last_value key rest else or_else (last_value key rest) (line_value key line))
unfolding last_value
last_value-unless key true line rest = refl
last_value-unless key false line rest = refl

-- The values of one appended line, for the key that it is about and for another.
combine_new :
    (exists_j exists_key same : Bool) (val : Str) (later rest : Option Str)
    → (same ≡ true → exists_j ≡ exists_key)
    → (same ≡ true → later ≡ none)
    → rest ≡ (if exists_key then none else later)
    → (if exists_j then rest else or_else rest (if same then some val else none))
      ≡ (if exists_key then none else if same then some val else later)
combine_new j true true val later rest p q r = rw (p refl, r) refl
combine_new j false true val later rest p q r = rw (p refl, r, q refl) refl
combine_new true true false val later rest p q r = r
combine_new true false false val later rest p q r = r
combine_new false true false val later rest p q r = rw r refl
combine_new false false false val none rest p q r = rw r refl
combine_new false false false val (some v) rest p q r = rw r refl

combine_removed :
    (i j key : Str) (v : Option Str) (rest later : Option Str)
    → rest ≡ (if str_eq j key then none else later)
    → (if str_eq i j then rest else or_else rest (if str_eq i key then v else none))
      ≡ (if str_eq j key then none else or_else later (if str_eq i key then v else none))
combine_removed i j key v rest later r = elim (Bool-cases (str_eq i j)) [
  | inl a ↦ rw ((str_eq_iff i j).0 a) (ground (arith, str_eq_iff j j))
  | inr a ↦ elim (Bool-cases (str_eq j key)) [
    | inl b ↦
        (let c : str_eq i key ≡ false = ap (str_eq i) (sym ((str_eq_iff j key).0 b)) ∙ a in
          let empty : rest ≡ none = ground arith in rw (a, b, c, empty) refl)
    | inr b ↦ (let same : rest ≡ later = ground arith in rw (a, b, same) refl)
  ]
]

removed :
    (j key : Str) (m : Option (Str × Str)) (rest later : Option Str)
    → rest ≡ (if str_eq j key then none else later)
    → (if has_key j m then rest else or_else rest (value_if key m))
      ≡ (if str_eq j key then none else or_else later (value_if key m))
removed j key none rest later r = ground arith
removed j key (some (i, v)) rest later r =
    combine_removed i j key (some (parse_value v)) rest later r

-- The lines that are appended.
last_value-append_new :
    (key : Str) (lines : List Str) (more : List (Str × Str))
    → IsWritable more
    → last_value key (append_new false lines more)
      ≡ (if key_exists key lines then none else lookup key more)
unfolding last_value append_new lookup_by
last_value-append_new key lines [] w = ground arith
last_value-append_new key lines ((j, val) ∷ more) (name, plain, new, w) =
    last_value-unless key (key_exists j lines) (entry false j val []) (append_new false lines more)
    ∙ rw (line_value-entry key j val [] name plain (inl refl)) (
        combine_new (key_exists j lines) (key_exists key lines) (str_eq j key) val (lookup key more)
          (last_value key (append_new false lines more))
          (λ same. ap (λ k. key_exists k lines) ((str_eq_iff j key).0 same))
          (λ same. subst (λ k. lookup k more ≡ none) ((str_eq_iff j key).0 same) new)
          (last_value-append_new key lines more w))

-- What `Write` does to the file is what a map does when the new secrets are put over the old ones:
-- a new secret is read back, and every other key reads as it did. The keys are to be names of
-- variables and the values to have no quotes, no backslash, and no whitespace but spaces.
pub read_lines-update_lines :
    (secrets : List (Str × Str)) (lines : List Str) (key : Str)
    → IsWritable secrets
    → lookup key (read_lines (update_lines false secrets lines) [])
      ≡ or_else (lookup key secrets) (lookup key (read_lines lines []))
unfolding update_lines lookup_by
read_lines-update_lines secrets lines key w = ground (
  arith,
  lookup-read_lines key (map (update_line false secrets) lines ++ append_new false lines secrets)
      [],
  lookup-read_lines key lines [],
  last_value-append key (map (update_line false secrets) lines) (append_new false lines secrets),
  last_value-map secrets w key lines,
  last_value-append_new key lines secrets w,
  last_value-missing key lines,
)

last_value-remove_lines :
    (j key : Str) (lines : List Str)
    → last_value key (remove_lines j lines) ≡ (if str_eq j key then none else last_value key lines)
unfolding last_value remove_lines
last_value-remove_lines j key [] = ground arith
last_value-remove_lines j key (line ∷ lines) =
    last_value-unless key (has_key j (match_line line)) line (remove_lines j lines)
    ∙ removed j key (match_line line) (last_value key (remove_lines j lines)) (last_value key lines)
        (last_value-remove_lines j key lines)

-- What `Delete` does to the file is what a map does when a key is deleted.
pub read_lines-remove_lines :
    (j key : Str) (lines : List Str)
    → lookup key (read_lines (remove_lines j lines) [])
      ≡ (if str_eq j key then none else lookup key (read_lines lines []))
unfolding lookup_by
read_lines-remove_lines j key lines = ground (
  arith,
  lookup-read_lines key (remove_lines j lines) [],
  lookup-read_lines key lines [],
  last_value-remove_lines j key lines,
)
