-- ===== src/Text.antt =====
-- Go strings and byte slices, as lists of bytes, and what the program uses of the packages
-- strings and bytes. Case mapping is that of ASCII.
pub mod Laws
pub mod Maps
use Prim.Native.Char.{code}
use agentsecrets.Prelude.{
  ℕ, ◌+◌, ◌-◌, String, Bool, true, false, ◌&&◌, ◌||◌, Option, none, some, List, [], ◌∷◌, map, leb,
  ◌==◌, if◌then◌else◌, lookup_by, put_by, remove_by,
}

abbrev pub Str : Type 0
Str = List ℕ

-- The bytes of a literal; every literal of the program is ASCII.
unfoldable pub str : String → Str
str String.[] = []
str (String.◌∷◌ c s) = code c ∷ str s

unfoldable pub str_eq : Str → Str → Bool
str_eq [] [] = true
str_eq (x ∷ xs) (y ∷ ys) = x == y && str_eq xs ys
str_eq _ _ = false

unfoldable pub upper_byte : ℕ → ℕ
upper_byte c = if leb b'a' c && leb c b'z' then c - 32 else c

unfoldable pub lower_byte : ℕ → ℕ
lower_byte c = if leb b'A' c && leb c b'Z' then c + 32 else c

-- strings.ToUpper, strings.ToLower
unfoldable pub to_upper : Str → Str
unfolding upper_byte
to_upper s = map upper_byte s

unfoldable pub to_lower : Str → Str
unfolding lower_byte
to_lower s = map lower_byte s

-- strings.EqualFold
unfoldable pub equal_fold : Str → Str → Bool
unfolding lower_byte
equal_fold [] [] = true
equal_fold (x ∷ xs) (y ∷ ys) = lower_byte x == lower_byte y && equal_fold xs ys
equal_fold _ _ = false

-- strings.HasPrefix(s, p)
unfoldable pub has_prefix : Str → Str → Bool
has_prefix s [] = true
has_prefix [] (y ∷ p) = false
has_prefix (x ∷ s) (y ∷ p) = x == y && has_prefix s p

-- strings.HasSuffix(s, p)
unfoldable pub has_suffix : Str → Str → Bool
unfolding str_eq
has_suffix [] p = str_eq [] p
has_suffix (x ∷ s) p = str_eq (x ∷ s) p || has_suffix s p

-- strings.Contains, bytes.Contains
unfoldable pub contains : Str → Str → Bool
unfolding has_prefix
contains [] p = has_prefix [] p
contains (x ∷ s) p = has_prefix (x ∷ s) p || contains s p

-- unicode.IsSpace on ASCII
unfoldable pub is_space : ℕ → Bool
is_space c = (leb 9 c && leb c 13) || c == 32

abbrev pub trim_left : Str → Str
trim_left [] = []
trim_left (c ∷ s) = let rest = trim_left s in if is_space c then rest else c ∷ s

-- `c` in front of a text that is trimmed already.
trim_right_cons : ℕ → Str → Str
unfolding is_space
trim_right_cons c [] = if is_space c then [] else c ∷ []
trim_right_cons c (d ∷ s) = c ∷ d ∷ s

unfoldable pub trim_right : Str → Str
unfolding trim_right_cons
trim_right [] = []
trim_right (c ∷ s) = trim_right_cons c (trim_right s)

-- strings.TrimSpace
unfoldable pub trim_space : Str → Str
unfolding trim_right is_space
trim_space s = trim_right (trim_left s)

-- A map with string keys: m[k], m[k] = v, delete(m, k).
module _ {ℓ} {V : Type ℓ} where
  abbrev pub lookup : Str → List (Str × V) → Option V
  lookup = lookup_by str_eq

  abbrev pub put : Str → V → List (Str × V) → List (Str × V)
  put = put_by str_eq

  abbrev pub remove : Str → List (Str × V) → List (Str × V)
  remove = remove_by str_eq
