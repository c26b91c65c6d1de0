-- ===== src/Json.antt =====
-- What encoding/json makes of a document, as far as pkg/proxy/injector.go looks at it, and
-- `setNested`, which writes a value at a dotted path.
pub mod Paths
use agentsecrets.Prelude.{ℕ, Bool, Option, none, some, List, [], ◌∷◌, ◌==◌, if◌then◌else◌}
use agentsecrets.Text.{Str, str_eq}

-- `interface{}` as encoding/json fills it; a number is kept in its printed form.
mutual
  pub data Value : Type 0 where
    null : Value
    bool : Bool → Value
    number : Str → Value
    text : Str → Value
    array : Items → Value
    object : Fields → Value

  pub data Items : Type 0 where
    nil : Items
    cons : Value → Items → Items

  -- `map[string]interface{}`
  pub data Fields : Type 0 where
    end : Fields
    field : Str → Value → Fields → Fields

-- m[key]
unfoldable pub get_field : Str → Fields → Option Value
get_field key end = none
get_field key (field j v fs) = if str_eq j key then some v else get_field key fs

-- m[key] = v
unfoldable pub set_field : Str → Value → Fields → Fields
set_field key v end = field key v end
set_field key v (field j w fs) =
    if str_eq j key then field key v fs else field j w (set_field key v fs)

-- strings.Split(path, "."), with the part read so far.
unfoldable pub split_dots : Str → List Str
split_dots [] = [] ∷ []
split_dots (c ∷ path) = elim (split_dots path) [
  | [] ↦ []
  | part ∷ parts ↦ (if c == b'.' then [] ∷ part ∷ parts else (c ∷ part) ∷ parts)
]

-- The object that the loop goes on in: a new one where the key is missing, `none` where the value
-- is no object.
unfoldable pub nested_at : Str → Fields → Option Fields
nested_at part m = elim (get_field part m) [
  | none ↦ some end
  | some v ↦ elim v [ object fs ↦ some fs | _ ↦ none ]
]

pub data Nested : Type 0 where
  done : Fields → Nested
  conflict : Str → Nested

abbrev pub under : Str → Fields → Nested → Nested
under part m (done fs) = done (set_field part (object fs) m)
under part m (conflict at) = conflict at

unfoldable pub set_parts : List Str → Str → Fields → Nested
set_parts [] value m = done m
set_parts (part ∷ []) value m = done (set_field part (text value) m)
set_parts (part ∷ next ∷ parts) value m = elim (nested_at part m) [
  | none ↦ conflict part
  | some fs ↦ under part m (set_parts (next ∷ parts) value fs)
]

-- `setNested` on a map that is not nil.
unfoldable pub set_nested : Str → Str → Fields → Nested
unfolding set_parts split_dots nested_at
set_nested path value m = set_parts (split_dots path) value m
