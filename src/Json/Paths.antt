-- ===== src/Json/Paths.antt =====
-- What a write at a path leaves behind, and when it is refused.
use agentsecrets.Prelude.{
  ◌≡◌, ◌≢◌, ◌↔◌, refl, Option, none, some, List, [], ◌∷◌, arith, if◌then◌else◌, inl, inr,
  Option-cases,
}
use agentsecrets.Text.{Str, str_eq}
use agentsecrets.Text.Laws.{str_eq_iff}
use agentsecrets.Json.{
  Value, text, object, Fields, end, field, get_field, set_field, nested_at, Nested, done, conflict,
  under, set_parts,
}

pub get_field-set_field :
    (k j : Str) (v : Value) (m : Fields)
    → get_field j (set_field k v m) ≡ (if str_eq k j then some v else get_field j m)
unfolding get_field set_field
get_field-set_field k j v end = refl
get_field-set_field k j v (field i w m) =
    ground (arith, str_eq_iff k j, str_eq_iff i k, str_eq_iff i j, get_field-set_field k j v m)

-- The value at a path.
abbrev pub get_parts : List Str → Fields → Option Value
get_parts [] m = none
get_parts (part ∷ []) m = get_field part m
get_parts (part ∷ next ∷ parts) m = elim (nested_at part m) [
  | none ↦ none
  | some fs ↦ get_parts (next ∷ parts) fs
]

-- Some key in front of the last holds a value that is no object.
abbrev pub IsBlocked : List Str → Fields → Type 0
IsBlocked [] m = ⊥
IsBlocked (part ∷ []) m = ⊥
IsBlocked (part ∷ next ∷ parts) m = elim (nested_at part m) [
  | none ↦ Unit
  | some fs ↦ IsBlocked (next ∷ parts) fs
]

nested_at-set_field :
    (k j : Str) (fs m : Fields)
    → nested_at j (set_field k (object fs) m) ≡ (if str_eq k j then some fs else nested_at j m)
unfolding nested_at
nested_at-set_field k j fs m = ground (arith, get_field-set_field k j (object fs) m)

under-eq-done :
    (part : Str) (m n : Fields) (r : Nested)
    → under part m r ≡ done n
    → (fs : Fields) × (r ≡ done fs) × (n ≡ set_field part (object fs) m)
under-eq-done part m n (done fs) h = (fs, refl, cc)
under-eq-done part m n (conflict at) h = cc

set_parts-eq-done :
    (part next : Str) (parts : List Str) (value : Str) (m n : Fields)
    → set_parts (part ∷ next ∷ parts) value m ≡ done n
    → (fs : Fields) × (nested_at part m ≡ some fs)
      × (fs' : Fields) × (set_parts (next ∷ parts) value fs ≡ done fs')
      × (n ≡ set_field part (object fs') m)
unfolding set_parts
set_parts-eq-done part next parts value m n h = elim (Option-cases (nested_at part m)) [
  | inl e ↦ absurd (cc (rw (e, set_parts) at h))
  | inr (fs, e) ↦
      let (fs', r, q) =
        under-eq-done part m n (set_parts (next ∷ parts) value fs) (rw (e, set_parts) at h) in
      (fs, e, fs', r, q)
]

-- A write that succeeds is read back at its path.
pub get_parts-set_parts :
    (parts : List Str) (value : Str) (m n : Fields)
    → parts ≢ []
    → set_parts parts value m ≡ done n
    → get_parts parts n ≡ some (text value)
get_parts-set_parts [] value m n ne h = absurd (ne refl)
get_parts-set_parts (part ∷ []) value m n ne h =
    unfold set_parts in
    ground (arith, get_field-set_field part part (text value) m, str_eq_iff part part)
get_parts-set_parts (part ∷ next ∷ parts) value m n ne h =
    let (fs, e, fs', r, q) = set_parts-eq-done part next parts value m n h in
    let later = get_parts-set_parts (next ∷ parts) value fs fs' (λ x. cc) r in
    rw q (ground (arith, nested_at-set_field part part fs' m, str_eq_iff part part, later))

-- A write changes nothing under another first key.
get_field-set_parts :
    (part j : Str) (parts : List Str) (value : Str) (m n : Fields)
    → j ≢ part
    → set_parts (part ∷ parts) value m ≡ done n
    → get_field j n ≡ get_field j m
get_field-set_parts part j [] value m n ne h =
    unfold set_parts in ground (arith, get_field-set_field part j (text value) m, str_eq_iff part j)
get_field-set_parts part j (next ∷ parts) value m n ne h =
    let (fs, e, fs', r, q) = set_parts-eq-done part next parts value m n h in
    rw q (ground (arith, get_field-set_field part j (object fs') m, str_eq_iff part j))

under-eq-conflict :
    (part : Str) (m : Fields) (r : Nested) (at : Str)
    → (under part m r ≡ conflict at) ↔ (r ≡ conflict at)
under-eq-conflict part m (done fs) at = ground arith
under-eq-conflict part m (conflict a) at = ground arith

blocked_step :
    (part : Str) (m : Fields) (B : Fields → Type 0) (inner : Fields → Nested)
    → ((fs : Fields) → B fs ↔ ((at : Str) × (inner fs ≡ conflict at)))
    → (o : Option Fields)
    → (elim o [ none ↦ Unit {0} | some fs ↦ B fs ]) ↔ (
        (at : Str) × (◌≡◌ {A = Nested}
          (elim o [ none ↦ conflict part | some fs ↦ under part m (inner fs) ])
          (conflict at)))
blocked_step part m B inner h none = ((λ _. (part, refl)), (λ _. tt))
blocked_step part m B inner h (some fs) = (
  (λ b. let (at, e) = (h fs).0 b in (at, (under-eq-conflict part m (inner fs) at).1 e)),
  (λ (at, e). (h fs).1 (at, (under-eq-conflict part m (inner fs) at).0 e)),
)

-- A write is refused exactly where the path runs into a value that is no object.
set_parts-IsBlocked :
    (parts : List Str) (value : Str) (m : Fields)
    → IsBlocked parts m ↔ ((at : Str) × (set_parts parts value m ≡ conflict at))
unfolding set_parts
set_parts-IsBlocked [] value m = ground arith
set_parts-IsBlocked (part ∷ []) value m = ground arith
set_parts-IsBlocked (part ∷ next ∷ parts) value m =
    blocked_step part m (λ fs. IsBlocked (next ∷ parts) fs)
      (λ fs. set_parts (next ∷ parts) value fs) (λ fs. set_parts-IsBlocked (next ∷ parts) value fs)
      (nested_at part m)
