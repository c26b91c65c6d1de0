-- ===== src/Secrets/Diffing.antt =====
-- Step 3 of `diffInternal`: the comparison of two environments.
use agentsecrets.Prelude.{
  ◌≡◌, inl, inr, refl, Bool, true, false, not, ◌&&◌, Option, none, some, is_some, List, [], ◌∷◌,
  arith, if◌then◌else◌, any, Bool-cases, ap, subst, sym, ◌∙◌, Option-cases, lookup_by,
}
use agentsecrets.Text.{Str, str_eq, lookup, remove}
use agentsecrets.Text.Laws.{str_eq_iff, str_eq_refl}
use agentsecrets.Text.Maps.{lookup-remove}

pub record DiffResult : Type 0 where
  pub added : List Str
  pub removed : List Str
  pub changed : List (Str × (Str × Str))
  pub unchanged : List Str

abbrev pub keys_of : List (Str × Str) → List Str
keys_of [] = []
keys_of ((key, value) ∷ m) = key ∷ keys_of m

abbrev classify : Str → Str → Option Str → DiffResult → DiffResult
classify key value none res = record res { added = key ∷ res.added }
classify key value (some other) res =
    if str_eq value other
    then record res { unchanged = key ∷ res.unchanged }
    else record res { changed = (key, (value, other)) ∷ res.changed }

-- The loop over the source, and what is left of the target.
unfoldable pub compare_maps : List (Str × Str) → List (Str × Str) → DiffResult
unfolding str_eq lookup_by
compare_maps [] target = record {
  added = [];
  removed = keys_of target;
  changed = [];
  unchanged = [];
}
compare_maps ((key, value) ∷ source) target =
    classify key value (lookup key target) (compare_maps source (remove key target))

-- A map of Go: no key stands twice.
abbrev pub IsMap : List (Str × Str) → Type 0
IsMap [] = Unit
IsMap ((key, value) ∷ m) = (lookup key m ≡ none) × IsMap m

abbrev pub has : Str → List Str → Bool
has key keys = any (λ k. str_eq k key) keys

abbrev pub only : Option Str → Option Str → Bool
only a b = is_some a && not (is_some b)

abbrev pub differing : Option Str → Option Str → Option (Str × Str)
differing (some a) (some b) = if str_eq a b then none else some (a, b)
differing _ _ = none

abbrev pub same : Option Str → Option Str → Bool
same (some a) (some b) = str_eq a b
same _ _ = false

-- The four classes of a comparison, as one key sees them.
abbrev pub IsClassified : Str → Option Str → Option Str → DiffResult → Type 0
IsClassified key a b res =
    (has key res.added ≡ only a b)
    × (has key res.removed ≡ only b a)
    × (lookup key res.changed ≡ differing a b)
    × (has key res.unchanged ≡ same a b)

has-keys_of : (key : Str) (m : List (Str × Str)) → has key (keys_of m) ≡ is_some (lookup key m)
unfolding lookup_by
has-keys_of key [] = refl
has-keys_of key ((k, v) ∷ m) = ground (arith, has-keys_of key m)

classify-same :
    (key value : Str) (o : Option Str) (res : DiffResult)
    → IsClassified key none none res
    → str_eq key key ≡ true
    → IsClassified key (some value) o (classify key value o res)
unfolding lookup_by
classify-same key value none res h e = ground (arith, h, e)
classify-same key value (some other) res h e = elim (Bool-cases (str_eq value other)) [
  | inl a ↦ rw a (ground (arith, h, e))
  | inr a ↦ rw a (ground (arith, h, e))
]

classify-other :
    (j key value : Str) (o a b : Option Str) (res : DiffResult)
    → IsClassified j a b res
    → str_eq key j ≡ false
    → IsClassified j a b (classify key value o res)
unfolding lookup_by
classify-other j key value none a b res h e = ground (arith, h, e)
classify-other j key value (some other) a b res h e = elim (Bool-cases (str_eq value other)) [
  | inl c ↦ rw c (ground (arith, h, e))
  | inr c ↦ rw c (ground (arith, h, e))
]

lookup-first :
    (j k v : Str) (m : List (Str × Str)) (b : Bool)
    → str_eq k j ≡ b
    → lookup j ((k, v) ∷ m) ≡ (if b then some v else lookup j m)
unfolding lookup_by
lookup-first j k v m b e = ap (λ c. if c then some v else lookup j m) e

lookup-rest :
    (j k : Str) (m : List (Str × Str)) (b : Bool)
    → str_eq k j ≡ b
    → lookup j (remove k m) ≡ (if b then none else lookup j m)
lookup-rest j k m b e = lookup-remove k j m ∙ ap (λ c. if c then none else lookup j m) e

-- Every key is in the class that the two maps say, and in no other: added if only the source has it,
-- removed if only the target has it, changed, with both values, if they differ, and unchanged if they
-- are the same. No key of the source stands twice in it.
pub compare_maps-IsClassified :
    (key : Str) (source target : List (Str × Str))
    → IsMap source
    → IsClassified key (lookup key source) (lookup key target) (compare_maps source target)
unfolding compare_maps lookup_by
compare_maps-IsClassified key [] target m =
    ground (arith, has-keys_of key target, Option-cases (lookup key target))
compare_maps-IsClassified key ((k, v) ∷ source) target (new, m) =
    let res = compare_maps source (remove k target) in
    elim (Bool-cases (str_eq k key)) [
      | inl a ↦
          (let rest = compare_maps-IsClassified k source (remove k target) m in
            let alone : IsClassified k none none res =
              subst (λ o. IsClassified k none o res) (lookup-rest k k target true (str_eq_refl k))
                (subst (λ o. IsClassified k o (lookup k (remove k target)) res) new rest) in
            let here : IsClassified k (lookup k ((k, v) ∷ source)) (lookup k target)
                (classify k v (lookup k target) res) =
              subst (λ o. IsClassified k o (lookup k target) (classify k v (lookup k target) res))
                (sym (lookup-first k k v source true (str_eq_refl k)))
                (classify-same k v (lookup k target) res alone (str_eq_refl k)) in
            subst
              (λ j.
                IsClassified j (lookup j ((k, v) ∷ source)) (lookup j target)
                  (classify k v (lookup k target) res))
              ((str_eq_iff k key).0 a) here)
      | inr a ↦
          (let rest = compare_maps-IsClassified key source (remove k target) m in
            let there : IsClassified key (lookup key source) (lookup key target) res =
              subst (λ o. IsClassified key (lookup key source) o res)
                (lookup-rest key k target false a) rest in
            subst (λ o. IsClassified key o (lookup key target) (classify k v (lookup k target) res))
              (sym (lookup-first key k v source false a))
              (classify-other key k v (lookup k target) (lookup key source) (lookup key target) res
                there a))
    ]
