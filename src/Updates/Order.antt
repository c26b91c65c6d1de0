-- ===== src/Updates/Order.antt =====
-- `isNewer` is a strict order of versions.
use agentsecrets.Prelude.{
  ◌≡◌, inl, inr, refl, true, false, List, [], ◌∷◌, arith, if◌then◌else◌, map, Bool-cases, ap, ◌∙◌,
  sym,
}
use agentsecrets.Text.{Str, str_eq}
use agentsecrets.Text.Laws.{str_eq_iff}
use agentsecrets.Json.{split_dots}
use agentsecrets.Updates.{scan_number, is_newer_parts, is_newer}

parts_self : (ls : List Str) → is_newer_parts ls ls ≡ false
unfolding is_newer_parts
parts_self [] = refl
parts_self (l ∷ ls) = ground (arith, parts_self ls)

parts_trans :
    (xs ys zs : List Str)
    → is_newer_parts xs ys ≡ true
    → is_newer_parts ys zs ≡ true
    → is_newer_parts xs zs ≡ true
unfolding is_newer_parts
parts_trans [] ys zs h k = absurd (ground arith)
parts_trans (a ∷ xs) [] zs h k = absurd (ground arith)
parts_trans (a ∷ xs) (b ∷ ys) [] h k = refl
parts_trans (a ∷ xs) (b ∷ ys) (c ∷ zs) h k = ground (arith, parts_trans xs ys zs)

parts_asym : (xs ys : List Str) → is_newer_parts xs ys ≡ true → is_newer_parts ys xs ≡ false
unfolding is_newer_parts
parts_asym [] ys h = absurd (ground arith)
parts_asym (a ∷ xs) [] h = refl
parts_asym (a ∷ xs) (b ∷ ys) h = ground (arith, parts_asym xs ys)

-- The shortcut for equal texts changes nothing.
is_newer-parts : (a b : Str) → is_newer a b ≡ is_newer_parts (split_dots a) (split_dots b)
unfolding is_newer
is_newer-parts a b = elim (Bool-cases (str_eq a b)) [
  | inl same ↦
      (let e : a ≡ b = (str_eq_iff a b).0 same in
        ap (λ t. if t then false else is_newer_parts (split_dots a) (split_dots b)) same
        ∙ sym (parts_self (split_dots b))
        ∙ ap (λ s. is_newer_parts (split_dots s) (split_dots b)) (sym e))
  | inr other ↦ rw other refl
]

-- A version that is newer than a newer version is newer.
is_newer_trans : (a b c : Str) → is_newer a b ≡ true → is_newer b c ≡ true → is_newer a c ≡ true
is_newer_trans a b c h k =
    is_newer-parts a c
    ∙ parts_trans (split_dots a) (split_dots b) (split_dots c) (sym (is_newer-parts a b) ∙ h)
        (sym (is_newer-parts b c) ∙ k)

-- Of two versions, at most one is newer than the other.
is_newer_asym : (a b : Str) → is_newer a b ≡ true → is_newer b a ≡ false
is_newer_asym a b h =
    is_newer-parts b a ∙ parts_asym (split_dots a) (split_dots b) (sym (is_newer-parts a b) ∙ h)

parts-same :
    (xs ys : List Str)
    → is_newer_parts xs ys ≡ false
    → is_newer_parts ys xs ≡ false
    → map scan_number xs ≡ map scan_number ys
unfolding is_newer_parts
parts-same [] [] h k = refl
parts-same [] (b ∷ ys) h k = absurd (ground arith)
parts-same (a ∷ xs) [] h k = absurd (ground arith)
parts-same (a ∷ xs) (b ∷ ys) h k = ground (arith, parts-same xs ys)

-- Of two versions, neither of them newer, the parts are the same numbers.
is_newer-same :
    (a b : Str)
    → is_newer a b ≡ false
    → is_newer b a ≡ false
    → map scan_number (split_dots a) ≡ map scan_number (split_dots b)
is_newer-same a b h k =
    parts-same (split_dots a) (split_dots b) (sym (is_newer-parts a b) ∙ h)
      (sym (is_newer-parts b a) ∙ k)
