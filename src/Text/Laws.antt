-- ===== src/Text/Laws.antt =====
-- Laws of equality and case folding on byte strings.
use agentsecrets.Prelude.{◌≡◌, ◌↔◌, refl, true, ◌∷◌, arith}
use agentsecrets.Text.{Str, str_eq, to_lower, equal_fold}

pub str_eq_iff : (a b : Str) → (str_eq a b ≡ true) ↔ (a ≡ b)
unfolding str_eq
str_eq_iff (x ∷ a) (y ∷ b) = ground (arith, str_eq_iff a b)
str_eq_iff _ _ = ground arith

pub str_eq_refl : (a : Str) → str_eq a a ≡ true
str_eq_refl a = (str_eq_iff a a).1 refl

pub equal_fold_iff : (a b : Str) → (equal_fold a b ≡ true) ↔ (to_lower a ≡ to_lower b)
unfolding equal_fold to_lower
equal_fold_iff (x ∷ a) (y ∷ b) = ground (arith, equal_fold_iff a b)
equal_fold_iff _ _ = ground arith
