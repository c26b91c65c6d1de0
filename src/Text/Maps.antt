-- ===== src/Text/Maps.antt =====
-- Laws of maps with string keys.
use agentsecrets.Prelude.{
  ◌≡◌, none, some, List, if◌then◌else◌, lookup_by-put_by, lookup_by-remove_by,
}
use agentsecrets.Text.{Str, str_eq, lookup, put, remove}
use agentsecrets.Text.Laws.{str_eq_iff}

module _ {ℓ} {V : Type ℓ} where
  pub lookup-put :
      (k j : Str) (v : V) (m : List (Str × V))
      → lookup j (put k v m) ≡ (if str_eq k j then some v else lookup j m)
  lookup-put = lookup_by-put_by str_eq str_eq_iff

  pub lookup-remove :
      (k j : Str) (m : List (Str × V))
      → lookup j (remove k m) ≡ (if str_eq k j then none else lookup j m)
  lookup-remove = lookup_by-remove_by str_eq str_eq_iff
