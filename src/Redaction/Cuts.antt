-- ===== src/Redaction/Cuts.antt =====
-- What a replacement by the placeholder leaves of a text.
use agentsecrets.Prelude.{
  ℕ, zero, suc, ◌≡◌, ◌≢◌, refl, true, false, [], ◌∷◌, ◌++◌, arith, ◌==◌, any, append_assoc,
}
use agentsecrets.Text.{Str, has_prefix, contains}
use agentsecrets.Redaction.{notice, placeholder, replace_from}

-- A value that no part of the placeholder can be taken for: it is not empty, has no bracket, and
-- is no part of the placeholder's words.
pub record IsClean (s : Str) : Type 0 where
  pub ne_nil : s ≢ []
  pub no_open : any (λ c. c == b'[') s ≡ false
  pub no_close : any (λ c. c == b']') s ≡ false
  pub not_in_notice : contains notice s ≡ false

-- A prefix without `d` ends in front of `d`.
has_prefix-before :
    (d : ℕ) (p rest s : Str)
    → any (λ c. c == d) s ≡ false
    → has_prefix (p ++ (d ∷ rest)) s ≡ true
    → has_prefix p s ≡ true
unfolding has_prefix
has_prefix-before d [] rest [] n h = refl
has_prefix-before d [] rest (y ∷ s) n h = ground arith
has_prefix-before d (x ∷ p) rest [] n h = refl
has_prefix-before d (x ∷ p) rest (y ∷ s) n h = ground (arith, has_prefix-before d p rest s)

pub contains-nil : (s : Str) → s ≢ [] → contains [] s ≡ false
unfolding contains
contains-nil [] ne = absurd (ne refl)
contains-nil (x ∷ s) ne = refl

contains-before :
    (d : ℕ) (p rest s : Str)
    → s ≢ []
    → any (λ c. c == d) s ≡ false
    → contains p s ≡ false
    → contains rest s ≡ false
    → contains (p ++ (d ∷ rest)) s ≡ false
unfolding contains
contains-before d [] rest s ne n h k = ground (arith, has_prefix-before d [] rest s)
contains-before d (x ∷ p) rest s ne n h k =
    ground (arith, has_prefix-before d (x ∷ p) rest s, contains-before d p rest s)

has_prefix-open :
    (d : ℕ) (rest s : Str) → s ≢ [] → any (λ c. c == d) s ≡ false → has_prefix (d ∷ rest) s ≡ false
unfolding has_prefix
has_prefix-open d rest [] ne n = absurd (ne refl)
has_prefix-open d rest (y ∷ s) ne n = ground arith

-- Each place of `body` where the replacement keeps a byte is the start of no occurrence of `s`.
abbrev pub IsGuarded : (Str → ℕ) → Str → Str → Type 0
IsGuarded len_at s [] = Unit
IsGuarded len_at s (c ∷ body) =
    (len_at (c ∷ body) ≡ 0 → has_prefix (c ∷ body) s ≡ false) × IsGuarded len_at s body

-- A text in which `s` does not occur is guarded, whatever is replaced.
pub contains-IsGuarded :
    (len_at : Str → ℕ) (s body : Str) → contains body s ≡ false → IsGuarded len_at s body
unfolding contains
contains-IsGuarded len_at s [] h = tt
contains-IsGuarded len_at s (c ∷ body) h =
    ((λ _. ground arith), contains-IsGuarded len_at s body (ground arith))

module _ (len_at : Str → ℕ) where
  -- A prefix of the result without `[` lies in front of the first replacement.
  has_prefix-replace_from :
      (s body : Str)
      → any (λ c. c == b'[') s ≡ false
      → has_prefix (replace_from len_at 0 body) s ≡ true
      → has_prefix body s ≡ true
  unfolding has_prefix replace_from
  has_prefix-replace_from [] [] n h = refl
  has_prefix-replace_from [] (c ∷ body) n h = refl
  has_prefix-replace_from (y ∷ s) [] n h = h
  has_prefix-replace_from (y ∷ s) (c ∷ body) n h = ground (arith, has_prefix-replace_from s body)

module _ {s : Str} (clean : IsClean s) where
  contains-placeholder :
      (rest : Str) → contains rest s ≡ false → contains (placeholder ++ rest) s ≡ false
  unfolding contains
  contains-placeholder rest h = rw append_assoc (
      ground (
        arith,
        has_prefix-open b'[' (notice ++ (b']' ∷ rest)) s clean.ne_nil clean.no_open,
        contains-before b']' notice rest s clean.ne_nil clean.no_close clean.not_in_notice h,
      ))

  contains-replace_step :
      (n : ℕ) (len_at : Str → ℕ) (c : ℕ) (body : Str)
      → len_at (c ∷ body) ≡ n
      → (len_at (c ∷ body) ≡ 0 → has_prefix (c ∷ body) s ≡ false)
      → ((skip : ℕ) → contains (replace_from len_at skip body) s ≡ false)
      → contains (replace_from len_at 0 (c ∷ body)) s ≡ false
  unfolding replace_from contains
  contains-replace_step zero len_at c body e g later =
      ground (arith, later 0, g, has_prefix-replace_from len_at s (c ∷ body) clean.no_open)
  contains-replace_step (suc n) len_at c body e g later =
      rw (e, replace_from) (contains-placeholder (replace_from len_at n body) (later n))

  -- A clean value occurs in no result of a replacement over a guarded text.
  pub contains-replace_from :
      (len_at : Str → ℕ) (skip : ℕ) (body : Str)
      → IsGuarded len_at s body
      → contains (replace_from len_at skip body) s ≡ false
  unfolding replace_from
  contains-replace_from len_at skip [] g = contains-nil s clean.ne_nil
  contains-replace_from len_at (suc skip) (c ∷ body) (g, gs) =
      contains-replace_from len_at skip body gs
  contains-replace_from len_at zero (c ∷ body) (g, gs) =
      contains-replace_step (len_at (c ∷ body)) len_at c body refl g
        (λ n. contains-replace_from len_at n body gs)
