-- ===== src/Updates/Alerts.antt =====
-- How often the check for a new version speaks up.
use agentsecrets.Prelude.{
  ℕ, ◌+◌, ◌≤◌, ◌≡◌, ◌⊎◌, inl, inr, refl, Bool, true, false, ◌&&◌, Option, none, some, List, [], ◌∷◌,
  arith, ltb, leb, if◌then◌else◌, Bool-cases, subst, sym, is_empty,
}
use agentsecrets.Text.{Str, str, str_eq}
use agentsecrets.Updates.{
  UpdateCache, one_day, six_hours, newer, silent, failed, CheckResult, is_newer, trim_v, alert,
  on_release, check_for_updates,
}

-- The time of an alert.
unfoldable pub alert_time : ℕ → CheckResult → Option ℕ
alert_time now (newer version) = some now
alert_time now silent = none
alert_time now failed = none

-- A check says nothing and keeps the time of the last alert, or it speaks up and keeps this one.
abbrev IsLate : ℕ → UpdateCache → CheckResult × UpdateCache → Type 0
IsLate now cache (result, after) =
    ((alert_time now result ≡ none) × (after.last_update_alert ≡ cache.last_update_alert))
    ⊎ ((alert_time now result ≡ some now)
        × (cache.last_update_alert + six_hours ≤ now)
        × (after.last_update_alert ≡ now))

either : {A : Type 0} (P : A → Type 0) (b : Bool) (x y : A) → P x → P y → P (if b then x else y)
either P true x y p q = p
either P false x y p q = q

alert-IsLate :
    (now : ℕ) (current : Str) (cache old otherwise : UpdateCache)
    → otherwise.last_update_alert ≡ cache.last_update_alert
    → IsLate now cache (alert true now current cache old otherwise)
unfolding alert alert_time
alert-IsLate now current cache old otherwise e =
    elim (Bool-cases
      (is_newer cache.latest_version current && leb (cache.last_update_alert + six_hours) now)) [
        | inl a ↦ rw a (inr (refl, ground arith, refl))
        | inr a ↦ rw a (inl (refl, e))
      ]

on_release-IsLate :
    (release : Option Str) (now : ℕ) (current : Str) (cache : UpdateCache)
    → IsLate now cache (on_release true release now current cache)
unfolding on_release alert_time
on_release-IsLate none now current cache = inl (refl, refl)
on_release-IsLate (some tag) now current cache =
    alert-IsLate now current (record cache { last_update_check = now; latest_version = trim_v tag })
      cache _ refl

check-IsLate :
    (release : Option Str) (now : ℕ) (current : Str) (cache : UpdateCache)
    → IsLate now cache (check_for_updates true release now current cache)
unfolding check_for_updates alert_time
check-IsLate release now current cache =
    either (IsLate now cache) (str_eq current (str "dev")) _ _ (inl (refl, refl)) (
      either (IsLate now cache) (ltb now (cache.last_update_check + one_day)) _ _
        (either (IsLate now cache) (is_empty cache.latest_version) _ _ (inl (refl, refl))
          (alert-IsLate now current cache cache cache refl))
        (on_release-IsLate release now current cache))

abbrev pub add_time : Option ℕ → List ℕ → List ℕ
add_time none times = times
add_time (some time) times = time ∷ times

-- The times of the alerts of several checks, each with its time and what the release page answers.
unfoldable pub alert_times : Str → List (ℕ × Option Str) → UpdateCache → List ℕ
unfolding alert_time check_for_updates
alert_times current [] cache = []
alert_times current ((now, release) ∷ checks) cache =
    let (result, after) = check_for_updates true release now current cache in
    add_time (alert_time now result) (alert_times current checks after)

-- Each time is at least six hours after the one before.
abbrev pub IsSpaced : ℕ → List ℕ → Type 0
IsSpaced before [] = Unit
IsSpaced before (time ∷ times) = (before + six_hours ≤ time) × IsSpaced time times

-- Between two alerts of a program whose configuration is saved there are at least six hours, whatever
-- the release page answers and however often the program asks.
pub alert_times-IsSpaced :
    (current : Str) (checks : List (ℕ × Option Str)) (cache : UpdateCache)
    → IsSpaced cache.last_update_alert (alert_times current checks cache)
unfolding alert_times
alert_times-IsSpaced current [] cache = tt
alert_times-IsSpaced current ((now, release) ∷ checks) cache =
    let (result, after) = check_for_updates true release now current cache in
    let rest = alert_times-IsSpaced current checks after in
    let IsRest : ℕ → Type 0 = λ t. IsSpaced t (alert_times current checks after) in
    let IsAll : Option ℕ → Type 0 =
      λ o. IsSpaced cache.last_update_alert (add_time o (alert_times current checks after)) in
    elim (check-IsLate release now current cache) [
      | inl (quiet, same) ↦ subst IsAll (sym quiet) (subst IsRest same rest)
      | inr (spoke, late, kept) ↦ subst IsAll (sym spoke) (late, subst IsRest kept rest)
    ]
