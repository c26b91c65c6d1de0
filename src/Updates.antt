-- ===== src/Updates.antt =====
-- pkg/config/update.go: the check for a new version. The configuration is the fields that the check
-- keeps there, whether it can be saved and what the release page answers are arguments, and an
-- instant is a number of seconds. A part of a version is read as the number that it begins with; signs
-- and numbers beyond the machine's are left out.
pub mod Order
pub mod Alerts
use agentsecrets.Prelude.{
  ℕ, ◌+◌, ◌-◌, ◌*◌, Bool, true, false, ◌&&◌, ◌||◌, not, Option, none, some, List, [], ◌∷◌, ltb, leb,
  if◌then◌else◌, is_empty, drop,
}
use agentsecrets.Text.{Str, str, str_eq, has_prefix}
use agentsecrets.Json.{split_dots}

abbrev read_digits : ℕ → Str → ℕ
read_digits n [] = n
read_digits n (c ∷ s) =
    let rest = read_digits (n * 10 + (c - b'0')) s in if leb b'0' c && leb c b'9' then rest else n

-- fmt.Sscanf(part, "%d", &n), with n zero before.
unfoldable pub scan_number : Str → ℕ
scan_number part = read_digits 0 part

-- The loop of `isNewer`, and what follows it.
unfoldable pub is_newer_parts : List Str → List Str → Bool
unfolding scan_number
is_newer_parts [] _ = false
is_newer_parts (l ∷ ls) [] = true
is_newer_parts (l ∷ ls) (c ∷ cs) =
    let rest = is_newer_parts ls cs in
    if ltb (scan_number c) (scan_number l)
    then true
    else if ltb (scan_number l) (scan_number c)
    then false
    else rest

unfoldable pub is_newer : Str → Str → Bool
unfolding is_newer_parts split_dots str_eq
is_newer latest current =
    if str_eq latest current then false else is_newer_parts (split_dots latest) (split_dots current)

pub record UpdateCache : Type 0 where
  pub last_update_check : ℕ
  pub last_update_alert : ℕ
  pub latest_version : Str

abbrev pub one_day : ℕ
one_day = 24 * 60 * 60

abbrev pub six_hours : ℕ
six_hours = 6 * 60 * 60

-- The version that an alert names, nothing, or the error of the release page.
pub data CheckResult : Type 0 where
  newer : Str → CheckResult
  silent : CheckResult
  failed : CheckResult

-- SaveGlobalConfig, whose error is not looked at.
abbrev pub saved : Bool → UpdateCache → UpdateCache → UpdateCache
saved true cache old = cache
saved false cache old = old

abbrev pub with_alert : ℕ → UpdateCache → UpdateCache
with_alert now cache = record cache { last_update_alert = now }

abbrev pub trim_v : Str → Str
trim_v tag = if has_prefix tag (str "v") then drop 1 tag else tag

-- The alert about a newer version, at most once every 6 hours; `otherwise` is what is left if there
-- is none.
unfoldable pub alert :
    Bool → ℕ → Str → UpdateCache → UpdateCache → UpdateCache → CheckResult × UpdateCache
unfolding is_newer
alert saves now current cache old otherwise =
    if is_newer cache.latest_version current && leb (cache.last_update_alert + six_hours) now
    then (newer cache.latest_version, saved saves (with_alert now cache) old)
    else (silent, otherwise)

-- What follows the request; `release` is the tag of the release, or an error.
unfoldable pub on_release : Bool → Option Str → ℕ → Str → UpdateCache → CheckResult × UpdateCache
unfolding alert has_prefix str
on_release saves none now current old = (failed, old)
on_release saves (some tag) now current old =
    let cache : UpdateCache = record old { last_update_check = now; latest_version = trim_v tag } in
    alert saves now current cache old (saved saves cache old)

-- CheckForUpdates, of a configuration that can be read.
unfoldable pub check_for_updates :
    Bool → Option Str → ℕ → Str → UpdateCache → CheckResult × UpdateCache
unfolding alert on_release str_eq str
check_for_updates saves release now current cache =
    if str_eq current (str "dev")
    then (silent, cache)
    else if ltb now (cache.last_update_check + one_day)
    then (if is_empty cache.latest_version
        then (silent, cache)
        else alert saves now current cache cache cache)
    else on_release saves release now current cache
