-- ===== src/Config.antt =====
-- pkg/config/config.go: what the program runs with, from the environment of the process, the file of
-- the project and the global one. A file that cannot be loaded is `none`, a variable that is not set
-- is empty, and of the files only the fields that are asked for here are modelled. The path of a URL
-- is an argument.
pub mod Resolving
use agentsecrets.Prelude.{
  ℕ, Bool, true, false, not, ◌&&◌, ◌||◌, Option, none, some, List, [], ◌∷◌, ◌++◌, ◌==◌,
  if◌then◌else◌, is_empty, any,
}
use agentsecrets.Text.{Str, str, str_eq, has_prefix, trim_space}

pub record GlobalConfig : Type 0 where
  pub server_url : Str
  pub selected_workspace_id : Str
  pub selected_project_id : Str
  pub selected_environment : Str
  pub default_storage_mode : ℕ

pub record ProjectConfig : Type 0 where
  pub server_url : Str
  pub project_id : Str
  pub environment : Str
  pub workspace_id : Str
  pub storage_mode : ℕ

-- The variables of the process that the program reads.
pub record Variables : Type 0 where
  pub agentsecrets_env : Str
  pub storage_mode : Str
  pub server_url : Str
  pub api_url : Str

unfoldable pub valid_environments : List Str
unfolding str
valid_environments = str "development" ∷ str "staging" ∷ str "production" ∷ []

unfoldable pub is_valid_environment : Str → Bool
unfolding valid_environments str_eq
is_valid_environment env = any (λ valid. str_eq env valid) valid_environments

abbrev pub project_environment : Option ProjectConfig → Str
project_environment none = []
project_environment (some p) = p.environment

abbrev pub global_environment : Option GlobalConfig → Str
global_environment none = []
global_environment (some c) = c.selected_environment

-- ResolveEnvironmentWithSource
unfoldable pub resolve_environment_with_source :
    Variables → Option ProjectConfig → Option GlobalConfig → Str × Str
unfolding is_valid_environment str
resolve_environment_with_source vars project global =
    if not (is_empty vars.agentsecrets_env)
    then (if not (is_valid_environment vars.agentsecrets_env)
        then (str "development", str "default")
        else (vars.agentsecrets_env, str "AGENTSECRETS_ENV"))
    else if not (is_empty (project_environment project))
        && is_valid_environment (project_environment project)
    then (project_environment project, str "project.json")
    else if not (is_empty (global_environment global))
        && is_valid_environment (global_environment global)
    then (global_environment global, str "global config")
    else (str "development", str "default")

unfoldable pub resolve_environment : Variables → Option ProjectConfig → Option GlobalConfig → Str
unfolding resolve_environment_with_source
resolve_environment vars project global = (resolve_environment_with_source vars project global).0

abbrev pub project_mode : Option ProjectConfig → ℕ
project_mode none = 0
project_mode (some p) = p.storage_mode

abbrev pub global_mode : Option GlobalConfig → ℕ
global_mode none = 0
global_mode (some c) = c.default_storage_mode

unfoldable pub get_storage_mode : Variables → Option ProjectConfig → Option GlobalConfig → ℕ
unfolding str_eq str
get_storage_mode vars project global =
    if not (is_empty vars.storage_mode)
    then (if str_eq vars.storage_mode (str "2") then 2 else 1)
    else if not (project_mode project == 0)
    then project_mode project
    else if not (global_mode global == 0)
    then global_mode global
    else 1

abbrev pub selected_context : Option GlobalConfig → Str × Str
selected_context none = ([], [])
selected_context (some c) = (c.selected_project_id, c.selected_workspace_id)

-- ResolveProjectContext
unfoldable pub resolve_project_context : Option ProjectConfig → Option GlobalConfig → Str × Str
resolve_project_context none global = selected_context global
resolve_project_context (some p) global =
    if is_empty p.project_id then selected_context global else (p.project_id, p.workspace_id)

abbrev pub default_server_url : Str
default_server_url = str "https://api.agentsecrets.tech/api"

-- strings.TrimRight(s, "/")
abbrev pub add_unless_slash : ℕ → Str → Str
add_unless_slash c [] = if c == b'/' then [] else c ∷ []
add_unless_slash c (d ∷ s) = c ∷ d ∷ s

unfoldable pub trim_slashes : Str → Str
trim_slashes [] = []
trim_slashes (c ∷ s) = add_unless_slash c (trim_slashes s)

unfoldable pub with_scheme : Str → Str
unfolding has_prefix str
with_scheme raw =
    if has_prefix raw (str "http://") || has_prefix raw (str "https://")
    then raw
    else if has_prefix raw (str "localhost") || has_prefix raw (str "127.0.0.1")
    then str "http://" ++ raw
    else str "https://" ++ raw

abbrev pub with_api : Str → Option Str → Str
with_api raw none = raw
with_api raw (some path) = if is_empty path || str_eq path (str "/") then raw ++ str "/api" else raw

-- NormalizeServerURL; `path_of` is `none` for a text that is no URL.
unfoldable pub normalize_server_url : (Str → Option Str) → Str → Str
unfolding trim_space trim_slashes with_scheme str_eq str
normalize_server_url path_of raw =
    if is_empty (trim_space raw)
    then default_server_url
    else (let url = trim_slashes (with_scheme (trim_space raw)) in with_api url (path_of url))

pub record ServerTarget : Type 0 where
  pub url : Str
  pub source : Str
  pub is_self_host : Bool

unfoldable pub target_at : (Str → Option Str) → Str → Str → ServerTarget
unfolding normalize_server_url str_eq str
target_at path_of raw source =
    let url = normalize_server_url path_of raw in
    record { url = url; source = source; is_self_host = not (str_eq url default_server_url) }

abbrev pub project_server : Option ProjectConfig → Str
project_server none = []
project_server (some p) = p.server_url

abbrev pub global_server : Option GlobalConfig → Str
global_server none = []
global_server (some c) = c.server_url

unfoldable pub resolve_server_target :
    (Str → Option Str) → Str → Variables → Option ProjectConfig → Option GlobalConfig → ServerTarget
unfolding target_at str
resolve_server_target path_of flag vars project global =
    if not (is_empty flag)
    then target_at path_of flag (str "flag (--server)")
    else if not (is_empty vars.server_url)
    then target_at path_of vars.server_url (str "environment (AGENTSECRETS_SERVER_URL)")
    else if not (is_empty vars.api_url)
    then target_at path_of vars.api_url (str "environment (AGENTSECRETS_API_URL)")
    else if not (is_empty (project_server project))
    then target_at path_of (project_server project) (str "project (.agentsecrets/project.json)")
    else if not (is_empty (global_server global))
    then target_at path_of (global_server global) (str "global (~/.agentsecrets/config.json)")
    else record {
      url = default_server_url;
      source = str "AgentSecrets Server (default)";
      is_self_host = false;
    }
