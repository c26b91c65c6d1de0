-- ===== src/Secrets/Example.antt =====
-- pkg/secrets/secrets.go: the annotations of .env.example (`UpdateEnvExampleFromLocal`).
use agentsecrets.Prelude.{
  ℕ, zero, suc, ◌-◌, Bool, ◌&&◌, List, [], ◌∷◌, ◌++◌, if◌then◌else◌, any, length, map,
}
use agentsecrets.Text.{Str, str, str_eq}
use agentsecrets.Dotenv.{join_lines}

abbrev pub has_env : Str → List Str → Bool
has_env env envs = any (λ e. str_eq e env) envs

-- strings.Join(segments, " ")
unfoldable pub join_spaces : List Str → Str
join_spaces [] = []
join_spaces (s ∷ []) = s
join_spaces (s ∷ next ∷ rest) = s ++ (b' ' ∷ join_spaces (next ∷ rest))

abbrev pub segment : Bool → Str → List Str → List Str
segment present label rest = if present then label ∷ rest else rest

-- `annotation`, of the environments that have the key.
unfoldable pub annotation : List Str → Str
unfolding join_spaces str_eq str
annotation envs =
    let dev = has_env (str "development") envs in
    let staging = has_env (str "staging") envs in
    let prod = has_env (str "production") envs in
    if dev && staging && prod
    then str "[all]"
    else join_spaces (
        segment dev (str "[development]")
          (segment staging (str "[staging]") (segment prod (str "[production]") [])))

-- `%-24s`
abbrev pub spaces : ℕ → Str
spaces zero = []
spaces (suc n) = b' ' ∷ spaces n

unfoldable pub example_line : Str → List Str → Str
unfolding annotation str
example_line key envs =
    let name = key ++ str "=" in
    name ++ (spaces (24 - length name) ++ (str " # " ++ annotation envs))

-- keyEnvs[key]
unfoldable pub envs_of : Str → List (Str × List Str) → List Str
unfolding str_eq
envs_of key [] = []
envs_of key ((env, keys) ∷ results) =
    let rest = envs_of key results in if any (λ k. str_eq k key) keys then env ∷ rest else rest

-- The keys of `allKeys`, each once, in the order in which they come up.
unfoldable pub add_keys : List Str → List Str → List Str
unfolding str_eq
add_keys [] all_keys = all_keys
add_keys (key ∷ keys) all_keys =
    add_keys keys (if any (λ k. str_eq k key) all_keys then all_keys else all_keys ++ key ∷ [])

unfoldable pub all_keys_of : List (Str × List Str) → List Str → List Str
unfolding add_keys
all_keys_of [] all_keys = all_keys
all_keys_of ((env, keys) ∷ results) all_keys = all_keys_of results (add_keys keys all_keys)

-- The content of .env.example, from the key names of each environment.
unfoldable pub example_content : List (Str × List Str) → Str
unfolding join_lines example_line envs_of all_keys_of str
example_content results =
    join_lines (
      (str "# AgentSecrets " ++ (226 ∷ 128 ∷ 148 ∷ str " generated by agentsecrets secrets pull"))
      ∷ str "# Keys marked [all] exist in all three environments"
      ∷ (str "# Environment-specific keys show which environments they belong to" ++ 10 ∷ [])
      ∷ map (λ key. example_line key (envs_of key results)) (all_keys_of results []))
    ++ 10 ∷ []
