-- ===== src/Config/Resolving.antt =====
-- What the resolution of the configuration can come to.
use agentsecrets.Prelude.{
  ◌≡◌, ◌≢◌, refl, Bool, true, false, not, ◌&&◌, Option, arith, if◌then◌else◌, is_empty, ◌==◌,
}
use agentsecrets.Text.{Str, str, str_eq}
use agentsecrets.Config.{
  GlobalConfig, ProjectConfig, Variables, is_valid_environment, resolve_environment_with_source,
  resolve_environment, get_storage_mode, project_environment, global_environment,
}

development-valid : is_valid_environment (str "development") ≡ true
unfolding is_valid_environment str str_eq
development-valid = refl

choose :
    (empty valid : Bool) (env : Str) (rest : Str × Str) (source : Str)
    → is_valid_environment env ≡ valid
    → is_valid_environment rest.0 ≡ true
    → is_valid_environment (if not empty && valid then (env, source) else rest).0 ≡ true
choose true valid env rest source h k = k
choose false true env rest source h k = h
choose false false env rest source h k = k

override :
    (empty valid : Bool) (env source other : Str) (rest : Str × Str)
    → is_valid_environment env ≡ valid
    → is_valid_environment rest.0 ≡ true
    → is_valid_environment
        (if not empty
          then (if not valid then (str "development", other) else (env, source))
          else rest).0
      ≡ true
override true valid env source other rest h k = k
override false true env source other rest h k = h
override false false env source other rest h k = development-valid

resolve_environment-valid :
    (vars : Variables) (project : Option ProjectConfig) (global : Option GlobalConfig)
    → is_valid_environment (resolve_environment vars project global) ≡ true
unfolding resolve_environment resolve_environment_with_source
resolve_environment-valid vars project global =
    override (is_empty vars.agentsecrets_env) (is_valid_environment vars.agentsecrets_env)
      vars.agentsecrets_env _ _ _ refl
      (choose (is_empty (project_environment project))
        (is_valid_environment (project_environment project)) (project_environment project) _ _ refl
        (choose (is_empty (global_environment global))
          (is_valid_environment (global_environment global)) (global_environment global) _ _ refl
          development-valid))

get_storage_mode-set :
    (vars : Variables) (project : Option ProjectConfig) (global : Option GlobalConfig)
    → (get_storage_mode vars project global == 0) ≡ false
unfolding get_storage_mode
get_storage_mode-set vars project global = ground arith

-- Whatever the variables and the files hold, and whether they can be loaded or not, the environment
-- is one of the three that there are and a storage mode is set.
pub resolve_environment-get_storage_mode :
    (vars : Variables) (project : Option ProjectConfig) (global : Option GlobalConfig)
    → (is_valid_environment (resolve_environment vars project global) ≡ true)
      × (get_storage_mode vars project global ≢ 0)
resolve_environment-get_storage_mode vars project global = (
  resolve_environment-valid vars project global,
  ground (arith, get_storage_mode-set vars project global),
)
