-- ===== src/Domain/App.antt =====
-- internal/deployment/domain/app.go: the aggregate of an application.
pub mod Calls
pub mod Configs
use seelf.Prelude.{
  ℕ, String, ◌≡◌, Bool, true, false, Option, none, some, List, [], ◌∷◌, ◌++◌, if◌then◌else◌, ◌||◌,
  ◌&&◌, not, ◌==◌, string_eq, is_some, Result, ok, err, Error, ◌>>=◌, app_cleanup_requested,
  app_cleanup_needed, invalid_environment_name,
}
use seelf.Pkg.Event.{store_event}
use seelf.Pkg.Action.{Action, Time, new_action}
use seelf.Domain.Values.{
  Environment, production, staging, EnvironmentConfig, VersionControl, version_control_eq,
}
use seelf.Domain.EnvVars.{config_equals}
use seelf.Domain.Requirement.{EnvironmentConfigRequirement, environment_met}

pub data AppEvent : Type 0 where
  app_created : String → String → EnvironmentConfig → EnvironmentConfig → Action → AppEvent
  -- The new configuration, then the old one.
  app_env_changed : String → Environment → EnvironmentConfig → EnvironmentConfig → AppEvent
  app_version_control_configured : String → VersionControl → AppEvent
  app_version_control_removed : String → AppEvent
  app_marked_for_cleanup : String → EnvironmentConfig → EnvironmentConfig → Action → AppEvent
  app_deleted : String → AppEvent

-- `AppEnvChanged.TargetHasChanged`
abbrev pub target_has_changed : EnvironmentConfig → EnvironmentConfig → Bool
target_has_changed config old_config = not (config.target == old_config.target)

-- `events` is the embedded `event.Emitter`.
pub record App : Type 0 where
  pub id : String
  pub name : String
  pub version_control : Option VersionControl
  pub production : EnvironmentConfig
  pub staging : EnvironmentConfig
  pub cleanup_requested : Option Action
  pub created : Action
  pub events : List AppEvent

-- The zero value of the struct.
abbrev pub zero_app : App
zero_app = record {
  id = "";
  name = "";
  version_control = none;
  production = record { target = ""; version = 0; vars = none };
  staging = record { target = ""; version = 0; vars = none };
  cleanup_requested = none;
  created = record { by = ""; at = 0 };
  events = [];
}

-- The switch of `apply`.
unfoldable pub absorb : App → AppEvent → App
absorb a (app_created id name prod stag created) = record a {
  id = id;
  name = name;
  production = prod;
  staging = stag;
  created = created;
}
absorb a (app_env_changed id env config old_config) =
    if env == production
    then record a { production = config }
    else if env == staging
    then record a { staging = config }
    else a
absorb a (app_version_control_configured id config) = record a { version_control = some config }
absorb a (app_version_control_removed id) = record a { version_control = none }
absorb a (app_marked_for_cleanup id prod stag requested) = record a {
  cleanup_requested = some requested;
}
absorb a (app_deleted id) = a

unfoldable pub apply : App → AppEvent → App
unfolding absorb
apply a e = let a' = absorb a e in record a' { events = store_event a'.events e }

unfoldable pub new_app :
    String
    → String
    → EnvironmentConfigRequirement
    → EnvironmentConfigRequirement
    → String
    → Time
    → Result App
unfolding apply environment_met
new_app id name production_requirement staging_requirement created_by now = do
  prod ← environment_met production_requirement
  stag ← environment_met staging_requirement
  ok (apply zero_app (app_created id name prod stag (new_action created_by now)))

abbrev same_version_control : Option VersionControl → VersionControl → Bool
same_version_control none config = false
same_version_control (some existing) config = config == existing

unfoldable pub use_version_control : App → VersionControl → App × Option Error
unfolding apply
use_version_control a config =
    if is_some a.cleanup_requested
    then (a, some app_cleanup_requested)
    else if same_version_control a.version_control config
    then (a, none)
    else (apply a (app_version_control_configured a.id config), none)

unfoldable pub remove_version_control : App → App × Option Error
unfolding apply
remove_version_control a =
    if is_some a.cleanup_requested
    then (a, some app_cleanup_requested)
    else if not (is_some a.version_control)
    then (a, none)
    else (apply a (app_version_control_removed a.id), none)

-- The configuration of an environment, as the two switches on the environment read it.
unfoldable pub config_for : App → Environment → Result EnvironmentConfig
config_for a env =
    if env == production
    then ok a.production
    else if env == staging
    then ok a.staging
    else err invalid_environment_name

-- "Same target, does not update the inner version."
abbrev pub keep_version : EnvironmentConfig → EnvironmentConfig → EnvironmentConfig
keep_version updated existing =
    if updated.target == existing.target
    then record updated { version = existing.version }
    else updated

unfoldable pub update_config :
    App → Environment → EnvironmentConfig → EnvironmentConfig → App × Option Error
unfolding apply config_equals
update_config a env existing updated =
    if config_equals updated existing
    then (a, none)
    else (apply a (app_env_changed a.id env (keep_version updated existing) existing), none)

unfoldable pub try_update_environment_config :
    App → Environment → EnvironmentConfigRequirement → App × Option Error
unfolding config_for update_config environment_met
try_update_environment_config a env requirement =
    if is_some a.cleanup_requested
    then (a, some app_cleanup_requested)
    else elim (config_for a env) [
      | err e ↦ (a, some e)
      | ok existing ↦ elim (environment_met requirement) [
        | err e ↦ (a, some e)
        | ok updated ↦ update_config a env existing updated
      ]
    ]

unfoldable pub has_production_config : App → EnvironmentConfigRequirement → App × Option Error
unfolding try_update_environment_config
has_production_config a requirement = try_update_environment_config a production requirement

unfoldable pub has_staging_config : App → EnvironmentConfigRequirement → App × Option Error
unfolding try_update_environment_config
has_staging_config a requirement = try_update_environment_config a staging requirement

unfoldable pub request_cleanup : App → String → Time → App
unfolding apply
request_cleanup a requested_by now =
    if is_some a.cleanup_requested
    then a
    else apply a (app_marked_for_cleanup a.id a.production a.staging (new_action requested_by now))

-- `Delete`
unfoldable pub delete_app : App → Bool → App × Option Error
unfolding apply
delete_app a cleaned_up =
    if not (is_some a.cleanup_requested) || not cleaned_up
    then (a, some app_cleanup_needed)
    else (apply a (app_deleted a.id), none)
