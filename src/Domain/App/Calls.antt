-- ===== src/Domain/App/Calls.antt =====
-- The calls that the rest of the program makes on an application, and the events that they raise.
use seelf.Prelude.{
  String, ◌≡◌, refl, Bool, true, false, Option, none, some, List, [], ◌∷◌, arith, ok, Error,
  is_some, if◌then◌else◌, ◌==◌, ◌||◌, ◌&&◌, not, string_eq,
}
use seelf.Pkg.Action.{Time, new_action}
use seelf.Pkg.Event.{Source, store_event, replay, run, run-IsRebuilt}
use seelf.Domain.Values.{
  Environment, production, staging, production-ne-staging, EnvironmentConfig, VersionControl,
  version_control_eq,
}
use seelf.Domain.EnvVars.{config_equals}
use seelf.Domain.Requirement.{EnvironmentConfigRequirement, environment_error}
use seelf.Domain.App.{
  App, AppEvent, app_env_changed, app_version_control_configured, app_version_control_removed,
  app_marked_for_cleanup, app_deleted, zero_app, apply, new_app, use_version_control,
  remove_version_control, keep_version, has_production_config, has_staging_config, request_cleanup,
  delete_app,
}

pub data Call : Type 0 where
  uses_version_control : VersionControl → Call
  removes_version_control : Call
  changes_production changes_staging : EnvironmentConfigRequirement → Call
  requests_cleanup : String → Time → Call
  deletes : Bool → Call

unfoldable pub call : App → Call → App
call a (uses_version_control config) = (use_version_control a config).0
call a removes_version_control = (remove_version_control a).0
call a (changes_production requirement) = (has_production_config a requirement).0
call a (changes_staging requirement) = (has_staging_config a requirement).0
call a (requests_cleanup by now) = request_cleanup a by now
call a (deletes cleaned_up) = (delete_app a cleaned_up).0

unfoldable pub outcome : App → Call → Option Error
outcome a (uses_version_control config) = (use_version_control a config).1
outcome a removes_version_control = (remove_version_control a).1
outcome a (changes_production requirement) = (has_production_config a requirement).1
outcome a (changes_staging requirement) = (has_staging_config a requirement).1
outcome a (requests_cleanup by now) = none
outcome a (deletes cleaned_up) = (delete_app a cleaned_up).1

abbrev is_delete : Call → Bool
is_delete (deletes _) = true
is_delete _ = false

-- Once its cleanup was requested, every call but the deletion leaves the application exactly as it
-- is, its pending events included, and the deletion succeeds as soon as the resources are gone.
pub app_frozen :
    (a : App) (c : Call)
    → is_some a.cleanup_requested ≡ true
    → is_delete c ≡ false
    → (call a c ≡ a) × (outcome a (deletes true) ≡ none)
unfolding call outcome use_version_control remove_version_control has_production_config
    has_staging_config request_cleanup delete_app
app_frozen a (uses_version_control config) h d = ground arith
app_frozen a removes_version_control h d = ground arith
app_frozen a (changes_production requirement) h d = ground arith
app_frozen a (changes_staging requirement) h d = ground arith
app_frozen a (requests_cleanup by now) h d = ground arith
app_frozen a (deletes cleaned_up) h d = absurd (cc)

-- A call that returns an error leaves the application as it was.
pub app_error_unchanged : (a : App) (c : Call) {e : Error} → outcome a c ≡ some e → call a c ≡ a
unfolding call outcome use_version_control remove_version_control has_production_config
    has_staging_config delete_app
app_error_unchanged a (uses_version_control config) h = ground arith
app_error_unchanged a removes_version_control h = ground arith
app_error_unchanged a (changes_production requirement) h = ground arith
app_error_unchanged a (changes_staging requirement) h = ground arith
app_error_unchanged a (requests_cleanup by now) h = absurd (cc)
app_error_unchanged a (deletes cleaned_up) h = ground arith

abbrev env_changed :
    App → Environment → EnvironmentConfig → EnvironmentConfigRequirement → List AppEvent
env_changed a env existing r =
    if is_some a.cleanup_requested
      || is_some (environment_error r)
      || config_equals r.config existing
    then []
    else app_env_changed a.id env (keep_version r.config existing) existing ∷ []

-- The events that a call raises, told independently of how the methods change the application.
pub emitted : App → Call → List AppEvent
emitted a (uses_version_control config) = elim a.version_control [
  | none ↦
      if is_some a.cleanup_requested then [] else app_version_control_configured a.id config ∷ []
  | some existing ↦
      if is_some a.cleanup_requested || config == existing
      then []
      else app_version_control_configured a.id config ∷ []
]
emitted a removes_version_control =
    if is_some a.cleanup_requested || not (is_some a.version_control)
    then []
    else app_version_control_removed a.id ∷ []
emitted a (changes_production r) = env_changed a production a.production r
emitted a (changes_staging r) = env_changed a staging a.staging r
emitted a (requests_cleanup by now) =
    if is_some a.cleanup_requested
    then []
    else app_marked_for_cleanup a.id a.production a.staging (new_action by now) ∷ []
emitted a (deletes cleaned_up) =
    if is_some a.cleanup_requested && cleaned_up then app_deleted a.id ∷ [] else []

pub stores : (a : App) (e : AppEvent) → (apply a e).events ≡ store_event a.events e
unfolding apply
stores a (app_env_changed id env config old_config) = ground arith
stores a _ = refl

abbrev pub app_source : Source App AppEvent
app_source = record { apply = apply; events = λ a. a.events; stores = stores }

-- No invariant is needed.
abbrev Anything : App → Type 0
Anything a = Unit

-- A call changes the application exactly as the events that it raises say, and raises no others.
pub app_call-emitted : (a : App) (c : Call) → call a c ≡ replay app_source a (emitted a c)
unfolding call emitted replay use_version_control remove_version_control has_production_config
    has_staging_config request_cleanup delete_app environment_error
app_call-emitted a (uses_version_control config) = ground arith
app_call-emitted a removes_version_control = ground arith
app_call-emitted a (changes_production requirement) = ground arith
app_call-emitted a (changes_staging requirement) = ground (arith, production-ne-staging)
app_call-emitted a (requests_cleanup by now) = ground arith
app_call-emitted a (deletes cleaned_up) = ground arith

new_app-IsRebuilt :
    (id name : String) (p s : EnvironmentConfigRequirement) (by : String) (now : Time) (a : App)
    → new_app id name p s by now ≡ ok a
    → replay app_source zero_app a.events ≡ a
unfolding new_app replay
new_app-IsRebuilt id name p s by now a h = ground arith

-- Created, and then used by any calls at all, an application is exactly what its pending events
-- rebuild from nothing.
pub app_rebuilt :
    (id name : String) (p s : EnvironmentConfigRequirement) (by : String) (now : Time) (a : App)
    (cs : List Call)
    → new_app id name p s by now ≡ ok a
    → replay app_source zero_app (run call a cs).events ≡ run call a cs
app_rebuilt id name p s by now a cs h =
    run-IsRebuilt app_source call emitted Anything (λ x c v. tt) (λ x c v. app_call-emitted x c)
      zero_app a cs tt (new_app-IsRebuilt id name p s by now a h)
