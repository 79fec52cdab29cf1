-- ===== src/Store/Apps.antt =====
-- internal/deployment/infra/sqlite/apps.go and `AppFrom` of the domain: the table of applications. The
-- columns of an environment are kept together. A url is encoded without its user part (`Url.Value`).
use seelf.Prelude.{
  String, Bool, false, ◌!=◌, Option, none, some, List, [], ◌∷◌, ◌++◌, if◌then◌else◌, ◌&&◌, ◌||◌,
  not, ◌==◌, string_eq, Result, ok, err, Error, not_found, any, get_or, is_some,
}
use seelf.Pkg.Action.{Time}
use seelf.Pkg.Maybe.{to_option}
use seelf.Pkg.Table.{find, update, delete}
use seelf.Domain.Values.{
  Environment, production, staging, EnvironmentConfig, UrlValue, zero_url, VersionControl,
  new_version_control, authenticated,
}
use seelf.Domain.Requirement.{EnvironmentConfigRequirement, new_environment_config_requirement}
use seelf.Domain.App.{
  App, AppEvent, app_created, app_env_changed, app_version_control_configured,
  app_version_control_removed, app_marked_for_cleanup, app_deleted,
}
use seelf.Store.Targets.{Targets}

pub record AppRow : Type 0 where
  pub id : String
  pub name : String
  pub version_control_url : Option UrlValue
  pub version_control_token : Option String
  pub production : EnvironmentConfig
  pub staging : EnvironmentConfig
  pub cleanup_requested_at : Option Time
  pub cleanup_requested_by : Option String
  pub created_at : Time
  pub created_by : String

abbrev pub Apps : Type 0
Apps = List AppRow

abbrev pub row_id : AppRow → String
row_id r = r.id

-- The columns of an environment; the events name no other than these two.
abbrev pub set_environment : Environment → EnvironmentConfig → AppRow → AppRow
set_environment env config r =
    if env == production
    then record r { production = config }
    else if env == staging
    then record r { staging = config }
    else r

-- The statement that `Write` makes for an event.
unfoldable pub statement : Apps → AppEvent → Apps
unfolding to_option
statement rows (app_created id name prod stag created) =
    rows
    ++ (record {
      id = id;
      name = name;
      version_control_url = none;
      version_control_token = none;
      production = prod;
      staging = stag;
      cleanup_requested_at = none;
      cleanup_requested_by = none;
      created_at = created.at;
      created_by = created.by;
    }
        ∷ [])
statement rows (app_env_changed id env config old_config) =
    update row_id id (set_environment env config) rows
statement rows (app_version_control_configured id config) =
    update row_id id
      (λ r. record r {
        version_control_url = some config.url.value;
        version_control_token = to_option config.token;
      })
      rows
statement rows (app_version_control_removed id) =
    update row_id id (λ r. record r { version_control_url = none; version_control_token = none })
      rows
statement rows (app_marked_for_cleanup id prod stag requested) =
    update row_id id
      (λ r. record r {
        cleanup_requested_at = some requested.at;
        cleanup_requested_by = some requested.by;
      })
      rows
statement rows (app_deleted id) = delete row_id id rows

-- `AppFrom`: the version control from its two columns.
abbrev pub version_control_from : Option UrlValue → Option String → Option VersionControl
version_control_from none token = none
version_control_from (some u) none = some (new_version_control (record zero_url { value = u }))
version_control_from (some u) (some token) =
    some (authenticated (new_version_control (record zero_url { value = u })) token)

unfoldable pub app_from : AppRow → App
app_from r = record {
  id = r.id;
  name = r.name;
  version_control = version_control_from r.version_control_url r.version_control_token;
  production = r.production;
  staging = r.staging;
  cleanup_requested = elim r.cleanup_requested_at [
    | none ↦ none
    | some at ↦ some (record { by = get_or r.cleanup_requested_by ""; at = at })
  ];
  created = record { by = r.created_by; at = r.created_at };
  events = [];
}

-- `GetByID`
unfoldable pub get_by_id : Apps → String → Result App
unfolding app_from find
get_by_id rows id = elim (find row_id id rows) [ none ↦ err not_found | some r ↦ ok (app_from r) ]

-- `HasAppsOnTarget`
unfoldable pub has_apps_on_target : Apps → String → Bool
has_apps_on_target rows target =
    any (λ r. r.production.target == target || r.staging.target == target) rows

-- `EXISTS(SELECT 1 FROM targets WHERE id = ? AND cleanup_requested_at IS NULL)`
abbrev pub target_stays : Targets → String → Bool
target_stays targets id = any (λ t. t.id == id && not (is_some t.cleanup_requested_at)) targets

-- `CheckAppNamingAvailability`: the requirements of the two environments.
unfoldable pub check_app_naming_availability :
    Apps
    → Targets
    → String
    → EnvironmentConfig
    → EnvironmentConfig
    → EnvironmentConfigRequirement × EnvironmentConfigRequirement
unfolding new_environment_config_requirement any
check_app_naming_availability rows targets name prod stag = (
  new_environment_config_requirement prod (target_stays targets prod.target)
      (not (any (λ r. r.name == name && r.production.target == prod.target) rows)),
  new_environment_config_requirement stag (target_stays targets stag.target)
      (not (any (λ r. r.name == name && r.staging.target == stag.target) rows)),
)

-- The zero value of a requirement.
abbrev pub zero_requirement : EnvironmentConfigRequirement
zero_requirement = record {
  config = record { target = ""; version = 0; vars = none };
  target_exists = false;
  available = false;
}

-- The requirement of one environment: no other application with the name is on its target.
abbrev pub requirement_by_id :
    Apps
    → Targets
    → AppRow
    → (AppRow → String)
    → Option EnvironmentConfig
    → EnvironmentConfigRequirement
requirement_by_id rows targets src target none = zero_requirement
requirement_by_id rows targets src target (some config) =
    new_environment_config_requirement config (target_stays targets config.target)
      (not (any (λ r. r.id != src.id && (r.name == src.name && target r == config.target)) rows))

-- `CheckAppNamingAvailabilityByID`: a query for the application's row, unless nothing is to be checked.
unfoldable pub check_app_naming_availability_by_id :
    Apps
    → Targets
    → String
    → Option EnvironmentConfig
    → Option EnvironmentConfig
    → Result (EnvironmentConfigRequirement × EnvironmentConfigRequirement)
unfolding new_environment_config_requirement any find
check_app_naming_availability_by_id rows targets id none none =
    ok (zero_requirement, zero_requirement)
check_app_naming_availability_by_id rows targets id prod stag = elim (find row_id id rows) [
  | none ↦ err not_found
  | some src ↦ ok (
    requirement_by_id rows targets src (λ r. r.production.target) prod,
    requirement_by_id rows targets src (λ r. r.staging.target) stag,
  )
]

-- The writing half of `WriteAndDispatch`, whose transaction is rolled back on an error. `engine` is
-- the answer to a statement, `none` if it was accepted.
module _ (engine : Apps → Option Error) where
  unfoldable pub write : Apps → List AppEvent → Result Apps
  unfolding statement
  write rows [] = ok rows
  write rows (e ∷ es) =
      let next = statement rows e in
      let rest = write next es in elim (engine next) [ some x ↦ err x | none ↦ rest ]
