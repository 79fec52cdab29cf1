-- ===== src/Handlers/Apps.antt =====
-- app/create_app and app/update_app. `url.Parse` is the parameter `parse`; the user and the identifier are
-- arguments, as everywhere.
pub mod Names
pub mod Unique
pub mod Apart
use seelf.Prelude.{
  checked, unless, String, Bool, true, false, Option, none, some, List, [], ◌∷◌, if◌then◌else◌,
  ◌==◌, string_eq, is_some, Map, Result, ok, err, Error, ◌>>=◌, invalid_url, get_or,
}
use seelf.Pkg.Action.{Time}
use seelf.Pkg.Maybe.{Patch, try_get}
use seelf.Pkg.Validate.{Of, struct, value_error, value_target, if_set, if_patched, is_required}
use seelf.Domain.Values.{
  UrlValue, Userinfo, Url, zero_url, EnvironmentConfig, new_environment_config,
  has_environment_variables, ServicesEnv, VersionControl, new_version_control, authenticated,
  make_public, has_url,
}
use seelf.Domain.Naming.{app_name_from}
use seelf.Domain.Urls.{url_from}
use seelf.Domain.Requirement.{EnvironmentConfigRequirement, environment_error}
use seelf.Domain.App.{
  App, new_app, use_version_control, remove_version_control, has_production_config,
  has_staging_config,
}
use seelf.Store.Targets.{Targets}
use seelf.Store.Apps.{
  Apps, get_by_id, check_app_naming_availability, check_app_naming_availability_by_id, write,
}

-- What a command says of an environment. A nil inner map is `none`.
pub record EnvironmentInput : Type 0 where
  pub target : String
  pub vars : Option (Map (Option (Map String)))

-- `ServicesEnvFrom`
unfoldable pub services_env_from : Map (Option (Map String)) → ServicesEnv
services_env_from [] = []
services_env_from ((service, none) ∷ rest) = services_env_from rest
services_env_from ((service, some vars) ∷ rest) = (service, vars) ∷ services_env_from rest

-- `BuildEnvironmentConfig`
unfoldable pub build_environment_config : EnvironmentInput → Time → EnvironmentConfig
unfolding new_environment_config has_environment_variables services_env_from
build_environment_config input now =
    let config = new_environment_config input.target now in
    elim input.vars [
      | none ↦ config
      | some vars ↦ has_environment_variables config (services_env_from vars)
    ]

module _ (parse : String → Option (UrlValue × Option Userinfo)) where
  pub record CreateVersionControl : Type 0 where
    pub url : String
    pub token : Option String

  pub record CreateApp : Type 0 where
    pub name : String
    pub version_control : Option CreateVersionControl
    pub production : EnvironmentInput
    pub staging : EnvironmentInput

  abbrev validate_version_control : CreateVersionControl → Option Error
  validate_version_control c =
      struct
        (("url", value_error (url_from parse c.url)) ∷ ("token", if_set c.token is_required) ∷ [])

  -- The fields of `create_app` but the name.
  abbrev pub other_fields : CreateApp → Of
  other_fields cmd =
      ("version_control", if_set cmd.version_control validate_version_control)
      ∷ ("production", struct (("target", is_required cmd.production.target) ∷ []))
      ∷ ("staging", struct (("target", is_required cmd.staging.target) ∷ []))
      ∷ []

  -- The first validation of `create_app`.
  unfoldable pub validate_create : CreateApp → Option Error
  unfolding app_name_from is_required struct
  validate_create cmd = struct (("name", value_error (app_name_from cmd.name)) ∷ other_fields cmd)

  -- The version control of a new application; its error is not read.
  unfoldable pub with_version_control : App → CreateApp → App
  unfolding use_version_control new_version_control authenticated url_from
  with_version_control a cmd = elim cmd.version_control [
    | none ↦ a
    | some c ↦
        let vcs = new_version_control (value_target zero_url (url_from parse c.url)) in
        elim c.token [
          | none ↦ (use_version_control a vcs).0
          | some token ↦ (use_version_control a (authenticated vcs token)).0
        ]
  ]

  abbrev pub requirement_errors :
      EnvironmentConfigRequirement → EnvironmentConfigRequirement → Option Error
  requirement_errors prod stag = struct (
      ("production.target", environment_error prod)
      ∷ ("staging.target", environment_error stag)
      ∷ [])

  -- `Handler` of app/create_app, with the identifier of the new application.
  module _ (engine : Apps → Option Error) where
    -- The end of the handler, with the requirements of the two environments.
    unfoldable pub create_required :
        Apps
        → CreateApp
        → String
        → String
        → String
        → Time
        → EnvironmentConfigRequirement
        → EnvironmentConfigRequirement
        → Result (Apps × String)
    unfolding with_version_control new_app write environment_error
    create_required apps cmd id name by now prod stag = unless (requirement_errors prod stag) (do
      a ← new_app id name prod stag by now
      apps' ← write engine apps (with_version_control a cmd).events
      ok (apps', a.id))

    unfoldable pub create_app_handler :
        Apps → Targets → CreateApp → String → String → Time → Result (Apps × String)
    unfolding validate_create build_environment_config create_required check_app_naming_availability
    create_app_handler apps targets cmd id by now = unless (validate_create cmd) (
        let name = value_target "" (app_name_from cmd.name) in
        let (prod, stag) =
          check_app_naming_availability apps targets name
            (build_environment_config cmd.production now)
            (build_environment_config cmd.staging now) in
        create_required apps cmd id name by now prod stag)

  pub record UpdateVersionControl : Type 0 where
    pub url : String
    pub token : Patch String

  pub record UpdateApp : Type 0 where
    pub id : String
    pub version_control : Patch UpdateVersionControl
    pub production : Option EnvironmentInput
    pub staging : Option EnvironmentInput

  abbrev validate_update_version_control : UpdateVersionControl → Option Error
  validate_update_version_control c =
      struct (
        ("url", value_error (url_from parse c.url))
        ∷ ("token", if_patched c.token is_required)
        ∷ [])

  abbrev validate_target : EnvironmentInput → Option Error
  validate_target input = struct (("target", is_required input.target) ∷ [])

  unfoldable pub validate_update : UpdateApp → Option Error
  unfolding is_required struct url_from
  validate_update cmd = struct (
      ("version_control", if_patched cmd.version_control validate_update_version_control)
      ∷ ("production", if_set cmd.production validate_target)
      ∷ ("staging", if_set cmd.staging validate_target)
      ∷ [])

  -- The existing version control is the reference, so that a token that is not given stays.
  unfoldable pub patch_token : VersionControl → Patch String → VersionControl
  unfolding authenticated make_public
  patch_token vcs token =
      if token.is_set
      then (if token.has_value then authenticated vcs token.value else make_public vcs)
      else vcs

  unfoldable pub patch_version_control : App → Patch UpdateVersionControl → App × Option Error
  unfolding patch_token use_version_control remove_version_control new_version_control has_url
      url_from
  patch_version_control a patch =
      if patch.is_set
      then (if patch.has_value
          then (let url = value_target zero_url (url_from parse patch.value.url) in
              let vcs = has_url (get_or a.version_control (new_version_control url)) url in
              use_version_control a (patch_token vcs patch.value.token))
          else remove_version_control a)
      else (a, none)

  abbrev if_config :
      Option EnvironmentConfig
      → (App → EnvironmentConfigRequirement → App × Option Error)
      → App
      → EnvironmentConfigRequirement
      → App × Option Error
  if_config none method a requirement = (a, none)
  if_config (some _) method a requirement = method a requirement

  abbrev if_given : Option EnvironmentConfig → Option Error → Option Error
  if_given none e = none
  if_given (some _) e = e

  abbrev config_of : Option EnvironmentInput → Time → Option EnvironmentConfig
  config_of none now = none
  config_of (some input) now = some (build_environment_config input now)

  -- `Handler` of app/update_app.
  module _ (engine : Apps → Option Error) where
    unfoldable pub update_app_handler : Apps → Targets → UpdateApp → Time → Result (Apps × String)
    unfolding validate_update build_environment_config patch_version_control get_by_id write
        check_app_naming_availability_by_id environment_error has_production_config
        has_staging_config
    update_app_handler apps targets cmd now = unless (validate_update cmd) (do
      a ← get_by_id apps cmd.id
      let prod_config = config_of cmd.production now
      let stag_config = config_of cmd.staging now
      (check_app_naming_availability_by_id apps targets a.id prod_config stag_config
          >>= λ requirements.
              unless
                (struct (
                  ("production.target", if_given prod_config (environment_error requirements.0))
                  ∷ ("staging.target", if_given stag_config (environment_error requirements.1))
                  ∷ []))
                (do
                  a1 ← checked (patch_version_control a cmd.version_control)
                  a2 ← checked (if_config prod_config has_production_config a1 requirements.0)
                  a3 ← checked (if_config stag_config has_staging_config a2 requirements.1)
                  apps' ← write engine apps a3.events
                  ok (apps', cmd.id))))
