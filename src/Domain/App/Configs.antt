-- ===== src/Domain/App/Configs.antt =====
-- What a change of an environment's configuration does. The version of a configuration marks the
-- last change of its target: the cleanup looks for deployments since then.
use seelf.Prelude.{◌≡◌, false, arith, is_some, if◌then◌else◌, string_eq}
use seelf.Domain.Values.{production-ne-staging, EnvironmentConfig}
use seelf.Domain.EnvVars.{config_equals}
use seelf.Domain.Requirement.{EnvironmentConfigRequirement, environment_error}
use seelf.Domain.App.{App, has_production_config, has_staging_config, keep_version}

-- A configuration after an accepted change: nothing if the two are equal, and otherwise the new
-- one, which keeps the old version exactly if the target is the same.
abbrev pub changed_to : EnvironmentConfig → EnvironmentConfig → EnvironmentConfig
changed_to existing updated =
    if config_equals updated existing then existing else keep_version updated existing

module _ (a : App) (r : EnvironmentConfigRequirement)
    (open_app : is_some a.cleanup_requested ≡ false) where
  -- A change of the production configuration returns the error of the availability check. With none
  -- it changes the production configuration only: not at all if the two are equal, and otherwise to
  -- the new one, which keeps the old version exactly if the target is the same.
  pub has_production_config_lem :
      ((has_production_config a r).1 ≡ environment_error r)
      × ((has_production_config a r).0.staging ≡ a.staging)
      × ((has_production_config a r).0.production ≡ (
          if is_some (environment_error r) then a.production else changed_to a.production r.config))
  unfolding has_production_config environment_error config_equals
  has_production_config_lem = ground arith

  -- The same for the staging configuration.
  pub has_staging_config_lem :
      ((has_staging_config a r).1 ≡ environment_error r)
      × ((has_staging_config a r).0.production ≡ a.production)
      × ((has_staging_config a r).0.staging
          ≡ (if is_some (environment_error r) then a.staging else changed_to a.staging r.config))
  unfolding has_staging_config environment_error config_equals
  has_staging_config_lem = ground (arith, production-ne-staging)
