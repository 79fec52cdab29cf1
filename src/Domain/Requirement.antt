-- ===== src/Domain/Requirement.antt =====
-- internal/deployment/domain/requirement.go: the outcome of an availability check, carried with the
-- value that was checked. `met` returns the value and the error, `ok` when the error is nil.
use seelf.Prelude.{
  Bool, Option, none, some, if◌then◌else◌, ◌&&◌, not, Result, ok, err, Error, not_found,
  app_name_already_taken, url_already_taken, config_already_taken,
}
use seelf.Domain.Values.{EnvironmentConfig, Url}
use seelf.Domain.Provider.{ProviderConfig}

abbrev pub met_with {ℓ} : {A : Type ℓ} → A → Option Error → Result A
met_with a none = ok a
met_with a (some e) = err e

pub record EnvironmentConfigRequirement : Type 0 where
  pub config : EnvironmentConfig
  pub target_exists : Bool
  pub available : Bool

unfoldable pub new_environment_config_requirement :
    EnvironmentConfig → Bool → Bool → EnvironmentConfigRequirement
new_environment_config_requirement config target_exists available = record {
  config = config;
  target_exists = target_exists;
  available = target_exists && available;
}

unfoldable pub environment_error : EnvironmentConfigRequirement → Option Error
environment_error e =
    if not e.target_exists
    then some not_found
    else if not e.available
    then some app_name_already_taken
    else none

unfoldable pub environment_met : EnvironmentConfigRequirement → Result EnvironmentConfig
unfolding environment_error
environment_met e = met_with e.config (environment_error e)

-- `TargetUrlRequirement` and `RegistryUrlRequirement`, which have one text.
pub record UrlRequirement : Type 0 where
  pub url : Url
  pub unique : Bool

unfoldable pub url_error : UrlRequirement → Option Error
url_error e = if not e.unique then some url_already_taken else none

unfoldable pub url_met : UrlRequirement → Result Url
unfolding url_error
url_met e = met_with e.url (url_error e)

pub record ProviderConfigRequirement : Type 0 where
  pub config : ProviderConfig
  pub unique : Bool

unfoldable pub config_error : ProviderConfigRequirement → Option Error
config_error e = if not e.unique then some config_already_taken else none

unfoldable pub config_met : ProviderConfigRequirement → Result ProviderConfig
unfolding config_error
config_met e = met_with e.config (config_error e)
