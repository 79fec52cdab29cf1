-- ===== src/Domain/Provider.antt =====
-- The interface `ProviderConfig` of internal/deployment/domain/provider.go, by its one
-- implementation, internal/deployment/infra/provider/docker/data.go.
use seelf.Prelude.{ℕ, String, Bool, Option, ◌==◌, Eq, String-discrete, ℕ_discrete, get_or}

-- `Data`. None of its optional values is ever unset, so they are `Option`.
pub record ProviderConfig : Type 0 where
  pub host : Option String
  pub port : Option ℕ
  pub user : Option String
  pub private_key : Option String

unfoldable pub ProviderConfig-discrete : Discrete ProviderConfig
ProviderConfig-discrete = hlevel (String-discrete, ℕ_discrete)

instance abbrev pub provider_config_eq : Eq ProviderConfig
provider_config_eq = record { dec = ProviderConfig-discrete }

unfoldable pub provider_kind : ProviderConfig → String
provider_kind c = "docker"

-- One provider for each host.
unfoldable pub fingerprint : ProviderConfig → String
fingerprint c = get_or c.host ""

unfoldable pub provider_equals : ProviderConfig → ProviderConfig → Bool
provider_equals c other = c == other
