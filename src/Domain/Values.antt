-- ===== src/Domain/Values.antt =====
-- The value objects of internal/deployment/domain: environment.go, url.go, version_control.go,
-- credentials.go, deployment_id.go, service.go (data), source.go with the three kinds of source
-- data, and the provider configuration of internal/deployment/infra/provider/docker/data.go.
use seelf.Prelude.{
  ℕ, String, ◌≡◌, refl, Bool, true, false, Option, none, some, if◌then◌else◌, ◌==◌, Eq,
  String-discrete, ℕ_discrete, Map, Result, ok, err, invalid_environment_name, string_eq, text_ne,
}
use mathlib.Core.Bool.{Bool-discrete}
use seelf.Pkg.Maybe.{Maybe, none_of, set, unset}
use seelf.Pkg.Action.{Time}

-- environment.go
abbrev pub Environment : Type 0
Environment = String

abbrev pub production : Environment
production = "production"

abbrev pub staging : Environment
staging = "staging"

pub production-ne-staging : production ≡ staging → ⊥
production-ne-staging = text_ne "production" "staging" refl

unfoldable pub environment_from : String → Result Environment
environment_from value =
    if value == production
    then ok production
    else if value == staging
    then ok staging
    else err invalid_environment_name

abbrev pub is_production : Environment → Bool
is_production e = e == production

abbrev pub EnvVars : Type 0
EnvVars = Map String

abbrev pub ServicesEnv : Type 0
ServicesEnv = Map EnvVars

pub record EnvironmentConfig : Type 0 where
  pub target : String
  pub version : Time
  pub vars : Option ServicesEnv

-- `NewEnvironmentConfig`
unfoldable pub new_environment_config : String → Time → EnvironmentConfig
new_environment_config target now = record { target = target; version = now; vars = none }

unfoldable pub has_environment_variables : EnvironmentConfig → ServicesEnv → EnvironmentConfig
has_environment_variables e vars = record e { vars = some vars }

-- url.go. The fields are those of Go's `url.URL`, without the user, which `Url` keeps apart.
pub record UrlValue : Type 0 where
  pub scheme : String
  pub opaque_part : String
  pub host : String
  pub path : String
  pub raw_path : String
  pub omit_host : Bool
  pub force_query : Bool
  pub raw_query : String
  pub fragment : String
  pub raw_fragment : String

pub record Userinfo : Type 0 where
  pub username : String
  pub password : String
  pub password_set : Bool

pub record Url : Type 0 where
  pub value : UrlValue
  pub user : Maybe Userinfo

-- The zero value of the struct.
abbrev pub zero_url : Url
zero_url = record {
  value = record {
    scheme = "";
    opaque_part = "";
    host = "";
    path = "";
    raw_path = "";
    omit_host = false;
    force_query = false;
    raw_query = "";
    fragment = "";
    raw_fragment = "";
  };
  user = record {
    has_value = false;
    value = record { username = ""; password = ""; password_set = false };
  };
}

unfoldable pub Url-discrete : Discrete Url
Url-discrete = hlevel (String-discrete, Bool-discrete)

instance abbrev pub url_eq : Eq Url
url_eq = record { dec = Url-discrete }

unfoldable pub use_ssl : Url → Bool
use_ssl u = u.value.scheme == "https"

-- `Root`: the query and the path go, the rest stays.
unfoldable pub root : Url → Url
root u = record u { value = record u.value { raw_query = ""; path = "" } }

unfoldable pub without_user : Url → Url
unfolding unset
without_user u = record u { user = unset u.user }

-- version_control.go
pub record VersionControl : Type 0 where
  pub url : Url
  pub token : Maybe String

unfoldable pub VersionControl-discrete : Discrete VersionControl
VersionControl-discrete = hlevel (Url-discrete, String-discrete, Bool-discrete)

instance abbrev pub version_control_eq : Eq VersionControl
version_control_eq = record { dec = VersionControl-discrete }

unfoldable pub new_version_control : Url → VersionControl
unfolding none_of
new_version_control url = record { url = url; token = none_of "" }

unfoldable pub authenticated : VersionControl → String → VersionControl
unfolding set
authenticated c token = record c { token = set c.token token }

-- `Public`
unfoldable pub make_public : VersionControl → VersionControl
unfolding unset
make_public c = record c { token = unset c.token }

unfoldable pub has_url : VersionControl → Url → VersionControl
has_url c url = record c { url = url }

-- credentials.go
pub record Credentials : Type 0 where
  pub username : String
  pub password : String

unfoldable pub Credentials-discrete : Discrete Credentials
Credentials-discrete = hlevel String-discrete

instance abbrev pub credentials_eq : Eq Credentials
credentials_eq = record { dec = Credentials-discrete }

-- deployment_id.go
pub record DeploymentId : Type 0 where
  pub app_id : String
  pub deployment_number : ℕ

unfoldable pub DeploymentId-discrete : Discrete DeploymentId
DeploymentId-discrete = hlevel (String-discrete, ℕ_discrete)

instance abbrev pub deployment_id_eq : Eq DeploymentId
deployment_id_eq = record { dec = DeploymentId-discrete }

-- The implementations of `SourceData`: infra/source/{raw,archive,git}/data.go.
pub data SourceData : Type 0 where
  raw archive : String → SourceData
  git : String → String → SourceData

unfoldable pub kind : SourceData → String
kind (raw _) = "raw"
kind (archive _) = "archive"
kind (git _ _) = "git"

unfoldable pub need_version_control : SourceData → Bool
need_version_control (raw _) = false
need_version_control (archive _) = false
need_version_control (git _ _) = true
