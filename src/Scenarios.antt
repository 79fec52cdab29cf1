-- ===== src/Scenarios.antt =====
-- Concrete aggregates and rows, and the theorems at them.
mod Targets
mod Exposing
mod Apps
mod Queue
mod Deploying
mod Working
mod Naming
mod Docker
mod Buses
mod Accounts
use seelf.Prelude.{ℕ, String, true, false, Option, none, some, List, [], ◌∷◌, Error, Result, ok}
use seelf.Pkg.Action.{Action}
use seelf.Domain.Values.{
  Url, zero_url, EnvironmentConfig, DeploymentId, raw, production, staging, VersionControl,
}
use seelf.Domain.Provider.{ProviderConfig}
use seelf.Domain.Requirement.{
  UrlRequirement, ProviderConfigRequirement, EnvironmentConfigRequirement,
}
use seelf.Domain.Services.{Entrypoint, Service, http, tcp}
use seelf.Domain.TargetState.{TargetState, configuring, failed, ready}
use seelf.Domain.Target.{Target, target_created, zero_target}
use seelf.Domain.DeploymentState.{zero_state}
use seelf.Domain.Deployment.{Deployment, DeploymentConfig}
use seelf.Store.Deployments.{DeploymentRow}
use seelf.Domain.App.{App, zero_app, app_created}

abbrev pub ann : Action
ann = record { by = "ann"; at = 1 }

abbrev pub site : Url
site = record zero_url { value = record zero_url.value { scheme = "https"; host = "example.com" } }

abbrev pub other_site : Url
other_site = record zero_url {
  value = record zero_url.value { scheme = "https"; host = "other.com" };
}

abbrev pub site_page : Url
site_page = record zero_url {
  value = record zero_url.value { scheme = "https"; host = "example.com"; path = "/page" };
}

abbrev pub local : ProviderConfig
local = record { host = none; port = none; user = none; private_key = none }

abbrev pub free_site : UrlRequirement
free_site = record { url = site; unique = true }

abbrev pub free_other : UrlRequirement
free_other = record { url = other_site; unique = true }

abbrev pub free_local : ProviderConfigRequirement
free_local = record { config = local; unique = true }

abbrev pub first_state : TargetState
first_state = record {
  status = configuring;
  version = 1;
  errcode = none;
  last_ready_version = none;
}

abbrev pub created_target : Target
created_target = record zero_target {
  id = "t1";
  name = "main";
  url = site;
  provider = local;
  state = first_state;
  created = ann;
  events = target_created "t1" "main" site local first_state [] ann ∷ [];
}

-- The target as the table gives it, still being configured.
abbrev pub fresh_target : Target
fresh_target = record created_target { events = [] }

abbrev pub ready_target : Target
ready_target = record fresh_target {
  state = record { status = ready; version = 1; errcode = none; last_ready_version = some 1 };
}

abbrev pub frozen_target : Target
frozen_target = record ready_target { cleanup_requested = some (record { by = "ann"; at = 2 }) }

abbrev pub database : Entrypoint
database = record {
  name = "db-5432";
  is_custom = true;
  router = tcp;
  subdomain = none;
  port = 5432;
}

abbrev pub db_service : Service
db_service = record {
  name = "db";
  qualified_name = "app-production-a1-db";
  image = "postgres";
  entrypoints = database ∷ [];
}

abbrev pub on_t1 : EnvironmentConfig
on_t1 = record { target = "t1"; version = 1; vars = none }

abbrev pub on_t2 : EnvironmentConfig
on_t2 = record { target = "t2"; version = 9; vars = none }

abbrev pub free_t1 : EnvironmentConfigRequirement
free_t1 = record { config = on_t1; target_exists = true; available = true }

abbrev pub free_t2 : EnvironmentConfigRequirement
free_t2 = record { config = on_t2; target_exists = true; available = true }

abbrev pub created_app : App
created_app = record zero_app {
  id = "a1";
  name = "app";
  production = on_t1;
  staging = on_t1;
  created = ann;
  events = app_created "a1" "app" on_t1 on_t1 ann ∷ [];
}

abbrev pub repository : VersionControl
repository = record { url = site; token = record { has_value = false; value = "" } }

abbrev pub first_id : DeploymentId
first_id = record { app_id = "a1"; deployment_number = 1 }

abbrev pub staging_config : DeploymentConfig
staging_config = record {
  app_id = "a1";
  app_name = "app";
  environment = staging;
  target = "t1";
  vars = none;
}

abbrev pub pending_deployment : Deployment
pending_deployment = record {
  id = first_id;
  config = staging_config;
  state = zero_state;
  source = raw "compose";
  requested = ann;
  events = [];
}

-- The row of the pending deployment.
abbrev pub first_row : DeploymentRow
first_row = record {
  id = first_id;
  config = staging_config;
  state = zero_state;
  source = raw "compose";
  requested_at = 1;
  requested_by = "ann";
}
