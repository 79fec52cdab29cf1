-- ===== src/Domain/Deployment.antt =====
-- internal/deployment/domain/deployment.go and the snapshot of deployment_config.go: the aggregate
-- of a deployment, and its creation from an application.
pub mod Lifecycle
pub mod Creation
use seelf.Prelude.{
  ℕ, String, ◌≡◌, Bool, true, false, Option, none, some, List, [], ◌∷◌, if◌then◌else◌, ◌&&◌, not,
  ◌==◌, ◌!=◌, string_eq, is_some, Result, ok, err, Error, ◌>>=◌, app_cleanup_requested,
  version_control_not_configured, invalid_source_deployment,
  could_not_promote_production_deployment,
}
use seelf.Pkg.Action.{Action, Time, new_action}
use seelf.Pkg.Event.{store_event}
use seelf.Domain.Values.{
  Environment, production, is_production, EnvironmentConfig, ServicesEnv, DeploymentId, SourceData,
  raw, need_version_control,
}
use seelf.Domain.Services.{Service}
use seelf.Domain.DeploymentState.{DeploymentState, zero_state, started, has_failed, has_succeeded}
use seelf.Domain.App.{App, config_for}

pub record DeploymentConfig : Type 0 where
  pub app_id : String
  pub app_name : String
  pub environment : Environment
  pub target : String
  pub vars : Option ServicesEnv

-- `ConfigSnapshotFor`
unfoldable pub config_snapshot_for : App → Environment → Result DeploymentConfig
unfolding config_for
config_snapshot_for a env = do
  conf ← config_for a env
  ok (record {
    app_id = a.id;
    app_name = a.name;
    environment = env;
    target = conf.target;
    vars = conf.vars;
  })

pub data DeploymentEvent : Type 0 where
  deployment_created :
      DeploymentId → DeploymentConfig → DeploymentState → SourceData → Action → DeploymentEvent
  deployment_state_changed : DeploymentId → DeploymentConfig → DeploymentState → DeploymentEvent

-- `events` is the embedded `event.Emitter`.
pub record Deployment : Type 0 where
  pub id : DeploymentId
  pub config : DeploymentConfig
  pub state : DeploymentState
  pub source : SourceData
  pub requested : Action
  pub events : List DeploymentEvent

-- The zero value of the struct. Its nil source stands for any value here: nothing reads it before
-- the creation event sets it.
abbrev pub zero_deployment : Deployment
zero_deployment = record {
  id = record { app_id = ""; deployment_number = 0 };
  config = record { app_id = ""; app_name = ""; environment = ""; target = ""; vars = none };
  state = zero_state;
  source = raw "";
  requested = record { by = ""; at = 0 };
  events = [];
}

-- The switch of `apply`.
unfoldable pub absorb : Deployment → DeploymentEvent → Deployment
absorb d (deployment_created id config state source requested) = record d {
  id = id;
  config = config;
  state = state;
  source = source;
  requested = requested;
}
absorb d (deployment_state_changed id config state) = record d { state = state }

unfoldable pub apply : Deployment → DeploymentEvent → Deployment
unfolding absorb
apply d e = let d' = absorb d e in record d' { events = store_event d'.events e }

-- `App.NewDeployment`
unfoldable pub new_deployment :
    App → ℕ → SourceData → Environment → String → Time → Result Deployment
unfolding apply config_snapshot_for need_version_control
new_deployment a number meta env requested_by now =
    if is_some a.cleanup_requested
    then err app_cleanup_requested
    else if need_version_control meta && not (is_some a.version_control)
    then err version_control_not_configured
    else (do
      conf ← config_snapshot_for a env
      ok (
          apply zero_deployment (
            deployment_created (record { app_id = a.id; deployment_number = number }) conf
              zero_state meta (new_action requested_by now))))

unfoldable pub redeploy : App → Deployment → ℕ → String → Time → Result Deployment
unfolding new_deployment
redeploy a source number requested_by now =
    if source.id.app_id != a.id
    then err invalid_source_deployment
    else new_deployment a number source.source source.config.environment requested_by now

unfoldable pub promote : App → Deployment → ℕ → String → Time → Result Deployment
unfolding new_deployment
promote a source number requested_by now =
    if is_production source.config.environment
    then err could_not_promote_production_deployment
    else if source.id.app_id != a.id
    then err invalid_source_deployment
    else new_deployment a number source.source production requested_by now

-- `stateChanged`, after the state was replaced in place.
unfoldable pub state_changed : Deployment → DeploymentState → Deployment
unfolding apply
state_changed d state =
    let d' = record d { state = state } in
    apply d' (deployment_state_changed d'.id d'.config d'.state)

abbrev keep_or_tell : Deployment → DeploymentState × Option Error → Deployment × Option Error
keep_or_tell d (state, some e) = (d, some e)
keep_or_tell d (state, none) = (state_changed d state, none)

unfoldable pub has_started : Deployment → Time → Deployment × Option Error
unfolding state_changed started
has_started d now = keep_or_tell d (started d.state now)

-- `HasEnded`: nil services and a nil error stand for a deployment without services.
unfoldable pub has_ended :
    Deployment → Option (List Service) → Option Error → Time → Deployment × Option Error
unfolding state_changed has_failed has_succeeded
has_ended d services (some e) now = keep_or_tell d (has_failed d.state e now)
has_ended d none none now = keep_or_tell d (has_succeeded d.state [] now)
has_ended d (some services) none now = keep_or_tell d (has_succeeded d.state services now)
