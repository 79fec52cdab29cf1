-- ===== src/Handlers/FailPending.antt =====
-- The handlers of app/fail_pending_deployments: pending deployments that are cancelled.
use seelf.Prelude.{
  String, ◌≡◌, ◌≢◌, refl, none, some, [], ◌∷◌, arith, ◌==◌, string_eq, any, ◌&&◌, not,
  if◌then◌else◌, app_cleanup_requested, app_target_changed, target_cleanup_requested,
}
use seelf.Pkg.Action.{Time}
use seelf.Pkg.Table.{find}
use seelf.Domain.Values.{Environment, EnvironmentConfig, DeploymentId, deployment_id_eq}
use seelf.Domain.DeploymentState.{pending, running, deployment_status_eq}
use seelf.Domain.App.{target_has_changed}
use seelf.Store.Deployments.{
  fail_row, DeploymentRow, Deployments, FailCriterias, row_id, fail_deployments,
  has_ongoing_on_target,
}
use seelf.Store.Deployments.Failing.{find-fail_deployments}

-- `OnAppCleanupRequestedHandler`
unfoldable pub on_app_cleanup_requested : Deployments → String → Time → Deployments
unfolding fail_deployments
on_app_cleanup_requested rows app now =
    fail_deployments rows app_cleanup_requested
      (record { status = some pending; app = some app; target = none; environment = none }) now

-- `OnAppEnvChangedHandler`
unfoldable pub on_app_env_changed :
    Deployments → String → Environment → EnvironmentConfig → EnvironmentConfig → Time → Deployments
unfolding fail_deployments
on_app_env_changed rows app env config old_config now =
    if not (target_has_changed config old_config)
    then rows
    else fail_deployments rows app_target_changed
        (record {
          status = some pending;
          app = some app;
          target = some old_config.target;
          environment = some env;
        })
        now

-- `OnTargetDeleteRequestedHandler`
unfoldable pub on_target_cleanup_requested : Deployments → String → Time → Deployments
unfolding fail_deployments
on_target_cleanup_requested rows target now =
    fail_deployments rows target_cleanup_requested
      (record { status = some pending; target = some target; app = none; environment = none }) now

pub ongoing_running :
    (rows : Deployments) (target : String) (now : Time)
    → has_ongoing_on_target (on_target_cleanup_requested rows target now) target
      ≡ any (λ k. k.config.target == target && k.state.status == running) rows
unfolding has_ongoing_on_target on_target_cleanup_requested fail_deployments any
ongoing_running [] target now = refl
ongoing_running (k ∷ rows) target now = ground (arith, ongoing_running rows target now)

-- Once the cleanup of a target was requested, a deployment is ongoing on it only if one was running,
-- and a deployment that was not pending is as it was.
pub target_pending_failed :
    (rows : Deployments) (target : String) (now : Time) (id : DeploymentId) (r : DeploymentRow)
    → find row_id id rows ≡ some r
    → r.state.status ≢ pending
    → (has_ongoing_on_target (on_target_cleanup_requested rows target now) target
        ≡ any (λ k. k.config.target == target && k.state.status == running) rows)
      × (find row_id id (on_target_cleanup_requested rows target now) ≡ some r)
unfolding on_target_cleanup_requested
target_pending_failed rows target now id r here d =
    let criterias : FailCriterias = record {
      status = some pending;
      target = some target;
      app = none;
      environment = none;
    } in
    (
      ongoing_running rows target now,
      ground (arith, here, d, find-fail_deployments rows target_cleanup_requested criterias now id),
    )

-- When the environment of an application moves to another target, a deployment of it that is pending
-- for the old target fails, with the change as the reason.
pub env_changed_pending :
    (rows : Deployments) (app : String) (env : Environment) (config old : EnvironmentConfig)
    (now : Time) (id : DeploymentId) (r : DeploymentRow)
    → find row_id id rows ≡ some r
    → config.target ≢ old.target
    → (r.id.app_id ≡ app)
      × (r.config.environment ≡ env)
      × (r.config.target ≡ old.target)
      × (r.state.status ≡ pending)
    → find row_id id (on_app_env_changed rows app env config old now)
      ≡ some (fail_row app_target_changed now r)
unfolding on_app_env_changed
env_changed_pending rows app env config old now id r here moved (a, e, t, p) =
    let criterias : FailCriterias = record {
      status = some pending;
      app = some app;
      target = some old.target;
      environment = some env;
    } in
    ground (
      arith,
      here,
      moved,
      a,
      e,
      t,
      p,
      find-fail_deployments rows app_target_changed criterias now id,
    )
