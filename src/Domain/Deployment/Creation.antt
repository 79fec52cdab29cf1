-- ===== src/Domain/Deployment/Creation.antt =====
-- When a deployment can be created, redeployed or promoted, and what it then is.
use seelf.Prelude.{
  ℕ, String, ◌≡◌, ◌≢◌, Bool, true, false, arith, is_some, Result, ok, err, if◌then◌else◌, ◌==◌,
  string_eq, ◌&&◌, ◌||◌, not,
}
use seelf.Pkg.Action.{Time}
use seelf.Domain.Values.{Environment, production, staging, SourceData, need_version_control}
use seelf.Domain.DeploymentState.{zero_state}
use seelf.Domain.App.{App}
use seelf.Domain.Deployment.{Deployment, new_deployment, redeploy, promote}

-- The application takes deployments from this source on this environment.
abbrev pub accepts : App → SourceData → Environment → Bool
accepts a meta env =
    not (is_some a.cleanup_requested)
    && (not (need_version_control meta) || is_some a.version_control)
    && (env == production || env == staging)

abbrev pub succeeds {ℓ} : {A : Type ℓ} → Result A → Bool
succeeds (ok _) = true
succeeds (err _) = false

-- A deployment is created exactly when the application is not being removed, has the version
-- control that the source needs, and knows the environment.
pub new_deployment_iff :
    (a : App) (n : ℕ) (meta : SourceData) (env : Environment) (by : String) (now : Time)
    → succeeds (new_deployment a n meta env by now) ≡ accepts a meta env
unfolding new_deployment
new_deployment_iff a n meta env by now = ground arith

-- A created deployment is pending, with the given number under the application, and its
-- configuration is the application's for that environment at this moment.
pub new_deployment_snapshot :
    (a : App) (n : ℕ) (meta : SourceData) (env : Environment) (by : String) (now : Time)
    (d : Deployment)
    → new_deployment a n meta env by now ≡ ok d
    → let conf = if env == production then a.production else a.staging in
      (d.state ≡ zero_state)
      × (d.id ≡ record { app_id = a.id; deployment_number = n })
      × (d.config.environment ≡ env)
      × (d.config.target ≡ conf.target)
      × (d.config.vars ≡ conf.vars)
unfolding new_deployment
new_deployment_snapshot a n meta env by now d h =
    (ground arith, ground arith, ground arith, ground arith, ground arith)

-- A promotion that succeeds makes a new production deployment of the same source, from a deployment
-- of this application that was not on production.
pub promote_lem :
    (a : App) (source : Deployment) (n : ℕ) (by : String) (now : Time) (d : Deployment)
    → promote a source n by now ≡ ok d
    → (source.config.environment ≢ production)
      × (source.id.app_id ≡ a.id)
      × (d.config.environment ≡ production)
      × (d.source ≡ source.source)
      × (d.id.deployment_number ≡ n)
      × (d.config.target ≡ a.production.target)
unfolding promote
promote_lem a source n by now d h = ground arith

-- A redeployment that succeeds makes a new deployment of the same source on the same environment,
-- with the application's configuration of today.
pub redeploy_lem :
    (a : App) (source : Deployment) (n : ℕ) (by : String) (now : Time) (d : Deployment)
    → redeploy a source n by now ≡ ok d
    → (source.id.app_id ≡ a.id)
      × (d.config.environment ≡ source.config.environment)
      × (d.source ≡ source.source)
      × (d.id.deployment_number ≡ n)
      × (d.config.target ≡ (
          if source.config.environment == production
          then a.production.target
          else a.staging.target))
unfolding redeploy
redeploy_lem a source n by now d h = ground arith
