-- ===== src/Handlers/Deploy.antt =====
-- app/deploy: the job that processes a deployment. What the artifact manager, the source, the
-- registries' reader and the provider answer are arguments; `meanwhile` is what the rest of the
-- program does to the table between the two writes of the job.
pub mod Settles
use seelf.Prelude.{
  ℕ, String, ◌≡◌, Bool, true, false, Option, none, some, List, [], ◌∷◌, Result, ok, err, Error,
  ◌>>=◌, is_not_found, if◌then◌else◌, ◌&&◌, not, target_configuration_in_progress, is_in_progress,
}
use seelf.Pkg.Action.{Time}
use seelf.Domain.Values.{DeploymentId, deployment_id_eq}
use seelf.Domain.Services.{Service}
use seelf.Domain.Target.{Target, check_availability}
use seelf.Domain.Deployment.{Deployment, has_started, has_ended}
use seelf.Store.Targets
use seelf.Store.Targets.{Targets}
use seelf.Store.Deployments.{Deployments, get_by_id, write}

-- The error of a call that returns nothing else.
abbrev pub check : Option Error → Result {0} Unit
check none = ok tt
check (some e) = err e

abbrev pub services_of : Result (Option (List Service)) → Option (List Service)
services_of (ok services) = services
services_of (err e) = none

abbrev pub error_of : Result (Option (List Service)) → Option Error
error_of (ok services) = none
error_of (err e) = some e

-- The target of the deployment; only its absence lets the job go on.
abbrev pub lookup_failed : Result Target → Option Error
lookup_failed (ok t) = none
lookup_failed (err e) = if is_not_found e then none else some e

-- A target that is being configured, for which the job is retried later.
abbrev pub not_yet : Result Target → Option Error
not_yet (ok t) = elim (check_availability t) [
  | none ↦ none
  | some e ↦ if is_in_progress e then some e else none
]
not_yet (err e) = none

module _ {R : Type 0} (engine : Deployments → Option Error)
    (prepare_build fetch : Deployment → Option Error) (registries : Result (List R))
    (deploy : Deployment → Target → List R → Result (Option (List Service))) where
  -- The work between the two writes, which ends in services or in an error.
  unfoldable pub process : Deployment → Result Target → Result (Option (List Service))
  unfolding check_availability
  process d found = do
    _ ← check (prepare_build d)
    target ← found
    _ ← check (check_availability target)
    _ ← check (fetch d)
    rs ← registries
    deploy d target rs

  -- The deferred function: end a fresh version of the deployment.
  unfoldable pub finish :
      Deployments
      → DeploymentId
      → Result (Option (List Service))
      → Time
      → Deployments × Option Error
  unfolding get_by_id has_ended write
  finish rows id out now = elim (get_by_id rows id) [
    | err e ↦ (rows, if is_not_found e then none else some e)
    | ok d ↦
        let (d', refused) = has_ended d (services_of out) (error_of out) now in
        elim refused [
          | some e ↦ (rows, none)
          | none ↦ elim (write engine rows d'.events) [
            | err e ↦ (rows, some e)
            | ok rows' ↦ (rows', none)
          ]
        ]
  ]

  -- `Handler`; the jobs scheduler retries it if there is an error.
  unfoldable pub deploy_handler :
      Deployments
      → Targets
      → DeploymentId
      → (Deployments → Deployments)
      → Time
      → Time
      → Deployments × Option Error
  unfolding get_by_id Targets.get_by_id has_started check_availability process finish write
  deploy_handler rows targets id meanwhile now later = elim (get_by_id rows id) [
    | err e ↦ (rows, if is_not_found e then none else some e)
    | ok d ↦
        let found = Targets.get_by_id targets d.config.target in
        let (d', refused) = has_started d now in
        elim (lookup_failed found) [
          | some e ↦ (rows, some e)
          | none ↦ elim refused [
            | some e ↦ (rows, none)
            | none ↦ elim (not_yet found) [
              | some e ↦ (rows, some e)
              | none ↦ elim (write engine rows d'.events) [
                | err e ↦ (rows, some e)
                | ok rows' ↦ finish (meanwhile rows') id (process d' found) later
              ]
            ]
          ]
        ]
  ]
