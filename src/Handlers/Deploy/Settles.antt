-- ===== src/Handlers/Deploy/Settles.antt =====
-- How the deployment job leaves the table.

use seelf.Prelude.{
  ◌≡◌, ◌≢◌, refl, Option, none, some, List, [], arith, Result, ok, err, Error, message, get_or,
  not_in_pending_state, target_configuration_in_progress, ap, ◌∙◌,
}
use seelf.Pkg.Action.{Time}
use seelf.Pkg.Table.{find, update, find-update, key-find}
use seelf.Domain.Values.{DeploymentId, deployment_id_eq}
use seelf.Domain.Services.{Service}
use seelf.Domain.DeploymentState.{
  DeploymentState, pending, running, failed, succeeded, deployment_status_eq,
}
use seelf.Domain.TargetState.{configuring, target_status_eq}
use seelf.Domain.Target.{Target, check_availability}
use seelf.Domain.Deployment.{Deployment, has_started, has_ended}
use seelf.Store.Targets
use seelf.Store.Targets.{Targets}
use seelf.Store.Deployments.{
  DeploymentRow, Deployments, row_id, get_by_id, deployment_from, write, statement,
}
use seelf.Handlers.Deploy.{deploy_handler, finish, process, lookup_failed, not_yet}

abbrev with_state : DeploymentState → DeploymentRow → DeploymentRow
with_state s r = record r { state = s }

-- The state after the work that began at `now` and ended at `later`.
abbrev pub ended_state :
    DeploymentState → Time → Time → Result (Option (List Service)) → DeploymentState
ended_state s now later (ok services) = record s {
  status = succeeded;
  services = some (get_or services []);
  started_at = some now;
  finished_at = some later;
}
ended_state s now later (err e) = record s {
  status = failed;
  errcode = some (message e);
  started_at = some now;
  finished_at = some later;
}

not_yet_configuring :
    (t : Target)
    → t.state.status ≡ configuring
    → not_yet (ok t) ≡ some target_configuration_in_progress
unfolding check_availability
not_yet_configuring t busy = ground (arith, busy)

module _ {R : Type 0} (engine : Deployments → Option Error)
    (prepare_build fetch : Deployment → Option Error) (registries : Result (List R))
    (deploy : Deployment → Target → List R → Result (Option (List Service))) where
  started_row :
      (rows : Deployments) (r : DeploymentRow) (now : Time)
      → ((ts : Deployments) → engine ts ≡ none)
      → r.state.status ≡ pending
      → write engine rows (has_started (deployment_from r) now).0.events
        ≡ ok (
            update row_id r.id
              (with_state (record r.state { status = running; started_at = some now }))
              rows)
  unfolding write statement has_started deployment_from
  started_row rows r now accepts p =
      let s : DeploymentState = record r.state { status = running; started_at = some now } in
      ground (arith, p, accepts (update row_id r.id (with_state s) rows))

  finish_lem :
      (rows : Deployments) (id : DeploymentId) (r : DeploymentRow)
      (out : Result (Option (List Service))) (s : DeploymentState) (now later : Time)
      → ((ts : Deployments) → engine ts ≡ none)
      → find row_id id rows ≡ some r
      → r.state ≡ record s { status = running; started_at = some now }
      → finish engine prepare_build fetch registries deploy rows id out later
        ≡ (update row_id id (with_state (ended_state s now later out)) rows, none)
  unfolding finish write statement has_ended get_by_id
  finish_lem rows id r out s now later accepts here p =
      let same = key-find row_id id rows r here in
      let quiet = accepts (update row_id r.id (with_state (ended_state s now later out)) rows) in
      finish_case out quiet same
    where
      finish_case :
          (out : Result (Option (List Service)))
          → engine (update row_id r.id (with_state (ended_state s now later out)) rows) ≡ none
          → r.id ≡ id
          → finish engine prepare_build fetch registries deploy rows id out later
            ≡ (update row_id id (with_state (ended_state s now later out)) rows, none)
      finish_case (ok none) quiet same = ground (arith, here, p, same, quiet)
      finish_case (ok (some services)) quiet same = ground (arith, here, p, same, quiet)
      finish_case (err e) quiet same = ground (arith, here, p, same, quiet)

  started_no_error :
      (r : DeploymentRow) (now : Time)
      → r.state.status ≡ pending
      → (has_started (deployment_from r) now).1 ≡ none
  unfolding has_started deployment_from
  started_no_error r now p = ground (arith, p)

  -- A job that may start goes through to the deferred function.
  reaches_finish :
      (rows rows' : Deployments) (targets : Targets) (id : DeploymentId) (r : DeploymentRow)
      (meanwhile : Deployments → Deployments) (now later : Time)
      → find row_id id rows ≡ some r
      → let found = Targets.get_by_id targets r.config.target in
        let d = (has_started (deployment_from r) now).0 in
        (has_started (deployment_from r) now).1 ≡ none
        → lookup_failed found ≡ none
        → not_yet found ≡ none
        → write engine rows d.events ≡ ok rows'
        → deploy_handler engine prepare_build fetch registries deploy rows targets id meanwhile now
            later
          ≡ finish engine prepare_build fetch registries deploy
              (meanwhile rows')
              id
              (process engine prepare_build fetch registries deploy d found)
              later
  unfolding deploy_handler get_by_id
  reaches_finish rows rows' targets id r meanwhile now later here starts known available written =
      ground (arith, here, starts, known, available, written)

  -- The job of a pending deployment whose target is not being configured, with statements that the
  -- engine accepts and a row that nobody else changes meanwhile: the deployment has succeeded with the
  -- services of the work, or it has failed with its error, and the job is not retried.
  pub deploy_settles :
      (rows : Deployments) (targets : Targets) (id : DeploymentId) (r : DeploymentRow)
      (meanwhile : Deployments → Deployments) (now later : Time)
      → ((ts : Deployments) → engine ts ≡ none)
      → ((ts : Deployments) → find row_id id (meanwhile ts) ≡ find row_id id ts)
      → find row_id id rows ≡ some r
      → r.state.status ≡ pending
      → let found = Targets.get_by_id targets r.config.target in
        let d = (has_started (deployment_from r) now).0 in
        let out = process engine prepare_build fetch registries deploy d found in
        let final =
          deploy_handler engine prepare_build fetch registries deploy rows targets id meanwhile now
            later in
        lookup_failed found ≡ none
        → not_yet found ≡ none
        → (final.1 ≡ none)
          × (find row_id id final.0 ≡ some (record r { state = ended_state r.state now later out }))
  deploy_settles rows targets id r meanwhile now later accepts keeps here p known available =
      let found = Targets.get_by_id targets r.config.target in
      let d = (has_started (deployment_from r) now).0 in
      let out = process engine prepare_build fetch registries deploy d found in
      let s : DeploymentState = record r.state { status = running; started_at = some now } in
      let rows' = update row_id r.id (with_state s) rows in
      let first = started_row rows r now accepts p in
      let same = key-find row_id id rows r here in
      let there : find row_id id (meanwhile rows') ≡ some (with_state s r) = ground (
        arith,
        keeps rows',
        find-update row_id r.id id (with_state s) rows (λ x. refl),
        same,
        here,
      ) in
      let last =
        finish_lem (meanwhile rows') id (with_state s r) out r.state now later accepts there refl in
      let after =
        find-update row_id id id (with_state (ended_state r.state now later out)) (meanwhile rows')
          (λ x. refl) in
      let through =
        reaches_finish rows rows' targets id r meanwhile now later here (started_no_error r now p)
          known available first in
      (
        ap (λ x. x.1) (through ∙ last),
        ap (λ x. find row_id id x.0) (through ∙ last) ∙ ground (arith, after, there),
      )

  started_refused :
      (r : DeploymentRow) (now : Time)
      → r.state.status ≢ pending
      → (has_started (deployment_from r) now).1 ≡ some not_in_pending_state
  unfolding has_started deployment_from
  started_refused r now d = ground (arith, d)

  -- The job of a deployment that is no longer pending, as it was cancelled or has begun, leaves the
  -- table alone and is not retried, whatever else holds of its target.
  pub deploy_cancelled :
      (rows : Deployments) (targets : Targets) (id : DeploymentId) (r : DeploymentRow)
      (meanwhile : Deployments → Deployments) (now later : Time)
      → find row_id id rows ≡ some r
      → lookup_failed (Targets.get_by_id targets r.config.target) ≡ none
      → r.state.status ≢ pending
      → deploy_handler engine prepare_build fetch registries deploy rows targets id meanwhile now
          later
        ≡ (rows, none)
  unfolding deploy_handler get_by_id
  deploy_cancelled rows targets id r meanwhile now later here known d =
      ground (arith, here, known, started_refused r now d)

  -- While its target is being configured, the job of a pending deployment leaves the table alone and
  -- returns the error for which it is retried.
  pub deploy_waits :
      (rows : Deployments) (targets : Targets) (id : DeploymentId) (r : DeploymentRow)
      (meanwhile : Deployments → Deployments) (now later : Time) (t : Target)
      → find row_id id rows ≡ some r
      → Targets.get_by_id targets r.config.target ≡ ok t
      → t.state.status ≡ configuring
      → r.state.status ≡ pending
      → deploy_handler engine prepare_build fetch registries deploy rows targets id meanwhile now
          later
        ≡ (rows, some target_configuration_in_progress)
  unfolding deploy_handler get_by_id
  deploy_waits rows targets id r meanwhile now later t here known busy p =
      ground (arith, here, known, not_yet_configuring t busy, started_no_error r now p)
