-- ===== src/Scenarios/Deploying.antt =====
-- The theorems on the jobs that deploy, configure and clean up, at one target and one deployment.
use seelf.Prelude.{
  ◌≢◌, text_ne, ℕ, String, ◌≡◌, ◌≢◌, refl, Bool, true, false, Option, none, some, List, [], ◌∷◌,
  arith, ok, err, Error, infra, Result, string_eq, any, ◌&&◌, ◌==◌, is_some,
  target_configuration_in_progress,
}
use seelf.Pkg.Table.{find}
use seelf.Domain.Values.{staging, raw, SourceData, DeploymentId, deployment_id_eq}
use seelf.Domain.Services.{Service}
use seelf.Domain.DeploymentState.{zero_state, deployment_status_eq}
use seelf.Domain.TargetState.{
  configuring, TargetState, configuring, failed as target_failed, ready, is_outdated,
}
use seelf.Domain.Target.{un_expose_entrypoints, Target, CleanupStrategy, default, skip, configured}
use seelf.Domain.Deployment.{Deployment}
use seelf.Domain.Entrypoints.{TargetEntrypointsAssigned}
use seelf.Domain.Target.Calls.{Inv, empty-IsClean}
use seelf.Store.Targets
use seelf.Store.Targets.{TargetRow, Targets, target_from}
use seelf.Store.Targets.RoundTrip.{row_of, settled}
use seelf.Store.Deployments.{Deployments, row_id}
use seelf.Handlers.Deploy.{deploy_handler, process}
use seelf.Handlers.Deploy.Settles.{ended_state, deploy_settles}
use seelf.Handlers.Configure.{configure_target_handler, configure_marks}
use seelf.Scenarios.{first_row, first_id, ready_target, fresh_target, db_service}

abbrev accepting : Deployments → Option Error
accepting rows = none

abbrev no_error : Deployment → Option Error
no_error d = none

abbrev deploys : Deployment → Target → List String → Result (Option (List Service))
deploys d t registries = ok (some (db_service ∷ []))

abbrev untouched : Deployments → Deployments
untouched rows = rows

abbrev job : Deployments × Option Error
job =
    deploy_handler accepting no_error no_error (ok []) deploys (first_row ∷ [])
      (row_of ready_target ∷ []) first_id untouched 2 5

deploy_settles_example :
    (job.1 ≡ none)
    × (find row_id first_id job.0
        ≡ some
            (record first_row { state = ended_state zero_state 2 5 (ok (some (db_service ∷ []))) }))
unfolding find seelf.Domain.Values.DeploymentId-discrete seelf.Prelude.String-discrete
    seelf.Prelude.ℕ_discrete Targets.get_by_id seelf.Domain.Target.check_availability
    seelf.Domain.TargetState.TargetStatus-discrete process
deploy_settles_example =
    deploy_settles accepting no_error no_error (ok []) deploys (first_row ∷ [])
      (row_of ready_target ∷ []) first_id first_row untouched 2 5 (λ ts. refl) (λ ts. refl) refl
      refl refl refl

abbrev quiet : Targets → Option Error
quiet rows = none

abbrev sets_up : Target → Result TargetEntrypointsAssigned
sets_up t = ok []

abbrev still : Targets → Targets
still rows = rows

fresh-Inv : Inv (settled fresh_target)
fresh-Inv = record {
  frozen_settled = λ h. absurd (ground (arith, h));
  ready_version = λ h. ground (arith, h);
  failed_cause = λ h. ground (arith, h);
  fine_no_cause = λ h. refl;
  clean = empty-IsClean;
}

abbrev configuration : Targets × Option Error
configuration = configure_target_handler quiet sets_up (row_of fresh_target ∷ []) "t1" 1 still

configure_marks_example :
    (configuration.1 ≡ none)
    × (Targets.get_by_id configuration.0 "t1"
        ≡ ok (settled (configured (settled fresh_target) 1 [] none)))
unfolding find seelf.Prelude.String-discrete is_outdated seelf.Prelude.ℕ_discrete
    seelf.Domain.TargetState.TargetStatus-discrete
configure_marks_example =
    configure_marks quiet sets_up (row_of fresh_target ∷ []) (row_of fresh_target) 1 fresh_target
      still fresh-Inv (λ ts. refl) refl refl refl
