-- ===== src/Scenarios/Working.antt =====
-- The theorems on the handlers that queue, cancel and clean up.
use seelf.Prelude.{
  ℕ, String, ◌≡◌, ◌≢◌, refl, Bool, true, false, Option, none, some, List, [], ◌∷◌, arith, ok, err,
  Error, infra, Result, string_eq, any, ◌&&◌, ◌==◌, is_some, All, text_ne, ◌≤◌, Any, ◌↔◌, ◌⊎◌,
}
use seelf.Pkg.Table.{find}
use seelf.Domain.Values.{raw, SourceData, deployment_id_eq, staging}
use seelf.Domain.DeploymentState.{
  DeploymentState, zero_state, pending, running, failed, succeeded, deployment_status_eq,
}
use seelf.Domain.TargetState.{configuring, ready}
use seelf.Domain.App.{App}
use seelf.Domain.Target.{Target, CleanupStrategy, default}
use seelf.Store.Targets.{Targets, target_from, get_by_id}
use seelf.Store.Targets.RoundTrip.{row_of}
use seelf.Store.Deployments.{DeploymentRow, Deployments, row_id}
use seelf.Store.Deployments.Ongoing.{Over, NotOn, SucceededOn}
use seelf.Store.Deployments.Numbers.{Numbered}
use seelf.Handlers.Queueing.{queue_deployment_handler, Queues, queue_deployment-Queues}
use seelf.Handlers.FailPending.{on_target_cleanup_requested}
use seelf.Handlers.Cleanup.{
  cleanup_target_handler, cleanup_app_handler, cleanup_target_safe, cleanup_app_safe,
  cleanup_target_progress, CleanedUp,
}
use seelf.Scenarios.{first_row, ready_target, frozen_target, created_app}

abbrev accepting : Deployments → Option Error
accepting rows = none

abbrev prepares : App → Result SourceData
prepares a = ok (raw "compose")

abbrev second_row : DeploymentRow
second_row = record first_row {
  id = record { app_id = "a1"; deployment_number = 2 };
  requested_at = 4;
}

abbrev queued : Deployments × ℕ
queued = (first_row ∷ second_row ∷ [], 2)

first_row-Numbered : Numbered (first_row ∷ [])
unfolding seelf.Store.Deployments.count_of seelf.Prelude.String-discrete
first_row-Numbered = (omega arith, tt)

queue_deployment-Queues_example : Queues (first_row ∷ []) created_app queued
unfolding queue_deployment_handler seelf.Prelude.String-discrete
queue_deployment-Queues_example =
    queue_deployment-Queues accepting (first_row ∷ []) created_app "ann" 4 queued "staging" prepares
      first_row-Numbered refl

abbrev answers : Target → CleanupStrategy → Option Error
answers t s = none

abbrev succeeded_row : DeploymentRow
succeeded_row = record first_row {
  state = record zero_state {
    status = succeeded;
    services = some [];
    started_at = some 2;
    finished_at = some 3;
  };
}

cleanup_target_safe_example :
    ((cleanup_target_handler answers (row_of frozen_target ∷ []) (succeeded_row ∷ []) "t1").0
      ≡ (frozen_target, default) ∷ [])
    ↔ ((get_by_id (row_of frozen_target ∷ []) "t1" ≡ ok frozen_target)
        × All (λ r. (r.config.target ≢ "t1") ⊎ Over r.state.status) (succeeded_row ∷ [])
        × CleanedUp frozen_target default)
cleanup_target_safe_example =
    cleanup_target_safe answers (row_of frozen_target ∷ []) (succeeded_row ∷ []) "t1" frozen_target
      default

-- Both sides hold there.
target_cleaned_up :
    (cleanup_target_handler answers (row_of frozen_target ∷ []) (succeeded_row ∷ []) "t1").0
    ≡ (frozen_target, default) ∷ []
unfolding cleanup_target_handler seelf.Prelude.String-discrete any
    seelf.Domain.DeploymentState.DeploymentStatus-discrete
target_cleaned_up = refl

cleanup_app_safe_example :
    ((cleanup_app_handler answers
        (row_of ready_target ∷ [])
        (succeeded_row ∷ [])
        "a1"
        "t1"
        staging
        1
        9).0
      ≡ (ready_target, default) ∷ [])
    ↔ ((get_by_id (row_of ready_target ∷ []) "t1" ≡ ok ready_target)
        × (ready_target.state.status ≡ ready)
        × (ready_target.cleanup_requested ≡ none)
        × (1 ≤ 9)
        × All (λ r. NotOn "a1" "t1" staging r ⊎ Over r.state.status) (succeeded_row ∷ [])
        × Any (SucceededOn "a1" "t1" staging 1 9) (succeeded_row ∷ []))
cleanup_app_safe_example =
    cleanup_app_safe answers (row_of ready_target ∷ []) (succeeded_row ∷ []) "a1" "t1" staging 1 9
      ready_target

app_cleaned_up :
    (cleanup_app_handler answers
      (row_of ready_target ∷ [])
      (succeeded_row ∷ [])
      "a1"
      "t1"
      staging
      1
      9).0
    ≡ (ready_target, default) ∷ []
unfolding cleanup_app_handler seelf.Prelude.String-discrete any
    seelf.Domain.DeploymentState.DeploymentStatus-discrete
app_cleaned_up = refl

cleanup_target_progress_example :
    cleanup_target_handler answers
      (row_of frozen_target ∷ [])
      (on_target_cleanup_requested (first_row ∷ []) "t1" 9)
      "t1"
    ≡ ((frozen_target, default) ∷ [], none)
unfolding find seelf.Prelude.String-discrete any
    seelf.Domain.DeploymentState.DeploymentStatus-discrete target_from
    seelf.Domain.TargetState.TargetStatus-discrete
cleanup_target_progress_example =
    cleanup_target_progress answers (row_of frozen_target ∷ []) (first_row ∷ []) "t1"
      (row_of frozen_target) 9 refl refl (λ h. ground (arith, h)) refl

abbrev quiet : Targets → Option Error
quiet rows = none
