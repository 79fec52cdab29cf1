-- ===== src/Scenarios/Apps.antt =====
-- The theorems on deployments.
use seelf.Prelude.{
  ℕ, String, ◌≡◌, ◌≢◌, ◌⊎◌, refl, Bool, true, false, Option, none, some, List, [], ◌∷◌, ok, Error,
  infra, not_found, is_some, get_or, inr, message, text_ne, string_eq, if◌then◌else◌, ◌==◌, arith,
  ap,
}
use seelf.Pkg.Event.{run}
use seelf.Domain.Values.{staging, raw}
use seelf.Domain.DeploymentState.{zero_state}
use seelf.Domain.Deployment.{Deployment, new_deployment, deployment_created}
use seelf.Domain.Deployment.Lifecycle
use seelf.Domain.Deployment.Lifecycle.{
  ◌⟶◌, starts, ends, call_edge, deployment-Inv, IsOver, over_absorbs, start_end,
}
use seelf.Scenarios.{ann, created_app, first_id, staging_config, pending_deployment}

abbrev created_deployment : Deployment
created_deployment = record pending_deployment {
  events = deployment_created first_id staging_config zero_state (raw "compose") ann ∷ [];
}

deployment-Inv_example :
    Lifecycle.Inv (run Lifecycle.call created_deployment (starts 2 ∷ ends none none 3 ∷ []))
unfolding new_deployment seelf.Prelude.String-discrete
deployment-Inv_example =
    deployment-Inv created_app 1 (raw "compose") staging "ann" 1 created_deployment
      (starts 2 ∷ ends none none 3 ∷ []) refl

call_edge_example :
    ((Lifecycle.outcome pending_deployment (starts 2) ≡ none)
      × (pending_deployment.state.status
          ⟶ (Lifecycle.call pending_deployment (starts 2)).state.status))
    ⊎ ((is_some (Lifecycle.outcome pending_deployment (starts 2)) ≡ true)
        × (Lifecycle.call pending_deployment (starts 2) ≡ pending_deployment))
call_edge_example = call_edge pending_deployment (starts 2)
