-- ===== src/Store/Deployments/Failing.antt =====
-- `FailDeployments`, as the handlers of fail_pending_deployments use it.
use seelf.Prelude.{◌≡◌, refl, [], ◌∷◌, arith, string_eq, Error, if◌then◌else◌}
use mathlib.Core.Option
use seelf.Pkg.Action.{Time}
use seelf.Pkg.Table.{find}
use seelf.Domain.Values.{DeploymentId, deployment_id_eq}
use seelf.Domain.DeploymentState.{deployment_status_eq}
use seelf.Store.Deployments.{Deployments, FailCriterias, row_id, meets, fail_row, fail_deployments}

-- The deployments that meet the criteria fail with the reason, the others stay as they are.
pub find-fail_deployments :
    (rows : Deployments) (reason : Error) (c : FailCriterias) (now : Time) (id : DeploymentId)
    → find row_id id (fail_deployments rows reason c now)
      ≡ Option.map (λ r. if meets c r then fail_row reason now r else r) (find row_id id rows)
unfolding find fail_deployments
find-fail_deployments [] reason c now id = refl
find-fail_deployments (r ∷ rows) reason c now id =
    ground (arith, find-fail_deployments rows reason c now id)
