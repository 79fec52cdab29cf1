-- ===== src/Domain/DeploymentState.antt =====
-- internal/deployment/domain/state.go, its first half: the state of a deployment.
-- A method on a pointer returns the new state and the error (nil is `none`).
use seelf.Prelude.{
  String, Option, none, some, List, if◌then◌else◌, ◌!=◌, Eq, Error, message, not_in_pending_state,
  not_in_running_state, ℕ_eq,
}
use seelf.Pkg.Action.{Time}
use seelf.Domain.Services.{Service}

pub data DeploymentStatus : Type 0 where
  pending running failed succeeded : DeploymentStatus

unfoldable pub DeploymentStatus-discrete : Discrete DeploymentStatus
DeploymentStatus-discrete = hlevel

instance abbrev pub deployment_status_eq : Eq DeploymentStatus
deployment_status_eq = record { dec = DeploymentStatus-discrete }

pub record DeploymentState : Type 0 where
  pub status : DeploymentStatus
  pub errcode : Option String
  pub services : Option (List Service)
  pub started_at : Option Time
  pub finished_at : Option Time

-- The zero value of the struct.
abbrev pub zero_state : DeploymentState
zero_state = record {
  status = pending;
  errcode = none;
  services = none;
  started_at = none;
  finished_at = none;
}

unfoldable pub started : DeploymentState → Time → DeploymentState × Option Error
started s now =
    if s.status != pending
    then (s, some not_in_pending_state)
    else (record s { status = running; started_at = some now }, none)

-- `Failed`
unfoldable pub has_failed : DeploymentState → Error → Time → DeploymentState × Option Error
has_failed s e now =
    if s.status != running
    then (s, some not_in_running_state)
    else (record s { status = failed; errcode = some (message e); finished_at = some now }, none)

-- `Succeeded`
unfoldable pub has_succeeded :
    DeploymentState → List Service → Time → DeploymentState × Option Error
has_succeeded s services now =
    if s.status != running
    then (s, some not_in_running_state)
    else (record s { status = succeeded; services = some services; finished_at = some now }, none)
