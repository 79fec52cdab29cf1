-- ===== src/Store/Deployments.antt =====
-- internal/deployment/infra/sqlite/deployments.go and `DeploymentFrom` of the domain: the table of
-- deployments. The columns `config_*` and `state_*` are kept together.
pub mod Numbers
pub mod Failing
pub mod Ongoing
use seelf.Prelude.{
  ℕ, String, ◌≡◌, Bool, true, false, Option, none, some, List, [], ◌∷◌, ◌++◌, if◌then◌else◌, ◌&&◌,
  ◌||◌, ◌==◌, string_eq, suc, Result, ok, err, Error, not_found, any, leb, message, get_or,
}
use seelf.Pkg.Action.{Action, Time, TimeInterval}
use seelf.Pkg.Table.{find, update}
use seelf.Domain.Values.{Environment, DeploymentId, deployment_id_eq, SourceData}
use seelf.Domain.DeploymentState.{
  DeploymentState, DeploymentStatus, pending, running, failed, succeeded, deployment_status_eq,
}
use seelf.Domain.Deployment.{
  Deployment, DeploymentConfig, DeploymentEvent, deployment_created, deployment_state_changed,
}

pub record DeploymentRow : Type 0 where
  pub id : DeploymentId
  pub config : DeploymentConfig
  pub state : DeploymentState
  pub source : SourceData
  pub requested_at : Time
  pub requested_by : String

abbrev pub Deployments : Type 0
Deployments = List DeploymentRow

abbrev pub row_id : DeploymentRow → DeploymentId
row_id r = r.id

unfoldable pub deployment_from : DeploymentRow → Deployment
deployment_from r = record {
  id = r.id;
  config = r.config;
  state = r.state;
  source = r.source;
  requested = record { by = r.requested_by; at = r.requested_at };
  events = [];
}

-- `GetByID`
unfoldable pub get_by_id : Deployments → DeploymentId → Result Deployment
unfolding deployment_from find
get_by_id rows id = elim (find row_id id rows) [
  | none ↦ err not_found
  | some r ↦ ok (deployment_from r)
]

-- `ORDER BY deployment_number DESC LIMIT 1`
unfoldable pub last_row : String → Environment → Deployments → Option DeploymentRow
last_row app env [] = none
last_row app env (r ∷ rs) =
    let rest = last_row app env rs in
    if r.id.app_id == app && r.config.environment == env
    then elim rest [
      | none ↦ some r
      | some k ↦ if leb k.id.deployment_number r.id.deployment_number then some r else some k
    ]
    else rest

-- `GetLastDeployment`
unfoldable pub get_last_deployment : Deployments → String → Environment → Result Deployment
unfolding last_row deployment_from
get_last_deployment rows app env = elim (last_row app env rows) [
  | none ↦ err not_found
  | some r ↦ ok (deployment_from r)
]

unfoldable pub count_of : String → Deployments → ℕ
count_of app [] = 0
count_of app (r ∷ rs) = let rest = count_of app rs in if r.id.app_id == app then suc rest else rest

-- `GetNextDeploymentNumber`
unfoldable pub get_next_deployment_number : Deployments → String → ℕ
unfolding count_of
get_next_deployment_number rows app = suc (count_of app rows)

abbrev pub is_ongoing : DeploymentStatus → Bool
is_ongoing s = s == running || s == pending

-- `HasRunningOrPendingDeploymentsOnTarget`
unfoldable pub has_ongoing_on_target : Deployments → String → Bool
has_ongoing_on_target rows target =
    any (λ r. r.config.target == target && is_ongoing r.state.status) rows

abbrev pub is_on : String → String → Environment → DeploymentRow → Bool
is_on app target env r =
    (r.id.app_id == app && r.config.target == target) && r.config.environment == env

-- `HasDeploymentsOnAppTargetEnv`: is one running or pending, and has one succeeded in the interval?
unfoldable pub has_deployments_on_app_target_env :
    Deployments → String → String → Environment → TimeInterval → Bool × Bool
has_deployments_on_app_target_env rows app target env interval = (
  any (λ r. is_on app target env r && is_ongoing r.state.status) rows,
  any
      (λ r.
        (is_on app target env r && r.state.status == succeeded)
        && (leb interval.from r.requested_at && leb r.requested_at interval.to))
      rows,
)

pub record FailCriterias : Type 0 where
  pub status : Option DeploymentStatus
  pub target : Option String
  pub app : Option String
  pub environment : Option Environment

-- `builder.MaybeValue`: a criterion that is not set asks for nothing.
abbrev pub meets : FailCriterias → DeploymentRow → Bool
meets c r =
    ((elim c.app [ none ↦ true | some app ↦ r.id.app_id == app ])
      && (elim c.target [ none ↦ true | some target ↦ r.config.target == target ]))
    && ((elim c.status [ none ↦ true | some status ↦ r.state.status == status ])
        && (elim c.environment [ none ↦ true | some env ↦ r.config.environment == env ]))

abbrev pub fail_row : Error → Time → DeploymentRow → DeploymentRow
fail_row reason now r = record r {
  state = record r.state {
    status = failed;
    errcode = some (message reason);
    started_at = some now;
    finished_at = some now;
  };
}

-- `FailDeployments`
unfoldable pub fail_deployments : Deployments → Error → FailCriterias → Time → Deployments
fail_deployments [] reason criterias now = []
fail_deployments (r ∷ rs) reason criterias now =
    let rest = fail_deployments rs reason criterias now in
    (if meets criterias r then fail_row reason now r else r) ∷ rest

-- The statement that `Write` makes for an event.
unfoldable pub statement : Deployments → DeploymentEvent → Deployments
statement rows (deployment_created id config state source requested) =
    rows
    ++ (record {
      id = id;
      config = config;
      state = state;
      source = source;
      requested_at = requested.at;
      requested_by = requested.by;
    }
        ∷ [])
statement rows (deployment_state_changed id config state) =
    update row_id id (λ r. record r { state = state }) rows

-- The writing half of `WriteAndDispatch`, whose transaction is rolled back on an error. `engine` is
-- the answer to a statement, `none` if it was accepted.
module _ (engine : Deployments → Option Error) where
  unfoldable pub write : Deployments → List DeploymentEvent → Result Deployments
  unfolding statement
  write rows [] = ok rows
  write rows (e ∷ es) =
      let next = statement rows e in
      let rest = write next es in elim (engine next) [ some x ↦ err x | none ↦ rest ]
