-- ===== src/Handlers/Queueing.antt =====
-- The handlers of app/queue_deployment, app/redeploy and app/promote. The application that the reader
-- gives and the source's answer are arguments. A field error of `validate.Struct` is its error.
use seelf.Prelude.{
  ℕ, String, ◌≡◌, refl, Option, none, some, [], ◌∷◌, ◌++◌, arith, Result, ok, err, Error, ◌>>=◌,
  Result-cases, inl, inr, is_not_found, subst, sym, if◌then◌else◌, string_eq,
}
use seelf.Pkg.Action.{Time}
use seelf.Pkg.Table.{find, find-append}
use seelf.Domain.Values.{
  Environment, environment_from, production, DeploymentId, deployment_id_eq, SourceData,
}
use seelf.Domain.DeploymentState.{zero_state}
use seelf.Domain.App.{App}
use seelf.Domain.Deployment.{
  Deployment, DeploymentEvent, deployment_created, new_deployment, redeploy, promote,
}
use seelf.Store.Deployments.{
  DeploymentRow, Deployments, row_id, get_by_id, get_last_deployment, get_next_deployment_number,
  write, statement,
}
use seelf.Store.Deployments.Numbers.{Numbered, next-Numbered, next_unused}

-- The end of the three commands: write the new deployment, and return its number.
abbrev written : (Deployments → Option Error) → Deployments → Deployment → Result (Deployments × ℕ)
written engine rows d = do rows' ← write engine rows d.events; ok (rows', d.id.deployment_number)

module _ (engine : Deployments → Option Error) (rows : Deployments) (app : Result App) (by : String)
    (now : Time) where
  unfoldable pub queue_deployment_handler :
      String → (App → Result SourceData) → Result (Deployments × ℕ)
  unfolding environment_from get_next_deployment_number new_deployment write
  queue_deployment_handler environment prepare = do
    env ← environment_from environment
    a ← app
    meta ← prepare a
    d ← new_deployment a (get_next_deployment_number rows a.id) meta env by now
    written engine rows d

  unfoldable pub redeploy_handler : ℕ → Result (Deployments × ℕ)
  unfolding get_by_id get_next_deployment_number redeploy write
  redeploy_handler number = do
    a ← app
    source ← get_by_id rows (record { app_id = a.id; deployment_number = number })
    d ← redeploy a source (get_next_deployment_number rows a.id) by now
    written engine rows d

  unfoldable pub promote_handler : ℕ → Result (Deployments × ℕ)
  unfolding get_by_id get_next_deployment_number promote write
  promote_handler number = do
    a ← app
    source ← get_by_id rows (record { app_id = a.id; deployment_number = number })
    d ← promote a source (get_next_deployment_number rows a.id) by now
    written engine rows d

  -- `OnAppEnvChangedHandler` of app/redeploy: the last deployment of the environment again, if there
  -- is one and it can be.
  unfoldable pub redeploy_last : String → Environment → Result Deployments
  unfolding get_last_deployment get_next_deployment_number redeploy write
  redeploy_last app_id env = elim (get_last_deployment rows app_id env) [
    | err e ↦ if is_not_found e then ok rows else err e
    | ok source ↦ do
      a ← app
      elim (redeploy a source (get_next_deployment_number rows a.id) by now) [
        | err e ↦ ok rows
        | ok d ↦ write engine rows d.events
      ]
  ]

-- What a command that queues a deployment has done: the deployment is new under the next number of
-- its application, it is pending, and the table still has its numbers.
abbrev pub Queues : Deployments → App → Deployments × ℕ → Type 0
Queues rows a (rows', n) =
    let id : DeploymentId = record { app_id = a.id; deployment_number = n } in
    (n ≡ get_next_deployment_number rows a.id)
    × (find row_id id rows ≡ none)
    × ((r : DeploymentRow) × (find row_id id rows' ≡ some r) × (r.state ≡ zero_state))
    × Numbered rows'

created_row : Deployment → DeploymentRow
created_row d = record {
  id = d.id;
  config = d.config;
  state = d.state;
  source = d.source;
  requested_at = d.requested.at;
  requested_by = d.requested.by;
}

created_event : Deployment → DeploymentEvent
created_event d = deployment_created d.id d.config d.state d.source d.requested

-- A created deployment is described by the one event that it raised.
new_deployment-created :
    (a : App) (n : ℕ) (meta : SourceData) (env : Environment) (by : String) (now : Time)
    (d : Deployment)
    → new_deployment a n meta env by now ≡ ok d
    → (d.events ≡ created_event d ∷ [])
      × (d.state ≡ zero_state)
      × (d.id ≡ record { app_id = a.id; deployment_number = n })
unfolding new_deployment created_event
new_deployment-created a n meta env by now d h = (ground arith, ground arith, ground arith)

written-row :
    (engine : Deployments → Option Error) (rows : Deployments) (d : Deployment)
    (out : Deployments × ℕ)
    → d.events ≡ created_event d ∷ []
    → written engine rows d ≡ ok out
    → (out.0 ≡ rows ++ (created_row d ∷ [])) × (out.1 ≡ d.id.deployment_number)
unfolding write statement created_event created_row
written-row engine rows d (rows', n) e w = ground (arith, e, w)

created-Queues :
    (engine : Deployments → Option Error) (rows : Deployments) (a : App) (meta : SourceData)
    (env : Environment) (by : String) (now : Time) (d : Deployment) (out : Deployments × ℕ)
    → Numbered rows
    → new_deployment a (get_next_deployment_number rows a.id) meta env by now ≡ ok d
    → written engine rows d ≡ ok out
    → Queues rows a out
unfolding created_row
created-Queues engine rows a meta env by now d (rows', n) num made w =
    let (events, state, id) =
      new_deployment-created a (get_next_deployment_number rows a.id) meta env by now d made in
    let (table, number) = written-row engine rows d (rows', n) events w in
    let unused =
      next_unused rows
        (record { app_id = a.id; deployment_number = get_next_deployment_number rows a.id }) num
        refl in
    let added = find-append row_id d.id rows (created_row d) in
    (
      ground (arith, number, id),
      ground (arith, number, id, unused),
      (created_row d, ground (arith, table, number, id, unused, added), ground (arith, state)),
      subst Numbered (sym table) (next-Numbered rows (created_row d) num (ground (arith, id))),
    )

-- A command that queues a deployment and succeeds has queued one pending deployment, under a number
-- that was free.
pub queue_deployment-Queues :
    (engine : Deployments → Option Error) (rows : Deployments) (a : App) (by : String) (now : Time)
    (out : Deployments × ℕ) (environment : String) (prepare : App → Result SourceData)
    → Numbered rows
    → queue_deployment_handler engine rows (ok a) by now environment prepare ≡ ok out
    → Queues rows a out
unfolding queue_deployment_handler
queue_deployment-Queues engine rows a by now out environment prepare num h =
    elim (Result-cases (environment_from environment)) [
      | inr (e, bad) ↦ absurd (ground (arith, bad, h))
      | inl (env, good) ↦ elim (Result-cases (prepare a)) [
        | inr (e, bad) ↦ absurd (ground (arith, good, bad, h))
        | inl (meta, prepared) ↦
            elim (Result-cases
              (new_deployment a (get_next_deployment_number rows a.id) meta env by now)) [
                | inr (e, bad) ↦ absurd (ground (arith, good, prepared, bad, h))
                | inl (d, made) ↦
                    created-Queues engine rows a meta env by now d out num made
                      (ground (arith, good, prepared, made, h))
              ]
      ]
    ]

-- So has a redeployment that succeeds.
pub redeploy-Queues :
    (engine : Deployments → Option Error) (rows : Deployments) (a : App) (by : String) (now : Time)
    (out : Deployments × ℕ) (number : ℕ)
    → Numbered rows
    → redeploy_handler engine rows (ok a) by now number ≡ ok out
    → Queues rows a out
unfolding redeploy_handler redeploy
redeploy-Queues engine rows a by now out number num h =
    elim (Result-cases (get_by_id rows (record { app_id = a.id; deployment_number = number }))) [
      | inr (e, bad) ↦ absurd (ground (arith, bad, h))
      | inl (source, found) ↦
          let next = get_next_deployment_number rows a.id in
          elim (Result-cases (redeploy a source next by now)) [
            | inr (e, bad) ↦ absurd (ground (arith, found, bad, h))
            | inl (d, made) ↦
                created-Queues engine rows a source.source source.config.environment by now d out
                  num (ground (arith, made)) (ground (arith, found, made, h))
          ]
    ]

-- So has a promotion that succeeds.
pub promote-Queues :
    (engine : Deployments → Option Error) (rows : Deployments) (a : App) (by : String) (now : Time)
    (out : Deployments × ℕ) (number : ℕ)
    → Numbered rows
    → promote_handler engine rows (ok a) by now number ≡ ok out
    → Queues rows a out
unfolding promote_handler promote
promote-Queues engine rows a by now out number num h =
    elim (Result-cases (get_by_id rows (record { app_id = a.id; deployment_number = number }))) [
      | inr (e, bad) ↦ absurd (ground (arith, bad, h))
      | inl (source, found) ↦
          let next = get_next_deployment_number rows a.id in
          elim (Result-cases (promote a source next by now)) [
            | inr (e, bad) ↦ absurd (ground (arith, found, bad, h))
            | inl (d, made) ↦
                created-Queues engine rows a source.source production by now d out num
                  (ground (arith, made)) (ground (arith, found, made, h))
          ]
    ]
