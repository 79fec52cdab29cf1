-- ===== src/Handlers/Cleanup.antt =====
-- app/cleanup_target, app/cleanup_app and app/delete_target. A cleanup handler returns the calls that
-- it makes on the provider, with the target and the strategy, and its error; the provider's own
-- answers are arguments.
use seelf.Prelude.{
  String, ◌≡◌, ◌≢◌, true, false, Option, none, some, List, [], ◌∷◌, arith, ok, err, Error,
  is_not_found, string_eq, if◌then◌else◌, is_some, any, ◌&&◌, ◌==◌, ◌↔◌, ◌⊎◌, All, Any, ◌≤◌,
}
use seelf.Pkg.Action.{Time, new_time_interval}
use seelf.Pkg.Table.{find, find-delete, key-find}
use seelf.Domain.Values.{Environment}
use seelf.Domain.TargetState.{configuring, ready, failed, target_status_eq}
use seelf.Domain.DeploymentState.{running, deployment_status_eq}
use seelf.Domain.Target.{
  Target, CleanupStrategy, default, skip, cleanup_strategy, app_cleanup_strategy, delete_target,
}
use seelf.Store.Targets.{TargetRow, Targets, row_id, get_by_id, target_from, write, statement}
use seelf.Store.Deployments.{Deployments, has_ongoing_on_target, has_deployments_on_app_target_env}
use seelf.Store.Deployments.Ongoing.{
  Over, NotOn, SucceededOn, on_target-Over, on_app-Over, on_app_success,
}
use seelf.Handlers.FailPending.{on_target_cleanup_requested, ongoing_running}

-- A call on the provider.
abbrev pub Asked : Type 0
Asked = List (Target × CleanupStrategy)

-- The states in which a target may be cleaned up, with the strategy.
abbrev pub CleanedUp : Target → CleanupStrategy → Type 0
CleanedUp t s =
    ((t.state.status ≡ ready) × (s ≡ default))
    ⊎ ((t.state.status ≡ failed)
        × (s ≡ skip)
        × ((t.state.last_ready_version ≡ none) ⊎ (is_some t.cleanup_requested ≡ true)))

module _ (provider : Target → CleanupStrategy → Option Error) where
  unfoldable pub cleanup_target_handler : Targets → Deployments → String → Asked × Option Error
  unfolding get_by_id has_ongoing_on_target cleanup_strategy
  cleanup_target_handler targets deployments id = elim (get_by_id targets id) [
    | err e ↦ ([], if is_not_found e then none else some e)
    | ok t ↦ elim (cleanup_strategy t (has_ongoing_on_target deployments t.id)) [
      | err e ↦ ([], some e)
      | ok strategy ↦ ((t, strategy) ∷ [], provider t strategy)
    ]
  ]

  unfoldable pub cleanup_app_handler :
      Targets → Deployments → String → String → Environment → Time → Time → Asked × Option Error
  unfolding get_by_id new_time_interval has_deployments_on_app_target_env app_cleanup_strategy
  cleanup_app_handler targets deployments app target env from to = elim (get_by_id targets target) [
    | err e ↦ ([], if is_not_found e then none else some e)
    | ok t ↦ elim (new_time_interval from to) [
      | err e ↦ ([], some e)
      | ok interval ↦
          let (ongoing, successful) =
            has_deployments_on_app_target_env deployments app t.id env interval in
          elim (app_cleanup_strategy t ongoing successful) [
            | err e ↦ ([], some e)
            | ok strategy ↦ ((t, strategy) ∷ [], provider t strategy)
          ]
    ]
  ]

  -- The provider is asked to clean a target up exactly when the target is there, every deployment on it
  -- is over, and it is ready, for the full work, or its configuration failed, for nothing but a skip, and
  -- this only if it was never ready or if its cleanup was requested.
  pub cleanup_target_safe :
      (targets : Targets) (deployments : Deployments) (id : String) (t : Target)
      (s : CleanupStrategy)
      → ((cleanup_target_handler targets deployments id).0 ≡ (t, s) ∷ []) ↔ (
          (get_by_id targets id ≡ ok t)
          × All (λ r. (r.config.target ≢ t.id) ⊎ Over r.state.status) deployments
          × CleanedUp t s)
  unfolding cleanup_target_handler cleanup_strategy
  cleanup_target_safe targets deployments id t s =
      let idle = on_target-Over t.id deployments in
      (
        λ asked. (ground (arith, asked), idle.0 (ground (arith, asked)), ground (arith, asked)),
        λ (here, over, way). ground (arith, here, idle.1 over, way),
      )

  -- The provider is asked to remove the resources of an application's environment from a target exactly
  -- when the target is there and ready and its cleanup was not requested, every deployment of the
  -- environment there is over, and one of those requested between the two times, which are in order,
  -- succeeded.
  pub cleanup_app_safe :
      (targets : Targets) (deployments : Deployments) (app target env : String) (from to : Time)
      (t : Target)
      → ((cleanup_app_handler targets deployments app target env from to).0 ≡ (t, default) ∷ []) ↔ (
          (get_by_id targets target ≡ ok t)
          × (t.state.status ≡ ready)
          × (t.cleanup_requested ≡ none)
          × (from ≤ to)
          × All (λ r. NotOn app t.id env r ⊎ Over r.state.status) deployments
          × Any (SucceededOn app t.id env from to) deployments)
  unfolding cleanup_app_handler app_cleanup_strategy new_time_interval
  cleanup_app_safe targets deployments app target env from to t =
      let idle = on_app-Over app t.id env from to deployments in
      let used = on_app_success app t.id env from to deployments in
      (
        λ asked. (
          ground (arith, asked),
          ground (arith, asked),
          ground (arith, asked),
          ground (arith, asked),
          idle.0 (ground (arith, asked)),
          used.0 (ground (arith, asked)),
        ),
        λ (here, status, stays, order, over, success).
            ground (arith, here, status, stays, order, idle.1 over, used.1 success),
      )

  -- Once the cleanup of a target was requested, which is never during its configuration, and the
  -- pending deployments have failed, the cleanup is held up by running deployments alone: with none,
  -- the provider is asked once, for the full work if the target is ready, and the job's error is the
  -- provider's.
  pub cleanup_target_progress :
      (targets : Targets) (deployments : Deployments) (id : String) (r : TargetRow) (now : Time)
      → find row_id id targets ≡ some r
      → is_some r.cleanup_requested_at ≡ true
      → r.state.status ≢ configuring
      → any (λ k. k.config.target == r.id && k.state.status == running) deployments ≡ false
      → let t = target_from r in
        let s = if r.state.status == ready then default else skip in
        cleanup_target_handler targets (on_target_cleanup_requested deployments r.id now) id
        ≡ ((t, s) ∷ [], provider t s)
  unfolding cleanup_target_handler cleanup_strategy get_by_id target_from
  cleanup_target_progress targets deployments id r now here asked settled idle =
      ground (arith, here, asked, settled, idle, ongoing_running deployments r.id now)

module _ (engine : Targets → Option Error) (remove_configuration : Target → Option Error) where
  unfoldable pub delete_target_handler : Targets → String → Targets × Option Error
  unfolding get_by_id delete_target write
  delete_target_handler rows id = elim (get_by_id rows id) [
    | err e ↦ (rows, if is_not_found e then none else some e)
    | ok t ↦
        let (t', refused) = delete_target t true in
        elim refused [
          | some e ↦ (rows, some e)
          | none ↦ elim (remove_configuration t') [
            | some e ↦ (rows, some e)
            | none ↦ elim (write engine rows t'.events) [
              | err e ↦ (rows, some e)
              | ok rows' ↦ (rows', none)
            ]
          ]
        ]
  ]

  -- The job that ends without an error leaves no target under the id and the other targets as they
  -- were, and only a target whose cleanup was requested is deleted so.
  pub delete_target_lem :
      (rows : Targets) (id j : String) (r : TargetRow)
      → find row_id id rows ≡ some r
      → (delete_target_handler rows id).1 ≡ none
      → id ≢ j
      → let final = delete_target_handler rows id in
        (find row_id id final.0 ≡ none)
        × (find row_id j final.0 ≡ find row_id j rows)
        × (is_some r.cleanup_requested_at ≡ true)
  unfolding delete_target_handler get_by_id target_from delete_target write statement
  delete_target_lem rows id j r here quiet d = ground (
    arith,
    here,
    quiet,
    d,
    find-delete row_id r.id id rows,
    find-delete row_id r.id j rows,
    key-find row_id id rows r here,
  )
