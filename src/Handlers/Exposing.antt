-- ===== src/Handlers/Exposing.antt =====
-- The signal handlers of app/configure_target that expose an application's entrypoints on a target and
-- withdraw them. They use one transaction, which is rolled back on an error.
use seelf.Prelude.{
  String, ◌≡◌, ◌≢◌, refl, true, Option, none, some, List, [], ◌∷◌, arith, Result, ok, Error, ◌>>=◌,
  if◌then◌else◌, not, ◌==◌, string_eq, get_or,
}
use seelf.Pkg.Action.{Time}
use seelf.Pkg.Event.{run}
use seelf.Pkg.Table.{find}
use seelf.Domain.Values.{Environment, production, staging, EnvironmentConfig}
use seelf.Domain.DeploymentState.{DeploymentState, succeeded, deployment_status_eq}
use seelf.Domain.Entrypoints.{port_of}
use seelf.Domain.Entrypoints.Remove.{port_of-remove, covers, listed}
use seelf.Domain.App.{target_has_changed}
use seelf.Domain.Deployment.{DeploymentConfig}
use seelf.Domain.Target.{Target, expose_entrypoints, un_expose_entrypoints}
use seelf.Domain.Target.Calls.{call, un_exposes, Inv}
use seelf.Store.Targets.{Targets, row_id, get_by_id, write}
use seelf.Store.Targets.RoundTrip.{row_of, settled, write_back, get_by_id-row_of}

covers_self : (v : String) → covers (v ∷ []) v ≡ true
unfolding listed
covers_self v = ground arith

module _ (engine : Targets → Option Error) where
  -- `OnAppCleanupRequestedHandler`, with the targets of the two environments.
  unfoldable pub on_app_cleanup_requested :
      Targets → String → String → String → Time → Result Targets
  unfolding get_by_id un_expose_entrypoints write
  on_app_cleanup_requested rows app production_target staging_target now =
      let apart = (do
        p ← get_by_id rows production_target
        s ← get_by_id rows staging_target
        rows' ← write engine rows (un_expose_entrypoints p app (production ∷ []) now).events
        write engine rows' (un_expose_entrypoints s app (staging ∷ []) now).events) in
      let together = (do
        t ← get_by_id rows production_target
        write engine rows (un_expose_entrypoints t app [] now).events) in
      if production_target == staging_target then together else apart

  -- `OnAppEnvChangedHandler`
  unfoldable pub on_app_env_changed :
      Targets → String → Environment → EnvironmentConfig → EnvironmentConfig → Time → Result Targets
  unfolding get_by_id un_expose_entrypoints write
  on_app_env_changed rows app env config old_config now =
      let withdrawn = (do
        t ← get_by_id rows old_config.target
        write engine rows (un_expose_entrypoints t app (env ∷ []) now).events) in
      if not (target_has_changed config old_config) then ok rows else withdrawn

  -- `OnDeploymentStateChangedHandler`
  unfoldable pub on_deployment_state_changed :
      Targets → String → DeploymentConfig → DeploymentState → Time → Result Targets
  unfolding get_by_id expose_entrypoints write
  on_deployment_state_changed rows app config state now =
      let exposed = (do
        t ← get_by_id rows config.target
        write engine rows
            (expose_entrypoints t app config.environment (some (get_or state.services []))
              now).events) in
      if state.status == succeeded then exposed else ok rows

  -- What withdrawing entrypoints and writing leaves in the table.
  withdrawn_lem :
      (rows rows' : Targets) (t : Target) (app : String) (envs : List Environment) (now : Time)
      → Inv (settled t)
      → find row_id t.id rows ≡ some (row_of t)
      → write engine rows (un_expose_entrypoints (settled t) app envs now).events ≡ ok rows'
      → get_by_id rows' t.id ≡ ok (settled (un_expose_entrypoints (settled t) app envs now))
  unfolding run call
  withdrawn_lem rows rows' t app envs now v here w =
      (write_back engine rows rows' (settled t) ((un_exposes app envs now, refl) ∷ []) t.id v refl
        here w).0

  port_of-un_expose :
      (t : Target) (app : String) (envs : List Environment) (now : Time) (v n : String)
      → t.cleanup_requested ≡ none
      → covers envs v ≡ true
      → port_of (un_expose_entrypoints t app envs now).custom_entrypoints app v n ≡ none
  unfolding un_expose_entrypoints
  port_of-un_expose t app envs now v n open_target c =
      ground (arith, open_target, c, port_of-remove t.custom_entrypoints app envs app v n)

  -- Once the environment of an application has moved away from a target that stays, the old target
  -- that is read back exposes nothing of the application on that environment.
  pub env_changed_withdraws :
      (rows rows' : Targets) (t : Target) (app : String) (env : Environment)
      (config old : EnvironmentConfig) (now : Time) (n : String)
      → Inv (settled t)
      → t.cleanup_requested ≡ none
      → find row_id t.id rows ≡ some (row_of t)
      → old.target ≡ t.id
      → config.target ≢ old.target
      → on_app_env_changed rows app env config old now ≡ ok rows'
      → (t' : Target) × (get_by_id rows' t.id ≡ ok t')
        × (port_of t'.custom_entrypoints app env n ≡ none)
  unfolding on_app_env_changed
  env_changed_withdraws rows rows' t app env config old now n v stays here same moved h =
      let found = get_by_id-row_of rows t t.id here in
      let written : write engine rows (un_expose_entrypoints (settled t) app (env ∷ []) now).events
          ≡ ok rows' =
        ground (arith, found, same, moved, h) in
      let back = withdrawn_lem rows rows' t app (env ∷ []) now v here written in
      (
        settled (un_expose_entrypoints (settled t) app (env ∷ []) now),
        back,
        port_of-un_expose (settled t) app (env ∷ []) now env n stays (covers_self env),
      )
