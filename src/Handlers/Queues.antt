-- ===== src/Handlers/Queues.antt =====
-- The signal handlers of internal/deployment/app that queue jobs, with the groups of group.go: what each
-- of them queues, in its order. The encoding of a command is the parameter `encode`; a failure of the
-- store ends the list early and is not modelled.
pub mod Waiting
use Prim.Native.String.{◌++◌}
use seelf.Prelude.{ℕ, ◌^◌, String, Option, none, some, List, [], ◌∷◌, if◌then◌else◌, not, ◌==◌}
use seelf.Pkg.Action.{Time}
use seelf.Domain.Values.{Environment, EnvironmentConfig, DeploymentId, production, staging}
use seelf.Domain.TargetState.{TargetState, configuring, target_status_eq}
use seelf.Domain.App.{target_has_changed}
use seelf.Domain.Deployment.{DeploymentConfig}
use seelf.Domain.Naming.{project_name, port_string}
use seelf.Scheduler.{Queued, retry_preserve_order, wait_for_others, cancellable, merge}

-- The commands that are queued, each with its fields.
pub data Command : Type 0 where
  deploy : String → ℕ → Command
  configure_target : String → Time → Command
  cleanup_app : String → Environment → String → Time → Time → Command
  cleanup_target delete_target delete_app : String → Command

-- `Name_`
unfoldable pub name_of : Command → String
name_of (deploy app number) = "deployment.command.deploy"
name_of (configure_target id version) = "deployment.command.configure_target"
name_of (cleanup_app app env target from to) = "deployment.command.cleanup_app"
name_of (cleanup_target id) = "deployment.command.cleanup_target"
name_of (delete_target id) = "deployment.command.delete_target"
name_of (delete_app id) = "deployment.command.delete_app"

-- `ResourceID`
unfoldable pub resource_id : Command → String
unfolding port_string
resource_id (deploy app number) = app ++ ("-" ++ port_string number)
resource_id (configure_target id version) = id
resource_id (cleanup_app app env target from to) = app
resource_id (cleanup_target id) = id
resource_id (delete_target id) = id
resource_id (delete_app id) = id

-- `DeploymentGroup`
unfoldable pub deployment_group : DeploymentConfig → String
unfolding project_name
deployment_group config = "deployment.deployment.deploy." ++ project_name config

-- `TargetConfigurationGroup`
unfoldable pub target_configuration_group : String → String
target_configuration_group id = "deployment.target.configure." ++ id

module _ (encode : Command → String) where
  -- `Queue` with a policy, and the group if one is given.
  unfoldable pub queued : Command → Option String → ℕ → Queued
  unfolding name_of resource_id
  queued command group policy = record {
    message_name = name_of command;
    resource_id = resource_id command;
    message_data = encode command;
    group = group;
    policy = 2 ^ policy;
  }

  -- app/cleanup_app
  unfoldable pub cleanup_on_app_cleanup_requested :
      String → EnvironmentConfig → EnvironmentConfig → Time → List Queued
  unfolding queued
  cleanup_on_app_cleanup_requested id prod stag now =
      queued (cleanup_app id production prod.target prod.version now) none cancellable
      ∷ queued (cleanup_app id staging stag.target stag.version now) none cancellable
      ∷ []

  unfoldable pub cleanup_on_app_env_changed :
      String → Environment → EnvironmentConfig → EnvironmentConfig → Time → List Queued
  unfolding queued
  cleanup_on_app_env_changed id env config old_config now =
      if not (target_has_changed config old_config)
      then []
      else queued (cleanup_app id env old_config.target old_config.version now) none cancellable
        ∷ []

  -- app/cleanup_target
  unfoldable pub cleanup_on_target_cleanup_requested : String → List Queued
  unfolding queued
  cleanup_on_target_cleanup_requested id = queued (cleanup_target id) none cancellable ∷ []

  -- app/configure_target
  unfoldable pub on_target_created : String → TargetState → List Queued
  unfolding queued target_configuration_group
  on_target_created id state =
      queued (configure_target id state.version) (some (target_configuration_group id)) merge ∷ []

  unfoldable pub on_target_state_changed : String → TargetState → List Queued
  unfolding queued target_configuration_group
  on_target_state_changed id state =
      if not (state.status == configuring)
      then []
      else queued (configure_target id state.version) (some (target_configuration_group id)) merge
        ∷ []

  -- app/delete_app and app/delete_target
  unfoldable pub delete_on_app_cleanup_requested : String → List Queued
  unfolding queued
  delete_on_app_cleanup_requested id = queued (delete_app id) none wait_for_others ∷ []

  unfoldable pub delete_on_target_cleanup_requested : String → List Queued
  unfolding queued
  delete_on_target_cleanup_requested id = queued (delete_target id) none wait_for_others ∷ []

  -- app/deploy
  unfoldable pub on_deployment_created : DeploymentId → DeploymentConfig → List Queued
  unfolding queued deployment_group
  on_deployment_created id config =
      queued (deploy id.app_id id.deployment_number) (some (deployment_group config))
        retry_preserve_order
      ∷ []
