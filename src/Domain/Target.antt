-- ===== src/Domain/Target.antt =====
-- internal/deployment/domain/target.go: the aggregate of a deployment target. A method on `*Target`
-- returns the target afterwards, and the error where it has one. `now` is the time that the call
-- reads from the clock; `id` is the fresh identifier.
pub mod Calls
pub mod Frozen
pub mod Replay
pub mod Effects
use seelf.Prelude.{
  ℕ, String, ◌≡◌, refl, Bool, true, false, Option, none, some, List, [], ◌∷◌, ◌++◌, if◌then◌else◌,
  ◌||◌, not, ◌==◌, ◌!=◌, string_eq, is_some, Result, ok, err, Error, ◌>>=◌, target_in_use,
  target_configuration_in_progress, target_configuration_failed, running_or_pending_deployments,
  target_provider_update_not_permitted, target_cleanup_needed, target_cleanup_requested,
}
use seelf.Pkg.Event.{store_event}
use seelf.Pkg.Action.{Action, Time, new_action}
use seelf.Domain.Values.{Url, url_eq, root, zero_url}
use seelf.Domain.Provider.{ProviderConfig, provider_kind, fingerprint, provider_equals}
use seelf.Domain.Requirement.{UrlRequirement, url_met, ProviderConfigRequirement, config_met}
use seelf.Domain.Services.{Service, custom_entrypoints}
use seelf.Domain.Entrypoints.{TargetEntrypoints, TargetEntrypointsAssigned, merge, remove, assign}
use seelf.Domain.TargetState.{
  TargetState, TargetStatus, configuring, failed, ready, target_status_eq, zero_target_state,
  reconfigure_state, new_target_state, is_outdated, state_configured,
}

pub data CleanupStrategy : Type 0 where
  default skip : CleanupStrategy

pub data TargetEvent : Type 0 where
  target_created :
      String
      → String
      → Url
      → ProviderConfig
      → TargetState
      → TargetEntrypoints
      → Action
      → TargetEvent
  target_state_changed : String → TargetState → TargetEvent
  target_renamed : String → String → TargetEvent
  target_url_changed : String → Url → TargetEvent
  target_provider_changed : String → ProviderConfig → TargetEvent
  target_entrypoints_changed : String → TargetEntrypoints → TargetEvent
  target_marked_for_cleanup : String → Action → TargetEvent
  target_deleted : String → TargetEvent

-- `events` is the embedded `event.Emitter`.
pub record Target : Type 0 where
  pub id : String
  pub name : String
  pub url : Url
  pub provider : ProviderConfig
  pub state : TargetState
  pub custom_entrypoints : TargetEntrypoints
  pub cleanup_requested : Option Action
  pub created : Action
  pub events : List TargetEvent

-- The zero value of the struct, from which the code builds a target.
abbrev pub zero_target : Target
zero_target = record {
  id = "";
  name = "";
  url = zero_url;
  provider = record { host = none; port = none; user = none; private_key = none };
  state = zero_target_state;
  custom_entrypoints = [];
  cleanup_requested = none;
  created = record { by = ""; at = 0 };
  events = [];
}

-- The switch of `apply`.
unfoldable pub absorb : Target → TargetEvent → Target
absorb t (target_created id name url provider state entrypoints created) = record t {
  id = id;
  name = name;
  url = url;
  provider = provider;
  state = state;
  created = created;
  custom_entrypoints = entrypoints;
}
absorb t (target_renamed id name) = record t { name = name }
absorb t (target_url_changed id url) = record t { url = url }
absorb t (target_provider_changed id provider) = record t { provider = provider }
absorb t (target_entrypoints_changed id entrypoints) = record t { custom_entrypoints = entrypoints }
absorb t (target_marked_for_cleanup id requested) = record t { cleanup_requested = some requested }
absorb t (target_state_changed id state) = record t { state = state }
absorb t (target_deleted id) = t

unfoldable pub apply : Target → TargetEvent → Target
unfolding absorb
apply t e = let t' = absorb t e in record t' { events = store_event t'.events e }

-- `NewTarget`
unfoldable pub new_target :
    String → String → UrlRequirement → ProviderConfigRequirement → String → Time → Result Target
unfolding apply url_met config_met new_target_state
new_target id name url_requirement provider_requirement created_by now = do
  url ← url_met url_requirement
  provider ← config_met provider_requirement
  ok (
      apply zero_target (
        target_created id name (root url) provider (new_target_state now) []
          (new_action created_by now)))

-- The unexported `reconfigure`.
unfoldable pub restart_configuration : Target → Time → Target
unfolding apply reconfigure_state
restart_configuration t now =
    let t' = record t { state = reconfigure_state t.state now } in
    apply t' (target_state_changed t'.id t'.state)

unfoldable pub rename : Target → String → Target × Option Error
unfolding apply
rename t name =
    if is_some t.cleanup_requested
    then (t, some target_cleanup_requested)
    else if name == t.name
    then (t, none)
    else (apply t (target_renamed t.id name), none)

unfoldable pub has_url : Target → UrlRequirement → Time → Target × Option Error
unfolding apply restart_configuration url_met root
has_url t requirement now =
    if is_some t.cleanup_requested
    then (t, some target_cleanup_requested)
    else elim (url_met requirement) [
      | err e ↦ (t, some e)
      | ok url ↦
          if t.url == url
          then (t, none)
          else (restart_configuration (apply t (target_url_changed t.id (root url))) now, none)
    ]

unfoldable pub has_provider : Target → ProviderConfigRequirement → Time → Target × Option Error
unfolding apply restart_configuration config_met fingerprint provider_kind provider_equals
has_provider t requirement now =
    if is_some t.cleanup_requested
    then (t, some target_cleanup_requested)
    else elim (config_met requirement) [
      | err e ↦ (t, some e)
      | ok provider ↦
          if provider_kind provider != provider_kind t.provider
            || fingerprint provider != fingerprint t.provider
          then (t, some target_provider_update_not_permitted)
          else if provider_equals t.provider provider
          then (t, none)
          else (restart_configuration (apply t (target_provider_changed t.id provider)) now, none)
    ]

unfoldable pub check_availability : Target → Option Error
check_availability t =
    if t.state.status == configuring
    then some target_configuration_in_progress
    else if is_some t.cleanup_requested
    then some target_cleanup_requested
    else if t.state.status != ready
    then some target_configuration_failed
    else none

unfoldable pub reconfigure : Target → Time → Target × Option Error
unfolding restart_configuration
reconfigure t now =
    if is_some t.cleanup_requested
    then (t, some target_cleanup_requested)
    else if t.state.status == configuring
    then (t, some target_configuration_in_progress)
    else (restart_configuration t now, none)

-- The ports are assigned in place, and an event tells of it if one was set.
unfoldable pub assign_ports : Target → TargetEntrypointsAssigned → Target
unfolding apply
assign_ports t assigned =
    let (entrypoints, updated) = assign t.custom_entrypoints assigned in
    let t' = record t { custom_entrypoints = entrypoints } in
    if updated then apply t' (target_entrypoints_changed t'.id t'.custom_entrypoints) else t'

-- `Configured`; a nil error is `none`, and then the ports are assigned.
unfoldable pub configured : Target → Time → TargetEntrypointsAssigned → Option Error → Target
unfolding apply state_configured assign_ports
configured t version assigned e =
    let (state, changed) = state_configured t.state version e in
    let t' = record t { state = state } in
    let t'' = if is_some e then t' else assign_ports t' assigned in
    if not changed then t' else apply t'' (target_state_changed t''.id t''.state)

unfoldable pub raise_entrypoints_changed_and_reconfigure : Target → Time → Target
unfolding apply restart_configuration
raise_entrypoints_changed_and_reconfigure t now =
    restart_configuration (apply t (target_entrypoints_changed t.id t.custom_entrypoints)) now

-- `services` is `none` where the code passes nil.
unfoldable pub expose_entrypoints : Target → String → String → Option (List Service) → Time → Target
unfolding raise_entrypoints_changed_and_reconfigure
expose_entrypoints t app env none now = t
expose_entrypoints t app env (some services) now =
    if is_some t.cleanup_requested
    then t
    else let (entrypoints, updated) =
        merge t.custom_entrypoints app env (custom_entrypoints services) in
      let t' = record t { custom_entrypoints = entrypoints } in
      if not updated then t' else raise_entrypoints_changed_and_reconfigure t' now

unfoldable pub un_expose_entrypoints : Target → String → List String → Time → Target
unfolding raise_entrypoints_changed_and_reconfigure
un_expose_entrypoints t app envs now =
    if is_some t.cleanup_requested
    then t
    else let (entrypoints, updated) = remove t.custom_entrypoints app envs in
      let t' = record t { custom_entrypoints = entrypoints } in
      if not updated then t' else raise_entrypoints_changed_and_reconfigure t' now

unfoldable pub request_cleanup : Target → Bool → String → Time → Target × Option Error
unfolding apply
request_cleanup t apps by now =
    if is_some t.cleanup_requested
    then (t, none)
    else if apps
    then (t, some target_in_use)
    else if t.state.status == configuring
    then (t, some target_configuration_in_progress)
    else (apply t (target_marked_for_cleanup t.id (new_action by now)), none)

-- `Target.CleanupStrategy`; the code returns the default strategy beside an error.
unfoldable pub cleanup_strategy : Target → Bool → Result CleanupStrategy
cleanup_strategy t deployments =
    if deployments then err running_or_pending_deployments else elim t.state.status [
      | configuring ↦ err target_configuration_in_progress
      | ready ↦ ok default
      | failed ↦
          if not (is_some t.state.last_ready_version) || is_some t.cleanup_requested
          then ok skip
          else err target_configuration_failed
    ]

unfoldable pub app_cleanup_strategy : Target → Bool → Bool → Result CleanupStrategy
app_cleanup_strategy t ongoing successful =
    if is_some t.cleanup_requested
    then ok skip
    else if ongoing
    then err running_or_pending_deployments
    else if not successful
    then ok skip
    else elim t.state.status [
      | configuring ↦ err target_configuration_in_progress
      | ready ↦ ok default
      | failed ↦ err target_configuration_failed
    ]

-- `Delete`
unfoldable pub delete_target : Target → Bool → Target × Option Error
unfolding apply
delete_target t cleaned_up =
    if not (is_some t.cleanup_requested) || not cleaned_up
    then (t, some target_cleanup_needed)
    else (apply t (target_deleted t.id), none)
