-- ===== src/Domain/Target/Replay.antt =====
-- The events that a target raises, and the target that applying them gives. The writers of the
-- stores see nothing but these events.
use seelf.Prelude.{
  String, ◌≡◌, refl, Bool, none, some, List, [], ◌∷◌, ◌++◌, arith, ok, is_some, if◌then◌else◌, ◌==◌,
  ◌!=◌, ◌||◌, ◌&&◌, not, string_eq, message,
}
use seelf.Pkg.Event.{Source, store_event, replay, run, run-IsRebuilt}
use seelf.Pkg.Action.{Time, new_action}
use seelf.Domain.Values.{url_eq, root}
use seelf.Domain.Provider.{fingerprint, provider_config_eq}
use seelf.Domain.Requirement.{UrlRequirement, ProviderConfigRequirement}
use seelf.Domain.Services
use seelf.Domain.Entrypoints.{TargetEntrypoints, merge, remove, assign}
use seelf.Domain.Entrypoints.Merge.{merge_same}
use seelf.Domain.Entrypoints.Remove.{remove_same}
use seelf.Domain.Entrypoints.Assign.{assign_keeps}
use seelf.Domain.TargetState.{
  configuring, failed, ready, target_status_eq, reconfigure_state, is_outdated,
}
use seelf.Domain.Target.{
  Target, TargetEvent, target_created, target_state_changed, target_renamed, target_url_changed,
  target_provider_changed, target_entrypoints_changed, target_marked_for_cleanup, target_deleted,
  zero_target, apply, new_target, rename, has_url, has_provider, reconfigure, configured,
  expose_entrypoints, un_expose_entrypoints, request_cleanup, delete_target,
}
use seelf.Domain.Target.Calls.{
  Call, renames, changes_url, changes_provider, reconfigures, marks_configured, exposes, un_exposes,
  requests_cleanup, deletes, call, Inv, call-Inv, new_target-Inv,
}

pub stores : (t : Target) (e : TargetEvent) → (apply t e).events ≡ store_event t.events e
unfolding apply
stores t (target_created id name url provider state entrypoints created) = refl
stores t _ = refl

abbrev pub target_source : Source Target TargetEvent
target_source = record { apply = apply; events = λ t. t.events; stores = stores }

abbrev restarted : Target → Time → TargetEvent
restarted t now = target_state_changed t.id (reconfigure_state t.state now)

-- The events that a call raises, told independently of how the methods change the target.
abbrev ports_assigned : String → TargetEntrypoints × Bool → List TargetEvent
ports_assigned id (e, updated) = if updated then target_entrypoints_changed id e ∷ [] else []

abbrev exposure : Target → TargetEntrypoints × Bool → Time → List TargetEvent
exposure t (e, updated) now =
    if is_some t.cleanup_requested || not updated
    then []
    else target_entrypoints_changed t.id e ∷ restarted t now ∷ []

unfoldable pub emitted : Target → Call → List TargetEvent
emitted t (renames name) =
    if is_some t.cleanup_requested || name == t.name then [] else target_renamed t.id name ∷ []
emitted t (changes_url r now) =
    if is_some t.cleanup_requested || not r.unique || t.url == r.url
    then []
    else target_url_changed t.id (root r.url) ∷ restarted t now ∷ []
emitted t (changes_provider r now) =
    if is_some t.cleanup_requested
      || not r.unique
      || fingerprint r.config != fingerprint t.provider
      || t.provider == r.config
    then []
    else target_provider_changed t.id r.config ∷ restarted t now ∷ []
emitted t (reconfigures now) =
    if is_some t.cleanup_requested || t.state.status == configuring
    then []
    else restarted t now ∷ []
emitted t (marks_configured version assigned (some e)) =
    if is_outdated t.state version
    then []
    else target_state_changed t.id (record t.state { status = failed; errcode = some (message e) })
      ∷ []
emitted t (marks_configured version assigned none) =
    if is_outdated t.state version
    then []
    else ports_assigned t.id (assign t.custom_entrypoints assigned)
      ++ (target_state_changed t.id
            (record t.state { status = ready; last_ready_version = some version; errcode = none })
          ∷ [])
emitted t (exposes app env none now) = []
emitted t (exposes app env (some services) now) =
    exposure t (merge t.custom_entrypoints app env (Services.custom_entrypoints services)) now
emitted t (un_exposes app envs now) = exposure t (remove t.custom_entrypoints app envs) now
emitted t (requests_cleanup apps by now) =
    if is_some t.cleanup_requested || apps || t.state.status == configuring
    then []
    else target_marked_for_cleanup t.id (new_action by now) ∷ []
emitted t (deletes cleaned_up) =
    if is_some t.cleanup_requested && cleaned_up then target_deleted t.id ∷ [] else []

-- A call changes the target exactly as the events that it raises say, and raises no others.
pub call-emitted : (t : Target) (c : Call) → Inv t → call t c ≡ replay target_source t (emitted t c)
unfolding call emitted replay rename has_url has_provider reconfigure configured expose_entrypoints
    un_expose_entrypoints request_cleanup delete_target
call-emitted t (renames name) v = ground arith
call-emitted t (changes_url requirement now) v = ground arith
call-emitted t (changes_provider requirement now) v = ground arith
call-emitted t (reconfigures now) v = ground arith
call-emitted t (marks_configured version assigned (some e)) v = ground arith
call-emitted t (marks_configured version assigned none) v =
    ground (arith, (assign_keeps t.custom_entrypoints assigned).2)
call-emitted t (exposes app env none now) v = refl
call-emitted t (exposes app env (some services) now) v =
    ground (
      arith,
      merge_same t.custom_entrypoints app env (Services.custom_entrypoints services) v.clean,
    )
call-emitted t (un_exposes app envs now) v =
    ground (arith, remove_same t.custom_entrypoints app envs v.clean)
call-emitted t (requests_cleanup apps by now) v = ground arith
call-emitted t (deletes cleaned_up) v = ground arith

new_target-IsRebuilt :
    (id name : String) (u : UrlRequirement) (p : ProviderConfigRequirement) (by : String)
    (now : Time) (t : Target)
    → new_target id name u p by now ≡ ok t
    → replay target_source zero_target t.events ≡ t
unfolding new_target replay
new_target-IsRebuilt id name u p by now t h = ground arith

-- Created, and then used by any calls at all, a target is exactly what its pending events rebuild
-- from nothing: no change is ever made without an event.
pub calls_rebuilt :
    (id name : String) (u : UrlRequirement) (p : ProviderConfigRequirement) (by : String)
    (now : Time) (t : Target) (cs : List Call)
    → new_target id name u p by now ≡ ok t
    → replay target_source zero_target (run call t cs).events ≡ run call t cs
calls_rebuilt id name u p by now t cs h =
    run-IsRebuilt target_source call emitted Inv call-Inv call-emitted zero_target t cs
      (new_target-Inv id name u p by now t h) (new_target-IsRebuilt id name u p by now t h)
