-- ===== src/Domain/Target/Calls.antt =====
-- The calls that the rest of the program makes on a target, and the targets that they lead to.
use seelf.Prelude.{
  String, ◌≡◌, ◌≢◌, Bool, true, Option, none, some, List, [], arith, ok, Error, is_some, lookup,
}
use seelf.Pkg.Action.{Time}
use seelf.Domain.Requirement.{UrlRequirement, ProviderConfigRequirement}
use seelf.Domain.Services.{Service}
use seelf.Domain.Services
use seelf.Domain.Entrypoints.{TargetEntrypointsAssigned, IsClean}
use seelf.Domain.Entrypoints.Merge.{merge-IsClean}
use seelf.Domain.Entrypoints.Remove.{remove-IsClean}
use seelf.Domain.Entrypoints.Assign.{assign_keeps}
use seelf.Domain.TargetState.{configuring, failed, ready}
use seelf.Domain.Target.{
  Target, new_target, rename, has_url, has_provider, reconfigure, configured, expose_entrypoints,
  un_expose_entrypoints, request_cleanup, delete_target,
}

pub data Call : Type 0 where
  renames : String → Call
  changes_url : UrlRequirement → Time → Call
  changes_provider : ProviderConfigRequirement → Time → Call
  reconfigures : Time → Call
  marks_configured : Time → TargetEntrypointsAssigned → Option Error → Call
  exposes : String → String → Option (List Service) → Time → Call
  un_exposes : String → List String → Time → Call
  requests_cleanup : Bool → String → Time → Call
  deletes : Bool → Call

unfoldable pub call : Target → Call → Target
call t (renames name) = (rename t name).0
call t (changes_url requirement now) = (has_url t requirement now).0
call t (changes_provider requirement now) = (has_provider t requirement now).0
call t (reconfigures now) = (reconfigure t now).0
call t (marks_configured version assigned e) = configured t version assigned e
call t (exposes app env services now) = expose_entrypoints t app env services now
call t (un_exposes app envs now) = un_expose_entrypoints t app envs now
call t (requests_cleanup apps by now) = (request_cleanup t apps by now).0
call t (deletes cleaned_up) = (delete_target t cleaned_up).0

-- What holds of a target between two calls.
pub record Inv (t : Target) : Type 0 where
  pub frozen_settled : is_some t.cleanup_requested ≡ true → t.state.status ≢ configuring
  pub ready_version : t.state.status ≡ ready → t.state.last_ready_version ≡ some t.state.version
  pub failed_cause : t.state.status ≡ failed → is_some t.state.errcode ≡ true
  pub fine_no_cause : t.state.status ≢ failed → t.state.errcode ≡ none
  pub clean : IsClean t.custom_entrypoints

pub empty-IsClean : IsClean []
unfolding lookup
empty-IsClean = record { apps = λ app m h. cc; envs = λ app env m h. cc }

-- A target that was just created satisfies the invariant.
pub new_target-Inv :
    (id name : String) (u : UrlRequirement) (p : ProviderConfigRequirement) (by : String)
    (now : Time) (t : Target)
    → new_target id name u p by now ≡ ok t
    → Inv t
unfolding new_target
new_target-Inv id name u p by now t h = ground (arith, empty-IsClean)

-- Every call, whatever it returns, keeps the invariant.
pub call-Inv : (t : Target) (c : Call) → Inv t → Inv (call t c)
unfolding call rename has_url has_provider reconfigure configured expose_entrypoints
    un_expose_entrypoints request_cleanup delete_target
call-Inv t (renames name) v = ground arith
call-Inv t (changes_url requirement now) v = ground arith
call-Inv t (changes_provider requirement now) v = ground arith
call-Inv t (reconfigures now) v = ground arith
call-Inv t (marks_configured version assigned e) v =
    ground (arith, (assign_keeps t.custom_entrypoints assigned).1 v.clean)
call-Inv t (exposes app env none now) v = v
call-Inv t (exposes app env (some services) now) v = ground (
  arith,
  merge-IsClean t.custom_entrypoints app env (Services.custom_entrypoints services) v.clean,
)
call-Inv t (un_exposes app envs now) v =
    ground (arith, remove-IsClean t.custom_entrypoints app envs v.clean)
call-Inv t (requests_cleanup apps by now) v = ground arith
call-Inv t (deletes cleaned_up) v = ground arith
