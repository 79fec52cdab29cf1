-- ===== src/Domain/Target/Effects.antt =====
-- What the calls on a target do to its configuration state, and what their errors leave behind.
use seelf.Prelude.{
  ◌≡◌, ◌≢◌, refl, true, false, Option, none, some, arith, is_some, Error,
  target_configuration_failed,
}
use seelf.Pkg.Action.{Time}
use seelf.Domain.Values.{root}
use seelf.Domain.Requirement.{UrlRequirement}
use seelf.Domain.Services
use seelf.Domain.Entrypoints.{TargetEntrypointsAssigned}
use seelf.Domain.Entrypoints.Merge.{merge_same}
use seelf.Domain.Entrypoints.Remove.{remove_same}
use seelf.Domain.Entrypoints.Assign.{SameExposed, assign_keeps}
use seelf.Domain.TargetState.{configuring, is_outdated}
use seelf.Domain.Target.{
  Target, rename, has_url, has_provider, reconfigure, configured, expose_entrypoints,
  un_expose_entrypoints, request_cleanup, delete_target, check_availability,
}
use seelf.Domain.Target.Calls.{
  Call, renames, changes_url, changes_provider, reconfigures, marks_configured, exposes, un_exposes,
  requests_cleanup, deletes, call, Inv,
}

-- The error of a call, where the method returns one.
unfoldable pub outcome : Target → Call → Option Error
outcome t (renames name) = (rename t name).1
outcome t (changes_url requirement now) = (has_url t requirement now).1
outcome t (changes_provider requirement now) = (has_provider t requirement now).1
outcome t (reconfigures now) = (reconfigure t now).1
outcome t (requests_cleanup apps by now) = (request_cleanup t apps by now).1
outcome t (deletes cleaned_up) = (delete_target t cleaned_up).1
outcome t _ = none

-- A call that returns an error leaves the target as it was.
pub error_unchanged : (t : Target) (c : Call) {e : Error} → outcome t c ≡ some e → call t c ≡ t
unfolding call outcome rename has_url has_provider reconfigure request_cleanup delete_target
error_unchanged t (renames name) h = ground arith
error_unchanged t (changes_url requirement now) h = ground arith
error_unchanged t (changes_provider requirement now) h = ground arith
error_unchanged t (reconfigures now) h = ground arith
error_unchanged t (requests_cleanup apps by now) h = ground arith
error_unchanged t (deletes cleaned_up) h = ground arith
error_unchanged t _ h = absurd (cc)

-- The same entrypoints are exposed on both targets.
abbrev pub SameSetup : Target → Target → Type 0
SameSetup t t' =
    (t'.url ≡ t.url)
    × (t'.provider ≡ t.provider)
    × SameExposed t.custom_entrypoints t'.custom_entrypoints

-- If a call leaves the target in any other state than "configuring", it has changed neither the
-- url, nor the provider, nor the exposed entrypoints: whatever the provider has to set up is set up
-- again before the target can count as ready.
pub changes_restart :
    (t : Target) (c : Call) → Inv t → (call t c).state.status ≢ configuring → SameSetup t (call t c)
unfolding call rename has_url has_provider reconfigure configured expose_entrypoints
    un_expose_entrypoints request_cleanup delete_target
changes_restart t (renames name) v h = (ground arith, ground arith, λ a v n. ground arith)
changes_restart t (changes_url requirement now) v h =
    (ground arith, ground arith, λ a v n. ground arith)
changes_restart t (changes_provider requirement now) v h =
    (ground arith, ground arith, λ a v n. ground arith)
changes_restart t (reconfigures now) v h = (ground arith, ground arith, λ a v n. ground arith)
changes_restart t (marks_configured version assigned e) v h = (
  ground arith,
  ground arith,
  λ a v n. ground (arith, (assign_keeps t.custom_entrypoints assigned).0 a v n),
)
changes_restart t (exposes app env none now) v h = (refl, refl, λ a v n. refl)
changes_restart t (exposes app env (some services) now) v h = (
  ground arith,
  ground arith,
  λ a w n. ground (
    arith,
    merge_same t.custom_entrypoints app env (Services.custom_entrypoints services) v.clean,
  ),
)
changes_restart t (un_exposes app envs now) v h = (
  ground arith,
  ground arith,
  λ a w n. ground (arith, remove_same t.custom_entrypoints app envs v.clean),
)
changes_restart t (requests_cleanup apps by now) v h =
    (ground arith, ground arith, λ a v n. ground arith)
changes_restart t (deletes cleaned_up) v h = (ground arith, ground arith, λ a v n. ground arith)

-- The result of a configuration counts once: a second result for the same version, whatever it
-- says, changes nothing, also when the first was outdated itself.
pub configured_once :
    (t : Target) (version : Time) (assigned assigned' : TargetEntrypointsAssigned)
    (e e' : Option Error)
    → configured (configured t version assigned e) version assigned' e'
      ≡ configured t version assigned e
unfolding configured
configured_once t version assigned assigned' e e' = ground arith

-- The result for the current version decides the availability: with no error the target can be
-- deployed on, with an error it cannot.
pub check_availability-configured :
    (t : Target) (version : Time) (assigned : TargetEntrypointsAssigned) (e : Option Error)
    → Inv t
    → is_outdated t.state version ≡ false
    → check_availability (configured t version assigned e)
      ≡ (elim e [ none ↦ none | some _ ↦ some target_configuration_failed ])
unfolding configured check_availability
check_availability-configured t version assigned e v h = ground arith

-- A new url that has the target's own url as its root restarts the configuration, though the url
-- does not change.
pub has_url_same_root :
    (t : Target) (r : UrlRequirement) (now : Time)
    → is_some t.cleanup_requested ≡ false
    → r.unique ≡ true
    → t.url ≢ r.url
    → root r.url ≡ t.url
    → ((has_url t r now).0.url ≡ t.url)
      × ((has_url t r now).0.state.status ≡ configuring)
      × ((has_url t r now).0.state.version ≡ now)
unfolding has_url
has_url_same_root t r now f u d h = (ground arith, ground arith, ground arith)
