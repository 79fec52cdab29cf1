-- ===== src/Domain/Target/Frozen.antt =====
-- A target whose cleanup was requested, under the calls of domain/target.go.
use seelf.Prelude.{
  ◌≡◌, refl, Bool, true, false, none, some, arith, ok, is_some, if◌then◌else◌, ◌==◌,
}
use seelf.Domain.TargetState.{ready, target_status_eq}
use seelf.Domain.Target.{
  Target, default, skip, rename, has_url, has_provider, reconfigure, configured, expose_entrypoints,
  un_expose_entrypoints, request_cleanup, delete_target, cleanup_strategy, app_cleanup_strategy,
}
use seelf.Domain.Target.Calls.{
  Call, renames, changes_url, changes_provider, reconfigures, marks_configured, exposes, un_exposes,
  requests_cleanup, deletes, call, Inv,
}

abbrev is_delete : Call → Bool
is_delete (deletes _) = true
is_delete _ = false

-- Once its cleanup was requested, every call but the deletion leaves the target exactly as it is,
-- its pending events included: no rename, no new url or provider, no late configuration result.
pub frozen_unchanged :
    (t : Target) (c : Call)
    → Inv t
    → is_some t.cleanup_requested ≡ true
    → is_delete c ≡ false
    → call t c ≡ t
unfolding call rename has_url has_provider reconfigure configured expose_entrypoints
    un_expose_entrypoints request_cleanup
frozen_unchanged t (renames name) v h d = ground arith
frozen_unchanged t (changes_url requirement now) v h d = ground arith
frozen_unchanged t (changes_provider requirement now) v h d = ground arith
frozen_unchanged t (reconfigures now) v h d = ground arith
frozen_unchanged t (marks_configured version assigned e) v h d = ground arith
frozen_unchanged t (exposes app env none now) v h d = refl
frozen_unchanged t (exposes app env (some services) now) v h d = ground arith
frozen_unchanged t (un_exposes app envs now) v h d = ground arith
frozen_unchanged t (requests_cleanup apps by now) v h d = ground arith
frozen_unchanged t (deletes cleaned_up) v h d = absurd (cc)

-- Cleanup never gets stuck: with no deployment left, a target whose cleanup was requested has a
-- strategy, to clean up what is ready and skip what is not; its applications' resources are skipped
-- in any case; and the deletion that follows succeeds.
pub frozen_deletable :
    (t : Target) (ongoing successful : Bool)
    → Inv t
    → is_some t.cleanup_requested ≡ true
    → (cleanup_strategy t false ≡ ok (if t.state.status == ready then default else skip))
      × (app_cleanup_strategy t ongoing successful ≡ ok skip)
      × ((delete_target t true).1 ≡ none)
unfolding cleanup_strategy app_cleanup_strategy delete_target
frozen_deletable t ongoing successful v h = (ground arith, ground arith, ground arith)
