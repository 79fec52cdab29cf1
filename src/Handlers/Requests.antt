-- ===== src/Handlers/Requests.antt =====
-- app/request_target_cleanup, app/request_app_cleanup, app/delete_app and app/reconfigure_target.
use seelf.Prelude.{
  checked, String, ◌≡◌, ◌≢◌, refl, Bool, true, false, Option, none, some, [], ◌∷◌, arith, Result,
  ok, err, Error, is_not_found, string_eq, if◌then◌else◌, inl, inr, ◌>>=◌, subst, sym, ap, ◌∙◌,
  Result-cases,
}
use seelf.Pkg.Action.{Time, new_action}
use seelf.Pkg.Event.{run}
use seelf.Pkg.Table.{find}
use seelf.Domain.TargetState.{configuring, target_status_eq}
use seelf.Domain.Target.{Target, request_cleanup, reconfigure}
use seelf.Domain.Target.Calls.{call, requests_cleanup, Inv}
use seelf.Domain.App.{App, delete_app}
use seelf.Domain.App
use seelf.Store.Targets.{Targets, row_id, get_by_id, write}
use seelf.Store.Targets.RoundTrip.{row_of, settled, write_back, get_by_id-row_of}
use seelf.Store.Apps
use seelf.Store.Apps.{Apps, has_apps_on_target}

module _ (engine : Targets → Option Error) where
  unfoldable pub request_target_cleanup_handler :
      Targets → Apps → String → String → Time → Result Targets
  unfolding get_by_id has_apps_on_target request_cleanup write
  request_target_cleanup_handler rows apps id by now = do
    t ← get_by_id rows id
    t' ← checked (request_cleanup t (has_apps_on_target apps t.id) by now)
    write engine rows t'.events

  unfoldable pub reconfigure_target_handler : Targets → String → Time → Result Targets
  unfolding get_by_id reconfigure write
  reconfigure_target_handler rows id now = do
    t ← get_by_id rows id
    t' ← checked (reconfigure t now)
    write engine rows t'.events

  requested :
      (t : Target) (apps : Bool) (by : String) (now : Time) (t' : Target)
      → t.cleanup_requested ≡ none
      → checked (request_cleanup t apps by now) ≡ ok t'
      → (apps ≡ false)
        × (t.state.status ≢ configuring)
        × (t'.cleanup_requested ≡ some (new_action by now))
        × (t' ≡ (request_cleanup t apps by now).0)
  unfolding request_cleanup
  requested t apps by now t' fresh h = (
    ground (arith, fresh, h),
    ground (arith, fresh, h),
    ground (arith, fresh, h),
    ground (arith, fresh, h),
  )

  -- The cleanup of a target is requested only while no application uses it and it is not being
  -- configured, and the target that is read back then says who requested it, and when.
  pub request_target_cleanup_lem :
      (rows rows' : Targets) (apps : Apps) (t : Target) (by : String) (now : Time)
      → Inv (settled t)
      → t.cleanup_requested ≡ none
      → find row_id t.id rows ≡ some (row_of t)
      → request_target_cleanup_handler rows apps t.id by now ≡ ok rows'
      → (has_apps_on_target apps t.id ≡ false)
        × (t.state.status ≢ configuring)
        × ((t' : Target) × (get_by_id rows' t.id ≡ ok t')
            × (t'.cleanup_requested ≡ some (new_action by now)))
  unfolding request_target_cleanup_handler run call
  request_target_cleanup_lem rows rows' apps t by now v fresh here h =
      let found = get_by_id-row_of rows t t.id here in
      let used = has_apps_on_target apps t.id in
      elim (Result-cases (checked (request_cleanup (settled t) used by now))) [
        | inr (e, bad) ↦ absurd (ground (arith, found, bad, h))
        | inl (t', good) ↦
            let (unused, settled_state, marked, same) =
              requested (settled t) used by now t' fresh good in
            let w : write engine rows (request_cleanup (settled t) used by now).0.events
                ≡ ok rows' =
              subst (λ x. write engine rows x.events ≡ ok rows') same
                (ground (arith, found, good, h)) in
            let back =
              (write_back engine rows rows' (settled t) ((requests_cleanup used by now, refl) ∷ [])
                t.id v refl here w).0 in
            (
              unused,
              settled_state,
              (
                settled (request_cleanup (settled t) used by now).0,
                back,
                ap (λ x. x.cleanup_requested) (sym same) ∙ marked,
              ),
            )
      ]

module _ (engine : Apps → Option Error) where
  unfoldable pub request_app_cleanup_handler : Apps → String → String → Time → Result Apps
  unfolding Apps.get_by_id App.request_cleanup Apps.write
  request_app_cleanup_handler rows id by now = do
    a ← Apps.get_by_id rows id
    Apps.write engine rows (App.request_cleanup a by now).events

  -- The deletion job; `cleanup` is the answer of the artifact manager.
  unfoldable pub delete_app_handler : (App → Option Error) → Apps → String → Apps × Option Error
  unfolding Apps.get_by_id delete_app Apps.write
  delete_app_handler cleanup rows id = elim (Apps.get_by_id rows id) [
    | err e ↦ (rows, if is_not_found e then none else some e)
    | ok a ↦
        let (a', refused) = delete_app a true in
        elim refused [
          | some e ↦ (rows, some e)
          | none ↦ elim (cleanup a') [
            | some e ↦ (rows, some e)
            | none ↦ elim (Apps.write engine rows a'.events) [
              | err e ↦ (rows, some e)
              | ok rows' ↦ (rows', none)
            ]
          ]
        ]
  ]
