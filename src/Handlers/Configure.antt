-- ===== src/Handlers/Configure.antt =====
-- app/configure_target: the job that configures a target. What the provider answers is an argument;
-- `meanwhile` is what the rest of the program does to the table while the provider works.
use seelf.Prelude.{
  String, ◌≡◌, refl, true, false, Option, none, some, List, [], ◌∷◌, arith, Result, ok, err, Error,
  is_not_found, string_eq, if◌then◌else◌,
}
use seelf.Pkg.Action.{Time}
use seelf.Pkg.Event.{run}
use seelf.Pkg.Table.{find}
use seelf.Domain.Entrypoints.{TargetEntrypointsAssigned}
use seelf.Domain.TargetState.{is_outdated}
use seelf.Domain.Target.{Target, TargetEvent, configured}
use seelf.Domain.Target.Calls.{call, marks_configured, Inv}
use seelf.Store.Targets.{TargetRow, Targets, row_id, get_by_id, target_from, write, statement}
use seelf.Store.Targets.RoundTrip.{row_of, settled, write_back, get_by_id-row_of}

abbrev pub assigned_of : Result TargetEntrypointsAssigned → TargetEntrypointsAssigned
assigned_of (ok assigned) = assigned
assigned_of (err e) = []

abbrev pub setup_error : Result TargetEntrypointsAssigned → Option Error
setup_error (ok assigned) = none
setup_error (err e) = some e

configured_late :
    (t : Target) (version : Time) (assigned : TargetEntrypointsAssigned) (e : Option Error)
    → is_outdated t.state version ≡ true
    → configured t version assigned e ≡ t
unfolding configured
configured_late t version assigned none late = ground (arith, late)
configured_late t version assigned (some e) late = ground (arith, late)

module _ (engine : Targets → Option Error) (setup : Target → Result TargetEntrypointsAssigned) where
  -- The deferred function: what the provider did, on a fresh version of the target.
  unfoldable pub finish :
      Targets → String → Time → Result TargetEntrypointsAssigned → Targets × Option Error
  unfolding get_by_id configured write
  finish rows id version out = elim (get_by_id rows id) [
    | err e ↦ (rows, if is_not_found e then none else some e)
    | ok t ↦
        let t' = configured t version (assigned_of out) (setup_error out) in
        elim (write engine rows t'.events) [ err e ↦ (rows, some e) | ok rows' ↦ (rows', none) ]
  ]

  unfoldable pub configure_target_handler :
      Targets → String → Time → (Targets → Targets) → Targets × Option Error
  unfolding get_by_id is_outdated finish
  configure_target_handler rows id version meanwhile = elim (get_by_id rows id) [
    | err e ↦ (rows, if is_not_found e then none else some e)
    | ok t ↦
        let done = finish (meanwhile rows) id version (setup t) in
        if is_outdated t.state version then (rows, none) else done
  ]

  write_accepted :
      (rows : Targets) (es : List TargetEvent)
      → ((ts : Targets) → engine ts ≡ none)
      → (rows' : Targets) × (write engine rows es ≡ ok rows')
  unfolding write
  write_accepted rows [] accepts = (rows, refl)
  write_accepted rows (e ∷ es) accepts =
      let (rows', w) = write_accepted (statement rows e) es accepts in
      (rows', ground (arith, accepts (statement rows e), w))

  -- The fresh target is configured, written, and read back.
  finish-configured :
      (rows : Targets) (version : Time) (t : Target) (out : Result TargetEntrypointsAssigned)
      → Inv (settled t)
      → ((ts : Targets) → engine ts ≡ none)
      → find row_id t.id rows ≡ some (row_of t)
      → ((finish rows t.id version out).1 ≡ none)
        × (get_by_id (finish rows t.id version out).0 t.id
            ≡ ok (settled (configured (settled t) version (assigned_of out) (setup_error out))))
  unfolding finish run call
  finish-configured rows version t out v accepts here =
      let t' = configured (settled t) version (assigned_of out) (setup_error out) in
      let (rows', w) = write_accepted rows t'.events accepts in
      let mark = marks_configured version (assigned_of out) (setup_error out) in
      let (back, others) =
        write_back engine rows rows' (settled t) ((mark, refl) ∷ []) t.id v refl here w in
      let found = get_by_id-row_of rows t t.id here in
      (ground (arith, found, w), ground (arith, found, w, back))

  -- A configuration of the current version: however the provider's answer came out, the fresh target
  -- that the table holds afterwards is marked with it.
  pub configure_marks :
      (rows : Targets) (r : TargetRow) (version : Time) (t : Target) (meanwhile : Targets → Targets)
      → Inv (settled t)
      → ((ts : Targets) → engine ts ≡ none)
      → find row_id t.id rows ≡ some r
      → is_outdated r.state version ≡ false
      → find row_id t.id (meanwhile rows) ≡ some (row_of t)
      → let out = setup (target_from r) in
        let final = configure_target_handler rows t.id version meanwhile in
        (final.1 ≡ none)
        × (get_by_id final.0 t.id
            ≡ ok (settled (configured (settled t) version (assigned_of out) (setup_error out))))
  unfolding configure_target_handler get_by_id target_from
  configure_marks rows r version t meanwhile v accepts old current fresh =
      let (quiet, back) =
        finish-configured (meanwhile rows) version t (setup (target_from r)) v accepts fresh in
      (ground (arith, old, current, quiet), ground (arith, old, current, back))

  finish_late :
      (rows : Targets) (id : String) (r : TargetRow) (version : Time)
      (out : Result TargetEntrypointsAssigned)
      → find row_id id rows ≡ some r
      → is_outdated r.state version ≡ true
      → finish rows id version out ≡ (rows, none)
  unfolding finish get_by_id write target_from
  finish_late rows id r version out here late = ground (
    arith,
    here,
    configured_late (target_from r) version (assigned_of out) (setup_error out) late,
  )

  -- The result of a configuration that was current when the job began, and is outdated when the
  -- provider has answered, is dropped: the table stays as the rest of the program made it, and the job
  -- is not retried.
  pub configure_superseded :
      (rows : Targets) (id : String) (r r' : TargetRow) (version : Time)
      (meanwhile : Targets → Targets)
      → find row_id id rows ≡ some r
      → find row_id id (meanwhile rows) ≡ some r'
      → is_outdated r.state version ≡ false
      → is_outdated r'.state version ≡ true
      → configure_target_handler rows id version meanwhile ≡ (meanwhile rows, none)
  unfolding configure_target_handler get_by_id target_from
  configure_superseded rows id r r' version meanwhile old fresh current late = ground (
    arith,
    old,
    current,
    finish_late (meanwhile rows) id r' version (setup (target_from r)) fresh late,
  )
