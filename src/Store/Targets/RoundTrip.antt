-- ===== src/Store/Targets/RoundTrip.antt =====
-- Writing the pending events of a target, and reading the target back.
use mathlib.Core.Option
use seelf.Prelude.{
  String, ◌≡◌, ◌≢◌, refl, Bool, true, false, Option, none, some, List, [], ◌∷◌, arith, ok, Error,
  All, string_eq, ◌∙◌, sym, ap, subst, Option-cases, inl, inr,
}
use seelf.Pkg.Table.{find, update, find-update}
use seelf.Pkg.Event.{replay, run, trace, run-replay, events-run, trace-All}
use seelf.Domain.Values.{zero_url}
use seelf.Domain.Provider.{provider_kind, fingerprint}
use seelf.Domain.Target.{
  Target, TargetEvent, target_created, target_state_changed, target_renamed, target_url_changed,
  target_provider_changed, target_entrypoints_changed, target_marked_for_cleanup, target_deleted,
  apply,
}
use seelf.Domain.Target.Calls.{
  Call, renames, changes_url, changes_provider, reconfigures, marks_configured, exposes, un_exposes,
  requests_cleanup, deletes, call, Inv, call-Inv,
}
use seelf.Domain.Target.Replay.{target_source, emitted, call-emitted}
use seelf.Store.Targets.{TargetRow, Targets, row_id, statement, target_from, get_by_id, write}

-- The row that a target should have.
abbrev pub row_of : Target → TargetRow
row_of t = record {
  id = t.id;
  name = t.name;
  url = t.url.value;
  provider_kind = provider_kind t.provider;
  provider_fingerprint = fingerprint t.provider;
  provider = t.provider;
  state = t.state;
  entrypoints = t.custom_entrypoints;
  cleanup_requested_at = Option.map (λ a. a.at) t.cleanup_requested;
  cleanup_requested_by = Option.map (λ a. a.by) t.cleanup_requested;
  created_at = t.created.at;
  created_by = t.created.by;
}

-- An event about this target that neither creates nor deletes it.
abbrev pub Changes : String → TargetEvent → Type 0
Changes id (target_created _ _ _ _ _ _ _) = ⊥
Changes id (target_state_changed i _) = i ≡ id
Changes id (target_renamed i _) = i ≡ id
Changes id (target_url_changed i _) = i ≡ id
Changes id (target_provider_changed i _) = i ≡ id
Changes id (target_entrypoints_changed i _) = i ≡ id
Changes id (target_marked_for_cleanup i _) = i ≡ id
Changes id (target_deleted _) = ⊥

module _ (rows : Targets) (t : Target) where
  row_updated :
      (f : TargetRow → TargetRow) (id j : String) (u : Target)
      → ((r : TargetRow) → (f r).id ≡ r.id)
      → id ≡ t.id
      → find row_id t.id rows ≡ some (row_of t)
      → f (row_of t) ≡ row_of u
      → (find row_id t.id (update row_id id f rows) ≡ some (row_of u))
        × (t.id ≢ j → find row_id j (update row_id id f rows) ≡ find row_id j rows)
  row_updated f id j u keeps e here same = (
    ground (arith, find-update row_id id t.id f rows keeps),
    λ d. ground (arith, find-update row_id id j f rows keeps),
  )

  statement_lem :
      (e : TargetEvent) (j : String)
      → Changes t.id e
      → find row_id t.id rows ≡ some (row_of t)
      → (find row_id t.id (statement rows e) ≡ some (row_of (apply t e)))
        × (t.id ≢ j → find row_id j (statement rows e) ≡ find row_id j rows)
  unfolding statement apply
  statement_lem (target_created _ _ _ _ _ _ _) j c here = absurd c
  statement_lem (target_state_changed i s) j c here =
      row_updated _ i j (apply t (target_state_changed i s)) (λ r. refl) c here refl
  statement_lem (target_renamed i n) j c here =
      row_updated _ i j (apply t (target_renamed i n)) (λ r. refl) c here refl
  statement_lem (target_url_changed i u) j c here =
      row_updated _ i j (apply t (target_url_changed i u)) (λ r. refl) c here refl
  statement_lem (target_provider_changed i p) j c here =
      row_updated _ i j (apply t (target_provider_changed i p)) (λ r. refl) c here refl
  statement_lem (target_entrypoints_changed i e) j c here =
      row_updated _ i j (apply t (target_entrypoints_changed i e)) (λ r. refl) c here refl
  statement_lem (target_marked_for_cleanup i a) j c here =
      row_updated _ i j (apply t (target_marked_for_cleanup i a)) (λ r. refl) c here refl
  statement_lem (target_deleted _) j c here = absurd c

id-apply : (t : Target) (e : TargetEvent) → Changes t.id e → (apply t e).id ≡ t.id
unfolding apply
id-apply t (target_created _ _ _ _ _ _ _) c = absurd c
id-apply t (target_deleted _) c = absurd c
id-apply t _ c = refl

module _ (engine : Targets → Option Error) (rows' : Targets) where
  write_lem :
      (rows : Targets) (t : Target) (es : List TargetEvent) (j : String)
      → write engine rows es ≡ ok rows'
      → All (Changes t.id) es
      → find row_id t.id rows ≡ some (row_of t)
      → (find row_id t.id rows' ≡ some (row_of (replay target_source t es)))
        × (t.id ≢ j → find row_id j rows' ≡ find row_id j rows)
  unfolding write replay
  write_lem rows t [] j w c here = ground arith
  write_lem rows t (e ∷ es) j w (ce, ces) here = elim (Option-cases (engine (statement rows e))) [
    | inr (x, refused) ↦ absurd (ground arith)
    | inl quiet ↦
        let same = id-apply t e ce in
        let (mine, others) = statement_lem rows t e j ce here in
        let (mine', others') =
          write_lem (statement rows e) (apply t e) es j (ground arith)
            (subst (λ i. All (Changes i) es) (sym same) ces)
            (subst (λ i. find row_id i (statement rows e) ≡ some (row_of (apply t e))) (sym same)
              mine) in
        (
          subst (λ i. find row_id i rows' ≡ some (row_of (replay target_source (apply t e) es)))
              same mine',
          λ d. others' (λ q. d (sym same ∙ q)) ∙ others d,
        )
  ]

-- A target as the store gives it: no event is pending, and its url has no user part.
abbrev pub AsStored : Target → Type 0
AsStored t = (t.events ≡ []) × (t.url ≡ record zero_url { value = t.url.value })

-- The target without its pending events and the user part of its url.
abbrev pub settled : Target → Target
settled t = record t { url = record zero_url { value = t.url.value }; events = [] }

target_from-row_of : (t : Target) → target_from (row_of t) ≡ settled t
unfolding target_from
target_from-row_of t = ground arith

abbrev keeps_row : Call → Bool
keeps_row (deletes _) = false
keeps_row _ = true

abbrev KeepsRow : Call → Type 0
KeepsRow c = keeps_row c ≡ true

-- The updates: every call but the deletion.
abbrev pub Update : Type 0
Update = (c : Call) × KeepsRow c

abbrev pub update_target : Target → Update → Target
update_target t u = call t u.0

Changes-emitted : (t : Target) (c : Call) → KeepsRow c → All (Changes t.id) (emitted t c)
unfolding emitted
Changes-emitted t (renames name) k = ground arith
Changes-emitted t (changes_url r now) k = ground arith
Changes-emitted t (changes_provider r now) k = ground arith
Changes-emitted t (reconfigures now) k = ground arith
Changes-emitted t (marks_configured version assigned none) k = ground arith
Changes-emitted t (marks_configured version assigned (some e)) k = ground arith
Changes-emitted t (exposes app env none now) k = ground arith
Changes-emitted t (exposes app env (some services) now) k = ground arith
Changes-emitted t (un_exposes app envs now) k = ground arith
Changes-emitted t (requests_cleanup apps by now) k = ground arith
Changes-emitted t (deletes cleaned_up) k = absurd (ground arith)

id-replay :
    (t : Target) (es : List TargetEvent)
    → All (Changes t.id) es
    → (replay target_source t es).id ≡ t.id
unfolding replay
id-replay t [] a = refl
id-replay t (e ∷ es) (ce, ces) =
    let same = id-apply t e ce in
    id-replay (apply t e) es (subst (λ i. All (Changes i) es) (sym same) ces) ∙ same

id-call : (t : Target) (c : Call) → Inv t → KeepsRow c → (call t c).id ≡ t.id
id-call t c v k =
    ap (λ x. x.id) (call-emitted t c v) ∙ id-replay t (emitted t c) (Changes-emitted t c k)

-- The invariant of a target that is known under an id.
abbrev Known : String → Target → Type 0
Known id t = Inv t × (t.id ≡ id)

Known-update : (id : String) (t : Target) (u : Update) → Known id t → Known id (update_target t u)
Known-update id t (c, k) (v, same) = (call-Inv t c v, id-call t c v k ∙ same)

tells :
    (id : String) (t : Target) (u : Update)
    → Known id t
    → update_target t u ≡ replay target_source t (emitted t u.0)
tells id t (c, k) (v, same) = call-emitted t c v

owns : (id : String) (t : Target) (u : Update) → Known id t → All (Changes id) (emitted t u.0)
owns id t (c, k) (v, same) = subst (λ i. All (Changes i) (emitted t c)) same (Changes-emitted t c k)

pub get_by_id-row_of :
    (rows : Targets) (t : Target) (id : String)
    → find row_id id rows ≡ some (row_of t)
    → get_by_id rows id ≡ ok (settled t)
unfolding get_by_id
get_by_id-row_of rows t id here = ground (arith, here, target_from-row_of t)

-- What is written of a target, and that nothing else is.
pub write_back :
    (engine : Targets → Option Error) (rows rows' : Targets) (t : Target) (us : List Update)
    (j : String)
    → Inv t
    → t.events ≡ []
    → find row_id t.id rows ≡ some (row_of t)
    → write engine rows (run update_target t us).events ≡ ok rows'
    → (get_by_id rows' t.id ≡ ok (settled (run update_target t us)))
      × (t.id ≢ j → find row_id j rows' ≡ find row_id j rows)
write_back engine rows rows' t us j v fresh here w =
    let known = Known-update t.id in
    let pending =
      events-run target_source update_target (λ s u. emitted s u.0) (Known t.id) known (tells t.id)
        t us (v, refl) fresh in
    let same =
      run-replay target_source update_target (λ s u. emitted s u.0) (Known t.id) known (tells t.id)
        t us (v, refl) in
    let own =
      trace-All target_source update_target (λ s u. emitted s u.0) (Known t.id) known (tells t.id)
        (Changes t.id) (owns t.id) t us (v, refl) in
    let told =
      trace target_source update_target (λ s u. emitted s u.0) (Known t.id) known (tells t.id) t
        us in
    let (mine, others) =
      write_lem engine rows' rows t told j (subst (λ es. write engine rows es ≡ ok rows') pending w)
        own here in
    (
      subst (λ x. get_by_id rows' t.id ≡ ok (settled x)) (sym same)
          (get_by_id-row_of rows' (replay target_source t told) t.id mine),
      others,
    )

-- A target that the table holds is read, updated by any calls, and its pending events are written,
-- every statement being accepted: the table then gives the updated target back, without its pending
-- events and the user part of its url, and no other row has changed.
pub write-get_by_id :
    (engine : Targets → Option Error) (rows rows' : Targets) (t : Target) (us : List Update)
    (j : String)
    → Inv t
    → t.events ≡ []
    → find row_id t.id rows ≡ some (row_of t)
    → write engine rows (run update_target t us).events ≡ ok rows'
    → t.id ≢ j
    → (get_by_id rows' t.id ≡ ok (settled (run update_target t us)))
      × (find row_id j rows' ≡ find row_id j rows)
write-get_by_id engine rows rows' t us j v fresh here w d =
    let (mine, others) = write_back engine rows rows' t us j v fresh here w in (mine, others d)
