-- ===== src/Handlers/Targets/Updating.antt =====
-- What update_target makes of a target.
use seelf.Prelude.{
  String, ◌≡◌, ◌≢◌, refl, sym, ap, ◌∙◌, Option, none, some, List, [], ◌∷◌, ◌++◌, arith, Result, ok,
  Error, bind-ok, unless-ok, checked-ok, get_or, subst, ◌⊎◌, inl, inr, string_eq,
}
use seelf.Pkg.Action.{Time}
use seelf.Pkg.Event.{run, run-append}
use seelf.Pkg.Table.{find}
use seelf.Pkg.Validate.{struct, if_set}
use seelf.Domain.Values.{Url, zero_url, UrlValue, Userinfo}
use seelf.Domain.Provider.{ProviderConfig}
use seelf.Domain.Requirement.{
  UrlRequirement, url_error, url_met, ProviderConfigRequirement, config_error, config_met,
}
use seelf.Domain.TargetState.{configuring, TargetStatus-discrete}
use seelf.Domain.Target.{Target, rename, has_url, has_provider}
use seelf.Domain.Target.Calls.{call, renames, changes_url, changes_provider, Inv}
use seelf.Store.Targets.{Targets, row_id, get_by_id, write}
use seelf.Store.Targets.RoundTrip.{
  row_of, settled, write_back, get_by_id-row_of, Update, update_target,
}
use seelf.Handlers.Targets.{
  UpdateTarget, if_given, validate_update, url_requirement, config_requirement,
  update_target_handler,
}

-- A step of the command as updates, with what it keeps.
record Made (t t' : Target) : Type 0 where
  updates : List Update
  same : run update_target t updates ≡ t'

-- The step changes nothing, or leaves the target to be configured.
record Restarts (t t' : Target) : Type 0 where
  name : t'.name ≡ t.name
  setup : t'.state.status ≢ configuring → t' ≡ t

renamed :
    (name : Option String) (t t' : Target)
    → if_given name rename t ≡ ok t'
    → Made t t' × (t'.name ≡ get_or name t.name) × (t'.url ≡ t.url) × (t'.provider ≡ t.provider)
unfolding run call rename
renamed none t t' h = (
  record { updates = []; same = ground (arith, h) },
  ground (arith, h),
  ground (arith, h),
  ground (arith, h),
)
renamed (some name) t t' h =
    let (fine, same) = checked-ok (rename t name) t' h in
    (
      record { updates = (renames name, refl) ∷ []; same = same },
      ground (arith, fine, same),
      ground (arith, fine, same),
      ground (arith, fine, same),
    )

url_changed :
    (requirement : Option UrlRequirement) (now : Time) (t t' : Target)
    → if_given requirement (λ u r. has_url u r now) t ≡ ok t'
    → Made t t' × Restarts t t'
unfolding run call has_url url_met url_error
url_changed none now t t' h = (
  record { updates = []; same = ground (arith, h) },
  record { name = ground (arith, h); setup = λ _. ground (arith, h) },
)
url_changed (some q) now t t' h =
    let (fine, same) = checked-ok (has_url t q now) t' h in
    (
      record { updates = (changes_url q now, refl) ∷ []; same = same },
      record {
        name = ground (arith, fine, same);
        setup = λ calm. ground (arith, fine, same, calm);
      },
    )

provider_changed :
    (requirement : Option ProviderConfigRequirement) (now : Time) (t t' : Target)
    → if_given requirement (λ u r. has_provider u r now) t ≡ ok t'
    → Made t t' × Restarts t t'
unfolding run call has_provider config_met config_error
provider_changed none now t t' h = (
  record { updates = []; same = ground (arith, h) },
  record { name = ground (arith, h); setup = λ _. ground (arith, h) },
)
provider_changed (some q) now t t' h =
    let (fine, same) = checked-ok (has_provider t q now) t' h in
    (
      record { updates = (changes_provider q now, refl) ∷ []; same = same },
      record {
        name = ground (arith, fine, same);
        setup = λ calm. ground (arith, fine, same, calm);
      },
    )

Made-trans : (t u v : Target) → Made t u → Made u v → Made t v
Made-trans t u v first next = record {
  updates = first.updates ++ next.updates;
  same =
      run-append update_target t first.updates next.updates
      ∙ (ap (λ s. run update_target s next.updates) first.same ∙ next.same);
}

-- What is read back of the target that a step made.
record ReadBack (name : Option String) (t t' : Target) : Type 0 where
  pub named : t'.name ≡ get_or name t.name
  pub calm : t'.state.status ≢ configuring → (t'.url ≡ t.url) × (t'.provider ≡ t.provider)

all_steps :
    (name : Option String) (urls : Option UrlRequirement)
    (configs : Option ProviderConfigRequirement) (now : Time) (t t1 t2 t3 : Target)
    → if_given name rename t ≡ ok t1
    → if_given urls (λ u r. has_url u r now) t1 ≡ ok t2
    → if_given configs (λ u r. has_provider u r now) t2 ≡ ok t3
    → Made t t3 × ReadBack name t t3
all_steps name urls configs now t t1 t2 t3 h1 h2 h3 =
    let (made1, named, url, provider) = renamed name t t1 h1 in
    let (made2, step2) = url_changed urls now t1 t2 h2 in
    let (made3, step3) = provider_changed configs now t2 t3 h3 in
    (
      Made-trans t t1 t3 made1 (Made-trans t1 t2 t3 made2 made3),
      record {
        named = step3.name ∙ (step2.name ∙ named);
        calm = λ calm.
            let third = step3.setup calm in
            let second = step2.setup (λ s. calm (ap (λ u. u.state.status) third ∙ s)) in
            let both = third ∙ second in
            (ap (λ u. u.url) both ∙ url, ap (λ u. u.provider) both ∙ provider);
      },
    )

module _ (parse : String → Option (UrlValue × Option Userinfo)) (engine : Targets → Option Error)
    {Payload : Type 0} (prepare : Payload → List ProviderConfig → Result ProviderConfig) where
  -- An update that succeeds leaves, under the id of the target, one that has the given name, if there is
  -- one, and that is being configured again unless its url and its provider are what they were; the
  -- other targets are as they were.
  pub update_target_lem :
      (rows rows' : Targets) (t : Target) (cmd : UpdateTarget Payload) (now : Time) (id j : String)
      → Inv (settled t)
      → find row_id t.id rows ≡ some (row_of t)
      → cmd.id ≡ t.id
      → update_target_handler parse engine prepare rows cmd now ≡ ok (rows', id)
      → t.id ≢ j
      → ((t' : Target) × (get_by_id rows' t.id ≡ ok t')
          × (t'.name ≡ get_or cmd.name t.name)
          × ((t'.state.status ≡ configuring)
              ⊎ ((t'.url ≡ (settled t).url) × (t'.provider ≡ t.provider))))
        × (find row_id j rows' ≡ find row_id j rows)
  unfolding update_target_handler
  update_target_lem rows rows' t cmd now id j v here is_t h other =
      let (_, h1) = unless-ok (validate_update parse engine prepare cmd) _ (rows', id) h in
      let (read, got, h2) = bind-ok (get_by_id rows cmd.id) _ h1 in
      let same : settled t ≡ read = ground (
        arith,
        got,
        subst (λ i. get_by_id rows i ≡ ok (settled t)) (sym is_t)
            (get_by_id-row_of rows t t.id here),
      ) in
      let urls = url_requirement parse engine prepare rows read cmd.url in
      let (configs, _, h3) =
        bind-ok (config_requirement parse engine prepare rows read cmd.provider) _ h2 in
      let (_, h4) =
        unless-ok
          (struct
            (("url", if_set urls url_error) ∷ (configs.0, if_set configs.1 config_error) ∷ []))
          _ (rows', id) h3 in
      let (t1, s1, h5) = bind-ok (if_given cmd.name rename read) _ h4 in
      let (t2, s2, h6) = bind-ok (if_given urls (λ u r. has_url u r now) t1) _ h5 in
      let (t3, s3, h7) = bind-ok (if_given configs.1 (λ u r. has_provider u r now) t2) _ h6 in
      let (written, stored, h8) = bind-ok (write engine rows t3.events) _ h7 in
      let end : written ≡ rows' = ground (arith, h8) in
      let (made, back) =
        subst (λ s. Made s t3 × ReadBack cmd.name s t3) (sym same)
          (all_steps cmd.name urls configs.1 now read t1 t2 t3 s1 s2 s3) in
      let w : write engine rows (run update_target (settled t) made.updates).events ≡ ok rows' =
        ap (λ s. write engine rows s.events) made.same ∙ (stored ∙ ap ok end) in
      let public : Url → Url = λ u. record zero_url { value = u.value } in
      let (mine, others) = write_back engine rows rows' (settled t) made.updates j v refl here w in
      (
        (
          settled t3,
          mine ∙ ap (λ s. ok (settled s)) made.same,
          back.named,
          elim (TargetStatus-discrete t3.state.status configuring) [
            | yes again ↦ inl again
            | no calm ↦ let kept = back.calm calm in inr (ap public kept.0, kept.1)
          ],
        ),
        others other,
      )
