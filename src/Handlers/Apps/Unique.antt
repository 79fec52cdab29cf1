-- ===== src/Handlers/Apps/Unique.antt =====
-- Commands on applications and the names of the table.
use seelf.Prelude.{
  unless-ok, bind-ok, String, ◌≡◌, refl, sym, ap, ◌∙◌, Bool, false, Option, none, List, [], ◌∷◌,
  ◌++◌, arith, not, string_eq, ◌⊎◌, inl, inr, All, All-append, ok, err, Error, Option-cases,
  Result-cases, map, subst, invalid_app_name,
}
use mathlib.Core.List.{map-append}
use seelf.Pkg.Action.{Time, new_action}
use seelf.Pkg.Validate.{value_target, value_error, struct}
use seelf.Pkg.Validate.Fields.{IsReal, struct_first}
use seelf.Domain.Values.{
  UrlValue, Userinfo, EnvironmentConfig, VersionControl, new_version_control, authenticated,
  zero_url,
}
use seelf.Domain.Requirement.{
  EnvironmentConfigRequirement, new_environment_config_requirement, environment_error,
  environment_met,
}
use seelf.Domain.Urls.{url_from}
use seelf.Domain.Naming.{app_name_from}
use seelf.Domain.App.{
  App, zero_app, AppEvent, app_created, app_version_control_configured, new_app,
  use_version_control, apply,
}
use seelf.Store.Targets.{Targets}
use seelf.Store.Apps.{Apps, statement, write, check_app_naming_availability}
use seelf.Handlers.Apps.{
  CreateApp, validate_create, build_environment_config, with_version_control, create_app_handler,
  other_fields, requirement_errors, create_required,
}
use seelf.Handlers.Apps.Names.{
  Naming, naming, Unique, Inv, Unique-append, naming-update, none_there, checked_name,
}

is_available :
    (c : EnvironmentConfig) (there taken : Bool)
    → environment_error (new_environment_config_requirement c there (not taken)) ≡ none
    → taken ≡ false
unfolding environment_error new_environment_config_requirement
is_available c there taken h = ground (arith, h)

name_error : (value : String) (e : Error) → app_name_from value ≡ err e → e ≡ invalid_app_name
unfolding app_name_from
name_error value e h = ground (arith, h)

met-ok :
    (r : EnvironmentConfigRequirement) (c : EnvironmentConfig)
    → environment_met r ≡ ok c
    → (environment_error r ≡ none) × (r.config ≡ c)
unfolding environment_met
met-ok r c h = elim (Option-cases (environment_error r)) [
  | inl fine ↦ (fine, ground (arith, h, fine))
  | inr (e, bad) ↦ absurd (ground (arith, h, bad))
]

module _ (parse : String → Option (UrlValue × Option Userinfo)) (engine : Apps → Option Error) where
  -- A validated command has a name that passes the check.
  name_checked :
      (cmd : CreateApp parse)
      → validate_create parse cmd ≡ none
      → app_name_from cmd.name ≡ ok (value_target "" (app_name_from cmd.name))
  unfolding validate_create IsReal
  name_checked cmd h = elim (Result-cases (app_name_from cmd.name)) [
    | inl (name, e) ↦ e ∙ ap (λ r. ok (value_target "" r)) (sym e)
    | inr (e, bad) ↦
        let refused = bad ∙ ap err (name_error cmd.name e bad) in
        absurd (
          struct_first "name" invalid_app_name (other_fields parse cmd) tt (
            subst (λ r. struct (("name", value_error r) ∷ other_fields parse cmd) ≡ none) refused
              h))
  ]

  abbrev created :
      String
      → String
      → EnvironmentConfigRequirement
      → EnvironmentConfigRequirement
      → String
      → Time
      → AppEvent
  created id name prod stag by now = app_created id name prod.config stag.config (new_action by now)

  new_app-ok :
      (id name by : String) (prod stag : EnvironmentConfigRequirement) (now : Time) (a : App)
      → new_app id name prod stag by now ≡ ok a
      → (environment_error prod ≡ none)
        × (environment_error stag ≡ none)
        × (apply zero_app (created id name prod stag by now) ≡ a)
  unfolding new_app
  new_app-ok id name by prod stag now a h =
      let (p, hp, h') = bind-ok (environment_met prod) _ h in
      let (s, hs, made) = bind-ok (environment_met stag) _ h' in
      let (ep, cp) = met-ok prod p hp in
      let (es, cs) = met-ok stag s hs in
      (
        ep,
        es,
        (λ i. apply zero_app (app_created id name (cp i) (cs i) (new_action by now)))
            ∙ ground (arith, made),
      )

  -- The events of a new application.
  new_events :
      (cmd : CreateApp parse) (id name by : String) (prod stag : EnvironmentConfigRequirement)
      (now : Time)
      → let e = created id name prod stag by now in
        let events = (with_version_control parse (apply zero_app e) cmd).events in
        (events ≡ e ∷ [])
        ⊎ ((vcs : VersionControl) × (events ≡ e ∷ app_version_control_configured id vcs ∷ []))
  unfolding with_version_control use_version_control apply
  new_events cmd id name by prod stag now = elim (Option-cases cmd.version_control) [
    | inl gone ↦ inl (rw (gone, with_version_control) refl)
    | inr (c, given) ↦
        let vcs = new_version_control (value_target zero_url (url_from parse c.url)) in
        elim (Option-cases c.token) [
          | inl free ↦ inr (vcs, rw (given, free) refl)
          | inr (token, t) ↦ inr (authenticated vcs token, rw (given, t) refl)
        ]
  ]

  write-cons :
      (rows rows' : Apps) (e : AppEvent) (es : List AppEvent)
      → write engine rows (e ∷ es) ≡ ok rows'
      → write engine (statement rows e) es ≡ ok rows'
  unfolding write
  write-cons rows rows' e es h = elim (Option-cases (engine (statement rows e))) [
    | inl accepted ↦ ground (arith, h, accepted)
    | inr (x, refused) ↦ absurd (ground (arith, h, refused))
  ]

  write-nil : (rows rows' : Apps) → write engine rows [] ≡ ok rows' → rows ≡ rows'
  unfolding write
  write-nil rows rows' h = ground (arith, h)

  -- What the creation of an application writes.
  written :
      (apps apps' : Apps) (id name by : String) (prod stag : EnvironmentConfigRequirement)
      (now : Time) (events : List AppEvent)
      → (events ≡ created id name prod stag by now ∷ [])
        ⊎ ((vcs : VersionControl) × (events
              ≡ created id name prod stag by now ∷ app_version_control_configured id vcs ∷ []))
      → write engine apps events ≡ ok apps'
      → map naming apps'
        ≡ map naming apps
          ++ (record { name = name; production = prod.config.target; staging = stag.config.target }
              ∷ [])
  unfolding statement
  written apps apps' id name by prod stag now events (inl e) w =
      let first = created id name prod stag by now in
      let done =
        write-nil _ apps'
          (write-cons apps apps' first [] (subst (λ l. write engine apps l ≡ ok apps') e w)) in
      ap (map naming) (sym done) ∙ map-append naming apps _
  written apps apps' id name by prod stag now events (inr (vcs, e)) w =
      let first = created id name prod stag by now in
      let second = app_version_control_configured id vcs in
      let next =
        write-cons apps apps' first (second ∷ [])
          (subst (λ l. write engine apps l ≡ ok apps') e w) in
      let done = write-nil _ apps' (write-cons (statement apps first) apps' second [] next) in
      ap (map naming) (sym done)
      ∙ (naming-update id _ (statement apps first) (λ r. refl) ∙ map-append naming apps _)

  create_required-ok :
      (apps apps' : Apps) (cmd : CreateApp parse) (id name by made : String) (now : Time)
      (prod stag : EnvironmentConfigRequirement)
      → create_required parse engine apps cmd id name by now prod stag ≡ ok (apps', made)
      → (environment_error prod ≡ none)
        × (environment_error stag ≡ none)
        × (map naming apps'
            ≡ map naming apps
              ++ (record {
                name = name;
                production = prod.config.target;
                staging = stag.config.target;
              }
                  ∷ []))
  unfolding create_required
  create_required-ok apps apps' cmd id name by made now prod stag h =
      let (_, h2) = unless-ok (requirement_errors parse prod stag) _ (apps', made) h in
      let (a, created_, h3) = bind-ok (new_app id name prod stag by now) _ h2 in
      let (rows, stored, h4) =
        bind-ok (write engine apps (with_version_control parse a cmd).events) _ h3 in
      let (fine_prod, fine_stag, same) = new_app-ok id name by prod stag now a created_ in
      let names =
        written apps rows id name by prod stag now _ (new_events cmd id name by prod stag now) (
          subst (λ b. write engine apps (with_version_control parse b cmd).events ≡ ok rows)
            (sym same) stored) in
      let end : rows ≡ apps' = ground (arith, h4) in
      (fine_prod, fine_stag, sym (ap (map naming) end) ∙ names)

  -- Creating an application keeps the names unique, and lets no name in that has not passed the check.
  pub create_app-Inv :
      (apps apps' : Apps) (targets : Targets) (cmd : CreateApp parse) (id by made : String)
      (now : Time)
      → Inv apps
      → create_app_handler parse engine apps targets cmd id by now ≡ ok (apps', made)
      → Inv apps'
  unfolding create_app_handler check_app_naming_availability
  create_app-Inv apps apps' targets cmd id by made now v h =
      let name = value_target "" (app_name_from cmd.name) in
      let p = build_environment_config cmd.production now in
      let s = build_environment_config cmd.staging now in
      let r = check_app_naming_availability apps targets name p s in
      let (valid, h1) =
        unless-ok (validate_create parse cmd)
          (create_required parse engine apps cmd id name by now r.0 r.1) (apps', made) h in
      let (fine_prod, fine_stag, names) =
        create_required-ok apps apps' cmd id name by made now r.0 r.1 h1 in
      let n : Naming = record { name = name; production = p.target; staging = s.target } in
      let differ =
        none_there name p.target s.target apps (is_available p _ _ fine_prod)
          (is_available s _ _ fine_stag) in
      record {
        unique = subst Unique (sym names) (Unique-append (map naming apps) n v.unique differ);
        checked = subst (All (λ m. app_name_from m.name ≡ ok m.name)) (sym names) (
            All-append _ (map naming apps) (n ∷ []) v.checked
              (checked_name cmd.name name (name_checked cmd valid), tt));
      }
